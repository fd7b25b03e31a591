-- ===== src/Escoba/Tests.antt =====
-- Runs of Escoba at concrete hands.
use convite.Prelude.{
  drop, ℕ, zero, suc, ◌+◌, ◌*◌, ◌≤◌, ◌<◌, ◌≡◌, ◌≢◌, ◌↔◌, ◌⊎◌, refl, ap, inl, inr, true, false, List,
  [], ◌∷◌, none, some, every, find, length, All, arith, ◌==◌, if◌then◌else◌, same_id,
}
use convite.Deck.{Card, card, oro, r7, same_card, build_deck}
use convite.Deck.Count.{count}
use convite.Escoba.State.{
  Team, Player, ByTeam, put, HandState, MatchState, HandScoreBreakdown, find_player, sum_values,
  decided,
}
use convite.Escoba.Capture.{
  PlayCardAction, ok, some_subset_sums_to, is_subset_from, is_subset_of_table, next_turn_player_id,
  capture_refusal, discard, settle_play, play_held, play_in_hand, apply_action,
}
use convite.Escoba.Moves.{get_legal_actions}
use convite.Escoba.Scoring.{score_hand_breakdown}
use convite.Escoba.Dealing.{deal, redeal, settle_hand_if_needed}
use convite.Deck.{card_id, espada, basto, copa, r1, r2, r3, r5, r12, suits}
use convite.Escoba.Sums.{Picks, some_subset_sums_to_iff}
use convite.Escoba.Offers.{IsPlayable, get_legal_actions-accepted, get_legal_actions-ne-nil, is_ok}
use convite.Escoba.Sums.{is_empty}
use convite.Escoba.Counting.{in_game, in_hands, in_pile}
use convite.Escoba.Conserve.{IsSeated, apply_action-in_game}
use convite.Escoba.Fifteen.{Stays, Takes, apply_action-fifteen}
use convite.Escoba.Setenta.{setenta_value}
use convite.Escoba.View.{get_view_for, blank, redact, view-redact_only}
use convite.Escoba.Scoring.{breakdown_of}
use convite.Escoba.Points.{points_won, score_hand_breakdown-points}
use convite.Escoba.Fair.{Once, breakdown_of-swap}
use convite.Escoba.Best.{best_in, has_suit, setenta_value-best_in}
use convite.Escoba.Stock.{redeal-in_game}
use convite.Escoba.Opening.{deal-in_game}
use convite.Escoba.Ending.{IsScorable, settle_hand_if_needed-scores}

abbrev siete : Card
siete = card r7 oro

abbrev rey : Card
rey = card r12 copa

abbrev cinco : Card
cinco = card r5 basto

abbrev as_card : Card
as_card = card r1 espada

abbrev team_a : Team
team_a = record { id = "A"; player_ids = "ana" ∷ []; score = 12 }

abbrev team_b : Team
team_b = record { id = "B"; player_ids = "beto" ∷ []; score = 31 }

abbrev ana : Player
ana = record { id = "ana"; team_id = "A"; seat = 0; hand = rey ∷ [] }

abbrev beto : Player
beto = record { id = "beto"; team_id = "B"; seat = 1; hand = siete ∷ [] }

abbrev piles : ByTeam (List Card)
piles = put "B" [] (put "A" [] (λ _. none))

abbrev swept : ByTeam ℕ
swept = put "B" 0 (put "A" 0 (λ _. none))

abbrev hand : HandState
hand = record {
  table = cinco ∷ as_card ∷ [];
  stock = [];
  piles = piles;
  escobas = swept;
  turn = "ana";
  last_capturer = some "A";
  outcome = none;
}

abbrev match_state : MatchState
match_state = record {
  team_a = team_a;
  team_b = team_b;
  players = ana ∷ beto ∷ [];
  dealer_seat = 0;
  hand = some hand;
}

abbrev capture : PlayCardAction
capture = record { player_id = "ana"; card = rey; captured = cinco ∷ [] }

abbrev hand_after : HandState
hand_after = record hand {
  table = as_card ∷ [];
  piles = put "A" (cinco ∷ rey ∷ []) piles;
  turn = "beto";
}

abbrev state_after : MatchState
state_after = record match_state {
  players = record ana { hand = [] } ∷ beto ∷ [];
  hand = some hand_after;
}

capturing : apply_action match_state capture ≡ ok state_after
unfolding apply_action play_in_hand play_held capture_refusal some_subset_sums_to is_subset_of_table
    is_subset_from next_turn_player_id settle_play discard find_player sum_values same_card card_id
capturing = refl

teams_differ : team_a.id ≢ team_b.id
teams_differ e = cc (ap (λ i. same_id i "B") e)

seated : IsSeated match_state
seated = record { teams_differ = teams_differ; on_team = (inl refl, (inr refl, tt)) }

once : (c : Card) → in_game c match_state hand ≤ 1
unfolding in_game in_hands in_pile count same_card card_id
once (card r1 espada) = omega arith
once (card _ espada) = omega arith
once (card r1 basto) = omega arith
once (card _ basto) = omega arith
once (card r1 oro) = omega arith
once (card _ oro) = omega arith
once (card r1 copa) = omega arith
once (card _ copa) = omega arith

apply_action-in_game_example :
    (h' : HandState) × (state_after.hand ≡ some h')
    × ((c : Card) → in_game c state_after h' ≡ in_game c match_state hand)
apply_action-in_game_example =
    apply_action-in_game match_state hand capture state_after seated refl once capturing

seats : (i : ℕ) → i < 2 → (p : Player) × (find (λ p. p.seat == i) (ana ∷ beto ∷ []) ≡ some p)
seats zero h = (ana, refl)
seats (suc zero) h = (beto, refl)
seats (suc (suc i)) h = let too_far : ⊥ = omega arith in elim too_far [ ]

in_game_table : (c : Card) → count c hand.table ≤ in_game c match_state hand
unfolding in_game
in_game_table c = omega arith

table_distinct : (c : Card) → count c hand.table ≤ 1
table_distinct c = omega (arith, once c, in_game_table c)

apply_action-fifteen_example :
    (p : Player) × (h' : HandState) × (find_player match_state.players "ana" ≡ some p)
    × (state_after.hand ≡ some h')
    × (Stays hand capture h' ⊎ Takes hand p capture h')
apply_action-fifteen_example =
    apply_action-fifteen match_state hand capture state_after refl table_distinct capturing

playable : IsPlayable match_state hand
playable = record {
  seats_taken = seats;
  piles_kept = (([], refl), (([], refl), tt));
  distinct = table_distinct;
}

get_legal_actions-accepted_example :
    All (λ a. is_ok (apply_action match_state a) ≡ true) (get_legal_actions match_state "ana")
get_legal_actions-accepted_example = get_legal_actions-accepted match_state hand "ana" playable refl

get_legal_actions-ne-nil_example : is_empty (get_legal_actions match_state "ana") ≡ false
unfolding find_player
get_legal_actions-ne-nil_example =
    get_legal_actions-ne-nil match_state hand ana "ana" rey [] refl refl refl refl

some_subset_sums_to_iff_example :
    (some_subset_sums_to hand.table 5 ≡ true)
    ↔ ((s : List Card) × Picks s hand.table × (sum_values s ≡ 5))
some_subset_sums_to_iff_example = some_subset_sums_to_iff hand.table 5

setenta_value-best_in_example : setenta_value (siete ∷ rey ∷ []) ≡ (
    if every (λ s. has_suit s (siete ∷ rey ∷ [])) suits
    then some (
        best_in espada (siete ∷ rey ∷ [])
        + best_in basto (siete ∷ rey ∷ [])
        + best_in oro (siete ∷ rey ∷ [])
        + best_in copa (siete ∷ rey ∷ []))
    else none)
setenta_value-best_in_example = setenta_value-best_in (siete ∷ rey ∷ [])

abbrev last_hand : HandState
last_hand = record hand {
  table = cinco ∷ [];
  piles = put "B" (siete ∷ []) (put "A" (rey ∷ []) (λ _. none));
}

-- Everybody has played, and one card is left on the table.
abbrev hand_over : MatchState
hand_over = record match_state {
  players = record ana { hand = [] } ∷ record beto { hand = [] } ∷ [];
  hand = some last_hand;
}

scorable : IsScorable "A" "B" 0 0 last_hand
scorable = record {
  pile_a = rey ∷ [];
  pile_b = siete ∷ [];
  at_a = refl;
  at_b = refl;
  escobas_a = refl;
  escobas_b = refl;
}

settle_hand_if_needed-scores_example :
    (t : MatchState) × (h' : HandState) × (d : HandScoreBreakdown) × (settle_hand_if_needed
        hand_over
      ≡ some t)
    × (t.hand ≡ some h')
    × (h'.outcome ≡ some (decided d))
    × (t.team_a.score ≡ 12 + points_won d "A" 0)
    × (t.team_b.score ≡ 31 + points_won d "B" 0)
settle_hand_if_needed-scores_example =
    settle_hand_if_needed-scores hand_over last_hand 0 0 refl refl refl teams_differ scorable
      (inl refl)

score_hand_breakdown-points_example :
    ((breakdown_of (rey ∷ []) (siete ∷ []) swept "A" "B").points "A"
      ≡ some (points_won (breakdown_of (rey ∷ []) (siete ∷ []) swept "A" "B") "A" 0))
    × ((breakdown_of (rey ∷ []) (siete ∷ []) swept "A" "B").points "B"
        ≡ some (points_won (breakdown_of (rey ∷ []) (siete ∷ []) swept "A" "B") "B" 0))
    × (points_won (breakdown_of (rey ∷ []) (siete ∷ []) swept "A" "B") "A" 0
          + points_won (breakdown_of (rey ∷ []) (siete ∷ []) swept "A" "B") "B" 0
        ≤ 0 + 0 + 4)
unfolding score_hand_breakdown
score_hand_breakdown-points_example =
    score_hand_breakdown-points last_hand "A" "B" 0 0
      (breakdown_of (rey ∷ []) (siete ∷ []) swept "A" "B") teams_differ refl refl refl

two-Once : Once (rey ∷ []) (siete ∷ [])
unfolding count same_card card_id
two-Once (card r1 espada) = omega arith
two-Once (card _ espada) = omega arith
two-Once (card r1 basto) = omega arith
two-Once (card _ basto) = omega arith
two-Once (card r1 oro) = omega arith
two-Once (card _ oro) = omega arith
two-Once (card r1 copa) = omega arith
two-Once (card _ copa) = omega arith

breakdown_of-swap_example :
    ((breakdown_of (rey ∷ []) (siete ∷ []) swept "A" "B").cartas
      ≡ (breakdown_of (siete ∷ []) (rey ∷ []) swept "B" "A").cartas)
    × ((breakdown_of (rey ∷ []) (siete ∷ []) swept "A" "B").oros
        ≡ (breakdown_of (siete ∷ []) (rey ∷ []) swept "B" "A").oros)
    × ((breakdown_of (rey ∷ []) (siete ∷ []) swept "A" "B").setenta
        ≡ (breakdown_of (siete ∷ []) (rey ∷ []) swept "B" "A").setenta)
    × ((breakdown_of (rey ∷ []) (siete ∷ []) swept "A" "B").siete_de_oro
        ≡ (breakdown_of (siete ∷ []) (rey ∷ []) swept "B" "A").siete_de_oro)
breakdown_of-swap_example =
    breakdown_of-swap (rey ∷ []) (siete ∷ []) swept "A" "B" teams_differ two-Once

length-build_deck : length build_deck ≡ 40
unfolding build_deck
length-build_deck = refl

deal-in_game_example :
    (t : MatchState) × (h : HandState) × (deal match_state build_deck ≡ some t)
    × (t.hand ≡ some h)
    × (All (λ p. length p.hand ≡ 3) t.players)
    × ((c : Card) → in_game c t h ≡ count c build_deck)
deal-in_game_example =
    deal-in_game match_state build_deck seated (omega arith) (omega (arith, length-build_deck))

abbrev six_left : HandState
six_left = record hand { stock = siete ∷ rey ∷ cinco ∷ as_card ∷ card r2 oro ∷ card r3 oro ∷ [] }

abbrev out_of_cards : MatchState
out_of_cards = record hand_over { hand = some six_left }

redeal-in_game_example :
    (t : MatchState) × (h' : HandState) × (redeal out_of_cards ≡ some t)
    × (t.hand ≡ some h')
    × (All (λ p. length p.hand ≡ 3) t.players)
    × (h'.stock ≡ drop (length out_of_cards.players * 3) six_left.stock)
    × ((c : Card) → in_game c t h' ≡ in_game c out_of_cards six_left)
redeal-in_game_example = redeal-in_game out_of_cards six_left refl (refl, (refl, tt)) (omega arith)

abbrev other_hand : MatchState
other_hand = record match_state { players = ana ∷ record beto { hand = cinco ∷ [] } ∷ [] }

same_to_ana : redact "ana" match_state ≡ redact "ana" other_hand
unfolding redact blank
same_to_ana = refl

view-redact_only_example : get_view_for match_state "ana" ≡ get_view_for other_hand "ana"
view-redact_only_example = view-redact_only match_state other_hand "ana" same_to_ana
