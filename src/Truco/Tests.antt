-- ===== src/Truco/Tests.antt =====
-- Runs of Truco at concrete hands.
use convite.Prelude.{
  ◌↔◌, ◌+◌, ◌≤◌, ◌≡◌, ◌≢◌, refl, ap, false, String, [], ◌∷◌, none, some, same_id, List, ltb,
  if◌then◌else◌, inl, inr, true, length, arith,
}
use convite.Truco.State.{
  not_called, Player, truco, pending, no_envido, undecided, decided, HandState, MatchState,
  declined, truco_response,
}
use convite.Deck.{same_card, card_id, card, r7, r3, r4, oro, copa}
use convite.Deck.Count.{among}
use convite.Truco.CardPlay.{
  PlayCardAction, PlayResult, apply_card_play_action, is_legal_card_play,
  get_legal_card_play_actions, playable_cards, calls_are_settled, play_card, discard,
}
use convite.Truco.Plays.{IsAligned, apply_card_play_action-IsAligned}
use convite.Truco.Trick.{PlayedCard, resolve_trick}
use convite.Truco.Tricks.{best_of, resolve_trick-best_of}
use convite.Truco.HandWinner.{resolve_hand_winner}
use convite.Truco.Deciding.{
  nobody, left, right, outcome_for, reference_winner, resolve_hand_winner-reference,
}
use convite.Truco.Chain.{
  respond_truco, TrucoAction, ok, find_player, is_decided, chain_moves, hand_moves,
  get_legal_truco_actions, is_legal_truco, award_points, answer, make_move, apply_truco_action,
}
use convite.Truco.Calls.{IsSettled, Stepped}
use convite.Truco.Accepting.{apply_truco_action_iff}
use convite.Truco.Engine.{truco_action, from_truco, apply_action}
use convite.Truco.Rounds.{truco_position, Run, stay, step, Run-truco}

abbrev hand : HandState
hand = record {
  mano_seat = 1;
  truco_state = pending truco "B";
  envido_state = no_envido;
  turn_seat = 1;
  current_trick_plays = [];
  trick_outcomes = [];
  outcome = undecided;
  senas = [];
  senas_sent = [];
  resolved_trick_plays = [];
  call_events = [];
}

abbrev called : MatchState
called = record {
  points_to_win = 15;
  teams =
      record { id = "A"; player_ids = "ana" ∷ []; score = 4 }
      ∷ record { id = "B"; player_ids = "beto" ∷ []; score = 6 }
      ∷ [];
  players =
      record { id = "ana"; team_id = "A"; seat = 0; hand = [] }
      ∷ record { id = "beto"; team_id = "B"; seat = 1; hand = [] }
      ∷ [];
  dealer_seat = 0;
  hand = some hand;
}

abbrev no_quiero : TrucoAction
no_quiero = record { player_id = "ana"; move = respond_truco false }

abbrev refused_state : MatchState
refused_state = record called {
  teams =
      record { id = "A"; player_ids = "ana" ∷ []; score = 4 }
      ∷ record { id = "B"; player_ids = "beto" ∷ []; score = 7 }
      ∷ [];
  hand = some (record hand {
    truco_state = declined truco "B" "A";
    outcome = decided "B";
    call_events = truco_response "ana" "A" 0 false ∷ [];
  });
}

refusing : apply_truco_action called no_quiero ≡ ok refused_state
unfolding apply_truco_action is_legal_truco get_legal_truco_actions hand_moves chain_moves make_move
    answer award_points find_player
refusing = refl

apply_truco_action_iff_example : (apply_truco_action called no_quiero ≡ ok refused_state) ↔ (
    (p : Player) × (find_player called.players "ana" ≡ some p)
    × IsSettled no_envido
    × (undecided ≡ undecided)
    × Stepped (pending truco "B") called hand p (respond_truco false) refused_state)
apply_truco_action_iff_example = apply_truco_action_iff called refused_state hand no_quiero refl

one_refusal : Run 1 0 called refused_state
unfolding apply_action
one_refusal = step (truco_action no_quiero) (ap from_truco refusing) stay

Run-truco_example : 1 + truco_position (pending truco "B") ≤ 7
Run-truco_example = Run-truco hand refl one_refusal

abbrev team_a_id : String
team_a_id = "A"

abbrev team_b_id : String
team_b_id = "B"

teams_differ : team_a_id ≢ team_b_id
teams_differ e = cc (ap (λ i. same_id i "B") e)

resolve_hand_winner-reference_example :
    resolve_hand_winner
      (outcome_for "A" "B" left ∷ outcome_for "A" "B" right ∷ outcome_for "A" "B" nobody ∷ [])
      "B"
    ≡ decided (reference_winner left right nobody "A" "B" "B")
resolve_hand_winner-reference_example =
    resolve_hand_winner-reference left right nobody "A" "B" "B" teams_differ

abbrev plays : List PlayedCard
plays =
    record { team_id = "A"; card = card r7 oro }
    ∷ record { team_id = "B"; card = card r3 copa }
    ∷ record { team_id = "A"; card = card r4 copa }
    ∷ []

resolve_trick-best_of_example : resolve_trick plays ≡ (
    if ltb (best_of "B" plays) (best_of "A" plays)
    then some "A"
    else (if ltb (best_of "A" plays) (best_of "B" plays) then some "B" else none))
resolve_trick-best_of_example =
    resolve_trick-best_of "A" "B" plays teams_differ (inl refl, (inr refl, (inl refl, tt)))

abbrev quiet_hand : HandState
quiet_hand = record hand { truco_state = not_called }

abbrev dealt : MatchState
dealt = record called {
  players =
      record { id = "ana"; team_id = "A"; seat = 0; hand = card r3 copa ∷ [] }
      ∷ record { id = "beto"; team_id = "B"; seat = 1; hand = card r7 oro ∷ card r4 copa ∷ [] }
      ∷ [];
  hand = some quiet_hand;
}

abbrev siete : PlayCardAction
siete = record { player_id = "beto"; card = card r7 oro }

abbrev played_hand : HandState
played_hand = record quiet_hand {
  current_trick_plays =
      record { player_id = "beto"; team_id = "B"; seat = 1; card = card r7 oro } ∷ [];
  turn_seat = 0;
}

abbrev after_siete : MatchState
after_siete = record dealt {
  players =
      record { id = "ana"; team_id = "A"; seat = 0; hand = card r3 copa ∷ [] }
      ∷ record { id = "beto"; team_id = "B"; seat = 1; hand = card r4 copa ∷ [] }
      ∷ [];
  hand = some played_hand;
}

playing : apply_card_play_action dealt siete ≡ PlayResult.ok after_siete
unfolding apply_card_play_action is_legal_card_play get_legal_card_play_actions playable_cards
    calls_are_settled find_player play_card discard same_card card_id
playing = refl

quiet_hand-IsAligned : IsAligned 2 quiet_hand
quiet_hand-IsAligned = record { outcomes = refl; full_tricks = tt; open_trick = omega arith }

apply_card_play_action-IsAligned_example :
    (p : Player) × (h' : HandState) × (find_player dealt.players "beto" ≡ some p)
    × (p.seat ≡ 1)
    × (among p.hand (card r7 oro) ≡ true)
    × (calls_are_settled quiet_hand ≡ true)
    × (is_decided undecided ≡ false)
    × (after_siete.hand ≡ some h')
    × IsAligned (length after_siete.players) h'
apply_card_play_action-IsAligned_example =
    apply_card_play_action-IsAligned dealt after_siete quiet_hand siete refl quiet_hand-IsAligned
      playing
