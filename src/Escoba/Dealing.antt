-- ===== src/Escoba/Dealing.antt =====
-- deal.ts and escoba.ts: the deals, the opening escoba and the leftovers; and the settlement of a
-- hand in packages/games/escoba-module/src/index.ts. Where the source would deal a missing card or
-- spread a missing pile, there is no state.
use convite.Prelude.{
  ℕ, zero, suc, ◌+◌, ◌-◌, ◌*◌, ◌/◌, ◌%◌, ◌==◌, ltb, Bool, true, false, ◌&&◌, String, List, [], ◌∷◌,
  ◌++◌, Option, none, some, if◌then◌else◌, every, find, get_elem?, take, drop, length,
}
use convite.Deck.{Card}
use convite.Escoba.State.{
  put, card_value, Player, HandState, MatchState, HandScoreBreakdown, decided, fifteen, sum_values,
}
use convite.Escoba.Capture.{bump}
use convite.Escoba.Scoring.{score_hand_breakdown}

abbrev pub cards_per_player : ℕ
cards_per_player = 3

abbrev pub table_opening_size : ℕ
table_opening_size = 4

abbrev pub double_fifteen : ℕ
double_fifteen = 30

abbrev pub cons_hand :
    Option Card → List Card → Option (List (List Card)) → Option (List (List Card))
cons_hand (some c) hand (some hands) = some ((hand ++ c ∷ []) ∷ hands)
cons_hand none hand _ = none
cons_hand (some c) hand none = none

-- One round: the card of every seat goes to the end of its hand.
unfoldable pub deal_round : List Card → ℕ → List (List Card) → Option (List (List Card))
deal_round source at [] = some []
deal_round source at (hand ∷ hands) =
    cons_hand (get_elem? source at) hand (deal_round source (suc at) hands)

-- The rounds from `round` on, `left` of them.
unfoldable pub deal_rounds : List Card → ℕ → ℕ → ℕ → List (List Card) → Option (List (List Card))
deal_rounds source seat_count round zero hands = some hands
deal_rounds source seat_count round (suc left) hands =
    elim (deal_round source (round * seat_count) hands) [
      | none ↦ none
      | some more ↦ deal_rounds source seat_count (suc round) left more
    ]

unfoldable pub empty_hands : ℕ → List (List Card)
empty_hands zero = []
empty_hands (suc n) = [] ∷ empty_hands n

unfoldable pub deal_hands_round_robin : List Card → ℕ → ℕ → Option (List (List Card))
deal_hands_round_robin source seat_count cards_per_seat =
    deal_rounds source seat_count 0 cards_per_seat (empty_hands seat_count)

-- `players.map((player, seat) => ({ ...player, hand: hands[seat]! }))`; there is a hand for everyone.
unfoldable pub with_hands : List Player → List (List Card) → List Player
with_hands (p ∷ ps) (hand ∷ hands) = record p { hand = hand } ∷ with_hands ps hands
with_hands [] hands = []
with_hands (p ∷ ps) [] = []

-- The cards whose bit is set in the mask.
unfoldable pub mask_sum : ℕ → List Card → ℕ
mask_sum mask [] = 0
mask_sum mask (c ∷ cards) = (if mask % 2 == 1 then card_value c else 0) + mask_sum (mask / 2) cards

unfoldable pub some_mask_sums_to : List Card → ℕ → ℕ → ℕ → Bool
some_mask_sums_to cards target mask zero = false
some_mask_sums_to cards target mask (suc left) =
    let rest = some_mask_sums_to cards target (mask + 1) left in
    if mask_sum mask cards == target then true else rest

unfoldable pub power_of_two : ℕ → ℕ
power_of_two zero = 1
power_of_two (suc n) = 2 * power_of_two n

-- The masks run from 1 to 2 ^ n - 2.
unfoldable pub has_proper_subset_summing_to : List Card → ℕ → Bool
has_proper_subset_summing_to cards target =
    some_mask_sums_to cards target 1 (power_of_two (length cards) - 2)

-- The table goes to the team's pile.
unfoldable pub sweep_table : String → HandState → Option HandState
sweep_table team_id hand = elim (hand.piles team_id) [
  | none ↦ none
  | some pile ↦
      some (record hand { table = []; piles = put team_id (pile ++ hand.table) hand.piles })
]

-- The dealer's team sweeps an opening table of fifteen and scores an escoba.
unfoldable pub sweep_opening : MatchState → HandState → Player → Option MatchState
sweep_opening state hand dealer = elim (sweep_table dealer.team_id hand) [
  | none ↦ none
  | some swept ↦ some (record state {
    hand = some (record swept {
      escobas = bump dealer.team_id hand.escobas;
      last_capturer = some dealer.team_id;
    });
  })
]

unfoldable pub opening_escoba : MatchState → HandState → Option MatchState
opening_escoba state hand =
    let total = sum_values hand.table in
    if total == fifteen
    then elim (find (λ p. p.seat == state.dealer_seat) state.players) [
      | none ↦ some state
      | some dealer ↦ sweep_opening state hand dealer
    ]
    else (if (total == double_fifteen) && has_proper_subset_summing_to hand.table fifteen
        then some state
        else some state)

unfoldable pub apply_opening_escoba : MatchState → Option MatchState
apply_opening_escoba state = elim state.hand [
  | none ↦ some state
  | some hand ↦ opening_escoba state hand
]

-- The hand that is dealt: the table from what the hands left, and the turn of the seat after the
-- dealer's.
unfoldable pub opening_hand : MatchState → List Card → String → HandState
opening_hand state rest turn = record {
  table = take table_opening_size rest;
  stock = drop table_opening_size rest;
  piles = put state.team_b.id [] (put state.team_a.id [] (λ _. none));
  escobas = put state.team_b.id 0 (put state.team_a.id 0 (λ _. none));
  turn = turn;
  last_capturer = none;
  outcome = none;
}

unfoldable pub deal_to : MatchState → List Card → List Player → Option MatchState
deal_to state rest players = elim (get_elem? players ((state.dealer_seat + 1) % length players)) [
  | none ↦ none
  | some first ↦
      apply_opening_escoba
        (record state { players = players; hand = some (opening_hand state rest first.id) })
]

unfoldable pub deal : MatchState → List Card → Option MatchState
deal state deck =
    let seat_count = length state.players in
    elim (deal_hands_round_robin deck seat_count cards_per_player) [
      | none ↦ none
      | some hands ↦
          deal_to state (drop (seat_count * cards_per_player) deck) (with_hands state.players hands)
    ]

unfoldable pub redeal_hand : MatchState → HandState → Option MatchState
redeal_hand state hand =
    let seat_count = length state.players in
    elim (deal_hands_round_robin hand.stock seat_count cards_per_player) [
      | none ↦ none
      | some hands ↦ some (record state {
        players = with_hands state.players hands;
        hand = some (record hand { stock = drop (seat_count * cards_per_player) hand.stock });
      })
    ]

unfoldable pub redeal : MatchState → Option MatchState
redeal state = elim state.hand [ none ↦ none | some hand ↦ redeal_hand state hand ]

unfoldable pub leftovers_to : MatchState → HandState → Option String → Option MatchState
leftovers_to state hand none = some state
leftovers_to state hand (some team_id) =
    if length hand.table == 0 then some state else elim (sweep_table team_id hand) [
      | none ↦ none
      | some swept ↦ some (record state { hand = some swept })
    ]

unfoldable pub settle_leftovers : MatchState → Option MatchState
settle_leftovers state = elim state.hand [
  | none ↦ some state
  | some hand ↦ leftovers_to state hand hand.last_capturer
]

-- The points of the breakdown go to the teams. A team without points would get the score NaN.
unfoldable pub award : MatchState → HandState → HandScoreBreakdown → Option MatchState
award state hand breakdown = elim (breakdown.points state.team_a.id) [
  | none ↦ none
  | some points_a ↦ elim (breakdown.points state.team_b.id) [
    | none ↦ none
    | some points_b ↦ some (record state {
      team_a = record state.team_a { score = state.team_a.score + points_a };
      team_b = record state.team_b { score = state.team_b.score + points_b };
      hand = some (record hand { outcome = some (decided breakdown) });
    })
  ]
]

unfoldable pub score_settled : MatchState → Option MatchState
score_settled settled = elim settled.hand [
  | none ↦ none
  | some hand ↦ elim (score_hand_breakdown hand settled.team_a.id settled.team_b.id) [
    | none ↦ none
    | some breakdown ↦ award settled hand breakdown
  ]
]

unfoldable pub settle_hand : MatchState → HandState → Option MatchState
settle_hand state hand =
    if every (λ p. length p.hand == 0) state.players
    then (if ltb 0 (length hand.stock)
        then redeal state
        else elim (settle_leftovers state) [ none ↦ none | some settled ↦ score_settled settled ])
    else some state

unfoldable pub settle_hand_if_needed : MatchState → Option MatchState
settle_hand_if_needed state = elim state.hand [
  | none ↦ some state
  | some hand ↦ settle_hand state hand
]
