-- ===== src/Generala/CupTests.antt =====
-- Throws of the cup, the table of two and its views, at concrete matches.
use convite.Prelude.{ℕ, ◌+◌, ◌≡◌, refl, List, [], ◌∷◌, Option, none, some, arith, length}
use convite.Platform.Seats.{by_seat}
use convite.Generala.State.{MatchState, awaiting_roll, ok, thrown, empty_scorecard, create_match}
use convite.Generala.Play.{landed, count_empty}
use convite.Generala.Outcome.{get_outcome, outcome_of, card_outcome, is_card_full}
use convite.Generala.View.{get_view_for, seats_from, seat_of}
use convite.Generala.Cup.{
  RollDiceAction, roll_die, roll_dice_from, request_generala_system_action, roll_dice, from_engine,
  not_a_system_actor, apply_module_action, build_match,
}
use convite.Generala.Throwing.{request_generala_system_action-accepted}

abbrev two_held : MatchState
two_held = record {
  players = "ana" ∷ "beto" ∷ [];
  cards = empty_scorecard ∷ empty_scorecard ∷ [];
  turn = awaiting_roll 1 1 (some 6 ∷ none ∷ some 6 ∷ none ∷ none ∷ []);
}

abbrev always_fourth : ℕ → ℕ
always_fourth k = 3

abbrev three_fours : RollDiceAction
three_fours = record { player_id = "__system__"; faces = 4 ∷ 4 ∷ 4 ∷ [] }

asked : request_generala_system_action two_held always_fourth ≡ some three_fours
unfolding request_generala_system_action get_outcome outcome_of card_outcome is_card_full
    count_empty roll_dice_from roll_die empty_scorecard
asked = refl

forged :
    apply_module_action two_held (roll_dice (record { player_id = "ana"; faces = 6 ∷ 6 ∷ 6 ∷ [] }))
    ≡ not_a_system_actor
unfolding apply_module_action
forged = refl

seating :
    build_match
      (record { player_id = "beto"; seat = 1 } ∷ record { player_id = "ana"; seat = 0 } ∷ [])
    ≡ create_match ("ana" ∷ "beto" ∷ [])
unfolding build_match by_seat
seating = refl

same_player :
    build_match
      (record { player_id = "ana"; seat = 1 } ∷ record { player_id = "ana"; seat = 0 } ∷ [])
    ≡ thrown
unfolding build_match by_seat
same_player = refl

stranger : get_view_for two_held "carla" ≡ none
unfolding get_view_for seats_from seat_of
stranger = refl

request_generala_system_action-accepted_example :
    (seat used : ℕ) × (slots : List (Option ℕ)) × (dice : List ℕ) × (two_held.turn
      ≡ awaiting_roll seat used slots)
    × (length dice ≡ length slots)
    × (apply_module_action two_held (roll_dice three_fours)
        ≡ from_engine (ok (record two_held { turn = landed seat (used + 1) dice })))
request_generala_system_action-accepted_example =
    request_generala_system_action-accepted two_held always_fourth three_fours (λ k. omega arith)
      asked
