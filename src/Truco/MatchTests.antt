-- ===== src/Truco/MatchTests.antt =====
-- Runs of whole matches of Truco, from the seats to a signal.
use convite.Prelude.{◌≤◌, ◌≡◌, refl, List, [], ◌∷◌, none, some}
use convite.Deck.{Card, card, r7, r6, r3, r4, oro, copa, espada, basto}
use convite.Truco.State.{MatchState, as_de_espada, start_hand, deal_players, get_match_winner}
use convite.Truco.Chain.{find_player, is_decided}
use convite.Truco.Senas.{
  has_teammate, senas_sent_by, get_senas_remaining, get_legal_sena_actions, is_legal_sena,
  highest_seq, count_send, signalled, apply_sena_action,
}
use convite.Truco.Engine.{send_sena, apply_action}
use convite.Platform.Seats.{SeatAssignment, by_seat}
use convite.Truco.Seating.{
  create_team_match, create_match2v2, TrucoModuleAction, engine_action, deal_hand, ModuleResult, ok,
  violation, hand_in_progress, not_a_system_actor, apply_deal, apply_module_action, get_outcome,
}
use convite.Truco.Matches.{seated4, played, spent, IsReachable-spent}

abbrev seats : List SeatAssignment
seats =
    record { player_id = "dario"; seat = 3 }
    ∷ record { player_id = "ana"; seat = 0 }
    ∷ record { player_id = "carla"; seat = 2 }
    ∷ record { player_id = "beto"; seat = 1 }
    ∷ []

abbrev seated : MatchState
seated = create_team_match "ana" "beto" "carla" "dario" 15 none

seating : create_match2v2 15 seats ≡ some seated
unfolding create_match2v2 by_seat
seating = refl

no_fourth : create_match2v2 15 (record { player_id = "ana"; seat = 0 } ∷ []) ≡ none
unfolding create_match2v2
no_fourth = refl

abbrev cards : List (List Card)
cards =
    (card r3 oro ∷ card r6 copa ∷ card r7 oro ∷ [])
    ∷ (card r4 oro ∷ card r3 copa ∷ card r6 basto ∷ [])
    ∷ (card r3 espada ∷ card r4 copa ∷ card r7 basto ∷ [])
    ∷ (card r4 espada ∷ card r3 basto ∷ card r6 oro ∷ [])
    ∷ []

abbrev or_seated : ModuleResult → MatchState
or_seated (ok s) = s
or_seated (violation c) = seated
or_seated ModuleResult.thrown = seated
or_seated ModuleResult.out_of_range = seated

abbrev dealing : TrucoModuleAction
dealing = deal_hand "__system__" cards

abbrev dealt : MatchState
dealt = or_seated (apply_module_action seated dealing)

abbrev signalling : TrucoModuleAction
signalling = engine_action (send_sena (record { player_id = "carla"; signal = as_de_espada }))

abbrev signalled_once : MatchState
signalled_once = or_seated (apply_module_action dealt signalling)

dealt_to_all : apply_module_action seated dealing ≡ ok dealt
unfolding apply_module_action apply_deal start_hand deal_players get_match_winner create_team_match
dealt_to_all = refl

forged : apply_module_action seated (deal_hand "ana" cards) ≡ violation not_a_system_actor
unfolding apply_module_action apply_deal
forged = refl

no_second_deal : apply_module_action dealt dealing ≡ violation hand_in_progress
unfolding apply_module_action apply_deal start_hand deal_players get_match_winner create_team_match
    is_decided
no_second_deal = refl

carla_signals : apply_module_action dealt signalling ≡ ok signalled_once
unfolding apply_module_action apply_deal start_hand deal_players get_match_winner create_team_match
    apply_action apply_sena_action is_legal_sena get_legal_sena_actions get_senas_remaining
    senas_sent_by has_teammate find_player signalled highest_seq count_send
carla_signals = refl

undecided_match : get_outcome seated ≡ none
unfolding get_outcome get_match_winner create_team_match
undecided_match = refl

-- Two steps of a match of four players.
IsReachable-spent_example : spent signalled_once.hand "carla" ≤ 3
IsReachable-spent_example =
    IsReachable-spent signalled_once "carla"
      (played signalling (played dealing (seated4 15 seats seating) dealt_to_all) carla_signals)
