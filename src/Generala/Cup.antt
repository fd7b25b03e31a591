-- ===== src/Generala/Cup.antt =====
-- packages/games/generala-module/src/roll.ts and index.ts: the throw of the dice and the match as the platform
-- plays it. A draw is the index of a face, which roll.ts computes from the random source of the room.
use convite.Prelude.{
  ℕ, zero, suc, ◌==◌, String, List, [], ◌∷◌, Option, none, some, if◌then◌else◌, length, same_id,
  get_elem?,
}
use convite.Platform.Seats.{SeatAssignment, by_seat}
use convite.Generala.State.{
  MatchState, Turn, awaiting_roll, ApplyResult, thrown, die_faces, create_match,
}
use convite.Generala.Moves.{GeneralaAction}
use convite.Generala.Play.{apply_player_action, count_empty, apply_roll}
use convite.Generala.Outcome.{get_outcome}

abbrev pub system_actor_id : String
system_actor_id = "__system__"

pub record RollDiceAction : Type 0 where
  pub player_id : String
  pub faces : List ℕ

-- 0 stands for `undefined`, past the last face.
unfoldable pub roll_die : ℕ → ℕ
roll_die draw = elim (get_elem? die_faces draw) [ none ↦ 0 | some face ↦ face ]

-- So many dice, from the draw number `die` on.
unfoldable pub roll_dice_from : ℕ → ℕ → (ℕ → ℕ) → List ℕ
roll_dice_from die zero draws = []
roll_dice_from die (suc rest) draws = roll_die (draws die) ∷ roll_dice_from (suc die) rest draws

abbrev pub rethrow : ℕ → (ℕ → ℕ) → Option RollDiceAction
rethrow zero draws = none
rethrow (suc rest) draws =
    some (record { player_id = system_actor_id; faces = roll_dice_from 0 (suc rest) draws })

abbrev pub request_turn : Turn → (ℕ → ℕ) → Option RollDiceAction
request_turn (awaiting_roll seat rolls_used slots) draws = rethrow (count_empty slots) draws
request_turn _ draws = none

unfoldable pub request_generala_system_action : MatchState → (ℕ → ℕ) → Option RollDiceAction
request_generala_system_action state draws = elim (get_outcome state) [
  | some winners ↦ none
  | none ↦ request_turn state.turn draws
]

pub data GeneralaModuleAction : Type 0 where
  player_action : GeneralaAction → GeneralaModuleAction
  roll_dice : RollDiceAction → GeneralaModuleAction

pub data ModuleResult : Type 0 where
  from_engine : ApplyResult → ModuleResult
  not_a_system_actor match_over : ModuleResult

-- A match that is over takes nothing.
abbrev pub unless_over : Option (List String) → ApplyResult → ModuleResult
unless_over (some winners) result = match_over
unless_over none result = from_engine result

unfoldable pub apply_module_action : MatchState → GeneralaModuleAction → ModuleResult
apply_module_action state (roll_dice action) =
    if same_id action.player_id system_actor_id
    then unless_over (get_outcome state) (apply_roll state action.faces)
    else not_a_system_actor
apply_module_action state (player_action action) =
    unless_over (get_outcome state) (apply_player_action state action)

abbrev pub seat_count : ℕ
seat_count = 2

abbrev pub seat_both : Option String → Option String → ApplyResult
seat_both (some a) (some b) = if same_id a b then thrown else create_match (a ∷ b ∷ [])
seat_both none b = thrown
seat_both (some a) none = thrown

unfoldable pub build_match : List SeatAssignment → ApplyResult
build_match seats =
    if length seats == seat_count then seat_both (by_seat 0 seats) (by_seat 1 seats) else thrown
