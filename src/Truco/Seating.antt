-- ===== src/Truco/Seating.antt =====
-- createHeadToHeadMatch and createTeamMatch of match.ts, and packages/games/truco-module/src/index.ts: the
-- seating of a match, its actions with the deal of a hand, and its outcome. The deal is part of the action
-- of the system; `thrown` stands for a JavaScript exception.
use Prim.Native.String.{◌++◌ as text_append}
use convite.Prelude.{
  ℕ, ◌==◌, String, List, [], ◌∷◌, Option, none, some, if◌then◌else◌, find, length, same_id,
}
use convite.Platform.Seats.{SeatAssignment, by_seat}
use convite.Deck.{Card}
use convite.Truco.State.{
  Team, Player, HandState, MatchState, get_match_winner, rotate_dealer, start_hand,
}
use convite.Truco.Chain.{is_decided}
use convite.Truco.Engine.{Action, Applied, apply_action}

abbrev pub at_table : String → String → ℕ → Player
at_table id team_id seat = record { id = id; team_id = team_id; seat = seat; hand = [] }

abbrev pub or_zero : Option ℕ → ℕ
or_zero none = 0
or_zero (some n) = n

unfoldable pub create_head_to_head_match : String → String → ℕ → Option ℕ → MatchState
create_head_to_head_match a b points_to_win dealer_seat =
    let team_a = text_append a ":team" in
    let team_b = text_append b ":team" in
    record {
      points_to_win = points_to_win;
      teams =
          record { id = team_a; player_ids = a ∷ []; score = 0 }
          ∷ record { id = team_b; player_ids = b ∷ []; score = 0 }
          ∷ [];
      players = at_table a team_a 0 ∷ at_table b team_b 1 ∷ [];
      dealer_seat = or_zero dealer_seat;
      hand = none;
    }

unfoldable pub create_team_match : String → String → String → String → ℕ → Option ℕ → MatchState
create_team_match seat0 seat1 seat2 seat3 points_to_win dealer_seat =
    let team_a = text_append seat0 (text_append ":" (text_append seat2 ":team")) in
    let team_b = text_append seat1 (text_append ":" (text_append seat3 ":team")) in
    record {
      points_to_win = points_to_win;
      teams =
          record { id = team_a; player_ids = seat0 ∷ seat2 ∷ []; score = 0 }
          ∷ record { id = team_b; player_ids = seat1 ∷ seat3 ∷ []; score = 0 }
          ∷ [];
      players =
          at_table seat0 team_a 0
          ∷ at_table seat1 team_b 1
          ∷ at_table seat2 team_a 2
          ∷ at_table seat3 team_b 3
          ∷ [];
      dealer_seat = or_zero dealer_seat;
      hand = none;
    }

abbrev pub id_of : Option SeatAssignment → Option String
id_of none = none
id_of (some assigned) = some assigned.player_id

unfoldable pub seated_at : ℕ → List SeatAssignment → Option String
seated_at seat seats = id_of (find (λ s. s.seat == seat) seats)

abbrev pub two_seated : ℕ → Option String → Option String → Option MatchState
two_seated points (some a) (some b) = some (create_head_to_head_match a b points none)
two_seated points none b = none
two_seated points (some a) none = none

-- Any other table than seats 0 and 1 is an exception.
unfoldable pub create_match : ℕ → List SeatAssignment → Option MatchState
create_match points_to_win seats =
    if length seats == 2
    then two_seated points_to_win (seated_at 0 seats) (seated_at 1 seats)
    else none

abbrev pub four_seated :
    ℕ → Option String → Option String → Option String → Option String → Option MatchState
four_seated points (some a) (some b) (some c) (some d) =
    some (create_team_match a b c d points none)
four_seated points none b c d = none
four_seated points (some a) none c d = none
four_seated points (some a) (some b) none d = none
four_seated points (some a) (some b) (some c) none = none

unfoldable pub create_match2v2 : ℕ → List SeatAssignment → Option MatchState
create_match2v2 points_to_win seats =
    if length seats == 4
    then four_seated points_to_win (by_seat 0 seats) (by_seat 1 seats) (by_seat 2 seats)
        (by_seat 3 seats)
    else none

pub data TrucoModuleAction : Type 0 where
  engine_action : Action → TrucoModuleAction
  deal_hand : String → List (List Card) → TrucoModuleAction

pub data ViolationCode : Type 0 where
  not_a_system_actor match_over hand_in_progress illegal_action : ViolationCode

pub data ModuleResult : Type 0 where
  ok : MatchState → ModuleResult
  violation : ViolationCode → ModuleResult
  thrown out_of_range : ModuleResult

abbrev pub system_actor_id : String
system_actor_id = "__system__"

abbrev pub from_engine : Applied → ModuleResult
from_engine (Applied.ok next) = ok next
from_engine Applied.violation = violation illegal_action
from_engine Applied.thrown = thrown
from_engine Applied.out_of_range = out_of_range

abbrev pub from_deal : Option MatchState → ModuleResult
from_deal none = thrown
from_deal (some next) = ok next

-- The deal of a hand: the first one, or the next one after a hand that is over.
abbrev pub deal_next : Option HandState → MatchState → List (List Card) → ModuleResult
deal_next none state deal = from_deal (start_hand state deal)
deal_next (some hand) state deal =
    if is_decided hand.outcome
    then from_deal (start_hand (rotate_dealer state) deal)
    else violation hand_in_progress

unfoldable pub apply_deal : MatchState → String → List (List Card) → ModuleResult
apply_deal state player_id deal =
    if same_id player_id system_actor_id
    then elim (get_match_winner state) [
      | some team ↦ violation match_over
      | none ↦ deal_next state.hand state deal
    ]
    else violation not_a_system_actor

unfoldable pub apply_module_action : MatchState → TrucoModuleAction → ModuleResult
apply_module_action state (deal_hand player_id deal) = apply_deal state player_id deal
apply_module_action state (engine_action action) = from_engine (apply_action state action)

abbrev pub ids_of : Option Team → List String
ids_of none = []
ids_of (some team) = team.player_ids

-- The winners of a match that is over.
unfoldable pub get_outcome : MatchState → Option (List String)
get_outcome state = elim (get_match_winner state) [
  | none ↦ none
  | some winner ↦ some (ids_of (find (λ t. same_id t.id winner) state.teams))
]
