-- ===== src/Mahjong/Solitaire.antt =====
-- module.ts of mahjong-solitaire-module: a match with one seat, over any layout.
use convite.Prelude.{
  ℕ, ◌==◌, Bool, true, false, ◌&&◌, String, List, [], Option, none, some, if◌then◌else◌, any, find,
  length, same_id, set,
}
use convite.Mahjong.Layout.{Position}
use convite.Mahjong.Board.{
  MatchState, RemovePairAction, is_none, lay_board, get_legal_actions, get_outcome,
}

abbrev pub system_actor_id : String
system_actor_id = "__system__"

pub record SeatAssignment : Type 0 where
  pub player_id : String
  pub seat : ℕ

pub record SolitaireMatchState : Type 0 where
  pub player_id : String
  pub board : Option MatchState
  pub abandoned : Bool

pub data SolitaireAction : Type 0 where
  deal_board : String → List (Option String) → SolitaireAction
  remove_pair : RemovePairAction → SolitaireAction
  abandon_board : String → SolitaireAction

pub data ViolationCode : Type 0 where
  match_over not_a_system_actor board_already_dealt no_board illegal_pair : ViolationCode

pub data SolitaireResult : Type 0 where
  ok : SolitaireMatchState → SolitaireResult
  violation : ViolationCode → SolitaireResult
  thrown : SolitaireResult

-- Any other table than one player at seat 0 is an exception.
unfoldable pub create_match : List SeatAssignment → Option SolitaireMatchState
create_match seats = elim (find (λ candidate. candidate.seat == 0) seats) [
  | none ↦ none
  | some seat ↦
      if length seats == 1
      then some (record { player_id = seat.player_id; board = none; abandoned = false })
      else none
]

-- `tiles[a] = null; tiles[b] = null`
unfoldable pub cleared : MatchState → RemovePairAction → MatchState
cleared board action = record board { tiles = set (set board.tiles action.a none) action.b none }

module _ (layout : List Position) where
  unfoldable pub outcome_of : SolitaireMatchState → Option (List String)
  outcome_of state =
      if state.abandoned
      then some []
      else elim state.board [ none ↦ none | some board ↦ get_outcome layout board ]

  unfoldable pub apply_deal : SolitaireMatchState → String → List (Option String) → SolitaireResult
  apply_deal state player_id placements =
      if same_id player_id system_actor_id
      then (if is_none state.board
          then elim (lay_board layout state.player_id placements) [
            | none ↦ thrown
            | some board ↦ ok (record state { board = some board })
          ]
          else violation board_already_dealt)
      else violation not_a_system_actor

  unfoldable pub is_offered : MatchState → RemovePairAction → Bool
  is_offered board action =
      any (λ legal. (legal.a == action.a) && (legal.b == action.b))
        (get_legal_actions layout board action.player_id)

  unfoldable pub apply_removal : SolitaireMatchState → RemovePairAction → SolitaireResult
  apply_removal state action = elim state.board [
    | none ↦ violation no_board
    | some board ↦
        if is_offered board action
        then ok (record state { board = some (cleared board action) })
        else violation illegal_pair
  ]

  unfoldable pub apply_open : SolitaireMatchState → SolitaireAction → SolitaireResult
  apply_open state (deal_board player_id placements) = apply_deal state player_id placements
  apply_open state (abandon_board player_id) = ok (record state { abandoned = true })
  apply_open state (remove_pair action) = apply_removal state action

  unfoldable pub apply_action : SolitaireMatchState → SolitaireAction → SolitaireResult
  apply_action state action = elim (outcome_of state) [
    | some winners ↦ violation match_over
    | none ↦ apply_open state action
  ]

  -- Every action that a player is offered removes a pair.
  unfoldable pub get_module_actions : SolitaireMatchState → String → List RemovePairAction
  get_module_actions state player_id =
      if state.abandoned
      then []
      else elim state.board [ none ↦ [] | some board ↦ get_legal_actions layout board player_id ]

  unfoldable pub get_abandoned_seat_action : SolitaireMatchState → String → Option SolitaireAction
  get_abandoned_seat_action state player_id =
      if same_id player_id state.player_id
      then elim (outcome_of state) [ some winners ↦ none | none ↦ some (abandon_board player_id) ]
      else none
