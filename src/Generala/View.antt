-- ===== src/Generala/View.antt =====
-- view.ts of packages/games/generala-engine/src: what a seat is told of the match.
use convite.Prelude.{
  ℕ, suc, ◌==◌, String, List, [], ◌∷◌, Option, none, some, map, filter, not, any, same_id,
  if◌then◌else◌,
}
use convite.Generala.State.{
  Scorecard, MatchState, Turn, awaiting_roll, deciding, servida_win, category_ids,
}
use convite.Generala.Moves.{is_box}
use convite.Generala.Outcome.{total_for, get_outcome}

pub record SeatView : Type 0 where
  pub player_id : String
  pub seat : ℕ

pub record PlayerView : Type 0 where
  pub self : SeatView
  pub others : List SeatView
  pub cards : List Scorecard
  pub totals : List ℕ
  pub turn : Turn
  pub outcome : Option (List String)

unfoldable pub project_turn : Turn → Turn
project_turn (awaiting_roll seat rolls_used slots) = awaiting_roll seat rolls_used slots
project_turn (deciding seat rolls_used dice) = deciding seat rolls_used dice
project_turn (servida_win seat) = servida_win seat

-- The boxes of `CATEGORY_IDS`, and no other.
unfoldable pub project_card : Scorecard → Scorecard
project_card card category =
    if any (is_box (some category)) category_ids then card category else none

-- `state.players.map((id, index) => ({ playerId: id, seat: index }))`, from `index` on.
unfoldable pub seats_from : ℕ → List String → List SeatView
seats_from index [] = []
seats_from index (id ∷ ids) = record { player_id = id; seat = index } ∷ seats_from (suc index) ids

-- `players.indexOf(playerId)`, as the seat that is found there.
unfoldable pub seat_of : String → List SeatView → Option SeatView
seat_of player_id [] = none
seat_of player_id (s ∷ seats) =
    if same_id s.player_id player_id then some s else seat_of player_id seats

-- An id of no seat is an exception, and no result here.
unfoldable pub get_view_for : MatchState → String → Option PlayerView
get_view_for state player_id =
    let seats = seats_from 0 state.players in
    elim (seat_of player_id seats) [
      | none ↦ none
      | some self ↦ some (record {
        self = self;
        others = filter (λ s. not (s.seat == self.seat)) seats;
        cards = map project_card state.cards;
        totals = map total_for state.cards;
        turn = project_turn state.turn;
        outcome = get_outcome state;
      })
    ]
