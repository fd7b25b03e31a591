-- ===== src/Generala/Play.antt =====
-- play.ts and roll.ts: what a seat chose and what the server threw. Both reducers return the next
-- state or a refusal; the indices of a hold are natural numbers.
use convite.Prelude.{
  ℕ, suc, ◌+◌, ◌%◌, ◌==◌, leb, Bool, true, false, ◌&&◌, String, List, [], ◌∷◌, Option, none, some,
  if◌then◌else◌, any, every, length, get_elem?, set,
}
use convite.Generala.State.{
  CategoryId, Scorecard, MatchState, Turn, awaiting_roll, deciding, servida_win, ApplyResult, ok,
  reject, thrown, not_awaiting_roll, wrong_face_count, malformed_face, not_deciding, not_on_turn,
  no_rolls_left, malformed_hold, box_not_open, cross_out_of_order, rolls_per_turn, is_face,
  is_seated, write_box, empty_slots,
}
use convite.Generala.Scoring.{score_for, is_generala, servida_roll}
use convite.Generala.Moves.{GeneralaAction, hold, score, keep_sets, is_open, may_write}

-- Array equality by index.
unfoldable pub same_keep : List ℕ → List ℕ → Bool
same_keep [] [] = true
same_keep (a ∷ as') (b ∷ bs) = a == b && same_keep as' bs
same_keep _ _ = false

-- `dice.map((face, index) => keep.includes(index) ? face : null)`, from `index` on.
unfoldable pub kept_slots : ℕ → List ℕ → List ℕ → List (Option ℕ)
kept_slots index keep [] = []
kept_slots index keep (face ∷ dice) =
    (if any (λ k. k == index) keep then some face else none) ∷ kept_slots (suc index) keep dice

unfoldable pub hold_turn : Turn → MatchState → String → List ℕ → ApplyResult
unfolding kept_slots
hold_turn (deciding seat rolls_used dice) state player keep =
    if is_seated state.players seat player
    then if leb rolls_per_turn rolls_used
      then reject no_rolls_left
      else if any (same_keep keep) keep_sets
      then ok (record state { turn = awaiting_roll seat rolls_used (kept_slots 0 keep dice) })
      else reject malformed_hold
    else reject not_on_turn
hold_turn _ state player keep = reject not_deciding

unfoldable pub apply_hold : MatchState → String → List ℕ → ApplyResult
unfolding hold_turn
apply_hold state player keep = hold_turn state.turn state player keep

-- The state after a box is written: the seat's card replaced, the turn handed on.
unfoldable pub after_score : MatchState → ℕ → ℕ → List ℕ → Scorecard → CategoryId → MatchState
after_score state seat rolls_used dice card category = record state {
  cards = set state.cards seat (write_box card category (score_for category dice rolls_used card));
  turn = awaiting_roll ((seat + 1) % length state.players) 0 empty_slots;
}

unfoldable pub score_turn : Turn → MatchState → String → CategoryId → ApplyResult
unfolding after_score
score_turn (deciding seat rolls_used dice) state player category =
    if is_seated state.players seat player
    then elim (get_elem? state.cards seat) [
      | none ↦ thrown
      | some card ↦
          if is_open card category
          then if may_write category card dice rolls_used
            then ok (after_score state seat rolls_used dice card category)
            else reject cross_out_of_order
          else reject box_not_open
    ]
    else reject not_on_turn
score_turn _ state player category = reject not_deciding

unfoldable pub apply_score : MatchState → String → CategoryId → ApplyResult
unfolding score_turn
apply_score state player category = score_turn state.turn state player category

unfoldable pub apply_player_action : MatchState → GeneralaAction → ApplyResult
unfolding apply_hold apply_score
apply_player_action state (hold player keep) = apply_hold state player keep
apply_player_action state (score player category) = apply_score state player category

-- `slots.filter((slot) => slot === null).length`
unfoldable pub count_empty : List (Option ℕ) → ℕ
count_empty [] = 0
count_empty (none ∷ slots) = suc (count_empty slots)
count_empty (some face ∷ slots) = count_empty slots

-- The rolled faces dropped into the empty slots; `none` where they run out.
unfoldable pub splice : List (Option ℕ) → List ℕ → Option (List ℕ)
splice [] faces = some []
splice (some face ∷ slots) faces = elim (splice slots faces) [
  | none ↦ none
  | some dice ↦ some (face ∷ dice)
]
splice (none ∷ slots) [] = none
splice (none ∷ slots) (face ∷ faces) = elim (splice slots faces) [
  | none ↦ none
  | some dice ↦ some (face ∷ dice)
]

-- A generala on the opening roll wins as it lands.
unfoldable pub landed : ℕ → ℕ → List ℕ → Turn
landed seat rolls_used dice =
    if rolls_used == servida_roll && is_generala dice
    then servida_win seat
    else deciding seat rolls_used dice

unfoldable pub roll_turn : Turn → MatchState → List ℕ → ApplyResult
unfolding count_empty splice landed
roll_turn (awaiting_roll seat rolls_used slots) state faces =
    if length faces == count_empty slots
    then if every is_face faces
      then elim (splice slots faces) [
        | none ↦ thrown
        | some dice ↦ ok (record state { turn = landed seat (rolls_used + 1) dice })
      ]
      else reject malformed_face
    else reject wrong_face_count
roll_turn _ state faces = reject not_awaiting_roll

unfoldable pub apply_roll : MatchState → List ℕ → ApplyResult
unfolding roll_turn
apply_roll state faces = roll_turn state.turn state faces
