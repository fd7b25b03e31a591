-- ===== src/Generala/State.antt =====
-- dice.ts, state.ts and violation.ts: the dice, the scorecard, the turn and the match.
-- A face is the number that reaches the reducer at run time, so 7 is a value too; `Scorecard` maps
-- a box to its number, `none` for an open one. `thrown` stands for a JavaScript exception.
use convite.Prelude.{
  ℕ, ◌==◌, Bool, String, List, [], ◌∷◌, map, Option, none, some, any, same_id, get_elem?,
}
use mathlib.Core.Logic.{ite}

abbrev pub die_faces : List ℕ
die_faces = 1 ∷ 2 ∷ 3 ∷ 4 ∷ 5 ∷ 6 ∷ []

abbrev pub dice_count : ℕ
dice_count = 5

-- `DIE_FACES.includes(face)`
unfoldable pub is_face : ℕ → Bool
is_face face = any (λ f. f == face) die_faces

pub data CategoryId : Type 0 where
  ones twos threes fours fives sixes : CategoryId
  escalera full poker generala generala_doble : CategoryId

unfoldable pub CategoryId-discrete : Discrete CategoryId
CategoryId-discrete = hlevel

abbrev pub category_ids : List CategoryId
category_ids =
    ones ∷ twos ∷ threes ∷ fours ∷ fives ∷ sixes ∷ escalera ∷ full ∷ poker ∷ generala
    ∷ generala_doble ∷ []

abbrev pub Scorecard : Type 0
Scorecard = CategoryId → Option ℕ

pub data Turn : Type 0 where
  awaiting_roll : (seat rolls_used : ℕ) (slots : List (Option ℕ)) → Turn
  deciding : (seat rolls_used : ℕ) (dice : List ℕ) → Turn
  servida_win : (seat : ℕ) → Turn

abbrev pub rolls_per_turn : ℕ
rolls_per_turn = 3

pub record MatchState : Type 0 where
  pub players : List String
  pub cards : List Scorecard
  pub turn : Turn

pub data Code : Type 0 where
  not_awaiting_roll wrong_face_count malformed_face : Code
  not_deciding not_on_turn no_rolls_left malformed_hold : Code
  box_not_open cross_out_of_order : Code

pub data ApplyResult : Type 0 where
  ok : MatchState → ApplyResult
  reject : Code → ApplyResult
  thrown : ApplyResult

abbrev pub empty_slots : List (Option ℕ)
empty_slots = none ∷ none ∷ none ∷ none ∷ none ∷ []

unfoldable pub empty_scorecard : Scorecard
empty_scorecard category = none

-- The check of `createMatch` refuses a table with nobody at it.
unfoldable pub create_match : List String → ApplyResult
create_match [] = thrown
create_match (p ∷ ps) = ok (record {
  players = p ∷ ps;
  cards = map (λ _. empty_scorecard) (p ∷ ps);
  turn = awaiting_roll 0 0 empty_slots;
})

-- `state.players[seat] === playerId`
unfoldable pub is_seated : List String → ℕ → String → Bool
is_seated players seat player = elim (get_elem? players seat) [
  | none ↦ Bool.false
  | some p ↦ same_id p player
]

-- `{ ...card, [category]: value }`
unfoldable pub write_box : Scorecard → CategoryId → ℕ → Scorecard
unfolding CategoryId-discrete
write_box card category value other =
    ite (CategoryId-discrete category other) (some value) (card other)
