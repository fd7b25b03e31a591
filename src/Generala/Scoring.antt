-- ===== src/Generala/Scoring.antt =====
-- scoring.ts: the tally of the dice, the five juegos mayores and what a box pays.
-- `counts` is the tally read at a face; only the faces of `die_faces` are ever read.
use convite.Prelude.{
  ℕ, ◌+◌, ◌*◌, ◌==◌, ltb, leb, Bool, false, ◌&&◌, ◌||◌, List, [], ◌∷◌, Option, none, some,
  if◌then◌else◌, any, every,
}
use convite.Generala.State.{
  CategoryId, ones, twos, threes, fours, fives, sixes, escalera, full, poker, generala,
  generala_doble, Scorecard, die_faces,
}

unfoldable pub counts : List ℕ → ℕ → ℕ
counts [] face = 0
counts (d ∷ dice) face = (if d == face then 1 else 0) + counts dice face

unfoldable pub some_face_shows : List ℕ → ℕ → Bool
some_face_shows dice n = any (λ face. counts dice face == n) die_faces

unfoldable pub face_total : ℕ → List ℕ → ℕ
face_total face dice = counts dice face * face

abbrev pub escalera_runs : List (List ℕ)
escalera_runs = (1 ∷ 2 ∷ 3 ∷ 4 ∷ 5 ∷ []) ∷ (2 ∷ 3 ∷ 4 ∷ 5 ∷ 6 ∷ []) ∷ []

unfoldable pub is_escalera : List ℕ → Bool
is_escalera dice = any (λ run. every (λ face. counts dice face == 1) run) escalera_runs

unfoldable pub is_full : List ℕ → Bool
unfolding some_face_shows
is_full dice = some_face_shows dice 5 || (some_face_shows dice 3 && some_face_shows dice 2)

unfoldable pub is_poker : List ℕ → Bool
is_poker dice = any (λ face. leb 4 (counts dice face)) die_faces

unfoldable pub is_generala : List ℕ → Bool
unfolding some_face_shows
is_generala dice = some_face_shows dice 5

-- The number of an upper box, `none` for a juego mayor.
abbrev pub upper_section : CategoryId → Option ℕ
upper_section ones = some 1
upper_section twos = some 2
upper_section threes = some 3
upper_section fours = some 4
upper_section fives = some 5
upper_section sixes = some 6
upper_section _ = none

unfoldable pub has_scored_generala : Scorecard → Bool
has_scored_generala card = elim (card generala) [ none ↦ false | some v ↦ ltb 0 v ]

abbrev pub armada : CategoryId → ℕ
armada escalera = 20
armada full = 30
armada poker = 40
armada generala = 50
armada generala_doble = 100
armada _ = 0

abbrev pub servida : CategoryId → Option ℕ
servida escalera = some 25
servida full = some 35
servida poker = some 45
servida _ = none

unfoldable pub holds : CategoryId → List ℕ → Scorecard → Bool
holds escalera dice card = is_escalera dice
holds full dice card = is_full dice
holds poker dice card = is_poker dice
holds generala dice card = is_generala dice
holds generala_doble dice card = is_generala dice && has_scored_generala card
holds _ dice card = false

abbrev pub servida_roll : ℕ
servida_roll = 1

-- The row of a juego mayor whose rule holds: servida on the opening roll, where the table has one.
unfoldable pub row_value : CategoryId → ℕ → ℕ
row_value category rolls_used = elim (servida category) [
  | none ↦ armada category
  | some bonus ↦ if rolls_used == servida_roll then bonus else armada category
]

unfoldable pub score_for : CategoryId → List ℕ → ℕ → Scorecard → ℕ
score_for category dice rolls_used card = elim (upper_section category) [
  | some face ↦ face_total face dice
  | none ↦ if holds category dice card then row_value category rolls_used else 0
]
