-- ===== src/Generala/Values.antt =====
-- What the boxes pay: bounds, the order of the dice, and when the doble pays.
use convite.Prelude.{
  ℕ, suc, ◌-◌, ◌≤◌, ◌<◌, ◌≡◌, ◌↔◌, refl, ◌∙◌, inl, inr, true, List, [], ◌∷◌, some, length, arith,
  Option-cases,
}
use mathlib.Core.Logic.{∥∥₁_elim}
use mathlib.Core.Path.{fun_ext}
use mathlib.Core.List.{Perm, Permᴰ}
use native.Mathlib.Nat.{ℕ_set}
use convite.Generala.State.{
  CategoryId, ones, twos, threes, fours, fives, sixes, escalera, full, poker, generala,
  generala_doble, Scorecard,
}
use convite.Generala.Scoring.{
  counts, some_face_shows, face_total, is_escalera, is_full, is_poker, is_generala,
  has_scored_generala, holds, row_value, score_for,
}

counts-le : (dice : List ℕ) (face : ℕ) → counts dice face ≤ length dice
unfolding counts
counts-le [] face = omega arith
counts-le (d ∷ dice) face = ground (arith, counts-le dice face)

-- The most that a box can pay.
abbrev pub top_pay : CategoryId → ℕ
top_pay ones = 5
top_pay twos = 10
top_pay threes = 15
top_pay fours = 20
top_pay fives = 25
top_pay sixes = 30
top_pay escalera = 25
top_pay full = 35
top_pay poker = 45
top_pay generala = 50
top_pay generala_doble = 100

-- On five dice no box pays more than its row of the table, whatever the card and the throw.
pub score_for-le :
    (c : CategoryId) (dice : List ℕ) (used : ℕ) (card : Scorecard)
    → length dice ≡ 5
    → score_for c dice used card ≤ top_pay c
unfolding score_for face_total row_value holds
score_for-le ones dice used card h = omega (arith, counts-le dice 1)
score_for-le twos dice used card h = omega (arith, counts-le dice 2)
score_for-le threes dice used card h = omega (arith, counts-le dice 3)
score_for-le fours dice used card h = omega (arith, counts-le dice 4)
score_for-le fives dice used card h = omega (arith, counts-le dice 5)
score_for-le sixes dice used card h = omega (arith, counts-le dice 6)
score_for-le c dice used card h = ground arith

counts-Permᴰ : {xs ys : List ℕ} (face : ℕ) → Permᴰ xs ys → counts xs face ≡ counts ys face
unfolding counts
counts-Permᴰ face Permᴰ.nil = refl
counts-Permᴰ face (Permᴰ.cons {a = a} {b = b} e p) = ground (arith, counts-Permᴰ face p)
counts-Permᴰ face (Permᴰ.swap e f) = ground arith
counts-Permᴰ face (Permᴰ.trans p q) = counts-Permᴰ face p ∙ counts-Permᴰ face q

counts-perm : {xs ys : List ℕ} → Perm xs ys → counts xs ≡ counts ys
counts-perm p = fun_ext (λ face. ∥∥₁_elim p (ℕ_set _ _) (counts-Permᴰ face))

-- The cup forgets the order of the dice: no box distinguishes two throws of the same faces.
pub score_for-perm :
    (c : CategoryId) (xs ys : List ℕ) (used : ℕ) (card : Scorecard)
    → Perm xs ys
    → score_for c xs used card ≡ score_for c ys used card
unfolding score_for face_total holds is_escalera is_full is_poker is_generala some_face_shows
score_for-perm ones xs ys used card p = rw (counts-perm p)
score_for-perm _ xs ys used card p = rw (counts-perm p)

-- The doble pays exactly when the dice are five of a kind and the generala box holds a number above
-- zero, and then it pays 100.
pub score_for-doble :
    (dice : List ℕ) (used : ℕ) (card : Scorecard)
    → (0 < score_for generala_doble dice used card) ↔ (
        (is_generala dice ≡ true)
        × (v : ℕ) × (card generala ≡ some (suc v))
        × (score_for generala_doble dice used card ≡ 100))
unfolding score_for row_value has_scored_generala holds
score_for-doble dice used card = (
  λ h. elim (Option-cases (card generala)) [
    | inl e ↦ absurd (ground arith)
    | inr (v, e) ↦ (ground arith, v - 1, ground arith, ground arith)
  ],
  λ (d, v, e, r). ground arith,
)
