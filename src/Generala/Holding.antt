-- ===== src/Generala/Holding.antt =====
-- Holding dice and throwing the rest, and the entropy that a throw asks for.
use convite.Prelude.{
  ℕ, zero, suc, ◌+◌, ◌<◌, ◌≡◌, refl, ap, ◌∙◌, inl, inr, true, String, List, [], ◌∷◌, Option, none,
  some, length, arith, Bool-cases, Option-cases, get_elem?, any, ◌==◌, if◌then◌else◌, subst,
}
use native.Mathlib.Nat.{add-zero, add-suc, suc-add, zero-add}
use convite.Generala.State.{MatchState, awaiting_roll, deciding, ok}
use convite.Generala.Play.{
  hold_turn, apply_hold, roll_turn, apply_roll, landed, splice, count_empty, kept_slots,
}
use convite.Generala.Valid.{IsValid, TurnIsValid}

pub kept : ℕ → List ℕ → List ℕ → ℕ
kept i keep [] = 0
kept i keep (d ∷ dice) = (if any (λ k. k == i) keep then 1 else 0) + kept (suc i) keep dice

count_empty-kept_slots :
    (i : ℕ) (keep dice : List ℕ)
    → count_empty (kept_slots i keep dice) + kept i keep dice ≡ length dice
unfolding count_empty kept_slots kept
count_empty-kept_slots i keep [] = refl
count_empty-kept_slots i keep (d ∷ dice) = elim (Bool-cases (any (λ k. k == i) keep)) [
  | inl e ↦ rw e (omega (arith, count_empty-kept_slots (suc i) keep dice))
  | inr e ↦ rw e (omega (arith, count_empty-kept_slots (suc i) keep dice))
]

splice-some :
    (d : ℕ) (slots : List (Option ℕ)) (faces dice : List ℕ)
    → splice (some d ∷ slots) faces ≡ some dice
    → (r : List ℕ) × (splice slots faces ≡ some r) × (dice ≡ d ∷ r)
unfolding splice
splice-some d slots faces dice e = elim (Option-cases (splice slots faces)) [
  | inl f ↦ cc
  | inr (r, f) ↦ (r, f, ground arith)
]

splice-none :
    (slots : List (Option ℕ)) (faces dice : List ℕ)
    → splice (none ∷ slots) faces ≡ some dice
    → (d : ℕ) × (rest r : List ℕ) × (splice slots rest ≡ some r) × (dice ≡ d ∷ r)
unfolding splice
splice-none slots [] dice e = cc
splice-none slots (d ∷ faces) dice e = elim (Option-cases (splice slots faces)) [
  | inl f ↦ cc
  | inr (r, f) ↦ (d, faces, r, f, ground arith)
]

-- A held die is still at its place after the splice.
splice-kept_slots :
    (i j : ℕ) (keep dice faces dice' : List ℕ) {d : ℕ}
    → splice (kept_slots i keep dice) faces ≡ some dice'
    → get_elem? dice j ≡ some d
    → any (λ k. k == i + j) keep ≡ true
    → get_elem? dice' j ≡ some d
unfolding kept_slots
splice-kept_slots i j keep [] faces dice' e g h = cc
splice-kept_slots i zero keep (x ∷ dice) faces dice' {d} e g h =
    let held : any (λ k. k == i) keep ≡ true = rw add-zero at h in
    let (r, f, same) = splice-some x (kept_slots (suc i) keep dice) faces dice' (rw held at e) in
    rw same g
splice-kept_slots i (suc j) keep (x ∷ dice) faces dice' {d} e g h =
    let held : any (λ k. k == suc i + j) keep ≡ true = rw (add-suc, ← suc-add) at h in
    elim (Bool-cases (any (λ k. k == i) keep)) [
      | inl a ↦
          let (r, f, same) = splice-some x (kept_slots (suc i) keep dice) faces dice' (rw a at e) in
          rw same (splice-kept_slots (suc i) j keep dice faces r f g held)
      | inr a ↦
          let (y, rest, r, f, same) =
            splice-none (kept_slots (suc i) keep dice) faces dice' (rw a at e) in
          rw same (splice-kept_slots (suc i) j keep dice rest r f g held)
    ]

hold_turn-ok :
    (s t : MatchState) (seat used : ℕ) (dice keep : List ℕ) (p : String)
    → hold_turn (deciding seat used dice) s p keep ≡ ok t
    → (t ≡ record s { turn = awaiting_roll seat used (kept_slots 0 keep dice) }) × (used < 3)
unfolding hold_turn
hold_turn-ok s t seat used dice keep p e = ground arith

roll_turn-ok :
    (t u : MatchState) (seat used : ℕ) (slots : List (Option ℕ)) (faces : List ℕ)
    → roll_turn (awaiting_roll seat used slots) t faces ≡ ok u
    → (dice : List ℕ) × (splice slots faces ≡ some dice)
      × (length faces ≡ count_empty slots)
      × (u ≡ record t { turn = landed seat (used + 1) dice })
unfolding roll_turn
roll_turn-ok t u seat used slots faces e = elim (Option-cases (splice slots faces)) [
  | inl f ↦ absurd (ground arith)
  | inr (dice, f) ↦ (dice, f, ground arith, ground arith)
]

landed-later :
    (seat used : ℕ) (dice : List ℕ)
    → 0 < used
    → landed seat (used + 1) dice ≡ deciding seat (used + 1) dice
unfolding landed
landed-later seat used dice h = ground arith

-- On a valid match, after a hold and the throw that follows it, the same seat decides again, one throw on; the throw
-- took exactly one face for each die that was not held, and every held die lies where it lay.
pub hold-roll :
    (s t u : MatchState) (seat used : ℕ) (dice keep faces : List ℕ) (p : String)
    → IsValid s
    → s.turn ≡ deciding seat used dice
    → apply_hold s p keep ≡ ok t
    → apply_roll t faces ≡ ok u
    → (dice' : List ℕ) × (u.turn ≡ deciding seat (used + 1) dice')
      × (length faces + kept 0 keep dice ≡ 5)
      × ((j d : ℕ)
          → get_elem? dice j ≡ some d
          → any (λ k. k == j) keep ≡ true
          → get_elem? dice' j ≡ some d)
unfolding apply_hold apply_roll
hold-roll s t u seat used dice keep faces p v e h r =
    let (here, few) = hold_turn-ok s t seat used dice keep p (rw e at h) in
    let (dice', f, n, there) =
      roll_turn-ok t u seat used (kept_slots 0 keep dice) faces (rw (ap (λ x. x.turn) here) at r) in
    let valid = subst (TurnIsValid (length s.players)) e v.turn_valid in
    (
      dice',
      ap (λ x. x.turn) there ∙ landed-later seat used dice' valid.1,
      omega (arith, count_empty-kept_slots 0 keep dice, valid.3),
      λ j d g k. splice-kept_slots 0 j keep dice faces dice' f g (rw zero-add k),
    )
