-- ===== src/Generala/Totals.antt =====
-- What a run of a match does to its scorecards.
use convite.Prelude.{
  ℕ, zero, suc, ◌≤◌, ◌<◌, ◌≡◌, ◌≢◌, ◌⊎◌, refl, sym, ap, ◌∙◌, inl, inr, String, List, [], ◌∷◌, map,
  some, arith, get_elem?, set, subst,
}
use mathlib.Core.Option.{some-injective}
use native.Mathlib.Decide.{ℕ_discrete}
use convite.Generala.State.{
  CategoryId, ones, twos, threes, fours, fives, sixes, escalera, full, poker, generala,
  generala_doble, Scorecard, MatchState, ok, create_match, empty_scorecard, write_box,
}
use convite.Generala.Scoring.{score_for}
use convite.Generala.Outcome.{total_for, sum_boxes, worth}
use convite.Generala.Valid.{IsValid}
use convite.Generala.Progress.{Run, stay, step, Step-IsValid, opening-IsValid}
use convite.Generala.Cards.{
  CardIsSound, AllSound, CardsStep, unchanged, written, Step-CardsStep, CardsStep-AllSound,
  AllSound-get, sound-empty, write_box-ne,
}

Run-AllSound :
    {n : ℕ} {s t : MatchState} → Run n s t → IsValid s → AllSound s.cards → AllSound t.cards
Run-AllSound stay v h = h
Run-AllSound (step st r) v h =
    Run-AllSound r (Step-IsValid st v) (CardsStep-AllSound (Step-CardsStep st v) h)

AllSound-fresh : (ps : List String) → AllSound (map (λ _. empty_scorecard) ps)
AllSound-fresh [] = tt
AllSound-fresh (p ∷ ps) = (sound-empty, AllSound-fresh ps)

opening-AllSound :
    (p : String) (ps : List String) {s : MatchState}
    → create_match (p ∷ ps) ≡ ok s
    → AllSound s.cards
unfolding create_match
opening-AllSound p ps e =
    let cards : map (λ _. empty_scorecard) (p ∷ ps) ≡ _ = ground arith in
    subst AllSound cards (AllSound-fresh (p ∷ ps))

total-le : (card : Scorecard) → CardIsSound card → total_for card ≤ 360
unfolding total_for sum_boxes
total-le card h =
    let b = h.bounded in
    omega (
      arith,
      b ones,
      b twos,
      b threes,
      b fours,
      b fives,
      b sixes,
      b escalera,
      b full,
      b poker,
      b generala,
      b generala_doble,
    )

earned : (n : ℕ) {m : ℕ} → (0 < n → 0 < m) → (n ≡ 0) ⊎ (0 < m)
earned zero f = inl refl
earned (suc n) f = inr (f (omega arith))

-- At any point of any match no seat has scored more than 360 points, and a doble stands on a card
-- with points only where a generala was scored with points before.
pub Run-total_for :
    (p : String) (ps : List String) (n seat : ℕ) {s t : MatchState} {card : Scorecard}
    → create_match (p ∷ ps) ≡ ok s
    → Run n s t
    → get_elem? t.cards seat ≡ some card
    → (total_for card ≤ 360) × ((worth (card generala_doble) ≡ 0) ⊎ (0 < worth (card generala)))
Run-total_for p ps n seat {s} {t} {card} e r g =
    let h =
      AllSound-get t.cards seat (Run-AllSound r (opening-IsValid p ps e) (opening-AllSound p ps e))
        g in
    (total-le card h, earned (worth (card generala_doble)) h.doble_earned)

-- The card at a seat of `t` holds `v` in box `c`.
abbrev pub Holds : MatchState → ℕ → CategoryId → ℕ → Type 0
Holds t seat c v = (card : Scorecard) × (get_elem? t.cards seat ≡ some card) × (card c ≡ some v)

get_elem?-set_self {ℓ} :
    {A : Type ℓ} (xs : List A) (i : ℕ) (v : A) {x : A}
    → get_elem? xs i ≡ some x
    → get_elem? (set xs i v) i ≡ some v
get_elem?-set_self [] i v h = cc
get_elem?-set_self (x ∷ xs) zero v h = refl
get_elem?-set_self (x ∷ xs) (suc i) v h = get_elem?-set_self xs i v h

get_elem?-set_ne {ℓ} :
    {A : Type ℓ} (xs : List A) (i j : ℕ) (v : A) → i ≢ j → get_elem? (set xs i v) j ≡ get_elem? xs j
get_elem?-set_ne [] i j v h = refl
get_elem?-set_ne (x ∷ xs) zero zero v h = absurd (h refl)
get_elem?-set_ne (x ∷ xs) zero (suc j) v h = refl
get_elem?-set_ne (x ∷ xs) (suc i) zero v h = refl
get_elem?-set_ne (x ∷ xs) (suc i) (suc j) v h = get_elem?-set_ne xs i j v (λ e. h (ap suc e))

CardsStep-Holds :
    (seat : ℕ) (c : CategoryId) (v : ℕ) {s t : MatchState}
    → CardsStep s t
    → Holds s seat c v
    → Holds t seat c v
CardsStep-Holds seat c v (unchanged e) (card, g, h) = (card, rw e g, h)
CardsStep-Holds seat c v {s} {t} (written at card' c' dice used g' o l e) (card, g, h) =
    elim (ℕ_discrete at seat) [
      | no ne ↦ (card, rw (e, get_elem?-set_ne s.cards at seat _ ne) g, h)
      | yes eq ↦
          let same : card' ≡ card =
            some-injective card' card
              (sym g' ∙ subst (λ x. get_elem? s.cards x ≡ some card) (sym eq) g) in
          let other : c' ≢ c = λ d. ground (arith, ap (λ x. x c) same) in
          (
            write_box card' c' (score_for c' dice used card'),
            rw (e, ← eq, get_elem?-set_self s.cards at _ g'),
            write_box-ne card' c' c _ other ∙ ap (λ x. x c) same ∙ h,
          )
    ]

-- From a valid match on, what is written in a box, a zero included, is never changed or erased by the
-- accepted steps that follow.
pub Run-Holds :
    (seat : ℕ) (c : CategoryId) (v n : ℕ) {s t : MatchState}
    → IsValid s
    → Run n s t
    → Holds s seat c v
    → Holds t seat c v
Run-Holds seat c v n w stay h = h
Run-Holds seat c v n w (step st r) h =
    Run-Holds seat c v _ (Step-IsValid st w) r (CardsStep-Holds seat c v (Step-CardsStep st w) h)
