-- ===== src/Escoba/Points.antt =====
-- About scoreHandBreakdown of scoring.ts: the points and the winners of the categories.
use convite.Prelude.{
  ℕ, ◌+◌, ◌≤◌, ◌≡◌, ◌≢◌, ◌⊎◌, refl, sym, ap, ◌∙◌, inl, inr, false, String, List, Option, none, some,
  length, arith, Bool-cases, Option-cases, leb, ltb, any, ◌==◌, if◌then◌else◌, subst, same_id,
  same_id_refl, same_id_iff, same_id_ne,
}
use mathlib.Core.Option.{some-injective}
use convite.Deck.{Card}
use convite.Escoba.State.{ByTeam, put, HandState, HandScoreBreakdown}
use convite.Escoba.Setenta.{setenta_value, zeros, compare_setenta, score_setenta}
use convite.Escoba.Scoring.{
  is_siete_de_oro, count_oros, score_by_greater, score_oros, score_siete_de_oro, winner_of,
  points_for, breakdown_of, both, score_hand_breakdown,
}

-- One point for a team that won the category.
pub won : Option String → String → ℕ
won none id = 0
won (some winner) id = if same_id winner id then 1 else 0

-- What a category's scores can be.
abbrev IsCategory : String → String → ByTeam ℕ → Type 0
IsCategory a b scores =
    (scores ≡ zeros a b) ⊎ (scores ≡ put a 1 (zeros a b)) ⊎ (scores ≡ put b 1 (zeros a b))

score_by_greater-IsCategory : (x y : ℕ) (a b : String) → IsCategory a b (score_by_greater x y a b)
unfolding score_by_greater
score_by_greater-IsCategory x y a b = elim (Bool-cases (ltb y x)) [
  | inl e ↦ inr (inl (rw e refl))
  | inr e ↦ elim (Bool-cases (ltb x y)) [
    | inl f ↦ inr (inr (rw (e, f) refl))
    | inr f ↦ inl (rw (e, f) refl)
  ]
]

score_oros-IsCategory : (x y : ℕ) (a b : String) → IsCategory a b (score_oros x y a b)
unfolding score_oros
score_oros-IsCategory x y a b = elim (Bool-cases (leb 6 x)) [
  | inl e ↦ inr (inl (rw e refl))
  | inr e ↦ elim (Bool-cases (leb 6 y)) [
    | inl f ↦ inr (inr (rw (e, f) refl))
    | inr f ↦ inl (rw (e, f) refl)
  ]
]

score_siete_de_oro-IsCategory :
    (x y : List Card) (a b : String) → IsCategory a b (score_siete_de_oro x y a b)
unfolding score_siete_de_oro
score_siete_de_oro-IsCategory x y a b = elim (Bool-cases (any is_siete_de_oro x)) [
  | inl e ↦ inr (inl (rw e refl))
  | inr e ↦ elim (Bool-cases (any is_siete_de_oro y)) [
    | inl f ↦ inr (inr (rw (e, f) refl))
    | inr f ↦ inl (rw (e, f) refl)
  ]
]

compare_setenta-IsCategory :
    (x y : Option ℕ) (a b : String) → IsCategory a b (compare_setenta x y a b)
unfolding compare_setenta
compare_setenta-IsCategory none none a b = inl refl
compare_setenta-IsCategory none (some y) a b = inr (inr refl)
compare_setenta-IsCategory (some x) none a b = inr (inl refl)
compare_setenta-IsCategory (some x) (some y) a b = elim (Bool-cases (x == y)) [
  | inl e ↦ inl (rw e refl)
  | inr e ↦ elim (Bool-cases (ltb y x)) [
    | inl f ↦ inr (inl (rw (e, f) refl))
    | inr f ↦ inr (inr (rw (e, f) refl))
  ]
]

-- Every team's score in a category is read off the category's winner.
category-won :
    (a b : String) (scores : ByTeam ℕ)
    → a ≢ b
    → IsCategory a b scores
    → (scores a ≡ some (won (winner_of scores a b) a))
      × (scores b ≡ some (won (winner_of scores a b) b))
unfolding winner_of won
category-won a b scores ne h =
    let same_a = same_id_refl a in
    let same_b = same_id_refl b in
    let other = same_id_ne a b ne in
    let other' = same_id_ne b a (λ e. ne (sym e)) in
    elim h [
      | inl e ↦ rw (e, same_b, other', same_a) (refl, refl)
      | inr (inl e) ↦ rw (e, same_a, other, same_a, same_b) (refl, refl)
      | inr (inr e) ↦
          rw (e, other', same_b, same_a, same_id_ne b a (λ e. ne (sym e)), same_b) (refl, refl)
    ]

both-some {ℓ} :
    {A : Type ℓ} (x y : Option A) {p q : A} → both x y ≡ some (p, q) → (x ≡ some p) × (y ≡ some q)
both-some none y e = cc
both-some (some x) none e = cc
both-some (some x) (some y) e = (ap some (cc), ap some (cc))

-- The categories that a team won, with its escobas.
unfoldable pub points_won : HandScoreBreakdown → String → ℕ → ℕ
points_won d id escobas =
    won d.cartas id + won d.oros id + won d.setenta id + won d.siete_de_oro id + escobas

breakdown_of-points :
    (pile_a pile_b : List Card) (escobas : ByTeam ℕ) (a b : String) (ea eb : ℕ)
    → a ≢ b
    → escobas a ≡ some ea
    → escobas b ≡ some eb
    → ((breakdown_of pile_a pile_b escobas a b).points a
        ≡ some (points_won (breakdown_of pile_a pile_b escobas a b) a ea))
      × ((breakdown_of pile_a pile_b escobas a b).points b
          ≡ some (points_won (breakdown_of pile_a pile_b escobas a b) b eb))
unfolding breakdown_of points_for points_won score_setenta
breakdown_of-points pile_a pile_b escobas a b ea eb ne fa fb =
    let (ca, cb) =
      category-won a b _ ne (score_by_greater-IsCategory (length pile_a) (length pile_b) a b) in
    let (oa, ob) =
      category-won a b _ ne (score_oros-IsCategory (count_oros pile_a) (count_oros pile_b) a b) in
    let (sa, sb) =
      category-won a b _ ne
        (compare_setenta-IsCategory (setenta_value pile_a) (setenta_value pile_b) a b) in
    let (ta, tb) = category-won a b _ ne (score_siete_de_oro-IsCategory pile_a pile_b a b) in
    (
      rw (same_id_ne b a (λ e. ne (sym e)), same_id_refl a, ca, oa, sa, ta, fa) refl,
      rw (same_id_refl b, cb, ob, sb, tb, fb) refl,
    )

won-le : (w : Option String) (a b : String) → a ≢ b → won w a + won w b ≤ 1
unfolding won
won-le none a b ne = omega arith
won-le (some w) a b ne = elim (Bool-cases (same_id w a)) [
  | inl e ↦
      let f : same_id w b ≡ false = same_id_ne w b (λ g. ne (sym ((same_id_iff w a).0 e) ∙ g)) in
      rw (e, f) (omega arith)
  | inr e ↦ rw e (ground arith)
]

-- A hand that is scored gives each of the two teams one point for every category of which the
-- breakdown names it the winner, and one for each of its escobas; the categories give at most four
-- points to the two teams together. The teams differ, and each has a count of escobas.
pub score_hand_breakdown-points :
    (hand : HandState) (a b : String) (ea eb : ℕ) (d : HandScoreBreakdown)
    → a ≢ b
    → hand.escobas a ≡ some ea
    → hand.escobas b ≡ some eb
    → score_hand_breakdown hand a b ≡ some d
    → (d.points a ≡ some (points_won d a ea))
      × (d.points b ≡ some (points_won d b eb))
      × (points_won d a ea + points_won d b eb ≤ ea + eb + 4)
unfolding score_hand_breakdown points_won
score_hand_breakdown-points hand a b ea eb d ne fa fb e =
    elim (Option-cases (both (hand.piles a) (hand.piles b))) [
      | inl f ↦ cc (rw (score_hand_breakdown, f) at e)
      | inr ((pa, pb), f) ↦
          let same : breakdown_of pa pb hand.escobas a b ≡ d =
            some-injective _ _ (rw (score_hand_breakdown, f) at e) in
          let (x, y) = breakdown_of-points pa pb hand.escobas a b ea eb ne fa fb in
          (
            subst (λ z. z.points a ≡ some (points_won z a ea)) same x,
            subst (λ z. z.points b ≡ some (points_won z b eb)) same y,
            omega (
              arith,
              won-le d.cartas a b ne,
              won-le d.oros a b ne,
              won-le d.setenta a b ne,
              won-le d.siete_de_oro a b ne,
            ),
          )
    ]
