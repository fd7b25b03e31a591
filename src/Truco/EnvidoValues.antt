-- ===== src/Truco/EnvidoValues.antt =====
-- About applyEnvidoAction of envido-chain.ts: the values of the chains of calls.
use convite.Prelude.{
  ℕ, ◌+◌, ◌-◌, max, ◌<◌, ◌≤◌, ◌≡◌, refl, ap, ◌∙◌, subst, inl, inr, leb, true, false, Bool-cases,
  Option-cases, List, [], ◌∷◌, ◌++◌, Option, none, some, arith, ◌==◌,
}
use mathlib.Core.Option.{some-injective}
use convite.Truco.State.{
  EnvidoCallLevel, envido, envido_envido, real_envido, falta_envido, MatchState,
}
use convite.Truco.Envido.{
  call_weight, call_value, add_values, sum_value, all_but_last, decline_value, leading_score,
  falta_envido_value, highest_weight,
}
use convite.Truco.Declaring.{ends_in_falta, accepted_value}

highest_weight-append :
    (calls : List EnvidoCallLevel) (level : EnvidoCallLevel)
    → highest_weight (calls ++ level ∷ []) ≡ max (highest_weight calls) (call_weight level)
unfolding highest_weight
highest_weight-append [] level = ground arith
highest_weight-append (l ∷ calls) level = rw (highest_weight-append calls level) (ground arith)

-- The most that the calls below a level are worth.
abbrev cap : EnvidoCallLevel → ℕ
cap envido = 0
cap envido_envido = 2
cap real_envido = 4
cap falta_envido = 7

-- A chain of calls that rises: what comes before its last call has a value.
pub record IsRising (calls : List EnvidoCallLevel) : Type 0 where
  pub before : List EnvidoCallLevel
  pub last : EnvidoCallLevel
  pub value : ℕ
  pub split : calls ≡ before ++ last ∷ []
  pub worth : sum_value before ≡ some value
  pub bound : value ≤ cap last
  pub top : highest_weight calls ≡ call_weight last

add_values_assoc :
    (v m n : ℕ) (o : Option ℕ)
    → some (v + m) ≡ some n
    → add_values (some v) (add_values (some m) o) ≡ add_values (some n) o
add_values_assoc v m n none e = refl
add_values_assoc v m n (some w) e =
    let same = some-injective (v + m) n e in ap some (omega (arith, same))

pub sum_value-append :
    (calls : List EnvidoCallLevel) (level : EnvidoCallLevel) (n : ℕ)
    → sum_value calls ≡ some n
    → sum_value (calls ++ level ∷ []) ≡ add_values (some n) (call_value level)
unfolding sum_value
sum_value-append [] envido n e = cc
sum_value-append [] envido_envido n e = cc
sum_value-append [] real_envido n e = cc
sum_value-append [] falta_envido n e = cc
sum_value-append (l ∷ calls) level n e = elim (Option-cases (call_value l)) [
  | inl f ↦ cc (rw f at e)
  | inr (v, f) ↦ elim (Option-cases (sum_value calls)) [
    | inl g ↦ cc (rw (f, g) at e)
    | inr (m, g) ↦
        let same : some (v + m) ≡ some n = rw (f, g) at e in
        rw (f, sum_value-append calls level m g) (add_values_assoc v m n (call_value level) same)
  ]
]

all_but_last-append :
    (calls : List EnvidoCallLevel) (level : EnvidoCallLevel)
    → all_but_last (calls ++ level ∷ []) ≡ calls
unfolding all_but_last
all_but_last-append [] level = refl
all_but_last-append (l ∷ []) level = refl
all_but_last-append (l ∷ m ∷ calls) level = ap (λ x. l ∷ x) (all_but_last-append (m ∷ calls) level)

ends_in_falta-append :
    (calls : List EnvidoCallLevel) (level : EnvidoCallLevel)
    → ends_in_falta (calls ++ level ∷ []) ≡ (call_weight level == 4)
unfolding ends_in_falta
ends_in_falta-append [] envido = refl
ends_in_falta-append [] envido_envido = refl
ends_in_falta-append [] real_envido = refl
ends_in_falta-append [] falta_envido = refl
ends_in_falta-append (l ∷ []) level = ends_in_falta-append [] level
ends_in_falta-append (l ∷ m ∷ calls) level = ends_in_falta-append (m ∷ calls) level

step_cap :
    (l m : EnvidoCallLevel) (n : ℕ)
    → call_weight l < call_weight m
    → n ≤ cap l
    → (v : ℕ) × (call_value l ≡ some v) × (n + v ≤ cap m)
step_cap envido envido_envido n h b = (2, refl, omega (arith, b))
step_cap envido real_envido n h b = (2, refl, omega (arith, b))
step_cap envido falta_envido n h b = (2, refl, omega (arith, b))
step_cap envido_envido real_envido n h b = (2, refl, omega (arith, b))
step_cap envido_envido falta_envido n h b = (2, refl, omega (arith, b))
step_cap real_envido falta_envido n h b = (3, refl, omega (arith, b))
step_cap envido envido n h b = absurd (omega arith)
step_cap envido_envido envido n h b = absurd (omega arith)
step_cap envido_envido envido_envido n h b = absurd (omega arith)
step_cap real_envido envido n h b = absurd (omega arith)
step_cap real_envido envido_envido n h b = absurd (omega arith)
step_cap real_envido real_envido n h b = absurd (omega arith)
step_cap falta_envido envido n h b = absurd (omega arith)
step_cap falta_envido envido_envido n h b = absurd (omega arith)
step_cap falta_envido real_envido n h b = absurd (omega arith)
step_cap falta_envido falta_envido n h b = absurd (omega arith)

pub sum_value-IsRising :
    (calls : List EnvidoCallLevel) (l m : EnvidoCallLevel) (n : ℕ)
    → sum_value calls ≡ some n
    → n ≤ cap l
    → call_weight l < call_weight m
    → (v : ℕ) × (sum_value (calls ++ l ∷ []) ≡ some v) × (v ≤ cap m)
sum_value-IsRising calls l m n e b h =
    let (v, f, le) = step_cap l m n h b in
    (n + v, sum_value-append calls l n e ∙ ap (add_values (some n)) f, le)

pub raised-IsRising :
    (calls : List EnvidoCallLevel) (m : EnvidoCallLevel)
    → IsRising calls
    → highest_weight calls < call_weight m
    → IsRising (calls ++ m ∷ [])
raised-IsRising calls m r h =
    let h' = subst (λ n. n < call_weight m) r.top h in
    let (v, e, le) = sum_value-IsRising r.before r.last m r.value r.worth r.bound h' in
    record {
      before = calls;
      last = m;
      value = v;
      split = refl;
      worth = ap sum_value r.split ∙ e;
      bound = le;
      top = highest_weight-append calls m ∙ ground (arith, h);
    }

pub opened-IsRising : IsRising (envido ∷ [])
unfolding sum_value highest_weight
opened-IsRising = record {
  before = [];
  last = envido;
  value = 0;
  split = refl;
  worth = refl;
  bound = omega arith;
  top = refl;
}

cap-le : (l : EnvidoCallLevel) → cap l ≤ 7
cap-le envido = omega arith
cap-le envido_envido = omega arith
cap-le real_envido = omega arith
cap-le falta_envido = omega arith

pub decline_value-IsRising :
    (calls : List EnvidoCallLevel)
    → IsRising calls
    → (v : ℕ) × (decline_value calls ≡ some v) × (1 ≤ v) × (v ≤ 7)
unfolding decline_value
decline_value-IsRising calls r =
    let e : sum_value (all_but_last calls) ≡ some r.value =
      ap (λ x. sum_value (all_but_last x)) r.split
      ∙ ap sum_value (all_but_last-append r.before r.last)
      ∙ r.worth in
    let most = cap-le r.last in
    (max 1 r.value, rw (decline_value, e) refl, omega arith, omega (arith, most, r.bound))

falta_envido_value_lem :
    (s : MatchState) (m : ℕ)
    → leading_score s.teams ≡ some m
    → m ≤ s.points_to_win
    → (v : ℕ) × (falta_envido_value s ≡ some v) × (v ≤ s.points_to_win)
unfolding falta_envido_value
falta_envido_value_lem s m e h =
    let f : leb m s.points_to_win ≡ true = ground arith in
    (s.points_to_win - m, rw (falta_envido_value, e, f) refl, omega arith)

pub light :
    (l : EnvidoCallLevel) → (call_weight l == 4) ≡ false → call_weight l < call_weight falta_envido
light envido e = omega arith
light envido_envido e = omega arith
light real_envido e = omega arith
light falta_envido e = cc

pub accepted_value-IsRising :
    (s : MatchState) (m : ℕ) (calls : List EnvidoCallLevel)
    → leading_score s.teams ≡ some m
    → m ≤ s.points_to_win
    → IsRising calls
    → (v : ℕ) × (accepted_value s calls ≡ some v) × (v ≤ max 7 s.points_to_win)
unfolding accepted_value
accepted_value-IsRising s m calls e h r =
    let (v, f, le) = falta_envido_value_lem s m e h in
    let at_end = ap ends_in_falta r.split ∙ ends_in_falta-append r.before r.last in
    elim (Bool-cases (call_weight r.last == 4)) [
      | inl g ↦ let g' = at_end ∙ g in (v, rw (accepted_value, g') f, omega (arith, le))
      | inr g ↦
          let g' = at_end ∙ g in
          let (n, sum, small) =
            sum_value-IsRising r.before r.last falta_envido r.value r.worth r.bound
              (light r.last g) in
          (n, rw (accepted_value, g') (ap sum_value r.split ∙ sum), omega (arith, small))
    ]
