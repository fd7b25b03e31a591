-- ===== src/Truco/Tricks.antt =====
-- About resolveTrick of trick.ts: the winner of a trick between two teams.
use convite.Prelude.{
  ℕ, ◌<◌, ◌≡◌, ◌≢◌, ◌⊎◌, refl, sym, ap, ◌∙◌, subst, inl, inr, max, ltb, ◌==◌, true, false,
  Bool-cases, All, String, List, [], ◌∷◌, none, some, if◌then◌else◌, same_id, same_id_refl,
  same_id_ne, arith,
}
use convite.Deck.{Card, card, r1, espada, basto, oro, copa}
use convite.Truco.State.{TrickOutcome}
use convite.Truco.Trick.{
  card_power, PlayedCard, TeamPower, raise_power, best_powers, max_power, only_team, leading_teams,
  resolve_trick,
}

-- The power of the best card that a team played, 0 where it played none.
pub best_of : String → List PlayedCard → ℕ
best_of team [] = 0
best_of team (play ∷ plays) =
    max (if same_id play.team_id team then card_power play.card else 0) (best_of team plays)

card_power-pos : (c : Card) → 0 < card_power c
card_power-pos (card r1 espada) = omega arith
card_power-pos (card _ espada) = omega arith
card_power-pos (card r1 basto) = omega arith
card_power-pos (card _ basto) = omega arith
card_power-pos (card r1 oro) = omega arith
card_power-pos (card _ oro) = omega arith
card_power-pos (card r1 copa) = omega arith
card_power-pos (card _ copa) = omega arith

abbrev entry : String → ℕ → TeamPower
entry team power = record { team_id = team; power = power }

-- The map of two teams' best powers, in each order in which it can come about.
data Powers (a b : String) (l : List TeamPower) (x y : ℕ) : Type 0 where
  nobody : l ≡ [] → x ≡ 0 → y ≡ 0 → Powers a b l x y
  only_first : l ≡ entry a x ∷ [] → 0 < x → y ≡ 0 → Powers a b l x y
  only_second : l ≡ entry b y ∷ [] → 0 < y → x ≡ 0 → Powers a b l x y
  first_led : l ≡ entry a x ∷ entry b y ∷ [] → 0 < x → 0 < y → Powers a b l x y
  second_led : l ≡ entry b y ∷ entry a x ∷ [] → 0 < x → 0 < y → Powers a b l x y

swap : (a b : String) (l : List TeamPower) (x y : ℕ) → Powers a b l x y → Powers b a l y x
swap a b l x y (nobody e f g) = nobody e g f
swap a b l x y (only_first e f g) = only_second e f g
swap a b l x y (only_second e f g) = only_first e f g
swap a b l x y (first_led e f g) = second_led e g f
swap a b l x y (second_led e f g) = first_led e g f

-- The entry of the team itself, and the entry of the other one.
raise-own :
    (a : String) (p x : ℕ) (rest : List TeamPower)
    → raise_power a p (entry a x ∷ rest) ≡ entry a (max p x) ∷ rest
unfolding raise_power
raise-own a p x rest = elim (Bool-cases (ltb x p)) [
  | inl e ↦
      let top : p ≡ max p x = ground arith in
      rw (same_id_refl a, e) (ap (λ n. entry a n ∷ rest) top)
  | inr e ↦
      let top : x ≡ max p x = ground arith in
      rw (same_id_refl a, e) (ap (λ n. entry a n ∷ rest) top)
]

raise-other :
    (a b : String) (p y : ℕ) (rest : List TeamPower)
    → a ≢ b
    → raise_power a p (entry b y ∷ rest) ≡ entry b y ∷ raise_power a p rest
unfolding raise_power
raise-other a b p y rest ne = rw (same_id_ne b a (λ e. ne (sym e))) refl

raise-new : (a : String) (p : ℕ) → raise_power a p [] ≡ entry a p ∷ []
unfolding raise_power
raise-new a p = refl

-- A play of the first team.
raise-Powers :
    (a b : String) (l : List TeamPower) (p x y : ℕ)
    → a ≢ b
    → 0 < p
    → Powers a b l x y
    → Powers a b (raise_power a p l) (max p x) y
raise-Powers a b l p x y ne pos (nobody e f g) =
    let top : p ≡ max p x = omega arith in
    only_first (ap (raise_power a p) e ∙ raise-new a p ∙ ap (λ n. entry a n ∷ []) top) (omega arith)
      g
raise-Powers a b l p x y ne pos (only_first e f g) =
    only_first (ap (raise_power a p) e ∙ raise-own a p x []) (omega arith) g
raise-Powers a b l p x y ne pos (only_second e f g) =
    let top : p ≡ max p x = omega arith in
    second_led
      (ap (raise_power a p) e
        ∙ raise-other a b p y [] ne
        ∙ ap (λ l. entry b y ∷ l) (raise-new a p)
        ∙ ap (λ n. entry b y ∷ entry a n ∷ []) top)
      (omega arith) f
raise-Powers a b l p x y ne pos (first_led e f g) =
    first_led (ap (raise_power a p) e ∙ raise-own a p x (entry b y ∷ [])) (omega arith) g
raise-Powers a b l p x y ne pos (second_led e f g) =
    second_led
      (ap (raise_power a p) e
        ∙ raise-other a b p y (entry a x ∷ []) ne
        ∙ ap (λ l. entry b y ∷ l) (raise-own a p x []))
      (omega arith) g

retype :
    (a b : String) (l : List TeamPower) {x y x' y' : ℕ}
    → Powers a b l x y
    → x ≡ x'
    → y ≡ y'
    → Powers a b l x' y'
retype a b l {x = x} {y' = y'} q e f =
    subst (λ n. Powers a b l n y') e (subst (λ n. Powers a b l x n) f q)

abbrev pub PlayedBy : String → String → PlayedCard → Type 0
PlayedBy a b play = (play.team_id ≡ a) ⊎ (play.team_id ≡ b)

best_powers-Powers :
    (a b : String) (plays : List PlayedCard) (l : List TeamPower) (x y : ℕ)
    → a ≢ b
    → All (PlayedBy a b) plays
    → Powers a b l x y
    → Powers a b (best_powers plays l) (max (best_of a plays) x) (max (best_of b plays) y)
unfolding best_powers best_of
best_powers-Powers a b [] l x y ne h q = retype a b l q (omega arith) (omega arith)
best_powers-Powers a b (play ∷ plays) l x y ne h q =
    let p = card_power play.card in
    let l' = raise_power play.team_id p l in
    elim h.0 [
      | inl e ↦
          let f : same_id play.team_id b ≡ false =
            same_id_ne play.team_id b (λ g. ne (sym e ∙ g)) in
          let q' : Powers a b l' (max p x) y =
            subst (λ t. Powers a b (raise_power t p l) (max p x) y) (sym e)
              (raise-Powers a b l p x y ne (card_power-pos play.card) q) in
          let own : same_id play.team_id a ≡ true =
            subst (λ t. same_id t a ≡ true) (sym e) (same_id_refl a) in
          rw (own, f)
            (retype a b _ (best_powers-Powers a b plays l' (max p x) y ne h.1 q') (omega arith)
              (omega arith))
      | inr e ↦
          let f : same_id play.team_id a ≡ false =
            same_id_ne play.team_id a (λ g. ne (sym g ∙ e)) in
          let q' : Powers a b l' x (max p y) =
            subst (λ t. Powers a b (raise_power t p l) x (max p y)) (sym e)
              (swap b a (raise_power b p l) (max p y) x (
                raise-Powers b a l p y x (λ g. ne (sym g)) (card_power-pos play.card)
                  (swap a b l x y q))) in
          let own : same_id play.team_id b ≡ true =
            subst (λ t. same_id t b ≡ true) (sym e) (same_id_refl b) in
          rw (own, f)
            (retype a b _ (best_powers-Powers a b plays l' x (max p y) ne h.1 q') (omega arith)
              (omega arith))
    ]

-- The leading team of such a map.
winner_by : String → String → ℕ → ℕ → TrickOutcome
winner_by a b x y = if ltb y x then some a else (if ltb x y then some b else none)

one_team : (t : String) (n : ℕ) → only_team (leading_teams (entry t n ∷ [])) ≡ some t
unfolding leading_teams max_power
one_team t n = let top : (n == max n 0) ≡ true = ground arith in rw top refl

two_teams :
    (s t : String) (m n : ℕ)
    → only_team (leading_teams (entry s m ∷ entry t n ∷ [])) ≡ winner_by s t m n
unfolding leading_teams max_power winner_by
two_teams s t m n = elim (Bool-cases (ltb n m)) [
  | inl e ↦
      let p : (m == max m (max n 0)) ≡ true = ground arith in
      let q : (n == max m (max n 0)) ≡ false = ground arith in rw (e, p, q) refl
  | inr e ↦ elim (Bool-cases (ltb m n)) [
    | inl f ↦
        let p : (m == max m (max n 0)) ≡ false = ground arith in
        let q : (n == max m (max n 0)) ≡ true = ground arith in rw (e, f, p, q) refl
    | inr f ↦
        let p : (m == max m (max n 0)) ≡ true = ground arith in
        let q : (n == max m (max n 0)) ≡ true = ground arith in rw (e, f, p, q) refl
  ]
]

winner_by_comm : (a b : String) (x y : ℕ) → winner_by b a y x ≡ winner_by a b x y
unfolding winner_by
winner_by_comm a b x y = elim (Bool-cases (ltb y x)) [
  | inl e ↦ let f : ltb x y ≡ false = ground arith in rw (e, f) refl
  | inr e ↦ rw e refl
]

first_only : (a b : String) (x : ℕ) → 0 < x → winner_by a b x 0 ≡ some a
unfolding winner_by
first_only a b x h = let e : ltb 0 x ≡ true = ground arith in rw e refl

Powers-winner :
    (a b : String) (l : List TeamPower) (x y : ℕ)
    → Powers a b l x y
    → only_team (leading_teams l) ≡ winner_by a b x y
unfolding leading_teams max_power winner_by
Powers-winner a b l x y (nobody e f g) =
    ap (λ k. only_team (leading_teams k)) e
    ∙ ap (λ k. winner_by a b k 0) (sym f)
    ∙ ap (winner_by a b x) (sym g)
Powers-winner a b l x y (only_first e f g) =
    ap (λ k. only_team (leading_teams k)) e
    ∙ one_team a x
    ∙ sym (first_only a b x f)
    ∙ ap (winner_by a b x) (sym g)
Powers-winner a b l x y (only_second e f g) =
    ap (λ k. only_team (leading_teams k)) e
    ∙ one_team b y
    ∙ sym (first_only b a y f)
    ∙ winner_by_comm a b 0 y
    ∙ ap (λ k. winner_by a b k y) (sym g)
Powers-winner a b l x y (first_led e f g) =
    ap (λ k. only_team (leading_teams k)) e ∙ two_teams a b x y
Powers-winner a b l x y (second_led e f g) =
    ap (λ k. only_team (leading_teams k)) e ∙ two_teams b a y x ∙ winner_by_comm a b x y

-- A trick between two different teams goes to the team whose best card is the stronger one; where the
-- best cards are equally strong, or nobody played, it is a parda.
pub resolve_trick-best_of :
    (a b : String) (plays : List PlayedCard)
    → a ≢ b
    → All (PlayedBy a b) plays
    → resolve_trick plays ≡ (
        if ltb (best_of b plays) (best_of a plays)
        then some a
        else (if ltb (best_of a plays) (best_of b plays) then some b else none))
unfolding resolve_trick winner_by
resolve_trick-best_of a b plays ne h =
    Powers-winner a b (best_powers plays []) (best_of a plays) (best_of b plays) (
      retype a b _ (best_powers-Powers a b plays [] 0 0 ne h (nobody refl refl refl)) (omega arith)
        (omega arith))
