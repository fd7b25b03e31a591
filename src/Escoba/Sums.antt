-- ===== src/Escoba/Sums.antt =====
-- About someSubsetSumsTo of capture.ts and summingSubsets of legal-actions.ts: the choices of
-- table cards with a given sum.
use convite.Prelude.{
  ℕ, ◌+◌, ◌-◌, ◌≤◌, ◌≡◌, ◌↔◌, refl, sym, ap, ◌∙◌, inl, inr, Bool, true, false, ◌&&◌, ◌||◌, not,
  List, [], ◌∷◌, ◌++◌, All, arith, Bool-cases, All-append, leb, ltb, leb→le, ==_iff, any, ◌==◌,
  subst,
}
use mathlib.Core.List.{append_assoc, append-nil}
use convite.Deck.{Card}
use convite.Escoba.State.{card_value, sum_values}
use convite.Escoba.Capture.{add_sum, add_card, reachable_sums, some_subset_sums_to}
use convite.Escoba.Moves.{walk_subsets}

-- A choice of cards from a list, in its order.
pub data Picks : List Card → List Card → Type 0 where
  done : Picks [] []
  leave : {s l : List Card} (c : Card) → Picks s l → Picks s (c ∷ l)
  pick : {s l : List Card} (c : Card) → Picks s l → Picks (c ∷ s) (c ∷ l)

unfoldable pub can_sum : List Card → ℕ → Bool
can_sum [] n = n == 0
can_sum (c ∷ cs) n = can_sum cs n || (leb (card_value c) n && can_sum cs (n - card_value c))

can_sum-zero : (cs : List Card) → can_sum cs 0 ≡ true
unfolding can_sum
can_sum-zero [] = refl
can_sum-zero (c ∷ cs) = rw (can_sum-zero cs)

can_sum-Picks :
    (cs : List Card) (n : ℕ)
    → can_sum cs n ≡ true
    → (s : List Card) × Picks s cs × (sum_values s ≡ n)
unfolding can_sum sum_values
can_sum-Picks [] n h = ([], done, ground arith)
can_sum-Picks (c ∷ cs) n h = elim (Bool-cases (can_sum cs n)) [
  | inl e ↦ let (s, p, q) = can_sum-Picks cs n e in (s, leave c p, q)
  | inr e ↦
      let le : leb (card_value c) n ≡ true = ground arith in
      let more : can_sum cs (n - card_value c) ≡ true = ground arith in
      let (s, p, q) = can_sum-Picks cs (n - card_value c) more in
      (c ∷ s, pick c p, omega (arith, leb→le _ _ le))
]

Picks-can_sum : {s cs : List Card} → Picks s cs → can_sum cs (sum_values s) ≡ true
unfolding can_sum sum_values
Picks-can_sum done = refl
Picks-can_sum (leave c p) = rw (Picks-can_sum p)
Picks-can_sum (pick {s = s} {l = l} c p) =
    let same : card_value c + sum_values s - card_value c ≡ sum_values s = omega arith in
    ground (arith, Picks-can_sum p, ap (can_sum l) same)

any_of_mem :
    (f : ℕ → Bool) (n : ℕ) (sums : List ℕ)
    → any (λ s. s == n) sums ≡ true
    → any f sums ≡ (f n || any f sums)
any_of_mem f n [] h = cc
any_of_mem f n (m ∷ sums) h = elim (Bool-cases (m == n)) [
  | inl e ↦ rw ((==_iff m n).0 e) (ground arith)
  | inr e ↦
      let rest : any (λ s. s == n) sums ≡ true = rw e at h in
      ground (arith, any_of_mem f n sums rest)
]

any-add_sum : (f : ℕ → Bool) (n : ℕ) (sums : List ℕ) → any f (add_sum n sums) ≡ (f n || any f sums)
any-add_sum f n sums = elim (Bool-cases (any (λ s. s == n) sums)) [
  | inl e ↦ rw e (any_of_mem f n sums e)
  | inr e ↦ rw e
]

any-add_card :
    (f : ℕ → Bool) (target v : ℕ) (sums next : List ℕ)
    → any f (add_card target v sums next)
      ≡ (any f next || any (λ s. leb (s + v) target && f (s + v)) sums)
unfolding add_card
any-add_card f target v [] next = ground arith
any-add_card f target v (m ∷ sums) next = elim (Bool-cases (leb (m + v) target)) [
  | inl e ↦
      rw (e, any-add_card f target v sums (add_sum (m + v) next), any-add_sum f (m + v) next)
        (ground arith)
  | inr e ↦ rw (e, any-add_card f target v sums next)
]

any-or :
    (f g h : ℕ → Bool) (xs : List ℕ)
    → ((x : ℕ) → h x ≡ (f x || g x))
    → any h xs ≡ (any f xs || any g xs)
any-or f g h [] e = refl
any-or f g h (x ∷ xs) e = rw (e x, any-or f g h xs e) (ground arith)

any-eq : (f g : ℕ → Bool) (xs : List ℕ) → ((x : ℕ) → f x ≡ g x) → any f xs ≡ any g xs
any-eq f g [] e = refl
any-eq f g (x ∷ xs) e = rw (e x, any-eq f g xs e)

-- What is left of `x` after a sum that was reached, made from the rest of the table.
abbrev fits : List Card → ℕ → ℕ → Bool
fits cs x r = leb r x && can_sum cs (x - r)

fits-cons :
    (c : Card) (cs : List Card) (target x r : ℕ)
    → x ≤ target
    → fits (c ∷ cs) x r
      ≡ (fits cs x r || (leb (r + card_value c) target && fits cs x (r + card_value c)))
unfolding can_sum
fits-cons c cs target x r le =
    let same : x - r - card_value c ≡ x - (r + card_value c) = omega arith in
    ground (arith, ap (can_sum cs) same)

any-reachable_sums :
    (cs : List Card) (target x : ℕ) (sums : List ℕ)
    → x ≤ target
    → any (λ s. s == x) (reachable_sums target cs sums) ≡ any (fits cs x) sums
unfolding reachable_sums
any-reachable_sums [] target x sums le = any-eq _ _ sums (λ r. unfold can_sum in ground arith)
any-reachable_sums (c ∷ cs) target x sums le =
    any-reachable_sums cs target x (add_card target (card_value c) sums sums) le
    ∙ any-add_card (fits cs x) target (card_value c) sums sums
    ∙ sym (any-or _ _ (fits (c ∷ cs) x) sums (λ r. fits-cons c cs target x r le))

-- The forward search over reachable sums finds a fifteen exactly when one can be made.
pub some_subset_sums_to-can_sum :
    (table : List Card) (target : ℕ) → some_subset_sums_to table target ≡ can_sum table target
unfolding some_subset_sums_to
some_subset_sums_to-can_sum table target =
    any-reachable_sums table target target (0 ∷ []) (omega arith) ∙ (ground arith)

-- The validator finds a capture exactly when some choice of table cards has the wanted sum.
pub some_subset_sums_to_iff :
    (table : List Card) (target : ℕ)
    → (some_subset_sums_to table target ≡ true)
      ↔ ((s : List Card) × Picks s table × (sum_values s ≡ target))
some_subset_sums_to_iff table target = (
  λ h. can_sum-Picks table target (sym (some_subset_sums_to-can_sum table target) ∙ h),
  λ (s, p, e).
      some_subset_sums_to-can_sum table target
      ∙ subst (λ n. can_sum table n ≡ true) e (Picks-can_sum p),
)

abbrev pub is_empty {ℓ} : {A : Type ℓ} → List A → Bool
is_empty [] = true
is_empty (x ∷ xs) = false

pub is_empty-append {ℓ} :
    {A : Type ℓ} (xs ys : List A) → is_empty (xs ++ ys) ≡ (is_empty xs && is_empty ys)
is_empty-append [] ys = refl
is_empty-append (x ∷ xs) ys = refl

-- The enumeration is empty exactly when no fifteen can be made.
pub is_empty-walk_subsets :
    (cs : List Card) (n : ℕ) (chosen : List Card)
    → is_empty (walk_subsets cs n chosen) ≡ not (can_sum cs n)
unfolding walk_subsets can_sum
is_empty-walk_subsets [] n chosen = ground arith
is_empty-walk_subsets (c ∷ cs) n chosen = elim (Bool-cases (n == 0)) [
  | inl e ↦ rw ((==_iff n 0).0 e, can_sum-zero cs)
  | inr e ↦ elim (Bool-cases (ltb n (card_value c))) [
    | inl f ↦ rw (e, f, is_empty-walk_subsets cs n chosen) (ground arith)
    | inr f ↦
        rw
          (
            e,
            f,
            is_empty-append,
            is_empty-walk_subsets cs n chosen,
            is_empty-walk_subsets cs (n - card_value c) (chosen ++ c ∷ []),
          )
          (ground arith)
  ]
]

-- What the enumeration emits: what was chosen before, and a choice from the rest with the right sum.
abbrev pub Emitted : List Card → ℕ → List Card → List Card → Type 0
Emitted cs n chosen s = (t : List Card) × (s ≡ chosen ++ t) × Picks t cs × (sum_values t ≡ n)

Picks-none : (cs : List Card) → Picks [] cs
Picks-none [] = done
Picks-none (c ∷ cs) = leave c (Picks-none cs)

pub All-map {ℓ κ μ} :
    {A : Type ℓ} (P : A → Type κ) (Q : A → Type μ) (xs : List A)
    → ((x : A) → P x → Q x)
    → All P xs
    → All Q xs
All-map P Q [] f h = tt
All-map P Q (x ∷ xs) f h = (f x h.0, All-map P Q xs f h.1)

Emitted-leave :
    (c : Card) (cs : List Card) (n : ℕ) (chosen : List Card) (l : List (List Card))
    → All (Emitted cs n chosen) l
    → All (Emitted (c ∷ cs) n chosen) l
Emitted-leave c cs n chosen l = All-map _ _ l (λ s (t, a, p, q). (t, a, leave c p, q))

Emitted-pick :
    (c : Card) (cs : List Card) (n : ℕ) (chosen : List Card) (l : List (List Card))
    → ltb n (card_value c) ≡ false
    → All (Emitted cs (n - card_value c) (chosen ++ c ∷ [])) l
    → All (Emitted (c ∷ cs) n chosen) l
unfolding sum_values
Emitted-pick c cs n chosen l f =
    let le : card_value c ≤ n = ground arith in
    All-map _ _ l
      (λ s (t, a, p, q). (c ∷ t, a ∙ append_assoc chosen (c ∷ []) t, pick c p, omega arith))

pub walk_subsets-Emitted :
    (cs : List Card) (n : ℕ) (chosen : List Card)
    → All (Emitted cs n chosen) (walk_subsets cs n chosen)
unfolding walk_subsets sum_values
walk_subsets-Emitted [] n chosen = elim (Bool-cases (n == 0)) [
  | inl e ↦ rw e (([], sym (append-nil chosen), done, sym ((==_iff n 0).0 e)), tt)
  | inr e ↦ rw e tt
]
walk_subsets-Emitted (c ∷ cs) n chosen =
    let excluded =
      Emitted-leave c cs n chosen (walk_subsets cs n chosen) (walk_subsets-Emitted cs n chosen) in
    elim (Bool-cases (n == 0)) [
      | inl e ↦
          rw e (([], sym (append-nil chosen), Picks-none (c ∷ cs), sym ((==_iff n 0).0 e)), tt)
      | inr e ↦ elim (Bool-cases (ltb n (card_value c))) [
        | inl f ↦ rw (e, f) excluded
        | inr f ↦
            rw (e, f)
              (All-append (Emitted (c ∷ cs) n chosen) _ _
                (Emitted-pick c cs n chosen _ f
                  (walk_subsets-Emitted cs (n - card_value c) (chosen ++ c ∷ [])))
                excluded)
      ]
    ]
