-- ===== src/Mahjong/Occupied.antt =====
-- About the sets of positions of board.ts and deal.ts: what a list of indices has when tiles go.
use convite.Prelude.{
  ℕ, every, zero, suc, ◌+◌, ◌<◌, ◌≤◌, ◌≡◌, ◌≢◌, refl, sym, ap, subst, inl, inr, ◌==◌, ==_iff, Bool,
  true, false, ◌&&◌, not, Bool-cases, String, List, [], ◌∷◌, Option, none, some, any, filter,
  length, get_elem?, set, All, arith,
}
use convite.Mahjong.Board.{is_none, occupied_from}

abbrev pub has : ℕ → List ℕ → Bool
has i indices = any (λ j. j == i) indices

pub has-filter : (p : ℕ → Bool) (i : ℕ) (r : List ℕ) → has i (filter p r) ≡ (has i r && p i)
has-filter p i [] = refl
has-filter p i (x ∷ r) = elim (Bool-cases (p x)) [
  | inl f ↦ elim (Bool-cases (x == i)) [
    | inl g ↦
        let same = (==_iff x i).0 g in
        let h : p i ≡ true = subst (λ y. p y ≡ true) same f in rw (f, g, h) refl
    | inr g ↦ rw (f, g) (has-filter p i r)
  ]
  | inr f ↦ elim (Bool-cases (x == i)) [
    | inl g ↦
        let same = (==_iff x i).0 g in
        let h : p i ≡ false = subst (λ y. p y ≡ false) same f in
        let e = has-filter p i r in rw (f, g, e, h) (ground arith)
    | inr g ↦ rw (f, g) (has-filter p i r)
  ]
]

pub has-get_elem? : (r : List ℕ) (k : ℕ) {i : ℕ} → get_elem? r k ≡ some i → has i r ≡ true
has-get_elem? [] k e = cc
has-get_elem? (x ∷ r) zero e = ground arith
has-get_elem? (x ∷ r) (suc k) {i} e = rw (has-get_elem? r k e) (ground arith)

pub All-has {ℓ} : (P : ℕ → Type ℓ) (r : List ℕ) (i : ℕ) → All P r → has i r ≡ true → P i
All-has P [] i h e = cc
All-has P (x ∷ r) i h e = elim (Bool-cases (x == i)) [
  | inl f ↦ subst P ((==_iff x i).0 f) h.0
  | inr f ↦ All-has P r i h.1 (rw f at e)
]

pub get_elem?-set_same {ℓ} :
    {A : Type ℓ} (xs : List A) (i : ℕ) (v : A) → i < length xs → get_elem? (set xs i v) i ≡ some v
get_elem?-set_same [] i v h = elim h [ ]
get_elem?-set_same (x ∷ xs) zero v h = refl
get_elem?-set_same (x ∷ xs) (suc i) v h = get_elem?-set_same xs i v (omega arith)

pub get_elem?-set_other {ℓ} :
    {A : Type ℓ} (xs : List A) (i j : ℕ) (v : A) → i ≢ j → get_elem? (set xs i v) j ≡ get_elem? xs j
get_elem?-set_other [] i j v h = refl
get_elem?-set_other (x ∷ xs) zero zero v h = absurd (h refl)
get_elem?-set_other (x ∷ xs) zero (suc j) v h = refl
get_elem?-set_other (x ∷ xs) (suc i) zero v h = refl
get_elem?-set_other (x ∷ xs) (suc i) (suc j) v h = get_elem?-set_other xs i j v (λ e. h (ap suc e))

pub get_elem?-lt {ℓ} :
    {A : Type ℓ} (xs : List A) (i : ℕ) {x : A} → get_elem? xs i ≡ some x → i < length xs
get_elem?-lt [] i e = cc
get_elem?-lt (x ∷ xs) zero e = omega arith
get_elem?-lt (x ∷ xs) (suc i) e = let h = get_elem?-lt xs i e in omega (arith, h)

has-occupied_from :
    (k i : ℕ) (tiles : List (Option String))
    → has i (occupied_from k tiles) ≡ true
    → (j : ℕ) × (id : String) × (i ≡ k + j) × (get_elem? tiles j ≡ some (some id))
unfolding occupied_from
has-occupied_from k i [] e = cc
has-occupied_from k i (none ∷ tiles) e =
    let (j, id, f, g) = has-occupied_from (suc k) i tiles e in (suc j, id, omega (arith, f), g)
has-occupied_from k i (some id ∷ tiles) e = elim (Bool-cases (k == i)) [
  | inl f ↦ (0, id, ground (arith, f), refl)
  | inr f ↦
      let (j, name, g, h) = has-occupied_from (suc k) i tiles (rw f at e) in
      (suc j, name, omega (arith, g), h)
]

at_least :
    (k : ℕ) (tiles : List (Option String)) (m : ℕ)
    → m ≤ k
    → All (λ i. m ≤ i) (occupied_from k tiles)
unfolding occupied_from
at_least k [] m h = tt
at_least k (none ∷ tiles) m h = at_least (suc k) tiles m (omega (arith, h))
at_least k (some id ∷ tiles) m h = (h, at_least (suc k) tiles m (omega (arith, h)))

filter_untouched : (m : ℕ) (r : List ℕ) → All (λ i. suc m ≤ i) r → filter (λ i. not (i == m)) r ≡ r
filter_untouched m [] h = refl
filter_untouched m (x ∷ r) h =
    let big = h.0 in
    let f : (x == m) ≡ false = ground (arith, big) in
    rw f (ap (λ y. x ∷ y) (filter_untouched m r h.1))

pub occupied_from-set :
    (k j m : ℕ) (tiles : List (Option String))
    → m ≡ k + j
    → occupied_from k (set tiles j none) ≡ filter (λ i. not (i == m)) (occupied_from k tiles)
unfolding occupied_from
occupied_from-set k j m [] e = refl
occupied_from-set k zero m (none ∷ tiles) e = sym (
    filter_untouched m (occupied_from (suc k) tiles)
      (at_least (suc k) tiles (suc m) (omega (arith, e))))
occupied_from-set k zero m (some id ∷ tiles) e =
    let f : (k == m) ≡ true = ground (arith, e) in
    rw f (
      sym (
        filter_untouched m (occupied_from (suc k) tiles)
          (at_least (suc k) tiles (suc m) (omega (arith, e)))))
occupied_from-set k (suc j) m (none ∷ tiles) e =
    occupied_from-set (suc k) j m tiles (omega (arith, e))
occupied_from-set k (suc j) m (some id ∷ tiles) e =
    let f : (k == m) ≡ false = ground (arith, e) in
    rw f (ap (λ y. k ∷ y) (occupied_from-set (suc k) j m tiles (omega (arith, e))))

pub length-occupied_from-set :
    (k j : ℕ) (tiles : List (Option String)) (id : String)
    → get_elem? tiles j ≡ some (some id)
    → length (occupied_from k (set tiles j none)) + 1 ≡ length (occupied_from k tiles)
unfolding occupied_from
length-occupied_from-set k j [] id e = cc
length-occupied_from-set k zero (none ∷ tiles) id e = cc
length-occupied_from-set k zero (some x ∷ tiles) id e = omega arith
length-occupied_from-set k (suc j) (none ∷ tiles) id e =
    length-occupied_from-set (suc k) j tiles id e
length-occupied_from-set k (suc j) (some x ∷ tiles) id e =
    let h = length-occupied_from-set (suc k) j tiles id e in omega (arith, h)

pub filter-swap : (p q : ℕ → Bool) (r : List ℕ) → filter p (filter q r) ≡ filter q (filter p r)
filter-swap p q [] = refl
filter-swap p q (x ∷ r) = elim (Bool-cases (p x)) [
  | inl f ↦ elim (Bool-cases (q x)) [
    | inl g ↦ rw (f, g, f) (ap (λ y. x ∷ y) (filter-swap p q r))
    | inr g ↦ rw (f, g) (filter-swap p q r)
  ]
  | inr f ↦ elim (Bool-cases (q x)) [
    | inl g ↦ rw (f, g, f) (filter-swap p q r)
    | inr g ↦ rw (f, g) (filter-swap p q r)
  ]
]

-- Every member of the list is below the ones after it.
unfoldable pub Ascending : List ℕ → Type 0
Ascending [] = Unit
Ascending (x ∷ r) = All (λ i. suc x ≤ i) r × Ascending r

pub occupied_from-Ascending :
    (k : ℕ) (tiles : List (Option String)) → Ascending (occupied_from k tiles)
unfolding occupied_from Ascending
occupied_from-Ascending k [] = tt
occupied_from-Ascending k (none ∷ tiles) = occupied_from-Ascending (suc k) tiles
occupied_from-Ascending k (some id ∷ tiles) =
    (at_least (suc k) tiles (suc k) (omega arith), occupied_from-Ascending (suc k) tiles)

pub occupied_from-nil :
    (k : ℕ) (tiles : List (Option String)) → occupied_from k tiles ≡ [] → every is_none tiles ≡ true
unfolding occupied_from
occupied_from-nil k [] e = refl
occupied_from-nil k (none ∷ tiles) e = occupied_from-nil (suc k) tiles e
occupied_from-nil k (some id ∷ tiles) e = cc

pub at_occupied :
    (i : ℕ) (tiles : List (Option String))
    → has i (occupied_from 0 tiles) ≡ true
    → (id : String) × (get_elem? tiles i ≡ some (some id))
at_occupied i tiles h =
    let (j, id, e, g) = has-occupied_from 0 i tiles h in
    let same : j ≡ i = omega (arith, e) in
    (id, subst (λ n. get_elem? tiles n ≡ some (some id)) same g)
