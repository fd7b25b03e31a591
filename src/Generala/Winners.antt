-- ===== src/Generala/Winners.antt =====
-- Who wins a finished match.
use convite.Prelude.{
  ℕ, zero, suc, ◌≤◌, ◌<◌, ◌≡◌, ◌↔◌, refl, sym, ap, ◌∙◌, inl, inr, true, String, List, [], ◌∷◌, map,
  some, every, not, ◌⊎◌, ◌≢◌, none, Option, Bool, false, Option-cases, subst, length, arith,
  Bool-cases, length-map, ==_iff, get_elem?, get_elem?_total, ◌==◌,
}
use mathlib.Core.Option.{some-injective}
use mathlib.Core.List.{Memᴰ}
use native.Mathlib.Decide.{dec_le}
use convite.Generala.State.{
  Scorecard, MatchState, CategoryId, category_ids, Turn, awaiting_roll, deciding, servida_win, ones,
  twos, threes, fours, fives, sixes, escalera, full, poker, generala, generala_doble,
}
use convite.Generala.Moves.{is_open}
use convite.Generala.Outcome.{
  total_for, max_of, at_total, card_outcome, is_card_full, outcome_of, get_outcome,
}
use convite.Generala.Valid.{IsValid, TurnIsValid}

max_of-bound : (ns : List ℕ) (i : ℕ) {n : ℕ} → get_elem? ns i ≡ some n → n ≤ max_of ns
unfolding max_of
max_of-bound [] i h = cc
max_of-bound (m ∷ ns) zero h = ground arith
max_of-bound (m ∷ ns) (suc i) h = omega (arith, max_of-bound ns i h)

max_of-attained : (ns : List ℕ) → 0 < length ns → (i : ℕ) × (get_elem? ns i ≡ some (max_of ns))
unfolding max_of
max_of-attained [] h = elim h [ ]
max_of-attained (m ∷ []) h = (0, ap some (omega arith))
max_of-attained (m ∷ n ∷ ns) h =
    let (i, e) = max_of-attained (n ∷ ns) (omega arith) in
    elim (dec_le (max_of (n ∷ ns)) m) [
      | yes le ↦ (0, ap some (sym (omega arith)))
      | no gt ↦ (suc i, e ∙ ap some (omega arith))
    ]

-- `p` sits at a seat whose total is `best`.
abbrev SitsAt : ℕ → List String → List ℕ → String → Type 0
SitsAt best ps ts p = (i : ℕ) × (get_elem? ps i ≡ some p) × (get_elem? ts i ≡ some best)

SitsAt-cons :
    (best : ℕ) (q : String) (t : ℕ) (ps : List String) (ts : List ℕ) {p : String} {l : List String}
    → t ≡ best
    → (Memᴰ p l → SitsAt best ps ts p)
    → Memᴰ p (q ∷ l)
    → SitsAt best (q ∷ ps) (t ∷ ts) p
SitsAt-cons best q t ps ts e ih (Memᴰ.head h) = (0, ap some (sym h), ap some e)
SitsAt-cons best q t ps ts e ih (Memᴰ.tail m) = let (i, f, g) = ih m in (suc i, f, g)

at_total-mem :
    (best : ℕ) (ps : List String) (ts : List ℕ) (p : String)
    → Memᴰ p (at_total best ps ts)
    → SitsAt best ps ts p
unfolding at_total
at_total-mem best [] ts p m = elim m [ ]
at_total-mem best (q ∷ ps) [] p m = elim m [ ]
at_total-mem best (q ∷ ps) (t ∷ ts) p m = elim (Bool-cases (t == best)) [
  | inr e ↦ let (i, f, g) = at_total-mem best ps ts p (rw e at m) in (suc i, f, g)
  | inl e ↦ SitsAt-cons best q t ps ts ((==_iff t best).0 e) (at_total-mem best ps ts p) (rw e at m)
]

mem-at_total :
    (best : ℕ) (ps : List String) (ts : List ℕ) (i : ℕ) {p : String}
    → get_elem? ps i ≡ some p
    → get_elem? ts i ≡ some best
    → Memᴰ p (at_total best ps ts)
unfolding at_total
mem-at_total best [] ts i e f = cc
mem-at_total best (q ∷ ps) [] i e f = cc
mem-at_total best (q ∷ ps) (t ∷ ts) zero {p} e f =
    let here : (t == best) ≡ true = (==_iff t best).1 (some-injective t best f) in
    rw here (Memᴰ.head (sym (some-injective q p e)))
mem-at_total best (q ∷ ps) (t ∷ ts) (suc i) e f = elim (Bool-cases (t == best)) [
  | inl h ↦ rw h (Memᴰ.tail (mem-at_total best ps ts i e f))
  | inr h ↦ rw h (mem-at_total best ps ts i e f)
]

get_elem?-map {ℓ κ} :
    {A : Type ℓ} {B : Type κ} (f : A → B) (xs : List A) (i : ℕ) {x : A}
    → get_elem? xs i ≡ some x
    → get_elem? (map f xs) i ≡ some (f x)
get_elem?-map f [] i e = cc
get_elem?-map f (x ∷ xs) zero {x = y} e = ap some (ap f (some-injective x y e))
get_elem?-map f (x ∷ xs) (suc i) e = get_elem?-map f xs i e

get_elem?_of_map {ℓ κ} :
    {A : Type ℓ} {B : Type κ} (f : A → B) (xs : List A) (i : ℕ) {y : B}
    → get_elem? (map f xs) i ≡ some y
    → (x : A) × (get_elem? xs i ≡ some x) × (f x ≡ y)
get_elem?_of_map f [] i e = cc
get_elem?_of_map f (x ∷ xs) zero {y} e = (x, refl, some-injective (f x) y e)
get_elem?_of_map f (x ∷ xs) (suc i) e = get_elem?_of_map f xs i e

lt_of_get_elem? {ℓ} :
    {A : Type ℓ} (xs : List A) (i : ℕ) {x : A} → get_elem? xs i ≡ some x → i < length xs
lt_of_get_elem? [] i e = cc
lt_of_get_elem? (x ∷ xs) zero e = omega arith
lt_of_get_elem? (x ∷ xs) (suc i) e = omega (arith, lt_of_get_elem? xs i e)

-- `p` sits at a seat whose card is worth at least what any card at the table is worth.
abbrev pub IsBest : MatchState → String → Type 0
IsBest s p =
    (i : ℕ) × (card : Scorecard) × (get_elem? s.players i ≡ some p)
    × (get_elem? s.cards i ≡ some card)
    × ((j : ℕ) (other : Scorecard)
        → get_elem? s.cards j ≡ some other
        → total_for other ≤ total_for card)

-- Where every card of a valid match is full, the cards name the players whose card is worth the most.
card_outcome-IsBest :
    (s : MatchState)
    → IsValid s
    → every is_card_full s.cards ≡ true
    → (ws : List String) × (card_outcome s ≡ some ws)
      × ((p : String) → Memᴰ p ws ↔ IsBest s p)
      × ((p : String) × Memᴰ p ws)
unfolding card_outcome
card_outcome-IsBest s v done =
    let totals = map total_for s.cards in
    let best = max_of totals in
    let n : 0 < length totals = omega (arith, length-map total_for s.cards, v.dealt, v.seated) in
    (at_total best s.players totals, rw done, λ p. (to_best p, from_best p), exists_best n)
  where
    totals_at :
        (i : ℕ) {card : Scorecard}
        → get_elem? s.cards i ≡ some card
        → total_for card ≤ max_of (map total_for s.cards)
    totals_at i k = max_of-bound _ i (get_elem?-map total_for s.cards i k)

    exists_best :
        0 < length (map total_for s.cards)
        → (p : String) × Memᴰ p
            (at_total (max_of (map total_for s.cards)) s.players (map total_for s.cards))
    exists_best n =
        let (i, e) = max_of-attained (map total_for s.cards) n in
        let (card, h, k) = get_elem?_of_map total_for s.cards i e in
        let (p, q) =
          get_elem?_total s.players i (omega (arith, v.dealt, lt_of_get_elem? s.cards i h)) in
        (p, mem-at_total _ s.players _ i q e)

    to_best :
        (p : String)
        → Memᴰ p (at_total (max_of (map total_for s.cards)) s.players (map total_for s.cards))
        → IsBest s p
    to_best p m =
        let (i, f, g) = at_total-mem _ s.players (map total_for s.cards) p m in
        let (card, h, e) = get_elem?_of_map total_for s.cards i g in
        (i, card, f, h, λ j other k. rw e (totals_at j k))

    from_best :
        (p : String)
        → IsBest s p
        → Memᴰ p (at_total (max_of (map total_for s.cards)) s.players (map total_for s.cards))
    from_best p (i, card, f, h, top) =
        let (j, e) =
          max_of-attained (map total_for s.cards)
            (omega (arith, length-map total_for s.cards, v.dealt, v.seated)) in
        let (other, k, w) = get_elem?_of_map total_for s.cards j e in
        let same : total_for card ≡ max_of (map total_for s.cards) =
          omega (arith, totals_at i h, top j other k, w) in
        mem-at_total _ s.players _ i f (get_elem?-map total_for s.cards i h ∙ ap some same)

-- Every box of the card is written, or one is open.
abbrev pub IsWritten : Scorecard → Type 0
IsWritten card = (c : CategoryId) → (v : ℕ) × (card c ≡ some v)

abbrev pub HasOpenBox : Scorecard → Type 0
HasOpenBox card = (c : CategoryId) × (card c ≡ none)

written_box :
    (card : Scorecard) (c : CategoryId) → not (is_open card c) ≡ true → (v : ℕ) × (card c ≡ some v)
written_box card c e = elim (Option-cases (card c)) [
  | inl f ↦ cc (rw (is_open, f) at e)
  | inr (v, f) ↦ (v, f)
]

every-all {ℓ} :
    {A : Type ℓ} (f : A → Bool) (xs : List A)
    → every f xs ≡ true
    → (i : ℕ) {x : A} → get_elem? xs i ≡ some x
    → f x ≡ true
every-all f [] e i g = cc
every-all f (x ∷ xs) e zero {x = y} g =
    subst (λ z. f z ≡ true) (some-injective x y g) (ground arith)
every-all f (x ∷ xs) e (suc i) g = every-all f xs (ground arith) i g

every-fails {ℓ} :
    {A : Type ℓ} (f : A → Bool) (xs : List A)
    → every f xs ≡ false
    → (i : ℕ) × (x : A) × (get_elem? xs i ≡ some x) × (f x ≡ false)
every-fails f [] e = cc
every-fails f (x ∷ xs) e = elim (Bool-cases (f x)) [
  | inr g ↦ (0, x, refl, g)
  | inl g ↦ let (i, y, h, k) = every-fails f xs (rw g at e) in (suc i, y, h, k)
]

box_at : (c : CategoryId) → (i : ℕ) × (get_elem? category_ids i ≡ some c)
box_at ones = (0, refl)
box_at twos = (1, refl)
box_at threes = (2, refl)
box_at fours = (3, refl)
box_at fives = (4, refl)
box_at sixes = (5, refl)
box_at escalera = (6, refl)
box_at full = (7, refl)
box_at poker = (8, refl)
box_at generala = (9, refl)
box_at generala_doble = (10, refl)

is_card_full-IsWritten : (card : Scorecard) → is_card_full card ≡ true → IsWritten card
unfolding is_card_full
is_card_full-IsWritten card e c =
    let (i, at_i) = box_at c in
    written_box card c (every-all (λ b. not (is_open card b)) category_ids e i at_i)

not_full-HasOpenBox : (card : Scorecard) → is_card_full card ≡ false → HasOpenBox card
unfolding is_card_full
not_full-HasOpenBox card e =
    let (i, c, at_i, not_written) = every-fails (λ b. not (is_open card b)) category_ids e in
    elim (Option-cases (card c)) [
      | inl f ↦ (c, f)
      | inr (v, f) ↦ cc (rw (is_open, f) at not_written)
    ]

-- How a match stands: won by a served generala, over with every box written, or going on.
abbrev pub Standing : MatchState → Type 0
Standing s =
    ((seat : ℕ) × (p : String) × (s.turn ≡ servida_win seat)
      × (get_elem? s.players seat ≡ some p)
      × (get_outcome s ≡ some (p ∷ [])))
    ⊎ (((seat : ℕ) → s.turn ≢ servida_win seat)
        × ((i : ℕ) (card : Scorecard) → get_elem? s.cards i ≡ some card → IsWritten card)
        × (ws : List String) × (get_outcome s ≡ some ws)
        × ((p : String) → Memᴰ p ws ↔ IsBest s p)
        × ((p : String) × Memᴰ p ws))
    ⊎ ((seat : ℕ) → s.turn ≢ servida_win seat)
      × (i : ℕ) × (card : Scorecard) × (get_elem? s.cards i ≡ some card)
      × HasOpenBox card
      × (get_outcome s ≡ none)

going_Standing :
    (s : MatchState)
    → IsValid s
    → ((seat : ℕ) → s.turn ≢ servida_win seat)
    → get_outcome s ≡ card_outcome s
    → Standing s
unfolding card_outcome
going_Standing s v going e = elim (Bool-cases (every is_card_full s.cards)) [
  | inl f ↦
      let (ws, named, best, somebody) = card_outcome-IsBest s v f in
      inr (
        inl (
          going,
          λ i card g. is_card_full-IsWritten card (every-all is_card_full s.cards f i g),
          ws,
          e ∙ named,
          best,
          somebody,
        ))
  | inr f ↦
      let (i, card, g, not_full) = every-fails is_card_full s.cards f in
      inr (inr (going, i, card, g, not_full-HasOpenBox card not_full, e ∙ rw f refl))
]

one_winner : Option String → List String
one_winner none = []
one_winner (some p) = p ∷ []

served :
    (s : MatchState) (seat : ℕ) (p : String)
    → get_elem? s.players seat ≡ some p
    → outcome_of (servida_win seat) s ≡ some (p ∷ [])
unfolding outcome_of one_winner
served s seat p e = ap some (ap one_winner e)

turn_Standing : (turn : Turn) (s : MatchState) → IsValid s → s.turn ≡ turn → Standing s
unfolding get_outcome outcome_of
turn_Standing (awaiting_roll seat used slots) s v e =
    going_Standing s v (λ n f. cc (e, f)) (ap (λ t. outcome_of t s) e)
turn_Standing (deciding seat used dice) s v e =
    going_Standing s v (λ n f. cc (e, f)) (ap (λ t. outcome_of t s) e)
turn_Standing (servida_win seat) s v e =
    let (p, at_seat) =
      get_elem?_total s.players seat (subst (TurnIsValid (length s.players)) e v.turn_valid) in
    inl (seat, p, e, at_seat, ap (λ t. outcome_of t s) e ∙ served s seat p at_seat)

-- The outcome of a valid match: after a served generala its player alone has won; otherwise, with every box of
-- every card written, the winners are exactly the players whose card is worth the most, ties included, and there
-- is at least one; otherwise a card has an open box and there is no outcome.
pub get_outcome-Standing : (s : MatchState) → IsValid s → Standing s
get_outcome-Standing s v = turn_Standing s.turn s v refl
