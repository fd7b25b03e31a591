-- ===== src/Escoba/Fair.antt =====
-- About scoring.ts and setenta.ts: the categories of a hand, and the order in which the teams are
-- named.
use convite.Prelude.{
  ℕ, ◌+◌, ◌≤◌, ◌≡◌, ◌≢◌, refl, sym, ap, ◌∙◌, inl, inr, Bool, true, false, String, List, [], ◌∷◌,
  Option, none, some, length, arith, Bool-cases, leb, ltb, any, ◌==◌, if◌then◌else◌, same_id_refl,
  same_id_ne,
}
use convite.Deck.{same_suit, Card, card, Rank, oro, r7, same_card}
use convite.Deck.Count.{count, among, count-pos}
use convite.Escoba.State.{ByTeam, put}
use convite.Escoba.Setenta.{setenta_value, zeros, compare_setenta, score_setenta}
use convite.Escoba.Scoring.{
  is_siete_de_oro, count_oros, score_by_greater, score_oros, score_siete_de_oro, winner_of,
  breakdown_of,
}
use convite.Deck.{ranks, suit_of, card_id, espada, basto, copa, r1}

-- How often the oros of these ranks are in a pile.
oros_of : List Rank → List Card → ℕ
oros_of [] pile = 0
oros_of (r ∷ rs) pile = count (card r oro) pile + oros_of rs pile

oros_of-cons :
    (rs : List Rank) (c : Card) (pile : List Card)
    → oros_of rs (c ∷ pile) ≡ oros_of rs (c ∷ []) + oros_of rs pile
unfolding oros_of count
oros_of-cons [] c pile = refl
oros_of-cons (r ∷ rs) c pile = omega (arith, oros_of-cons rs c pile)

one_oro : (c : Card) → oros_of ranks (c ∷ []) ≡ (if same_suit (suit_of c) oro then 1 else 0)
unfolding oros_of count same_card card_id
one_oro (card r1 espada) = refl
one_oro (card _ espada) = refl
one_oro (card r1 basto) = refl
one_oro (card _ basto) = refl
one_oro (card r1 oro) = refl
one_oro (card _ oro) = refl
one_oro (card r1 copa) = refl
one_oro (card _ copa) = refl

count_oros-oros_of : (pile : List Card) → count_oros pile ≡ oros_of ranks pile
unfolding count_oros oros_of count
count_oros-oros_of [] = refl
count_oros-oros_of (c ∷ pile) = elim (Bool-cases (same_suit (suit_of c) oro)) [
  | inl e ↦ rw (e, oros_of-cons ranks c pile, one_oro c, e) (omega (arith, count_oros-oros_of pile))
  | inr e ↦ rw (e, oros_of-cons ranks c pile, one_oro c, e) (omega (arith, count_oros-oros_of pile))
]

-- No card is in the two piles twice.
abbrev pub Once : List Card → List Card → Type 0
Once xs ys = (c : Card) → count c xs + count c ys ≤ 1

oros_of-le :
    (rs : List Rank) (xs ys : List Card) → Once xs ys → oros_of rs xs + oros_of rs ys ≤ length rs
unfolding oros_of
oros_of-le [] xs ys once = omega arith
oros_of-le (r ∷ rs) xs ys once = omega (arith, once (card r oro), oros_of-le rs xs ys once)

oros_le_ten : (xs ys : List Card) → Once xs ys → count_oros xs + count_oros ys ≤ 10
oros_le_ten xs ys once =
    omega (arith, count_oros-oros_of xs, count_oros-oros_of ys, oros_of-le ranks xs ys once)

one_siete : (c : Card) → is_siete_de_oro c ≡ same_card c (card r7 oro)
unfolding same_card card_id
one_siete (card r1 espada) = refl
one_siete (card _ espada) = refl
one_siete (card r1 basto) = refl
one_siete (card _ basto) = refl
one_siete (card r1 oro) = refl
one_siete (card _ oro) = refl
one_siete (card r1 copa) = refl
one_siete (card _ copa) = refl

siete-among : (pile : List Card) → any is_siete_de_oro pile ≡ among pile (card r7 oro)
siete-among [] = refl
siete-among (c ∷ pile) = rw (one_siete c, siete-among pile) refl

siete-Once :
    (xs ys : List Card)
    → Once xs ys
    → any is_siete_de_oro xs ≡ true
    → any is_siete_de_oro ys ≡ false
siete-Once xs ys once h = elim (Bool-cases (any is_siete_de_oro ys)) [
  | inr e ↦ e
  | inl e ↦
      let x = count-pos (card r7 oro) xs (sym (siete-among xs) ∙ h) in
      let y = count-pos (card r7 oro) ys (sym (siete-among ys) ∙ e) in
      ground (arith, once (card r7 oro))
]

winner_first : (a b : String) → winner_of (put a 1 (zeros a b)) a b ≡ some a
unfolding winner_of
winner_first a b = rw (same_id_refl a) refl

winner_second : (a b : String) → a ≢ b → winner_of (put b 1 (zeros a b)) a b ≡ some b
unfolding winner_of
winner_second a b ne = rw (same_id_ne b a (λ e. ne (sym e)), same_id_refl a, same_id_refl b) refl

winner_nobody : (a b : String) → a ≢ b → winner_of (zeros a b) a b ≡ none
unfolding winner_of
winner_nobody a b ne = rw (same_id_ne b a (λ e. ne (sym e)), same_id_refl a, same_id_refl b) refl

-- A score that a first test gives to one team, and else a second test to the other.
abbrev by_tests : Bool → Bool → String → String → ByTeam ℕ
by_tests first second a b =
    if first then put a 1 (zeros a b) else (if second then put b 1 (zeros a b) else zeros a b)

by_tests-swap :
    (p q : Bool) (a b : String)
    → a ≢ b
    → (p ≡ true → q ≡ false)
    → winner_of (by_tests p q a b) a b ≡ winner_of (by_tests q p b a) b a
by_tests-swap true true a b ne h = cc (h refl)
by_tests-swap true false a b ne h = winner_first a b ∙ sym (winner_second b a (λ e. ne (sym e)))
by_tests-swap false true a b ne h = winner_second a b ne ∙ sym (winner_first b a)
by_tests-swap false false a b ne h =
    winner_nobody a b ne ∙ sym (winner_nobody b a (λ e. ne (sym e)))

both_rank :
    (x y : ℕ) (a b : String)
    → compare_setenta (some x) (some y) a b ≡ by_tests (ltb y x) (ltb x y) a b
unfolding compare_setenta
both_rank x y a b = elim (Bool-cases (x == y)) [
  | inl e ↦
      let f : ltb y x ≡ false = ground arith in
      let g : ltb x y ≡ false = ground arith in rw (e, f, g) refl
  | inr e ↦ elim (Bool-cases (ltb y x)) [
    | inl f ↦ rw (e, f) refl
    | inr f ↦ let g : ltb x y ≡ true = ground arith in rw (e, f, g) refl
  ]
]

compare_setenta-swap :
    (x y : Option ℕ) (a b : String)
    → a ≢ b
    → winner_of (compare_setenta x y a b) a b ≡ winner_of (compare_setenta y x b a) b a
unfolding compare_setenta
compare_setenta-swap none none a b ne = by_tests-swap false false a b ne (λ e. cc)
compare_setenta-swap none (some y) a b ne = by_tests-swap false true a b ne (λ e. cc)
compare_setenta-swap (some x) none a b ne = by_tests-swap true false a b ne (λ e. refl)
compare_setenta-swap (some x) (some y) a b ne =
    ap (λ z. winner_of z a b) (both_rank x y a b)
    ∙ by_tests-swap (ltb y x) (ltb x y) a b ne (λ e. ground arith)
    ∙ ap (λ z. winner_of z b a) (sym (both_rank y x b a))

-- Naming the two teams in the other order names the same winner of every category: the source asks
-- first for the one team and only otherwise for the other, which makes no difference as long as no
-- card is in the piles twice and the teams differ.
pub breakdown_of-swap :
    (xs ys : List Card) (escobas : ByTeam ℕ) (a b : String)
    → a ≢ b
    → Once xs ys
    → ((breakdown_of xs ys escobas a b).cartas ≡ (breakdown_of ys xs escobas b a).cartas)
      × ((breakdown_of xs ys escobas a b).oros ≡ (breakdown_of ys xs escobas b a).oros)
      × ((breakdown_of xs ys escobas a b).setenta ≡ (breakdown_of ys xs escobas b a).setenta)
      × ((breakdown_of xs ys escobas a b).siete_de_oro
          ≡ (breakdown_of ys xs escobas b a).siete_de_oro)
unfolding breakdown_of score_by_greater score_oros score_siete_de_oro score_setenta
breakdown_of-swap xs ys escobas a b ne once =
    let tens = oros_le_ten xs ys once in
    (
      by_tests-swap (ltb (length ys) (length xs)) (ltb (length xs) (length ys)) a b ne
          (λ e. ground arith),
      by_tests-swap (leb 6 (count_oros xs)) (leb 6 (count_oros ys)) a b ne (λ e. ground arith),
      compare_setenta-swap (setenta_value xs) (setenta_value ys) a b ne,
      by_tests-swap (any is_siete_de_oro xs) (any is_siete_de_oro ys) a b ne
          (siete-Once xs ys once),
    )
