-- ===== src/Deck/Count.antt =====
-- How often a card stands in a pile of cards: the measure of conservation.
use convite.Prelude.{
  ℕ, ◌+◌, ◌<◌, ◌≡◌, refl, sym, ◌∙◌, Bool, true, false, not, List, [], ◌∷◌, ◌++◌, arith, any, filter,
  if◌then◌else◌, Bool-cases, inl, inr,
}
use convite.Deck.{Card, same_card, same_card_iff}

unfoldable pub count : Card → List Card → ℕ
count c [] = 0
count c (x ∷ xs) = (if same_card x c then 1 else 0) + count c xs

pub count-append : (c : Card) (xs ys : List Card) → count c (xs ++ ys) ≡ count c xs + count c ys
unfolding count
count-append c [] ys = omega arith
count-append c (x ∷ xs) ys = omega (arith, count-append c xs ys)

pub same_card_refl : (c : Card) → same_card c c ≡ true
same_card_refl c = (same_card_iff c c).1 refl

pub same_card_comm : (a b : Card) → same_card a b ≡ same_card b a
same_card_comm a b = elim (Bool-cases (same_card a b)) [
  | inl e ↦ e ∙ sym ((same_card_iff b a).1 (sym ((same_card_iff a b).0 e)))
  | inr e ↦ elim (Bool-cases (same_card b a)) [
    | inl f ↦ cc ((same_card_iff a b).1 (sym ((same_card_iff b a).0 f)))
    | inr f ↦ e ∙ sym f
  ]
]

-- `cards.filter((c) => cardId(c) !== cardId(card))`
abbrev pub without : Card → List Card → List Card
without c = filter (λ x. not (same_card x c))

-- Without a card: none of it is left, and every other card is.
pub count-without :
    (c d : Card) (xs : List Card)
    → count d (without c xs) ≡ (if same_card c d then 0 else count d xs)
unfolding count
count-without c d [] = ground arith
count-without c d (x ∷ xs) = elim (Bool-cases (same_card x c)) [
  | inl e ↦ rw (e, (same_card_iff x c).0 e, count-without c d xs) (ground arith)
  | inr e ↦ elim (Bool-cases (same_card c d)) [
    | inl f ↦
        let g : same_card x d ≡ false = rw (← (same_card_iff c d).0 f) e in
        rw (e, g, count-without c d xs, f)
    | inr f ↦ rw (e, count-without c d xs, f)
  ]
]

-- `ids.has(cardId(c))` for the identifiers of `cs`
abbrev pub among : List Card → Card → Bool
among cs c = any (λ x. same_card x c) cs

pub count-pos : (c : Card) (xs : List Card) → among xs c ≡ true → 0 < count c xs
unfolding count
count-pos c [] h = cc
count-pos c (x ∷ xs) h = elim (Bool-cases (same_card x c)) [
  | inl e ↦ rw e (omega arith)
  | inr e ↦ rw e (omega (arith, count-pos c xs (rw e at h)))
]

pub count-zero : (c : Card) (xs : List Card) → among xs c ≡ false → count c xs ≡ 0
unfolding count
count-zero c [] h = refl
count-zero c (x ∷ xs) h = elim (Bool-cases (same_card x c)) [
  | inl e ↦ cc (rw e at h)
  | inr e ↦ rw e (omega (arith, count-zero c xs (rw e at h)))
]

-- Without all of some cards.
abbrev pub without_all : List Card → List Card → List Card
without_all cs = filter (λ x. not (among cs x))

pub count-without_all :
    (cs : List Card) (d : Card) (xs : List Card)
    → count d (without_all cs xs) ≡ (if among cs d then 0 else count d xs)
unfolding count
count-without_all cs d [] = ground arith
count-without_all cs d (x ∷ xs) = elim (Bool-cases (same_card x d)) [
  | inl e ↦
      rw ((same_card_iff x d).0 e, same_card_refl d)
        (elim (Bool-cases (among cs d)) [
          | inl f ↦ rw (f, count-without_all cs d xs, f)
          | inr f ↦ rw (f, same_card_refl d, count-without_all cs d xs, f)
        ])
  | inr e ↦ elim (Bool-cases (among cs x)) [
    | inl f ↦ rw (f, e, count-without_all cs d xs) (ground arith)
    | inr f ↦ rw (f, e, count-without_all cs d xs) (ground arith)
  ]
]
