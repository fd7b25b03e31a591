-- ===== src/Escoba/Best.antt =====
-- About setenta.ts: the best card of each suit, read off a pile directly.
use convite.Prelude.{
  ℕ, ◌+◌, ◌≤◌, ◌≡◌, ◌↔◌, refl, sym, inl, inr, Bool, true, false, List, [], ◌∷◌, max, none, some,
  every, length, arith, Bool-cases, ltb, ltb→lt, any, if◌then◌else◌, subst,
}
use native.Mathlib.Nat.{zero-add}
use convite.Deck.{same_suit, Card, card, Suit, oro}
use convite.Escoba.Setenta.{
  set_best, best_cards_from, suit_best_cards, setenta_rank, setenta_value, setenta_of,
}
use convite.Deck.{suit_of, rank_of, suits, espada, basto, copa}

abbrev value_of : Card → ℕ
value_of c = setenta_of (rank_of c)

-- The greatest value of a suit among the cards, 0 where the suit is missing.
pub best_in : Suit → List Card → ℕ
best_in s [] = 0
best_in s (c ∷ cards) = max (if same_suit (suit_of c) s then value_of c else 0) (best_in s cards)

pub has_suit : Suit → List Card → Bool
has_suit s cards = any (λ c. same_suit (suit_of c) s) cards

-- How many cards of a suit are in a list, and what they are worth together.
held : Suit → List Card → ℕ
held s [] = 0
held s (c ∷ cards) = (if same_suit (suit_of c) s then 1 else 0) + held s cards

worth : Suit → List Card → ℕ
worth s [] = 0
worth s (c ∷ cards) = (if same_suit (suit_of c) s then value_of c else 0) + worth s cards

same_suit_iff : (s t : Suit) → (same_suit s t ≡ true) ↔ (s ≡ t)
same_suit_iff espada espada = (λ e. refl, λ e. refl)
same_suit_iff espada basto = (λ e. cc, λ e. cc)
same_suit_iff espada oro = (λ e. cc, λ e. cc)
same_suit_iff espada copa = (λ e. cc, λ e. cc)
same_suit_iff basto espada = (λ e. cc, λ e. cc)
same_suit_iff basto basto = (λ e. refl, λ e. refl)
same_suit_iff basto oro = (λ e. cc, λ e. cc)
same_suit_iff basto copa = (λ e. cc, λ e. cc)
same_suit_iff oro espada = (λ e. cc, λ e. cc)
same_suit_iff oro basto = (λ e. cc, λ e. cc)
same_suit_iff oro oro = (λ e. refl, λ e. refl)
same_suit_iff oro copa = (λ e. cc, λ e. cc)
same_suit_iff copa espada = (λ e. cc, λ e. cc)
same_suit_iff copa basto = (λ e. cc, λ e. cc)
same_suit_iff copa oro = (λ e. cc, λ e. cc)
same_suit_iff copa copa = (λ e. refl, λ e. refl)

held-worth : (s : Suit) (best : List Card) → held s best ≡ 0 → worth s best ≡ 0
unfolding held worth
held-worth s [] e = refl
held-worth s (x ∷ best) e = elim (Bool-cases (same_suit (suit_of x) s)) [
  | inl f ↦ omega (arith, rw f at e)
  | inr f ↦ rw (f, zero-add) (held-worth s best (omega (arith, rw f at e)))
]

-- A card of another suit changes neither.
other_suit :
    (s : Suit) (c : Card) (best : List Card)
    → same_suit (suit_of c) s ≡ false
    → (held s (set_best c best) ≡ held s best) × (worth s (set_best c best) ≡ worth s best)
unfolding set_best held worth
other_suit s c [] h = rw h (refl, refl)
other_suit s c (x ∷ best) h =
    let (a, b) = other_suit s c best h in
    elim (Bool-cases (same_suit (suit_of x) (suit_of c))) [
      | inl e ↦
          let f : same_suit (suit_of x) s ≡ false =
            subst (λ t. same_suit t s ≡ false) (sym ((same_suit_iff (suit_of x) (suit_of c)).0 e))
              h in
          elim (Bool-cases (ltb (value_of x) (value_of c))) [
            | inl g ↦ rw (e, g, h, f) (refl, refl)
            | inr g ↦ rw (e, g) (refl, refl)
          ]
      | inr e ↦ rw (e, a, b) (refl, refl)
    ]

-- A card of the suit leaves one card of it, the better one.
own_suit :
    (c : Card) (best : List Card)
    → held (suit_of c) best ≤ 1
    → (held (suit_of c) (set_best c best) ≡ 1)
      × (worth (suit_of c) (set_best c best) ≡ max (value_of c) (worth (suit_of c) best))
unfolding set_best held worth
own_suit c [] h = rw ((same_suit_iff (suit_of c) (suit_of c)).1 refl) (refl, omega arith)
own_suit c (x ∷ best) h =
    let self = (same_suit_iff (suit_of c) (suit_of c)).1 refl in
    elim (Bool-cases (same_suit (suit_of x) (suit_of c))) [
      | inl e ↦
          let none_left : held (suit_of c) best ≡ 0 = omega (arith, rw e at h) in
          let no_worth = held-worth (suit_of c) best none_left in
          elim (Bool-cases (ltb (value_of x) (value_of c))) [
            | inl g ↦ rw (e, g, self, none_left, no_worth) (refl, omega (arith, ltb→lt _ _ g))
            | inr g ↦ rw (e, g, e, none_left, no_worth) (refl, ground arith)
          ]
      | inr e ↦
          let (a, b) = own_suit c best (omega (arith, rw e at h)) in
          rw (e, e, a, b) (refl, omega arith)
    ]

from-best :
    (s : Suit) (cards best : List Card)
    → held s best ≤ 1
    → (held s (best_cards_from best cards) ≡ (if has_suit s cards then 1 else held s best))
      × (worth s (best_cards_from best cards) ≡ max (best_in s cards) (worth s best))
unfolding best_cards_from has_suit best_in
from-best s [] best h = (refl, omega arith)
from-best s (c ∷ cards) best h = elim (Bool-cases (same_suit (suit_of c) s)) [
  | inl e ↦
      let same = (same_suit_iff (suit_of c) s).0 e in
      let (a, b) =
        subst
          (λ t.
            (held t (set_best c best) ≡ 1)
            × (worth t (set_best c best) ≡ max (value_of c) (worth t best)))
          same (own_suit c best (subst (λ t. held t best ≤ 1) (sym same) h)) in
      let (x, y) = from-best s cards (set_best c best) (omega arith) in
      (rw (e, x, a) (ground arith), rw (e, y, b) (omega arith))
  | inr e ↦
      let (a, b) = other_suit s c best e in
      let (x, y) = from-best s cards (set_best c best) (omega arith) in
      (rw (e, x, a) refl, rw (e, y, b) (omega arith))
]

length-held :
    (cards : List Card)
    → (length cards ≡ held espada cards + held basto cards + held oro cards + held copa cards)
      × (setenta_rank cards
          ≡ worth espada cards + worth basto cards + worth oro cards + worth copa cards)
unfolding held worth setenta_rank
length-held [] = (refl, refl)
length-held (card r espada ∷ cards) = let (a, b) = length-held cards in (omega arith, omega arith)
length-held (card r basto ∷ cards) = let (a, b) = length-held cards in (omega arith, omega arith)
length-held (card r oro ∷ cards) = let (a, b) = length-held cards in (omega arith, omega arith)
length-held (card r copa ∷ cards) = let (a, b) = length-held cards in (omega arith, omega arith)

-- A pile has a setenta exactly if it holds a card of each of the four suits, and then the setenta is
-- the sum of the greatest value in each suit, whatever the order of the cards.
pub setenta_value-best_in :
    (cards : List Card)
    → setenta_value cards ≡ (
        if every (λ s. has_suit s cards) suits
        then some
            (best_in espada cards + best_in basto cards + best_in oro cards + best_in copa cards)
        else none)
unfolding setenta_value suit_best_cards held worth
setenta_value-best_in cards =
    let best = best_cards_from [] cards in
    let (n, r) = length-held best in
    let (e1, w1) = from-best espada cards [] (omega arith) in
    let (e2, w2) = from-best basto cards [] (omega arith) in
    let (e3, w3) = from-best oro cards [] (omega arith) in
    let (e4, w4) = from-best copa cards [] (omega arith) in
    let total : setenta_rank best
        ≡ best_in espada cards + best_in basto cards + best_in oro cards + best_in copa cards =
      omega arith in
    rw (n, total, e1, e2, e3, e4) (ground arith)
