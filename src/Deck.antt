-- ===== src/Deck.antt =====
-- The Spanish deck, which the engines of Escoba and of Truco declare alike:
-- packages/games/escoba-engine/src/card.ts and deck.ts, packages/games/truco-engine/src/card.ts and
-- deck.ts. A rank is a constructor named after its number.
pub mod Count
use Prim.Native.String.{◌++◌ as text_append}
use convite.Prelude.{
  ℕ, ◌+◌, ◌≡◌, refl, sym, ap, ◌∙◌, ◌↔◌, Bool, true, false, String, List, [], ◌∷◌, ◌++◌, map, Option,
  none, some, arith, any, find, same_id, same_id_iff, if◌then◌else◌, length,
}
use mathlib.Core.Option.{some-injective}

pub data Suit : Type 0 where
  espada basto oro copa : Suit

abbrev pub same_suit : Suit → Suit → Bool
same_suit espada espada = true
same_suit basto basto = true
same_suit oro oro = true
same_suit copa copa = true
same_suit _ _ = false

abbrev pub suits : List Suit
suits = espada ∷ basto ∷ oro ∷ copa ∷ []

pub data Rank : Type 0 where
  r1 r2 r3 r4 r5 r6 r7 r10 r11 r12 : Rank

abbrev pub ranks : List Rank
ranks = r1 ∷ r2 ∷ r3 ∷ r4 ∷ r5 ∷ r6 ∷ r7 ∷ r10 ∷ r11 ∷ r12 ∷ []

pub data Card : Type 0 where
  card : Rank → Suit → Card

abbrev pub suit_of : Card → Suit
suit_of (card r s) = s

abbrev pub rank_of : Card → Rank
rank_of (card r s) = r

abbrev suit_text : Suit → String
suit_text espada = "espada"
suit_text basto = "basto"
suit_text oro = "oro"
suit_text copa = "copa"

abbrev rank_text : Rank → String
rank_text r1 = "1"
rank_text r2 = "2"
rank_text r3 = "3"
rank_text r4 = "4"
rank_text r5 = "5"
rank_text r6 = "6"
rank_text r7 = "7"
rank_text r10 = "10"
rank_text r11 = "11"
rank_text r12 = "12"

-- `${card.rank}-${card.suit}`
unfoldable pub card_id : Card → String
card_id (card r s) = text_append (rank_text r) (text_append "-" (suit_text s))

abbrev cards_of_suit : List Rank → Suit → List Card
cards_of_suit [] s = []
cards_of_suit (r ∷ rs) s = card r s ∷ cards_of_suit rs s

abbrev cards_of : List Suit → List Card
cards_of [] = []
cards_of (s ∷ ss) = cards_of_suit ranks s ++ cards_of ss

-- Suit outer, rank inner.
unfoldable pub build_deck : List Card
build_deck = cards_of suits

-- `cardId(a) === cardId(b)`
unfoldable pub same_card : Card → Card → Bool
same_card a b = same_id (card_id a) (card_id b)

-- The card of an identifier, found by looking through the deck.
card_of_id : String → Option Card
card_of_id id = find (λ c. same_id (card_id c) id) build_deck

card_of_id-card_id : (c : Card) → card_of_id (card_id c) ≡ some c
unfolding card_of_id card_id build_deck
card_of_id-card_id (card r1 espada) = refl
card_of_id-card_id (card _ espada) = refl
card_of_id-card_id (card r1 basto) = refl
card_of_id-card_id (card _ basto) = refl
card_of_id-card_id (card r1 oro) = refl
card_of_id-card_id (card _ oro) = refl
card_of_id-card_id (card r1 copa) = refl
card_of_id-card_id (card _ copa) = refl

-- An identifier names one card: comparing identifiers is comparing cards.
pub same_card_iff : (a b : Card) → (same_card a b ≡ true) ↔ (a ≡ b)
unfolding same_card
same_card_iff a b = (
  λ h.
      let e : card_id a ≡ card_id b = (same_id_iff (card_id a) (card_id b)).0 h in
      some-injective a b (sym (card_of_id-card_id a) ∙ ap card_of_id e ∙ card_of_id-card_id b),
  λ e. (same_id_iff (card_id a) (card_id b)).1 (ap card_id e),
)
