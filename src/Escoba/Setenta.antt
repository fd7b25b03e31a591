-- ===== src/Escoba/Setenta.antt =====
-- setenta.ts: the best card of every suit, and the point for the greater sum.
use convite.Prelude.{
  ℕ, ◌+◌, ◌==◌, ltb, String, List, [], ◌∷◌, Option, none, some, if◌then◌else◌, length,
}
use convite.Deck.{
  same_suit, Card, Rank, r1, r2, r3, r4, r5, r6, r7, r10, r11, r12, suits, suit_of, rank_of,
}
use convite.Escoba.State.{ByTeam, put}

abbrev pub setenta_of : Rank → ℕ
setenta_of r7 = 21
setenta_of r6 = 18
setenta_of r1 = 16
setenta_of r5 = 15
setenta_of r4 = 14
setenta_of r3 = 13
setenta_of r2 = 12
setenta_of r10 = 10
setenta_of r11 = 10
setenta_of r12 = 10

-- `best.get(card.suit)` and `best.set(card.suit, card)`: the map is the list of its cards, whose
-- suits are its keys, in the order in which they came.
unfoldable pub set_best : Card → List Card → List Card
set_best c [] = c ∷ []
set_best c (current ∷ best) =
    let rest = set_best c best in
    if same_suit (suit_of current) (suit_of c)
    then (if ltb (setenta_of (rank_of current)) (setenta_of (rank_of c))
        then c ∷ best
        else current ∷ best)
    else current ∷ rest

unfoldable pub best_cards_from : List Card → List Card → List Card
best_cards_from best [] = best
best_cards_from best (c ∷ cards) = best_cards_from (set_best c best) cards

unfoldable pub suit_best_cards : List Card → List Card
suit_best_cards cards = best_cards_from [] cards

unfoldable pub setenta_rank : List Card → ℕ
setenta_rank [] = 0
setenta_rank (c ∷ best) = setenta_of (rank_of c) + setenta_rank best

unfoldable pub setenta_value : List Card → Option ℕ
setenta_value cards =
    if length (suit_best_cards cards) == length suits
    then some (setenta_rank (suit_best_cards cards))
    else none

abbrev pub zeros : String → String → ByTeam ℕ
zeros a b = put b 0 (put a 0 (λ _. none))

unfoldable pub compare_setenta : Option ℕ → Option ℕ → String → String → ByTeam ℕ
compare_setenta none none a b = zeros a b
compare_setenta none (some y) a b = put b 1 (zeros a b)
compare_setenta (some x) none a b = put a 1 (zeros a b)
compare_setenta (some x) (some y) a b =
    if x == y then zeros a b else put (if ltb y x then a else b) 1 (zeros a b)

unfoldable pub score_setenta : List Card → List Card → String → String → ByTeam ℕ
score_setenta pile_a pile_b a b = compare_setenta (setenta_value pile_a) (setenta_value pile_b) a b
