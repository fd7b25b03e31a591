-- ===== src/Truco/Tantos.antt =====
-- calculateEnvidoPoints of envido-chain.ts: what the cards of a player are worth in an envido.
use convite.Prelude.{ℕ, ◌+◌, leb, ltb, max, List, [], ◌∷◌, ◌++◌, Option, none, some, if◌then◌else◌}
use convite.Deck.{
  Card, Rank, r1, r2, r3, r4, r5, r6, r7, r10, r11, r12, Suit, suit_of, rank_of, same_suit,
}

abbrev pub envido_rank_value : Rank → ℕ
envido_rank_value r1 = 1
envido_rank_value r2 = 2
envido_rank_value r3 = 3
envido_rank_value r4 = 4
envido_rank_value r5 = 5
envido_rank_value r6 = 6
envido_rank_value r7 = 7
envido_rank_value r10 = 0
envido_rank_value r11 = 0
envido_rank_value r12 = 0

pub record SuitValues : Type 0 where
  pub suit : Suit
  pub ranks : List ℕ

-- The map from suits to the values of their cards, as the list of its entries.
unfoldable pub add_value : Suit → ℕ → List SuitValues → List SuitValues
add_value suit value [] = record { suit = suit; ranks = value ∷ [] } ∷ []
add_value suit value (entry ∷ entries) =
    let rest = add_value suit value entries in
    if same_suit entry.suit suit
    then record entry { ranks = entry.ranks ++ value ∷ [] } ∷ entries
    else entry ∷ rest

unfoldable pub by_suit : List Card → List SuitValues → List SuitValues
by_suit [] entries = entries
by_suit (c ∷ cards) entries =
    by_suit cards (add_value (suit_of c) (envido_rank_value (rank_of c)) entries)

-- `sort((a, b) => b - a)`
unfoldable pub insert_down : ℕ → List ℕ → List ℕ
insert_down n [] = n ∷ []
insert_down n (m ∷ ms) = let rest = insert_down n ms in if leb m n then n ∷ m ∷ ms else m ∷ rest

unfoldable pub sort_down : List ℕ → List ℕ
sort_down [] = []
sort_down (n ∷ ns) = insert_down n (sort_down ns)

-- The two highest values and twenty, where there are two.
abbrev pub top_two : List ℕ → ℕ
top_two [] = 0
top_two (n ∷ []) = 0
top_two (n ∷ m ∷ ns) = 20 + n + m

unfoldable pub best_pair : List SuitValues → ℕ
best_pair [] = 0
best_pair (entry ∷ entries) = max (top_two (sort_down entry.ranks)) (best_pair entries)

abbrev pub larger : ℕ → Option ℕ → ℕ
larger n none = n
larger n (some m) = max n m

-- `Math.max(...)` over the single cards: -Infinity, and none here, where there is no card.
unfoldable pub best_single : List Card → Option ℕ
best_single [] = none
best_single (c ∷ cards) = some (larger (envido_rank_value (rank_of c)) (best_single cards))

unfoldable pub calculate_envido_points : List Card → Option ℕ
calculate_envido_points cards =
    if ltb 0 (best_pair (by_suit cards []))
    then some (best_pair (by_suit cards []))
    else best_single cards
