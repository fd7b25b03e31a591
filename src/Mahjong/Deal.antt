-- ===== src/Mahjong/Deal.antt =====
-- wall.ts and deal.ts of mahjong-solitaire-module. A random source is a function from the number of the
-- draw and a size to `Math.floor(rng() * size)`; a result of none is an exception.
use convite.Prelude.{
  ℕ, zero, suc, ◌+◌, ◌-◌, ◌/◌, ◌%◌, ◌==◌, leb, ltb, max, not, String, List, [], ◌∷◌, ◌++◌, map,
  Option, none, some, if◌then◌else◌, find, filter, length, get_elem?, same_id, set,
}
use convite.Mahjong.Tile.{Tile, tile_id, match_key, all_tiles}
use convite.Mahjong.Layout.{Position}
use convite.Mahjong.Board.{is_free}

pub record KeyCount : Type 0 where
  pub key : String
  pub count : ℕ

pub record Pool : Type 0 where
  pub key : String
  pub ids : List String

unfoldable pub count_key : String → List KeyCount → List KeyCount
count_key key [] = record { key = key; count = 1 } ∷ []
count_key key (entry ∷ counts) =
    let rest = count_key key counts in
    if same_id entry.key key
    then record entry { count = entry.count + 1 } ∷ counts
    else entry ∷ rest

unfoldable pub count_keys : List Tile → List KeyCount → List KeyCount
count_keys [] counts = counts
count_keys (tile ∷ tiles) counts = count_keys tiles (count_key (match_key tile) counts)

abbrev pub copies : ℕ → String → List String
copies zero key = []
copies (suc n) key = key ∷ copies n key

-- A key of an odd number of tiles is an exception.
unfoldable pub keys_of_counts : List KeyCount → Option (List String)
keys_of_counts [] = some []
keys_of_counts (entry ∷ counts) = elim (keys_of_counts counts) [
  | none ↦ none
  | some keys ↦
      if entry.count % 2 == 0 then some (copies (entry.count / 2) entry.key ++ keys) else none
]

unfoldable pub pair_keys : Option (List String)
pair_keys = keys_of_counts (count_keys all_tiles [])

unfoldable pub add_id : String → String → List Pool → List Pool
add_id key id [] = record { key = key; ids = id ∷ [] } ∷ []
add_id key id (pool ∷ pools) =
    let rest = add_id key id pools in
    if same_id pool.key key then record pool { ids = pool.ids ++ id ∷ [] } ∷ pools else pool ∷ rest

unfoldable pub pools_of : List Tile → List Pool → List Pool
pools_of [] pools = pools
pools_of (tile ∷ tiles) pools = pools_of tiles (add_id (match_key tile) (tile_id tile) pools)

unfoldable pub ids_by_match_key : List Pool
ids_by_match_key = pools_of all_tiles []

pub record Popped : Type 0 where
  pub id : String
  pub ids : List String

-- `pool.pop()`
unfoldable pub pop : List String → Option Popped
pop [] = none
pop (id ∷ []) = some (record { id = id; ids = [] })
pop (id ∷ next ∷ ids) = elim (pop (next ∷ ids)) [
  | none ↦ none
  | some popped ↦ some (record { id = popped.id; ids = id ∷ popped.ids })
]

unfoldable pub put_pool : String → List String → List Pool → List Pool
put_pool key ids [] = []
put_pool key ids (pool ∷ pools) =
    let rest = put_pool key ids pools in
    if same_id pool.key key then record pool { ids = ids } ∷ pools else pool ∷ rest

pub record Faces : Type 0 where
  pub first : String
  pub second : String
  pub pools : List Pool

-- Two identifiers from the pool of a key.
unfoldable pub two_faces : String → List Pool → Option Faces
two_faces key pools = elim (find (λ pool. same_id pool.key key) pools) [
  | none ↦ none
  | some pool ↦ elim (pop pool.ids) [
    | none ↦ none
    | some one ↦ elim (pop one.ids) [
      | none ↦ none
      | some two ↦
          some (record { first = one.id; second = two.id; pools = put_pool key two.ids pools })
    ]
  ]
]

abbrev pub exchange : List String → ℕ → ℕ → Option String → Option String → List String
exchange keys i j (some x) (some y) = set (set keys i y) j x
exchange keys i j none _ = keys
exchange keys i j (some x) none = keys

pub record SolutionStep : Type 0 where
  pub a : ℕ
  pub b : ℕ

pub record GeneratedDeal : Type 0 where
  pub placements : List (Option String)
  pub solution : List SolutionStep

pub record Taken : Type 0 where
  pub first : ℕ
  pub second : ℕ

-- `a < b ? { a, b } : { a: b, b: a }`
unfoldable pub step_of : Taken → SolutionStep
step_of taken =
    if ltb taken.first taken.second
    then record { a = taken.first; b = taken.second }
    else record { a = taken.second; b = taken.first }

unfoldable pub without_both : Taken → List ℕ → List ℕ
without_both taken remaining =
    filter (λ i. not (i == taken.second)) (filter (λ i. not (i == taken.first)) remaining)

unfoldable pub place_both : Taken → Faces → List (Option String) → List (Option String)
place_both taken drawn placements =
    set (set placements taken.first (some drawn.first)) taken.second (some drawn.second)

abbrev pub add_step : SolutionStep → Option GeneratedDeal → Option GeneratedDeal
add_step step none = none
add_step step (some deal) = some (record deal { solution = step ∷ deal.solution })

module _ (layout : List Position) (draw : ℕ → ℕ → ℕ) where
  unfoldable pub shuffle_from : ℕ → ℕ → List String → List String
  shuffle_from zero number keys = keys
  shuffle_from (suc i) number keys =
      let j = draw number (suc i + 1) in
      shuffle_from i (suc number)
        (exchange keys (suc i) j (get_elem? keys (suc i)) (get_elem? keys j))

  unfoldable pub choose_free_position : List ℕ → ℕ → Option ℕ
  choose_free_position free number = get_elem? free (draw number (length free))

  abbrev pub layer_of : ℕ → ℕ
  layer_of index = elim (get_elem? layout index) [ none ↦ 0 | some tile ↦ tile.z ]

  unfoldable pub top_layer : List ℕ → ℕ
  top_layer [] = 0
  top_layer (index ∷ remaining) = max (layer_of index) (top_layer remaining)

  unfoldable pub free_anywhere : List ℕ → List ℕ
  free_anywhere remaining = filter (λ index. is_free layout index remaining) remaining

  unfoldable pub free_on_top : List ℕ → List ℕ
  free_on_top remaining =
      filter (λ index. layer_of index == top_layer remaining) (free_anywhere remaining)

  -- The positions that may leave together with the first.
  unfoldable pub partners : List ℕ → ℕ → List ℕ
  partners remaining first =
      filter (λ index. not (index == first))
        (if leb 2 (length (free_on_top remaining))
          then free_on_top remaining
          else free_anywhere remaining)

  unfoldable pub take_solvable_pair : List ℕ → ℕ → Option Taken
  take_solvable_pair remaining number = elim (choose_free_position (free_on_top remaining) number) [
    | none ↦ none
    | some first ↦ elim (choose_free_position (partners remaining first) (suc number)) [
      | none ↦ none
      | some second ↦ some (record { first = first; second = second })
    ]
  ]

  -- The loop over the keys, with the pools, the positions left, the board so far and the draws so far.
  unfoldable pub deal_pairs :
      List String → List Pool → List ℕ → List (Option String) → ℕ → Option GeneratedDeal
  deal_pairs [] pools remaining placements number =
      some (record { placements = placements; solution = [] })
  deal_pairs (key ∷ keys) pools remaining placements number =
      elim (take_solvable_pair remaining number) [
        | none ↦ none
        | some taken ↦ elim (two_faces key pools) [
          | none ↦ none
          | some drawn ↦ add_step (step_of taken) (
              deal_pairs keys drawn.pools (without_both taken remaining)
                (place_both taken drawn placements) (number + 2))
        ]
      ]

  abbrev pub holes : List Position → List (Option String)
  holes positions = map (λ position. none) positions

  abbrev pub indices_from : ℕ → List Position → List ℕ
  indices_from i [] = []
  indices_from i (position ∷ positions) = i ∷ indices_from (suc i) positions

  unfoldable pub generate_deal : Option GeneratedDeal
  generate_deal = elim pair_keys [
    | none ↦ none
    | some keys ↦
        deal_pairs (shuffle_from (length keys - 1) 0 keys) ids_by_match_key (indices_from 0 layout)
          (holes layout) (length keys - 1)
  ]
