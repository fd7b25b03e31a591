-- ===== src/Mahjong/Turtle.antt =====
-- About generateDeal of deal.ts on the turtle of layout.ts and the wall of wall.ts.
use convite.Prelude.{
  ℕ, zero, suc, ◌+◌, ◌-◌, ◌≡◌, refl, sym, ap, ◌∙◌, inl, inr, Bool, true, false, Bool-cases,
  Option-cases, String, List, [], ◌∷◌, Option, none, some, every, length, length-set, set,
  get_elem?, arith, All, same_id, same_id_iff,
}
use convite.Mahjong.Tile.{
  Tile, all_tiles, faces, bonus_tiles, tile_id, match_key, match_key_by_tile_id,
}
use convite.Mahjong.Layout.{layout}
use convite.Mahjong.Deal.{
  GeneratedDeal, count_key, count_keys, keys_of_counts, pair_keys, ids_by_match_key, exchange,
  shuffle_from, generate_deal,
}
use convite.Mahjong.Dealt.{IsFit, no_pools, pools_of-IsFit}
use convite.Mahjong.Winning.{IsWinnable, deal_pairs-IsWinnable}

has_key : Option String → String → Bool
has_key none key = false
has_key (some other) key = same_id other key

has_key-same : (o : Option String) (key : String) → has_key o key ≡ true → o ≡ some key
unfolding has_key
has_key-same none key e = cc
has_key-same (some other) key e = ap some ((same_id_iff other key).0 e)

every_keyed :
    every
      (λ (tile : Tile). has_key (match_key_by_tile_id (tile_id tile)) (match_key tile))
      all_tiles
    ≡ true
unfolding has_key all_tiles faces bonus_tiles tile_id match_key match_key_by_tile_id
every_keyed = refl

keyed_everywhere :
    (tiles : List Tile)
    → every (λ (tile : Tile). has_key (match_key_by_tile_id (tile_id tile)) (match_key tile)) tiles
      ≡ true
    → All (λ tile. match_key_by_tile_id (tile_id tile) ≡ some (match_key tile)) tiles
keyed_everywhere [] e = tt
keyed_everywhere (tile ∷ tiles) e =
    elim (Bool-cases (has_key (match_key_by_tile_id (tile_id tile)) (match_key tile))) [
      | inl f ↦ (
        has_key-same (match_key_by_tile_id (tile_id tile)) (match_key tile) f,
        keyed_everywhere tiles (rw f at e),
      )
      | inr f ↦ cc (rw f at e)
    ]

ids_by_match_key-IsFit : IsFit ids_by_match_key
unfolding ids_by_match_key
ids_by_match_key-IsFit =
    pools_of-IsFit all_tiles [] no_pools (keyed_everywhere all_tiles every_keyed)

count_of : Option (List String) → ℕ
count_of none = 0
count_of (some keys) = length keys

seventy_two_pairs : count_of pair_keys ≡ 72
unfolding count_of pair_keys keys_of_counts count_keys count_key all_tiles faces bonus_tiles tile_id
    match_key
seventy_two_pairs = refl

length-layout : length layout ≡ 144
unfolding layout
length-layout = refl

length-exchange :
    (keys : List String) (i j : ℕ) (x y : Option String)
    → length (exchange keys i j x y) ≡ length keys
length-exchange keys i j (some x) (some y) = length-set (set keys i y) j x ∙ length-set keys i y
length-exchange keys i j none y = refl
length-exchange keys i j (some x) none = refl

length-shuffle_from :
    (draw : ℕ → ℕ → ℕ) (i number : ℕ) (keys : List String)
    → length (shuffle_from layout draw i number keys) ≡ length keys
unfolding shuffle_from
length-shuffle_from draw zero number keys = refl
length-shuffle_from draw (suc i) number keys =
    let j = draw number (suc i + 1) in
    length-shuffle_from draw i (suc number)
      (exchange keys (suc i) j (get_elem? keys (suc i)) (get_elem? keys j))
    ∙ length-exchange keys (suc i) j (get_elem? keys (suc i)) (get_elem? keys j)

-- Every deal of the turtle that generateDeal completes, whatever is drawn, is accepted as the board of a
-- new match, its solution is accepted pair by pair in that order, and the player wins with the last pair.
pub generate_deal-IsWinnable :
    (draw : ℕ → ℕ → ℕ) (deal : GeneratedDeal) (player_id : String)
    → generate_deal layout draw ≡ some deal
    → IsWinnable layout player_id deal
unfolding generate_deal count_of
generate_deal-IsWinnable draw deal player_id e = elim (Option-cases pair_keys) [
  | inl f ↦ cc (rw (generate_deal, f) at e)
  | inr (keys, f) ↦
      let pairs : length keys ≡ 72 = ap count_of (sym f) ∙ seventy_two_pairs in
      let shuffled = shuffle_from layout draw (length keys - 1) 0 keys in
      let size : length shuffled ≡ 72 = length-shuffle_from draw (length keys - 1) 0 keys ∙ pairs in
      deal_pairs-IsWinnable layout draw shuffled ids_by_match_key (length keys - 1) deal player_id
        (rw (generate_deal, f) at e) ids_by_match_key-IsFit (length-layout ∙ omega (arith, size))
]
