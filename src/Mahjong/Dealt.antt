-- ===== src/Mahjong/Dealt.antt =====
-- About generateDeal of deal.ts: what a step of it takes and what the finished board has.
use convite.Prelude.{
  ℕ, suc, ◌≡◌, ◌≢◌, sym, ◌∙◌, subst, inl, inr, ◌==◌, true, ◌&&◌, not, leb, Bool-cases, Option-cases,
  String, List, [], ◌∷◌, some, find, length, All, All-append, arith, same_id, same_id_iff,
}
use mathlib.Core.Option.{some-injective}
use convite.Mahjong.Tile.{Tile, tile_id, match_key, match_key_by_tile_id}
use convite.Mahjong.Layout.{Position}
use convite.Mahjong.Board.{is_free}
use convite.Mahjong.Deal.{
  Pool, add_id, pools_of, Popped, pop, put_pool, Faces, two_faces, Taken, choose_free_position,
  layer_of, top_layer, free_anywhere, free_on_top, partners, take_solvable_pair,
}
use convite.Mahjong.Occupied.{has, has-filter, has-get_elem?}

-- Every identifier of a pool matches the key of the pool.
pub IsFit : List Pool → Type 0
IsFit [] = Unit
IsFit (pool ∷ pools) = All (λ id. match_key_by_tile_id id ≡ some pool.key) pool.ids × IsFit pools

pub no_pools : IsFit []
unfolding IsFit
no_pools = tt

add_id-IsFit :
    (key id : String) (pools : List Pool)
    → IsFit pools
    → match_key_by_tile_id id ≡ some key
    → IsFit (add_id key id pools)
unfolding IsFit add_id
add_id-IsFit key id [] fit e = ((e, tt), tt)
add_id-IsFit key id (pool ∷ pools) fit e = elim (Bool-cases (same_id pool.key key)) [
  | inl f ↦
      let same = (same_id_iff pool.key key).0 f in
      let e' = subst (λ k. match_key_by_tile_id id ≡ some k) (sym same) e in
      rw f (
        All-append (λ x. match_key_by_tile_id x ≡ some pool.key) pool.ids (id ∷ []) fit.0 (e', tt),
        fit.1,
      )
  | inr f ↦ rw f (fit.0, add_id-IsFit key id pools fit.1 e)
]

pub pools_of-IsFit :
    (tiles : List Tile) (pools : List Pool)
    → IsFit pools
    → All (λ tile. match_key_by_tile_id (tile_id tile) ≡ some (match_key tile)) tiles
    → IsFit (pools_of tiles pools)
unfolding pools_of
pools_of-IsFit [] pools fit h = fit
pools_of-IsFit (tile ∷ tiles) pools fit h =
    pools_of-IsFit tiles (add_id (match_key tile) (tile_id tile) pools)
      (add_id-IsFit (match_key tile) (tile_id tile) pools fit h.0) h.1

All-pop :
    (P : String → Type 0) (ids : List String) (popped : Popped)
    → All P ids
    → pop ids ≡ some popped
    → P popped.id × All P popped.ids
unfolding pop
All-pop P [] popped h e = cc
All-pop P (id ∷ []) popped h e =
    subst (λ x. P x.id × All P x.ids) (some-injective _ popped e) (h.0, tt)
All-pop P (id ∷ next ∷ ids) popped h e = elim (Option-cases (pop (next ∷ ids))) [
  | inl f ↦ cc (rw f at e)
  | inr (r, f) ↦
      let (one, rest) = All-pop P (next ∷ ids) r h.1 f in
      subst (λ x. P x.id × All P x.ids) (some-injective _ popped (rw f at e)) (one, (h.0, rest))
]

find-IsFit :
    (key : String) (pools : List Pool) (pool : Pool)
    → IsFit pools
    → find (λ x. same_id x.key key) pools ≡ some pool
    → All (λ id. match_key_by_tile_id id ≡ some key) pool.ids
unfolding IsFit
find-IsFit key [] pool fit e = cc
find-IsFit key (x ∷ pools) pool fit e = elim (Bool-cases (same_id x.key key)) [
  | inl f ↦
      let same = (same_id_iff x.key key).0 f in
      let here = subst (λ k. All (λ id. match_key_by_tile_id id ≡ some k) x.ids) same fit.0 in
      subst (λ y. All (λ id. match_key_by_tile_id id ≡ some key) y.ids)
        (some-injective x pool (rw f at e)) here
  | inr f ↦ find-IsFit key pools pool fit.1 (rw f at e)
]

put_pool-IsFit :
    (key : String) (ids : List String) (pools : List Pool)
    → IsFit pools
    → All (λ id. match_key_by_tile_id id ≡ some key) ids
    → IsFit (put_pool key ids pools)
unfolding IsFit put_pool
put_pool-IsFit key ids [] fit h = tt
put_pool-IsFit key ids (x ∷ pools) fit h = elim (Bool-cases (same_id x.key key)) [
  | inl f ↦
      let same = (same_id_iff x.key key).0 f in
      rw f (subst (λ k. All (λ id. match_key_by_tile_id id ≡ some k) ids) (sym same) h, fit.1)
  | inr f ↦ rw f (fit.0, put_pool-IsFit key ids pools fit.1 h)
]

pub two_faces-IsFit :
    (key : String) (pools : List Pool) (drawn : Faces)
    → IsFit pools
    → two_faces key pools ≡ some drawn
    → (match_key_by_tile_id drawn.first ≡ some key)
      × (match_key_by_tile_id drawn.second ≡ some key)
      × IsFit drawn.pools
unfolding two_faces
two_faces-IsFit key pools drawn fit e =
    elim (Option-cases (find (λ pool. same_id pool.key key) pools)) [
      | inl f ↦ cc (rw (two_faces, f) at e)
      | inr (pool, f) ↦ elim (Option-cases (pop pool.ids)) [
        | inl g ↦ cc (rw (two_faces, f, g) at e)
        | inr (one, g) ↦ elim (Option-cases (pop one.ids)) [
          | inl h ↦ cc (rw (two_faces, f, g, h) at e)
          | inr (two, h) ↦
              let (first, rest) =
                All-pop (λ id. match_key_by_tile_id id ≡ some key) pool.ids one
                  (find-IsFit key pools pool fit f) g in
              let (second, left) =
                All-pop (λ id. match_key_by_tile_id id ≡ some key) one.ids two rest h in
              subst
                (λ x.
                  (match_key_by_tile_id x.first ≡ some key)
                  × (match_key_by_tile_id x.second ≡ some key)
                  × IsFit x.pools)
                (some-injective _ drawn (rw (two_faces, f, g, h) at e))
                (first, second, put_pool-IsFit key two.ids pools fit left)
        ]
      ]
    ]

-- Two positions that are there, free, and not the same.
pub record IsTakable (layout : List Position) (remaining : List ℕ) (taken : Taken) : Type 0 where
  pub has_first : has taken.first remaining ≡ true
  pub has_second : has taken.second remaining ≡ true
  pub first_free : is_free layout taken.first remaining ≡ true
  pub second_free : is_free layout taken.second remaining ≡ true
  pub apart : taken.first ≢ taken.second

module _ (layout : List Position) (draw : ℕ → ℕ → ℕ) where
  free_has :
      (remaining : List ℕ) (i : ℕ)
      → has i (free_anywhere layout draw remaining) ≡ true
      → (has i remaining ≡ true) × (is_free layout i remaining ≡ true)
  unfolding free_anywhere
  free_has remaining i e =
      let f = has-filter (λ index. is_free layout index remaining) i remaining in
      let g : (has i remaining && is_free layout i remaining) ≡ true = sym f ∙ e in
      ground (arith, g)

  top_has :
      (remaining : List ℕ) (i : ℕ)
      → has i (free_on_top layout draw remaining) ≡ true
      → has i (free_anywhere layout draw remaining) ≡ true
  unfolding free_on_top
  top_has remaining i e =
      let test = λ (index : ℕ). layer_of layout draw index == top_layer layout draw remaining in
      let f = has-filter test i (free_anywhere layout draw remaining) in
      let g : (has i (free_anywhere layout draw remaining) && test i) ≡ true = sym f ∙ e in
      ground (arith, g)

  partner_has :
      (remaining : List ℕ) (first i : ℕ)
      → has i (partners layout draw remaining first) ≡ true
      → (first ≢ i) × (has i (free_anywhere layout draw remaining) ≡ true)
  unfolding partners
  partner_has remaining first i e =
      let test = λ (index : ℕ). not (index == first) in
      elim (Bool-cases (leb 2 (length (free_on_top layout draw remaining)))) [
        | inl f ↦
            let g = has-filter test i (free_on_top layout draw remaining) in
            let e' : (has i (free_on_top layout draw remaining) && not (i == first)) ≡ true =
              sym g ∙ (rw (partners, f) at e) in
            let h : has i (free_on_top layout draw remaining) ≡ true = ground (arith, e') in
            (ground (arith, e'), top_has remaining i h)
        | inr f ↦
            let g = has-filter test i (free_anywhere layout draw remaining) in
            let e' : (has i (free_anywhere layout draw remaining) && not (i == first)) ≡ true =
              sym g ∙ (rw (partners, f) at e) in
            (ground (arith, e'), ground (arith, e'))
      ]

  pub take_solvable_pair-IsTakable :
      (remaining : List ℕ) (number : ℕ) (taken : Taken)
      → take_solvable_pair layout draw remaining number ≡ some taken
      → IsTakable layout remaining taken
  unfolding take_solvable_pair choose_free_position
  take_solvable_pair-IsTakable remaining number taken e =
      let top = free_on_top layout draw remaining in
      elim (Option-cases (choose_free_position layout draw top number)) [
        | inl f ↦ cc (rw (take_solvable_pair, f) at e)
        | inr (first, f) ↦
            let others = partners layout draw remaining first in
            elim (Option-cases (choose_free_position layout draw others (suc number))) [
              | inl g ↦ cc (rw (take_solvable_pair, f, g) at e)
              | inr (second, g) ↦
                  let one =
                    free_has remaining first
                      (top_has remaining first (has-get_elem? top (draw number (length top)) f)) in
                  let (ne, at_table) =
                    partner_has remaining first second
                      (has-get_elem? others (draw (suc number) (length others)) g) in
                  let two = free_has remaining second at_table in
                  subst (IsTakable layout remaining)
                    (some-injective _ taken (rw (take_solvable_pair, f, g) at e))
                    (record {
                      has_first = one.0;
                      has_second = two.0;
                      first_free = one.1;
                      second_free = two.1;
                      apart = ne;
                    })
            ]
      ]
