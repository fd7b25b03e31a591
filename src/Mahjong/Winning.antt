-- ===== src/Mahjong/Winning.antt =====
-- About generateDeal of deal.ts and applyAction of module.ts: the boards that the generator deals.
use convite.Prelude.{
  ℕ, zero, suc, ◌+◌, ◌*◌, ◌<◌, ◌≡◌, refl, sym, ap, ◌∙◌, subst, inl, inr, ◌==◌, ==_iff, true, false,
  Bool-cases, String, List, [], ◌∷◌, Option, none, some, length, length-map, map, get_elem?, arith,
}
use mathlib.Core.Option.{some-injective}
use convite.Mahjong.Layout.{Position}
use convite.Mahjong.Board.{occupied_from, lay_board}
use convite.Mahjong.Solitaire.{
  SolitaireMatchState, deal_board, system_actor_id, ok, outcome_of, apply_deal, apply_open,
  apply_action,
}
use convite.Mahjong.Deal.{
  Pool, GeneratedDeal, step_of, without_both, place_both, deal_pairs, indices_from, holes,
}
use convite.Mahjong.Occupied.{has, get_elem?-lt, at_occupied}
use convite.Mahjong.Dealt.{IsFit}
use convite.Mahjong.Filled.{
  taken_off, taken_off-occupied, deal_pairs-IsStep, IsStep-faces, has-without_both,
}
use convite.Mahjong.Solvable.{replay-wins, length-place_both, length-taken_off}
use convite.Mahjong.Replay.{playing, replay}

deal_pairs-length :
    (table : List Position) (draw : ℕ → ℕ → ℕ) (keys : List String) (pools : List Pool)
    (remaining : List ℕ) (placements : List (Option String)) (number : ℕ) (deal : GeneratedDeal)
    → deal_pairs table draw keys pools remaining placements number ≡ some deal
    → length deal.placements ≡ length placements
unfolding deal_pairs
deal_pairs-length table draw [] pools remaining placements number deal e =
    ap (λ d. length d.placements) (sym (some-injective _ deal e))
deal_pairs-length table draw (key ∷ keys) pools remaining placements number deal e =
    let v = deal_pairs-IsStep table draw key keys pools remaining placements number deal e in
    ap length v.board
    ∙ deal_pairs-length table draw keys v.drawn.pools (without_both v.taken remaining)
        (place_both v.taken v.drawn placements) (number + 2) v.rest v.dealt
    ∙ length-place_both v.taken v.drawn placements

-- With a key for every two positions left, every one of them is filled; `ghost` is a board with tiles at
-- these positions.
deal_pairs-filled :
    (table : List Position) (draw : ℕ → ℕ → ℕ) (keys : List String) (pools : List Pool)
    (remaining : List ℕ) (placements : List (Option String)) (number : ℕ) (deal : GeneratedDeal)
    (ghost : List (Option String)) (i : ℕ)
    → deal_pairs table draw keys pools remaining placements number ≡ some deal
    → occupied_from 0 ghost ≡ remaining
    → length remaining ≡ 2 * length keys
    → length placements ≡ length ghost
    → has i remaining ≡ true
    → (id : String) × (get_elem? deal.placements i ≡ some (some id))
unfolding deal_pairs
deal_pairs-filled table draw [] pools [] placements number deal ghost i e at_table size len h = cc
deal_pairs-filled table draw [] pools (x ∷ remaining) placements number deal ghost i e at_table size
      len h =
    absurd (omega (arith, size))
deal_pairs-filled table draw (key ∷ keys) pools remaining placements number deal ghost i e at_table
      size len h =
    let v = deal_pairs-IsStep table draw key keys pools remaining placements number deal e in
    let (x, here) =
      at_occupied v.taken.first ghost (ap (has v.taken.first) at_table ∙ v.takable.has_first) in
    let (y, there) =
      at_occupied v.taken.second ghost (ap (has v.taken.second) at_table ∙ v.takable.has_second) in
    let lt = subst (λ n. v.taken.first < n) (sym len) (get_elem?-lt ghost v.taken.first here) in
    let lt' = subst (λ n. v.taken.second < n) (sym len) (get_elem?-lt ghost v.taken.second there) in
    let (first, second) =
      IsStep-faces table draw key keys pools remaining placements number deal v lt lt' in
    let (now, fewer) = taken_off-occupied table ghost remaining v.taken v.takable at_table in
    elim (Bool-cases (i == v.taken.first)) [
      | inl f ↦ (
        v.drawn.first,
        subst (λ n. get_elem? deal.placements n ≡ some (some v.drawn.first))
            (sym ((==_iff i v.taken.first).0 f)) first,
      )
      | inr f ↦ elim (Bool-cases (i == v.taken.second)) [
        | inl g ↦ (
          v.drawn.second,
          subst (λ n. get_elem? deal.placements n ≡ some (some v.drawn.second))
              (sym ((==_iff i v.taken.second).0 g)) second,
        )
        | inr g ↦
            let left : has i (without_both v.taken remaining) ≡ true =
              has-without_both v.taken i remaining ∙ ground (arith, f, g, h) in
            let (id, found) =
              deal_pairs-filled table draw keys v.drawn.pools (without_both v.taken remaining)
                (place_both v.taken v.drawn placements) (number + 2) v.rest
                (taken_off (step_of v.taken) ghost) i v.dealt now (omega (arith, fewer, size))
                (length-place_both v.taken v.drawn placements
                  ∙ len
                  ∙ sym (length-taken_off (step_of v.taken) ghost))
                left in
            (id, ap (λ p. get_elem? p i) v.board ∙ found)
      ]
    ]

module _ (draw : ℕ → ℕ → ℕ) where
  has-indices_from :
      (k i : ℕ) (positions : List Position) (table : List Position)
      → i < length positions
      → has (k + i) (indices_from table draw k positions) ≡ true
  has-indices_from k i [] table h = elim h [ ]
  has-indices_from k zero (p ∷ positions) table h = ground arith
  has-indices_from k (suc i) (p ∷ positions) table h =
      let e = has-indices_from (suc k) i positions table (omega arith) in
      let same : k + suc i ≡ suc k + i = omega arith in
      let e' = subst (λ n. has n (indices_from table draw (suc k) positions) ≡ true) (sym same) e in
      ground (arith, e')

  length-indices_from :
      (k : ℕ) (positions : List Position) (table : List Position)
      → length (indices_from table draw k positions) ≡ length positions
  length-indices_from k [] table = refl
  length-indices_from k (p ∷ positions) table = ap suc (length-indices_from (suc k) positions table)

  occupied_from-full :
      (k : ℕ) (tiles : List (Option String)) (positions : List Position) (table : List Position)
      → length tiles ≡ length positions
      → ((i : ℕ) → i < length tiles → (id : String) × (get_elem? tiles i ≡ some (some id)))
      → occupied_from k tiles ≡ indices_from table draw k positions
  unfolding occupied_from
  occupied_from-full k [] [] table e h = refl
  occupied_from-full k [] (p ∷ positions) table e h = cc
  occupied_from-full k (t ∷ tiles) [] table e h = cc
  occupied_from-full k (none ∷ tiles) (p ∷ positions) table e h =
      let (id, f) = h 0 (omega arith) in cc
  occupied_from-full k (some x ∷ tiles) (p ∷ positions) table e h =
      ap (λ r. k ∷ r)
        (occupied_from-full (suc k) tiles positions table (omega (arith, e))
          (λ i lt. h (suc i) (omega (arith, lt))))

ghost_of : List Position → List (Option String)
ghost_of table = map (λ position. some "") table

ghost-full :
    (table : List Position) (i : ℕ)
    → i < length (ghost_of table)
    → (id : String) × (get_elem? (ghost_of table) i ≡ some (some id))
unfolding ghost_of
ghost-full [] i h = elim h [ ]
ghost-full (p ∷ table) zero h = ("", refl)
ghost-full (p ∷ table) (suc i) h = ghost-full table i (omega arith)

-- What a deal from the start has: it is laid as a board, and replaying its pairs wins.
unfoldable pub IsWinnable : List Position → String → GeneratedDeal → Type 0
IsWinnable table player_id deal =
    (apply_action table (record { player_id = player_id; board = none; abandoned = false })
        (deal_board system_actor_id deal.placements)
      ≡ ok (playing player_id deal.placements))
    × (t : SolitaireMatchState) × (replay table (playing player_id deal.placements) deal.solution
        ≡ some t)
    × (outcome_of table t ≡ some (player_id ∷ []))

laid :
    (table : List Position) (player_id : String) (placements : List (Option String))
    → length placements ≡ length table
    → apply_action table
        (record { player_id = player_id; board = none; abandoned = false })
        (deal_board system_actor_id placements)
      ≡ ok (playing player_id placements)
unfolding apply_action outcome_of apply_open apply_deal lay_board
laid table player_id placements e =
    let f = (==_iff (length placements) (length table)).1 e in
    rw (apply_action, outcome_of, apply_open, apply_deal, lay_board, f) refl

-- On any layout, from pools whose faces match their keys and with one key for every two positions, every
-- deal that the generator completes is accepted as the board of a new match, its solution is accepted
-- pair by pair in that order, and the player wins with the last pair.
pub deal_pairs-IsWinnable :
    (table : List Position) (draw : ℕ → ℕ → ℕ) (keys : List String) (pools : List Pool) (number : ℕ)
    (deal : GeneratedDeal) (player_id : String)
    → deal_pairs table draw keys pools
        (indices_from table draw 0 table)
        (holes table draw table)
        number
      ≡ some deal
    → IsFit pools
    → length table ≡ 2 * length keys
    → IsWinnable table player_id deal
unfolding IsWinnable ghost_of
deal_pairs-IsWinnable table draw keys pools number deal player_id e fit size =
    let start = indices_from table draw 0 table in
    let len : length (holes table draw table) ≡ length table = length-map (λ p. none) table in
    let full =
      deal_pairs-length table draw keys pools start (holes table draw table) number deal e ∙ len in
    let ghost = ghost_of table in
    let ghost_size : length ghost ≡ length table = length-map (λ p. some "") table in
    let ghost_start = occupied_from-full draw 0 ghost table table ghost_size (ghost-full table) in
    let start_size : length start ≡ 2 * length keys =
      length-indices_from draw 0 table table ∙ size in
    let filled = λ (i : ℕ) (h : i < length deal.placements).
      deal_pairs-filled table draw keys pools start (holes table draw table) number deal ghost i e
        ghost_start start_size (len ∙ sym ghost_size)
        (subst (λ n. has n start ≡ true) (omega arith)
          (has-indices_from draw 0 i table table (subst (λ n. i < n) full h))) in
    let board = occupied_from-full draw 0 deal.placements table table full filled in
    let (t, done, won) =
      replay-wins table draw keys pools start (holes table draw table) number deal player_id
        deal.placements e fit board start_size (len ∙ sym full) (λ i h. refl) in
    (laid table player_id deal.placements full, t, done, won)
