-- ===== src/Mahjong/Board.antt =====
-- freedom.ts and board.ts of mahjong-solitaire-engine, over any layout. A set of positions is the list of
-- its indices in the order they were added. An index past the layout, an exception in the source, blocks
-- nothing here: a board has as many tiles as the layout has positions.
use convite.Prelude.{
  ℕ, suc, ◌+◌, ◌==◌, leb, ltb, Bool, true, false, ◌&&◌, not, String, List, [], ◌∷◌, ◌++◌, Option,
  none, some, if◌then◌else◌, any, every, length, get_elem?, same_id,
}
use convite.Mahjong.Tile.{match_key_by_tile_id}
use convite.Mahjong.Layout.{Position}

pub record MatchState : Type 0 where
  pub player_id : String
  pub tiles : List (Option String)

pub record RemovePairAction : Type 0 where
  pub player_id : String
  pub a : ℕ
  pub b : ℕ

abbrev pub is_none {ℓ} : {A : Type ℓ} → Option A → Bool
is_none none = true
is_none (some x) = false

-- `Math.abs(a - b) <= 1`
abbrev pub is_near : ℕ → ℕ → Bool
is_near a b = leb a (b + 1) && leb b (a + 1)

abbrev pub covers : Position → Position → Bool
covers candidate tile =
    ltb tile.z candidate.z && (is_near candidate.x tile.x && is_near candidate.y tile.y)

-- Whether a tile fills the column left of the given one; the left column of a tile at 0 is -1.
abbrev pub fills_before : Position → Position → ℕ → Bool
fills_before candidate tile column =
    (candidate.z == tile.z)
    && (ltb candidate.x column && (leb column (candidate.x + 2) && is_near candidate.y tile.y))

abbrev pub at_position : (Position → Bool) → Option Position → Bool
at_position test none = false
at_position test (some candidate) = test candidate

-- The indices of the tiles from the given one on.
unfoldable pub occupied_from : ℕ → List (Option String) → List ℕ
occupied_from index [] = []
occupied_from index (tile ∷ tiles) =
    let rest = occupied_from (suc index) tiles in if is_none tile then rest else index ∷ rest

pub record FreeTile : Type 0 where
  pub index : ℕ
  pub key : String

abbrev pub key_at : Option (Option String) → Option String
key_at none = none
key_at (some none) = none
key_at (some (some id)) = match_key_by_tile_id id

abbrev pub add_free : Bool → ℕ → Option String → List FreeTile → List FreeTile
add_free false index key free = free
add_free true index none free = free
add_free true index (some key) free = record { index = index; key = key } ∷ free

unfoldable pub pairs_with : String → FreeTile → List FreeTile → List RemovePairAction
pairs_with player_id first [] = []
pairs_with player_id first (second ∷ free) =
    let rest = pairs_with player_id first free in
    if same_id first.key second.key
    then record { player_id = player_id; a = first.index; b = second.index } ∷ rest
    else rest

unfoldable pub pairs_of : String → List FreeTile → List RemovePairAction
pairs_of player_id [] = []
pairs_of player_id (first ∷ free) = pairs_with player_id first free ++ pairs_of player_id free

module _ (layout : List Position) where
  unfoldable pub covered_from_above : Position → ℕ → List ℕ → Bool
  covered_from_above tile index occupied =
      any
        (λ other.
          not (other == index)
          && at_position (λ candidate. covers candidate tile) (get_elem? layout other))
        occupied

  unfoldable pub blocks_before : Position → ℕ → List ℕ → ℕ → Bool
  blocks_before tile index occupied column =
      any
        (λ other.
          not (other == index)
          && at_position (λ candidate. fills_before candidate tile column) (get_elem? layout other))
        occupied

  -- `tile.x - 1` and `tile.x + 2` are the columns before `tile.x` and before `tile.x + 3`.
  unfoldable pub is_free : ℕ → List ℕ → Bool
  is_free index occupied =
      at_position
        (λ tile.
          not (covered_from_above tile index occupied)
          && not (
              blocks_before tile index occupied tile.x
              && blocks_before tile index occupied (tile.x + 3)))
        (get_elem? layout index)

  -- A board of another size is an exception in the source.
  unfoldable pub lay_board : String → List (Option String) → Option MatchState
  lay_board player_id placements =
      if length placements == length layout
      then some (record { player_id = player_id; tiles = placements })
      else none

  unfoldable pub free_tiles : List (Option String) → List ℕ → List ℕ → List FreeTile
  free_tiles tiles occupied [] = []
  free_tiles tiles occupied (index ∷ indices) =
      add_free (is_free index occupied) index (key_at (get_elem? tiles index))
        (free_tiles tiles occupied indices)

  unfoldable pub get_legal_actions : MatchState → String → List RemovePairAction
  get_legal_actions state player_id =
      if same_id player_id state.player_id
      then pairs_of player_id
          (free_tiles state.tiles (occupied_from 0 state.tiles) (occupied_from 0 state.tiles))
      else []

  -- The winners of a match that is over.
  unfoldable pub get_outcome : MatchState → Option (List String)
  get_outcome state =
      if every is_none state.tiles
      then some (state.player_id ∷ [])
      else (if length (get_legal_actions state state.player_id) == 0 then some [] else none)
