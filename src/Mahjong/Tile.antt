-- ===== src/Mahjong/Tile.antt =====
-- tile.ts of mahjong-solitaire-engine: the tiles, their identifiers and the keys by which they match.
use Prim.Native.String.{◌++◌ as text_append}
use convite.Prelude.{String, List, [], ◌∷◌, ◌++◌, map, Option, none, some, find, same_id}

pub data Suit : Type 0 where
  circles bamboo_suit characters : Suit

pub data SuitRank : Type 0 where
  n1 n2 n3 n4 n5 n6 n7 n8 n9 : SuitRank

pub data Wind : Type 0 where
  east south west north : Wind

pub data Dragon : Type 0 where
  red green white : Dragon

pub data Flower : Type 0 where
  plum orchid chrysanthemum bamboo : Flower

pub data Season : Type 0 where
  spring summer autumn winter : Season

pub data Tile : Type 0 where
  suit_tile : Suit → SuitRank → Tile
  wind_tile : Wind → Tile
  dragon_tile : Dragon → Tile
  flower_tile : Flower → Tile
  season_tile : Season → Tile

abbrev pub suits : List Suit
suits = circles ∷ bamboo_suit ∷ characters ∷ []

abbrev pub suit_ranks : List SuitRank
suit_ranks = n1 ∷ n2 ∷ n3 ∷ n4 ∷ n5 ∷ n6 ∷ n7 ∷ n8 ∷ n9 ∷ []

abbrev pub winds : List Wind
winds = east ∷ south ∷ west ∷ north ∷ []

abbrev pub dragons : List Dragon
dragons = red ∷ green ∷ white ∷ []

abbrev pub flowers : List Flower
flowers = plum ∷ orchid ∷ chrysanthemum ∷ bamboo ∷ []

abbrev pub seasons : List Season
seasons = spring ∷ summer ∷ autumn ∷ winter ∷ []

-- `xs.flatMap(f)`
abbrev pub flat_map {ℓ κ} : {A : Type ℓ} {B : Type κ} → (A → List B) → List A → List B
flat_map f [] = []
flat_map f (x ∷ xs) = f x ++ flat_map f xs

unfoldable pub faces : List Tile
faces =
    flat_map (λ suit. map (λ rank. suit_tile suit rank) suit_ranks) suits
    ++ (map wind_tile winds ++ map dragon_tile dragons)

unfoldable pub bonus_tiles : List Tile
bonus_tiles = map flower_tile flowers ++ map season_tile seasons

unfoldable pub all_tiles : List Tile
all_tiles = flat_map (λ face. face ∷ face ∷ face ∷ face ∷ []) faces ++ bonus_tiles

abbrev suit_text : Suit → String
suit_text circles = "circles"
suit_text bamboo_suit = "bamboo"
suit_text characters = "characters"

abbrev rank_text : SuitRank → String
rank_text n1 = "1"
rank_text n2 = "2"
rank_text n3 = "3"
rank_text n4 = "4"
rank_text n5 = "5"
rank_text n6 = "6"
rank_text n7 = "7"
rank_text n8 = "8"
rank_text n9 = "9"

abbrev wind_text : Wind → String
wind_text east = "east"
wind_text south = "south"
wind_text west = "west"
wind_text north = "north"

abbrev dragon_text : Dragon → String
dragon_text red = "red"
dragon_text green = "green"
dragon_text white = "white"

abbrev flower_text : Flower → String
flower_text plum = "plum"
flower_text orchid = "orchid"
flower_text chrysanthemum = "chrysanthemum"
flower_text bamboo = "bamboo"

abbrev season_text : Season → String
season_text spring = "spring"
season_text summer = "summer"
season_text autumn = "autumn"
season_text winter = "winter"

unfoldable pub tile_id : Tile → String
tile_id (suit_tile suit rank) = text_append (rank_text rank) (text_append "-" (suit_text suit))
tile_id (wind_tile wind) = text_append "wind-" (wind_text wind)
tile_id (dragon_tile dragon) = text_append "dragon-" (dragon_text dragon)
tile_id (flower_tile flower) = text_append "flower-" (flower_text flower)
tile_id (season_tile season) = text_append "season-" (season_text season)

unfoldable pub match_key : Tile → String
match_key (suit_tile suit rank) = tile_id (suit_tile suit rank)
match_key (wind_tile wind) = tile_id (wind_tile wind)
match_key (dragon_tile dragon) = tile_id (dragon_tile dragon)
match_key (flower_tile flower) = "flower"
match_key (season_tile season) = "season"

abbrev pub key_of_tile : Option Tile → Option String
key_of_tile none = none
key_of_tile (some tile) = some (match_key tile)

-- MATCH_KEY_BY_TILE_ID of board.ts; the tiles of one identifier have one key.
unfoldable pub match_key_by_tile_id : String → Option String
match_key_by_tile_id id = key_of_tile (find (λ tile. same_id (tile_id tile) id) all_tiles)
