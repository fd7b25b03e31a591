-- ===== src/Mahjong/Layout.antt =====
-- layout.ts of mahjong-solitaire-engine: the positions of the turtle, in half tiles.
use convite.Prelude.{ℕ, List, [], ◌∷◌, map}
use convite.Mahjong.Tile.{flat_map}

pub record HalfCellRow : Type 0 where
  pub z : ℕ
  pub y : ℕ
  pub xs : List ℕ

pub record Position : Type 0 where
  pub x : ℕ
  pub y : ℕ
  pub z : ℕ

abbrev pub turtle_rows : List HalfCellRow
turtle_rows =
    record { z = 0; y = 0; xs = 2 ∷ 4 ∷ 6 ∷ 8 ∷ 10 ∷ 12 ∷ 14 ∷ 16 ∷ 18 ∷ 20 ∷ 22 ∷ 24 ∷ [] }
    ∷ record { z = 0; y = 2; xs = 6 ∷ 8 ∷ 10 ∷ 12 ∷ 14 ∷ 16 ∷ 18 ∷ 20 ∷ [] }
    ∷ record { z = 0; y = 4; xs = 4 ∷ 6 ∷ 8 ∷ 10 ∷ 12 ∷ 14 ∷ 16 ∷ 18 ∷ 20 ∷ 22 ∷ [] }
    ∷ record { z = 0; y = 6; xs = 2 ∷ 4 ∷ 6 ∷ 8 ∷ 10 ∷ 12 ∷ 14 ∷ 16 ∷ 18 ∷ 20 ∷ 22 ∷ 24 ∷ [] }
    ∷ record { z = 0; y = 7; xs = 0 ∷ 26 ∷ 28 ∷ [] }
    ∷ record { z = 0; y = 8; xs = 2 ∷ 4 ∷ 6 ∷ 8 ∷ 10 ∷ 12 ∷ 14 ∷ 16 ∷ 18 ∷ 20 ∷ 22 ∷ 24 ∷ [] }
    ∷ record { z = 0; y = 10; xs = 4 ∷ 6 ∷ 8 ∷ 10 ∷ 12 ∷ 14 ∷ 16 ∷ 18 ∷ 20 ∷ 22 ∷ [] }
    ∷ record { z = 0; y = 12; xs = 6 ∷ 8 ∷ 10 ∷ 12 ∷ 14 ∷ 16 ∷ 18 ∷ 20 ∷ [] }
    ∷ record { z = 0; y = 14; xs = 2 ∷ 4 ∷ 6 ∷ 8 ∷ 10 ∷ 12 ∷ 14 ∷ 16 ∷ 18 ∷ 20 ∷ 22 ∷ 24 ∷ [] }
    ∷ record { z = 1; y = 2; xs = 8 ∷ 10 ∷ 12 ∷ 14 ∷ 16 ∷ 18 ∷ [] }
    ∷ record { z = 1; y = 4; xs = 8 ∷ 10 ∷ 12 ∷ 14 ∷ 16 ∷ 18 ∷ [] }
    ∷ record { z = 1; y = 6; xs = 8 ∷ 10 ∷ 12 ∷ 14 ∷ 16 ∷ 18 ∷ [] }
    ∷ record { z = 1; y = 8; xs = 8 ∷ 10 ∷ 12 ∷ 14 ∷ 16 ∷ 18 ∷ [] }
    ∷ record { z = 1; y = 10; xs = 8 ∷ 10 ∷ 12 ∷ 14 ∷ 16 ∷ 18 ∷ [] }
    ∷ record { z = 1; y = 12; xs = 8 ∷ 10 ∷ 12 ∷ 14 ∷ 16 ∷ 18 ∷ [] }
    ∷ record { z = 2; y = 4; xs = 10 ∷ 12 ∷ 14 ∷ 16 ∷ [] }
    ∷ record { z = 2; y = 6; xs = 10 ∷ 12 ∷ 14 ∷ 16 ∷ [] }
    ∷ record { z = 2; y = 8; xs = 10 ∷ 12 ∷ 14 ∷ 16 ∷ [] }
    ∷ record { z = 2; y = 10; xs = 10 ∷ 12 ∷ 14 ∷ 16 ∷ [] }
    ∷ record { z = 3; y = 6; xs = 12 ∷ 14 ∷ [] }
    ∷ record { z = 3; y = 8; xs = 12 ∷ 14 ∷ [] }
    ∷ record { z = 4; y = 7; xs = 13 ∷ [] }
    ∷ []

abbrev pub positions_of : HalfCellRow → List Position
positions_of row = map (λ x. record { x = x; y = row.y; z = row.z }) row.xs

unfoldable pub layout : List Position
layout = flat_map positions_of turtle_rows
