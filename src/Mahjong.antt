-- ===== src/Mahjong.antt =====
-- The solitaire of mahjong tiles: packages/games/mahjong-solitaire-engine/src, its tiles, its layout and
-- its board, and packages/games/mahjong-solitaire-module/src, its wall, its deal and its match.
pub mod Tile
pub mod Layout
pub mod Board
pub mod Solitaire
pub mod Deal
pub mod Occupied
pub mod Offered
pub mod Dealt
pub mod Filled
pub mod Replay
pub mod Solvable
pub mod Removals
pub mod Winning
pub mod Turtle
pub mod Tests
