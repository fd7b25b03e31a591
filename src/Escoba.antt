-- ===== src/Escoba.antt =====
-- The rules engine of Escoba de 15, packages/games/escoba-engine/src, and the hand settlement of
-- packages/games/escoba-module/src/index.ts.
pub mod State
pub mod Capture
pub mod Moves
pub mod Setenta
pub mod Scoring
pub mod Dealing
pub mod Sums
pub mod Offers
pub mod Counting
pub mod Accepts
pub mod Conserve
pub mod Fifteen
pub mod Points
pub mod Fair
pub mod Best
pub mod Handing
pub mod Stock
pub mod Opening
pub mod Ending
pub mod View
pub mod Tests
