-- ===== src/Generala.antt =====
-- The rules engine of Generala, packages/games/generala-engine/src, and in `Cup` the module that plays it,
-- packages/games/generala-module/src.
-- `State` follows dice.ts, state.ts and violation.ts; `Scoring` scoring.ts; `Moves`
-- legal-actions.ts; `Play` play.ts and roll.ts; `Outcome` outcome.ts.
pub mod State
pub mod Scoring
pub mod Moves
pub mod Play
pub mod Outcome
pub mod Valid
pub mod Offers
pub mod Progress
pub mod Values
pub mod Cards
pub mod Totals
pub mod Holding
pub mod Winners
pub mod View
pub mod Cup
pub mod Throwing
pub mod Tests
pub mod CupTests
