-- ===== src/Truco.antt =====
-- The rules engine of Truco, packages/games/truco-engine/src: the state, the tricks, the card play, the
-- winner of a hand, the truco chain, the envido, the signals, the consults and the views; and in
-- `Seating` the module that plays it, packages/games/truco-module/src.
pub mod State
pub mod Trick
pub mod HandWinner
pub mod Chain
pub mod CardPlay
pub mod Deciding
pub mod Calls
pub mod Accepting
pub mod Senas
pub mod Tantos
pub mod Envido
pub mod Declaring
pub mod Consult
pub mod Engine
pub mod SentCount
pub mod Quota
pub mod Allowance
pub mod Spending
pub mod EnvidoGrants
pub mod EnvidoValues
pub mod EnvidoRuns
pub mod BestSaid
pub mod EnvidoSteps
pub mod EnvidoMeaning
pub mod EnvidoPlays
pub mod Kept
pub mod Rounds
pub mod View
pub mod Redacted
pub mod Secrets
pub mod Seating
pub mod Matches
pub mod Tricks
pub mod Plays
pub mod Tests
pub mod EnvidoTests
pub mod MatchTests
