-- ===== src/Lib.antt =====
-- Verification library of Convite, a platform of table games.
--
-- The games are engines without input or output: a match is a value, an action gives the next
-- match or a refusal, and a module of the platform calls the engine, keeps the match and sends
-- every seat its view. The library models four engines and the deck that two of them share.
--
-- Prelude: the native numbers, lists and options, Boolean tests with the lemmas that reflect
-- them, and equality of identifiers (same_id).
-- Deck, Deck/Count: packages/games/escoba-engine/src/card.ts and deck.ts, which
-- packages/games/truco-engine/src repeats; a card's identifier is cardId, the deck is
-- buildDeck. Count counts cards in piles.
-- Generala/State: dice.ts, state.ts and violation.ts of packages/games/generala-engine/src.
-- Generala/Scoring: scoring.ts (scoreFor). Generala/Moves: legal-actions.ts (getLegalActions,
-- mayWrite). Generala/Play: play.ts and roll.ts (applyHold, applyScore, applyPlayerAction,
-- applyRoll). Generala/Outcome: outcome.ts (totalFor, getOutcome). The other files of Generala
-- hold proofs; Offers also has the comparison of actions of
-- packages/transport-colyseus/src/match-room.ts (sameAction).
-- Escoba/State: state.ts, values.ts and hand-outcome.ts of packages/games/escoba-engine/src.
-- Escoba/Capture: capture.ts (applyAction). Escoba/Moves: legal-actions.ts. Escoba/Setenta:
-- setenta.ts. Escoba/Scoring: scoring.ts. Escoba/Dealing: deal.ts, escoba.ts and
-- settleHandIfNeeded of packages/games/escoba-module/src/index.ts. The other files of Escoba
-- hold proofs.
-- Truco/State: match.ts of packages/games/truco-engine/src. Truco/Trick: card-power.ts and
-- trick.ts. Truco/HandWinner: hand-winner.ts. Truco/Chain: truco-chain.ts and truco-scoring.ts
-- (applyTrucoAction). Truco/CardPlay: card-play.ts (applyCardPlayAction). Truco/Tantos,
-- Truco/Envido, Truco/Declaring: envido-chain.ts (calculateEnvidoPoints, getLegalEnvidoActions,
-- applyEnvidoAction, resolveEnvidoDeclarations). Truco/Senas: senas.ts. Truco/Consult:
-- consult.ts. Truco/Engine: getLegalActions and applyAction of truco-chain.ts. Truco/Seating:
-- createHeadToHeadMatch and createTeamMatch of match.ts, and createMatch, createMatch2v2,
-- applyAction and getOutcome of packages/games/truco-module/src/index.ts, with each deal of
-- cards as an argument. Truco/Calls and Truco/EnvidoSteps write down the steps of the truco and
-- of the envido by the rules of the game, as data types apart from the reducers. The other
-- files of Truco hold proofs.
-- Mahjong/Tile, Mahjong/Layout, Mahjong/Board: tile.ts, layout.ts, freedom.ts and board.ts of
-- packages/games/mahjong-solitaire-engine/src. Mahjong/Deal: wall.ts and deal.ts of
-- packages/games/mahjong-solitaire-module/src (generateDeal). Mahjong/Solitaire: module.ts
-- there (applyAction, getOutcome). The other files of Mahjong hold proofs. The freedom of a
-- tile, the board and the generator are over any layout, so that their lemmas do not depend on
-- the turtle.
-- Platform/Limiter: rate-limiter.ts of packages/platform-core/src (createRateLimiter).
-- Platform/Pool: createMatchmakingPool of presence.ts there. The other files of Platform hold
-- proofs.
-- Generala/Cup: roll.ts and index.ts of packages/games/generala-module/src, with the draws of
-- the dice as an argument. Platform/Seats: SeatAssignment of packages/platform-contract/src and
-- the map of seats that the modules build.
-- The views of a seat are Generala/View, Escoba/View and Truco/View, from view.ts of the
-- engines. What a seat must not learn is written as a function, redact, that blanks it out of a
-- match.
--
-- A match is a record with the source's fields, and every reducer is a function from a match
-- and an action to a result: ok with the next match, a refusal with its code, or thrown, which
-- stands for a JavaScript exception. A record keyed by team or by box is a function into
-- options. A sum that would be NaN in the source, for a missing key, is missing here. Where a
-- deal would hand out a card that is not there, there is no result. Numbers are natural
-- numbers: seats, points, sums and indices are not negative in these engines. The points of no
-- cards, -Infinity in the source, are a missing number. Where an envido would be worth NaN or
-- less than nothing, the result is out_of_range. The column left of a tile at 0 is written as
-- the column before 0.
--
-- Loops over lists are recursion on the list. The rounds of a deal and the masks of the opening
-- table recurse on the number of rounds and masks left, which the source's loop bounds give.
-- The steps of a match of Generala are measured by a potential, and those of the truco and of
-- the envido in a hand by their positions; no function needs fuel.
--
-- Not modelled: the module that adapts Escoba to the platform except for the settlement of a
-- hand, the shuffles, the bots, the advice of the module of Truco, and the platform but for its
-- rate limiter and its matchmaking pool: its rooms, repositories, widgets and interfaces. A
-- sweep of the pool is one step, as it is for the room that asks it, whose test of a connection
-- does not wait. The text of a refusal is left out, since nothing reads it. Shuffling and
-- throwing dice belong to the platform: the deck, the faces and the draws of the mahjong deal
-- are arguments.
pub mod Prelude
pub mod Deck
pub mod Generala
pub mod Escoba
pub mod Truco
pub mod Mahjong
pub mod Platform
