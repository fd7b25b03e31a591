-- ===== src/Truco/HandWinner.antt =====
-- hand-winner.ts: the winner of a hand from its tricks. A trick beyond the third is not read.
use convite.Prelude.{String, List, [], ◌∷◌, none, some, if◌then◌else◌, same_id}
use convite.Truco.State.{TrickOutcome, HandOutcome, undecided, decided}

-- `trick.winnerTeamId ?? fallback`
abbrev pub or_else : TrickOutcome → String → String
or_else none fallback = fallback
or_else (some team) fallback = team

-- The third trick, when it is needed, or no decision yet.
unfoldable pub third_decides : List TrickOutcome → String → HandOutcome
third_decides [] fallback = undecided
third_decides (trick3 ∷ _) fallback = decided (or_else trick3 fallback)

unfoldable pub after_two : TrickOutcome → TrickOutcome → List TrickOutcome → String → HandOutcome
after_two none (some second) rest mano = decided second
after_two none none rest mano = third_decides rest mano
after_two (some first) none rest mano = decided first
after_two (some first) (some second) rest mano =
    if same_id second first then decided first else third_decides rest first

unfoldable pub resolve_hand_winner : List TrickOutcome → String → HandOutcome
resolve_hand_winner [] mano = undecided
resolve_hand_winner (trick1 ∷ []) mano = undecided
resolve_hand_winner (trick1 ∷ trick2 ∷ rest) mano = after_two trick1 trick2 rest mano
