-- ===== src/Generala/Outcome.antt =====
-- outcome.ts: totals and winners, read off the cards.
use convite.Prelude.{
  ℕ, ◌+◌, ◌==◌, max, Bool, String, List, [], ◌∷◌, map, Option, none, some, if◌then◌else◌, every,
  not, get_elem?,
}
use convite.Generala.State.{CategoryId, Scorecard, MatchState, Turn, servida_win, category_ids}
use convite.Generala.Moves.{is_open}

-- `card[category] ?? 0`
abbrev pub worth : Option ℕ → ℕ
worth none = 0
worth (some v) = v

unfoldable pub sum_boxes : Scorecard → List CategoryId → ℕ
sum_boxes card [] = 0
sum_boxes card (c ∷ cs) = worth (card c) + sum_boxes card cs

unfoldable pub total_for : Scorecard → ℕ
unfolding sum_boxes
total_for card = sum_boxes card category_ids

unfoldable pub is_card_full : Scorecard → Bool
is_card_full card = every (λ c. not (is_open card c)) category_ids

-- `Math.max(...totals)`; a match has a seat, so the list is not empty.
unfoldable pub max_of : List ℕ → ℕ
max_of [] = 0
max_of (n ∷ ns) = max n (max_of ns)

-- `players.filter((_, seat) => totals[seat] === best)`
unfoldable pub at_total : ℕ → List String → List ℕ → List String
at_total best [] totals = []
at_total best (p ∷ ps) [] = []
at_total best (p ∷ ps) (t ∷ ts) = if t == best then p ∷ at_total best ps ts else at_total best ps ts

unfoldable pub card_outcome : MatchState → Option (List String)
unfolding max_of at_total is_card_full total_for
card_outcome state =
    if every is_card_full state.cards
    then some
        (at_total (max_of (map total_for state.cards)) state.players (map total_for state.cards))
    else none

-- `[state.players[seat]!]`
abbrev pub servida_winner : List String → ℕ → List String
servida_winner players seat = elim (get_elem? players seat) [ none ↦ [] | some p ↦ p ∷ [] ]

unfoldable pub outcome_of : Turn → MatchState → Option (List String)
unfolding card_outcome
outcome_of (servida_win seat) state = some (servida_winner state.players seat)
outcome_of _ state = card_outcome state

unfoldable pub get_outcome : MatchState → Option (List String)
unfolding outcome_of
get_outcome state = outcome_of state.turn state
