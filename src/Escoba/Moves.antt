-- ===== src/Escoba/Moves.antt =====
-- legal-actions.ts: every capture that makes fifteen, or the one action that leaves the card.
use convite.Prelude.{
  ℕ, ◌-◌, ◌==◌, ltb, String, List, [], ◌∷◌, ◌++◌, map, Option, none, some, if◌then◌else◌, same_id,
}
use convite.Deck.{Card}
use convite.Escoba.State.{card_value, Player, HandState, MatchState, fifteen, find_player}
use convite.Escoba.Capture.{PlayCardAction}

-- `walk(index, remaining)` over the rest of the table. A branch whose remainder would be negative
-- pushes nothing in the source, and is not entered here.
unfoldable pub walk_subsets : List Card → ℕ → List Card → List (List Card)
walk_subsets [] remaining chosen = if remaining == 0 then chosen ∷ [] else []
walk_subsets (c ∷ table) remaining chosen =
    let including =
      if ltb remaining (card_value c)
      then []
      else walk_subsets table (remaining - card_value c) (chosen ++ c ∷ []) in
    let excluding = walk_subsets table remaining chosen in
    if remaining == 0 then chosen ∷ [] else including ++ excluding

unfoldable pub summing_subsets : List Card → ℕ → List (List Card)
summing_subsets table target = walk_subsets table target []

abbrev pub play : String → Card → List Card → PlayCardAction
play player played captured = record { player_id = player; card = played; captured = captured }

-- The actions with one card of the hand.
unfoldable pub card_actions : String → List (List Card) → Card → List PlayCardAction
card_actions player [] played = play player played [] ∷ []
card_actions player (s ∷ subsets) played = map (play player played) (s ∷ subsets)

unfoldable pub hand_actions : String → List Card → List Card → List PlayCardAction
hand_actions player table [] = []
hand_actions player table (c ∷ hand) =
    card_actions player (summing_subsets table (fifteen - card_value c)) c
    ++ hand_actions player table hand

unfoldable pub actions_in : Option HandState → List Player → String → List PlayCardAction
actions_in none players id = []
actions_in (some hand) players id =
    if same_id hand.turn id
    then elim (find_player players id) [
      | none ↦ []
      | some player ↦ hand_actions id hand.table player.hand
    ]
    else []

unfoldable pub get_legal_actions : MatchState → String → List PlayCardAction
unfolding actions_in
get_legal_actions state id = actions_in state.hand state.players id
