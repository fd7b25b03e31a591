-- ===== src/Escoba/Capture.antt =====
-- capture.ts: the reducer for a played card. `thrown` stands for a JavaScript exception: a missing
-- pile spread into an array, or a seat that nobody holds.
use convite.Prelude.{
  ℕ, ◌+◌, ◌-◌, ◌%◌, ◌==◌, leb, Bool, true, ◌&&◌, not, String, List, [], ◌∷◌, ◌++◌, map, Option,
  none, some, if◌then◌else◌, any, find, length, same_id,
}
use convite.Deck.{Card}
use convite.Deck.Count.{without, without_all, among}
use convite.Escoba.State.{
  ByTeam, card_value, Player, HandState, MatchState, put, fifteen, find_player, sum_values,
}

pub record PlayCardAction : Type 0 where
  pub player_id : String
  pub card : Card
  pub captured : List Card

pub data Code : Type 0 where
  not_on_turn not_in_hand not_on_table not_fifteen capture_declined : Code

pub data ApplyResult : Type 0 where
  ok : MatchState → ApplyResult
  reject : Code → ApplyResult
  thrown : ApplyResult

-- `next.add(candidate)` on a set kept as a list.
abbrev pub add_sum : ℕ → List ℕ → List ℕ
add_sum n sums = if any (λ s. s == n) sums then sums else n ∷ sums

-- The inner loop: every reachable sum with the card added, unless it passes the target.
unfoldable pub add_card : ℕ → ℕ → List ℕ → List ℕ → List ℕ
add_card target value [] next = next
add_card target value (sum ∷ sums) next =
    add_card target value sums
      (if leb (sum + value) target then add_sum (sum + value) next else next)

unfoldable pub reachable_sums : ℕ → List Card → List ℕ → List ℕ
reachable_sums target [] reachable = reachable
reachable_sums target (c ∷ table) reachable =
    reachable_sums target table (add_card target (card_value c) reachable reachable)

-- The target is never negative here, since no card is worth more than 15.
unfoldable pub some_subset_sums_to : List Card → ℕ → Bool
some_subset_sums_to table target = any (λ s. s == target) (reachable_sums target table (0 ∷ []))

-- `seen` holds the cards already declared.
unfoldable pub is_subset_from : List Card → List Card → List Card → Bool
is_subset_from seen [] table = true
is_subset_from seen (c ∷ captured) table =
    among table c && not (among seen c) && is_subset_from (c ∷ seen) captured table

unfoldable pub is_subset_of_table : List Card → List Card → Bool
is_subset_of_table captured table = is_subset_from [] captured table

unfoldable pub next_turn_player_id : List Player → ℕ → Option String
next_turn_player_id players current_seat =
    elim (find (λ p. p.seat == (current_seat + 1) % length players) players) [
      | none ↦ none
      | some p ↦ some p.id
    ]

-- The guards on the declared subset: what they refuse.
unfoldable pub capture_refusal : List Card → Card → List Card → Option Code
capture_refusal [] played table =
    if some_subset_sums_to table (fifteen - card_value played) then some capture_declined else none
capture_refusal (c ∷ captured) played table =
    if is_subset_of_table (c ∷ captured) table
    then if sum_values (c ∷ captured) + card_value played == fifteen then none else some not_fifteen
    else some not_on_table

-- `player.hand.filter(...)` for the player of that identifier.
unfoldable pub discard : String → Card → Player → Player
discard id played p = if same_id p.id id then record p { hand = without played p.hand } else p

-- `{ ...counts, [key]: counts[key] + 1 }`; a key that is missing, which the source turns into NaN,
-- stays missing.
unfoldable pub bump : String → ByTeam ℕ → ByTeam ℕ
bump key counts = elim (counts key) [ none ↦ counts | some n ↦ put key (n + 1) counts ]

-- The played card stays face up, or takes the captured cards to the team's pile; a capture that
-- empties the table is an escoba.
unfoldable pub settle_play :
    MatchState → HandState → Player → Card → List Card → String → ApplyResult
settle_play state hand player played [] turn = ok (record state {
  players = map (discard player.id played) state.players;
  hand = some (record hand { table = hand.table ++ played ∷ []; turn = turn });
})
settle_play state hand player played (c ∷ captured) turn =
    let table = without_all (c ∷ captured) hand.table in
    elim (hand.piles player.team_id) [
      | none ↦ thrown
      | some pile ↦ ok (record state {
        players = map (discard player.id played) state.players;
        hand = some (record hand {
          table = table;
          piles = put player.team_id (pile ++ ((c ∷ captured) ++ played ∷ [])) hand.piles;
          escobas = if length table == 0 then bump player.team_id hand.escobas else hand.escobas;
          last_capturer = some player.team_id;
          turn = turn;
        });
      })
    ]

-- The play of a player who holds the card.
unfoldable pub play_held : MatchState → HandState → Player → PlayCardAction → ApplyResult
play_held state hand player action = elim (capture_refusal action.captured action.card hand.table) [
  | some code ↦ reject code
  | none ↦ elim (next_turn_player_id state.players player.seat) [
    | none ↦ thrown
    | some turn ↦ settle_play state hand player action.card action.captured turn
  ]
]

unfoldable pub play_in_hand : MatchState → Option HandState → PlayCardAction → ApplyResult
unfolding play_held
play_in_hand state none action = reject not_on_turn
play_in_hand state (some hand) action =
    if same_id hand.turn action.player_id
    then elim (find_player state.players action.player_id) [
      | none ↦ reject not_in_hand
      | some player ↦
          if among player.hand action.card
          then play_held state hand player action
          else reject not_in_hand
    ]
    else reject not_on_turn

unfoldable pub apply_action : MatchState → PlayCardAction → ApplyResult
unfolding play_in_hand
apply_action state action = play_in_hand state state.hand action
