-- ===== src/Truco/CardPlay.antt =====
-- card-play.ts: playing a card, closing a trick and closing a hand. `thrown` stands for a JavaScript
-- exception: no player in the mano's seat, or a winning team without a play.
use convite.Prelude.{
  ℕ, ◌+◌, ◌%◌, ◌==◌, ltb, Bool, true, false, ◌&&◌, ◌||◌, not, String, List, [], ◌∷◌, ◌++◌, map,
  Option, none, some, if◌then◌else◌, find, filter, length, same_id,
}
use convite.Deck.{Card}
use convite.Deck.Count.{without, among}
use convite.Truco.State.{
  Team, Player, TrucoState, not_called, pending, accepted, declined, HandPlay, TrickOutcome,
  HandOutcome, undecided, decided, HandState, MatchState,
}
use convite.Truco.Trick.{card_power, PlayedCard, resolve_trick}
use convite.Truco.HandWinner.{resolve_hand_winner}
use convite.Truco.Chain.{find_player, accepted_hand_value, envido_is_open, is_decided, award_points}

pub record PlayCardAction : Type 0 where
  pub player_id : String
  pub card : Card

pub data PlayResult : Type 0 where
  ok : MatchState → PlayResult
  violation thrown : PlayResult

abbrev pub is_pending : TrucoState → Bool
is_pending not_called = false
is_pending (pending level team) = true
is_pending (accepted level team) = false
is_pending (declined level team other) = false

abbrev pub is_declined : TrucoState → Bool
is_declined not_called = false
is_declined (pending level team) = false
is_declined (accepted level team) = false
is_declined (declined level team other) = true

unfoldable pub calls_are_settled : HandState → Bool
calls_are_settled hand = not (is_pending hand.truco_state) && not (envido_is_open hand.envido_state)

-- The cards that a player may play; the source wraps each into an action of that player.
unfoldable pub playable_cards : HandState → Player → List Card
playable_cards hand player =
    if (player.seat == hand.turn_seat) && calls_are_settled hand then player.hand else []

unfoldable pub get_legal_card_play_actions : MatchState → String → List Card
get_legal_card_play_actions state player_id = elim state.hand [
  | none ↦ []
  | some hand ↦
      if is_decided hand.outcome || is_declined hand.truco_state
      then []
      else elim (find_player state.players player_id) [
        | none ↦ []
        | some player ↦ playable_cards hand player
      ]
]

unfoldable pub is_legal_card_play : MatchState → PlayCardAction → Bool
is_legal_card_play state action =
    among (get_legal_card_play_actions state action.player_id) action.card

abbrev pub value_of_call : TrucoState → ℕ
value_of_call not_called = 1
value_of_call (pending level team) = 1
value_of_call (accepted level team) = accepted_hand_value level
value_of_call (declined level team other) = 1

unfoldable pub hand_value : HandState → ℕ
hand_value hand = value_of_call hand.truco_state

-- `winningPlays.reduce(...)` from its first play on.
unfoldable pub best_play : HandPlay → List HandPlay → HandPlay
best_play best [] = best
best_play best (candidate ∷ plays) =
    best_play (if ltb (card_power best.card) (card_power candidate.card) then candidate else best)
      plays

abbrev pub seat_of_best : List HandPlay → Option ℕ
seat_of_best [] = none
seat_of_best (play ∷ plays) = some (best_play play plays).seat

unfoldable pub next_leader_seat : ℕ → TrickOutcome → List HandPlay → Option ℕ
next_leader_seat leader_seat none plays = some leader_seat
next_leader_seat leader_seat (some team) plays =
    seat_of_best (filter (λ p. same_id p.team_id team) plays)

-- `p.hand.filter(...)` for the player of that identifier.
unfoldable pub discard : String → Card → Player → Player
discard id played p = if same_id p.id id then record p { hand = without played p.hand } else p

abbrev pub played_cards : List HandPlay → List PlayedCard
played_cards plays = map (λ p. record { team_id = p.team_id; card = p.card }) plays

-- The hand with the trick closed, for its outcome and its next leader.
unfoldable pub closed_hand : HandState → List HandPlay → TrickOutcome → String → ℕ → HandState
closed_hand hand plays outcome mano_team_id leader = record hand {
  current_trick_plays = [];
  resolved_trick_plays = hand.resolved_trick_plays ++ plays ∷ [];
  trick_outcomes = hand.trick_outcomes ++ outcome ∷ [];
  turn_seat = leader;
  outcome = resolve_hand_winner (hand.trick_outcomes ++ outcome ∷ []) mano_team_id;
}

-- The points of a decided hand go to its winner.
unfoldable pub award_hand : ℕ → HandOutcome → List Team → List Team
award_hand value undecided teams = teams
award_hand value (decided winner) teams = award_points winner value teams

-- The last play of a trick.
unfoldable pub close_trick : MatchState → HandState → List Player → ℕ → List HandPlay → PlayResult
close_trick state hand players leader_seat plays =
    let outcome = resolve_trick (played_cards plays) in
    elim (find (λ p. p.seat == hand.mano_seat) state.players) [
      | none ↦ thrown
      | some mano ↦ elim (next_leader_seat leader_seat outcome plays) [
        | none ↦ thrown
        | some leader ↦
            let next = closed_hand hand plays outcome mano.team_id leader in
            ok (record state {
              teams = award_hand (hand_value hand) next.outcome state.teams;
              players = players;
              hand = some next;
            })
      ]
    ]

-- `plays[0]!.seat`; the list is never empty, since it ends with the play just made.
abbrev pub leader_of : List HandPlay → HandPlay → ℕ
leader_of [] play = play.seat
leader_of (first ∷ rest) play = first.seat

unfoldable pub play_card : MatchState → HandState → Player → Card → PlayResult
play_card state hand player played =
    let play : HandPlay = record {
      player_id = player.id;
      team_id = player.team_id;
      seat = player.seat;
      card = played;
    } in
    let plays = hand.current_trick_plays ++ play ∷ [] in
    let players = map (discard player.id played) state.players in
    if ltb (length plays) (length state.players)
    then ok (record state {
      players = players;
      hand = some (record hand {
        current_trick_plays = plays;
        turn_seat = (player.seat + 1) % length state.players;
      });
    })
    else close_trick state hand players (leader_of hand.current_trick_plays play) plays

unfoldable pub apply_card_play_action : MatchState → PlayCardAction → PlayResult
apply_card_play_action state action =
    if is_legal_card_play state action
    then elim state.hand [
      | none ↦ thrown
      | some hand ↦ elim (find_player state.players action.player_id) [
        | none ↦ thrown
        | some player ↦ play_card state hand player action.card
      ]
    ]
    else violation
