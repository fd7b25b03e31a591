-- ===== src/Truco/Chain.antt =====
-- truco-chain.ts and truco-scoring.ts: the calls of truco, their answers and what a refusal gives.
use convite.Prelude.{
  ℕ, ◌+◌, ◌==◌, Bool, true, false, String, List, [], ◌∷◌, ◌++◌, map, Option, none, some,
  if◌then◌else◌, any, find, same_id,
}
use convite.Truco.State.{
  Team, Player, TrucoCallLevel, truco, retruco, vale_cuatro, TrucoState, not_called, pending,
  accepted, declined, EnvidoState, no_envido, envido_pending, envido_accepted, envido_declined,
  envido_revealed, truco_call, truco_response, HandOutcome, undecided, decided, HandState,
  MatchState,
}

pub data TrucoMove : Type 0 where
  call_truco : TrucoCallLevel → TrucoMove
  respond_truco : Bool → TrucoMove

pub record TrucoAction : Type 0 where
  pub player_id : String
  pub move : TrucoMove

pub data ApplyResult : Type 0 where
  ok : MatchState → ApplyResult
  violation : ApplyResult

abbrev pub decline_value : TrucoCallLevel → ℕ
decline_value truco = 1
decline_value retruco = 2
decline_value vale_cuatro = 3

abbrev pub accepted_hand_value : TrucoCallLevel → ℕ
accepted_hand_value truco = 2
accepted_hand_value retruco = 3
accepted_hand_value vale_cuatro = 4

abbrev pub next_level : TrucoCallLevel → Option TrucoCallLevel
next_level truco = some retruco
next_level retruco = some vale_cuatro
next_level vale_cuatro = none

unfoldable pub find_player : List Player → String → Option Player
find_player players id = find (λ p. same_id p.id id) players

abbrev same_level : TrucoCallLevel → TrucoCallLevel → Bool
same_level truco truco = true
same_level retruco retruco = true
same_level vale_cuatro vale_cuatro = true
same_level _ _ = false

abbrev same_response : Bool → Bool → Bool
same_response true b = b
same_response false true = false
same_response false false = true

abbrev pub same_move : TrucoMove → TrucoMove → Bool
same_move (call_truco l) (call_truco m) = same_level l m
same_move (respond_truco r) (respond_truco q) = same_response r q
same_move (call_truco l) (respond_truco q) = false
same_move (respond_truco r) (call_truco m) = false

abbrev pub envido_is_open : EnvidoState → Bool
envido_is_open no_envido = false
envido_is_open (envido_pending calls team) = true
envido_is_open (envido_accepted calls team value said) = true
envido_is_open (envido_declined calls team other) = false
envido_is_open (envido_revealed calls team value said) = false

abbrev pub is_decided : HandOutcome → Bool
is_decided undecided = false
is_decided (decided team) = true

-- The moves of the chain that a player may make.
unfoldable pub chain_moves : TrucoState → ℕ → Player → List TrucoMove
chain_moves not_called turn_seat player =
    if player.seat == turn_seat then call_truco truco ∷ [] else []
chain_moves (pending level team) turn_seat player =
    if same_id player.team_id team then [] else respond_truco true ∷ respond_truco false ∷ []
chain_moves (accepted level team) turn_seat player =
    if same_id player.team_id team
    then []
    else elim (next_level level) [ none ↦ [] | some next ↦ call_truco next ∷ [] ]
chain_moves (declined level team other) turn_seat player = []

unfoldable pub hand_moves : HandState → Player → List TrucoMove
hand_moves hand player =
    if envido_is_open hand.envido_state
    then []
    else (if is_decided hand.outcome
        then []
        else chain_moves hand.truco_state hand.turn_seat player)

unfoldable pub get_legal_truco_actions : MatchState → String → List TrucoMove
get_legal_truco_actions state player_id = elim state.hand [
  | none ↦ []
  | some hand ↦ elim (find_player state.players player_id) [
    | none ↦ []
    | some player ↦ hand_moves hand player
  ]
]

unfoldable pub is_legal_truco : MatchState → TrucoAction → Bool
is_legal_truco state action =
    any (λ legal. same_move legal action.move) (get_legal_truco_actions state action.player_id)

-- `state.teams.map(...)` with the points for the team of that identifier.
unfoldable pub award_points : String → ℕ → List Team → List Team
award_points id points teams =
    map (λ t. if same_id t.id id then record t { score = t.score + points } else t) teams

-- The answer to a pending call.
unfoldable pub answer : MatchState → HandState → Player → Bool → TrucoState → ApplyResult
answer state hand player true (pending level team) = ok (record state {
  hand = some (record hand {
    truco_state = accepted level team;
    call_events = hand.call_events ++ truco_response player.id player.team_id player.seat true ∷ [];
  });
})
answer state hand player false (pending level team) = ok (record state {
  teams = award_points team (decline_value level) state.teams;
  hand = some (record hand {
    truco_state = declined level team player.team_id;
    outcome = decided team;
    call_events =
        hand.call_events ++ truco_response player.id player.team_id player.seat false ∷ [];
  });
})
answer state hand player quiero not_called = violation
answer state hand player quiero (accepted level team) = violation
answer state hand player quiero (declined level team other) = violation

unfoldable pub make_move : MatchState → HandState → Player → TrucoMove → ApplyResult
make_move state hand player (call_truco level) = ok (record state {
  hand = some (record hand {
    truco_state = pending level player.team_id;
    call_events = hand.call_events ++ truco_call player.id player.team_id player.seat level ∷ [];
  });
})
make_move state hand player (respond_truco quiero) =
    answer state hand player quiero hand.truco_state

unfoldable pub apply_truco_action : MatchState → TrucoAction → ApplyResult
apply_truco_action state action =
    if is_legal_truco state action
    then elim state.hand [
      | none ↦ violation
      | some hand ↦ elim (find_player state.players action.player_id) [
        | none ↦ violation
        | some player ↦ make_move state hand player action.move
      ]
    ]
    else violation
