-- ===== src/Truco/Declaring.antt =====
-- applyEnvidoAction and resolveEnvidoDeclarations of envido-chain.ts.
use convite.Prelude.{
  ℕ, zero, suc, ◌%◌, ◌==◌, ltb, Bool, true, false, ◌&&◌, not, String, List, [], ◌∷◌, ◌++◌, Option,
  none, some, if◌then◌else◌, find, length, same_id,
}
use convite.Truco.State.{
  Player, EnvidoCallLevel, envido, envido_envido, real_envido, falta_envido, EnvidoDeclaration,
  points_said, son_buenas, EnvidoState, no_envido, envido_pending, envido_accepted, envido_declined,
  envido_revealed, envido_call, CallEvent, envido_response, envido_declaration, HandState,
  MatchState,
}
use convite.Truco.Chain.{find_player, award_points}
use convite.Truco.Tantos.{calculate_envido_points}
use convite.Truco.Envido.{
  EnvidoMove, call_envido, respond_envido, declare_envido, EnvidoAction, EnvidoResult, ok,
  violation, thrown, out_of_range, sum_value, decline_value, falta_envido_value, Said, is_more,
  best_declaration, is_legal_envido, dealt_cards_for,
}

-- The calls before the one that is made now.
abbrev pub prior_calls : EnvidoState → List EnvidoCallLevel
prior_calls no_envido = []
prior_calls (envido_pending calls team) = calls
prior_calls (envido_accepted calls team value said) = []
prior_calls (envido_declined calls team other) = []
prior_calls (envido_revealed calls team value said) = []

unfoldable pub ends_in_falta : List EnvidoCallLevel → Bool
ends_in_falta [] = false
ends_in_falta (falta_envido ∷ []) = true
ends_in_falta (envido ∷ []) = false
ends_in_falta (envido_envido ∷ []) = false
ends_in_falta (real_envido ∷ []) = false
ends_in_falta (level ∷ next ∷ calls) = ends_in_falta (next ∷ calls)

unfoldable pub accepted_value : MatchState → List EnvidoCallLevel → Option ℕ
accepted_value state calls =
    if ends_in_falta calls then falta_envido_value state else sum_value calls

-- The hand with another state of its envido and one more event.
unfoldable pub with_envido : HandState → EnvidoState → CallEvent → HandState
with_envido hand next event = record hand {
  envido_state = next;
  call_events = hand.call_events ++ event ∷ [];
}

unfoldable pub answer_envido : MatchState → HandState → Player → Bool → EnvidoState → EnvidoResult
answer_envido state hand player true (envido_pending calls team) =
    elim (accepted_value state calls) [
      | none ↦ out_of_range
      | some value ↦ ok (record state {
        hand = some (
            with_envido hand (envido_accepted calls team value [])
              (envido_response player.id player.team_id player.seat true));
      })
    ]
answer_envido state hand player false (envido_pending calls team) = elim (decline_value calls) [
  | none ↦ out_of_range
  | some value ↦ ok (record state {
    teams = award_points team value state.teams;
    hand = some (
        with_envido hand (envido_declined calls team player.team_id)
          (envido_response player.id player.team_id player.seat false));
  })
]
answer_envido state hand player quiero no_envido = thrown
answer_envido state hand player quiero (envido_accepted calls team value said) = thrown
answer_envido state hand player quiero (envido_declined calls team other) = thrown
answer_envido state hand player quiero (envido_revealed calls team value said) = thrown

unfoldable pub entry_of : HandState → Player → Bool → EnvidoDeclaration
entry_of hand player true =
    points_said player.id player.team_id player.seat
      (calculate_envido_points (dealt_cards_for hand player))
entry_of hand player false = son_buenas player.id player.team_id player.seat

-- The first team that is not the player's; the caller where there is none.
unfoldable pub opposing_team : MatchState → Player → String → String
opposing_team state player caller =
    elim (find (λ t. not (same_id t.id player.team_id)) state.teams) [
      | none ↦ caller
      | some team ↦ team.id
    ]

abbrev pub team_of_best : Option Said → String → String
team_of_best none caller = caller
team_of_best (some best) caller = best.team_id

unfoldable pub winning_team : MatchState → Player → String → Bool → List EnvidoDeclaration → String
winning_team state player caller true said = team_of_best (best_declaration none said) caller
winning_team state player caller false said = opposing_team state player caller

unfoldable pub declare : MatchState → HandState → Player → Bool → EnvidoState → EnvidoResult
declare state hand player points (envido_accepted calls team value said) =
    let said' = said ++ entry_of hand player points ∷ [] in
    let event = envido_declaration player.id player.team_id player.seat points in
    let winner = winning_team state player team points said' in
    if points && ltb (length said') (length state.players)
    then ok (record state {
      hand = some (with_envido hand (envido_accepted calls team value said') event);
    })
    else ok (record state {
      teams = award_points winner value state.teams;
      hand = some (with_envido hand (envido_revealed calls winner value said') event);
    })
declare state hand player points no_envido = thrown
declare state hand player points (envido_pending calls team) = thrown
declare state hand player points (envido_declined calls team other) = thrown
declare state hand player points (envido_revealed calls team value said) = thrown

unfoldable pub make_envido_move : MatchState → HandState → Player → EnvidoMove → EnvidoResult
make_envido_move state hand player (call_envido level) = ok (record state {
  hand = some (
      with_envido hand (envido_pending (prior_calls hand.envido_state ++ level ∷ []) player.team_id)
        (envido_call player.id player.team_id player.seat level));
})
make_envido_move state hand player (respond_envido quiero) =
    answer_envido state hand player quiero hand.envido_state
make_envido_move state hand player (declare_envido points) =
    declare state hand player points hand.envido_state

unfoldable pub apply_envido_action : MatchState → EnvidoAction → EnvidoResult
apply_envido_action state action =
    if is_legal_envido state action
    then elim state.hand [
      | none ↦ thrown
      | some hand ↦ elim (find_player state.players action.player_id) [
        | none ↦ thrown
        | some player ↦ make_envido_move state hand player action.move
      ]
    ]
    else violation

-- `rotation.map(...)`: a seat with no player is an exception.
abbrev add_player : Option Player → Option (List Player) → Option (List Player)
add_player (some p) (some ps) = some (p ∷ ps)
add_player none _ = none
add_player (some p) none = none

unfoldable pub rotation_from : List Player → ℕ → ℕ → ℕ → Option (List Player)
rotation_from players seats seat zero = some []
rotation_from players seats seat (suc left) =
    add_player (find (λ p. p.seat == seat % seats) players)
      (rotation_from players seats (suc seat) left)

-- The loop over the rotation, with the running best; none is -Infinity.
unfoldable pub declarations_from : HandState → Option ℕ → List Player → List EnvidoDeclaration
declarations_from hand running_best [] = []
declarations_from hand running_best (player ∷ rotation) =
    let points = calculate_envido_points (dealt_cards_for hand player) in
    let said = declarations_from hand points rotation in
    let withheld = declarations_from hand running_best rotation in
    if is_more points running_best
    then entry_of hand player true ∷ said
    else entry_of hand player false ∷ withheld

unfoldable pub resolve_envido_declarations : MatchState → ℕ → Option (List EnvidoDeclaration)
resolve_envido_declarations state mano_seat =
    let seats = length state.players in
    elim (rotation_from state.players seats mano_seat seats) [
      | none ↦ none
      | some rotation ↦ elim state.hand [
        | none ↦ none
        | some hand ↦ some (declarations_from hand none rotation)
      ]
    ]
