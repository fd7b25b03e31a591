-- ===== src/Truco/Envido.antt =====
-- envido-chain.ts: the calls of envido, their answers and the round of declarations. A declaration is
-- true for `points` and false for `sonBuenas`; `thrown` stands for a JavaScript exception and
-- `out_of_range` for a value that is not a natural number: NaN, or the cost of a falta envido when a
-- team is past the target.
use convite.Prelude.{
  ℕ, ◌+◌, ◌-◌, ◌%◌, ◌==◌, leb, ltb, max, Bool, true, false, ◌&&◌, not, String, List, [], ◌∷◌, ◌++◌,
  map, Option, none, some, if◌then◌else◌, any, filter, length, same_id,
}
use convite.Deck.{Card}
use convite.Truco.State.{
  Team, Player, TrucoState, not_called, pending, accepted, declined, EnvidoCallLevel, envido,
  envido_envido, real_envido, falta_envido, EnvidoDeclaration, points_said, son_buenas, EnvidoState,
  no_envido, envido_pending, envido_accepted, envido_declined, envido_revealed, HandState,
  MatchState,
}
use convite.Truco.Chain.{find_player, is_decided}

pub data EnvidoMove : Type 0 where
  call_envido : EnvidoCallLevel → EnvidoMove
  respond_envido declare_envido : Bool → EnvidoMove

pub record EnvidoAction : Type 0 where
  pub player_id : String
  pub move : EnvidoMove

pub data EnvidoResult : Type 0 where
  ok : MatchState → EnvidoResult
  violation thrown out_of_range : EnvidoResult

abbrev pub call_weight : EnvidoCallLevel → ℕ
call_weight envido = 1
call_weight envido_envido = 2
call_weight real_envido = 3
call_weight falta_envido = 4

abbrev pub call_order : List EnvidoCallLevel
call_order = envido ∷ envido_envido ∷ real_envido ∷ falta_envido ∷ []

-- The value of a falta envido is NaN, and so is a sum with it.
abbrev pub call_value : EnvidoCallLevel → Option ℕ
call_value envido = some 2
call_value envido_envido = some 2
call_value real_envido = some 3
call_value falta_envido = none

abbrev pub add_values : Option ℕ → Option ℕ → Option ℕ
add_values (some n) (some m) = some (n + m)
add_values none _ = none
add_values (some n) none = none

unfoldable pub sum_value : List EnvidoCallLevel → Option ℕ
sum_value [] = some 0
sum_value (level ∷ calls) = add_values (call_value level) (sum_value calls)

-- `calls.slice(0, -1)`
unfoldable pub all_but_last : List EnvidoCallLevel → List EnvidoCallLevel
all_but_last [] = []
all_but_last (level ∷ []) = []
all_but_last (level ∷ next ∷ calls) = level ∷ all_but_last (next ∷ calls)

unfoldable pub decline_value : List EnvidoCallLevel → Option ℕ
decline_value calls = elim (sum_value (all_but_last calls)) [
  | none ↦ none
  | some n ↦ some (max 1 n)
]

-- `Math.max(...)` over the scores: -Infinity, and none here, where there is no team.
unfoldable pub leading_score : List Team → Option ℕ
leading_score [] = none
leading_score (team ∷ teams) = elim (leading_score teams) [
  | none ↦ some team.score
  | some n ↦ some (max team.score n)
]

unfoldable pub falta_envido_value : MatchState → Option ℕ
falta_envido_value state = elim (leading_score state.teams) [
  | none ↦ none
  | some n ↦ if leb n state.points_to_win then some (state.points_to_win - n) else none
]

-- The seats are alternating, so the last two from the mano on are one pie of each team. The remainder
-- of a negative number is not positive.
unfoldable pub is_pie : HandState → Player → ℕ → Bool
is_pie hand player seats =
    if leb hand.mano_seat (player.seat + seats)
    then leb seats ((player.seat + seats - hand.mano_seat) % seats + 2)
    else leb (seats + (hand.mano_seat - (player.seat + seats)) % seats) 2

abbrev pub may_speak : TrucoState → HandState → Player → Bool
may_speak not_called hand player = player.seat == hand.turn_seat
may_speak (pending level team) hand player = not (same_id player.team_id team)
may_speak (accepted level team) hand player = player.seat == hand.turn_seat
may_speak (declined level team other) hand player = false

unfoldable pub has_played : HandState → Player → Bool
has_played hand player = any (λ play. same_id play.player_id player.id) hand.current_trick_plays

unfoldable pub can_open_envido : HandState → Player → ℕ → Bool
can_open_envido hand player seats =
    length hand.trick_outcomes == 0
    && (not (has_played hand player)
        && (is_pie hand player seats && may_speak hand.truco_state hand player))

-- The highest weight of the calls; every weight is above that of no calls.
unfoldable pub highest_weight : List EnvidoCallLevel → ℕ
highest_weight [] = 0
highest_weight (level ∷ calls) = max (call_weight level) (highest_weight calls)

unfoldable pub escalations : List EnvidoCallLevel → List EnvidoMove
escalations calls =
    map call_envido (filter (λ level. ltb (highest_weight calls) (call_weight level)) call_order)

-- A declaration with a number, for its team; none is -Infinity.
pub record Said : Type 0 where
  pub team_id : String
  pub points : Option ℕ

abbrev pub is_more : Option ℕ → Option ℕ → Bool
is_more none _ = false
is_more (some n) none = true
is_more (some n) (some m) = ltb m n

abbrev pub better : Option Said → Said → Option Said
better none candidate = some candidate
better (some winner) candidate =
    if is_more candidate.points winner.points then some candidate else some winner

-- The `reduce` over the declarations.
unfoldable pub best_declaration : Option Said → List EnvidoDeclaration → Option Said
best_declaration winner [] = winner
best_declaration winner (points_said id team_id seat points ∷ said) =
    best_declaration (better winner (record { team_id = team_id; points = points })) said
best_declaration winner (son_buenas id team_id seat ∷ said) = best_declaration winner said

abbrev pub side_is_ahead : Option Said → Player → Bool
side_is_ahead none player = false
side_is_ahead (some best) player = same_id best.team_id player.team_id

unfoldable pub declarer_seat_for : MatchState → HandState → List EnvidoDeclaration → ℕ
declarer_seat_for state hand said = (hand.mano_seat + length said) % length state.players

unfoldable pub declare_moves : List EnvidoDeclaration → Player → List EnvidoMove
declare_moves said player =
    if side_is_ahead (best_declaration none said) player
    then declare_envido true ∷ []
    else declare_envido true ∷ declare_envido false ∷ []

unfoldable pub envido_moves : EnvidoState → MatchState → HandState → Player → List EnvidoMove
envido_moves no_envido state hand player =
    if can_open_envido hand player (length state.players) then call_envido envido ∷ [] else []
envido_moves (envido_pending calls team) state hand player =
    if same_id player.team_id team
    then []
    else respond_envido true ∷ respond_envido false ∷ escalations calls
envido_moves (envido_accepted calls team value said) state hand player =
    if declarer_seat_for state hand said == player.seat then declare_moves said player else []
envido_moves (envido_declined calls team other) state hand player = []
envido_moves (envido_revealed calls team value said) state hand player = []

unfoldable pub get_legal_envido_actions : MatchState → String → List EnvidoMove
get_legal_envido_actions state player_id = elim state.hand [
  | none ↦ []
  | some hand ↦ if is_decided hand.outcome then [] else elim (find_player state.players player_id) [
    | none ↦ []
    | some player ↦ envido_moves hand.envido_state state hand player
  ]
]

abbrev pub same_response : Bool → Bool → Bool
same_response true b = b
same_response false true = false
same_response false false = true

abbrev pub same_level : EnvidoCallLevel → EnvidoCallLevel → Bool
same_level l m = call_weight l == call_weight m

abbrev pub envido_actions_equal : EnvidoMove → EnvidoMove → Bool
envido_actions_equal (call_envido l) (call_envido m) = same_level l m
envido_actions_equal (respond_envido r) (respond_envido q) = same_response r q
envido_actions_equal (declare_envido r) (declare_envido q) = same_response r q
envido_actions_equal _ _ = false

unfoldable pub is_legal_envido : MatchState → EnvidoAction → Bool
is_legal_envido state action =
    any (λ legal. envido_actions_equal legal action.move)
      (get_legal_envido_actions state action.player_id)

-- The three cards that the player was dealt.
unfoldable pub dealt_cards_for : HandState → Player → List Card
dealt_cards_for hand player =
    player.hand
    ++ map (λ play. play.card)
        (filter (λ play. same_id play.player_id player.id) hand.current_trick_plays)
