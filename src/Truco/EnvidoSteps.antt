-- ===== src/Truco/EnvidoSteps.antt =====
-- The envido of a hand by the rules of the game: what a call, an answer and a declaration may do, told apart
-- from applyEnvidoAction of envido-chain.ts.
use convite.Prelude.{
  ℕ, ◌+◌, ◌-◌, ◌⊎◌, ◌%◌, max, ◌<◌, ◌≤◌, ◌≡◌, ◌≢◌, true, false, String, List, [], ◌∷◌, ◌++◌, none,
  some, All, length,
}
use mathlib.Core.List.{Memᴰ}
use convite.Deck.{Card}
use convite.Truco.State.{
  Team, Player, EnvidoCallLevel, envido, envido_envido, real_envido, falta_envido,
  EnvidoDeclaration, points_said, son_buenas, EnvidoState, no_envido, envido_pending,
  envido_accepted, envido_declined, envido_revealed, CallEvent, envido_call, envido_response,
  envido_declaration, HandPlay, HandState, MatchState, TrucoState, not_called, pending, accepted,
}
use convite.Truco.Calls.{Paid}
use convite.Truco.BestSaid.{IsFirstBest}
use convite.Truco.Tantos.{calculate_envido_points}
use convite.Truco.Envido.{
  EnvidoMove, call_envido, respond_envido, declare_envido, Said, best_declaration,
}

-- The calls in their order.
pub data Above : EnvidoCallLevel → EnvidoCallLevel → Type 0 where
  second_envido : Above envido envido_envido
  real_first : Above envido real_envido
  real_second : Above envido_envido real_envido
  falta_first : Above envido falta_envido
  falta_second : Above envido_envido falta_envido
  falta_real : Above real_envido falta_envido

-- Two points for each envido and three for a real envido; a falta envido has no value of its own.
pub data Adds : List EnvidoCallLevel → ℕ → Type 0 where
  no_calls : Adds [] 0
  two_more : {calls : List EnvidoCallLevel} {n : ℕ} → Adds calls n → Adds (envido ∷ calls) (2 + n)
  two_again :
      {calls : List EnvidoCallLevel} {n : ℕ} → Adds calls n → Adds (envido_envido ∷ calls) (2 + n)
  three_more :
      {calls : List EnvidoCallLevel} {n : ℕ} → Adds calls n → Adds (real_envido ∷ calls) (3 + n)

-- What the leading score lacks to the target.
abbrev pub IsMissing : MatchState → ℕ → Type 0
IsMissing s value =
    (best : ℕ) × ((team : Team) × Memᴰ team s.teams × (team.score ≡ best))
    × All (λ team. team.score ≤ best) s.teams
    × (value + best ≡ s.points_to_win)

-- What accepting the calls is worth.
pub data Worth (s : MatchState) : List EnvidoCallLevel → ℕ → Type 0 where
  summed : {calls : List EnvidoCallLevel} {value : ℕ} → Adds calls value → Worth s calls value
  falta :
      (calls : List EnvidoCallLevel) {value : ℕ}
      → IsMissing s value
      → Worth s (calls ++ falta_envido ∷ []) value

-- What refusing the calls pays: the calls before the last one, and one point at least.
pub data Refusal : List EnvidoCallLevel → ℕ → Type 0 where
  nothing_called : Refusal [] 1
  last_refused :
      (calls : List EnvidoCallLevel) (last : EnvidoCallLevel) {n : ℕ}
      → Adds calls n
      → Refusal (calls ++ last ∷ []) (max 1 n)

-- The cards that a player has laid down in the open trick.
pub data Laid (id : String) : List HandPlay → List Card → Type 0 where
  laid_none : Laid id [] []
  laid_own :
      {plays : List HandPlay} {cards : List Card} (play : HandPlay)
      → play.player_id ≡ id
      → Laid id plays cards
      → Laid id (play ∷ plays) (play.card ∷ cards)
  laid_other :
      {plays : List HandPlay} {cards : List Card} (play : HandPlay)
      → play.player_id ≢ id
      → Laid id plays cards
      → Laid id (play ∷ plays) cards

-- The first team that is not the player's; the caller's where there is none.
pub data FirstOther (own caller : String) : List Team → String → Type 0 where
  nobody_else : FirstOther own caller [] caller
  found_other :
      {teams : List Team} (team : Team)
      → team.id ≢ own
      → FirstOther own caller (team ∷ teams) team.id
  own_team :
      {teams : List Team} {winner : String} (team : Team)
      → team.id ≡ own
      → FirstOther own caller teams winner
      → FirstOther own caller (team ∷ teams) winner

-- Who may speak before an envido: the player in turn, or a team that has to answer a truco.
pub data Speaks (h : HandState) (p : Player) : TrucoState → Type 0 where
  in_turn : p.seat ≡ h.turn_seat → Speaks h p not_called
  answering : {level : _} {team : String} → p.team_id ≢ team → Speaks h p (pending level team)
  playing : {level : _} {team : String} → p.seat ≡ h.turn_seat → Speaks h p (accepted level team)

-- The last two seats from the mano on, with the remainder of JavaScript for a mano past the seats.
abbrev pub IsPie : HandState → Player → ℕ → Type 0
IsPie h p seats =
    (h.mano_seat ≤ p.seat + seats) × (seats ≤ (p.seat + seats - h.mano_seat) % seats + 2)
    ⊎ (p.seat + seats < h.mano_seat) × (seats + (h.mano_seat - (p.seat + seats)) % seats ≤ 2)

-- An envido is opened in the first trick, by a pie who has not played.
abbrev pub MayOpen : MatchState → HandState → Player → Type 0
MayOpen s h p =
    (h.trick_outcomes ≡ [])
    × ((play : HandPlay) → Memᴰ play h.current_trick_plays → play.player_id ≢ p.id)
    × IsPie h p (length s.players)
    × Speaks h p h.truco_state

-- The best declaration so far is of another team, or there is none.
abbrev pub IsBehind : Player → List EnvidoDeclaration → Type 0
IsBehind p said = (best : Said) → best_declaration none said ≡ some best → best.team_id ≢ p.team_id

-- The team of the best declaration.
abbrev pub IsWinner : List EnvidoDeclaration → String → Type 0
IsWinner said winner = (best : Said) × IsFirstBest best said × (winner ≡ best.team_id)

-- What a player says, with the number of the cards in hand and laid down.
abbrev pub number_of : Player → List Card → EnvidoDeclaration
number_of p laid = points_said p.id p.team_id p.seat (calculate_envido_points (p.hand ++ laid))

abbrev pub concession : Player → EnvidoDeclaration
concession p = son_buenas p.id p.team_id p.seat

-- The steps of the envido: the envido before, the move, the envido after, and the teams after.
pub data Step (s : MatchState) (h : HandState) (p : Player)
    : EnvidoState → EnvidoMove → EnvidoState → List Team → Type 0 where
  opens :
      MayOpen s h p
      → Step s h p no_envido (call_envido envido) (envido_pending (envido ∷ []) p.team_id) s.teams
  raises :
      {calls : List EnvidoCallLevel} {caller : String} {level : EnvidoCallLevel}
      → p.team_id ≢ caller
      → All (λ earlier. Above earlier level) calls
      → Step s h p
          (envido_pending calls caller)
          (call_envido level)
          (envido_pending (calls ++ level ∷ []) p.team_id)
          s.teams
  accepts :
      {calls : List EnvidoCallLevel} {caller : String} {value : ℕ}
      → p.team_id ≢ caller
      → Worth s calls value
      → Step s h p
          (envido_pending calls caller)
          (respond_envido true)
          (envido_accepted calls caller value [])
          s.teams
  refuses :
      {calls : List EnvidoCallLevel} {caller : String} {value : ℕ} {teams : List Team}
      → p.team_id ≢ caller
      → Refusal calls value
      → Paid caller value s.teams teams
      → Step s h p
          (envido_pending calls caller)
          (respond_envido false)
          (envido_declined calls caller p.team_id)
          teams
  speaks :
      {calls : List EnvidoCallLevel} {caller : String} {value : ℕ} {said : List EnvidoDeclaration}
      {laid : List Card}
      → p.seat ≡ (h.mano_seat + length said) % length s.players
      → Laid p.id h.current_trick_plays laid
      → length said + 1 < length s.players
      → Step s h p
          (envido_accepted calls caller value said)
          (declare_envido true)
          (envido_accepted calls caller value (said ++ number_of p laid ∷ []))
          s.teams
  finishes :
      {calls : List EnvidoCallLevel} {caller winner : String} {value : ℕ}
      {said : List EnvidoDeclaration} {laid : List Card} {teams : List Team}
      → p.seat ≡ (h.mano_seat + length said) % length s.players
      → Laid p.id h.current_trick_plays laid
      → length s.players ≤ length said + 1
      → IsWinner (said ++ number_of p laid ∷ []) winner
      → Paid winner value s.teams teams
      → Step s h p
          (envido_accepted calls caller value said)
          (declare_envido true)
          (envido_revealed calls winner value (said ++ number_of p laid ∷ []))
          teams
  concedes :
      {calls : List EnvidoCallLevel} {caller winner : String} {value : ℕ}
      {said : List EnvidoDeclaration} {teams : List Team}
      → p.seat ≡ (h.mano_seat + length said) % length s.players
      → IsBehind p said
      → FirstOther p.team_id caller s.teams winner
      → Paid winner value s.teams teams
      → Step s h p
          (envido_accepted calls caller value said)
          (declare_envido false)
          (envido_revealed calls winner value (said ++ concession p ∷ []))
          teams

-- What the table hears of a move.
abbrev pub heard : Player → EnvidoMove → CallEvent
heard p (call_envido level) = envido_call p.id p.team_id p.seat level
heard p (respond_envido quiero) = envido_response p.id p.team_id p.seat quiero
heard p (declare_envido points) = envido_declaration p.id p.team_id p.seat points

-- A step of the envido by that player, and nothing else of the match changed.
abbrev pub Stepped :
    EnvidoState → MatchState → HandState → Player → EnvidoMove → MatchState → Type 0
Stepped before s h p m t =
    (after : EnvidoState) × (teams : List Team) × Step s h p before m after teams
    × (t ≡ record s {
      teams = teams;
      hand =
          some (record h { envido_state = after; call_events = h.call_events ++ heard p m ∷ [] });
    })
