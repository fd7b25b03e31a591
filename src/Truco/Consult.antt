-- ===== src/Truco/Consult.antt =====
-- consult.ts: asking one's partner about a call, which is paid for like a signal.
use convite.Prelude.{
  ◌==◌, Bool, true, false, ◌&&◌, not, String, List, [], ◌∷◌, ◌++◌, none, some, if◌then◌else◌, any,
  same_id,
}
use convite.Truco.State.{
  Player, TrucoState, not_called, pending, accepted, declined, EnvidoState, no_envido,
  envido_pending, envido_accepted, envido_declined, envido_revealed, HandState, MatchState,
  get_match_winner,
}
use convite.Truco.Chain.{find_player, is_decided}
use convite.Truco.Senas.{
  SenaResult, ok, violation, thrown, has_teammate, get_senas_remaining, count_send,
}
use convite.Truco.Envido.{
  EnvidoMove, call_envido, respond_envido, declare_envido, get_legal_envido_actions,
}

pub data ConsultSubject : Type 0 where
  pending_call about_envido : ConsultSubject

pub record ConsultPartnerAction : Type 0 where
  pub player_id : String
  pub about : ConsultSubject

abbrev pub same_subject : ConsultSubject → ConsultSubject → Bool
same_subject pending_call pending_call = true
same_subject about_envido about_envido = true
same_subject _ _ = false

abbrev pub owes_truco : TrucoState → Player → Bool
owes_truco not_called player = false
owes_truco (pending level team) player = not (same_id player.team_id team)
owes_truco (accepted level team) player = false
owes_truco (declined level team other) player = false

-- A pending envido is asked about first, and hides a pending truco.
abbrev pub owes_an_answer : EnvidoState → TrucoState → Player → Bool
owes_an_answer no_envido called player = owes_truco called player
owes_an_answer (envido_pending calls team) called player = not (same_id player.team_id team)
owes_an_answer (envido_accepted calls team value said) called player = owes_truco called player
owes_an_answer (envido_declined calls team other) called player = owes_truco called player
owes_an_answer (envido_revealed calls team value said) called player = owes_truco called player

abbrev pub is_call : EnvidoMove → Bool
is_call (call_envido level) = true
is_call (respond_envido quiero) = false
is_call (declare_envido points) = false

unfoldable pub holds_an_envido_to_open : MatchState → String → Bool
holds_an_envido_to_open state player_id = any is_call (get_legal_envido_actions state player_id)

unfoldable pub subjects : MatchState → HandState → Player → String → List ConsultSubject
subjects state hand player player_id =
    (if owes_an_answer hand.envido_state hand.truco_state player then pending_call ∷ [] else [])
    ++ (if holds_an_envido_to_open state player_id then about_envido ∷ [] else [])

unfoldable pub get_legal_consult_actions : MatchState → String → List ConsultSubject
get_legal_consult_actions state player_id = elim state.hand [
  | none ↦ []
  | some hand ↦ if is_decided hand.outcome then [] else elim (get_match_winner state) [
    | some team ↦ []
    | none ↦ elim (find_player state.players player_id) [
      | none ↦ []
      | some player ↦
          if has_teammate state player && not (get_senas_remaining state player_id == 0)
          then subjects state hand player player_id
          else []
    ]
  ]
]

unfoldable pub is_legal_consult : MatchState → ConsultPartnerAction → Bool
is_legal_consult state action =
    any (λ legal. same_subject legal action.about)
      (get_legal_consult_actions state action.player_id)

unfoldable pub asked : HandState → Player → String → HandState
asked hand player player_id = record hand {
  senas_sent = count_send hand.senas_sent player_id player;
}

unfoldable pub apply_consult_action : MatchState → ConsultPartnerAction → SenaResult
apply_consult_action state action =
    if is_legal_consult state action
    then elim state.hand [
      | none ↦ thrown
      | some hand ↦ elim (find_player state.players action.player_id) [
        | none ↦ thrown
        | some player ↦ ok (record state { hand = some (asked hand player action.player_id) })
      ]
    ]
    else violation
