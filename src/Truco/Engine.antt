-- ===== src/Truco/Engine.antt =====
-- getLegalActions and applyAction of truco-chain.ts: the five kinds of actions of a match together.
use convite.Prelude.{String, List, [], ◌++◌, map, none, some}
use convite.Truco.State.{MatchState, get_match_winner}
use convite.Truco.Chain.{TrucoAction, ApplyResult, get_legal_truco_actions, apply_truco_action}
use convite.Truco.CardPlay.{
  PlayCardAction, PlayResult, get_legal_card_play_actions, apply_card_play_action,
}
use convite.Truco.Envido.{EnvidoAction, EnvidoResult, get_legal_envido_actions}
use convite.Truco.Declaring.{apply_envido_action}
use convite.Truco.Senas.{SendSenaAction, SenaResult, get_legal_sena_actions, apply_sena_action}
use convite.Truco.Consult.{ConsultPartnerAction, get_legal_consult_actions, apply_consult_action}

pub data Action : Type 0 where
  truco_action : TrucoAction → Action
  envido_action : EnvidoAction → Action
  play_card : PlayCardAction → Action
  send_sena : SendSenaAction → Action
  consult_partner : ConsultPartnerAction → Action

pub data Applied : Type 0 where
  ok : MatchState → Applied
  violation thrown out_of_range : Applied

abbrev pub from_truco : ApplyResult → Applied
from_truco (ApplyResult.ok next) = ok next
from_truco ApplyResult.violation = violation

abbrev pub from_play : PlayResult → Applied
from_play (PlayResult.ok next) = ok next
from_play PlayResult.violation = violation
from_play PlayResult.thrown = thrown

abbrev pub from_envido : EnvidoResult → Applied
from_envido (EnvidoResult.ok next) = ok next
from_envido EnvidoResult.violation = violation
from_envido EnvidoResult.thrown = thrown
from_envido EnvidoResult.out_of_range = out_of_range

abbrev pub from_sena : SenaResult → Applied
from_sena (SenaResult.ok next) = ok next
from_sena SenaResult.violation = violation
from_sena SenaResult.thrown = thrown

unfoldable pub get_legal_actions : MatchState → String → List Action
get_legal_actions state player_id = elim (get_match_winner state) [
  | some team ↦ []
  | none ↦
      map (λ m. truco_action (record { player_id = player_id; move = m }))
        (get_legal_truco_actions state player_id)
      ++ (map (λ m. envido_action (record { player_id = player_id; move = m }))
            (get_legal_envido_actions state player_id)
          ++ (map (λ c. play_card (record { player_id = player_id; card = c }))
                (get_legal_card_play_actions state player_id)
              ++ (map (λ x. send_sena (record { player_id = player_id; signal = x }))
                    (get_legal_sena_actions state player_id)
                  ++ map (λ x. consult_partner (record { player_id = player_id; about = x }))
                      (get_legal_consult_actions state player_id))))
]

unfoldable pub apply_action : MatchState → Action → Applied
apply_action state (truco_action action) = from_truco (apply_truco_action state action)
apply_action state (play_card action) = from_play (apply_card_play_action state action)
apply_action state (send_sena action) = from_sena (apply_sena_action state action)
apply_action state (consult_partner action) = from_sena (apply_consult_action state action)
apply_action state (envido_action action) = from_envido (apply_envido_action state action)
