-- ===== src/Truco/State.antt =====
-- match.ts: the match, the hand and the events of a hand. A response is true for `quiero`.
use convite.Prelude.{
  ℕ, ◌+◌, ◌%◌, leb, Bool, String, List, [], ◌∷◌, Option, none, some, find, get_elem?, length,
}
use convite.Deck.{Card}

pub data SenaSignal : Type 0 where
  as_de_espada as_de_basto siete_de_espada siete_de_oro tres dos : SenaSignal

pub record Team : Type 0 where
  pub id : String
  pub player_ids : List String
  pub score : ℕ

pub record Player : Type 0 where
  pub id : String
  pub team_id : String
  pub seat : ℕ
  pub hand : List Card

pub data TrucoCallLevel : Type 0 where
  truco retruco vale_cuatro : TrucoCallLevel

pub data TrucoState : Type 0 where
  not_called : TrucoState
  pending accepted : TrucoCallLevel → String → TrucoState
  declined : TrucoCallLevel → String → String → TrucoState

pub data EnvidoCallLevel : Type 0 where
  envido envido_envido real_envido falta_envido : EnvidoCallLevel

pub data EnvidoDeclaration : Type 0 where
  points_said : String → String → ℕ → Option ℕ → EnvidoDeclaration
  son_buenas : String → String → ℕ → EnvidoDeclaration

pub data EnvidoState : Type 0 where
  no_envido : EnvidoState
  envido_pending : List EnvidoCallLevel → String → EnvidoState
  envido_accepted : List EnvidoCallLevel → String → ℕ → List EnvidoDeclaration → EnvidoState
  envido_declined : List EnvidoCallLevel → String → String → EnvidoState
  envido_revealed : List EnvidoCallLevel → String → ℕ → List EnvidoDeclaration → EnvidoState

pub record SenaEvent : Type 0 where
  pub player_id : String
  pub team_id : String
  pub signal : SenaSignal
  pub seq : ℕ

pub record SenaSendCount : Type 0 where
  pub player_id : String
  pub count : ℕ

pub record HandPlay : Type 0 where
  pub player_id : String
  pub team_id : String
  pub seat : ℕ
  pub card : Card

-- Who said it, with the team and the seat, and what was said.
pub data CallEvent : Type 0 where
  truco_call : String → String → ℕ → TrucoCallLevel → CallEvent
  truco_response : String → String → ℕ → Bool → CallEvent
  envido_call : String → String → ℕ → EnvidoCallLevel → CallEvent
  envido_response : String → String → ℕ → Bool → CallEvent
  envido_declaration : String → String → ℕ → Bool → CallEvent

-- `none` is a parda.
abbrev pub TrickOutcome : Type 0
TrickOutcome = Option String

pub data HandOutcome : Type 0 where
  undecided : HandOutcome
  decided : String → HandOutcome

pub record HandState : Type 0 where
  pub mano_seat : ℕ
  pub truco_state : TrucoState
  pub envido_state : EnvidoState
  pub turn_seat : ℕ
  pub current_trick_plays : List HandPlay
  pub trick_outcomes : List TrickOutcome
  pub outcome : HandOutcome
  pub senas : List SenaEvent
  pub senas_sent : List SenaSendCount
  pub resolved_trick_plays : List (List HandPlay)
  pub call_events : List CallEvent

pub record MatchState : Type 0 where
  pub points_to_win : ℕ
  pub teams : List Team
  pub players : List Player
  pub dealer_seat : ℕ
  pub hand : Option HandState

abbrev pub mano_seat_for : ℕ → ℕ → ℕ
mano_seat_for dealer_seat player_count = (dealer_seat + 1) % player_count

unfoldable pub get_match_winner : MatchState → Option String
get_match_winner state = elim (find (λ t. leb state.points_to_win t.score) state.teams) [
  | none ↦ none
  | some team ↦ some team.id
]

unfoldable pub rotate_dealer : MatchState → MatchState
rotate_dealer state = record state { dealer_seat = (state.dealer_seat + 1) % length state.players }

abbrev pub deal_to : Option Player → Option (List Player) → Option (List Player)
deal_to (some p) (some ps) = some (p ∷ ps)
deal_to none _ = none
deal_to (some p) none = none

-- A seat without a hand is an exception in the source, and no result here.
unfoldable pub deal_players : List (List Card) → List Player → Option (List Player)
deal_players deal [] = some []
deal_players deal (p ∷ ps) =
    deal_to
      (elim (get_elem? deal p.seat) [ none ↦ none | some hand ↦ some (record p { hand = hand }) ])
      (deal_players deal ps)

unfoldable pub start_hand : MatchState → List (List Card) → Option MatchState
start_hand state deal =
    let mano_seat = mano_seat_for state.dealer_seat (length state.players) in
    elim (deal_players deal state.players) [
      | none ↦ none
      | some players ↦ some (record state {
        players = players;
        hand = some (record {
          mano_seat = mano_seat;
          truco_state = not_called;
          envido_state = no_envido;
          turn_seat = mano_seat;
          current_trick_plays = [];
          trick_outcomes = [];
          outcome = undecided;
          senas = [];
          senas_sent = [];
          resolved_trick_plays = [];
          call_events = [];
        });
      })
    ]
