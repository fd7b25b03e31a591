-- ===== src/Truco/View.antt =====
-- view.ts of packages/games/truco-engine/src: what the table shows to a seat.
use convite.Prelude.{
  ℕ, String, List, [], ◌∷◌, Option, none, some, find, map, same_id, length, if◌then◌else◌,
}
use convite.Deck.{Card}
use convite.Truco.State.{
  SenaSignal, Player, TrucoState, EnvidoState, SenaEvent, HandPlay, CallEvent, TrickOutcome,
  HandOutcome, HandState, MatchState,
}
use convite.Truco.Chain.{find_player}
use convite.Truco.Senas.{get_senas_remaining}

pub record SenaView : Type 0 where
  pub signal : SenaSignal
  pub seq : ℕ

pub record OpponentView : Type 0 where
  pub player_id : String
  pub team_id : String
  pub seat : ℕ
  pub cards_remaining : ℕ

pub record TeammateView : Type 0 where
  pub player_id : String
  pub seat : ℕ
  pub cards_remaining : ℕ
  pub last_sena : Option SenaView

pub record HandView : Type 0 where
  pub mano_seat : ℕ
  pub truco_state : TrucoState
  pub envido_state : EnvidoState
  pub turn_seat : ℕ
  pub current_trick_plays : List HandPlay
  pub resolved_trick_plays : List (List HandPlay)
  pub call_events : List CallEvent
  pub trick_outcomes : List TrickOutcome
  pub outcome : HandOutcome

pub record SelfView : Type 0 where
  pub player_id : String
  pub team_id : String
  pub seat : ℕ
  pub hand : List Card
  pub last_sena : Option SenaView
  pub senas_remaining : ℕ

pub record TeamView : Type 0 where
  pub id : String
  pub score : ℕ

pub record PlayerView : Type 0 where
  pub self : SelfView
  pub teammates : List TeammateView
  pub opponents : List OpponentView
  pub teams : List TeamView
  pub hand : Option HandView
  pub points_to_win : ℕ
  pub dealer_seat : ℕ

abbrev pub sena_view : Option SenaEvent → Option SenaView
sena_view none = none
sena_view (some entry) = some (record { signal = entry.signal; seq = entry.seq })

abbrev pub senas_of : Option HandState → List SenaEvent
senas_of none = []
senas_of (some hand) = hand.senas

unfoldable pub last_sena_in : List SenaEvent → String → Option SenaView
last_sena_in senas player_id = sena_view (find (λ e. same_id e.player_id player_id) senas)

unfoldable pub last_sena_for : MatchState → String → Option SenaView
last_sena_for state player_id = last_sena_in (senas_of state.hand) player_id

-- The loop over the players, for each of the two lists.
unfoldable pub teammates_of : List SenaEvent → Player → List Player → List TeammateView
teammates_of senas self [] = []
teammates_of senas self (player ∷ players) =
    let rest = teammates_of senas self players in
    if same_id player.id self.id
    then rest
    else (if same_id player.team_id self.team_id
        then record {
          player_id = player.id;
          seat = player.seat;
          cards_remaining = length player.hand;
          last_sena = last_sena_in senas player.id;
        }
          ∷ rest
        else rest)

unfoldable pub opponents_of : Player → List Player → List OpponentView
opponents_of self [] = []
opponents_of self (player ∷ players) =
    let rest = opponents_of self players in
    if same_id player.id self.id
    then rest
    else (if same_id player.team_id self.team_id
        then rest
        else record {
          player_id = player.id;
          team_id = player.team_id;
          seat = player.seat;
          cards_remaining = length player.hand;
        }
          ∷ rest)

abbrev pub hand_view : HandState → HandView
hand_view hand = record {
  mano_seat = hand.mano_seat;
  truco_state = hand.truco_state;
  envido_state = hand.envido_state;
  turn_seat = hand.turn_seat;
  current_trick_plays = hand.current_trick_plays;
  resolved_trick_plays = hand.resolved_trick_plays;
  call_events = hand.call_events;
  trick_outcomes = hand.trick_outcomes;
  outcome = hand.outcome;
}

abbrev pub option_hand_view : Option HandState → Option HandView
option_hand_view none = none
option_hand_view (some hand) = some (hand_view hand)

unfoldable pub view_of : MatchState → Player → PlayerView
view_of state self = record {
  self = record {
    player_id = self.id;
    team_id = self.team_id;
    seat = self.seat;
    hand = self.hand;
    last_sena = last_sena_for state self.id;
    senas_remaining = get_senas_remaining state self.id;
  };
  teammates = teammates_of (senas_of state.hand) self state.players;
  opponents = opponents_of self state.players;
  teams = map (λ team. record { id = team.id; score = team.score }) state.teams;
  hand = option_hand_view state.hand;
  points_to_win = state.points_to_win;
  dealer_seat = state.dealer_seat;
}

-- An unknown player is an exception, and no result here.
unfoldable pub get_view_for : MatchState → String → Option PlayerView
get_view_for state player_id = elim (find_player state.players player_id) [
  | none ↦ none
  | some self ↦ some (view_of state self)
]
