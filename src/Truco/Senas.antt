-- ===== src/Truco/Senas.antt =====
-- senas.ts: the signals between partners and what is left of a player's quota.
use convite.Prelude.{
  ℕ, ◌+◌, ◌-◌, ◌==◌, max, Bool, true, false, ◌&&◌, not, String, List, [], ◌∷◌, ◌++◌, Option, none,
  some, if◌then◌else◌, any, find, filter, same_id,
}
use convite.Truco.State.{
  SenaSignal, as_de_espada, as_de_basto, siete_de_espada, siete_de_oro, tres, dos, Player,
  SenaEvent, SenaSendCount, HandState, MatchState,
}
use convite.Truco.Chain.{find_player, is_decided}

pub record SendSenaAction : Type 0 where
  pub player_id : String
  pub signal : SenaSignal

pub data SenaResult : Type 0 where
  ok : MatchState → SenaResult
  violation thrown : SenaResult

abbrev pub sena_signals : List SenaSignal
sena_signals = as_de_espada ∷ as_de_basto ∷ siete_de_espada ∷ siete_de_oro ∷ tres ∷ dos ∷ []

abbrev pub max_senas_per_hand : ℕ
max_senas_per_hand = 3

abbrev pub same_signal : SenaSignal → SenaSignal → Bool
same_signal as_de_espada as_de_espada = true
same_signal as_de_basto as_de_basto = true
same_signal siete_de_espada siete_de_espada = true
same_signal siete_de_oro siete_de_oro = true
same_signal tres tres = true
same_signal dos dos = true
same_signal _ _ = false

unfoldable pub has_teammate : MatchState → Player → Bool
has_teammate state player =
    any (λ other. not (same_id other.id player.id) && same_id other.team_id player.team_id)
      state.players

abbrev pub count_or_zero : Option SenaSendCount → ℕ
count_or_zero none = 0
count_or_zero (some entry) = entry.count

unfoldable pub senas_sent_by : List SenaSendCount → String → ℕ
senas_sent_by sent player_id = count_or_zero (find (λ e. same_id e.player_id player_id) sent)

-- `Math.max(0, MAX_SENAS_PER_HAND - ...)`
unfoldable pub get_senas_remaining : MatchState → String → ℕ
get_senas_remaining state player_id = elim state.hand [
  | none ↦ max_senas_per_hand
  | some hand ↦ max_senas_per_hand - senas_sent_by hand.senas_sent player_id
]

unfoldable pub get_legal_sena_actions : MatchState → String → List SenaSignal
get_legal_sena_actions state player_id = elim state.hand [
  | none ↦ []
  | some hand ↦ if is_decided hand.outcome then [] else elim (find_player state.players player_id) [
    | none ↦ []
    | some player ↦
        if has_teammate state player && not (get_senas_remaining state player_id == 0)
        then sena_signals
        else []
  ]
]

unfoldable pub is_legal_sena : MatchState → SendSenaAction → Bool
is_legal_sena state action =
    any (λ legal. same_signal legal action.signal) (get_legal_sena_actions state action.player_id)

unfoldable pub highest_seq : List SenaEvent → ℕ
highest_seq [] = 0
highest_seq (e ∷ senas) = max e.seq (highest_seq senas)

-- One more send: the earlier entry of the sender goes, the new one is last.
unfoldable pub count_send : List SenaSendCount → String → Player → List SenaSendCount
count_send sent player_id player =
    filter (λ e. not (same_id e.player_id player_id)) sent
    ++ record { player_id = player.id; count = senas_sent_by sent player.id + 1 } ∷ []

unfoldable pub signalled : HandState → Player → SendSenaAction → HandState
signalled hand player action = record hand {
  senas =
      filter (λ e. not (same_id e.player_id action.player_id)) hand.senas
      ++ record {
        player_id = player.id;
        team_id = player.team_id;
        signal = action.signal;
        seq = highest_seq hand.senas + 1;
      }
        ∷ [];
  senas_sent = count_send hand.senas_sent action.player_id player;
}

unfoldable pub apply_sena_action : MatchState → SendSenaAction → SenaResult
apply_sena_action state action =
    if is_legal_sena state action
    then elim state.hand [
      | none ↦ thrown
      | some hand ↦ elim (find_player state.players action.player_id) [
        | none ↦ thrown
        | some player ↦ ok (record state { hand = some (signalled hand player action) })
      ]
    ]
    else violation
