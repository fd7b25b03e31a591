-- ===== src/Truco/EnvidoTests.antt =====
-- Runs of the envido and of the signals at a concrete hand.
use convite.Prelude.{
  ◌+◌, max, ◌<◌, ◌≤◌, ◌≡◌, ◌⊎◌, ap, refl, false, true, List, [], ◌∷◌, none, some, arith, map,
  length,
}
use convite.Deck.{card, r7, r6, r3, r4, oro, copa, espada, basto}
use convite.Truco.State.{
  Player, not_called, undecided, envido, EnvidoDeclaration, points_said, envido_pending,
  envido_accepted, envido_response, HandState, MatchState, as_de_espada,
}
use convite.Truco.Chain.{find_player}
use convite.Truco.Senas.{
  SendSenaAction, has_teammate, senas_sent_by, get_senas_remaining, get_legal_sena_actions,
  is_legal_sena, highest_seq, count_send, signalled, apply_sena_action,
}
use convite.Truco.Envido.{
  respond_envido, EnvidoAction, ok, violation, sum_value, leading_score, highest_weight,
  escalations, Said, best_declaration, envido_moves, get_legal_envido_actions, is_legal_envido,
  dealt_cards_for,
}
use convite.Truco.Declaring.{
  ends_in_falta, accepted_value, with_envido, answer_envido, entry_of, rotation_from,
  make_envido_move, apply_envido_action, resolve_envido_declarations,
}
use convite.Truco.Engine.{envido_action, from_envido, send_sena, Applied, apply_action}
use convite.Truco.Spending.{apply_action-spends}
use convite.Truco.Allowance.{spends}
use convite.Truco.EnvidoSteps.{Stepped}
use convite.Truco.EnvidoPlays.{apply_envido_action-Stepped}
use convite.Truco.Rounds.{envido_position, Run, stay, step, Run-envido}
use convite.Truco.EnvidoValues.{opened-IsRising}
use convite.Truco.EnvidoRuns.{IsSound, apply_envido_action-runs}
use convite.Truco.BestSaid.{
  IsFirstBest, last_said, best_declaration-IsFirstBest, resolve_envido_declarations-best,
}
use convite.Truco.View.{get_view_for}
use convite.Truco.Secrets.{get_view_for-redact_only}
use convite.Truco.Redacted.{redact, blank, hushed, is_on_team}

abbrev hand : HandState
hand = record {
  mano_seat = 1;
  truco_state = not_called;
  envido_state = envido_pending (envido ∷ []) "B";
  turn_seat = 1;
  current_trick_plays = [];
  trick_outcomes = [];
  outcome = undecided;
  senas = [];
  senas_sent = [];
  resolved_trick_plays = [];
  call_events = [];
}

abbrev ana : Player
ana = record {
  id = "ana";
  team_id = "A";
  seat = 0;
  hand = card r7 oro ∷ card r6 oro ∷ card r3 copa ∷ [];
}

abbrev beto : Player
beto = record {
  id = "beto";
  team_id = "B";
  seat = 1;
  hand = card r4 copa ∷ card r7 espada ∷ card r3 basto ∷ [];
}

abbrev called : MatchState
called = record {
  points_to_win = 15;
  teams =
      record { id = "A"; player_ids = "ana" ∷ []; score = 4 }
      ∷ record { id = "B"; player_ids = "beto" ∷ []; score = 6 }
      ∷ [];
  players = ana ∷ beto ∷ [];
  dealer_seat = 0;
  hand = some hand;
}

abbrev quiero : EnvidoAction
quiero = record { player_id = "ana"; move = respond_envido true }

abbrev accepted_state : MatchState
accepted_state = record called {
  hand = some (record hand {
    envido_state = envido_accepted (envido ∷ []) "B" 2 [];
    call_events = envido_response "ana" "A" 0 true ∷ [];
  });
}

accepting : apply_envido_action called quiero ≡ ok accepted_state
unfolding apply_envido_action is_legal_envido get_legal_envido_actions envido_moves escalations
    highest_weight find_player make_envido_move answer_envido accepted_value ends_in_falta sum_value
    with_envido
accepting = refl

apply_envido_action-Stepped_example :
    (p : Player) × (find_player called.players "ana" ≡ some p)
    × (undecided ≡ undecided)
    × Stepped (envido_pending (envido ∷ []) "B") called hand p (respond_envido true) accepted_state
apply_envido_action-Stepped_example =
    apply_envido_action-Stepped called accepted_state hand quiero refl accepting

one_answer : Run 0 1 called accepted_state
unfolding apply_action
one_answer = step (envido_action quiero) (ap from_envido accepting) stay

Run-envido_example : 1 + envido_position 2 (envido_pending (envido ∷ []) "B") ≤ 6 + 2
Run-envido_example = Run-envido hand refl one_answer

leading : leading_score called.teams ≡ some 6
unfolding leading_score
leading = refl

sound : IsSound 15 (envido_pending (envido ∷ []) "B")
unfolding IsSound
sound = opened-IsRising

apply_envido_action-runs_example :
    (is_legal_envido called quiero ≡ false) × (apply_envido_action called quiero ≡ violation)
    ⊎ (is_legal_envido called quiero ≡ true)
      × (t : MatchState) × (h' : HandState) × (apply_envido_action called quiero ≡ ok t)
      × (t.hand ≡ some h')
      × IsSound 15 h'.envido_state
apply_envido_action-runs_example =
    apply_envido_action-runs called hand quiero 6 refl leading (omega arith) sound

abbrev round : List EnvidoDeclaration
round = points_said "beto" "B" 1 (some 7) ∷ points_said "ana" "A" 0 (some 33) ∷ []

abbrev ana_said : Said
ana_said = record { team_id = "A"; points = some 33 }

ana_is_best : best_declaration none round ≡ some ana_said
unfolding best_declaration
ana_is_best = refl

best_declaration-IsFirstBest_example : IsFirstBest ana_said round
best_declaration-IsFirstBest_example = best_declaration-IsFirstBest round ana_said ana_is_best

turns : rotation_from called.players 2 1 2 ≡ some (beto ∷ ana ∷ [])
unfolding rotation_from
turns = refl

cards : (0 < length (dealt_cards_for hand beto)) × (0 < length (dealt_cards_for hand ana))
unfolding dealt_cards_for
cards = (omega arith, omega arith)

resolve_envido_declarations-best_example :
    (said : List EnvidoDeclaration) × (resolve_envido_declarations called 1 ≡ some said)
    × (last_said none said
        ≡ best_declaration none (map (λ p. entry_of hand p true) (beto ∷ ana ∷ [])))
resolve_envido_declarations-best_example =
    resolve_envido_declarations-best called hand 1 (beto ∷ ana ∷ []) refl turns
      (cards.0, (cards.1, tt))

abbrev carla : Player
carla = record { id = "carla"; team_id = "A"; seat = 2; hand = [] }

abbrev in_pairs : MatchState
in_pairs = record called { players = ana ∷ beto ∷ carla ∷ [] }

abbrev signal : SendSenaAction
signal = record { player_id = "carla"; signal = as_de_espada }

abbrev after_signal : MatchState
after_signal = record in_pairs {
  hand = some (record hand {
    senas = record { player_id = "carla"; team_id = "A"; signal = as_de_espada; seq = 1 } ∷ [];
    senas_sent = record { player_id = "carla"; count = 1 } ∷ [];
  });
}

signalling : apply_action in_pairs (send_sena signal) ≡ Applied.ok after_signal
unfolding apply_action apply_sena_action is_legal_sena get_legal_sena_actions get_senas_remaining
    senas_sent_by has_teammate find_player signalled highest_seq count_send
signalling = refl

apply_action-spends_example :
    (h' : HandState) × (after_signal.hand ≡ some h')
    × (senas_sent_by h'.senas_sent "carla"
        ≡ senas_sent_by [] "carla" + spends (send_sena signal) "carla")
    × (senas_sent_by h'.senas_sent "carla" ≤ max 3 (senas_sent_by [] "carla"))
apply_action-spends_example =
    apply_action-spends in_pairs after_signal hand (send_sena signal) "carla" refl signalling

abbrev other_cards : MatchState
other_cards = record in_pairs {
  players =
      ana ∷ record beto { hand = card r3 espada ∷ card r3 copa ∷ card r7 basto ∷ [] } ∷ carla ∷ [];
  hand = some (record hand {
    senas = record { player_id = "beto"; team_id = "B"; signal = as_de_espada; seq = 1 } ∷ [];
    senas_sent = record { player_id = "beto"; count = 2 } ∷ [];
  });
}

same_to_ana : redact "ana" in_pairs ≡ redact "ana" other_cards
unfolding redact blank hushed is_on_team find_player
same_to_ana = refl

get_view_for-redact_only_example : get_view_for in_pairs "ana" ≡ get_view_for other_cards "ana"
get_view_for-redact_only_example = get_view_for-redact_only in_pairs other_cards "ana" same_to_ana
