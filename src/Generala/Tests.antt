-- ===== src/Generala/Tests.antt =====
-- Runs of Generala at concrete matches.
use convite.Prelude.{
  ℕ, ◌+◌, ◌*◌, ◌≤◌, ◌<◌, ◌≡◌, ◌⊎◌, refl, inl, true, String, List, [], ◌∷◌, none, some, length,
  arith, get_elem?, any, ◌==◌,
}
use convite.Generala.State.{
  CategoryId, sixes, generala, generala_doble, Scorecard, MatchState, awaiting_roll, deciding, ok,
  create_match, empty_scorecard, write_box, is_seated, is_face, empty_slots,
}
use convite.Generala.Scoring.{score_for, is_generala, counts}
use convite.Generala.Moves.{score, keep_sets, walk_keeps, may_write, top_open, get_legal_actions}
use convite.Generala.Play.{
  same_keep, hold_turn, apply_hold, score_turn, apply_score, apply_player_action, after_score,
  roll_turn, apply_roll, landed, splice, count_empty, kept_slots,
}
use convite.Generala.Outcome.{total_for, worth, is_card_full}
use convite.Generala.Valid.{IsValid, apply_player_action-Keeps, apply_roll-Keeps, Keeps}
use convite.Generala.Valid.{IsValid, Keeps, apply_player_action-Keeps, apply_roll-Keeps}
use convite.Generala.Offers.{
  is_ok, is_offered, actor, is_ok-apply_player_action, deciding_never_stuck,
}
use convite.Generala.Progress.{Run, stay, step, played, rolled, Run-bounded}
use convite.Generala.Totals.{Run-total_for, Run-Holds, Holds}
use convite.Generala.Holding.{hold-roll, kept}
use convite.Generala.Winners.{Standing, get_outcome-Standing}
use convite.Generala.Scoring.{row_value, holds, some_face_shows, face_total}
use convite.Generala.Moves.{is_box}

abbrev opening : MatchState
opening = record {
  players = "ana" ∷ "beto" ∷ [];
  cards = empty_scorecard ∷ empty_scorecard ∷ [];
  turn = awaiting_roll 0 0 empty_slots;
}

abbrev throw : List ℕ
throw = 6 ∷ 6 ∷ 6 ∷ 2 ∷ 1 ∷ []

abbrev thrown_once : MatchState
thrown_once = record opening { turn = deciding 0 1 throw }

abbrev after_sixes : MatchState
after_sixes = record {
  players = "ana" ∷ "beto" ∷ [];
  cards = write_box empty_scorecard sixes 18 ∷ empty_scorecard ∷ [];
  turn = awaiting_roll 1 0 empty_slots;
}

abbrev keeping : MatchState
keeping = record opening { turn = awaiting_roll 0 1 (some 6 ∷ some 6 ∷ some 6 ∷ none ∷ none ∷ []) }

abbrev thrown_twice : MatchState
thrown_twice = record opening { turn = deciding 0 2 (6 ∷ 6 ∷ 6 ∷ 6 ∷ 3 ∷ []) }

abbrev full_card : Scorecard
full_card category = some 7

abbrev poor_card : Scorecard
poor_card category = some 0

abbrev finished : MatchState
finished = record opening { cards = full_card ∷ poor_card ∷ [] }

opening-IsValid : IsValid opening
opening-IsValid = record {
  seated = omega arith;
  dealt = refl;
  turn_valid = (omega arith, omega arith, refl, (tt, (tt, (tt, (tt, (tt, tt))))));
}

thrown_once-IsValid : IsValid thrown_once
unfolding is_face is_generala some_face_shows counts
thrown_once-IsValid = record {
  seated = omega arith;
  dealt = refl;
  turn_valid = (
    omega arith,
    omega arith,
    omega arith,
    refl,
    (refl, (refl, (refl, (refl, (refl, tt))))),
    inl refl,
  );
}

finished-IsValid : IsValid finished
finished-IsValid = record {
  seated = omega arith;
  dealt = refl;
  turn_valid = opening-IsValid.turn_valid;
}

first_throw : apply_roll opening throw ≡ ok thrown_once
unfolding apply_roll roll_turn count_empty splice landed is_face is_generala some_face_shows counts
first_throw = refl

writing : apply_player_action thrown_once (score "ana" sixes) ≡ ok after_sixes
unfolding apply_player_action apply_score score_turn after_score is_seated may_write score_for
    row_value holds some_face_shows face_total counts is_box empty_scorecard
writing = refl

holding : apply_hold thrown_once "ana" (0 ∷ 1 ∷ 2 ∷ []) ≡ ok keeping
unfolding apply_hold hold_turn is_seated kept_slots keep_sets walk_keeps same_keep
holding = refl

second_throw : apply_roll keeping (6 ∷ 3 ∷ []) ≡ ok thrown_twice
unfolding apply_roll roll_turn count_empty splice landed is_face is_generala some_face_shows counts
second_throw = refl

two_steps : Run 2 opening after_sixes
two_steps = step (rolled throw first_throw) (step (played (score "ana" sixes) writing) stay)

is_ok-apply_player_action_example :
    is_ok (apply_player_action thrown_once (score "ana" sixes))
    ≡ is_offered (score "ana" sixes) (get_legal_actions thrown_once (actor (score "ana" sixes)))
is_ok-apply_player_action_example =
    is_ok-apply_player_action thrown_once (score "ana" sixes) thrown_once-IsValid

apply_player_action-Keeps_example : Keeps (apply_player_action thrown_once (score "ana" sixes))
apply_player_action-Keeps_example =
    apply_player_action-Keeps thrown_once (score "ana" sixes) thrown_once-IsValid

apply_roll-Keeps_example : Keeps (apply_roll opening throw)
apply_roll-Keeps_example = apply_roll-Keeps opening throw opening-IsValid

Run-bounded_example : (2 ≤ 66 * length {A = String} ("ana" ∷ "beto" ∷ []) + 6) × IsValid after_sixes
unfolding create_match
Run-bounded_example =
    Run-bounded "ana" ("beto" ∷ []) 2 {s = opening} {t = after_sixes} refl two_steps

Run-total_for_example :
    (total_for (write_box empty_scorecard sixes 18) ≤ 360)
    × ((worth (write_box empty_scorecard sixes 18 generala_doble) ≡ 0)
        ⊎ (0 < worth (write_box empty_scorecard sixes 18 generala)))
unfolding create_match
Run-total_for_example =
    Run-total_for "ana" ("beto" ∷ []) 2 0 {s = opening} {t = after_sixes}
      {card = write_box empty_scorecard sixes 18} refl two_steps refl

abbrev throw_for_beto : MatchState
throw_for_beto = record after_sixes { turn = deciding 1 1 throw }

beto_throws : apply_roll after_sixes throw ≡ ok throw_for_beto
unfolding apply_roll roll_turn count_empty splice landed is_face is_generala some_face_shows counts
beto_throws = refl

after_sixes-IsValid : IsValid after_sixes
after_sixes-IsValid = record {
  seated = omega arith;
  dealt = refl;
  turn_valid = (omega arith, omega arith, refl, (tt, (tt, (tt, (tt, (tt, tt))))));
}

sixes_written : Holds after_sixes 0 sixes 18
unfolding write_box
sixes_written = (write_box empty_scorecard sixes 18, refl, refl)

Run-Holds_example : Holds throw_for_beto 0 sixes 18
Run-Holds_example =
    Run-Holds 0 sixes 18 1 {s = after_sixes} {t = throw_for_beto} after_sixes-IsValid
      (step (rolled throw beto_throws) stay) sixes_written

hold-roll_example :
    (dice' : List ℕ) × (thrown_twice.turn ≡ deciding 0 (1 + 1) dice')
    × (length {A = ℕ} (6 ∷ 3 ∷ []) + kept 0 (0 ∷ 1 ∷ 2 ∷ []) throw ≡ 5)
    × ((j d : ℕ)
        → get_elem? throw j ≡ some d
        → any (λ k. k == j) (0 ∷ 1 ∷ 2 ∷ []) ≡ true
        → get_elem? dice' j ≡ some d)
hold-roll_example =
    hold-roll thrown_once keeping thrown_twice 0 1 throw (0 ∷ 1 ∷ 2 ∷ []) (6 ∷ 3 ∷ []) "ana"
      thrown_once-IsValid refl holding second_throw

get_outcome-Standing_example : Standing finished
get_outcome-Standing_example = get_outcome-Standing finished finished-IsValid

deciding_never_stuck_example :
    (c : CategoryId) × (top_open empty_scorecard ≡ some c)
    × (apply_player_action thrown_once (score "ana" c)
        ≡ ok (after_score thrown_once 0 1 throw empty_scorecard c))
unfolding is_card_full empty_scorecard
deciding_never_stuck_example =
    deciding_never_stuck thrown_once 0 1 throw "ana" empty_scorecard refl refl refl refl
