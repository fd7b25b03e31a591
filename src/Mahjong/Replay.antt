-- ===== src/Mahjong/Replay.antt =====
-- About applyAction of module.ts: the pairs of a deal as removals of a match.
use convite.Prelude.{
  ℕ, zero, suc, ◌<◌, ◌≡◌, ◌≢◌, refl, ◌∙◌, inl, inr, ◌==◌, true, false, ltb, ltb→lt, Bool-cases,
  String, List, [], ◌∷◌, Option, none, some, every, length, get_elem?, set, arith,
}
use convite.Mahjong.Layout.{Position}
use convite.Mahjong.Board.{
  MatchState, RemovePairAction, is_none, key_at, occupied_from, get_legal_actions, get_outcome,
}
use convite.Mahjong.Solitaire.{
  SolitaireMatchState, remove_pair, SolitaireResult, ok, violation, thrown, cleared, outcome_of,
  is_offered, apply_removal, apply_open, apply_action,
}
use convite.Mahjong.Deal.{SolutionStep, Taken, step_of}
use convite.Mahjong.Occupied.{get_elem?-set_other}
use convite.Mahjong.Offered.{offers, IsReady, offers-get_legal_actions}
use convite.Mahjong.Dealt.{IsTakable}
use convite.Mahjong.Filled.{taken_off}

-- A match that is being played, with these tiles.
abbrev pub playing : String → List (Option String) → SolitaireMatchState
playing player_id tiles = record {
  player_id = player_id;
  board = some (record { player_id = player_id; tiles = tiles });
  abandoned = false;
}

abbrev next_state : SolitaireResult → Option SolitaireMatchState
next_state (ok state) = some state
next_state (violation code) = none
next_state thrown = none

-- The match after the pairs are removed in this order, if every one of them is accepted.
unfoldable pub replay :
    List Position → SolitaireMatchState → List SolutionStep → Option SolitaireMatchState
replay layout state [] = some state
replay layout state (step ∷ steps) =
    elim (next_state (
      apply_action layout state
        (remove_pair (record { player_id = state.player_id; a = step.a; b = step.b })))) [
          | none ↦ none
          | some next ↦ replay layout next steps
        ]

offers-length :
    (a b : ℕ) (actions : List RemovePairAction)
    → offers a b actions ≡ true
    → (length actions == 0) ≡ false
offers-length a b [] e = cc
offers-length a b (x ∷ actions) e = ground arith

not-every :
    (i : ℕ) (tiles : List (Option String)) (id : String)
    → get_elem? tiles i ≡ some (some id)
    → every is_none tiles ≡ false
not-every i [] id e = cc
not-every zero (none ∷ tiles) id e = cc
not-every zero (some x ∷ tiles) id e = refl
not-every (suc i) (none ∷ tiles) id e = not-every i tiles id e
not-every (suc i) (some x ∷ tiles) id e = refl

-- A pair that is offered is taken off the board.
pub removed :
    (layout : List Position) (player_id : String) (tiles : List (Option String))
    (step : SolutionStep) (id : String)
    → get_elem? tiles step.a ≡ some (some id)
    → offers step.a step.b
        (get_legal_actions layout (record { player_id = player_id; tiles = tiles }) player_id)
      ≡ true
    → apply_action layout
        (playing player_id tiles)
        (remove_pair (record { player_id = player_id; a = step.a; b = step.b }))
      ≡ ok (playing player_id (taken_off step tiles))
unfolding apply_action outcome_of get_outcome apply_open apply_removal is_offered cleared
removed layout player_id tiles step id e offered =
    let some_left = not-every step.a tiles id e in
    let some_action =
      offers-length step.a step.b
        (get_legal_actions layout (record { player_id = player_id; tiles = tiles }) player_id)
        offered in
    rw
      (
        apply_action, outcome_of, get_outcome, some_left, some_action, apply_open, apply_removal,
        is_offered, offered,
      )
      refl

pub step_offered :
    (layout : List Position) (board : MatchState) (key : String) (taken : Taken)
    → IsTakable layout (occupied_from 0 board.tiles) taken
    → key_at (get_elem? board.tiles taken.first) ≡ some key
    → key_at (get_elem? board.tiles taken.second) ≡ some key
    → offers (step_of taken).a (step_of taken).b (get_legal_actions layout board board.player_id)
      ≡ true
unfolding step_of
step_offered layout board key taken v e f =
    let one : IsReady layout board.tiles (occupied_from 0 board.tiles) key taken.first = record {
      free = v.first_free;
      keyed = e;
    } in
    let two : IsReady layout board.tiles (occupied_from 0 board.tiles) key taken.second = record {
      free = v.second_free;
      keyed = f;
    } in
    elim (Bool-cases (ltb taken.first taken.second)) [
      | inl h ↦ rw h (
          offers-get_legal_actions layout board key taken.first taken.second
            (ltb→lt taken.first taken.second h) v.has_first v.has_second one two)
      | inr h ↦
          let apart = v.apart in
          let lt : taken.second < taken.first = ground (arith, h, apart) in
          rw h (
            offers-get_legal_actions layout board key taken.second taken.first lt v.has_second
              v.has_first two one)
    ]

pub is_some_at_a :
    (taken : Taken) (tiles : List (Option String)) (x y : String)
    → get_elem? tiles taken.first ≡ some (some x)
    → get_elem? tiles taken.second ≡ some (some y)
    → (id : String) × (get_elem? tiles (step_of taken).a ≡ some (some id))
unfolding step_of
is_some_at_a taken tiles x y e f = elim (Bool-cases (ltb taken.first taken.second)) [
  | inl h ↦ (x, rw h e)
  | inr h ↦ (y, rw h f)
]

pub taken_off-other :
    (taken : Taken) (tiles : List (Option String)) (i : ℕ)
    → taken.first ≢ i
    → taken.second ≢ i
    → get_elem? (taken_off (step_of taken) tiles) i ≡ get_elem? tiles i
unfolding step_of
taken_off-other taken tiles i ne ne' = elim (Bool-cases (ltb taken.first taken.second)) [
  | inl h ↦ rw h (
      get_elem?-set_other (set tiles taken.first none) taken.second i none ne'
      ∙ get_elem?-set_other tiles taken.first i none ne)
  | inr h ↦ rw h (
      get_elem?-set_other (set tiles taken.second none) taken.first i none ne
      ∙ get_elem?-set_other tiles taken.second i none ne')
]
