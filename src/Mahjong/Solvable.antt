-- ===== src/Mahjong/Solvable.antt =====
-- About generateDeal of deal.ts and applyAction of module.ts: a deal replayed as a match.
use convite.Prelude.{
  ℕ, ◌+◌, ◌*◌, ◌<◌, ◌≡◌, ◌≢◌, refl, sym, ap, ◌∙◌, subst, ◌==◌, true, ◌&&◌, not, String, List, [],
  ◌∷◌, Option, none, some, length, get_elem?, set, length-set, arith,
}
use mathlib.Core.Option.{some-injective}
use convite.Mahjong.Layout.{Position}
use convite.Mahjong.Board.{key_at, occupied_from, get_outcome}
use convite.Mahjong.Solitaire.{SolitaireMatchState, remove_pair, ok, outcome_of, apply_action}
use convite.Mahjong.Deal.{
  Pool, Faces, SolutionStep, GeneratedDeal, Taken, step_of, without_both, place_both, deal_pairs,
}
use convite.Mahjong.Occupied.{has, get_elem?-lt, at_occupied, occupied_from-nil}
use convite.Mahjong.Dealt.{IsFit, IsTakable, two_faces-IsFit}
use convite.Mahjong.Filled.{
  has-without_both, taken_off, taken_off-occupied, IsStep, deal_pairs-IsStep, IsStep-faces,
}
use convite.Mahjong.Replay.{playing, replay, removed, step_offered, is_some_at_a, taken_off-other}

-- A step of a deal, as a removal in the match that is dealt.
IsStep-removed :
    (layout : List Position) (draw : ℕ → ℕ → ℕ) (key : String) (keys : List String)
    (pools : List Pool) (remaining : List ℕ) (placements : List (Option String)) (number : ℕ)
    (deal : GeneratedDeal) (player_id : String) (tiles : List (Option String))
    (v : IsStep layout draw key keys pools remaining placements number deal)
    → IsFit pools
    → occupied_from 0 tiles ≡ remaining
    → length placements ≡ length tiles
    → get_elem? tiles v.taken.first ≡ get_elem? deal.placements v.taken.first
    → get_elem? tiles v.taken.second ≡ get_elem? deal.placements v.taken.second
    → apply_action layout (playing player_id tiles) (
        remove_pair
          (record { player_id = player_id; a = (step_of v.taken).a; b = (step_of v.taken).b }))
      ≡ ok (playing player_id (taken_off (step_of v.taken) tiles))
IsStep-removed layout draw key keys pools remaining placements number deal player_id tiles v fit
      at_table size same_first same_second =
    let (x, here) =
      at_occupied v.taken.first tiles (ap (has v.taken.first) at_table ∙ v.takable.has_first) in
    let (y, there) =
      at_occupied v.taken.second tiles (ap (has v.taken.second) at_table ∙ v.takable.has_second) in
    let lt = subst (λ n. v.taken.first < n) (sym size) (get_elem?-lt tiles v.taken.first here) in
    let lt' =
      subst (λ n. v.taken.second < n) (sym size) (get_elem?-lt tiles v.taken.second there) in
    let (first, second) =
      IsStep-faces layout draw key keys pools remaining placements number deal v lt lt' in
    let (key_first, key_second, left) = two_faces-IsFit key pools v.drawn fit v.faces in
    let (id, some_a) = is_some_at_a v.taken tiles x y here there in
    removed layout player_id tiles (step_of v.taken) id some_a (
      step_offered layout (record { player_id = player_id; tiles = tiles }) key v.taken
        (subst (λ r. IsTakable layout r v.taken) (sym at_table) v.takable)
        (ap key_at (same_first ∙ first) ∙ key_first)
        (ap key_at (same_second ∙ second) ∙ key_second))

cleared-wins :
    (layout : List Position) (player_id : String) (tiles : List (Option String))
    → occupied_from 0 tiles ≡ []
    → outcome_of layout (playing player_id tiles) ≡ some (player_id ∷ [])
unfolding outcome_of get_outcome
cleared-wins layout player_id tiles e =
    let all_gone = occupied_from-nil 0 tiles e in rw (outcome_of, get_outcome, all_gone) refl

nil_of : (r : List ℕ) → length r ≡ 0 → r ≡ []
nil_of [] e = refl
nil_of (x ∷ r) e = cc

pub length-place_both :
    (taken : Taken) (drawn : Faces) (placements : List (Option String))
    → length (place_both taken drawn placements) ≡ length placements
unfolding place_both
length-place_both taken drawn placements =
    length-set (set placements taken.first (some drawn.first)) taken.second (some drawn.second)
    ∙ length-set placements taken.first (some drawn.first)

pub length-taken_off :
    (step : SolutionStep) (tiles : List (Option String))
    → length (taken_off step tiles) ≡ length tiles
length-taken_off step tiles =
    length-set (set tiles step.a none) step.b none ∙ length-set tiles step.a none

still_there :
    (taken : Taken) (i : ℕ) (remaining : List ℕ)
    → has i (without_both taken remaining) ≡ true
    → (has i remaining ≡ true) × (taken.first ≢ i) × (taken.second ≢ i)
still_there taken i remaining h =
    let e : (has i remaining && (not (i == taken.first) && not (i == taken.second))) ≡ true =
      sym (has-without_both taken i remaining) ∙ h in
    (ground (arith, e), ground (arith, e), ground (arith, e))

replay_step :
    (layout : List Position) (state next : SolitaireMatchState) (step : SolutionStep)
    (steps : List SolutionStep)
    → apply_action layout state
        (remove_pair (record { player_id = state.player_id; a = step.a; b = step.b }))
      ≡ ok next
    → replay layout state (step ∷ steps) ≡ replay layout next steps
unfolding replay
replay_step layout state next step steps e = rw (replay, e) refl

pub replay-wins :
    (layout : List Position) (draw : ℕ → ℕ → ℕ) (keys : List String) (pools : List Pool)
    (remaining : List ℕ) (placements : List (Option String)) (number : ℕ) (deal : GeneratedDeal)
    (player_id : String) (tiles : List (Option String))
    → deal_pairs layout draw keys pools remaining placements number ≡ some deal
    → IsFit pools
    → occupied_from 0 tiles ≡ remaining
    → length remaining ≡ 2 * length keys
    → length placements ≡ length tiles
    → ((i : ℕ) → has i remaining ≡ true → get_elem? tiles i ≡ get_elem? deal.placements i)
    → (t : SolitaireMatchState) × (replay layout (playing player_id tiles) deal.solution ≡ some t)
      × (outcome_of layout t ≡ some (player_id ∷ []))
unfolding replay deal_pairs place_both
replay-wins layout draw [] pools remaining placements number deal player_id tiles e fit at_table
      size len same =
    let steps = ap (λ d. d.solution) (sym (some-injective _ deal e)) in
    (
      playing player_id tiles,
      ap (replay layout (playing player_id tiles)) steps,
      cleared-wins layout player_id tiles (at_table ∙ nil_of remaining (omega (arith, size))),
    )
replay-wins layout draw (key ∷ keys) pools remaining placements number deal player_id tiles e fit
      at_table size len same =
    let v = deal_pairs-IsStep layout draw key keys pools remaining placements number deal e in
    let first = v.taken.first in
    let second = v.taken.second in
    let (key_first, key_second, left) = two_faces-IsFit key pools v.drawn fit v.faces in
    let (now, fewer) = taken_off-occupied layout tiles remaining v.taken v.takable at_table in
    let move =
      IsStep-removed layout draw key keys pools remaining placements number deal player_id tiles v
        fit at_table len (same first v.takable.has_first) (same second v.takable.has_second) in
    let shorter : length (without_both v.taken remaining) ≡ 2 * length keys =
      omega (arith, fewer, size) in
    let len' : length (place_both v.taken v.drawn placements)
        ≡ length (taken_off (step_of v.taken) tiles) =
      length-place_both v.taken v.drawn placements
      ∙ len
      ∙ sym (length-taken_off (step_of v.taken) tiles) in
    let (t, done, won) =
      replay-wins layout draw keys v.drawn.pools (without_both v.taken remaining)
        (place_both v.taken v.drawn placements) (number + 2) v.rest player_id
        (taken_off (step_of v.taken) tiles) v.dealt left now shorter len'
        (λ i h.
          let (there, ne, ne') = still_there v.taken i remaining h in
          taken_off-other v.taken tiles i ne ne'
          ∙ same i there
          ∙ ap (λ p. get_elem? p i) v.board) in
    (
      t,
      ap (replay layout (playing player_id tiles)) v.steps
          ∙ replay_step layout (playing player_id tiles)
              (playing player_id (taken_off (step_of v.taken) tiles)) (step_of v.taken)
              v.rest.solution move
          ∙ done,
      won,
    )
