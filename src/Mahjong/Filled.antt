-- ===== src/Mahjong/Filled.antt =====
-- About generateDeal of deal.ts: that every position is filled, once.
use convite.Prelude.{
  ℕ, ◌+◌, ◌<◌, ◌≡◌, ◌≢◌, sym, ap, ◌∙◌, subst, inl, inr, ◌==◌, false, ◌&&◌, not, ltb, Bool-cases,
  Option-cases, String, List, [], ◌∷◌, Option, none, some, filter, length, get_elem?, set,
  length-set, arith,
}
use mathlib.Core.Option.{some-injective}
use convite.Mahjong.Layout.{Position}
use convite.Mahjong.Board.{occupied_from}
use convite.Mahjong.Deal.{
  Pool, Faces, two_faces, SolutionStep, GeneratedDeal, Taken, step_of, without_both, place_both,
  take_solvable_pair, deal_pairs,
}
use convite.Mahjong.Occupied.{
  has, has-filter, get_elem?-set_same, get_elem?-set_other, at_occupied, occupied_from-set,
  length-occupied_from-set, filter-swap,
}
use convite.Mahjong.Dealt.{IsTakable, take_solvable_pair-IsTakable}

pub has-without_both :
    (taken : Taken) (i : ℕ) (remaining : List ℕ)
    → has i (without_both taken remaining)
      ≡ (has i remaining && (not (i == taken.first) && not (i == taken.second)))
unfolding without_both
has-without_both taken i remaining =
    let one = has-filter (λ j. not (j == taken.first)) i remaining in
    let two =
      has-filter (λ j. not (j == taken.second)) i
        (filter (λ j. not (j == taken.first)) remaining) in
    two ∙ ap (λ b. b && not (i == taken.second)) one ∙ ground arith

-- The two tiles that a step takes off a board.
abbrev pub taken_off : SolutionStep → List (Option String) → List (Option String)
taken_off step tiles = set (set tiles step.a none) step.b none

pub clear_two :
    (a b : ℕ) (x y : String) (tiles : List (Option String))
    → a ≢ b
    → get_elem? tiles a ≡ some (some x)
    → get_elem? tiles b ≡ some (some y)
    → (occupied_from 0 (set (set tiles a none) b none)
        ≡ filter (λ i. not (i == b)) (filter (λ i. not (i == a)) (occupied_from 0 tiles)))
      × (length (occupied_from 0 (set (set tiles a none) b none)) + 2
          ≡ length (occupied_from 0 tiles))
clear_two a b x y tiles ne e f =
    let one = occupied_from-set 0 a a tiles (omega arith) in
    let two = occupied_from-set 0 b b (set tiles a none) (omega arith) in
    let g = get_elem?-set_other tiles a b none ne ∙ f in
    let m = length-occupied_from-set 0 a tiles x e in
    let n = length-occupied_from-set 0 b (set tiles a none) y g in
    (two ∙ ap (filter (λ i. not (i == b))) one, omega (arith, m, n))

-- What a step does to the positions of a board that has the remaining ones.
pub taken_off-occupied :
    (layout : List Position) (tiles : List (Option String)) (remaining : List ℕ) (taken : Taken)
    → IsTakable layout remaining taken
    → occupied_from 0 tiles ≡ remaining
    → (occupied_from 0 (taken_off (step_of taken) tiles) ≡ without_both taken remaining)
      × (length (without_both taken remaining) + 2 ≡ length remaining)
unfolding step_of without_both
taken_off-occupied layout tiles remaining taken v e =
    let (x, at_first) = at_occupied taken.first tiles (ap (has taken.first) e ∙ v.has_first) in
    let (y, at_second) = at_occupied taken.second tiles (ap (has taken.second) e ∙ v.has_second) in
    let (there, there_size) =
      clear_two taken.first taken.second x y tiles v.apart at_first at_second in
    let (back, back_size) =
      clear_two taken.second taken.first y x tiles (λ h. v.apart (sym h)) at_second at_first in
    let swapped =
      filter-swap (λ k. not (k == taken.first)) (λ k. not (k == taken.second)) remaining in
    let there' = there ∙ ap (λ r. without_both taken r) e in
    let size : length (without_both taken remaining) + 2 ≡ length remaining =
      ap (λ r. length r + 2) (sym there') ∙ there_size ∙ ap length e in
    elim (Bool-cases (ltb taken.first taken.second)) [
      | inl h ↦ rw h (there', size)
      | inr h ↦ rw h (
        back
            ∙ ap
                (λ r.
                  filter (λ k. not (k == taken.first)) (filter (λ k. not (k == taken.second)) r))
                e
            ∙ swapped,
        size,
      )
    ]

-- The parts of a deal that has at least one key left.
pub record IsStep (layout : List Position) (draw : ℕ → ℕ → ℕ) (key : String) (keys : List String)
    (pools : List Pool) (remaining : List ℕ) (placements : List (Option String)) (number : ℕ)
    (deal : GeneratedDeal) : Type 0 where
  pub taken : Taken
  pub drawn : Faces
  pub rest : GeneratedDeal
  pub takable : IsTakable layout remaining taken
  pub faces : two_faces key pools ≡ some drawn
  pub dealt :
      deal_pairs layout draw keys drawn.pools
        (without_both taken remaining)
        (place_both taken drawn placements)
        (number + 2)
      ≡ some rest
  pub board : deal.placements ≡ rest.placements
  pub steps : deal.solution ≡ step_of taken ∷ rest.solution

pub deal_pairs-IsStep :
    (layout : List Position) (draw : ℕ → ℕ → ℕ) (key : String) (keys : List String)
    (pools : List Pool) (remaining : List ℕ) (placements : List (Option String)) (number : ℕ)
    (deal : GeneratedDeal)
    → deal_pairs layout draw (key ∷ keys) pools remaining placements number ≡ some deal
    → IsStep layout draw key keys pools remaining placements number deal
unfolding deal_pairs
deal_pairs-IsStep layout draw key keys pools remaining placements number deal e =
    elim (Option-cases (take_solvable_pair layout draw remaining number)) [
      | inl f ↦ cc (rw (deal_pairs, f) at e)
      | inr (taken, f) ↦ elim (Option-cases (two_faces key pools)) [
        | inl g ↦ cc (rw (deal_pairs, f, g) at e)
        | inr (drawn, g) ↦
            elim (Option-cases (
              deal_pairs layout draw keys drawn.pools (without_both taken remaining)
                (place_both taken drawn placements) (number + 2))) [
                  | inl h ↦ cc (rw (deal_pairs, f, g, h) at e)
                  | inr (rest, h) ↦
                      let same = some-injective _ deal (rw (deal_pairs, f, g, h) at e) in
                      record {
                        taken = taken;
                        drawn = drawn;
                        rest = rest;
                        takable = take_solvable_pair-IsTakable layout draw remaining number taken f;
                        faces = g;
                        dealt = h;
                        board = ap (λ d. d.placements) (sym same);
                        steps = ap (λ d. d.solution) (sym same);
                      }
                ]
      ]
    ]

other_than : (i j : ℕ) → (i == j) ≡ false → j ≢ i
other_than i j h = ground (arith, h)

-- A position that is not among the remaining ones keeps what it has.
deal_pairs-kept :
    (layout : List Position) (draw : ℕ → ℕ → ℕ) (keys : List String) (pools : List Pool)
    (remaining : List ℕ) (placements : List (Option String)) (number : ℕ) (deal : GeneratedDeal)
    (i : ℕ)
    → deal_pairs layout draw keys pools remaining placements number ≡ some deal
    → has i remaining ≡ false
    → get_elem? deal.placements i ≡ get_elem? placements i
unfolding deal_pairs place_both
deal_pairs-kept layout draw [] pools remaining placements number deal i e h =
    ap (λ d. get_elem? d.placements i) (sym (some-injective _ deal e))
deal_pairs-kept layout draw (key ∷ keys) pools remaining placements number deal i e h =
    let v = deal_pairs-IsStep layout draw key keys pools remaining placements number deal e in
    let first = v.taken.first in
    let second = v.taken.second in
    let gone : has i (without_both v.taken remaining) ≡ false =
      has-without_both v.taken i remaining
      ∙ ap (λ b. b && (not (i == first) && not (i == second))) h in
    let ne_first : first ≢ i =
      λ same. cc (v.takable.has_first, subst (λ n. has n remaining ≡ false) (sym same) h) in
    let ne_second : second ≢ i =
      λ same. cc (v.takable.has_second, subst (λ n. has n remaining ≡ false) (sym same) h) in
    ap (λ p. get_elem? p i) v.board
    ∙ deal_pairs-kept layout draw keys v.drawn.pools (without_both v.taken remaining)
        (place_both v.taken v.drawn placements) (number + 2) v.rest i v.dealt gone
    ∙ get_elem?-set_other (set placements first (some v.drawn.first)) second i (some v.drawn.second)
        ne_second
    ∙ get_elem?-set_other placements first i (some v.drawn.first) ne_first

not_left :
    (taken : Taken) (i : ℕ) (remaining : List ℕ)
    → (not (i == taken.first) && not (i == taken.second)) ≡ false
    → has i (without_both taken remaining) ≡ false
not_left taken i remaining h =
    has-without_both taken i remaining ∙ ap (λ b. has i remaining && b) h ∙ ground arith

-- The faces of the first step of a deal lie where the step took them.
pub IsStep-faces :
    (layout : List Position) (draw : ℕ → ℕ → ℕ) (key : String) (keys : List String)
    (pools : List Pool) (remaining : List ℕ) (placements : List (Option String)) (number : ℕ)
    (deal : GeneratedDeal) (v : IsStep layout draw key keys pools remaining placements number deal)
    → v.taken.first < length placements
    → v.taken.second < length placements
    → (get_elem? deal.placements v.taken.first ≡ some (some v.drawn.first))
      × (get_elem? deal.placements v.taken.second ≡ some (some v.drawn.second))
unfolding place_both
IsStep-faces layout draw key keys pools remaining placements number deal v lt lt' =
    let first = v.taken.first in
    let second = v.taken.second in
    let once = set placements first (some v.drawn.first) in
    let kept = λ (i : ℕ) (h : has i (without_both v.taken remaining) ≡ false).
      ap (λ p. get_elem? p i) v.board
      ∙ deal_pairs-kept layout draw keys v.drawn.pools (without_both v.taken remaining)
          (place_both v.taken v.drawn placements) (number + 2) v.rest i v.dealt h in
    let size : second < length once =
      subst (λ n. second < n) (sym (length-set placements first (some v.drawn.first))) lt' in
    (
      kept first (not_left v.taken first remaining (ground arith))
          ∙ get_elem?-set_other once second first (some v.drawn.second)
              (λ h. v.takable.apart (sym h))
          ∙ get_elem?-set_same placements first (some v.drawn.first) lt,
      kept second (not_left v.taken second remaining (ground arith))
          ∙ get_elem?-set_same once second (some v.drawn.second) size,
    )
