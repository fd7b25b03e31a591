-- ===== src/Generala/Progress.antt =====
-- About the steps of a match, and a measure of how many are left.
use convite.Prelude.{
  ℕ, zero, suc, ◌+◌, ◌-◌, ◌*◌, ◌≤◌, ◌<◌, ◌≡◌, refl, sym, ap, ◌∙◌, subst, inl, inr, true, String,
  List, [], ◌∷◌, map, some, every, length, arith, Bool-cases, Option-cases, leb, get_elem?, set,
  any, ◌==◌, if◌then◌else◌,
}
use mathlib.Core.Option.{some-injective}
use convite.Generala.State.{
  CategoryId, ones, Scorecard, MatchState, Turn, awaiting_roll, deciding, servida_win, ApplyResult,
  ok, is_seated, rolls_per_turn, category_ids, write_box, empty_scorecard, create_match, is_face,
}
use convite.Generala.Scoring.{score_for}
use convite.Generala.Moves.{GeneralaAction, hold, score, keep_sets, is_open, may_write}
use convite.Generala.Play.{
  same_keep, hold_turn, apply_hold, score_turn, apply_score, apply_player_action, roll_turn,
  apply_roll, landed, splice, count_empty,
}
use convite.Generala.Valid.{
  IsValid, TurnIsValid, create_match-IsValid, Keeps, apply_player_action-Keeps, apply_roll-Keeps,
}

-- One accepted step: a player's action, or a roll of the server's.
pub data Step (s t : MatchState) : Type 0 where
  played : (a : GeneralaAction) → apply_player_action s a ≡ ok t → Step s t
  rolled : (faces : List ℕ) → apply_roll s faces ≡ ok t → Step s t

pub data Run : ℕ → MatchState → MatchState → Type 0 where
  stay : {s : MatchState} → Run 0 s s
  step : {n : ℕ} {s t u : MatchState} → Step s t → Run n t u → Run (suc n) s u

count_open : Scorecard → List CategoryId → ℕ
count_open card [] = 0
count_open card (c ∷ cs) = (if is_open card c then 1 else 0) + count_open card cs

open_boxes : List Scorecard → ℕ
open_boxes [] = 0
open_boxes (card ∷ cards) = count_open card category_ids + open_boxes cards

-- How many steps the turn has left, the one that hands it on included.
abbrev turn_left : Turn → ℕ
turn_left (awaiting_roll seat used slots) = 6 - 2 * used
turn_left (deciding seat used dice) = 7 - 2 * used
turn_left (servida_win seat) = 0

-- What falls at every step.
pub potential : MatchState → ℕ
potential s = 6 * open_boxes s.cards + turn_left s.turn

pub Step-IsValid : {s t : MatchState} → Step s t → IsValid s → IsValid t
Step-IsValid {s} (played a e) v = subst Keeps e (apply_player_action-Keeps s a v)
Step-IsValid {s} (rolled faces e) v = subst Keeps e (apply_roll-Keeps s faces v)

-- Writing an open box leaves one fewer, and every other box as it was.
count_open-write_box :
    (card : Scorecard) (c : CategoryId) (v : ℕ)
    → is_open card c ≡ true
    → suc (count_open (write_box card c v) category_ids) ≡ count_open card category_ids
unfolding count_open write_box
count_open-write_box card ones v h = ground arith
count_open-write_box card _ v h = ground arith

open_boxes-set :
    (cards : List Scorecard) (seat : ℕ) (card card' : Scorecard)
    → get_elem? cards seat ≡ some card
    → suc (count_open card' category_ids) ≡ count_open card category_ids
    → suc (open_boxes (set cards seat card')) ≡ open_boxes cards
unfolding open_boxes
open_boxes-set [] seat card card' e h = cc
open_boxes-set (c ∷ cards) zero card card' e h =
    omega (arith, ap (λ x. count_open x category_ids) (some-injective c card e))
open_boxes-set (c ∷ cards) (suc seat) card card' e h =
    omega (arith, open_boxes-set cards seat card card' e h)

-- A reducer's result stands closer to the end than the state it came from.
Closer : MatchState → ApplyResult → Type 0
Closer s (ok t) = potential t < potential s
Closer s _ = Unit

hold_turn-Closer :
    (t : Turn) (s : MatchState) (p : String) (keep : List ℕ)
    → s.turn ≡ t
    → TurnIsValid (length s.players) t
    → Closer s (hold_turn t s p keep)
unfolding hold_turn Closer potential
hold_turn-Closer (awaiting_roll seat used slots) s p keep e h = tt
hold_turn-Closer (servida_win seat) s p keep e h = tt
hold_turn-Closer (deciding seat used dice) s p keep e h =
    elim (Bool-cases (is_seated s.players seat p)) [
      | inr f ↦ rw f tt
      | inl f ↦ elim (Bool-cases (leb rolls_per_turn used)) [
        | inl g ↦ rw (f, g) tt
        | inr g ↦ elim (Bool-cases (any (same_keep keep) keep_sets)) [
          | inr k ↦ rw (f, g, k) tt
          | inl k ↦ rw (f, g, k, e) (omega arith)
        ]
      ]
    ]

score_turn-Closer :
    (t : Turn) (s : MatchState) (p : String) (c : CategoryId)
    → s.turn ≡ t
    → TurnIsValid (length s.players) t
    → Closer s (score_turn t s p c)
unfolding score_turn Closer potential
score_turn-Closer (awaiting_roll seat used slots) s p c e h = tt
score_turn-Closer (servida_win seat) s p c e h = tt
score_turn-Closer (deciding seat used dice) s p c e h =
    elim (Bool-cases (is_seated s.players seat p)) [
      | inr f ↦ rw f tt
      | inl f ↦ elim (Option-cases (get_elem? s.cards seat)) [
        | inl g ↦ rw (f, g) tt
        | inr (card, g) ↦ elim (Bool-cases (is_open card c)) [
          | inr k ↦ rw (f, g, k) tt
          | inl k ↦ elim (Bool-cases (may_write c card dice used)) [
            | inr m ↦ rw (f, g, k, m) tt
            | inl m ↦
                let v = score_for c dice used card in
                let fewer =
                  open_boxes-set s.cards seat card (write_box card c v) g
                    (count_open-write_box card c v k) in
                rw (f, g, k, m, e) (omega (arith, fewer))
          ]
        ]
      ]
    ]

landed-left :
    (seat used : ℕ) (dice : List ℕ)
    → used < 3
    → turn_left (landed seat (used + 1) dice) < 6 - 2 * used
unfolding landed
landed-left seat used dice h = ground arith

roll_turn-Closer :
    (t : Turn) (s : MatchState) (faces : List ℕ)
    → s.turn ≡ t
    → TurnIsValid (length s.players) t
    → Closer s (roll_turn t s faces)
unfolding roll_turn Closer potential
roll_turn-Closer (deciding seat used dice) s faces e h = tt
roll_turn-Closer (servida_win seat) s faces e h = tt
roll_turn-Closer (awaiting_roll seat used slots) s faces e h =
    elim (Bool-cases (length faces == count_empty slots)) [
      | inr f ↦ rw f tt
      | inl f ↦ elim (Bool-cases (every is_face faces)) [
        | inr g ↦ rw (f, g) tt
        | inl g ↦ elim (Option-cases (splice slots faces)) [
          | inl k ↦ rw (f, g, k) tt
          | inr (dice, k) ↦ rw (f, g, k, e) (omega (arith, landed-left seat used dice h.1))
        ]
      ]
    ]

-- Every accepted step on a valid match lowers the potential.
pub Step-potential : {s t : MatchState} → Step s t → IsValid s → potential t < potential s
unfolding apply_player_action apply_hold apply_score apply_roll Closer
Step-potential {s} (played (hold p keep) e) v =
    subst (Closer s) e (hold_turn-Closer s.turn s p keep refl v.turn_valid)
Step-potential {s} (played (score p c) e) v =
    subst (Closer s) e (score_turn-Closer s.turn s p c refl v.turn_valid)
Step-potential {s} (rolled faces e) v =
    subst (Closer s) e (roll_turn-Closer s.turn s faces refl v.turn_valid)

Run-potential :
    {n : ℕ} {s t : MatchState} → Run n s t → IsValid s → (n + potential t ≤ potential s) × IsValid t
Run-potential stay v = (omega arith, v)
Run-potential (step st r) v =
    let (le, w) = Run-potential r (Step-IsValid st v) in (omega (arith, Step-potential st v), w)

open_boxes-fresh : (ps : List String) → open_boxes (map (λ _. empty_scorecard) ps) ≡ 11 * length ps
unfolding open_boxes count_open empty_scorecard
open_boxes-fresh [] = refl
open_boxes-fresh (p ∷ ps) = omega (arith, open_boxes-fresh ps)

opening-potential :
    (p : String) (ps : List String) {s : MatchState}
    → create_match (p ∷ ps) ≡ ok s
    → potential s ≡ 66 * length (p ∷ ps) + 6
unfolding create_match potential
opening-potential p ps e = ground (arith, open_boxes-fresh (p ∷ ps))

pub opening-IsValid :
    (p : String) (ps : List String) {s : MatchState} → create_match (p ∷ ps) ≡ ok s → IsValid s
opening-IsValid p ps {s} e =
    let (s', e', v) = create_match-IsValid p ps in
    let one : ok s' ≡ ok s = sym e' ∙ e in subst Keeps one v

-- No sequence of accepted rolls and player actions from the opening of a match is longer than 66
-- steps for each seat and six more, and every match on the way is valid.
pub Run-bounded :
    (p : String) (ps : List String) (n : ℕ) {s t : MatchState}
    → create_match (p ∷ ps) ≡ ok s
    → Run n s t
    → (n ≤ 66 * length (p ∷ ps) + 6) × IsValid t
Run-bounded p ps n e r =
    let (le, v) = Run-potential r (opening-IsValid p ps e) in
    (omega (arith, opening-potential p ps e), v)
