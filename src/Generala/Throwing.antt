-- ===== src/Generala/Throwing.antt =====
-- About roll.ts and index.ts of packages/games/generala-module/src: the throws that the cup asks for.
use convite.Prelude.{
  ℕ, zero, suc, ◌+◌, ◌<◌, ◌≡◌, refl, sym, ap, ◌∙◌, inl, inr, true, Option-cases, List, [], ◌∷◌,
  Option, none, some, arith, length, every, same_id, ==_iff, same_id_refl, subst,
}
use mathlib.Core.Option.{some-injective}
use convite.Generala.State.{MatchState, Turn, awaiting_roll, deciding, servida_win, ok, is_face}
use convite.Generala.Play.{count_empty, splice, landed, roll_turn, apply_roll}
use convite.Generala.Outcome.{get_outcome}
use convite.Generala.Cup.{
  RollDiceAction, roll_die, roll_dice_from, rethrow, request_turn, request_generala_system_action,
  roll_dice, from_engine, apply_module_action,
}

is_face-roll_die : (draw : ℕ) → draw < 6 → is_face (roll_die draw) ≡ true
unfolding is_face roll_die
is_face-roll_die zero low = refl
is_face-roll_die (suc zero) low = refl
is_face-roll_die (suc (suc zero)) low = refl
is_face-roll_die (suc (suc (suc zero))) low = refl
is_face-roll_die (suc (suc (suc (suc zero)))) low = refl
is_face-roll_die (suc (suc (suc (suc (suc zero))))) low = refl
is_face-roll_die (suc (suc (suc (suc (suc (suc n)))))) low = absurd (omega (arith, low))

length-roll_dice_from : (die n : ℕ) (draws : ℕ → ℕ) → length (roll_dice_from die n draws) ≡ n
unfolding roll_dice_from
length-roll_dice_from die zero draws = refl
length-roll_dice_from die (suc n) draws = ap suc (length-roll_dice_from (suc die) n draws)

every-roll_dice_from :
    (die n : ℕ) (draws : ℕ → ℕ)
    → ((k : ℕ) → draws k < 6)
    → every is_face (roll_dice_from die n draws) ≡ true
unfolding roll_dice_from
every-roll_dice_from die zero draws low = refl
every-roll_dice_from die (suc n) draws low =
    rw (is_face-roll_die (draws die) (low die)) (every-roll_dice_from (suc die) n draws low)

-- As many faces as there are empty slots fill them all.
splice-fills :
    (slots : List (Option ℕ)) (faces : List ℕ)
    → length faces ≡ count_empty slots
    → (dice : List ℕ) × (splice slots faces ≡ some dice) × (length dice ≡ length slots)
unfolding splice count_empty
splice-fills [] faces e = ([], refl, refl)
splice-fills (some face ∷ slots) faces e =
    let (dice, f, l) = splice-fills slots faces e in (face ∷ dice, rw f refl, ap suc l)
splice-fills (none ∷ slots) [] e = absurd (omega (arith, e))
splice-fills (none ∷ slots) (face ∷ faces) e =
    let (dice, f, l) = splice-fills slots faces (omega (arith, e)) in
    (face ∷ dice, rw f refl, ap suc l)

roll_turn-lands :
    (s : MatchState) (seat used : ℕ) (slots : List (Option ℕ)) (faces : List ℕ)
    → length faces ≡ count_empty slots
    → every is_face faces ≡ true
    → (dice : List ℕ) × (length dice ≡ length slots)
      × (roll_turn (awaiting_roll seat used slots) s faces
          ≡ ok (record s { turn = landed seat (used + 1) dice }))
unfolding roll_turn
roll_turn-lands s seat used slots faces e g =
    let (dice, k, l) = splice-fills slots faces e in
    (dice, l, rw ((==_iff (length faces) (count_empty slots)).1 e, g, k) refl)

-- A throw by the system that lands on the empty slots of a turn.
abbrev pub Lands : Turn → MatchState → RollDiceAction → Type 0
Lands turn s action =
    (same_id action.player_id "__system__" ≡ true)
    × (seat used : ℕ) × (slots : List (Option ℕ)) × (dice : List ℕ) × (turn
        ≡ awaiting_roll seat used slots)
    × (length dice ≡ length slots)
    × (roll_turn turn s action.faces ≡ ok (record s { turn = landed seat (used + 1) dice }))

rethrow-Lands :
    (s : MatchState) (seat used n : ℕ) (slots : List (Option ℕ)) (draws : ℕ → ℕ)
    (action : RollDiceAction)
    → ((k : ℕ) → draws k < 6)
    → count_empty slots ≡ n
    → rethrow n draws ≡ some action
    → Lands (awaiting_roll seat used slots) s action
rethrow-Lands s seat used zero slots draws action low f e = cc
rethrow-Lands s seat used (suc n) slots draws action low f e =
    let faces = roll_dice_from 0 (suc n) draws in
    let (dice, l, done) =
      roll_turn-lands s seat used slots faces (length-roll_dice_from 0 (suc n) draws ∙ sym f)
        (every-roll_dice_from 0 (suc n) draws low) in
    subst (Lands (awaiting_roll seat used slots) s) (some-injective _ action e)
      (same_id_refl "__system__", seat, used, slots, dice, refl, l, done)

request_turn-Lands :
    (turn : Turn) (s : MatchState) (draws : ℕ → ℕ) (action : RollDiceAction)
    → ((k : ℕ) → draws k < 6)
    → request_turn turn draws ≡ some action
    → Lands turn s action
request_turn-Lands (deciding seat used dice) s draws action low e = cc
request_turn-Lands (servida_win seat) s draws action low e = cc
request_turn-Lands (awaiting_roll seat used slots) s draws action low e =
    rethrow-Lands s seat used (count_empty slots) slots draws action low refl e

-- Where every draw is an index below six, a throw that the platform asks for is accepted by the module: it
-- comes on a turn that awaits one, fills every empty slot, and changes nothing of the match but the turn.
pub request_generala_system_action-accepted :
    (s : MatchState) (draws : ℕ → ℕ) (action : RollDiceAction)
    → ((k : ℕ) → draws k < 6)
    → request_generala_system_action s draws ≡ some action
    → (seat used : ℕ) × (slots : List (Option ℕ)) × (dice : List ℕ) × (s.turn
        ≡ awaiting_roll seat used slots)
      × (length dice ≡ length slots)
      × (apply_module_action s (roll_dice action)
          ≡ from_engine (ok (record s { turn = landed seat (used + 1) dice })))
unfolding request_generala_system_action apply_module_action apply_roll
request_generala_system_action-accepted s draws action low e = elim (Option-cases (get_outcome s)) [
  | inr (winners, f) ↦ cc (rw (request_generala_system_action, f) at e)
  | inl f ↦
      let (system, seat, used, slots, dice, at_turn, l, done) =
        request_turn-Lands s.turn s draws action low
          (rw (request_generala_system_action, f) at e) in
      (
        seat,
        used,
        slots,
        dice,
        at_turn,
        l,
        rw (apply_module_action, system, f, apply_roll) (ap from_engine done),
      )
]
