-- ===== src/Generala/Valid.antt =====
-- About the reducers of play.ts and roll.ts: the well-formed matches.
use convite.Prelude.{
  ℕ, suc, ◌+◌, ◌&&◌, ◌≤◌, ◌<◌, ◌≡◌, ◌⊎◌, refl, ap, ◌∙◌, inl, inr, true, false, String, List, [],
  ◌∷◌, Option, none, some, every, length, All, arith, Bool-cases, length-map, length-set, leb,
  ==_iff, get_elem?_total, any, ◌==◌,
}
use native.Mathlib.Nat.{mod-lt}
use convite.Generala.State.{
  CategoryId, Scorecard, MatchState, Turn, awaiting_roll, deciding, servida_win, ApplyResult, ok,
  reject, thrown, is_face, is_seated, create_match, rolls_per_turn,
}
use convite.Generala.Scoring.{is_generala, servida_roll}
use convite.Generala.Moves.{GeneralaAction, hold, score, keep_sets, is_open, may_write}
use convite.Generala.Play.{
  same_keep, kept_slots, hold_turn, after_score, score_turn, apply_player_action, count_empty,
  splice, landed, roll_turn, apply_roll,
}

abbrev pub AreFaces : List ℕ → Type 0
AreFaces dice = All (λ d. is_face d ≡ true) dice

abbrev pub SlotIsFace : Option ℕ → Type 0
SlotIsFace none = Unit
SlotIsFace (some face) = is_face face ≡ true

-- A turn at a table of `seats` seats. Five dice at all times, each a face; at most three throws; and
-- a generala on the opening throw is never left to be decided about.
abbrev pub TurnIsValid : ℕ → Turn → Type 0
TurnIsValid seats (awaiting_roll seat rolls_used slots) =
    (seat < seats) × (rolls_used < 3) × (length slots ≡ 5) × All SlotIsFace slots
TurnIsValid seats (deciding seat rolls_used dice) =
    (seat < seats)
    × (0 < rolls_used)
    × (rolls_used ≤ 3)
    × (length dice ≡ 5)
    × AreFaces dice
    × ((is_generala dice ≡ false) ⊎ (1 < rolls_used))
TurnIsValid seats (servida_win seat) = seat < seats

pub record IsValid (s : MatchState) : Type 0 where
  pub seated : 0 < length s.players
  pub dealt : length s.cards ≡ length s.players
  pub turn_valid : TurnIsValid (length s.players) s.turn

-- Every table with somebody at it opens in a valid match.
pub create_match-IsValid :
    (p : String) (ps : List String) → (s : MatchState) × (create_match (p ∷ ps) ≡ ok s) × IsValid s
unfolding create_match
create_match-IsValid p ps = (
  _,
  refl,
  record {
    seated = omega arith;
    dealt = length-map _ (p ∷ ps);
    turn_valid = (omega arith, omega arith, refl, (tt, (tt, (tt, (tt, (tt, tt))))));
  },
)

length-kept_slots : (i : ℕ) (keep dice : List ℕ) → length (kept_slots i keep dice) ≡ length dice
unfolding kept_slots
length-kept_slots i keep [] = refl
length-kept_slots i keep (d ∷ dice) = ap suc (length-kept_slots (suc i) keep dice)

kept_slots-faces :
    (i : ℕ) (keep dice : List ℕ) → AreFaces dice → All SlotIsFace (kept_slots i keep dice)
unfolding kept_slots
kept_slots-faces i keep [] h = tt
kept_slots-faces i keep (d ∷ dice) h = elim (Bool-cases (any (λ k. k == i) keep)) [
  | inl e ↦ rw e (h.0, kept_slots-faces (suc i) keep dice h.1)
  | inr e ↦ rw e (tt, kept_slots-faces (suc i) keep dice h.1)
]

-- A splice of as many faces as there are empty slots succeeds, and gives faces.
pub splice_total :
    (slots : List (Option ℕ)) (faces : List ℕ)
    → length faces ≡ count_empty slots
    → All SlotIsFace slots
    → every is_face faces ≡ true
    → (dice : List ℕ) × (splice slots faces ≡ some dice)
      × (length dice ≡ length slots)
      × AreFaces dice
unfolding count_empty splice
splice_total [] faces n h f = ([], refl, refl, tt)
splice_total (some face ∷ slots) faces n h f =
    let (dice, e, l, d) = splice_total slots faces n h.1 f in
    (face ∷ dice, rw e, ap suc l, (h.0, d))
splice_total (none ∷ slots) [] n h f = absurd (omega arith)
splice_total (none ∷ slots) (face ∷ faces) n h f =
    let (dice, e, l, d) = splice_total slots faces (omega arith) h.1 (ground arith) in
    (face ∷ dice, rw e, ap suc l, (ground arith, d))

-- A reducer's result: a valid next state or a refusal, and never an exception.
abbrev pub Keeps : ApplyResult → Type 0
Keeps (ok s) = IsValid s
Keeps (reject c) = Unit
Keeps thrown = ⊥

hold_turn-Keeps :
    (t : Turn) (s : MatchState) (p : String) (keep : List ℕ)
    → IsValid s
    → TurnIsValid (length s.players) t
    → Keeps (hold_turn t s p keep)
unfolding hold_turn
hold_turn-Keeps (awaiting_roll seat used slots) s p keep v h = tt
hold_turn-Keeps (servida_win seat) s p keep v h = tt
hold_turn-Keeps (deciding seat used dice) s p keep v h =
    elim (Bool-cases (is_seated s.players seat p)) [
      | inr e ↦ rw e tt
      | inl e ↦ elim (Bool-cases (leb rolls_per_turn used)) [
        | inl f ↦ rw (e, f) tt
        | inr f ↦ elim (Bool-cases (any (same_keep keep) keep_sets)) [
          | inr g ↦ rw (e, f, g) tt
          | inl g ↦
              rw (e, f, g)
                (record {
                  seated = v.seated;
                  dealt = v.dealt;
                  turn_valid = (
                    h.0,
                    ground arith,
                    length-kept_slots 0 keep dice ∙ h.3,
                    kept_slots-faces 0 keep dice h.4,
                  );
                })
        ]
      ]
    ]

after_score-IsValid :
    (s : MatchState) (seat used : ℕ) (dice : List ℕ) (card : Scorecard) (c : CategoryId)
    → IsValid s
    → IsValid (after_score s seat used dice card c)
unfolding after_score
after_score-IsValid s seat used dice card c v = record {
  seated = v.seated;
  dealt = length-set s.cards seat _ ∙ v.dealt;
  turn_valid = (mod-lt (seat + 1) v.seated, omega arith, refl, (tt, (tt, (tt, (tt, (tt, tt))))));
}

score_turn-Keeps :
    (t : Turn) (s : MatchState) (p : String) (c : CategoryId)
    → IsValid s
    → TurnIsValid (length s.players) t
    → Keeps (score_turn t s p c)
unfolding score_turn
score_turn-Keeps (awaiting_roll seat used slots) s p c v h = tt
score_turn-Keeps (servida_win seat) s p c v h = tt
score_turn-Keeps (deciding seat used dice) s p c v h =
    let (card, e) = get_elem?_total s.cards seat (omega (arith, v.dealt, h.0)) in
    elim (Bool-cases (is_seated s.players seat p)) [
      | inr f ↦ rw f tt
      | inl f ↦ elim (Bool-cases (is_open card c)) [
        | inr g ↦ rw (f, e, g) tt
        | inl g ↦ elim (Bool-cases (may_write c card dice used)) [
          | inr k ↦ rw (f, e, g, k) tt
          | inl k ↦ rw (f, e, g, k) (after_score-IsValid s seat used dice card c v)
        ]
      ]
    ]

not_servida :
    (used : ℕ) (dice : List ℕ)
    → (used + 1 == servida_roll && is_generala dice) ≡ false
    → (is_generala dice ≡ false) ⊎ (1 < used + 1)
not_servida used dice e = ground arith

landed-IsValid :
    (s : MatchState) (seat used : ℕ) (dice : List ℕ)
    → IsValid s
    → seat < length s.players
    → used < 3
    → length dice ≡ 5
    → AreFaces dice
    → IsValid (record s { turn = landed seat (used + 1) dice })
unfolding landed
landed-IsValid s seat used dice v h u l d =
    elim (Bool-cases (used + 1 == servida_roll && is_generala dice)) [
      | inl e ↦ rw e (record { seated = v.seated; dealt = v.dealt; turn_valid = h })
      | inr e ↦ rw e (record {
        seated = v.seated;
        dealt = v.dealt;
        turn_valid = (h, omega arith, omega arith, l, d, not_servida used dice e);
      })
    ]

roll_turn-Keeps :
    (t : Turn) (s : MatchState) (faces : List ℕ)
    → IsValid s
    → TurnIsValid (length s.players) t
    → Keeps (roll_turn t s faces)
unfolding roll_turn
roll_turn-Keeps (deciding seat used dice) s faces v h = tt
roll_turn-Keeps (servida_win seat) s faces v h = tt
roll_turn-Keeps (awaiting_roll seat used slots) s faces v h =
    elim (Bool-cases (length faces == count_empty slots)) [
      | inr e ↦ rw e tt
      | inl e ↦ elim (Bool-cases (every is_face faces)) [
        | inr f ↦ rw (e, f) tt
        | inl f ↦
            let (dice, g, l, d) = splice_total slots faces ((==_iff _ _).0 e) h.3 f in
            rw (e, f, g) (landed-IsValid s seat used dice v h.0 h.1 (l ∙ h.2) d)
      ]
    ]

-- A player's action on a valid match gives a valid match or is refused: never an exception.
pub apply_player_action-Keeps :
    (s : MatchState) (a : GeneralaAction) → IsValid s → Keeps (apply_player_action s a)
unfolding apply_player_action
apply_player_action-Keeps s (hold p keep) v = hold_turn-Keeps s.turn s p keep v v.turn_valid
apply_player_action-Keeps s (score p c) v = score_turn-Keeps s.turn s p c v v.turn_valid

-- A roll of any faces on a valid match gives a valid match or is refused: never an exception.
pub apply_roll-Keeps : (s : MatchState) (faces : List ℕ) → IsValid s → Keeps (apply_roll s faces)
unfolding apply_roll
apply_roll-Keeps s faces v = roll_turn-Keeps s.turn s faces v v.turn_valid
