-- ===== src/Generala/Cards.antt =====
-- About the scorecards along a match: what a step does to them.
use convite.Prelude.{
  ℕ, zero, suc, ◌≤◌, ◌<◌, ◌≡◌, ◌≢◌, refl, inl, inr, true, String, List, [], ◌∷◌, some, every,
  length, All, arith, Bool-cases, Option-cases, leb, get_elem?, All-get_elem?, set, any, ◌==◌,
  subst,
}
use mathlib.Core.Logic.{if_pos, if_neg}
use convite.Generala.State.{
  CategoryId, CategoryId-discrete, generala, generala_doble, Scorecard, MatchState, Turn,
  awaiting_roll, deciding, servida_win, ApplyResult, ok, empty_scorecard, write_box, is_seated,
  rolls_per_turn, is_face,
}
use convite.Generala.Scoring.{score_for, has_scored_generala}
use convite.Generala.Moves.{hold, score, keep_sets, is_open, may_write}
use convite.Generala.Play.{
  same_keep, hold_turn, apply_hold, score_turn, apply_score, apply_player_action, roll_turn,
  apply_roll, splice, count_empty,
}
use convite.Generala.Outcome.{worth}
use convite.Generala.Valid.{IsValid, TurnIsValid}
use convite.Generala.Values.{top_pay, score_for-le, score_for-doble}
use convite.Generala.Progress.{Step, played, rolled}

-- A card on which no box holds more than it can pay, and on which a doble was paid only over a
-- generala that was scored.
pub record CardIsSound (card : Scorecard) : Type 0 where
  pub bounded : (c : CategoryId) → worth (card c) ≤ top_pay c
  pub doble_earned : 0 < worth (card generala_doble) → 0 < worth (card generala)

pub sound-empty : CardIsSound empty_scorecard
unfolding empty_scorecard
sound-empty = record { bounded = λ c. omega arith; doble_earned = λ h. absurd (omega arith) }

write_box_self : (card : Scorecard) (c : CategoryId) (v : ℕ) → write_box card c v c ≡ some v
unfolding write_box
write_box_self card c v = if_pos (CategoryId-discrete c c) refl _ _

pub write_box-ne :
    (card : Scorecard) (c d : CategoryId) (v : ℕ) → c ≢ d → write_box card c v d ≡ card d
unfolding write_box
write_box-ne card c d v h = if_neg (CategoryId-discrete c d) h _ _

doble-generala : (card : Scorecard) → has_scored_generala card ≡ true → 0 < worth (card generala)
unfolding has_scored_generala
doble-generala card h = ground arith

doble-write_box :
    (c : CategoryId) (card : Scorecard) (dice : List ℕ) (used : ℕ)
    → is_open card c ≡ true
    → CardIsSound card
    → 0 < worth (write_box card c (score_for c dice used card) generala_doble)
    → 0 < worth (write_box card c (score_for c dice used card) generala)
unfolding write_box CategoryId-discrete
doble-write_box generala card dice used o h p = absurd (ground (arith, h.doble_earned))
doble-write_box generala_doble card dice used o h p =
    let (d, v, e, r) = (score_for-doble dice used card).0 p in rw e (omega arith)
doble-write_box _ card dice used o h p = h.doble_earned p

-- Writing what an open box is worth keeps a card sound.
pub CardIsSound-write_box :
    (card : Scorecard) (c : CategoryId) (dice : List ℕ) (used : ℕ)
    → length dice ≡ 5
    → is_open card c ≡ true
    → CardIsSound card
    → CardIsSound (write_box card c (score_for c dice used card))
CardIsSound-write_box card c dice used l o h = record {
  bounded = λ d. elim (CategoryId-discrete c d) [
    | yes e ↦
        subst (λ x. worth (write_box card c (score_for c dice used card) x) ≤ top_pay x) e
          (rw write_box_self (score_for-le c dice used card l))
    | no n ↦ rw (write_box-ne card c d _ n) (h.bounded d)
  ];
  doble_earned = doble-write_box c card dice used o h;
}

abbrev pub AllSound : List Scorecard → Type 0
AllSound cards = All CardIsSound cards

sound-set :
    (cards : List Scorecard) (seat : ℕ) (card : Scorecard)
    → AllSound cards
    → CardIsSound card
    → AllSound (set cards seat card)
sound-set [] seat card h k = tt
sound-set (c ∷ cards) zero card h k = (k, h.1)
sound-set (c ∷ cards) (suc seat) card h k = (h.0, sound-set cards seat card h.1 k)

pub AllSound-get :
    (cards : List Scorecard) (seat : ℕ) {card : Scorecard}
    → AllSound cards
    → get_elem? cards seat ≡ some card
    → CardIsSound card
AllSound-get cards seat h g = All-get_elem? CardIsSound cards seat h g

-- How a step changes the cards: not at all, or by writing an open box for what the dice are worth.
pub data CardsStep (s : MatchState) : MatchState → Type 0 where
  unchanged : {t : MatchState} → t.cards ≡ s.cards → CardsStep s t
  written :
      {t : MatchState} (seat : ℕ) (card : Scorecard) (c : CategoryId) (dice : List ℕ) (used : ℕ)
      → get_elem? s.cards seat ≡ some card
      → is_open card c ≡ true
      → length dice ≡ 5
      → t.cards ≡ set s.cards seat (write_box card c (score_for c dice used card))
      → CardsStep s t

Explained : MatchState → ApplyResult → Type 0
Explained s (ok t) = CardsStep s t
Explained s _ = Unit

hold_turn-Explained :
    (t : Turn) (s : MatchState) (p : String) (keep : List ℕ) → Explained s (hold_turn t s p keep)
unfolding hold_turn Explained
hold_turn-Explained (awaiting_roll seat used slots) s p keep = tt
hold_turn-Explained (servida_win seat) s p keep = tt
hold_turn-Explained (deciding seat used dice) s p keep =
    elim (Bool-cases (is_seated s.players seat p)) [
      | inr f ↦ rw f tt
      | inl f ↦ elim (Bool-cases (leb rolls_per_turn used)) [
        | inl g ↦ rw (f, g) tt
        | inr g ↦ elim (Bool-cases (any (same_keep keep) keep_sets)) [
          | inr k ↦ rw (f, g, k) tt
          | inl k ↦ rw (f, g, k) (unchanged refl)
        ]
      ]
    ]

score_turn-Explained :
    (t : Turn) (s : MatchState) (p : String) (c : CategoryId)
    → TurnIsValid (length s.players) t
    → Explained s (score_turn t s p c)
unfolding score_turn Explained
score_turn-Explained (awaiting_roll seat used slots) s p c h = tt
score_turn-Explained (servida_win seat) s p c h = tt
score_turn-Explained (deciding seat used dice) s p c h =
    elim (Bool-cases (is_seated s.players seat p)) [
      | inr f ↦ rw f tt
      | inl f ↦ elim (Option-cases (get_elem? s.cards seat)) [
        | inl g ↦ rw (f, g) tt
        | inr (card, g) ↦ elim (Bool-cases (is_open card c)) [
          | inr k ↦ rw (f, g, k) tt
          | inl k ↦ elim (Bool-cases (may_write c card dice used)) [
            | inr m ↦ rw (f, g, k, m) tt
            | inl m ↦ rw (f, g, k, m) (written seat card c dice used g k h.3 refl)
          ]
        ]
      ]
    ]

roll_turn-Explained :
    (t : Turn) (s : MatchState) (faces : List ℕ) → Explained s (roll_turn t s faces)
unfolding roll_turn Explained
roll_turn-Explained (deciding seat used dice) s faces = tt
roll_turn-Explained (servida_win seat) s faces = tt
roll_turn-Explained (awaiting_roll seat used slots) s faces =
    elim (Bool-cases (length faces == count_empty slots)) [
      | inr f ↦ rw f tt
      | inl f ↦ elim (Bool-cases (every is_face faces)) [
        | inr g ↦ rw (f, g) tt
        | inl g ↦ elim (Option-cases (splice slots faces)) [
          | inl k ↦ rw (f, g, k) tt
          | inr (dice, k) ↦ rw (f, g, k) (unchanged refl)
        ]
      ]
    ]

pub Step-CardsStep : {s t : MatchState} → Step s t → IsValid s → CardsStep s t
unfolding apply_player_action apply_hold apply_score apply_roll Explained
Step-CardsStep {s} (played (hold p keep) e) v =
    subst (Explained s) e (hold_turn-Explained s.turn s p keep)
Step-CardsStep {s} (played (score p c) e) v =
    subst (Explained s) e (score_turn-Explained s.turn s p c v.turn_valid)
Step-CardsStep {s} (rolled faces e) v = subst (Explained s) e (roll_turn-Explained s.turn s faces)

pub CardsStep-AllSound : {s t : MatchState} → CardsStep s t → AllSound s.cards → AllSound t.cards
CardsStep-AllSound (unchanged e) h = rw e h
CardsStep-AllSound (written seat card c dice used g o l e) h =
    rw e
      (sound-set _ seat _ h (CardIsSound-write_box card c dice used l o (AllSound-get _ seat h g)))
