-- ===== src/Escoba/State.antt =====
-- state.ts, values.ts and hand-outcome.ts: the match, the value of a card, the breakdown of a hand.
-- A record keyed by team is a function from identifiers, `none` where no key stands.
use convite.Prelude.{ℕ, ◌+◌, String, List, [], ◌∷◌, Option, some, if◌then◌else◌, same_id, find}
use convite.Deck.{Card, card, r1, r2, r3, r4, r5, r6, r7, r10, r11, r12}

abbrev pub card_value : Card → ℕ
card_value (card r1 s) = 1
card_value (card r2 s) = 2
card_value (card r3 s) = 3
card_value (card r4 s) = 4
card_value (card r5 s) = 5
card_value (card r6 s) = 6
card_value (card r7 s) = 7
card_value (card r10 s) = 8
card_value (card r11 s) = 9
card_value (card r12 s) = 10

pub record Team : Type 0 where
  pub id : String
  pub player_ids : List String
  pub score : ℕ

pub record Player : Type 0 where
  pub id : String
  pub team_id : String
  pub seat : ℕ
  pub hand : List Card

abbrev pub ByTeam : Type 0 → Type 0
ByTeam A = String → Option A

-- `{ ...record, [key]: value }`
abbrev pub put {ℓ} : {A : Type ℓ} → String → A → (String → Option A) → String → Option A
put key value table k = if same_id key k then some value else table k

pub record HandScoreBreakdown : Type 0 where
  pub cartas : Option String
  pub oros : Option String
  pub setenta : Option String
  pub siete_de_oro : Option String
  pub escobas : ByTeam ℕ
  pub points : ByTeam ℕ

pub data HandOutcome : Type 0 where
  undecided : HandOutcome
  decided : HandScoreBreakdown → HandOutcome

pub record HandState : Type 0 where
  pub table : List Card
  pub stock : List Card
  pub piles : ByTeam (List Card)
  pub escobas : ByTeam ℕ
  pub turn : String
  pub last_capturer : Option String
  pub outcome : Option HandOutcome

pub record MatchState : Type 0 where
  pub team_a : Team
  pub team_b : Team
  pub players : List Player
  pub dealer_seat : ℕ
  pub hand : Option HandState

abbrev pub points_to_win : ℕ
points_to_win = 30

abbrev pub fifteen : ℕ
fifteen = 15

unfoldable pub find_player : List Player → String → Option Player
find_player players id = find (λ p. same_id p.id id) players

unfoldable pub sum_values : List Card → ℕ
sum_values [] = 0
sum_values (c ∷ cs) = card_value c + sum_values cs
