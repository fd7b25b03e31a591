-- ===== src/Escoba/Scoring.antt =====
-- scoring.ts: the five categories of a hand, and the winner of a match.
use convite.Prelude.{
  ℕ, ◌+◌, ◌==◌, ltb, leb, Bool, true, false, ◌&&◌, String, List, Option, none, some, if◌then◌else◌,
  any, filter, length, same_id,
}
use convite.Deck.{same_suit, Card, card, r7, oro, suit_of}
use convite.Escoba.State.{ByTeam, put, HandScoreBreakdown, HandState, MatchState, points_to_win}
use convite.Escoba.Setenta.{score_setenta, zeros}

abbrev pub oros_threshold : ℕ
oros_threshold = 6

-- The one card of rank 7 and suit oro.
abbrev pub is_siete_de_oro : Card → Bool
is_siete_de_oro (card r7 oro) = true
is_siete_de_oro _ = false

unfoldable pub count_oros : List Card → ℕ
count_oros pile = length (filter (λ c. same_suit (suit_of c) oro) pile)

unfoldable pub score_by_greater : ℕ → ℕ → String → String → ByTeam ℕ
score_by_greater value_a value_b a b =
    if ltb value_b value_a
    then put a 1 (zeros a b)
    else (if ltb value_a value_b then put b 1 (zeros a b) else zeros a b)

unfoldable pub score_oros : ℕ → ℕ → String → String → ByTeam ℕ
score_oros oros_a oros_b a b =
    if leb oros_threshold oros_a
    then put a 1 (zeros a b)
    else (if leb oros_threshold oros_b then put b 1 (zeros a b) else zeros a b)

unfoldable pub score_siete_de_oro : List Card → List Card → String → String → ByTeam ℕ
score_siete_de_oro pile_a pile_b a b =
    if any is_siete_de_oro pile_a
    then put a 1 (zeros a b)
    else (if any is_siete_de_oro pile_b then put b 1 (zeros a b) else zeros a b)

-- `scores[id] === 1`
abbrev is_one : Option ℕ → Bool
is_one none = false
is_one (some n) = n == 1

unfoldable pub winner_of : ByTeam ℕ → String → String → Option String
winner_of scores a b =
    if is_one (scores a) then some a else (if is_one (scores b) then some b else none)

-- A sum of which one term is missing is NaN in the source; it is missing here.
abbrev pub add_points : Option ℕ → Option ℕ → Option ℕ
add_points (some m) (some n) = some (m + n)
add_points none _ = none
add_points (some m) none = none

-- The points of one team over the four categories and its escobas.
unfoldable pub points_for : ByTeam ℕ → ByTeam ℕ → ByTeam ℕ → ByTeam ℕ → ByTeam ℕ → String → Option ℕ
points_for cartas oros setenta siete escobas id =
    add_points (add_points (add_points (add_points (cartas id) (oros id)) (setenta id)) (siete id))
      (escobas id)

abbrev pub points_table : String → String → Option ℕ → Option ℕ → ByTeam ℕ
points_table a b points_a points_b k =
    if same_id b k then points_b else (if same_id a k then points_a else none)

unfoldable pub breakdown_of :
    List Card → List Card → ByTeam ℕ → String → String → HandScoreBreakdown
breakdown_of pile_a pile_b escobas a b =
    let cartas = score_by_greater (length pile_a) (length pile_b) a b in
    let oros = score_oros (count_oros pile_a) (count_oros pile_b) a b in
    let setenta = score_setenta pile_a pile_b a b in
    let siete = score_siete_de_oro pile_a pile_b a b in
    record {
      cartas = winner_of cartas a b;
      oros = winner_of oros a b;
      setenta = winner_of setenta a b;
      siete_de_oro = winner_of siete a b;
      escobas = escobas;
      points =
          points_table a b (points_for cartas oros setenta siete escobas a)
            (points_for cartas oros setenta siete escobas b);
    }

abbrev pub both {ℓ} : {A : Type ℓ} → Option A → Option A → Option (A × A)
both (some x) (some y) = some (x, y)
both none _ = none
both (some x) none = none

-- No breakdown stands for the exception that a missing pile throws.
unfoldable pub score_hand_breakdown : HandState → String → String → Option HandScoreBreakdown
score_hand_breakdown hand a b = elim (both (hand.piles a) (hand.piles b)) [
  | none ↦ none
  | some (pile_a, pile_b) ↦ some (breakdown_of pile_a pile_b hand.escobas a b)
]

unfoldable pub score_hand : HandState → String → String → Option (ByTeam ℕ)
score_hand hand a b = elim (score_hand_breakdown hand a b) [
  | none ↦ none
  | some breakdown ↦ some breakdown.points
]

unfoldable pub get_match_winner : MatchState → Option String
get_match_winner state =
    let a = state.team_a in
    let b = state.team_b in
    if a.score == b.score
    then none
    else (if ltb a.score points_to_win && ltb b.score points_to_win
        then none
        else some (if ltb b.score a.score then a.id else b.id))
