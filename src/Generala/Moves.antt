-- ===== src/Generala/Moves.antt =====
-- legal-actions.ts: the holds a turn may offer, the order of crossing out, and the offer list.
use convite.Prelude.{
  ℕ, zero, suc, ltb, leb, Bool, true, false, String, List, [], ◌∷◌, ◌++◌, map, Option, none, some,
  if◌then◌else◌, find, filter, length, get_elem?,
}
use mathlib.Core.Logic.{ite}
use convite.Generala.State.{
  CategoryId, CategoryId-discrete, ones, twos, threes, fours, fives, sixes, escalera, full, poker,
  generala, generala_doble, Scorecard, MatchState, Turn, deciding, category_ids, dice_count,
  rolls_per_turn, is_seated,
}
use convite.Generala.Scoring.{score_for}

pub data GeneralaAction : Type 0 where
  hold : (player : String) (keep : List ℕ) → GeneralaAction
  score : (player : String) (category : CategoryId) → GeneralaAction

-- `walk(index)` with `chosen` kept so far; `left` is `DICE_COUNT - index`.
unfoldable pub walk_keeps : ℕ → ℕ → List ℕ → List (List ℕ)
walk_keeps zero index chosen = if ltb (length chosen) dice_count then chosen ∷ [] else []
walk_keeps (suc left) index chosen =
    walk_keeps left (suc index) (chosen ++ index ∷ []) ++ walk_keeps left (suc index) chosen

unfoldable pub keep_sets : List (List ℕ)
unfolding walk_keeps
keep_sets = walk_keeps dice_count 0 []

abbrev pub crossing_order : List CategoryId
crossing_order =
    generala_doble ∷ generala ∷ poker ∷ full ∷ escalera ∷ sixes ∷ fives ∷ fours ∷ threes ∷ twos
    ∷ ones ∷ []

-- `card[box] === null`
abbrev pub is_open : Scorecard → CategoryId → Bool
is_open card box = elim (card box) [ none ↦ true | some _ ↦ false ]

abbrev pub top_open : Scorecard → Option CategoryId
top_open card = find (is_open card) crossing_order

unfoldable pub is_box : Option CategoryId → CategoryId → Bool
unfolding CategoryId-discrete
is_box none category = false
is_box (some box) category = ite (CategoryId-discrete category box) true false

unfoldable pub may_write : CategoryId → Scorecard → List ℕ → ℕ → Bool
unfolding is_box
may_write category card dice rolls_used =
    if is_open card category
    then if ltb 0 (score_for category dice rolls_used card)
      then true
      else is_box (top_open card) category
    else false

abbrev pub score_offers : String → Scorecard → List ℕ → ℕ → List GeneralaAction
score_offers player card dice rolls_used =
    map (score player) (filter (λ c. may_write c card dice rolls_used) category_ids)

abbrev pub hold_offers : String → List GeneralaAction
hold_offers player = map (hold player) keep_sets

-- What a seat on turn is offered with this card; a missing card, where the source throws, offers nothing
-- here.
unfoldable pub offers : Turn → List String → List Scorecard → String → List GeneralaAction
offers (deciding seat rolls_used dice) players cards player =
    if is_seated players seat player
    then elim (get_elem? cards seat) [
      | none ↦ []
      | some card ↦
          if leb rolls_per_turn rolls_used
          then score_offers player card dice rolls_used
          else hold_offers player ++ score_offers player card dice rolls_used
    ]
    else []
offers _ players cards player = []

unfoldable pub get_legal_actions : MatchState → String → List GeneralaAction
unfolding offers
get_legal_actions state player = offers state.turn state.players state.cards player
