-- ===== src/Truco/Trick.antt =====
-- card-power.ts and trick.ts: the hierarchy of the cards and the winner of a trick.
use convite.Prelude.{
  ℕ, ◌==◌, ltb, max, String, List, [], ◌∷◌, none, some, if◌then◌else◌, filter, same_id,
}
use convite.Deck.{Card, card, r1, r2, r3, r4, r5, r6, r7, r10, r11, r12, espada, basto, oro, copa}
use convite.Truco.State.{TrickOutcome}

-- The fourteen groups, from the strongest, 14, to the weakest, 1.
abbrev pub card_power : Card → ℕ
card_power (card r1 espada) = 14
card_power (card r1 basto) = 13
card_power (card r7 espada) = 12
card_power (card r7 oro) = 11
card_power (card r3 _) = 10
card_power (card r2 _) = 9
card_power (card r1 oro) = 8
card_power (card r1 copa) = 8
card_power (card r12 _) = 7
card_power (card r11 _) = 6
card_power (card r10 _) = 5
card_power (card r7 basto) = 4
card_power (card r7 copa) = 4
card_power (card r6 _) = 3
card_power (card r5 _) = 2
card_power (card r4 _) = 1

pub record PlayedCard : Type 0 where
  pub team_id : String
  pub card : Card

pub record TeamPower : Type 0 where
  pub team_id : String
  pub power : ℕ

-- A map from teams to powers, kept as the list of its entries.
unfoldable pub raise_power : String → ℕ → List TeamPower → List TeamPower
raise_power team power [] = record { team_id = team; power = power } ∷ []
raise_power team power (current ∷ best) =
    let rest = raise_power team power best in
    if same_id current.team_id team
    then (if ltb current.power power
        then record current { power = power } ∷ best
        else current ∷ best)
    else current ∷ rest

unfoldable pub best_powers : List PlayedCard → List TeamPower → List TeamPower
best_powers [] best = best
best_powers (play ∷ plays) best =
    best_powers plays (raise_power play.team_id (card_power play.card) best)

unfoldable pub max_power : List TeamPower → ℕ
max_power [] = 0
max_power (t ∷ best) = max t.power (max_power best)

-- The one leading team, if there is just one.
abbrev pub only_team : List TeamPower → TrickOutcome
only_team [] = none
only_team (t ∷ []) = some t.team_id
only_team (t ∷ u ∷ rest) = none

unfoldable pub leading_teams : List TeamPower → List TeamPower
leading_teams best = filter (λ t. t.power == max_power best) best

unfoldable pub resolve_trick : List PlayedCard → TrickOutcome
resolve_trick plays = only_team (leading_teams (best_powers plays []))
