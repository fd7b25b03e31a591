-- ===== src/Generala/Offers.antt =====
-- About getLegalActions of legal-actions.ts against applyPlayerAction of play.ts.
use convite.Prelude.{
  ℕ, ◌≡◌, refl, ◌∙◌, inl, inr, Bool, true, false, ◌&&◌, String, List, [], ◌∷◌, ◌++◌, map, none,
  some, find, filter, length, arith, Bool-cases, Option-cases, leb, get_elem?, get_elem?_total, any,
  any-append, if◌then◌else◌, same_id, same_id_refl,
}
use mathlib.Core.Logic.{ite, if_pos}
use convite.Generala.State.{
  CategoryId, CategoryId-discrete, ones, Scorecard, MatchState, Turn, awaiting_roll, deciding,
  servida_win, ApplyResult, ok, reject, is_seated, rolls_per_turn, category_ids, cross_out_of_order,
  box_not_open,
}
use convite.Generala.Moves.{
  GeneralaAction, hold, score, is_open, top_open, is_box, may_write, offers, get_legal_actions,
  crossing_order, hold_offers, score_offers,
}
use convite.Generala.Play.{
  after_score, same_keep, hold_turn, score_turn, apply_score, apply_player_action,
}
use convite.Generala.Outcome.{is_card_full}
use convite.Generala.Valid.{IsValid, TurnIsValid}

unfoldable pub same_box : CategoryId → CategoryId → Bool
unfolding CategoryId-discrete
same_box a b = ite (CategoryId-discrete a b) true false

-- Whether two actions are one and the same, arrays compared index by index.
unfoldable pub same_action : GeneralaAction → GeneralaAction → Bool
unfolding same_keep same_box
same_action (hold p keep) (hold q offered) = same_id p q && same_keep keep offered
same_action (score p c) (score q d) = same_id p q && same_box c d
same_action _ _ = false

abbrev pub actor : GeneralaAction → String
actor (hold p keep) = p
actor (score p c) = p

abbrev pub is_ok : ApplyResult → Bool
is_ok (ok s) = true
is_ok _ = false

-- The action stands in the list.
abbrev pub is_offered : GeneralaAction → List GeneralaAction → Bool
is_offered a l = any (same_action a) l

any-hold_hold :
    (p : String) (keep : List ℕ) (sets : List (List ℕ))
    → any (same_action (hold p keep)) (map (hold p) sets) ≡ any (same_keep keep) sets
unfolding same_action
any-hold_hold p keep [] = refl
any-hold_hold p keep (s ∷ sets) = rw (same_id_refl p, any-hold_hold p keep sets)

any-hold_score :
    (p : String) (keep : List ℕ) (cs : List CategoryId)
    → any (same_action (hold p keep)) (map (score p) cs) ≡ false
unfolding same_action
any-hold_score p keep [] = refl
any-hold_score p keep (c ∷ cs) = any-hold_score p keep cs

any-score_hold :
    (p : String) (c : CategoryId) (sets : List (List ℕ))
    → any (same_action (score p c)) (map (hold p) sets) ≡ false
unfolding same_action
any-score_hold p c [] = refl
any-score_hold p c (s ∷ sets) = any-score_hold p c sets

any-score_filter :
    (p : String) (c : CategoryId) (f : CategoryId → Bool) (cs : List CategoryId)
    → any (same_action (score p c)) (map (score p) (filter f cs))
      ≡ any (λ d. same_box c d && f d) cs
unfolding same_action
any-score_filter p c f [] = refl
any-score_filter p c f (d ∷ cs) = elim (Bool-cases (f d)) [
  | inl e ↦ rw (e, same_id_refl p, any-score_filter p c f cs) (ground arith)
  | inr e ↦ rw (e, any-score_filter p c f cs) (ground arith)
]

any-same_box :
    (c : CategoryId) (f : CategoryId → Bool) → any (λ d. same_box c d && f d) category_ids ≡ f c
unfolding same_box
any-same_box ones f = ground arith
any-same_box _ f = ground arith

any-score_offers :
    (p : String) (c : CategoryId) (card : Scorecard) (dice : List ℕ) (used : ℕ)
    → any (same_action (score p c)) (score_offers p card dice used) ≡ may_write c card dice used
any-score_offers p c card dice used =
    any-score_filter p c (λ d. may_write d card dice used) category_ids
    ∙ any-same_box c (λ d. may_write d card dice used)

-- What `mayWrite` grants is an open box.
may_write-open :
    (c : CategoryId) (card : Scorecard) (dice : List ℕ) (used : ℕ)
    → may_write c card dice used ≡ (is_open card c && may_write c card dice used)
unfolding may_write
may_write-open c card dice used = ground arith

hold_turn-offers :
    (t : Turn) (s : MatchState) (p : String) (keep : List ℕ)
    → IsValid s
    → TurnIsValid (length s.players) t
    → is_ok (hold_turn t s p keep) ≡ any (same_action (hold p keep)) (offers t s.players s.cards p)
unfolding hold_turn offers
hold_turn-offers (awaiting_roll seat used slots) s p keep v h = refl
hold_turn-offers (servida_win seat) s p keep v h = refl
hold_turn-offers (deciding seat used dice) s p keep v h =
    let (card, e) = get_elem?_total s.cards seat (omega (arith, v.dealt, h.0)) in
    let scores = filter (λ c. may_write c card dice used) category_ids in
    elim (Bool-cases (is_seated s.players seat p)) [
      | inr f ↦ rw f
      | inl f ↦ elim (Bool-cases (leb rolls_per_turn used)) [
        | inl g ↦ rw (f, e, g, any-hold_score p keep scores)
        | inr g ↦
            rw (f, e, g, any-append, any-hold_hold, any-hold_score p keep scores) (ground arith)
      ]
    ]

score_turn-offers :
    (t : Turn) (s : MatchState) (p : String) (c : CategoryId)
    → is_ok (score_turn t s p c) ≡ any (same_action (score p c)) (offers t s.players s.cards p)
unfolding score_turn offers
score_turn-offers (awaiting_roll seat used slots) s p c = refl
score_turn-offers (servida_win seat) s p c = refl
score_turn-offers (deciding seat used dice) s p c = elim (Bool-cases (is_seated s.players seat p)) [
  | inr e ↦ rw e
  | inl e ↦ elim (Option-cases (get_elem? s.cards seat)) [
    | inl f ↦ rw (e, f)
    | inr (card, f) ↦ rw (e, f) (score_case seat used dice s p c card)
  ]
]
  where
    score_case :
        (seat used : ℕ) (dice : List ℕ) (s : MatchState) (p : String) (c : CategoryId)
        (card : Scorecard)
        → is_ok (
            if is_open card c
            then if may_write c card dice used
              then ok (after_score s seat used dice card c)
              else reject cross_out_of_order
            else reject box_not_open)
          ≡ any (same_action (score p c)) (
              if leb rolls_per_turn used
              then score_offers p card dice used
              else hold_offers p ++ score_offers p card dice used)
    score_case seat used dice s p c card = elim (Bool-cases (leb rolls_per_turn used)) [
      | inl g ↦ rw (g, any-score_offers) (ground (arith, may_write-open c card dice used))
      | inr g ↦
          rw (g, any-append, any-score_hold, any-score_offers)
            (ground (arith, may_write-open c card dice used))
    ]

-- On a valid match a player's action is accepted exactly when it stands in the list that the engine
-- offers that player, holds compared index by index.
pub is_ok-apply_player_action :
    (s : MatchState) (a : GeneralaAction)
    → IsValid s
    → is_ok (apply_player_action s a) ≡ is_offered a (get_legal_actions s (actor a))
unfolding apply_player_action get_legal_actions
is_ok-apply_player_action s (hold p keep) v = hold_turn-offers s.turn s p keep v v.turn_valid
is_ok-apply_player_action s (score p c) v = score_turn-offers s.turn s p c

find_holds {ℓ} : {A : Type ℓ} (f : A → Bool) (xs : List A) {x : A} → find f xs ≡ some x → f x ≡ true
find_holds f [] h = cc
find_holds f (x ∷ xs) h = elim (Bool-cases (f x)) [
  | inl e ↦ ground arith
  | inr e ↦ find_holds f xs (rw e at h)
]

-- The richest open box may always be written.
top_open-may_write :
    (c : CategoryId) (card : Scorecard) (dice : List ℕ) (used : ℕ)
    → top_open card ≡ some c
    → may_write c card dice used ≡ true
unfolding may_write is_box CategoryId-discrete
top_open-may_write c card dice used h =
    rw (find_holds (is_open card) crossing_order h, h, if_pos (CategoryId-discrete c c) refl _ _)
      (ground arith)

closed_of_no_top : (card : Scorecard) → top_open card ≡ none → is_card_full card ≡ true
unfolding is_card_full
closed_of_no_top card h = ground arith

-- A seat that must decide and whose card is not full always has an accepted action: it may write its
-- richest open box, whatever the dice show.
pub deciding_never_stuck :
    (s : MatchState) (seat used : ℕ) (dice : List ℕ) (p : String) (card : Scorecard)
    → s.turn ≡ deciding seat used dice
    → get_elem? s.players seat ≡ some p
    → get_elem? s.cards seat ≡ some card
    → is_card_full card ≡ false
    → (c : CategoryId) × (top_open card ≡ some c)
      × (apply_player_action s (score p c) ≡ ok (after_score s seat used dice card c))
unfolding apply_player_action apply_score is_seated
deciding_never_stuck s seat used dice p card t hp hc open_box =
    elim (Option-cases (top_open card)) [
      | inl e ↦ cc (closed_of_no_top card e)
      | inr (c, top) ↦
          let is_free = find_holds (is_open card) crossing_order top in
          let may = top_open-may_write c card dice used top in
          (c, top, rw (t, score_turn, hp, is_seated, same_id_refl p, hc, is_free, may))
    ]
