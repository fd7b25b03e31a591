-- ===== src/Escoba/Offers.antt =====
-- About getLegalActions of legal-actions.ts against applyAction of capture.ts.
use convite.Prelude.{
  ℕ, suc, ◌+◌, ◌-◌, ◌%◌, ◌≤◌, ◌<◌, ◌≡◌, refl, sym, ap, ◌∙◌, inl, inr, Bool, true, false, not,
  String, List, [], ◌∷◌, ◌++◌, map, none, some, find, length, All, arith, Bool-cases, Option-cases,
  All-append, ==_iff, any-append, ◌==◌, subst, same_id, same_id_refl,
}
use native.Mathlib.Nat.{mod-lt}
use mathlib.Core.List.{append_assoc}
use convite.Deck.{Card, card, r7, same_card}
use convite.Deck.Count.{count, same_card_refl, among, count-pos, count-zero}
use convite.Escoba.State.{
  card_value, Player, HandState, MatchState, fifteen, find_player, sum_values,
}
use convite.Escoba.Capture.{
  PlayCardAction, ApplyResult, ok, is_subset_from, is_subset_of_table, next_turn_player_id,
  capture_refusal, settle_play, play_held, play_in_hand, apply_action,
}
use convite.Escoba.Moves.{
  walk_subsets, summing_subsets, play, card_actions, hand_actions, actions_in, get_legal_actions,
}
use convite.Escoba.Sums.{
  Picks, done, leave, pick, can_sum, All-map, some_subset_sums_to-can_sum, is_empty,
  is_empty-append, is_empty-walk_subsets, Emitted, walk_subsets-Emitted,
}

-- No card stands twice.
abbrev pub AreDistinct : List Card → Type 0
AreDistinct l = (c : Card) → count c l ≤ 1

count-Picks : {s l : List Card} (c : Card) → Picks s l → count c s ≤ count c l
unfolding count
count-Picks c done = omega arith
count-Picks c (leave x p) = omega (arith, count-Picks c p)
count-Picks c (pick x p) = omega (arith, count-Picks c p)

among_of_count : (c : Card) (l : List Card) → 0 < count c l → among l c ≡ true
among_of_count c l h = elim (Bool-cases (among l c)) [
  | inl e ↦ e
  | inr e ↦ absurd (omega (arith, count-zero c l e))
]

not-among_of_count : (c : Card) (l : List Card) → count c l ≡ 0 → among l c ≡ false
not-among_of_count c l h = elim (Bool-cases (among l c)) [
  | inl e ↦ absurd (omega (arith, count-pos c l e))
  | inr e ↦ e
]

is_subset_from-true :
    (seen t table : List Card)
    → ((c : Card) → count c seen + count c t ≤ 1)
    → ((c : Card) → count c t ≤ count c table)
    → is_subset_from seen t table ≡ true
unfolding is_subset_from count
is_subset_from-true seen [] table one sub = refl
is_subset_from-true seen (c ∷ t) table one sub =
    let here : count c (c ∷ t) ≡ suc (count c t) = rw (same_card_refl c) (omega arith) in
    let on_table = among_of_count c table (omega (arith, sub c, here)) in
    let fresh = not-among_of_count c seen (omega (arith, one c, here)) in
    rw (
      on_table,
      fresh,
      is_subset_from-true (c ∷ seen) t table (λ d. omega (arith, one d))
          (λ d. omega (arith, sub d)),
    )

is_subset_of_table-Picks :
    (t table : List Card) → Picks t table → AreDistinct table → is_subset_of_table t table ≡ true
unfolding is_subset_of_table
is_subset_of_table-Picks t table p d =
    is_subset_from-true [] t table (λ c. unfold count in omega (arith, d c, count-Picks c p))
      (λ c. count-Picks c p)

card_value_bounds : (c : Card) → (0 < card_value c) × (card_value c ≤ 10)
card_value_bounds (card r7 s) = omega arith
card_value_bounds (card _ s) = omega arith

-- What the walk emits for a played card passes the guards.
capture_refusal-Emitted :
    (s : List Card) (played : Card) (table : List Card)
    → AreDistinct table
    → Emitted table (fifteen - card_value played) [] s
    → capture_refusal s played table ≡ none
unfolding capture_refusal sum_values
capture_refusal-Emitted [] played table d (t, e, p, q) =
    absurd (omega (arith, card_value_bounds played, q, ap sum_values e))
capture_refusal-Emitted (c ∷ s) played table d (t, e, p, q) =
    let picked : Picks (c ∷ s) table = subst (λ x. Picks x table) (sym e) p in
    let total : sum_values (c ∷ s) + card_value played ≡ 15 =
      omega (arith, card_value_bounds played, q, ap sum_values e) in
    rw (is_subset_of_table-Picks (c ∷ s) table picked d, (==_iff _ _).1 total)

abbrev pub is_ok : ApplyResult → Bool
is_ok (ok s) = true
is_ok _ = false

-- A hand that can be played on: every seat is taken, every team at the table has a pile, and no card
-- lies twice on the table.
pub record IsPlayable (s : MatchState) (h : HandState) : Type 0 where
  pub seats_taken :
      (i : ℕ) → i < length s.players → (p : Player) × (find (λ p. p.seat == i) s.players ≡ some p)
  pub piles_kept : All (λ p. (pile : List Card) × (h.piles p.team_id ≡ some pile)) s.players
  pub distinct : AreDistinct h.table

find-holds {ℓ κ} :
    {A : Type ℓ} (P : A → Type κ) (f : A → Bool) (xs : List A) {x : A}
    → All P xs
    → find f xs ≡ some x
    → P x × (f x ≡ true) × (0 < length xs)
find-holds P f [] h e = cc
find-holds P f (y ∷ xs) {x} h e = elim (Bool-cases (f y)) [
  | inl t ↦
      let same : y ≡ x = ground arith in
      (subst P same h.0, subst (λ z. f z ≡ true) same t, omega arith)
  | inr t ↦ let (p, q, r) = find-holds P f xs h.1 (rw t at e) in (p, q, omega arith)
]

settle_play-ok :
    (s : MatchState) (h : HandState) (player : Player) (played : Card) (t : List Card)
    (turn : String) {pile : List Card}
    → h.piles player.team_id ≡ some pile
    → is_ok (settle_play s h player played t turn) ≡ true
unfolding settle_play
settle_play-ok s h player played [] turn e = refl
settle_play-ok s h player played (c ∷ t) turn e = rw (e, is_ok)

-- An action that passes the guards, by a player at the table, is accepted.
play_held-ok :
    (s : MatchState) (h : HandState) (player : Player) (played : Card) (t : List Card) (id : String)
    → IsPlayable s h
    → find_player s.players id ≡ some player
    → capture_refusal t played h.table ≡ none
    → is_ok (play_held s h player (play id played t)) ≡ true
unfolding play_held find_player next_turn_player_id
play_held-ok s h player played t id v f g =
    let ((pile, e), q, n) = find-holds _ _ s.players v.piles_kept f in
    let (heir, k) =
      v.seats_taken ((player.seat + 1) % length s.players) (mod-lt (player.seat + 1) n) in
    rw (g, is_ok, k) (settle_play-ok s h player played t heir.id e)

Accepted : MatchState → PlayCardAction → Type 0
Accepted s a = is_ok (apply_action s a) ≡ true

apply_action-play :
    (s : MatchState) (h : HandState) (player : Player) (played : Card) (t : List Card) (id : String)
    → IsPlayable s h
    → s.hand ≡ some h
    → same_id h.turn id ≡ true
    → find_player s.players id ≡ some player
    → among player.hand played ≡ true
    → capture_refusal t played h.table ≡ none
    → Accepted s (play id played t)
unfolding apply_action play_in_hand Accepted
apply_action-play s h player played t id v e on f has g =
    rw (e, play_in_hand, on, f, has) (play_held-ok s h player played t id v f g)

All-of_map {ℓ κ μ} :
    {A : Type ℓ} {B : Type κ} (P : B → Type μ) (f : A → B) (xs : List A)
    → All (λ x. P (f x)) xs
    → All P (map f xs)
All-of_map P f [] h = tt
All-of_map P f (x ∷ xs) h = (h.0, All-of_map P f xs h.1)

no_capture-refusal :
    (played : Card) (table : List Card)
    → can_sum table (fifteen - card_value played) ≡ false
    → capture_refusal [] played table ≡ none
unfolding capture_refusal
no_capture-refusal played table h = rw (some_subset_sums_to-can_sum, h)

-- An action of a player with a card of theirs that passes the guards.
abbrev Passes : String → Card → List Card → PlayCardAction → Type 0
Passes id played table a =
    (a.player_id ≡ id) × (a.card ≡ played) × (capture_refusal a.captured a.card table ≡ none)

card_actions-Passes :
    (id : String) (played : Card) (table : List Card) (subsets : List (List Card))
    → AreDistinct table
    → is_empty subsets ≡ not (can_sum table (fifteen - card_value played))
    → All (Emitted table (fifteen - card_value played) []) subsets
    → All (Passes id played table) (card_actions id subsets played)
unfolding card_actions
card_actions-Passes id played table [] d e h =
    ((refl, refl, no_capture-refusal played table (ground arith)), tt)
card_actions-Passes id played table (s ∷ subsets) d e h =
    All-of_map (Passes id played table) (play id played) (s ∷ subsets) (
      All-map _ _ (s ∷ subsets) (λ x k. (refl, refl, capture_refusal-Emitted x played table d k)) h)

hand_actions-Accepted :
    (s : MatchState) (h : HandState) (player : Player) (id : String) (cards : List Card)
    → IsPlayable s h
    → s.hand ≡ some h
    → same_id h.turn id ≡ true
    → find_player s.players id ≡ some player
    → All (λ c. among player.hand c ≡ true) cards
    → All (Accepted s) (hand_actions id h.table cards)
unfolding hand_actions summing_subsets
hand_actions-Accepted s h player id [] v e on f has = tt
hand_actions-Accepted s h player id (c ∷ cards) v e on f has =
    let n = fifteen - card_value c in
    let subsets = walk_subsets h.table n [] in
    All-append (Accepted s) (card_actions id subsets c) (hand_actions id h.table cards)
      (All-map _ _ (card_actions id subsets c) (λ a (p, q, r). accept a p q r)
        (card_actions-Passes id c h.table subsets v.distinct (is_empty-walk_subsets h.table n [])
          (walk_subsets-Emitted h.table n [])))
      (hand_actions-Accepted s h player id cards v e on f has.1)
  where
    accept :
        (a : PlayCardAction)
        → a.player_id ≡ id
        → a.card ≡ c
        → capture_refusal a.captured a.card h.table ≡ none
        → Accepted s a
    accept a p q r =
        let p' = sym p in
        let q' = sym q in
        subst (Accepted s) (λ i. record { player_id = p' i; card = q' i; captured = a.captured })
          (apply_action-play s h player c a.captured id v e on f has.0 (rw q at r))

All-among : (l : List Card) (seen : List Card) → All (λ c. among (seen ++ l) c ≡ true) l
All-among [] seen = tt
All-among (c ∷ l) seen = (
  any-append (λ x. same_card x c) seen (c ∷ l) ∙ rw (same_card_refl c) (ground arith),
  All-map _ _ l (λ x e. e) (rw (append_assoc seen (c ∷ []) l) at (All-among l (seen ++ c ∷ []))),
)

actions_in-Accepted :
    (s : MatchState) (h : HandState) (id : String)
    → IsPlayable s h
    → s.hand ≡ some h
    → All (Accepted s) (actions_in (some h) s.players id)
unfolding actions_in
actions_in-Accepted s h id v e = elim (Bool-cases (same_id h.turn id)) [
  | inr off ↦ rw off tt
  | inl on ↦ elim (Option-cases (find_player s.players id)) [
    | inl f ↦ rw (on, f) tt
    | inr (player, f) ↦
        rw (on, f)
          (hand_actions-Accepted s h player id player.hand v e on f (All-among player.hand []))
  ]
]

-- In a hand that can be played on, every action that the engine offers a player is accepted by the
-- reducer.
pub get_legal_actions-accepted :
    (s : MatchState) (h : HandState) (id : String)
    → IsPlayable s h
    → s.hand ≡ some h
    → All (λ a. is_ok (apply_action s a) ≡ true) (get_legal_actions s id)
unfolding get_legal_actions Accepted
get_legal_actions-accepted s h id v e =
    subst (λ o. All (Accepted s) (actions_in o s.players id)) (sym e)
      (actions_in-Accepted s h id v e)

is_empty-card_actions :
    (id : String) (subsets : List (List Card)) (played : Card)
    → is_empty (card_actions id subsets played) ≡ false
unfolding card_actions
is_empty-card_actions id [] played = refl
is_empty-card_actions id (s ∷ subsets) played = refl

-- A player on turn who holds a card always has an action to play, whatever lies on the table.
pub get_legal_actions-ne-nil :
    (s : MatchState) (h : HandState) (player : Player) (id : String) (c : Card) (rest : List Card)
    → s.hand ≡ some h
    → h.turn ≡ id
    → find_player s.players id ≡ some player
    → player.hand ≡ c ∷ rest
    → is_empty (get_legal_actions s id) ≡ false
unfolding get_legal_actions hand_actions
get_legal_actions-ne-nil s h player id c rest e t f has = rw (
  e,
  actions_in,
  t,
  same_id_refl id,
  f,
  has,
  hand_actions,
  is_empty-append,
  is_empty-card_actions,
)
