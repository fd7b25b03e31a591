-- ===== src/Escoba/Fifteen.antt =====
-- About applyAction of capture.ts: what a play leaves on the table or takes from it.
use convite.Prelude.{
  ℕ, ◌+◌, ◌-◌, ◌≤◌, ◌≡◌, ◌≢◌, ◌⊎◌, refl, sym, ap, inl, inr, true, String, List, [], ◌∷◌, ◌++◌, none,
  some, arith, Bool-cases, length, ◌==◌, if◌then◌else◌, same_id, same_id_refl, same_id_iff, ◌↔◌,
  ==_iff,
}
use convite.Deck.{Card}
use convite.Deck.Count.{count, count-append, without_all}
use convite.Escoba.State.{
  card_value, Player, HandState, MatchState, find_player, sum_values, put, ByTeam,
}
use convite.Escoba.Capture.{PlayCardAction, ok, capture_refusal, bump, settle_play, apply_action}
use convite.Escoba.Sums.{Picks, some_subset_sums_to_iff}
use convite.Escoba.Counting.{captured-count}
use convite.Escoba.Accepts.{apply_action-Accepts, stay_hand, settle_stay, take_hand, settle_take}
use convite.Escoba.Conserve.{allowed-subset}

no_pick :
    (played : Card) (table : List Card)
    → capture_refusal [] played table ≡ none
    → ¬ ((l : List Card) × Picks l table × (sum_values l + card_value played ≡ 15))
unfolding capture_refusal
no_pick played table e (l, p, q) =
    let found = (some_subset_sums_to_iff table (15 - card_value played)).1 (l, p, omega arith) in
    ground arith

-- The card stays: nothing on the table makes fifteen with it, and it is added to the table.
abbrev pub Stays : HandState → PlayCardAction → HandState → Type 0
Stays h a h' =
    (a.captured ≡ [])
    × (¬ ((l : List Card) × Picks l h.table × (sum_values l + card_value a.card ≡ 15)))
    × (h'.table ≡ h.table ++ a.card ∷ [])
    × (h'.piles ≡ h.piles)
    × (h'.escobas ≡ h.escobas)
    × (h'.last_capturer ≡ h.last_capturer)

-- The card takes cards of the table that make fifteen with it: they leave the table and lie with the
-- card in the pile of the team, and a table left empty is one escoba more.
abbrev pub Takes : HandState → Player → PlayCardAction → HandState → Type 0
Takes h p a h' =
    (a.captured ≢ [])
    × (sum_values a.captured + card_value a.card ≡ 15)
    × ((c : Card) → count c h'.table + count c a.captured ≡ count c h.table)
    × ((pile pile' : List Card) × (h.piles p.team_id ≡ some pile)
        × (h'.piles p.team_id ≡ some pile')
        × ((c : Card) → count c pile' ≡ count c pile + count c a.captured + count c (a.card ∷ [])))
    × ((team : String) → team ≢ p.team_id → h'.piles team ≡ h.piles team)
    × (h'.last_capturer ≡ some p.team_id)
    × ((n : ℕ) → h'.table ≡ [] → h.escobas p.team_id ≡ some n → h'.escobas p.team_id ≡ some (n + 1))
    × (h'.table ≢ [] → h'.escobas ≡ h.escobas)

put-here : {A : Type 0} (key : String) (a : A) (m : ByTeam A) → put key a m key ≡ some a
unfolding put
put-here key a m = rw (same_id_refl key) refl

put-there :
    {A : Type 0} (key other : String) (a : A) (m : ByTeam A)
    → other ≢ key
    → put key a m other ≡ m other
unfolding put
put-there key other a m ne = elim (Bool-cases (same_id key other)) [
  | inl f ↦ absurd (ne (sym ((same_id_iff key other).0 f)))
  | inr f ↦ rw f refl
]

bump-here :
    (key : String) (n : ℕ) (counts : ByTeam ℕ)
    → counts key ≡ some n
    → bump key counts key ≡ some (n + 1)
unfolding bump
bump-here key n counts e = rw (bump, e) (put-here key (n + 1) counts)

empty_iff {ℓ} : {A : Type ℓ} (xs : List A) → (length xs == 0 ≡ true) ↔ (xs ≡ [])
empty_iff [] = (λ e. refl, λ e. refl)
empty_iff (x ∷ xs) = (λ e. absurd (omega (arith, (==_iff (length (x ∷ xs)) 0).0 e)), λ e. cc)

escobas_after :
    (table : List Card) (key : String) (counts : ByTeam ℕ)
    → ((n : ℕ)
        → table ≡ []
        → counts key ≡ some n
        → (if length table == 0 then bump key counts else counts) key ≡ some (n + 1))
      × (table ≢ [] → (if length table == 0 then bump key counts else counts) ≡ counts)
escobas_after table key counts = elim (Bool-cases (length table == 0)) [
  | inl f ↦ (λ n e g. rw f (bump-here key n counts g), λ ne. absurd (ne ((empty_iff table).0 f)))
  | inr f ↦ (λ n e g. cc (f, (empty_iff table).1 e), λ ne. rw f refl)
]

take_hand-Takes :
    (h : HandState) (p : Player) (a : PlayCardAction) (turn : String) (x : Card)
    (xs pile : List Card)
    → a.captured ≡ x ∷ xs
    → ((c : Card) → count c h.table ≤ 1)
    → capture_refusal (x ∷ xs) a.card h.table ≡ none
    → h.piles p.team_id ≡ some pile
    → Takes h p a (take_hand h p a.card (x ∷ xs) pile turn)
unfolding take_hand
take_hand-Takes h p a turn x xs pile same once allowed at_pile =
    let (sub, fifteen) = allowed-subset x xs a.card h.table allowed in
    let escobas = escobas_after (without_all (x ∷ xs) h.table) p.team_id h.escobas in
    (
      λ e. cc (same, e),
      rw same fifteen,
      λ c. rw same (captured-count (x ∷ xs) h.table c sub (once c)),
      (
        pile,
        pile ++ ((x ∷ xs) ++ a.card ∷ []),
        at_pile,
        put-here p.team_id _ h.piles,
        λ c. rw same (
            omega (
              arith,
              count-append c pile ((x ∷ xs) ++ a.card ∷ []),
              count-append c (x ∷ xs) (a.card ∷ []),
            )),
      ),
      λ team ne. put-there p.team_id team _ h.piles ne,
      refl,
      escobas.0,
      escobas.1,
    )

settled :
    (captured : List Card) (s : MatchState) (h : HandState) (a : PlayCardAction) (t : MatchState)
    (p : Player) (turn : String)
    → a.captured ≡ captured
    → ((c : Card) → count c h.table ≤ 1)
    → capture_refusal captured a.card h.table ≡ none
    → settle_play s h p a.card captured turn ≡ ok t
    → (h' : HandState) × (t.hand ≡ some h') × (Stays h a h' ⊎ Takes h p a h')
unfolding stay_hand
settled [] s h a t p turn same once allowed e =
    let left = settle_stay s t h p a.card turn e in
    (
      stay_hand h a.card turn,
      ap (λ x. x.hand) left,
      inl (same, no_pick a.card h.table allowed, refl, refl, refl, refl),
    )
settled (x ∷ xs) s h a t p turn same once allowed e =
    let (pile, at_pile, left) = settle_take s t h p a.card x xs turn e in
    (
      take_hand h p a.card (x ∷ xs) pile turn,
      ap (λ u. u.hand) left,
      inr (take_hand-Takes h p a turn x xs pile same once allowed at_pile),
    )

-- An accepted play, where no card is twice on the table, leaves one of two hands. The card stays
-- on the table, where no choice of table cards makes fifteen with it, and piles and escobas are
-- as before. Or it takes cards that make fifteen with it: counted card by card they have left
-- the table, and they lie with the played card in the pile of the player's team, which is the
-- last to capture; the other piles are as before, and the team, where its escobas are counted,
-- has one more when the table is left empty, while the escobas are as before when it is not.
pub apply_action-fifteen :
    (s : MatchState) (h : HandState) (a : PlayCardAction) (t : MatchState)
    → s.hand ≡ some h
    → ((c : Card) → count c h.table ≤ 1)
    → apply_action s a ≡ ok t
    → (p : Player) × (h' : HandState) × (find_player s.players a.player_id ≡ some p)
      × (t.hand ≡ some h')
      × (Stays h a h' ⊎ Takes h p a h')
apply_action-fifteen s h a t k once e =
    let x = apply_action-Accepts s h a t k e in
    let (h', at_hand, after) =
      settled a.captured s h a t x.player x.turn refl once x.allowed x.settled in
    (x.player, h', x.seated, at_hand, after)
