-- ===== src/Escoba/Counting.antt =====
-- Counting the cards in the game, and what each step of a play does to the count.
use convite.Prelude.{
  ℕ, ◌+◌, ◌≤◌, ◌<◌, ◌≡◌, ◌≢◌, ◌⊎◌, refl, sym, ap, ◌∙◌, inl, inr, true, false, String, List, [], ◌∷◌,
  ◌++◌, map, Option, none, some, find, arith, Bool-cases, if◌then◌else◌, subst, same_id,
  same_id_iff, same_id_ne,
}
use native.Mathlib.Nat.{zero-add}
use convite.Deck.{Card, same_card, same_card_iff}
use convite.Deck.Count.{
  count, count-append, same_card_refl, count-without, among, count-pos, without_all,
  count-without_all,
}
use convite.Escoba.State.{Player, ByTeam, put, HandState, MatchState}
use convite.Escoba.Capture.{is_subset_from, is_subset_of_table, discard}

-- How often a card is in the hands of the players.
unfoldable pub in_hands : Card → List Player → ℕ
in_hands c [] = 0
in_hands c (p ∷ ps) = count c p.hand + in_hands c ps

unfoldable pub in_pile : Card → Option (List Card) → ℕ
in_pile c none = 0
in_pile c (some pile) = count c pile

-- How often a card is in the game: in a hand, on the table, in the stock or in a team's pile.
unfoldable pub in_game : Card → MatchState → HandState → ℕ
in_game c s h =
    in_hands c s.players
    + count c h.table
    + count c h.stock
    + in_pile c (h.piles s.team_a.id)
    + in_pile c (h.piles s.team_b.id)

discard-zero :
    (c played : Card) (id : String) (ps : List Player)
    → in_hands c ps ≡ 0
    → in_hands c (map (discard id played) ps) ≡ 0
unfolding in_hands discard
discard-zero c played id [] h = refl
discard-zero c played id (p ∷ ps) h = elim (Bool-cases (same_id p.id id)) [
  | inl e ↦
      rw (e, count-without played c p.hand)
        (ground (arith, discard-zero c played id ps (omega arith)))
  | inr e ↦ rw e (omega (arith, discard-zero c played id ps (omega arith)))
]

pub discard-other :
    (c played : Card) (id : String) (ps : List Player)
    → same_card played c ≡ false
    → in_hands c (map (discard id played) ps) ≡ in_hands c ps
unfolding in_hands discard
discard-other c played id [] h = refl
discard-other c played id (p ∷ ps) h = elim (Bool-cases (same_id p.id id)) [
  | inl e ↦ rw (e, count-without played c p.hand, h, discard-other c played id ps h)
  | inr e ↦ rw (e, discard-other c played id ps h)
]

-- The player who plays a card that is in the game once had it, and nobody has it afterwards.
pub discard-played :
    (played : Card) (id : String) (ps : List Player) (player : Player)
    → find (λ p. same_id p.id id) ps ≡ some player
    → among player.hand played ≡ true
    → in_hands played ps ≤ 1
    → (in_hands played ps ≡ 1) × (in_hands played (map (discard id played) ps) ≡ 0)
unfolding in_hands discard
discard-played played id [] player f has le = cc
discard-played played id (p ∷ ps) player f has le = elim (Bool-cases (same_id p.id id)) [
  | inl e ↦
      let same : p ≡ player = ground arith in
      let one : 0 < count played p.hand =
        subst (λ x. 0 < count played x.hand) (sym same) (count-pos played player.hand has) in
      let none_left = discard-zero played played id ps (omega arith) in
      (
        omega arith,
        rw (e, count-without played played p.hand, same_card_refl played)
            (omega (arith, none_left)),
      )
  | inr e ↦
      let (a, b) = discard-played played id ps player (rw e at f) has (omega arith) in
      (omega arith, rw e (omega arith))
]

-- What the guard on the declared subset grants.
is_subset_from-count :
    (seen t table : List Card) (d : Card)
    → is_subset_from seen t table ≡ true
    → (count d t ≡ (if among t d then 1 else 0))
      × (among t d ≡ true → among seen d ≡ false)
      × (among t d ≡ true → among table d ≡ true)
unfolding is_subset_from count
is_subset_from-count seen [] table d h = (refl, λ e. cc, λ e. cc)
is_subset_from-count seen (c ∷ t) table d h =
    let on_table : among table c ≡ true = ground arith in
    let fresh : among seen c ≡ false = ground arith in
    let rest : is_subset_from (c ∷ seen) t table ≡ true = ground arith in
    let (n, new, there) = is_subset_from-count (c ∷ seen) t table d rest in
    elim (Bool-cases (same_card c d)) [
      | inl e ↦
          let same = (same_card_iff c d).0 e in
          let last : among t d ≡ false = ground (arith, new) in
          (
            rw e (ground arith),
            λ k. subst (λ x. among seen x ≡ false) same fresh,
            λ k. subst (λ x. among table x ≡ true) same on_table,
          )
      | inr e ↦ (rw (e, zero-add) n, λ k. rw e at (new (rw e at k)), λ k. there (rw e at k))
    ]

-- The captured cards leave the table, each once.
pub captured-count :
    (t table : List Card) (d : Card)
    → is_subset_of_table t table ≡ true
    → count d table ≤ 1
    → count d (without_all t table) + count d t ≡ count d table
unfolding is_subset_of_table
captured-count t table d h le =
    let (n, new, there) = is_subset_from-count [] t table d h in
    elim (Bool-cases (among t d)) [
      | inl e ↦
          let pos = count-pos d table (there e) in
          rw (count-without_all t d table, n, e) (omega arith)
      | inr e ↦ rw (count-without_all t d table, n, e) (omega arith)
    ]

in_pile-put :
    (d : Card) (key other : String) (pile : List Card) (piles : ByTeam (List Card))
    → in_pile d (put key pile piles other)
      ≡ (if same_id key other then count d pile else in_pile d (piles other))
unfolding in_pile
in_pile-put d key other pile piles = ground arith

-- Both teams' piles, when one of the two teams takes more cards.
pub piles-put :
    (d : Card) (a b team : String) (old more : List Card) (piles : ByTeam (List Card))
    → a ≢ b
    → (team ≡ a) ⊎ (team ≡ b)
    → piles team ≡ some old
    → in_pile d (put team (old ++ more) piles a) + in_pile d (put team (old ++ more) piles b)
      ≡ in_pile d (piles a) + in_pile d (piles b) + count d more
unfolding in_pile
piles-put d a b team old more piles ne at_team e = elim at_team [
  | inl t ↦
      let here : same_id team a ≡ true = (same_id_iff team a).1 t in
      let there : same_id team b ≡ false = same_id_ne team b (λ q. ne (sym t ∙ q)) in
      let pile : piles a ≡ some old = sym (ap piles t) ∙ e in
      rw (here, there, pile) (omega (arith, count-append d old more))
  | inr t ↦
      let here : same_id team b ≡ true = (same_id_iff team b).1 t in
      let there : same_id team a ≡ false = same_id_ne team a (λ q. ne (sym q ∙ t)) in
      let pile : piles b ≡ some old = sym (ap piles t) ∙ e in
      rw (here, there, pile) (omega (arith, count-append d old more))
]
