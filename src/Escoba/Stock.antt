-- ===== src/Escoba/Stock.antt =====
-- About settleLeftovers of escoba.ts and redeal of deal.ts: the cards in the game.
use convite.Prelude.{
  drop, ℕ, ◌+◌, ◌*◌, ◌≤◌, ◌≡◌, ◌≢◌, ◌⊎◌, refl, ap, ◌∙◌, inl, inr, true, String, List, [], ◌∷◌, ◌++◌,
  some, length, All, arith, Bool-cases, ◌==◌,
}
use convite.Deck.{Card}
use convite.Deck.Count.{count}
use convite.Escoba.State.{Player, put, HandState, MatchState}
use convite.Escoba.Dealing.{
  with_hands, sweep_table, redeal_hand, redeal, leftovers_to, settle_leftovers,
}
use convite.Escoba.Counting.{in_hands, in_pile, in_game, piles-put}
use convite.Escoba.Handing.{
  in_dealt, deal_hands_round_robin-total, in_hands-with_hands, with_hands-each,
}

-- How often a card is on the table, in the stock or in one of two teams' piles.
unfoldable pub on_table : Card → String → String → HandState → ℕ
on_table c a b h = count c h.table + count c h.stock + in_pile c (h.piles a) + in_pile c (h.piles b)

-- A sweep moves the table to a team's pile.
pub sweep_table-lem :
    (h : HandState) (a b team : String) (pile : List Card)
    → a ≢ b
    → (team ≡ a) ⊎ (team ≡ b)
    → h.piles team ≡ some pile
    → (swept : HandState) × (sweep_table team h ≡ some swept)
      × (swept.table ≡ [])
      × (swept.stock ≡ h.stock)
      × ((c : Card) → on_table c a b swept ≡ on_table c a b h)
unfolding sweep_table on_table count
sweep_table-lem h a b team pile ne at_team e = (
  record h { table = []; piles = put team (pile ++ h.table) h.piles },
  rw (sweep_table, e) refl,
  refl,
  refl,
  λ c. let moved = piles-put c a b team pile h.table h.piles ne at_team e in omega (arith, moved),
)

empty_table : (cs : List Card) → (length cs == 0) ≡ true → cs ≡ []
empty_table [] e = refl
empty_table (c ∷ cs) e = ground arith

-- The cards left on the table at the end of a hand go to the team that captured last, and no
-- card is lost or doubled by it. The teams differ, and the last captor is one of them and has a pile.
pub settle_leftovers-in_game :
    (s : MatchState) (h : HandState) (team : String) (pile : List Card)
    → s.hand ≡ some h
    → s.team_a.id ≢ s.team_b.id
    → h.last_capturer ≡ some team
    → (team ≡ s.team_a.id) ⊎ (team ≡ s.team_b.id)
    → h.piles team ≡ some pile
    → (t : MatchState) × (h' : HandState) × (settle_leftovers s ≡ some t)
      × (t.hand ≡ some h')
      × (h'.table ≡ [])
      × (t.players ≡ s.players)
      × ((c : Card) → in_game c t h' ≡ in_game c s h)
unfolding settle_leftovers leftovers_to in_game on_table
settle_leftovers-in_game s h team pile k ne last at_team e =
    let (swept, f, no_table, stock, cards) =
      sweep_table-lem h s.team_a.id s.team_b.id team pile ne at_team e in
    let start : settle_leftovers s ≡ leftovers_to s h h.last_capturer = rw k refl in
    let start' = start ∙ ap (leftovers_to s h) last in
    elim (Bool-cases (length h.table == 0)) [
      | inl g ↦
          (s, h, start' ∙ rw (leftovers_to, g) refl, k, empty_table h.table g, refl, λ c. refl)
      | inr g ↦ (
        record s { hand = some swept },
        swept,
        start' ∙ rw (leftovers_to, g, f) refl,
        refl,
        no_table,
        refl,
        λ c. omega (arith, cards c),
      )
    ]

empty_hand : (cs : List Card) → length cs ≡ 0 → cs ≡ []
empty_hand [] e = refl
empty_hand (c ∷ cs) e = ground arith

in_hands-empty : (c : Card) (ps : List Player) → All (λ p. length p.hand ≡ 0) ps → in_hands c ps ≡ 0
unfolding in_hands count
in_hands-empty c [] h = refl
in_hands-empty c (p ∷ ps) h =
    let none_held : p.hand ≡ [] = empty_hand p.hand h.0 in
    rw none_held (omega (arith, in_hands-empty c ps h.1))

-- A re-deal, when every hand is empty and the stock has three cards for everybody, succeeds: everybody
-- has three cards then, the stock lost as many, and no card was lost or doubled.
pub redeal-in_game :
    (s : MatchState) (h : HandState)
    → s.hand ≡ some h
    → All (λ p. length p.hand ≡ 0) s.players
    → length s.players * 3 ≤ length h.stock
    → (t : MatchState) × (h' : HandState) × (redeal s ≡ some t)
      × (t.hand ≡ some h')
      × (All (λ p. length p.hand ≡ 3) t.players)
      × (h'.stock ≡ drop (length s.players * 3) h.stock)
      × ((c : Card) → in_game c t h' ≡ in_game c s h)
unfolding redeal redeal_hand in_game
redeal-in_game s h k empty le =
    let n = length s.players in
    let (hands, e, l, each, cards) = deal_hands_round_robin-total h.stock n 3 le in
    let h' = record h { stock = drop (n * 3) h.stock } in
    let players = with_hands s.players hands in
    (
      record s { players = players; hand = some h' },
      h',
      rw (k, redeal_hand, e) refl,
      refl,
      with_hands-each 3 s.players hands each,
      refl,
      λ c.
          let before = in_hands-empty c s.players empty in
          let dealt : in_hands c players ≡ in_dealt c hands =
            in_hands-with_hands c s.players hands l in
          omega (arith, cards c),
    )
