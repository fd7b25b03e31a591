-- ===== src/Escoba/Opening.antt =====
-- About deal of deal.ts and applyOpeningEscoba of escoba.ts: the cards in the game after a deal.
use convite.Prelude.{
  drop, take, ℕ, zero, suc, ◌+◌, ◌*◌, ◌%◌, ◌≤◌, ◌<◌, ◌≡◌, ◌≢◌, ◌⊎◌, refl, sym, ap, ◌∙◌, inl, inr,
  Bool, ◌&&◌, String, List, [], ◌∷◌, some, find, length, All, arith, Bool-cases, Option-cases,
  get_elem?_total, ◌==◌, subst, same_id_refl, same_id_ne,
}
use mathlib.Core.Option.{some-injective}
use convite.Deck.{Card}
use convite.Deck.Count.{count}
use convite.Escoba.State.{HandState, MatchState, sum_values}
use convite.Escoba.Capture.{bump}
use convite.Escoba.Dealing.{
  with_hands, has_proper_subset_summing_to, sweep_opening, opening_escoba, apply_opening_escoba,
  opening_hand, deal_to, deal,
}
use native.Mathlib.Nat.{zero-add, mod-lt}
use convite.Escoba.Counting.{in_hands, in_pile, in_game}
use convite.Escoba.Conserve.{IsSeated}
use convite.Escoba.Handing.{
  in_dealt, deal_hands_round_robin-total, in_hands-with_hands, with_hands-each, with_hands-teams,
  length-with_hands,
}
use convite.Escoba.Stock.{on_table, sweep_table-lem}

find-All {ℓ κ} :
    {A : Type ℓ} (P : A → Type κ) (f : A → Bool) (xs : List A) {x : A}
    → All P xs
    → find f xs ≡ some x
    → P x
find-All P f [] h e = cc
find-All P f (y ∷ xs) {x} h e = elim (Bool-cases (f y)) [
  | inl g ↦ let same : y ≡ x = some-injective y x (rw g at e) in subst P same h.0
  | inr g ↦ find-All P f xs h.1 (rw g at e)
]

pub pile_there :
    (h : HandState) (a b team : String) (xs ys : List Card)
    → h.piles a ≡ some xs
    → h.piles b ≡ some ys
    → (team ≡ a) ⊎ (team ≡ b)
    → (pile : List Card) × (h.piles team ≡ some pile)
pile_there h a b team xs ys e f (inl g) = (xs, ap h.piles g ∙ e)
pile_there h a b team xs ys e f (inr g) = (ys, ap h.piles g ∙ f)

-- The opening table, swept or not.
opening_in_game :
    (s : MatchState) (h : HandState) (xs ys : List Card)
    → IsSeated s
    → s.hand ≡ some h
    → h.piles s.team_a.id ≡ some xs
    → h.piles s.team_b.id ≡ some ys
    → (t : MatchState) × (h' : HandState) × (opening_escoba s h ≡ some t)
      × (t.hand ≡ some h')
      × (t.players ≡ s.players)
      × ((c : Card) → in_game c t h' ≡ in_game c s h)
unfolding in_game on_table opening_escoba sweep_opening
opening_in_game s h xs ys seated k ea eb = elim (Bool-cases (sum_values h.table == 15)) [
  | inr f ↦
      elim (Bool-cases ((sum_values h.table == 30) && has_proper_subset_summing_to h.table 15)) [
        | inl g ↦ (s, h, rw (opening_escoba, f, g) refl, k, refl, λ c. refl)
        | inr g ↦ (s, h, rw (opening_escoba, f, g) refl, k, refl, λ c. refl)
      ]
  | inl f ↦ elim (Option-cases (find (λ p. p.seat == s.dealer_seat) s.players)) [
    | inl g ↦ (s, h, rw (opening_escoba, f, g) refl, k, refl, λ c. refl)
    | inr (dealer, g) ↦
        let at_team = find-All _ _ s.players seated.on_team g in
        let (pile, e) = pile_there h s.team_a.id s.team_b.id dealer.team_id xs ys ea eb at_team in
        let (swept, d, no_table, stock, cards) =
          sweep_table-lem h s.team_a.id s.team_b.id dealer.team_id pile seated.teams_differ at_team
            e in
        let h' = record swept {
          escobas = bump dealer.team_id h.escobas;
          last_capturer = some dealer.team_id;
        } in
        (
          record s { hand = some h' },
          h',
          rw (opening_escoba, f, g) (rw (sweep_opening, d) refl),
          refl,
          refl,
          λ c. omega (arith, cards c),
        )
  ]
]

drop-drop :
    (c : Card) (cs : List Card) (n : ℕ) → count c (take n cs) + count c (drop n cs) ≡ count c cs
unfolding count
drop-drop c cs zero = zero-add (count c cs)
drop-drop c [] (suc n) = omega arith
drop-drop c (x ∷ cs) (suc n) = omega (arith, drop-drop c cs n)

pile_a :
    (s : MatchState) (rest : List Card) (turn : String)
    → s.team_a.id ≢ s.team_b.id
    → (opening_hand s rest turn).piles s.team_a.id ≡ some []
unfolding opening_hand
pile_a s rest turn ne =
    rw (same_id_ne s.team_b.id s.team_a.id (λ e. ne (sym e)), same_id_refl s.team_a.id) refl

pile_b :
    (s : MatchState) (rest : List Card) (turn : String)
    → (opening_hand s rest turn).piles s.team_b.id ≡ some []
unfolding opening_hand
pile_b s rest turn = rw (same_id_refl s.team_b.id) refl

opening_hand-count :
    (c : Card) (s : MatchState) (rest : List Card) (turn : String)
    → s.team_a.id ≢ s.team_b.id
    → on_table c s.team_a.id s.team_b.id (opening_hand s rest turn) ≡ count c rest
unfolding on_table opening_hand in_pile count
opening_hand-count c s rest turn ne =
    let a = ap (in_pile c) (pile_a s rest turn ne) in
    let b = ap (in_pile c) (pile_b s rest turn) in
    let table : count c (opening_hand s rest turn).table ≡ count c (take 4 rest) = refl in
    let stock : count c (opening_hand s rest turn).stock ≡ count c (drop 4 rest) = refl in
    omega (arith, a, b, table, stock, drop-drop c rest 4)

-- A deal from a deck with three cards for everybody, in a match with somebody to play, whose teams
-- differ and have all the players, succeeds: every card is as often in the game as in the deck,
-- whether or not the dealer's team swept the opening table.
pub deal-in_game :
    (s : MatchState) (deck : List Card)
    → IsSeated s
    → 0 < length s.players
    → length s.players * 3 ≤ length deck
    → (t : MatchState) × (h : HandState) × (deal s deck ≡ some t)
      × (t.hand ≡ some h)
      × (All (λ p. length p.hand ≡ 3) t.players)
      × ((c : Card) → in_game c t h ≡ count c deck)
unfolding deal deal_to apply_opening_escoba in_game on_table
deal-in_game s deck seated some_players le =
    let n = length s.players in
    let (hands, e, l, each, cards) = deal_hands_round_robin-total deck n 3 le in
    let players = with_hands s.players hands in
    let rest = drop (n * 3) deck in
    let sizes : length players ≡ n = length-with_hands s.players hands l in
    let (first, f) =
      get_elem?_total players ((s.dealer_seat + 1) % length players)
        (mod-lt (s.dealer_seat + 1) (omega arith)) in
    let h0 = opening_hand s rest first.id in
    let s0 = record s { players = players; hand = some h0 } in
    let seated' : IsSeated s0 = record {
      teams_differ = seated.teams_differ;
      on_team = with_hands-teams _ s.players hands seated.on_team;
    } in
    let dealt : deal s deck ≡ opening_escoba s0 h0 = rw (deal, e) (rw (deal_to, f) refl) in
    let (t, h, g, k, same, kept) =
      opening_in_game s0 h0 [] [] seated' refl (pile_a s rest first.id seated.teams_differ)
        (pile_b s rest first.id) in
    (
      t,
      h,
      dealt ∙ g,
      k,
      subst (All (λ p. length p.hand ≡ 3)) (sym same) (with_hands-each 3 s.players hands each),
      λ c.
          let all = cards c in
          let placed = opening_hand-count c s rest first.id seated.teams_differ in
          let held : in_hands c players ≡ in_dealt c hands =
            in_hands-with_hands c s.players hands l in
          let start : in_game c s0 h0 ≡ count c deck = omega (arith, placed) in kept c ∙ start,
    )
