-- ===== src/Escoba/Ending.antt =====
-- About getMatchWinner of scoring.ts and settleHandIfNeeded of the module: the end of a hand and
-- of a match.
use convite.Prelude.{
  ℕ, ◌+◌, ◌≤◌, ◌<◌, ◌≡◌, ◌≢◌, ◌↔◌, ◌⊎◌, refl, sym, ap, ◌∙◌, inl, inr, true, false, ◌&&◌, String,
  List, [], ◌++◌, Option, none, some, every, length, arith, Bool-cases, ltb, ◌==◌, same_id,
}
use mathlib.Core.Option.{some-injective}
use convite.Deck.{Card}
use convite.Escoba.State.{ByTeam, put, HandState, MatchState, HandScoreBreakdown, decided}
use convite.Escoba.Scoring.{score_hand_breakdown, get_match_winner}
use convite.Escoba.Dealing.{
  sweep_table, leftovers_to, settle_leftovers, award, score_settled, settle_hand,
  settle_hand_if_needed,
}
use convite.Escoba.Opening.{pile_there}
use convite.Escoba.Scoring.{breakdown_of}
use convite.Escoba.Points.{points_won, score_hand_breakdown-points}

-- A team wins the match exactly if it has more points than the other and at least thirty: at equal
-- scores the match goes on, however high they are. The teams differ.
pub get_match_winner_iff :
    (s : MatchState)
    → s.team_a.id ≢ s.team_b.id
    → ((get_match_winner s ≡ some s.team_a.id)
        ↔ ((s.team_b.score < s.team_a.score) × (30 ≤ s.team_a.score)))
      × ((get_match_winner s ≡ some s.team_b.id)
          ↔ ((s.team_a.score < s.team_b.score) × (30 ≤ s.team_b.score)))
unfolding get_match_winner
get_match_winner_iff s ne =
    let x = s.team_a.score in
    let y = s.team_b.score in
    elim (Bool-cases (x == y)) [
      | inl e ↦ rw e ((λ k. cc, λ k. ground arith), (λ k. cc, λ k. ground arith))
      | inr e ↦ elim (Bool-cases (ltb x 30 && ltb y 30)) [
        | inl f ↦ rw (e, f) ((λ k. cc, λ k. ground arith), (λ k. cc, λ k. ground arith))
        | inr f ↦ elim (Bool-cases (ltb y x)) [
          | inl g ↦
              rw (e, f, g)
                (
                  (λ k. ground arith, λ k. refl),
                  (λ k. elim (ne (some-injective _ _ k)) [ ], λ k. ground arith),
                )
          | inr g ↦
              rw (e, f, g)
                (
                  (λ k. elim (ne (sym (some-injective _ _ k))) [ ], λ k. ground arith),
                  (λ k. ground arith, λ k. refl),
                )
        ]
      ]
    ]

-- A hand that can be scored: piles and counts of escobas for both teams.
pub record IsScorable (a b : String) (ea eb : ℕ) (h : HandState) : Type 0 where
  pub pile_a : List Card
  pub pile_b : List Card
  pub at_a : h.piles a ≡ some pile_a
  pub at_b : h.piles b ≡ some pile_b
  pub escobas_a : h.escobas a ≡ some ea
  pub escobas_b : h.escobas b ≡ some eb

put-there :
    (team k : String) (pile old : List Card) (piles : ByTeam (List Card))
    → piles k ≡ some old
    → (new : List Card) × (put team pile piles k ≡ some new)
put-there team k pile old piles e = elim (Bool-cases (same_id team k)) [
  | inl f ↦ (pile, rw f refl)
  | inr f ↦ (old, rw f e)
]

sweep-IsScorable :
    (a b team : String) (ea eb : ℕ) (h : HandState)
    → IsScorable a b ea eb h
    → (team ≡ a) ⊎ (team ≡ b)
    → (swept : HandState) × (sweep_table team h ≡ some swept) × IsScorable a b ea eb swept
unfolding sweep_table
sweep-IsScorable a b team ea eb h x at_team =
    let (pile, e) = pile_there h a b team x.pile_a x.pile_b x.at_a x.at_b at_team in
    let piles = put team (pile ++ h.table) h.piles in
    let (new_a, f) = put-there team a (pile ++ h.table) x.pile_a h.piles x.at_a in
    let (new_b, g) = put-there team b (pile ++ h.table) x.pile_b h.piles x.at_b in
    (
      record h { table = []; piles = piles },
      rw (sweep_table, e) refl,
      record {
        pile_a = new_a;
        pile_b = new_b;
        at_a = f;
        at_b = g;
        escobas_a = x.escobas_a;
        escobas_b = x.escobas_b;
      },
    )

-- The last captor, if there is one, is one of the two teams.
abbrev pub CaptorIn : String → String → Option String → Type 0
CaptorIn a b none = Unit
CaptorIn a b (some team) = (team ≡ a) ⊎ (team ≡ b)

leftovers-IsScorable :
    (s : MatchState) (ea eb : ℕ) (h : HandState) (captor : Option String)
    → IsScorable s.team_a.id s.team_b.id ea eb h
    → s.hand ≡ some h
    → CaptorIn s.team_a.id s.team_b.id captor
    → (u : MatchState) × (h' : HandState) × (leftovers_to s h captor ≡ some u)
      × (u.hand ≡ some h')
      × IsScorable s.team_a.id s.team_b.id ea eb h'
      × (u.team_a ≡ s.team_a)
      × (u.team_b ≡ s.team_b)
unfolding leftovers_to
leftovers-IsScorable s ea eb h none x k c = (s, h, refl, k, x, refl, refl)
leftovers-IsScorable s ea eb h (some team) x k c = elim (Bool-cases (length h.table == 0)) [
  | inl g ↦ (s, h, rw g refl, k, x, refl, refl)
  | inr g ↦
      let (swept, e, x') = sweep-IsScorable s.team_a.id s.team_b.id team ea eb h x c in
      (record s { hand = some swept }, swept, rw (g, e) refl, refl, x', refl, refl)
]

scored :
    (a b : String) (ea eb : ℕ) (h : HandState)
    → IsScorable a b ea eb h
    → (d : HandScoreBreakdown) × (score_hand_breakdown h a b ≡ some d)
unfolding score_hand_breakdown
scored a b ea eb h x =
    (breakdown_of x.pile_a x.pile_b h.escobas a b, rw (score_hand_breakdown, x.at_a, x.at_b) refl)

score_settled-lem :
    (u : MatchState) (h : HandState) (d : HandScoreBreakdown) (a b : String) (p q : ℕ)
    → u.hand ≡ some h
    → u.team_a.id ≡ a
    → u.team_b.id ≡ b
    → score_hand_breakdown h a b ≡ some d
    → d.points a ≡ some p
    → d.points b ≡ some q
    → score_settled u
      ≡ some (record u {
        team_a = record u.team_a { score = u.team_a.score + p };
        team_b = record u.team_b { score = u.team_b.score + q };
        hand = some (record h { outcome = some (decided d) });
      })
unfolding score_settled award
score_settled-lem u h d a b p q k ea eb e f g =
    let e' : score_hand_breakdown h u.team_a.id u.team_b.id ≡ some d =
      ap (λ i. score_hand_breakdown h i u.team_b.id) ea ∙ ap (score_hand_breakdown h a) eb ∙ e in
    let f' : d.points u.team_a.id ≡ some p = ap d.points ea ∙ f in
    let g' : d.points u.team_b.id ≡ some q = ap d.points eb ∙ g in
    rw (score_settled, k, e') (rw (award, f', g') refl)

-- When the last card was played, with nobody holding a card and nothing in the stock, the hand is
-- settled: the state has a breakdown, and each team's score rises by the categories that it won in
-- that breakdown and by its escobas. Each team has a pile and a count of escobas, the teams differ,
-- and the last captor, if there is one, is one of them.
pub settle_hand_if_needed-scores :
    (s : MatchState) (h : HandState) (ea eb : ℕ)
    → s.hand ≡ some h
    → every (λ p. length p.hand == 0) s.players ≡ true
    → h.stock ≡ []
    → s.team_a.id ≢ s.team_b.id
    → IsScorable s.team_a.id s.team_b.id ea eb h
    → CaptorIn s.team_a.id s.team_b.id h.last_capturer
    → (t : MatchState) × (h' : HandState) × (d : HandScoreBreakdown) × (settle_hand_if_needed s
        ≡ some t)
      × (t.hand ≡ some h')
      × (h'.outcome ≡ some (decided d))
      × (t.team_a.score ≡ s.team_a.score + points_won d s.team_a.id ea)
      × (t.team_b.score ≡ s.team_b.score + points_won d s.team_b.id eb)
unfolding settle_hand_if_needed settle_hand settle_leftovers score_settled
settle_hand_if_needed-scores s h ea eb k empty stock ne x c =
    let (u, h', e, k', x', same_a, same_b) = leftovers-IsScorable s ea eb h h.last_capturer x k c in
    let a = s.team_a.id in
    let b = s.team_b.id in
    let (d, f) = scored a b ea eb h' x' in
    let (pa, pb, le) = score_hand_breakdown-points h' a b ea eb d ne x'.escobas_a x'.escobas_b f in
    let no_stock : length h.stock ≡ 0 = ap length stock in
    let none_left : ltb 0 (length h.stock) ≡ false = ground arith in
    let gone : settle_leftovers s ≡ some u = rw (settle_leftovers, k) e in
    let settled : settle_hand_if_needed s ≡ score_settled u =
      rw (settle_hand_if_needed, k) (rw (settle_hand, empty, none_left) (rw gone refl)) in
    let t = record u {
      team_a = record u.team_a { score = u.team_a.score + points_won d a ea };
      team_b = record u.team_b { score = u.team_b.score + points_won d b eb };
      hand = some (record h' { outcome = some (decided d) });
    } in
    (
      t,
      record h' { outcome = some (decided d) },
      d,
      settled
          ∙ score_settled-lem u h' d a b (points_won d a ea) (points_won d b eb) k'
              (ap (λ z. z.id) same_a) (ap (λ z. z.id) same_b) f pa pb,
      refl,
      refl,
      ap (λ z. z.score + points_won d a ea) same_a,
      ap (λ z. z.score + points_won d b eb) same_b,
    )
