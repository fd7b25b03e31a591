-- ===== src/Truco/BestSaid.antt =====
-- About the round of declarations of envido-chain.ts: who has the best declaration.
use convite.Prelude.{
  ℕ, ◌<◌, ◌≡◌, ◌⊎◌, refl, sym, ap, subst, inl, inr, true, false, ltb, Bool-cases, All, List, [],
  ◌∷◌, ◌++◌, map, Option, none, some, length, arith, String,
}
use mathlib.Core.Option.{some-injective}
use convite.Deck.{Card, rank_of}
use convite.Truco.State.{Player, EnvidoDeclaration, points_said, son_buenas, HandState, MatchState}
use convite.Truco.Tantos.{
  best_pair, by_suit, best_single, larger, envido_rank_value, calculate_envido_points,
}
use convite.Truco.Envido.{Said, is_more, best_declaration, dealt_cards_for}
use convite.Truco.Declaring.{
  entry_of, rotation_from, declarations_from, resolve_envido_declarations,
}

abbrev Below : Said → EnvidoDeclaration → Type 0
Below b (points_said id team seat q) = is_more b.points q ≡ true
Below b (son_buenas id team seat) = Unit

abbrev NotAbove : Said → EnvidoDeclaration → Type 0
NotAbove b (points_said id team seat q) = is_more q b.points ≡ false
NotAbove b (son_buenas id team seat) = Unit

-- The first of the highest numbers said.
pub record IsFirstBest (b : Said) (said : List EnvidoDeclaration) : Type 0 where
  pub earlier : List EnvidoDeclaration
  pub later : List EnvidoDeclaration
  pub player_id : String
  pub seat : ℕ
  pub split : said ≡ earlier ++ points_said player_id b.team_id seat b.points ∷ later
  pub lower : All (Below b) earlier
  pub not_higher : All (NotAbove b) later

is_more_trans : (a b c : Option ℕ) → is_more a b ≡ true → is_more b c ≡ true → is_more a c ≡ true
is_more_trans none b c e f = cc
is_more_trans (some a) none c e f = cc
is_more_trans (some a) (some b) none e f = refl
is_more_trans (some a) (some b) (some c) e f = ground arith

is_more_unless : (a b c : Option ℕ) → is_more a b ≡ true → is_more c b ≡ false → is_more a c ≡ true
is_more_unless none b c e f = cc
is_more_unless (some a) b none e f = refl
is_more_unless (some a) none (some c) e f = cc
is_more_unless (some a) (some b) (some c) e f = ground arith

first :
    (b : Said) (id : String) (seat : ℕ) (said : List EnvidoDeclaration)
    → All (NotAbove b) said
    → IsFirstBest b (points_said id b.team_id seat b.points ∷ said)
first b id seat said h = record {
  earlier = [];
  later = said;
  player_id = id;
  seat = seat;
  split = refl;
  lower = tt;
  not_higher = h;
}

after :
    (b : Said) (d : EnvidoDeclaration) (said : List EnvidoDeclaration)
    → Below b d
    → IsFirstBest b said
    → IsFirstBest b (d ∷ said)
after b d said h i = record {
  earlier = d ∷ i.earlier;
  later = i.later;
  player_id = i.player_id;
  seat = i.seat;
  split = ap (λ x. d ∷ x) i.split;
  lower = (h, i.lower);
  not_higher = i.not_higher;
}

from_winner :
    (w b : Said) (said : List EnvidoDeclaration)
    → best_declaration (some w) said ≡ some b
    → (w ≡ b) × All (NotAbove b) said ⊎ (is_more b.points w.points ≡ true) × IsFirstBest b said
unfolding best_declaration
from_winner w b [] e = inl (some-injective w b e, tt)
from_winner w b (son_buenas id team seat ∷ said) e = elim (from_winner w b said e) [
  | inl (same, h) ↦ inl (same, (tt, h))
  | inr (more, i) ↦ inr (more, after b (son_buenas id team seat) said tt i)
]
from_winner w b (points_said id team seat q ∷ said) e =
    let c : Said = record { team_id = team; points = q } in
    elim (Bool-cases (is_more q w.points)) [
      | inl f ↦ elim (from_winner c b said (rw f at e)) [
        | inl (same, h) ↦ inr (
          subst (λ x. is_more x.points w.points ≡ true) same f,
          subst (λ x. IsFirstBest b (points_said id x.team_id seat x.points ∷ said)) (sym same)
              (first b id seat said h),
        )
        | inr (more, i) ↦ inr (
          is_more_trans b.points q w.points more f,
          after b (points_said id team seat q) said more i,
        )
      ]
      | inr f ↦ elim (from_winner w b said (rw f at e)) [
        | inl (same, h) ↦ inl (same, (subst (λ x. is_more q x.points ≡ false) same f, h))
        | inr (more, i) ↦ inr (
          more,
          after b (points_said id team seat q) said (is_more_unless b.points w.points q more f) i,
        )
      ]
    ]

-- The best declaration of a round is one of its declarations with a number; every number said before it
-- is lower and no number said after it is higher, so a tie goes to the one who spoke first.
pub best_declaration-IsFirstBest :
    (said : List EnvidoDeclaration) (b : Said)
    → best_declaration none said ≡ some b
    → IsFirstBest b said
unfolding best_declaration
best_declaration-IsFirstBest [] b e = cc
best_declaration-IsFirstBest (son_buenas id team seat ∷ said) b e =
    after b (son_buenas id team seat) said tt (best_declaration-IsFirstBest said b e)
best_declaration-IsFirstBest (points_said id team seat q ∷ said) b e =
    let c : Said = record { team_id = team; points = q } in
    elim (from_winner c b said e) [
      | inl (same, h) ↦
          subst (λ x. IsFirstBest b (points_said id x.team_id seat x.points ∷ said)) (sym same)
            (first b id seat said h)
      | inr (more, i) ↦ after b (points_said id team seat q) said more i
    ]

-- The last declaration with a number, or the given one.
pub last_said : Option Said → List EnvidoDeclaration → Option Said
last_said w [] = w
last_said w (points_said id team seat q ∷ said) =
    last_said (some (record { team_id = team; points = q })) said
last_said w (son_buenas id team seat ∷ said) = last_said w said

abbrev best_so_far : Option Said → Option ℕ
best_so_far none = none
best_so_far (some w) = w.points

points_of_cards :
    (c : Card) (cards : List Card) → (n : ℕ) × (calculate_envido_points (c ∷ cards) ≡ some n)
unfolding calculate_envido_points best_single
points_of_cards c cards = elim (Bool-cases (ltb 0 (best_pair (by_suit (c ∷ cards) [])))) [
  | inl f ↦ (best_pair (by_suit (c ∷ cards) []), rw (calculate_envido_points, f) refl)
  | inr f ↦ (
    larger (envido_rank_value (rank_of c)) (best_single cards),
    rw (calculate_envido_points, f) refl,
  )
]

has_points :
    (cards : List Card) → 0 < length cards → (n : ℕ) × (calculate_envido_points cards ≡ some n)
has_points [] h = elim h [ ]
has_points (c ∷ cards) h = points_of_cards c cards

declarations_from-last_said :
    (h : HandState) (w : Option Said) (rotation : List Player)
    → All (λ p. 0 < length (dealt_cards_for h p)) rotation
    → last_said w (declarations_from h (best_so_far w) rotation)
      ≡ best_declaration w (map (λ p. entry_of h p true) rotation)
unfolding last_said declarations_from best_declaration entry_of
declarations_from-last_said h w [] cards = refl
declarations_from-last_said h none (p ∷ rotation) (some_card, cards) =
    let (n, e) = has_points (dealt_cards_for h p) some_card in
    let next : Said = record { team_id = p.team_id; points = some n } in
    rw e (declarations_from-last_said h (some next) rotation cards)
declarations_from-last_said h (some w) (p ∷ rotation) (some_card, cards) =
    let q = calculate_envido_points (dealt_cards_for h p) in
    let next : Said = record { team_id = p.team_id; points = q } in
    elim (Bool-cases (is_more q w.points)) [
      | inl f ↦ rw f (declarations_from-last_said h (some next) rotation cards)
      | inr f ↦ rw f (declarations_from-last_said h (some w) rotation cards)
    ]

-- When the players from the mano on all were dealt cards, resolveEnvidoDeclarations has a result, and
-- its last declaration with a number is the best declaration of a round in which all of them say their
-- points in that order.
pub resolve_envido_declarations-best :
    (s : MatchState) (h : HandState) (mano_seat : ℕ) (rotation : List Player)
    → s.hand ≡ some h
    → rotation_from s.players (length s.players) mano_seat (length s.players) ≡ some rotation
    → All (λ p. 0 < length (dealt_cards_for h p)) rotation
    → (said : List EnvidoDeclaration) × (resolve_envido_declarations s mano_seat ≡ some said)
      × (last_said none said ≡ best_declaration none (map (λ p. entry_of h p true) rotation))
unfolding resolve_envido_declarations
resolve_envido_declarations-best s h mano_seat rotation k e cards = (
  declarations_from h none rotation,
  rw (resolve_envido_declarations, e, k) refl,
  declarations_from-last_said h none rotation cards,
)
