-- ===== src/Escoba/View.antt =====
-- view.ts of packages/games/escoba-engine/src: what the table shows to a seat.
use convite.Prelude.{
  ℕ, same_id_iff, true, ◌≡◌, refl, sym, ap, ◌∙◌, subst, inl, inr, Bool-cases, Option-cases, not,
  String, List, [], ◌∷◌, Option, none, some, filter, map, same_id, length, length-map,
  if◌then◌else◌,
}
use mathlib.Core.Option.{some-injective}
use convite.Deck.{Card, card, r1, espada}
use convite.Escoba.State.{ByTeam, Player, HandOutcome, HandState, MatchState, find_player}

pub record OtherPlayerView : Type 0 where
  pub player_id : String
  pub team_id : String
  pub seat : ℕ
  pub cards_remaining : ℕ

pub record HandView : Type 0 where
  pub table : List Card
  pub piles : ByTeam (List Card)
  pub escobas : ByTeam ℕ
  pub turn : String
  pub stock_count : ℕ
  pub outcome : Option HandOutcome

pub record SelfView : Type 0 where
  pub player_id : String
  pub team_id : String
  pub seat : ℕ
  pub hand : List Card

pub record TeamView : Type 0 where
  pub id : String
  pub score : ℕ

pub record PlayerView : Type 0 where
  pub self : SelfView
  pub others : List OtherPlayerView
  pub team_a : TeamView
  pub team_b : TeamView
  pub hand : Option HandView
  pub dealer_seat : ℕ

abbrev pub hand_view : HandState → HandView
hand_view hand = record {
  table = hand.table;
  piles = hand.piles;
  escobas = hand.escobas;
  turn = hand.turn;
  stock_count = length hand.stock;
  outcome = hand.outcome;
}

abbrev pub option_hand_view : Option HandState → Option HandView
option_hand_view none = none
option_hand_view (some hand) = some (hand_view hand)

abbrev pub other_view : Player → OtherPlayerView
other_view player = record {
  player_id = player.id;
  team_id = player.team_id;
  seat = player.seat;
  cards_remaining = length player.hand;
}

unfoldable pub others_of : String → List Player → List OtherPlayerView
others_of self_id players = map other_view (filter (λ p. not (same_id p.id self_id)) players)

unfoldable pub view_of : MatchState → Player → PlayerView
view_of state self = record {
  self = record { player_id = self.id; team_id = self.team_id; seat = self.seat; hand = self.hand };
  others = others_of self.id state.players;
  team_a = record { id = state.team_a.id; score = state.team_a.score };
  team_b = record { id = state.team_b.id; score = state.team_b.score };
  hand = option_hand_view state.hand;
  dealer_seat = state.dealer_seat;
}

-- An unknown player is an exception, and no result here.
unfoldable pub get_view_for : MatchState → String → Option PlayerView
get_view_for state player_id = elim (find_player state.players player_id) [
  | none ↦ none
  | some self ↦ some (view_of state self)
]

abbrev pub blank_cards : List Card → List Card
blank_cards cards = map (λ c. card r1 espada) cards

-- A player as the viewer knows them: another player's cards are blank, and as many.
unfoldable pub blank : String → Player → Player
blank viewer p = if same_id p.id viewer then p else record p { hand = blank_cards p.hand }

-- The hand as the table knows it: the cards of the stock are blank, and as many.
abbrev pub covered : Option HandState → Option HandState
covered none = none
covered (some hand) = some (record hand { stock = blank_cards hand.stock; last_capturer = none })

-- The match without what the viewer must not learn.
unfoldable pub redact : String → MatchState → MatchState
redact viewer state = record state {
  players = map (blank viewer) state.players;
  hand = covered state.hand;
}

find_player-blank :
    (viewer : String) (players : List Player)
    → find_player (map (blank viewer) players) viewer ≡ find_player players viewer
unfolding find_player blank
find_player-blank viewer [] = refl
find_player-blank viewer (p ∷ players) = elim (Bool-cases (same_id p.id viewer)) [
  | inl f ↦ rw (blank, f, f) refl
  | inr f ↦ rw (blank, f, f) (find_player-blank viewer players)
]

find_player-same :
    (players : List Player) (id : String) (p : Player)
    → find_player players id ≡ some p
    → same_id p.id id ≡ true
unfolding find_player
find_player-same [] id p e = cc
find_player-same (q ∷ players) id p e = elim (Bool-cases (same_id q.id id)) [
  | inl f ↦ subst (λ x. same_id x.id id ≡ true) (some-injective q p (rw f at e)) f
  | inr f ↦ find_player-same players id p (rw f at e)
]

others_of-blank :
    (viewer : String) (players : List Player)
    → others_of viewer (map (blank viewer) players) ≡ others_of viewer players
unfolding others_of blank
others_of-blank viewer [] = refl
others_of-blank viewer (p ∷ players) = elim (Bool-cases (same_id p.id viewer)) [
  | inl f ↦ rw (blank, f, f) (others_of-blank viewer players)
  | inr f ↦
      rw (blank, f, f, length-map (λ c. card r1 espada) p.hand, others_of-blank viewer players) refl
]

option_hand_view-covered :
    (o : Option HandState) → option_hand_view (covered o) ≡ option_hand_view o
option_hand_view-covered none = refl
option_hand_view-covered (some h) = rw (length-map (λ c. card r1 espada) h.stock) refl

view_of-redact : (s : MatchState) (self : Player) → view_of (redact self.id s) self ≡ view_of s self
unfolding view_of redact
view_of-redact s self = rw (others_of-blank self.id s.players, option_hand_view-covered s.hand) refl

get_view_for-redact :
    (s : MatchState) (viewer : String)
    → get_view_for (redact viewer s) viewer ≡ get_view_for s viewer
unfolding get_view_for redact
get_view_for-redact s viewer = elim (Option-cases (find_player s.players viewer)) [
  | inl f ↦ rw (get_view_for, find_player-blank viewer s.players, f) refl
  | inr (self, f) ↦
      let same = (same_id_iff self.id viewer).0 (find_player-same s.players viewer self f) in
      let e =
        subst (λ i. view_of (redact i s) self ≡ view_of s self) same (view_of-redact s self) in
      rw (get_view_for, find_player-blank viewer s.players, f) (ap some e)
]

-- Two matches that redact makes the same for a viewer give that viewer the same view: getViewFor does not
-- depend on the cards of other players or of the stock but for their number, or on who captured last.
pub view-redact_only :
    (s t : MatchState) (viewer : String)
    → redact viewer s ≡ redact viewer t
    → get_view_for s viewer ≡ get_view_for t viewer
view-redact_only s t viewer e =
    sym (get_view_for-redact s viewer)
    ∙ ap (λ x. get_view_for x viewer) e
    ∙ get_view_for-redact t viewer
