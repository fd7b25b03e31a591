-- ===== src/Truco/Redacted.antt =====
-- About getViewFor of view.ts: the match without what a viewer must not learn.
use convite.Prelude.{
  ◌≡◌, refl, sym, subst, inl, inr, Bool, true, ◌&&◌, Bool-cases, String, List, [], ◌∷◌, Option,
  none, some, find, filter, any, map, same_id, same_id_iff, length-map, if◌then◌else◌,
}
use convite.Deck.{card, r1, espada}
use convite.Truco.State.{Player, SenaEvent, SenaSendCount, HandState, MatchState}
use convite.Truco.Chain.{find_player}
use convite.Truco.View.{opponents_of}

-- Whether an identifier is that of a player of the team.
unfoldable pub is_on_team : String → List Player → String → Bool
is_on_team team players id = any (λ p. same_id p.id id && same_id p.team_id team) players

-- A player as the viewer knows them: another player's cards are blank, and as many.
unfoldable pub blank : String → Player → Player
blank viewer p =
    if same_id p.id viewer then p else record p { hand = map (λ c. card r1 espada) p.hand }

-- The hand as the viewer knows it: the signals of the own team and the own count.
unfoldable pub hushed : String → String → List Player → HandState → HandState
hushed viewer team players hand = record hand {
  senas = filter (λ e. is_on_team team players e.player_id) hand.senas;
  senas_sent = filter (λ e. same_id e.player_id viewer) hand.senas_sent;
}

abbrev pub hushed_option : String → String → List Player → Option HandState → Option HandState
hushed_option viewer team players none = none
hushed_option viewer team players (some hand) = some (hushed viewer team players hand)

abbrev pub team_of : Option Player → String
team_of none = ""
team_of (some self) = self.team_id

-- The match without what the viewer must not learn: the cards of the others, the signals of the other
-- team, and how many signals anybody else sent.
unfoldable pub redact : String → MatchState → MatchState
redact viewer state = record state {
  players = map (blank viewer) state.players;
  hand = hushed_option viewer (team_of (find_player state.players viewer)) state.players state.hand;
}

pub find_player-blank :
    (viewer : String) (players : List Player)
    → find_player (map (blank viewer) players) viewer ≡ find_player players viewer
unfolding find_player blank
find_player-blank viewer [] = refl
find_player-blank viewer (p ∷ players) = elim (Bool-cases (same_id p.id viewer)) [
  | inl f ↦ rw (blank, f, f) refl
  | inr f ↦ rw (blank, f, f) (find_player-blank viewer players)
]

pub opponents_of-blank :
    (self : Player) (players : List Player)
    → opponents_of self (map (blank self.id) players) ≡ opponents_of self players
unfolding opponents_of blank
opponents_of-blank self [] = refl
opponents_of-blank self (p ∷ players) = elim (Bool-cases (same_id p.id self.id)) [
  | inl f ↦ rw (blank, f, f) (opponents_of-blank self players)
  | inr f ↦ elim (Bool-cases (same_id p.team_id self.team_id)) [
    | inl g ↦ rw (blank, f, f, g) (opponents_of-blank self players)
    | inr g ↦
        rw
          (blank, f, f, g, length-map (λ c. card r1 espada) p.hand, opponents_of-blank self players)
          refl
  ]
]

pub find-filter_kept :
    (keep : String → Bool) (senas : List SenaEvent) (id : String)
    → keep id ≡ true
    → find (λ e. same_id e.player_id id) (filter (λ e. keep e.player_id) senas)
      ≡ find (λ e. same_id e.player_id id) senas
find-filter_kept keep [] id h = refl
find-filter_kept keep (e ∷ senas) id h = elim (Bool-cases (same_id e.player_id id)) [
  | inl f ↦
      let k : keep e.player_id ≡ true =
        subst (λ x. keep x ≡ true) (sym ((same_id_iff e.player_id id).0 f)) h in
      rw (k, f) refl
  | inr f ↦ elim (Bool-cases (keep e.player_id)) [
    | inl g ↦ rw (g, f) (find-filter_kept keep senas id h)
    | inr g ↦ rw (g, f) (find-filter_kept keep senas id h)
  ]
]

pub find-filter_own :
    (sent : List SenaSendCount) (id : String)
    → find (λ e. same_id e.player_id id) (filter (λ e. same_id e.player_id id) sent)
      ≡ find (λ e. same_id e.player_id id) sent
find-filter_own [] id = refl
find-filter_own (e ∷ sent) id = elim (Bool-cases (same_id e.player_id id)) [
  | inl f ↦ rw f (rw f refl)
  | inr f ↦ rw f (find-filter_own sent id)
]
