-- ===== src/Truco/Secrets.antt =====
-- About getViewFor of view.ts: what a view depends on.
use convite.Prelude.{
  ℕ, ◌-◌, ◌≡◌, refl, sym, ap, ◌∙◌, subst, inl, inr, Bool, true, Bool-cases, String, List, [], ◌∷◌,
  Option, none, some, filter, map, same_id, same_id_refl, length-map, arith, All,
}
use mathlib.Core.Option.{some-injective}
use convite.Deck.{card, r1, espada}
use convite.Truco.State.{Player, SenaEvent, HandState, MatchState}
use convite.Truco.Chain.{find_player}
use convite.Truco.Senas.{count_or_zero, senas_sent_by, get_senas_remaining}
use convite.Truco.SentCount.{find_player-at}
use convite.Truco.View.{
  sena_view, senas_of, last_sena_in, last_sena_for, teammates_of, option_hand_view, view_of,
  get_view_for,
}
use convite.Truco.Redacted.{
  is_on_team, blank, hushed, hushed_option, team_of, redact, find_player-blank, opponents_of-blank,
  find-filter_kept, find-filter_own,
}

All-imp {ℓ κ μ} :
    {A : Type ℓ} (P : A → Type κ) (Q : A → Type μ) (xs : List A)
    → ((x : A) → P x → Q x)
    → All P xs
    → All Q xs
All-imp P Q [] f h = tt
All-imp P Q (x ∷ xs) f h = (f x h.0, All-imp P Q xs f h.1)

members :
    (team : String) (players : List Player)
    → All (λ p. same_id p.team_id team ≡ true → is_on_team team players p.id ≡ true) players
unfolding is_on_team
members team [] = tt
members team (p ∷ players) = (
  λ e. let self = same_id_refl p.id in rw (self, e) refl,
  All-imp (λ q. same_id q.team_id team ≡ true → is_on_team team players q.id ≡ true)
      (λ q. same_id q.team_id team ≡ true → is_on_team team (p ∷ players) q.id ≡ true) players
      (λ q f e. let g = f e in ground (arith, g)) (members team players),
)

is_on_team_self :
    (players : List Player) (id : String) (p : Player)
    → find_player players id ≡ some p
    → is_on_team p.team_id players id ≡ true
unfolding is_on_team find_player
is_on_team_self [] id p e = cc
is_on_team_self (q ∷ players) id p e = elim (Bool-cases (same_id q.id id)) [
  | inl f ↦
      let same = some-injective q p (rw f at e) in
      let own = same_id_refl p.team_id in
      let own' : same_id q.team_id p.team_id ≡ true =
        subst (λ x. same_id x.team_id p.team_id ≡ true) (sym same) own in
      rw (f, own') refl
  | inr f ↦ rw f (is_on_team_self players id p (rw f at e))
]

last_sena_in-kept :
    (keep : String → Bool) (senas : List SenaEvent) (id : String)
    → keep id ≡ true
    → last_sena_in (filter (λ e. keep e.player_id) senas) id ≡ last_sena_in senas id
unfolding last_sena_in
last_sena_in-kept keep senas id h = ap sena_view (find-filter_kept keep senas id h)

teammates_of-kept :
    (keep : String → Bool) (senas : List SenaEvent) (self : Player) (players : List Player)
    → All (λ p. same_id p.team_id self.team_id ≡ true → keep p.id ≡ true) players
    → teammates_of (filter (λ e. keep e.player_id) senas) self (map (blank self.id) players)
      ≡ teammates_of senas self players
unfolding teammates_of blank
teammates_of-kept keep senas self [] h = refl
teammates_of-kept keep senas self (p ∷ players) h =
    let rest = teammates_of-kept keep senas self players h.1 in
    elim (Bool-cases (same_id p.id self.id)) [
      | inl f ↦ rw (blank, f, f) rest
      | inr f ↦ elim (Bool-cases (same_id p.team_id self.team_id)) [
        | inl g ↦
            rw
              (
                blank,
                f,
                f,
                g,
                length-map (λ c. card r1 espada) p.hand,
                last_sena_in-kept keep senas p.id (h.0 g),
                rest,
              )
              refl
        | inr g ↦ rw (blank, f, f, g) rest
      ]
    ]

senas_of-hushed :
    (viewer team : String) (players : List Player) (o : Option HandState)
    → senas_of (hushed_option viewer team players o)
      ≡ filter (λ e. is_on_team team players e.player_id) (senas_of o)
unfolding hushed
senas_of-hushed viewer team players none = refl
senas_of-hushed viewer team players (some h) = refl

option_hand_view-hushed :
    (viewer team : String) (players : List Player) (o : Option HandState)
    → option_hand_view (hushed_option viewer team players o) ≡ option_hand_view o
unfolding hushed
option_hand_view-hushed viewer team players none = refl
option_hand_view-hushed viewer team players (some h) = refl

abbrev sent_in : Option HandState → String → ℕ
sent_in none id = 0
sent_in (some h) id = senas_sent_by h.senas_sent id

sent_in-hushed :
    (viewer team : String) (players : List Player) (o : Option HandState)
    → sent_in (hushed_option viewer team players o) viewer ≡ sent_in o viewer
unfolding hushed senas_sent_by
sent_in-hushed viewer team players none = refl
sent_in-hushed viewer team players (some h) = ap count_or_zero (find-filter_own h.senas_sent viewer)

remaining_in :
    (o : Option HandState) (id : String)
    → (elim o [ none ↦ 3 | some h ↦ 3 - senas_sent_by h.senas_sent id ]) ≡ 3 - sent_in o id
remaining_in none id = refl
remaining_in (some h) id = refl

get_senas_remaining-redact :
    (viewer : String) (s : MatchState)
    → get_senas_remaining (redact viewer s) viewer ≡ get_senas_remaining s viewer
unfolding get_senas_remaining redact
get_senas_remaining-redact viewer s =
    let team = team_of (find_player s.players viewer) in
    remaining_in (hushed_option viewer team s.players s.hand) viewer
    ∙ ap (λ n. 3 - n) (sent_in-hushed viewer team s.players s.hand)
    ∙ sym (remaining_in s.hand viewer)

view_of-redact :
    (s : MatchState) (self : Player)
    → find_player s.players self.id ≡ some self
    → view_of (redact self.id s) self ≡ view_of s self
unfolding view_of redact last_sena_for
view_of-redact s self e =
    let team : team_of (find_player s.players self.id) ≡ self.team_id = ap team_of e in
    let keep = is_on_team (team_of (find_player s.players self.id)) s.players in
    let heard =
      senas_of-hushed self.id (team_of (find_player s.players self.id)) s.players s.hand in
    let own : keep self.id ≡ true =
      subst (λ t. is_on_team t s.players self.id ≡ true) (sym team)
        (is_on_team_self s.players self.id self e) in
    let partners : All (λ p. same_id p.team_id self.team_id ≡ true → keep p.id ≡ true) s.players =
      subst
        (λ t.
          All (λ p. same_id p.team_id self.team_id ≡ true → is_on_team t s.players p.id ≡ true)
            s.players)
        (sym team) (members self.team_id s.players) in
    let mine =
      ap (λ x. last_sena_in x self.id) heard
      ∙ last_sena_in-kept keep (senas_of s.hand) self.id own in
    let theirs =
      ap (λ x. teammates_of x self (map (blank self.id) s.players)) heard
      ∙ teammates_of-kept keep (senas_of s.hand) self s.players partners in
    rw
      (
        mine,
        theirs,
        get_senas_remaining-redact self.id s,
        opponents_of-blank self s.players,
        option_hand_view-hushed self.id (team_of (find_player s.players self.id)) s.players s.hand,
      )
      refl

-- A view is the view of the redacted match.
get_view_for-redact :
    (s : MatchState) (viewer : String)
    → get_view_for (redact viewer s) viewer ≡ get_view_for s viewer
unfolding get_view_for redact
get_view_for-redact s viewer = elim (find_player-at s.players viewer) [
  | inl f ↦ rw (get_view_for, find_player-blank viewer s.players, f) refl
  | inr (self, same, f) ↦
      let own = subst (λ i. find_player s.players i ≡ some self) (sym same) f in
      let e =
        subst (λ i. view_of (redact i s) self ≡ view_of s self) same (view_of-redact s self own) in
      rw (get_view_for, find_player-blank viewer s.players, f) (ap some e)
]

-- Two matches that redact makes the same for a viewer give that viewer the same view: getViewFor does not
-- depend on the cards of other players but for their number, on the signals of the other team, or on how
-- many signals others have sent.
pub get_view_for-redact_only :
    (s t : MatchState) (viewer : String)
    → redact viewer s ≡ redact viewer t
    → get_view_for s viewer ≡ get_view_for t viewer
get_view_for-redact_only s t viewer e =
    sym (get_view_for-redact s viewer)
    ∙ ap (λ x. get_view_for x viewer) e
    ∙ get_view_for-redact t viewer
