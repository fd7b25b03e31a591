-- ===== src/Truco/Matches.antt =====
-- About the matches of packages/games/truco-module/src/index.ts: what holds whenever they are played.
use convite.Prelude.{
  ℕ, ◌≤◌, ◌≡◌, sym, ap, subst, inl, inr, ◌==◌, Bool-cases, Option-cases, String, List, Option, none,
  some, arith, length, same_id,
}
use mathlib.Core.Option.{some-injective}
use convite.Deck.{Card}
use convite.Truco.State.{
  HandState, MatchState, get_match_winner, rotate_dealer, deal_players, start_hand,
}
use convite.Truco.Chain.{is_decided, is_legal_truco, get_legal_truco_actions, apply_truco_action}
use convite.Truco.CardPlay.{is_legal_card_play, get_legal_card_play_actions, apply_card_play_action}
use convite.Truco.Senas.{senas_sent_by, is_legal_sena, get_legal_sena_actions, apply_sena_action}
use convite.Truco.Envido.{is_legal_envido, get_legal_envido_actions}
use convite.Truco.Declaring.{apply_envido_action}
use convite.Truco.Consult.{is_legal_consult, get_legal_consult_actions, apply_consult_action}
use convite.Truco.Engine.{
  Action, truco_action, envido_action, play_card, send_sena, consult_partner, Applied, apply_action,
}
use convite.Truco.Spending.{apply_action-spends}
use convite.Platform.Seats.{SeatAssignment, by_seat}
use convite.Truco.Seating.{
  two_seated, four_seated, seated_at, create_head_to_head_match, create_team_match, create_match,
  create_match2v2, TrucoModuleAction, engine_action, deal_hand, ok, from_engine, from_deal,
  deal_next, apply_deal, apply_module_action,
}

-- The states of the matches of two and of four players.
pub data IsReachable : MatchState → Type 0 where
  seated2 :
      {s : MatchState} (points : ℕ) (seats : List SeatAssignment)
      → create_match points seats ≡ some s
      → IsReachable s
  seated4 :
      {s : MatchState} (points : ℕ) (seats : List SeatAssignment)
      → create_match2v2 points seats ≡ some s
      → IsReachable s
  played :
      {s t : MatchState} (action : TrucoModuleAction)
      → IsReachable s
      → apply_module_action s action ≡ ok t
      → IsReachable t

-- What a player has spent on signals and consults in the hand of a match.
abbrev pub spent : Option HandState → String → ℕ
spent none id = 0
spent (some h) id = senas_sent_by h.senas_sent id

ok-injective : {s t : MatchState} → ok s ≡ ok t → s ≡ t
ok-injective e = cc

two_seated-hand :
    (points : ℕ) (a b : Option String) (s : MatchState)
    → two_seated points a b ≡ some s
    → s.hand ≡ none
unfolding create_head_to_head_match
two_seated-hand points none b s e = cc
two_seated-hand points (some a) none s e = cc
two_seated-hand points (some a) (some b) s e = ap (λ x. x.hand) (sym (some-injective _ s e))

four_seated-hand :
    (points : ℕ) (a b c d : Option String) (s : MatchState)
    → four_seated points a b c d ≡ some s
    → s.hand ≡ none
unfolding create_team_match
four_seated-hand points none b c d s e = cc
four_seated-hand points (some a) none c d s e = cc
four_seated-hand points (some a) (some b) none d s e = cc
four_seated-hand points (some a) (some b) (some c) none s e = cc
four_seated-hand points (some a) (some b) (some c) (some d) s e =
    ap (λ x. x.hand) (sym (some-injective _ s e))

-- Nothing is legal where no hand is dealt.
no_action : (s t : MatchState) (a : Action) → s.hand ≡ none → ¬ (apply_action s a ≡ Applied.ok t)
unfolding apply_action apply_truco_action apply_envido_action apply_card_play_action
    apply_sena_action apply_consult_action is_legal_truco get_legal_truco_actions is_legal_envido
    get_legal_envido_actions is_legal_card_play get_legal_card_play_actions is_legal_sena
    get_legal_sena_actions is_legal_consult get_legal_consult_actions
no_action s t (truco_action a) k e =
    cc (rw (apply_truco_action, is_legal_truco, get_legal_truco_actions, k) at e)
no_action s t (envido_action a) k e =
    cc (rw (apply_envido_action, is_legal_envido, get_legal_envido_actions, k) at e)
no_action s t (play_card a) k e =
    cc (rw (apply_card_play_action, is_legal_card_play, get_legal_card_play_actions, k) at e)
no_action s t (send_sena a) k e =
    cc (rw (apply_sena_action, is_legal_sena, get_legal_sena_actions, k) at e)
no_action s t (consult_partner a) k e =
    cc (rw (apply_consult_action, is_legal_consult, get_legal_consult_actions, k) at e)

from_engine-ok : (r : Applied) (t : MatchState) → from_engine r ≡ ok t → r ≡ Applied.ok t
from_engine-ok (Applied.ok u) t e = cc
from_engine-ok Applied.violation t e = cc
from_engine-ok Applied.thrown t e = cc
from_engine-ok Applied.out_of_range t e = cc

start_hand-spent :
    (s t : MatchState) (deal : List (List Card)) (id : String)
    → from_deal (start_hand s deal) ≡ ok t
    → spent t.hand id ≡ 0
unfolding start_hand senas_sent_by
start_hand-spent s t deal id e = elim (Option-cases (deal_players deal s.players)) [
  | inl f ↦ cc (rw (start_hand, f) at e)
  | inr (players, f) ↦ ap (λ x. spent x.hand id) (sym (ok-injective (rw (start_hand, f) at e)))
]

deal_next-spent :
    (o : Option HandState) (s t : MatchState) (deal : List (List Card)) (id : String)
    → deal_next o s deal ≡ ok t
    → spent t.hand id ≡ 0
deal_next-spent none s t deal id e = start_hand-spent s t deal id e
deal_next-spent (some h) s t deal id e = elim (Bool-cases (is_decided h.outcome)) [
  | inl f ↦ start_hand-spent (rotate_dealer s) t deal id (rw f at e)
  | inr f ↦ cc (rw f at e)
]

apply_deal-spent :
    (s t : MatchState) (player_id : String) (deal : List (List Card)) (id : String)
    → apply_deal s player_id deal ≡ ok t
    → spent t.hand id ≡ 0
unfolding apply_deal
apply_deal-spent s t player_id deal id e = elim (Bool-cases (same_id player_id "__system__")) [
  | inr f ↦ cc (rw (apply_deal, f) at e)
  | inl f ↦ elim (Option-cases (get_match_winner s)) [
    | inr (team, g) ↦ cc (rw (apply_deal, f, g) at e)
    | inl g ↦ deal_next-spent s.hand s t deal id (rw (apply_deal, f, g) at e)
  ]
]

engine-spent :
    (s t : MatchState) (a : Action) (id : String)
    → spent s.hand id ≤ 3
    → apply_action s a ≡ Applied.ok t
    → spent t.hand id ≤ 3
engine-spent s t a id low e = elim (Option-cases s.hand) [
  | inl k ↦ absurd (no_action s t a k e)
  | inr (h, k) ↦
      let (h', at_hand, exact, most) = apply_action-spends s t h a id k e in
      let low' : senas_sent_by h.senas_sent id ≤ 3 = subst (λ o. spent o id ≤ 3) k low in
      subst (λ o. spent o id ≤ 3) (sym at_hand) (omega (arith, most, low'))
]

-- In every state of a match that the module seats, whatever is dealt and played, no player has spent more
-- than three signals and consults in the hand.
pub IsReachable-spent : (s : MatchState) (id : String) → IsReachable s → spent s.hand id ≤ 3
unfolding create_match create_match2v2 apply_module_action
IsReachable-spent s id (seated2 points seats e) = elim (Bool-cases (length seats == 2)) [
  | inr f ↦ cc (rw (create_match, f) at e)
  | inl f ↦
      let k =
        two_seated-hand points (seated_at 0 seats) (seated_at 1 seats) s
          (rw (create_match, f) at e) in
      subst (λ o. spent o id ≤ 3) (sym k) (omega arith)
]
IsReachable-spent s id (seated4 points seats e) = elim (Bool-cases (length seats == 4)) [
  | inr f ↦ cc (rw (create_match2v2, f) at e)
  | inl f ↦
      let k =
        four_seated-hand points (by_seat 0 seats) (by_seat 1 seats) (by_seat 2 seats)
          (by_seat 3 seats) s (rw (create_match2v2, f) at e) in
      subst (λ o. spent o id ≤ 3) (sym k) (omega arith)
]
IsReachable-spent t id (played {s = s} (engine_action a) r e) =
    engine-spent s t a id (IsReachable-spent s id r) (from_engine-ok (apply_action s a) t e)
IsReachable-spent t id (played {s = s} (deal_hand player_id deal) r e) =
    let none_spent = apply_deal-spent s t player_id deal id e in omega (arith, none_spent)
