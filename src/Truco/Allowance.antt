-- ===== src/Truco/Allowance.antt =====
-- About applyAction of truco-chain.ts: the actions that send no signal, and the limit on those that do.
use convite.Prelude.{
  ℕ, Bool, ◌-◌, ◌<◌, ◌≡◌, inl, inr, ◌==◌, Bool-cases, Option-cases, true, not, ◌&&◌, String, some,
  arith,
}
use convite.Truco.State.{HandState, MatchState, get_match_winner}
use convite.Truco.Chain.{
  find_player, is_decided, is_legal_truco, apply_truco_action, ApplyResult, TrucoAction,
}
use convite.Truco.CardPlay.{PlayCardAction, PlayResult, is_legal_card_play, apply_card_play_action}
use convite.Truco.Senas.{
  SendSenaAction, has_teammate, senas_sent_by, get_senas_remaining, get_legal_sena_actions,
  is_legal_sena,
}
use convite.Truco.Envido.{EnvidoAction, EnvidoResult, is_legal_envido}
use convite.Truco.Declaring.{apply_envido_action}
use convite.Truco.Consult.{ConsultPartnerAction, is_legal_consult, get_legal_consult_actions}
use convite.Truco.Engine.{
  Action, truco_action, envido_action, play_card, send_sena, consult_partner,
}
use convite.Truco.Quota.{Silent, make_move-Silent, make_envido_move-Silent, play_card-Silent}
use convite.Truco.SentCount.{one_for}

-- What an action takes from the quota of a player.
unfoldable pub spends : Action → String → ℕ
spends (send_sena a) x = one_for a.player_id x
spends (consult_partner a) x = one_for a.player_id x
spends (truco_action a) x = 0
spends (envido_action a) x = 0
spends (play_card a) x = 0

pub apply_truco_action-Silent :
    (s t : MatchState) (h : HandState) (a : TrucoAction)
    → s.hand ≡ some h
    → apply_truco_action s a ≡ ApplyResult.ok t
    → Silent h t
unfolding apply_truco_action
apply_truco_action-Silent s t h a k e = elim (Bool-cases (is_legal_truco s a)) [
  | inr f ↦ cc (rw (apply_truco_action, f) at e)
  | inl f ↦ elim (Option-cases (find_player s.players a.player_id)) [
    | inl g ↦ cc (rw (apply_truco_action, f, k, g) at e)
    | inr (p, g) ↦ make_move-Silent s t h p a.move (rw (apply_truco_action, f, k, g) at e)
  ]
]

pub apply_envido_action-Silent :
    (s t : MatchState) (h : HandState) (a : EnvidoAction)
    → s.hand ≡ some h
    → apply_envido_action s a ≡ EnvidoResult.ok t
    → Silent h t
unfolding apply_envido_action
apply_envido_action-Silent s t h a k e = elim (Bool-cases (is_legal_envido s a)) [
  | inr f ↦ cc (rw (apply_envido_action, f) at e)
  | inl f ↦ elim (Option-cases (find_player s.players a.player_id)) [
    | inl g ↦ cc (rw (apply_envido_action, f, k, g) at e)
    | inr (p, g) ↦ make_envido_move-Silent s t h p a.move (rw (apply_envido_action, f, k, g) at e)
  ]
]

pub apply_card_play_action-Silent :
    (s t : MatchState) (h : HandState) (a : PlayCardAction)
    → s.hand ≡ some h
    → apply_card_play_action s a ≡ PlayResult.ok t
    → Silent h t
unfolding apply_card_play_action
apply_card_play_action-Silent s t h a k e = elim (Bool-cases (is_legal_card_play s a)) [
  | inr f ↦ cc (rw (apply_card_play_action, f) at e)
  | inl f ↦ elim (Option-cases (find_player s.players a.player_id)) [
    | inl g ↦ cc (rw (apply_card_play_action, f, k, g) at e)
    | inr (p, g) ↦ play_card-Silent s t h p a.card (rw (apply_card_play_action, f, k, g) at e)
  ]
]

-- What is left when the quota is not used up.
below_cap :
    (s : MatchState) (h : HandState) (x : String) (b : Bool)
    → s.hand ≡ some h
    → (b && not (get_senas_remaining s x == 0)) ≡ true
    → senas_sent_by h.senas_sent x < 3
unfolding get_senas_remaining
below_cap s h x b k e =
    let e' : (b && not (3 - senas_sent_by h.senas_sent x == 0)) ≡ true =
      rw (get_senas_remaining, k) at e in
    ground (arith, e')

pub sena_below_cap :
    (s : MatchState) (h : HandState) (a : SendSenaAction)
    → s.hand ≡ some h
    → is_legal_sena s a ≡ true
    → senas_sent_by h.senas_sent a.player_id < 3
unfolding is_legal_sena get_legal_sena_actions
sena_below_cap s h a k e = elim (Bool-cases (is_decided h.outcome)) [
  | inl o ↦ cc (rw (is_legal_sena, get_legal_sena_actions, k, o) at e)
  | inr o ↦ elim (Option-cases (find_player s.players a.player_id)) [
    | inl g ↦ cc (rw (is_legal_sena, get_legal_sena_actions, k, o, g) at e)
    | inr (p, g) ↦
        elim (Bool-cases (has_teammate s p && not (get_senas_remaining s a.player_id == 0))) [
          | inl q ↦ below_cap s h a.player_id (has_teammate s p) k q
          | inr q ↦ cc (rw (is_legal_sena, get_legal_sena_actions, k, o, g, q) at e)
        ]
  ]
]

pub consult_below_cap :
    (s : MatchState) (h : HandState) (a : ConsultPartnerAction)
    → s.hand ≡ some h
    → is_legal_consult s a ≡ true
    → senas_sent_by h.senas_sent a.player_id < 3
unfolding is_legal_consult get_legal_consult_actions
consult_below_cap s h a k e = elim (Bool-cases (is_decided h.outcome)) [
  | inl o ↦ cc (rw (is_legal_consult, get_legal_consult_actions, k, o) at e)
  | inr o ↦ elim (Option-cases (get_match_winner s)) [
    | inr (w, f) ↦ cc (rw (is_legal_consult, get_legal_consult_actions, k, o, f) at e)
    | inl f ↦ elim (Option-cases (find_player s.players a.player_id)) [
      | inl g ↦ cc (rw (is_legal_consult, get_legal_consult_actions, k, o, f, g) at e)
      | inr (p, g) ↦
          elim (Bool-cases (has_teammate s p && not (get_senas_remaining s a.player_id == 0))) [
            | inl q ↦ below_cap s h a.player_id (has_teammate s p) k q
            | inr q ↦ cc (rw (is_legal_consult, get_legal_consult_actions, k, o, f, g, q) at e)
          ]
    ]
  ]
]
