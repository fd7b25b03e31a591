-- ===== src/Truco/Spending.antt =====
-- About applyAction of truco-chain.ts: the signals and consults of a player over a hand.
use convite.Prelude.{
  ◌+◌, max, ◌≤◌, ◌<◌, ◌≡◌, sym, ap, subst, inl, inr, Bool-cases, String, List, some, same_id,
  same_id_iff, arith,
}
use convite.Truco.State.{Player, SenaSendCount, HandState, MatchState}
use convite.Truco.Chain.{ApplyResult}
use convite.Truco.CardPlay.{PlayResult}
use convite.Truco.Senas.{
  SendSenaAction, SenaResult, senas_sent_by, is_legal_sena, count_send, signalled,
  apply_sena_action,
}
use convite.Truco.Envido.{EnvidoResult}
use convite.Truco.Consult.{ConsultPartnerAction, is_legal_consult, asked, apply_consult_action}
use convite.Truco.Engine.{
  Action, truco_action, envido_action, play_card, send_sena, consult_partner, Applied, ok,
  from_truco, from_play, from_envido, from_sena, apply_action,
}
use convite.Truco.Quota.{Silent}
use convite.Truco.SentCount.{find_player-at, one_for, senas_sent_by-count_send, SenaResult-ok}
use convite.Truco.Allowance.{
  spends, apply_truco_action-Silent, apply_envido_action-Silent, apply_card_play_action-Silent,
  sena_below_cap, consult_below_cap,
}

-- One more send by a player who was below the cap.
paid :
    (sent : List SenaSendCount) (p : Player) (x : String)
    → senas_sent_by sent p.id < 3
    → (senas_sent_by (count_send sent p.id p) x ≡ senas_sent_by sent x + one_for p.id x)
      × (senas_sent_by (count_send sent p.id p) x ≤ max 3 (senas_sent_by sent x))
paid sent p x h = elim (Bool-cases (same_id p.id x)) [
  | inl f ↦
      let e = senas_sent_by-count_send sent p x in
      let h' = subst (λ y. senas_sent_by sent y < 3) ((same_id_iff p.id x).0 f) h in
      (e, rw e (rw f (ground (arith, h'))))
  | inr f ↦ let e = senas_sent_by-count_send sent p x in (e, rw e (rw f (ground arith)))
]

-- What a signal or a consult of the player i does to the quota.
Paid : HandState → MatchState → String → String → Type 0
Paid h t i x =
    (h' : HandState) × (t.hand ≡ some h')
    × (senas_sent_by h'.senas_sent x ≡ senas_sent_by h.senas_sent x + one_for i x)
    × (senas_sent_by h'.senas_sent x ≤ max 3 (senas_sent_by h.senas_sent x))

apply_sena_action-Paid :
    (s t : MatchState) (h : HandState) (a : SendSenaAction) (x : String)
    → s.hand ≡ some h
    → apply_sena_action s a ≡ SenaResult.ok t
    → Paid h t a.player_id x
unfolding apply_sena_action signalled Paid
apply_sena_action-Paid s t h a x k e = elim (Bool-cases (is_legal_sena s a)) [
  | inr f ↦ cc (rw (apply_sena_action, f) at e)
  | inl f ↦ elim (find_player-at s.players a.player_id) [
    | inl g ↦ cc (rw (apply_sena_action, f, k, g) at e)
    | inr (p, same, g) ↦
        let u = SenaResult-ok (rw (apply_sena_action, f, k, g) at e) in
        let low =
          subst (λ i. senas_sent_by h.senas_sent i < 3) (sym same) (sena_below_cap s h a k f) in
        let (more, most) = paid h.senas_sent p x low in
        (
          signalled h p a,
          ap (λ v. v.hand) (sym u),
          subst
              (λ i.
                senas_sent_by (count_send h.senas_sent i p) x
                ≡ senas_sent_by h.senas_sent x + one_for i x)
              same more,
          subst
              (λ i.
                senas_sent_by (count_send h.senas_sent i p) x
                ≤ max 3 (senas_sent_by h.senas_sent x))
              same most,
        )
  ]
]

apply_consult_action-Paid :
    (s t : MatchState) (h : HandState) (a : ConsultPartnerAction) (x : String)
    → s.hand ≡ some h
    → apply_consult_action s a ≡ SenaResult.ok t
    → Paid h t a.player_id x
unfolding apply_consult_action asked Paid
apply_consult_action-Paid s t h a x k e = elim (Bool-cases (is_legal_consult s a)) [
  | inr f ↦ cc (rw (apply_consult_action, f) at e)
  | inl f ↦ elim (find_player-at s.players a.player_id) [
    | inl g ↦ cc (rw (apply_consult_action, f, k, g) at e)
    | inr (p, same, g) ↦
        let u = SenaResult-ok (rw (apply_consult_action, f, k, g) at e) in
        let low =
          subst (λ i. senas_sent_by h.senas_sent i < 3) (sym same) (consult_below_cap s h a k f) in
        let (more, most) = paid h.senas_sent p x low in
        (
          asked h p a.player_id,
          ap (λ v. v.hand) (sym u),
          subst
              (λ i.
                senas_sent_by (count_send h.senas_sent i p) x
                ≡ senas_sent_by h.senas_sent x + one_for i x)
              same more,
          subst
              (λ i.
                senas_sent_by (count_send h.senas_sent i p) x
                ≤ max 3 (senas_sent_by h.senas_sent x))
              same most,
        )
  ]
]

silently :
    (h : HandState) (t : MatchState) (x : String)
    → Silent h t
    → (h' : HandState) × (t.hand ≡ some h')
      × (senas_sent_by h'.senas_sent x ≡ senas_sent_by h.senas_sent x + 0)
      × (senas_sent_by h'.senas_sent x ≤ max 3 (senas_sent_by h.senas_sent x))
silently h t x (h', at_hand, same) = (h', at_hand, rw same (omega arith), rw same (ground arith))

Applied-ok : {s t : MatchState} → Applied.ok s ≡ Applied.ok t → s ≡ t
Applied-ok e = cc

pub from_truco-ok : (r : ApplyResult) (t : MatchState) → from_truco r ≡ ok t → r ≡ ApplyResult.ok t
from_truco-ok (ApplyResult.ok u) t e = ap ApplyResult.ok (Applied-ok e)
from_truco-ok ApplyResult.violation t e = cc

pub from_play-ok : (r : PlayResult) (t : MatchState) → from_play r ≡ ok t → r ≡ PlayResult.ok t
from_play-ok (PlayResult.ok u) t e = ap PlayResult.ok (Applied-ok e)
from_play-ok PlayResult.violation t e = cc
from_play-ok PlayResult.thrown t e = cc

pub from_envido-ok :
    (r : EnvidoResult) (t : MatchState) → from_envido r ≡ ok t → r ≡ EnvidoResult.ok t
from_envido-ok (EnvidoResult.ok u) t e = ap EnvidoResult.ok (Applied-ok e)
from_envido-ok EnvidoResult.violation t e = cc
from_envido-ok EnvidoResult.thrown t e = cc
from_envido-ok EnvidoResult.out_of_range t e = cc

pub from_sena-ok : (r : SenaResult) (t : MatchState) → from_sena r ≡ ok t → r ≡ SenaResult.ok t
from_sena-ok (SenaResult.ok u) t e = ap SenaResult.ok (Applied-ok e)
from_sena-ok SenaResult.violation t e = cc
from_sena-ok SenaResult.thrown t e = cc

-- Over every accepted action of a match with a hand, what a player has spent on signals and consults
-- grows by one for a signal or a consult of that player and stays the same for every other action, and
-- it never grows past three.
pub apply_action-spends :
    (s t : MatchState) (h : HandState) (a : Action) (x : String)
    → s.hand ≡ some h
    → apply_action s a ≡ ok t
    → (h' : HandState) × (t.hand ≡ some h')
      × (senas_sent_by h'.senas_sent x ≡ senas_sent_by h.senas_sent x + spends a x)
      × (senas_sent_by h'.senas_sent x ≤ max 3 (senas_sent_by h.senas_sent x))
unfolding apply_action spends Paid
apply_action-spends s t h (truco_action a) x k e =
    silently h t x (apply_truco_action-Silent s t h a k (from_truco-ok _ t e))
apply_action-spends s t h (envido_action a) x k e =
    silently h t x (apply_envido_action-Silent s t h a k (from_envido-ok _ t e))
apply_action-spends s t h (play_card a) x k e =
    silently h t x (apply_card_play_action-Silent s t h a k (from_play-ok _ t e))
apply_action-spends s t h (send_sena a) x k e =
    apply_sena_action-Paid s t h a x k (from_sena-ok _ t e)
apply_action-spends s t h (consult_partner a) x k e =
    apply_consult_action-Paid s t h a x k (from_sena-ok _ t e)
