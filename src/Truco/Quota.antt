-- ===== src/Truco/Quota.antt =====
-- About senas.ts and consult.ts: what a signal and a consult cost a player.
use convite.Prelude.{
  ℕ, map, Bool, ◌≡◌, refl, sym, ap, ◌∙◌, inl, inr, ◌==◌, Bool-cases, Option-cases, true, false,
  ◌&&◌, List, [], ◌∷◌, ◌++◌, some, find, ltb, length,
}
use convite.Deck.{Card}
use convite.Truco.State.{
  Player, HandPlay, TrucoState, not_called, pending, accepted, declined, HandState, MatchState,
  EnvidoState, no_envido, envido_pending, envido_accepted, envido_declined, envido_revealed,
}
use convite.Truco.Chain.{TrucoMove, call_truco, respond_truco, ApplyResult, answer, make_move}
use convite.Truco.CardPlay.{
  PlayResult, play_card, close_trick, closed_hand, next_leader_seat, played_cards, discard,
  leader_of,
}
use convite.Truco.Trick.{resolve_trick}
use convite.Truco.Envido.{
  EnvidoMove, call_envido, respond_envido, declare_envido, EnvidoResult, decline_value,
}
use convite.Truco.Declaring.{
  accepted_value, with_envido, entry_of, answer_envido, declare, make_envido_move,
}
use convite.Truco.SentCount.{ApplyResult-ok, EnvidoResult-ok, PlayResult-ok}

-- The signals sent so far are those of the hand before.
abbrev pub Silent : HandState → MatchState → Type 0
Silent h t = (h' : HandState) × (t.hand ≡ some h') × (h'.senas_sent ≡ h.senas_sent)

silent :
    (t u : MatchState) (h h' : HandState)
    → t.hand ≡ some h'
    → h'.senas_sent ≡ h.senas_sent
    → t ≡ u
    → Silent h u
silent t u h h' e f same = (h', ap (λ x. x.hand) (sym same) ∙ e, f)

answer-Silent :
    (s t : MatchState) (h : HandState) (p : Player) (q : Bool) (c : TrucoState)
    → answer s h p q c ≡ ApplyResult.ok t
    → Silent h t
unfolding answer
answer-Silent s t h p true (pending l c) e = silent _ t h _ refl refl (ApplyResult-ok e)
answer-Silent s t h p false (pending l c) e = silent _ t h _ refl refl (ApplyResult-ok e)
answer-Silent s t h p q not_called e = cc
answer-Silent s t h p q (accepted l c) e = cc
answer-Silent s t h p q (declined l c o) e = cc

pub make_move-Silent :
    (s t : MatchState) (h : HandState) (p : Player) (m : TrucoMove)
    → make_move s h p m ≡ ApplyResult.ok t
    → Silent h t
unfolding make_move
make_move-Silent s t h p (call_truco l) e = silent _ t h _ refl refl (ApplyResult-ok e)
make_move-Silent s t h p (respond_truco q) e = answer-Silent s t h p q h.truco_state e

answer_envido-Silent :
    (s t : MatchState) (h : HandState) (p : Player) (q : Bool) (c : EnvidoState)
    → answer_envido s h p q c ≡ EnvidoResult.ok t
    → Silent h t
unfolding answer_envido with_envido
answer_envido-Silent s t h p true (envido_pending calls team) e =
    elim (Option-cases (accepted_value s calls)) [
      | inl f ↦ cc (rw (answer_envido, f) at e)
      | inr (v, f) ↦ silent _ t h _ refl refl (EnvidoResult-ok (rw (answer_envido, f) at e))
    ]
answer_envido-Silent s t h p false (envido_pending calls team) e =
    elim (Option-cases (decline_value calls)) [
      | inl f ↦ cc (rw (answer_envido, f) at e)
      | inr (v, f) ↦ silent _ t h _ refl refl (EnvidoResult-ok (rw (answer_envido, f) at e))
    ]
answer_envido-Silent s t h p q no_envido e = cc
answer_envido-Silent s t h p q (envido_accepted calls team v said) e = cc
answer_envido-Silent s t h p q (envido_declined calls team other) e = cc
answer_envido-Silent s t h p q (envido_revealed calls team v said) e = cc

declare-Silent :
    (s t : MatchState) (h : HandState) (p : Player) (points : Bool) (c : EnvidoState)
    → declare s h p points c ≡ EnvidoResult.ok t
    → Silent h t
unfolding declare with_envido
declare-Silent s t h p points (envido_accepted calls team v said) e =
    elim (Bool-cases
      (points && ltb (length (said ++ entry_of h p points ∷ [])) (length s.players))) [
        | inl f ↦ silent _ t h _ refl refl (EnvidoResult-ok (rw (declare, f) at e))
        | inr f ↦ silent _ t h _ refl refl (EnvidoResult-ok (rw (declare, f) at e))
      ]
declare-Silent s t h p points no_envido e = cc
declare-Silent s t h p points (envido_pending calls team) e = cc
declare-Silent s t h p points (envido_declined calls team other) e = cc
declare-Silent s t h p points (envido_revealed calls team v said) e = cc

pub make_envido_move-Silent :
    (s t : MatchState) (h : HandState) (p : Player) (m : EnvidoMove)
    → make_envido_move s h p m ≡ EnvidoResult.ok t
    → Silent h t
unfolding make_envido_move with_envido
make_envido_move-Silent s t h p (call_envido l) e = silent _ t h _ refl refl (EnvidoResult-ok e)
make_envido_move-Silent s t h p (respond_envido q) e =
    answer_envido-Silent s t h p q h.envido_state e
make_envido_move-Silent s t h p (declare_envido points) e =
    declare-Silent s t h p points h.envido_state e

close_trick-Silent :
    (s t : MatchState) (h : HandState) (players : List Player) (leader : ℕ) (plays : List HandPlay)
    → close_trick s h players leader plays ≡ PlayResult.ok t
    → Silent h t
unfolding close_trick closed_hand
close_trick-Silent s t h players leader plays e =
    elim (Option-cases (find (λ p. p.seat == h.mano_seat) s.players)) [
      | inl f ↦ cc (rw (close_trick, f) at e)
      | inr (mano, f) ↦
          elim (Option-cases (next_leader_seat leader (resolve_trick (played_cards plays)) plays)) [
            | inl g ↦ cc (rw (close_trick, f, g) at e)
            | inr (next, g) ↦ silent _ t h _ refl refl (PlayResult-ok (rw (close_trick, f, g) at e))
          ]
    ]

pub play_card-Silent :
    (s t : MatchState) (h : HandState) (p : Player) (c : Card)
    → play_card s h p c ≡ PlayResult.ok t
    → Silent h t
unfolding play_card
play_card-Silent s t h p c e =
    let play : HandPlay = record {
      player_id = p.id;
      team_id = p.team_id;
      seat = p.seat;
      card = c;
    } in
    let plays = h.current_trick_plays ++ play ∷ [] in
    elim (Bool-cases (ltb (length plays) (length s.players))) [
      | inl f ↦ silent _ t h _ refl refl (PlayResult-ok (rw (play_card, f) at e))
      | inr f ↦
          close_trick-Silent s t h (map (discard p.id c) s.players)
            (leader_of h.current_trick_plays play) plays (rw (play_card, f) at e)
    ]
