-- ===== src/Truco/Kept.antt =====
-- About card-play.ts, senas.ts and consult.ts: a play, a signal and a consult leave the calls as they are.
use convite.Prelude.{
  ℕ, ◌≡◌, refl, sym, ap, ◌∙◌, inl, inr, ◌==◌, ltb, Bool-cases, Option-cases, List, [], ◌∷◌, ◌++◌,
  map, some, find, length, length-map,
}
use convite.Deck.{Card}
use convite.Truco.State.{Player, HandPlay, HandState, MatchState}
use convite.Truco.Chain.{find_player}
use convite.Truco.Trick.{resolve_trick}
use convite.Truco.CardPlay.{
  PlayCardAction, PlayResult, play_card, close_trick, closed_hand, next_leader_seat, played_cards,
  discard, leader_of, is_legal_card_play, apply_card_play_action,
}
use convite.Truco.Senas.{SendSenaAction, SenaResult, is_legal_sena, signalled, apply_sena_action}
use convite.Truco.Consult.{ConsultPartnerAction, is_legal_consult, asked, apply_consult_action}
use convite.Truco.SentCount.{PlayResult-ok, SenaResult-ok}

-- The truco, the envido and the number of players are those of before.
abbrev pub Keeps : MatchState → HandState → MatchState → Type 0
Keeps s h t =
    (h' : HandState) × (t.hand ≡ some h')
    × (h'.truco_state ≡ h.truco_state)
    × (h'.envido_state ≡ h.envido_state)
    × (length t.players ≡ length s.players)

kept :
    (s t u : MatchState) (h h' : HandState)
    → t.hand ≡ some h'
    → h'.truco_state ≡ h.truco_state
    → h'.envido_state ≡ h.envido_state
    → length t.players ≡ length s.players
    → t ≡ u
    → Keeps s h u
kept s t u h h' e f g n same =
    (h', ap (λ x. x.hand) (sym same) ∙ e, f, g, ap (λ x. length x.players) (sym same) ∙ n)

close_trick-Keeps :
    (s t : MatchState) (h : HandState) (players : List Player) (leader : ℕ) (plays : List HandPlay)
    → length players ≡ length s.players
    → close_trick s h players leader plays ≡ PlayResult.ok t
    → Keeps s h t
unfolding close_trick closed_hand
close_trick-Keeps s t h players leader plays n e =
    elim (Option-cases (find (λ p. p.seat == h.mano_seat) s.players)) [
      | inl f ↦ cc (rw (close_trick, f) at e)
      | inr (mano, f) ↦
          elim (Option-cases (next_leader_seat leader (resolve_trick (played_cards plays)) plays)) [
            | inl g ↦ cc (rw (close_trick, f, g) at e)
            | inr (next, g) ↦
                kept s _ t h _ refl refl refl n (PlayResult-ok (rw (close_trick, f, g) at e))
          ]
    ]

play_card-Keeps :
    (s t : MatchState) (h : HandState) (p : Player) (c : Card)
    → play_card s h p c ≡ PlayResult.ok t
    → Keeps s h t
unfolding play_card
play_card-Keeps s t h p c e =
    let play : HandPlay = record {
      player_id = p.id;
      team_id = p.team_id;
      seat = p.seat;
      card = c;
    } in
    let plays = h.current_trick_plays ++ play ∷ [] in
    let players = map (discard p.id c) s.players in
    let same = length-map (discard p.id c) s.players in
    elim (Bool-cases (ltb (length plays) (length s.players))) [
      | inl f ↦ kept s _ t h _ refl refl refl same (PlayResult-ok (rw (play_card, f) at e))
      | inr f ↦
          close_trick-Keeps s t h players (leader_of h.current_trick_plays play) plays same
            (rw (play_card, f) at e)
    ]

pub apply_card_play_action-Keeps :
    (s t : MatchState) (h : HandState) (a : PlayCardAction)
    → s.hand ≡ some h
    → apply_card_play_action s a ≡ PlayResult.ok t
    → Keeps s h t
unfolding apply_card_play_action
apply_card_play_action-Keeps s t h a k e = elim (Bool-cases (is_legal_card_play s a)) [
  | inr f ↦ cc (rw (apply_card_play_action, f) at e)
  | inl f ↦ elim (Option-cases (find_player s.players a.player_id)) [
    | inl g ↦ cc (rw (apply_card_play_action, f, k, g) at e)
    | inr (p, g) ↦ play_card-Keeps s t h p a.card (rw (apply_card_play_action, f, k, g) at e)
  ]
]

pub apply_sena_action-Keeps :
    (s t : MatchState) (h : HandState) (a : SendSenaAction)
    → s.hand ≡ some h
    → apply_sena_action s a ≡ SenaResult.ok t
    → Keeps s h t
unfolding apply_sena_action signalled
apply_sena_action-Keeps s t h a k e = elim (Bool-cases (is_legal_sena s a)) [
  | inr f ↦ cc (rw (apply_sena_action, f) at e)
  | inl f ↦ elim (Option-cases (find_player s.players a.player_id)) [
    | inl g ↦ cc (rw (apply_sena_action, f, k, g) at e)
    | inr (p, g) ↦
        kept s _ t h _ refl refl refl refl (SenaResult-ok (rw (apply_sena_action, f, k, g) at e))
  ]
]

pub apply_consult_action-Keeps :
    (s t : MatchState) (h : HandState) (a : ConsultPartnerAction)
    → s.hand ≡ some h
    → apply_consult_action s a ≡ SenaResult.ok t
    → Keeps s h t
unfolding apply_consult_action asked
apply_consult_action-Keeps s t h a k e = elim (Bool-cases (is_legal_consult s a)) [
  | inr f ↦ cc (rw (apply_consult_action, f) at e)
  | inl f ↦ elim (Option-cases (find_player s.players a.player_id)) [
    | inl g ↦ cc (rw (apply_consult_action, f, k, g) at e)
    | inr (p, g) ↦
        kept s _ t h _ refl refl refl refl (SenaResult-ok (rw (apply_consult_action, f, k, g) at e))
  ]
]
