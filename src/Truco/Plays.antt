-- ===== src/Truco/Plays.antt =====
-- About applyCardPlayAction of card-play.ts: what a play does to the tricks of the hand.
use convite.Prelude.{
  ℕ, ◌+◌, ◌%◌, ◌<◌, ◌≡◌, sym, ap, ◌∙◌, subst, ltb, ltb→lt, ◌&&◌, ◌||◌, true, false, Bool-cases,
  Option-cases, inl, inr, All, All-append, List, [], ◌∷◌, ◌++◌, map, some, find, length,
  length-append, length-map, arith, ◌==◌, ==_iff,
}
use convite.Deck.{Card}
use convite.Deck.Count.{among}
use convite.Truco.State.{Player, HandPlay, HandState, MatchState}
use convite.Truco.Trick.{resolve_trick}
use convite.Truco.Chain.{find_player, is_decided}
use convite.Truco.CardPlay.{
  PlayCardAction, PlayResult, ok, calls_are_settled, playable_cards, get_legal_card_play_actions,
  is_legal_card_play, next_leader_seat, discard, played_cards, closed_hand, close_trick, leader_of,
  play_card, apply_card_play_action, is_declined,
}

-- The tricks of a hand: an outcome for every closed trick, a play of everybody in each of them, and
-- fewer plays than players in the open one.
pub record IsAligned (seats : ℕ) (h : HandState) : Type 0 where
  pub outcomes : length h.resolved_trick_plays ≡ length h.trick_outcomes
  pub full_tricks : All (λ plays. length plays ≡ seats) h.resolved_trick_plays
  pub open_trick : length h.current_trick_plays < seats

ok-injective : {s t : MatchState} → PlayResult.ok s ≡ ok t → s ≡ t
ok-injective e = cc

closed-IsAligned :
    (s t : MatchState) (h : HandState) (players : List Player) (leader : ℕ) (plays : List HandPlay)
    → IsAligned (length s.players) h
    → length players ≡ length s.players
    → length plays ≡ length s.players
    → close_trick s h players leader plays ≡ ok t
    → (h' : HandState) × (t.hand ≡ some h') × IsAligned (length t.players) h'
unfolding close_trick closed_hand
closed-IsAligned s t h players leader plays v l n e =
    elim (Option-cases (find (λ p. p.seat == h.mano_seat) s.players)) [
      | inl f ↦ cc (rw (close_trick, f) at e)
      | inr (mano, f) ↦
          elim (Option-cases (next_leader_seat leader (resolve_trick (played_cards plays)) plays)) [
            | inl g ↦ cc (rw (close_trick, f, g) at e)
            | inr (next, g) ↦
                let same = ok-injective (rw (close_trick, f, g) at e) in
                let h' =
                  closed_hand h plays (resolve_trick (played_cards plays)) mano.team_id next in
                let size : length t.players ≡ length s.players =
                  ap (λ x. length x.players) (sym same) ∙ l in
                let tricks = length-append h.resolved_trick_plays (plays ∷ []) in
                let results =
                  length-append h.trick_outcomes (resolve_trick (played_cards plays) ∷ []) in
                (
                  h',
                  ap (λ x. x.hand) (sym same),
                  subst (λ k. IsAligned k h') (sym size)
                      (record {
                        outcomes = omega (arith, tricks, results, v.outcomes);
                        full_tricks =
                            All-append _ h.resolved_trick_plays (plays ∷ []) v.full_tricks (n, tt);
                        open_trick = omega (arith, v.open_trick);
                      }),
                )
          ]
    ]

open-IsAligned :
    (s t : MatchState) (h : HandState) (p : Player) (c : Card)
    → IsAligned (length s.players) h
    → play_card s h p c ≡ ok t
    → (h' : HandState) × (t.hand ≡ some h') × IsAligned (length t.players) h'
unfolding play_card
open-IsAligned s t h p c v e =
    let play : HandPlay = record {
      player_id = p.id;
      team_id = p.team_id;
      seat = p.seat;
      card = c;
    } in
    let plays = h.current_trick_plays ++ play ∷ [] in
    let players = map (discard p.id c) s.players in
    let more : length plays ≡ length h.current_trick_plays + 1 =
      length-append h.current_trick_plays (play ∷ []) in
    let l : length players ≡ length s.players = length-map (discard p.id c) s.players in
    elim (Bool-cases (ltb (length plays) (length s.players))) [
      | inl f ↦
          let same = ok-injective (rw (play_card, f) at e) in
          let size : length t.players ≡ length s.players =
            ap (λ x. length x.players) (sym same) ∙ l in
          let h' : HandState = record h {
            current_trick_plays = plays;
            turn_seat = (p.seat + 1) % length s.players;
          } in
          (
            h',
            ap (λ x. x.hand) (sym same),
            subst (λ k. IsAligned k h') (sym size)
                (record {
                  outcomes = v.outcomes;
                  full_tricks = v.full_tricks;
                  open_trick = ltb→lt (length plays) (length s.players) f;
                }),
          )
      | inr f ↦
          closed-IsAligned s t h players (leader_of h.current_trick_plays play) plays v l
            (ground (arith, more, v.open_trick)) (rw (play_card, f) at e)
    ]

legal_play :
    (s : MatchState) (a : PlayCardAction) (h : HandState) (p : Player)
    → s.hand ≡ some h
    → find_player s.players a.player_id ≡ some p
    → is_legal_card_play s a ≡ true
    → (p.seat ≡ h.turn_seat)
      × (among p.hand a.card ≡ true)
      × (calls_are_settled h ≡ true)
      × (is_decided h.outcome ≡ false)
unfolding is_legal_card_play get_legal_card_play_actions playable_cards
legal_play s a h p k g e = elim (Bool-cases (is_decided h.outcome || is_declined h.truco_state)) [
  | inl f ↦ cc (rw (is_legal_card_play, get_legal_card_play_actions, k, f) at e)
  | inr f ↦
      let e' : among (playable_cards h p) a.card ≡ true =
        rw (is_legal_card_play, get_legal_card_play_actions, k, f, g) at e in
      elim (Bool-cases ((p.seat == h.turn_seat) && calls_are_settled h)) [
        | inl o ↦ (
          (==_iff p.seat h.turn_seat).0 (ground arith),
          rw (playable_cards, o) at e',
          ground arith,
          ground arith,
        )
        | inr o ↦ cc (rw (playable_cards, o) at e')
      ]
]

-- An accepted play is made by the player whose turn it is, with a card of that player's hand, while no
-- call waits for an answer or a declaration and the hand is not decided; and it keeps the tricks
-- aligned: an outcome for every closed trick, a play of everybody in each of them, and fewer plays
-- than players in the open one.
pub apply_card_play_action-IsAligned :
    (s t : MatchState) (h : HandState) (a : PlayCardAction)
    → s.hand ≡ some h
    → IsAligned (length s.players) h
    → apply_card_play_action s a ≡ ok t
    → (p : Player) × (h' : HandState) × (find_player s.players a.player_id ≡ some p)
      × (p.seat ≡ h.turn_seat)
      × (among p.hand a.card ≡ true)
      × (calls_are_settled h ≡ true)
      × (is_decided h.outcome ≡ false)
      × (t.hand ≡ some h')
      × IsAligned (length t.players) h'
unfolding apply_card_play_action
apply_card_play_action-IsAligned s t h a k v e = elim (Bool-cases (is_legal_card_play s a)) [
  | inr f ↦ cc (rw (apply_card_play_action, f) at e)
  | inl f ↦ elim (Option-cases (find_player s.players a.player_id)) [
    | inl g ↦ cc (rw (apply_card_play_action, f, k, g) at e)
    | inr (p, g) ↦
        let (seat, held, settled, going) = legal_play s a h p k g f in
        let (h', at, aligned) =
          open-IsAligned s t h p a.card v (rw (apply_card_play_action, f, k, g) at e) in
        (p, h', g, seat, held, settled, going, at, aligned)
  ]
]
