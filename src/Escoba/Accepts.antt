-- ===== src/Escoba/Accepts.antt =====
-- What an accepted play went through, and the state that it left.
use convite.Prelude.{
  ◌≡◌, sym, ap, ◌∙◌, inl, inr, true, String, List, [], ◌∷◌, ◌++◌, map, none, some, length, arith,
  Bool-cases, Option-cases, ◌==◌, if◌then◌else◌, same_id,
}
use convite.Deck.{Card}
use convite.Deck.Count.{among, without_all}
use convite.Escoba.State.{Player, put, HandState, MatchState, find_player}
use convite.Escoba.Capture.{
  PlayCardAction, ok, next_turn_player_id, capture_refusal, discard, bump, settle_play, play_held,
  play_in_hand, apply_action,
}

-- What an accepted play went through.
pub record Accepts (s : MatchState) (h : HandState) (a : PlayCardAction) (t : MatchState)
    : Type 0 where
  pub player : Player
  pub turn : String
  pub seated : find_player s.players a.player_id ≡ some player
  pub held : among player.hand a.card ≡ true
  pub allowed : capture_refusal a.captured a.card h.table ≡ none
  pub settled : settle_play s h player a.card a.captured turn ≡ ok t

play_held-inv :
    (s : MatchState) (h : HandState) (p : Player) (a : PlayCardAction) (t : MatchState)
    → play_held s h p a ≡ ok t
    → (capture_refusal a.captured a.card h.table ≡ none)
      × (turn : String) × (settle_play s h p a.card a.captured turn ≡ ok t)
unfolding play_held
play_held-inv s h p a t e = elim (Option-cases (capture_refusal a.captured a.card h.table)) [
  | inr (code, f) ↦ cc (rw (f, play_held) at e)
  | inl f ↦ elim (Option-cases (next_turn_player_id s.players p.seat)) [
    | inl g ↦ cc (rw (f, play_held, g) at e)
    | inr (turn, g) ↦ (f, turn, rw (f, play_held, g) at e)
  ]
]

pub apply_action-Accepts :
    (s : MatchState) (h : HandState) (a : PlayCardAction) (t : MatchState)
    → s.hand ≡ some h
    → apply_action s a ≡ ok t
    → Accepts s h a t
unfolding apply_action play_in_hand
apply_action-Accepts s h a t k e =
    let e' : play_in_hand s (some h) a ≡ ok t = ap (λ o. play_in_hand s o a) (sym k) ∙ e in
    elim (Bool-cases (same_id h.turn a.player_id)) [
      | inr f ↦ cc (rw f at e')
      | inl f ↦ elim (Option-cases (find_player s.players a.player_id)) [
        | inl g ↦ cc (rw (f, g) at e')
        | inr (p, g) ↦ elim (Bool-cases (among p.hand a.card)) [
          | inr m ↦ cc (rw (f, g, m) at e')
          | inl m ↦
              let (none_refused, turn, done) = play_held-inv s h p a t (rw (f, g, m) at e') in
              record {
                player = p;
                turn = turn;
                seated = g;
                held = m;
                allowed = none_refused;
                settled = done;
              }
        ]
      ]
    ]

-- The hand after a play that left the card on the table, or took cards.
unfoldable pub stay_hand : HandState → Card → String → HandState
stay_hand h played turn = record h { table = h.table ++ played ∷ []; turn = turn }

ok-injective : {s t : MatchState} → ok s ≡ ok t → s ≡ t
ok-injective e = cc

pub settle_stay :
    (s t : MatchState) (h : HandState) (p : Player) (played : Card) (turn : String)
    → settle_play s h p played [] turn ≡ ok t
    → t ≡ record s {
      players = map (discard p.id played) s.players;
      hand = some (stay_hand h played turn);
    }
unfolding settle_play stay_hand
settle_stay s t h p played turn e = ground arith

unfoldable pub take_hand : HandState → Player → Card → List Card → List Card → String → HandState
take_hand h p played captured pile turn =
    let table = without_all captured h.table in
    record h {
      table = table;
      piles = put p.team_id (pile ++ (captured ++ played ∷ [])) h.piles;
      escobas = if length table == 0 then bump p.team_id h.escobas else h.escobas;
      last_capturer = some p.team_id;
      turn = turn;
    }

pub settle_take :
    (s t : MatchState) (h : HandState) (p : Player) (played c : Card) (cs : List Card)
    (turn : String)
    → settle_play s h p played (c ∷ cs) turn ≡ ok t
    → (pile : List Card) × (h.piles p.team_id ≡ some pile)
      × (t ≡ record s {
        players = map (discard p.id played) s.players;
        hand = some (take_hand h p played (c ∷ cs) pile turn);
      })
unfolding settle_play take_hand
settle_take s t h p played c cs turn e = elim (Option-cases (h.piles p.team_id)) [
  | inl f ↦ cc (rw (f, settle_play) at e)
  | inr (pile, f) ↦ (pile, f, sym (ok-injective (rw (f, settle_play) at e)))
]
