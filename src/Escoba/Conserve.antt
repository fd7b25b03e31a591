-- ===== src/Escoba/Conserve.antt =====
-- About applyAction of capture.ts: the cards in the game before and after a play.
use convite.Prelude.{
  ◌+◌, ◌≤◌, ◌≡◌, ◌≢◌, ◌⊎◌, refl, sym, ap, ◌∙◌, inl, inr, true, String, List, [], ◌∷◌, ◌++◌, map,
  none, some, All, arith, Bool-cases, subst, same_id, same_id_iff,
}
use convite.Deck.{Card, same_card, same_card_iff}
use convite.Deck.Count.{count, count-append, among}
use convite.Escoba.State.{card_value, Player, HandState, MatchState, find_player, sum_values}
use convite.Escoba.Capture.{
  PlayCardAction, ok, is_subset_of_table, capture_refusal, discard, settle_play, apply_action,
}
use convite.Escoba.Counting.{
  in_hands, in_pile, in_game, discard-other, discard-played, captured-count, piles-put,
}
use convite.Escoba.Accepts.{apply_action-Accepts, stay_hand, settle_stay, take_hand, settle_take}

-- Two teams with names of their own, and every player on one of them.
pub record IsSeated (s : MatchState) : Type 0 where
  pub teams_differ : s.team_a.id ≢ s.team_b.id
  pub on_team : All (λ p. (p.team_id ≡ s.team_a.id) ⊎ (p.team_id ≡ s.team_b.id)) s.players

All-unit {ℓ} : {A : Type ℓ} (xs : List A) → All (λ _. Unit {0}) xs
All-unit [] = tt
All-unit (x ∷ xs) = (tt, All-unit xs)

find_player-All {ℓ} :
    (P : Player → Type ℓ) (ps : List Player) (id : String) {p : Player}
    → All P ps
    → find_player ps id ≡ some p
    → P p × (p.id ≡ id)
unfolding find_player
find_player-All P [] id h e = cc
find_player-All P (q ∷ ps) id {p} h e = elim (Bool-cases (same_id q.id id)) [
  | inl f ↦
      let same : q ≡ p = ground arith in
      (subst P same h.0, ap (λ x. x.id) (sym same) ∙ (same_id_iff q.id id).0 f)
  | inr f ↦ find_player-All P ps id h.1 (rw f at e)
]

-- The player who plays a card gives it up once; every other card stays in the hands.
hands_after :
    (c played : Card) (ps : List Player) (p : Player) (id : String)
    → find_player ps id ≡ some p
    → among p.hand played ≡ true
    → in_hands c ps ≤ 1
    → in_hands c (map (discard p.id played) ps) + count c (played ∷ []) ≡ in_hands c ps
unfolding count find_player
hands_after c played ps p id f has le = elim (Bool-cases (same_card played c)) [
  | inr e ↦ rw (discard-other c played p.id ps e, e) (omega arith)
  | inl e ↦
      let same = (same_card_iff played c).0 e in
      let own = (find_player-All (λ _. Unit {0}) ps id (All-unit ps) f).1 in
      let found = subst (λ i. find_player ps i ≡ some p) (sym own) f in
      let (a, b) =
        discard-played played p.id ps p found has (subst (λ x. in_hands x ps ≤ 1) (sym same) le) in
      rw e (
        subst (λ x. in_hands x (map (discard p.id played) ps) + (1 + 0) ≡ in_hands x ps) same
          (omega arith))
]

stay_in_game :
    (c : Card) (s : MatchState) (h : HandState) (a : PlayCardAction) (p : Player) (turn : String)
    → find_player s.players a.player_id ≡ some p
    → among p.hand a.card ≡ true
    → in_game c s h ≤ 1
    → in_game c
        (record s {
          players = map (discard p.id a.card) s.players;
          hand = some (stay_hand h a.card turn);
        })
        (stay_hand h a.card turn)
      ≡ in_game c s h
unfolding in_game stay_hand
stay_in_game c s h a p turn f has le = omega (
  arith,
  hands_after c a.card s.players p a.player_id f has (omega arith),
  count-append c h.table (a.card ∷ []),
)

take_in_game :
    (c : Card) (s : MatchState) (h : HandState) (a : PlayCardAction) (p : Player) (turn : String)
    (captured pile : List Card)
    → IsSeated s
    → find_player s.players a.player_id ≡ some p
    → among p.hand a.card ≡ true
    → is_subset_of_table captured h.table ≡ true
    → h.piles p.team_id ≡ some pile
    → in_game c s h ≤ 1
    → in_game c
        (record s {
          players = map (discard p.id a.card) s.players;
          hand = some (take_hand h p a.card captured pile turn);
        })
        (take_hand h p a.card captured pile turn)
      ≡ in_game c s h
unfolding in_game take_hand
take_in_game c s h a p turn captured pile seated f has sub e le =
    let at_team = (find_player-All _ s.players a.player_id seated.on_team f).0 in
    let h' = take_hand h p a.card captured pile turn in
    let more = captured ++ a.card ∷ [] in
    let table : count c h'.table + count c captured ≡ count c h.table =
      captured-count captured h.table c sub (omega arith) in
    let stock : count c h'.stock ≡ count c h.stock = refl in
    let piles : in_pile c (h'.piles s.team_a.id) + in_pile c (h'.piles s.team_b.id)
        ≡ in_pile c (h.piles s.team_a.id) + in_pile c (h.piles s.team_b.id) + count c more =
      piles-put c s.team_a.id s.team_b.id p.team_id pile more h.piles seated.teams_differ at_team
        e in
    let hands = hands_after c a.card s.players p a.player_id f has (omega arith) in
    omega (arith, hands, table, stock, piles, count-append c captured (a.card ∷ []))

pub allowed-subset :
    (c : Card) (cs : List Card) (played : Card) (table : List Card)
    → capture_refusal (c ∷ cs) played table ≡ none
    → (is_subset_of_table (c ∷ cs) table ≡ true) × (sum_values (c ∷ cs) + card_value played ≡ 15)
unfolding capture_refusal
allowed-subset c cs played table e = ground arith

-- The hand that an accepted play leaves.
play_conserves :
    (captured : List Card) (s : MatchState) (h : HandState) (a : PlayCardAction) (t : MatchState)
    (p : Player) (turn : String)
    → IsSeated s
    → ((c : Card) → in_game c s h ≤ 1)
    → find_player s.players a.player_id ≡ some p
    → among p.hand a.card ≡ true
    → capture_refusal captured a.card h.table ≡ none
    → settle_play s h p a.card captured turn ≡ ok t
    → (h' : HandState) × (t.hand ≡ some h') × ((c : Card) → in_game c t h' ≡ in_game c s h)
play_conserves [] s h a t p turn seated once f has g e =
    let same = settle_stay s t h p a.card turn e in
    let h' = stay_hand h a.card turn in
    (
      h',
      ap (λ x. x.hand) same,
      λ c. ap (λ x. in_game c x h') same ∙ stay_in_game c s h a p turn f has (once c),
    )
play_conserves (x ∷ xs) s h a t p turn seated once f has g e =
    let (pile, k, same) = settle_take s t h p a.card x xs turn e in
    let h' = take_hand h p a.card (x ∷ xs) pile turn in
    let sub = (allowed-subset x xs a.card h.table g).0 in
    (
      h',
      ap (λ x. x.hand) same,
      λ c.
          ap (λ x. in_game c x h') same
          ∙ take_in_game c s h a p turn (x ∷ xs) pile seated f has sub k (once c),
    )

-- An accepted play leaves every card in the game as often as it was, over the hands, the table, the
-- stock and the two piles, provided that no card was in the game twice, that the teams differ and
-- that every player is on one of them.
pub apply_action-in_game :
    (s : MatchState) (h : HandState) (a : PlayCardAction) (t : MatchState)
    → IsSeated s
    → s.hand ≡ some h
    → ((c : Card) → in_game c s h ≤ 1)
    → apply_action s a ≡ ok t
    → (h' : HandState) × (t.hand ≡ some h') × ((c : Card) → in_game c t h' ≡ in_game c s h)
apply_action-in_game s h a t seated k once e =
    let x = apply_action-Accepts s h a t k e in
    play_conserves a.captured s h a t x.player x.turn seated once x.seated x.held x.allowed
      x.settled
