-- ===== src/Truco/EnvidoPlays.antt =====
-- About applyEnvidoAction of envido-chain.ts: its accepted actions are the steps of the envido.
use convite.Prelude.{
  ℕ, ◌≤◌, ◌≡◌, ◌≢◌, refl, sym, subst, inl, inr, ◌==◌, ==_iff, ltb, ltb→lt, true, false,
  length-append, arith, Bool-cases, Option-cases, String, List, [], ◌∷◌, ◌++◌, none, some, any,
  length, same_id,
}
use convite.Truco.State.{
  Player, EnvidoCallLevel, EnvidoDeclaration, EnvidoState, no_envido, envido_pending,
  envido_accepted, envido_declined, envido_revealed, undecided, HandState, MatchState,
}
use convite.Truco.Chain.{find_player}
use convite.Truco.Calls.{not_team, award_points-Paid, undecided_of}
use convite.Truco.Envido.{
  EnvidoMove, respond_envido, declare_envido, EnvidoAction, ok, decline_value, can_open_envido,
  best_declaration, side_is_ahead, declarer_seat_for, envido_moves, envido_actions_equal,
  is_legal_envido, dealt_cards_for,
}
use convite.Truco.Declaring.{
  accepted_value, with_envido, answer_envido, entry_of, winning_team, declare, make_envido_move,
  apply_envido_action,
}
use convite.Truco.EnvidoGrants.{
  ok-injective, is_opening, Replies, is_reply, is_declaration, legal_parts,
}
use convite.Truco.EnvidoSteps.{Step, Stepped}
use convite.Truco.EnvidoMeaning.{
  every_one_below, accepted_value-Worth, decline_value-Refusal, own_plays, opposing_team-FirstOther,
  can_open_envido-MayOpen, side_is_ahead-IsBehind, team_of_best-IsWinner,
}

accepted_step :
    (s t : MatchState) (h : HandState) (p : Player) (calls : List EnvidoCallLevel) (c : String)
    → p.team_id ≢ c
    → answer_envido s h p true (envido_pending calls c) ≡ ok t
    → Stepped (envido_pending calls c) s h p (respond_envido true) t
unfolding answer_envido with_envido
accepted_step s t h p calls c ne e = elim (Option-cases (accepted_value s calls)) [
  | inl f ↦ cc (rw (answer_envido, f) at e)
  | inr (v, f) ↦ (
    _,
    _,
    Step.accepts ne (accepted_value-Worth s calls v f),
    sym (ok-injective (rw (answer_envido, f) at e)),
  )
]

declined_step :
    (s t : MatchState) (h : HandState) (p : Player) (calls : List EnvidoCallLevel) (c : String)
    → p.team_id ≢ c
    → answer_envido s h p false (envido_pending calls c) ≡ ok t
    → Stepped (envido_pending calls c) s h p (respond_envido false) t
unfolding answer_envido with_envido
declined_step s t h p calls c ne e = elim (Option-cases (decline_value calls)) [
  | inl f ↦ cc (rw (answer_envido, f) at e)
  | inr (v, f) ↦ (
    _,
    _,
    Step.refuses ne (decline_value-Refusal calls v f) (award_points-Paid c v s.teams),
    sym (ok-injective (rw (answer_envido, f) at e)),
  )
]

spoken_step :
    (s t : MatchState) (h : HandState) (p : Player) (calls : List EnvidoCallLevel) (c : String)
    (v : ℕ) (said : List EnvidoDeclaration)
    → declarer_seat_for s h said ≡ p.seat
    → declare s h p true (envido_accepted calls c v said) ≡ ok t
    → Stepped (envido_accepted calls c v said) s h p (declare_envido true) t
unfolding declare with_envido winning_team entry_of dealt_cards_for declarer_seat_for
spoken_step s t h p calls c v said turn e =
    let said' = said ++ entry_of h p true ∷ [] in
    let longer = length-append said (entry_of h p true ∷ []) in
    let laid = own_plays p.id h.current_trick_plays in
    elim (Bool-cases (ltb (length said') (length s.players))) [
      | inl f ↦
          let more = ltb→lt (length said') (length s.players) f in
          (
            _,
            _,
            Step.speaks (sym turn) laid (omega (arith, more, longer)),
            sym (ok-injective (rw (declare, f) at e)),
          )
      | inr f ↦
          let less : length s.players ≤ length said' = ground arith in
          (
            _,
            _,
            Step.finishes (sym turn) laid (omega (arith, less, longer))
                (team_of_best-IsWinner said p _ c) (award_points-Paid _ v s.teams),
            sym (ok-injective (rw (declare, f) at e)),
          )
    ]

conceded_step :
    (s t : MatchState) (h : HandState) (p : Player) (calls : List EnvidoCallLevel) (c : String)
    (v : ℕ) (said : List EnvidoDeclaration)
    → declarer_seat_for s h said ≡ p.seat
    → side_is_ahead (best_declaration none said) p ≡ false
    → declare s h p false (envido_accepted calls c v said) ≡ ok t
    → Stepped (envido_accepted calls c v said) s h p (declare_envido false) t
unfolding declare with_envido winning_team entry_of declarer_seat_for
conceded_step s t h p calls c v said turn behind e = (
  _,
  _,
  Step.concedes (sym turn) (side_is_ahead-IsBehind p said behind) (opposing_team-FirstOther s p c)
      (award_points-Paid _ v s.teams),
  sym (ok-injective e),
)

-- A move that the envido grants is a step of it.
Stepped-move :
    (c : EnvidoState) (s t : MatchState) (h : HandState) (p : Player) (m : EnvidoMove)
    → h.envido_state ≡ c
    → any (λ legal. envido_actions_equal legal m) (envido_moves c s h p) ≡ true
    → make_envido_move s h p m ≡ ok t
    → Stepped c s h p m t
unfolding make_envido_move envido_moves with_envido Replies
Stepped-move no_envido s t h p m k e f =
    elim (Bool-cases (can_open_envido h p (length s.players))) [
      | inr g ↦ cc (rw g at e)
      | inl g ↦
          let same = is_opening m (rw g at e) in
          let f' = subst (λ x. make_envido_move s h p x ≡ ok t) same f in
          subst (λ x. Stepped no_envido s h p x t) (sym same)
            (_, _, Step.opens (can_open_envido-MayOpen s h p g), sym (ok-injective (rw k at f')))
    ]
Stepped-move (envido_pending calls c) s t h p m k e f = elim (Bool-cases (same_id p.team_id c)) [
  | inl g ↦ cc (rw g at e)
  | inr g ↦
      let ne = not_team p.team_id c g in
      elim (is_reply calls m (rw g at e)) [
        | inl (level, same, higher) ↦
            let f' = subst (λ x. make_envido_move s h p x ≡ ok t) same f in
            subst (λ x. Stepped (envido_pending calls c) s h p x t) (sym same)
              (
                _,
                _,
                Step.raises ne (every_one_below calls level higher),
                sym (ok-injective (rw k at f')),
              )
        | inr (inl same) ↦
            let f' = subst (λ x. make_envido_move s h p x ≡ ok t) same f in
            subst (λ x. Stepped (envido_pending calls c) s h p x t) (sym same)
              (accepted_step s t h p calls c ne
                (subst (λ x. answer_envido s h p true x ≡ ok t) k f'))
        | inr (inr same) ↦
            let f' = subst (λ x. make_envido_move s h p x ≡ ok t) same f in
            subst (λ x. Stepped (envido_pending calls c) s h p x t) (sym same)
              (declined_step s t h p calls c ne
                (subst (λ x. answer_envido s h p false x ≡ ok t) k f'))
      ]
]
Stepped-move (envido_accepted calls c v said) s t h p m k e f =
    elim (Bool-cases (declarer_seat_for s h said == p.seat)) [
      | inr g ↦ cc (rw g at e)
      | inl g ↦
          let turn = (==_iff (declarer_seat_for s h said) p.seat).0 g in
          elim (is_declaration said p m (rw g at e)) [
            | inl same ↦
                let f' = subst (λ x. make_envido_move s h p x ≡ ok t) same f in
                subst (λ x. Stepped (envido_accepted calls c v said) s h p x t) (sym same)
                  (spoken_step s t h p calls c v said turn
                    (subst (λ x. declare s h p true x ≡ ok t) k f'))
            | inr (same, behind) ↦
                let f' = subst (λ x. make_envido_move s h p x ≡ ok t) same f in
                subst (λ x. Stepped (envido_accepted calls c v said) s h p x t) (sym same)
                  (conceded_step s t h p calls c v said turn behind
                    (subst (λ x. declare s h p false x ≡ ok t) k f'))
          ]
    ]
Stepped-move (envido_declined calls c o) s t h p m k e f = cc
Stepped-move (envido_revealed calls c v said) s t h p m k e f = cc

-- An accepted action of the envido is a step of a seated player in a hand that is not decided,
-- and the move of the action says which. In the first trick a pie who has not played, and who is
-- in turn or has to answer a truco, opens with envido. A team that did not make the pending call
-- raises it to a level above every call so far; or accepts it, for two points for each envido
-- and three for a real envido, or for what the leading score lacks to the target where the last
-- call is falta envido; or refuses it, which pays its caller the calls before the last one, and
-- one point at least. In an accepted envido the player at the next seat from the mano on says
-- the number of the cards in hand and laid down; when everybody has spoken, the accepted value
-- goes to the team of the first highest number said. Or that player, unless the best number so
-- far is of the own team, concedes, and the value goes to the first other team, or to the
-- caller's where there is none. The event of the move is added to the calls heard, and nothing
-- else of the match changes.
pub apply_envido_action-Stepped :
    (s t : MatchState) (h : HandState) (a : EnvidoAction)
    → s.hand ≡ some h
    → apply_envido_action s a ≡ ok t
    → (p : Player) × (find_player s.players a.player_id ≡ some p)
      × (h.outcome ≡ undecided)
      × Stepped h.envido_state s h p a.move t
unfolding apply_envido_action
apply_envido_action-Stepped s t h a k e = elim (Bool-cases (is_legal_envido s a)) [
  | inr f ↦ cc (rw (apply_envido_action, f) at e)
  | inl f ↦ elim (Option-cases (find_player s.players a.player_id)) [
    | inl g ↦ cc (rw (apply_envido_action, f, k, g) at e)
    | inr (p, g) ↦
        let (over, legal) = legal_parts s a h p k g f in
        (
          p,
          g,
          undecided_of h.outcome over,
          Stepped-move h.envido_state s t h p a.move refl legal
              (rw (apply_envido_action, f, k, g) at e),
        )
  ]
]
