-- ===== src/Truco/Calls.antt =====
-- About applyTrucoAction of truco-chain.ts: what a call or an answer did.
use convite.Prelude.{
  ℕ, ◌≡◌, ◌≢◌, ◌⊎◌, refl, sym, ap, ◌∙◌, inl, inr, ◌==◌, ==_iff, true, false, Bool-cases,
  Option-cases, String, [], ◌∷◌, some, any, same_id, same_id_refl, same_id_iff, List, ◌++◌, ◌+◌,
  subst,
}
use convite.Truco.State.{
  Team, EnvidoState, no_envido, envido_pending, envido_accepted, envido_declined, envido_revealed,
  EnvidoCallLevel, EnvidoDeclaration, CallEvent, truco_call, truco_response, HandOutcome, undecided,
  Player, TrucoCallLevel, truco, retruco, vale_cuatro, TrucoState, not_called, pending, accepted,
  declined, decided, HandState, MatchState,
}
use convite.Truco.Chain.{
  TrucoMove, call_truco, respond_truco, TrucoAction, ok, decline_value, next_level, find_player,
  same_move, envido_is_open, is_decided, chain_moves, hand_moves, get_legal_truco_actions,
  is_legal_truco, award_points, answer, make_move, apply_truco_action,
}

-- What refusing a call pays.
pub data Refusal : TrucoCallLevel → ℕ → Type 0 where
  no_truco : Refusal truco 1
  no_retruco : Refusal retruco 2
  no_vale_cuatro : Refusal vale_cuatro 3

-- The call that raises an accepted one.
pub data Raise : TrucoCallLevel → TrucoCallLevel → Type 0 where
  to_retruco : Raise truco retruco
  to_vale_cuatro : Raise retruco vale_cuatro

-- The teams after so many points for the one of that identifier.
pub data Paid (id : String) (points : ℕ) : List Team → List Team → Type 0 where
  paid_all : Paid id points [] []
  paid_team :
      {teams after : List Team} (team : Team)
      → team.id ≡ id
      → Paid id points teams after
      → Paid id points (team ∷ teams) (record team { score = team.score + points } ∷ after)
  other_team :
      {teams after : List Team} (team : Team)
      → team.id ≢ id
      → Paid id points teams after
      → Paid id points (team ∷ teams) (team ∷ after)

pub data IsSettled : EnvidoState → Type 0 where
  never_called : IsSettled no_envido
  was_declined :
      (calls : List EnvidoCallLevel) (team other : String)
      → IsSettled (envido_declined calls team other)
  was_revealed :
      (calls : List EnvidoCallLevel) (team : String) (value : ℕ) (said : List EnvidoDeclaration)
      → IsSettled (envido_revealed calls team value said)

-- The steps of the chain: the player, the chain before, the move, the chain after, the outcome of the hand
-- after, and the teams before and after.
pub data Step (turn_seat : ℕ) (p : Player)
    : TrucoState → TrucoMove → TrucoState → HandOutcome → List Team → List Team → Type 0 where
  opens :
      {teams : List Team}
      → p.seat ≡ turn_seat
      → Step turn_seat p not_called
          (call_truco truco)
          (pending truco p.team_id)
          undecided
          teams
          teams
  accepts :
      {level : TrucoCallLevel} {caller : String} {teams : List Team}
      → p.team_id ≢ caller
      → Step turn_seat p
          (pending level caller)
          (respond_truco true)
          (accepted level caller)
          undecided
          teams
          teams
  refuses :
      {level : TrucoCallLevel} {caller : String} {points : ℕ} {teams after : List Team}
      → p.team_id ≢ caller
      → Refusal level points
      → Paid caller points teams after
      → Step turn_seat p
          (pending level caller)
          (respond_truco false)
          (declined level caller p.team_id)
          (decided caller)
          teams
          after
  raises :
      {level next : TrucoCallLevel} {caller : String} {teams : List Team}
      → p.team_id ≢ caller
      → Raise level next
      → Step turn_seat p
          (accepted level caller)
          (call_truco next)
          (pending next p.team_id)
          undecided
          teams
          teams

-- What the table hears of a move.
abbrev pub heard : Player → TrucoMove → CallEvent
heard p (call_truco level) = truco_call p.id p.team_id p.seat level
heard p (respond_truco quiero) = truco_response p.id p.team_id p.seat quiero

-- A step of the chain by that player, and nothing else of the match changed.
abbrev pub Stepped : TrucoState → MatchState → HandState → Player → TrucoMove → MatchState → Type 0
Stepped before s h p m t =
    (after : TrucoState) × (outcome : HandOutcome) × (teams : List Team) × Step h.turn_seat p before
      m after outcome s.teams teams
    × (t ≡ record s {
      teams = teams;
      hand = some (record h {
        truco_state = after;
        outcome = outcome;
        call_events = h.call_events ++ heard p m ∷ [];
      });
    })

pub not_team : (x y : String) → same_id x y ≡ false → x ≢ y
not_team x y e f = cc (sym e ∙ ap (same_id x) (sym f) ∙ same_id_refl x)

ok-injective : {s t : MatchState} → ok s ≡ ok t → s ≡ t
ok-injective e = cc

pub award_points-Paid :
    (id : String) (points : ℕ) (teams : List Team)
    → Paid id points teams (award_points id points teams)
unfolding award_points
award_points-Paid id points [] = Paid.paid_all
award_points-Paid id points (team ∷ teams) = elim (Bool-cases (same_id team.id id)) [
  | inl f ↦
      rw f (Paid.paid_team team ((same_id_iff team.id id).0 f) (award_points-Paid id points teams))
  | inr f ↦ rw f (Paid.other_team team (not_team team.id id f) (award_points-Paid id points teams))
]

envido_is_open-IsSettled : (e : EnvidoState) → envido_is_open e ≡ false → IsSettled e
envido_is_open-IsSettled no_envido f = IsSettled.never_called
envido_is_open-IsSettled (envido_pending calls team) f = cc
envido_is_open-IsSettled (envido_accepted calls team value said) f = cc
envido_is_open-IsSettled (envido_declined calls team other) f =
    IsSettled.was_declined calls team other
envido_is_open-IsSettled (envido_revealed calls team value said) f =
    IsSettled.was_revealed calls team value said

pub undecided_of : (o : HandOutcome) → is_decided o ≡ false → o ≡ undecided
undecided_of undecided e = refl
undecided_of (decided team) e = cc

refusal : (l : TrucoCallLevel) → Refusal l (decline_value l)
refusal truco = Refusal.no_truco
refusal retruco = Refusal.no_retruco
refusal vale_cuatro = Refusal.no_vale_cuatro

raise : (l next : TrucoCallLevel) → next_level l ≡ some next → Raise l next
raise truco truco e = cc
raise truco retruco e = Raise.to_retruco
raise truco vale_cuatro e = cc
raise retruco truco e = cc
raise retruco retruco e = cc
raise retruco vale_cuatro e = Raise.to_vale_cuatro
raise vale_cuatro next e = cc

call_result :
    (s t : MatchState) (h : HandState) (p : Player) (l : TrucoCallLevel)
    → h.outcome ≡ undecided
    → make_move s h p (call_truco l) ≡ ok t
    → t ≡ record s {
      hand = some (record h {
        truco_state = pending l p.team_id;
        outcome = undecided;
        call_events = h.call_events ++ heard p (call_truco l) ∷ [];
      });
    }
unfolding make_move
call_result s t h p l o f = rw⁻¹ o (sym (ok-injective f))

accept_result :
    (s t : MatchState) (h : HandState) (p : Player) (l : TrucoCallLevel) (c : String)
    → h.outcome ≡ undecided
    → answer s h p true (pending l c) ≡ ok t
    → t ≡ record s {
      hand = some (record h {
        truco_state = accepted l c;
        outcome = undecided;
        call_events = h.call_events ++ heard p (respond_truco true) ∷ [];
      });
    }
unfolding answer
accept_result s t h p l c o f = rw⁻¹ o (sym (ok-injective f))

decline_result :
    (s t : MatchState) (h : HandState) (p : Player) (l : TrucoCallLevel) (c : String)
    → answer s h p false (pending l c) ≡ ok t
    → t ≡ record s {
      teams = award_points c (decline_value l) s.teams;
      hand = some (record h {
        truco_state = declined l c p.team_id;
        outcome = decided c;
        call_events = h.call_events ++ heard p (respond_truco false) ∷ [];
      });
    }
unfolding answer
decline_result s t h p l c f = sym (ok-injective f)

is_call :
    (l : TrucoCallLevel) (m : TrucoMove)
    → any (λ legal. same_move legal m) (call_truco l ∷ []) ≡ true
    → m ≡ call_truco l
is_call truco (call_truco truco) e = refl
is_call truco (call_truco retruco) e = cc
is_call truco (call_truco vale_cuatro) e = cc
is_call retruco (call_truco truco) e = cc
is_call retruco (call_truco retruco) e = refl
is_call retruco (call_truco vale_cuatro) e = cc
is_call vale_cuatro (call_truco truco) e = cc
is_call vale_cuatro (call_truco retruco) e = cc
is_call vale_cuatro (call_truco vale_cuatro) e = refl
is_call truco (respond_truco q) e = cc
is_call retruco (respond_truco q) e = cc
is_call vale_cuatro (respond_truco q) e = cc

is_answer :
    (m : TrucoMove)
    → any (λ legal. same_move legal m) (respond_truco true ∷ respond_truco false ∷ []) ≡ true
    → (m ≡ respond_truco true) ⊎ (m ≡ respond_truco false)
is_answer (call_truco l) e = cc
is_answer (respond_truco true) e = inl refl
is_answer (respond_truco false) e = inr refl

legal_parts :
    (s : MatchState) (a : TrucoAction) (h : HandState) (p : Player)
    → s.hand ≡ some h
    → find_player s.players a.player_id ≡ some p
    → is_legal_truco s a ≡ true
    → (envido_is_open h.envido_state ≡ false)
      × (is_decided h.outcome ≡ false)
      × (any (λ legal. same_move legal a.move) (chain_moves h.truco_state h.turn_seat p) ≡ true)
unfolding is_legal_truco get_legal_truco_actions hand_moves
legal_parts s a h p k g e =
    let e' : any (λ legal. same_move legal a.move) (hand_moves h p) ≡ true =
      rw (is_legal_truco, get_legal_truco_actions, k, g) at e in
    elim (Bool-cases (envido_is_open h.envido_state)) [
      | inl f ↦ cc (rw (hand_moves, f) at e')
      | inr f ↦ elim (Bool-cases (is_decided h.outcome)) [
        | inl o ↦ cc (rw (hand_moves, f, o) at e')
        | inr o ↦ (f, o, rw (hand_moves, f, o) at e')
      ]
    ]

-- What the legal moves of each state of the chain grant.
opened :
    (n : ℕ) (p : Player) (m : TrucoMove)
    → any (λ legal. same_move legal m) (chain_moves not_called n p) ≡ true
    → (p.seat ≡ n) × (m ≡ call_truco truco)
unfolding chain_moves
opened n p m e = elim (Bool-cases (p.seat == n)) [
  | inr f ↦ cc (rw f at e)
  | inl f ↦ ((==_iff p.seat n).0 f, is_call truco m (rw f at e))
]

answered :
    (l : TrucoCallLevel) (c : String) (n : ℕ) (p : Player) (m : TrucoMove)
    → any (λ legal. same_move legal m) (chain_moves (pending l c) n p) ≡ true
    → (p.team_id ≢ c) × ((m ≡ respond_truco true) ⊎ (m ≡ respond_truco false))
unfolding chain_moves
answered l c n p m e = elim (Bool-cases (same_id p.team_id c)) [
  | inl f ↦ cc (rw f at e)
  | inr f ↦ (not_team p.team_id c f, is_answer m (rw f at e))
]

raised :
    (l : TrucoCallLevel) (c : String) (n : ℕ) (p : Player) (m : TrucoMove)
    → any (λ legal. same_move legal m) (chain_moves (accepted l c) n p) ≡ true
    → (p.team_id ≢ c) × (next : TrucoCallLevel) × (next_level l ≡ some next) × (m ≡ call_truco next)
unfolding chain_moves
raised l c n p m e = elim (Bool-cases (same_id p.team_id c)) [
  | inl f ↦ cc (rw f at e)
  | inr f ↦ elim (Option-cases (next_level l)) [
    | inl g ↦ cc (rw (f, g) at e)
    | inr (next, g) ↦ (not_team p.team_id c f, next, g, is_call next m (rw (f, g) at e))
  ]
]

refused :
    (l : TrucoCallLevel) (c o : String) (n : ℕ) (p : Player) (m : TrucoMove)
    → ¬ (any (λ legal. same_move legal m) (chain_moves (declined l c o) n p) ≡ true)
unfolding chain_moves
refused l c o n p m e = cc

-- A move that the chain grants is a step of it.
Stepped-move :
    (c : TrucoState) (s t : MatchState) (h : HandState) (p : Player) (m : TrucoMove)
    → h.truco_state ≡ c
    → h.outcome ≡ undecided
    → any (λ legal. same_move legal m) (chain_moves c h.turn_seat p) ≡ true
    → make_move s h p m ≡ ok t
    → Stepped c s h p m t
unfolding make_move
Stepped-move not_called s t h p m k o e f =
    let (seat, same) = opened h.turn_seat p m e in
    subst (λ x. Stepped not_called s h p x t) (sym same)
      (
        _,
        _,
        _,
        Step.opens seat,
        call_result s t h p truco o (subst (λ x. make_move s h p x ≡ ok t) same f),
      )
Stepped-move (pending l c) s t h p m k o e f =
    let (team, said) = answered l c h.turn_seat p m e in
    elim said [
      | inl same ↦
          let f' = subst (λ x. make_move s h p x ≡ ok t) same f in
          subst (λ x. Stepped (pending l c) s h p x t) (sym same)
            (
              _,
              _,
              _,
              Step.accepts team,
              accept_result s t h p l c o (subst (λ x. answer s h p true x ≡ ok t) k f'),
            )
      | inr same ↦
          let f' = subst (λ x. make_move s h p x ≡ ok t) same f in
          subst (λ x. Stepped (pending l c) s h p x t) (sym same)
            (
              _,
              _,
              _,
              Step.refuses team (refusal l) (award_points-Paid c (decline_value l) s.teams),
              decline_result s t h p l c (subst (λ x. answer s h p false x ≡ ok t) k f'),
            )
    ]
Stepped-move (accepted l c) s t h p m k o e f =
    let (team, next, g, same) = raised l c h.turn_seat p m e in
    subst (λ x. Stepped (accepted l c) s h p x t) (sym same)
      (
        _,
        _,
        _,
        Step.raises team (raise l next g),
        call_result s t h p next o (subst (λ x. make_move s h p x ≡ ok t) same f),
      )
Stepped-move (declined l c other) s t h p m k o e f = absurd (refused l c other h.turn_seat p m e)

-- An accepted action of the truco chain is a step of a seated player, while no envido waits for an answer or a
-- declaration and the hand is not decided, and the move of the action says which: the player in turn opens
-- with truco; a team that did not make the pending call accepts it, or refuses it, which pays its caller one,
-- two or three points for truco, retruco and vale cuatro and decides the hand for that team; a team that did
-- not make the accepted call raises truco to retruco, or retruco to vale cuatro. The event of the move is
-- added to the calls heard, and nothing else of the match changes.
pub apply_truco_action-Stepped :
    (s t : MatchState) (h : HandState) (a : TrucoAction)
    → s.hand ≡ some h
    → apply_truco_action s a ≡ ok t
    → (p : Player) × (find_player s.players a.player_id ≡ some p)
      × IsSettled h.envido_state
      × (h.outcome ≡ undecided)
      × Stepped h.truco_state s h p a.move t
unfolding apply_truco_action
apply_truco_action-Stepped s t h a k e = elim (Bool-cases (is_legal_truco s a)) [
  | inr f ↦ cc (rw (apply_truco_action, f) at e)
  | inl f ↦ elim (Option-cases (find_player s.players a.player_id)) [
    | inl g ↦ cc (rw (apply_truco_action, f, k, g) at e)
    | inr (p, g) ↦
        let (settled, over, legal) = legal_parts s a h p k g f in
        let going = undecided_of h.outcome over in
        (
          p,
          g,
          envido_is_open-IsSettled h.envido_state settled,
          going,
          Stepped-move h.truco_state s t h p a.move refl going legal
              (rw (apply_truco_action, f, k, g) at e),
        )
  ]
]
