-- ===== src/Truco/Accepting.antt =====
-- About applyTrucoAction of truco-chain.ts: exactly the steps of the chain are accepted.
use convite.Prelude.{
  ℕ, ◌+◌, ◌≡◌, ◌≢◌, ◌↔◌, refl, sym, ap, ◌∙◌, ==_iff, true, false, Bool-cases, inl, inr, String,
  List, [], ◌∷◌, ◌++◌, some, any, same_id, same_id_iff,
}
use convite.Truco.State.{
  Team, Player, TrucoCallLevel, truco, retruco, vale_cuatro, TrucoState, EnvidoState, HandOutcome,
  undecided, HandState, MatchState,
}
use convite.Truco.Chain.{
  TrucoMove, call_truco, TrucoAction, ok, decline_value, next_level, find_player, same_move,
  envido_is_open, is_decided, chain_moves, hand_moves, get_legal_truco_actions, is_legal_truco,
  award_points, answer, make_move, apply_truco_action,
}
use convite.Truco.Calls.{
  Refusal, Raise, Paid, IsSettled, Step, heard, Stepped, apply_truco_action-Stepped,
}

other_team : (x y : String) → x ≢ y → same_id x y ≡ false
other_team x y ne = elim (Bool-cases (same_id x y)) [
  | inl f ↦ absurd (ne ((same_id_iff x y).0 f))
  | inr f ↦ f
]

Refusal-decline_value : {l : TrucoCallLevel} {n : ℕ} → Refusal l n → decline_value l ≡ n
Refusal-decline_value Refusal.no_truco = refl
Refusal-decline_value Refusal.no_retruco = refl
Refusal-decline_value Refusal.no_vale_cuatro = refl

Raise-next_level : {l m : TrucoCallLevel} → Raise l m → next_level l ≡ some m
Raise-next_level Raise.to_retruco = refl
Raise-next_level Raise.to_vale_cuatro = refl

Paid-award_points :
    {id : String} {n : ℕ} {ts us : List Team} → Paid id n ts us → award_points id n ts ≡ us
unfolding award_points
Paid-award_points Paid.paid_all = refl
Paid-award_points {id} {n} (Paid.paid_team {teams} team e r) =
    let here = (same_id_iff team.id id).1 e in
    rw here (ap (λ x. record team { score = team.score + n } ∷ x) (Paid-award_points r))
Paid-award_points {id} {n} (Paid.other_team {teams} team ne r) =
    let here = other_team team.id id ne in rw here (ap (λ x. team ∷ x) (Paid-award_points r))

IsSettled-envido_is_open : {e : EnvidoState} → IsSettled e → envido_is_open e ≡ false
IsSettled-envido_is_open IsSettled.never_called = refl
IsSettled-envido_is_open (IsSettled.was_declined calls team other) = refl
IsSettled-envido_is_open (IsSettled.was_revealed calls team value said) = refl

call_is_legal :
    (l : TrucoCallLevel) → any (λ legal. same_move legal (call_truco l)) (call_truco l ∷ []) ≡ true
call_is_legal truco = refl
call_is_legal retruco = refl
call_is_legal vale_cuatro = refl

granted :
    {n : ℕ} {p : Player} {c d : TrucoState} {m : TrucoMove} {o : HandOutcome} {ts us : List Team}
    → Step n p c m d o ts us
    → any (λ legal. same_move legal m) (chain_moves c n p) ≡ true
unfolding chain_moves
granted {n} {p} (Step.opens seat) = rw ((==_iff p.seat n).1 seat) refl
granted {p = p} (Step.accepts {caller = caller} ne) = rw (other_team p.team_id caller ne) refl
granted {p = p} (Step.refuses {caller = caller} ne r q) = rw (other_team p.team_id caller ne) refl
granted {p = p} (Step.raises {level} {next} {caller} ne r) =
    rw (other_team p.team_id caller ne, Raise-next_level r) (call_is_legal next)

-- The match after a step of the chain.
abbrev stepped_to :
    MatchState → HandState → Player → TrucoMove → TrucoState → HandOutcome → List Team → MatchState
stepped_to s h p m after outcome teams = record s {
  teams = teams;
  hand = some (record h {
    truco_state = after;
    outcome = outcome;
    call_events = h.call_events ++ heard p m ∷ [];
  });
}

moved :
    (s : MatchState) (h : HandState) (p : Player) (c : TrucoState) {d : TrucoState} {m : TrucoMove}
    {o : HandOutcome} {us : List Team}
    → h.truco_state ≡ c
    → h.outcome ≡ undecided
    → Step h.turn_seat p c m d o s.teams us
    → make_move s h p m ≡ ok (stepped_to s h p m d o us)
unfolding make_move answer
moved s h p _ k o (Step.opens seat) = rw o refl
moved s h p _ k o (Step.accepts ne) = rw (k, o) refl
moved s h p _ k o (Step.refuses {level} {caller} {points} ne r q) =
    rw (k, Refusal-decline_value r, Paid-award_points q) refl
moved s h p _ k o (Step.raises ne r) = rw o refl

is_legal_of_granted :
    (s : MatchState) (h : HandState) (a : TrucoAction) (p : Player)
    → s.hand ≡ some h
    → find_player s.players a.player_id ≡ some p
    → IsSettled h.envido_state
    → h.outcome ≡ undecided
    → any (λ legal. same_move legal a.move) (chain_moves h.truco_state h.turn_seat p) ≡ true
    → is_legal_truco s a ≡ true
unfolding is_legal_truco get_legal_truco_actions hand_moves
is_legal_of_granted s h a p k g settled going e =
    let open_no = IsSettled-envido_is_open settled in
    let over_no = ap is_decided going in
    rw (is_legal_truco, get_legal_truco_actions, k, g, hand_moves, open_no, over_no) e

-- An action of the truco chain, in a match with a hand, is accepted with the next match t exactly where it is a step of a
-- seated player, while no envido waits for an answer or a declaration and the hand is not decided. The move
-- of the action says which step: the player in turn opens with truco; a team that did not make the pending
-- call accepts it, or refuses it, which pays its caller one, two or three points for truco, retruco and vale
-- cuatro and decides the hand for that team; a team that did not make the accepted call raises truco to
-- retruco, or retruco to vale cuatro. In t the event of the move is added to the calls heard, and nothing else
-- has changed.
pub apply_truco_action_iff :
    (s t : MatchState) (h : HandState) (a : TrucoAction)
    → s.hand ≡ some h
    → (apply_truco_action s a ≡ ok t) ↔ (
        (p : Player) × (find_player s.players a.player_id ≡ some p)
        × IsSettled h.envido_state
        × (h.outcome ≡ undecided)
        × Stepped h.truco_state s h p a.move t)
unfolding apply_truco_action
apply_truco_action_iff s t h a k = (
  apply_truco_action-Stepped s t h a k,
  λ (p, g, settled, going, (after, o, teams, took, same)).
      let legal = is_legal_of_granted s h a p k g settled going (granted took) in
      let next = moved s h p h.truco_state refl going took in
      rw (apply_truco_action, legal, k, g) (next ∙ ap ok (sym same)),
)
