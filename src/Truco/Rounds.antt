-- ===== src/Truco/Rounds.antt =====
-- About applyAction of truco-chain.ts over a whole hand: how many calls, answers and declarations it sees.
use convite.Prelude.{
  ℕ, ◌+◌, min, ◌<◌, ◌≤◌, ◌≡◌, refl, ap, subst, String, List, [], ◌∷◌, ◌++◌, some, All, length,
  length-append, arith,
}
use convite.Truco.State.{
  Team, Player, TrucoCallLevel, truco, retruco, vale_cuatro, TrucoState, not_called, pending,
  accepted, declined, HandOutcome, EnvidoCallLevel, envido, envido_envido, real_envido,
  falta_envido, EnvidoState, no_envido, envido_pending, envido_accepted, envido_declined,
  envido_revealed, HandState, MatchState,
}
use convite.Truco.Chain.{TrucoMove}
use convite.Truco.Calls
use convite.Truco.Calls.{Raise, apply_truco_action-Stepped}
use convite.Truco.Envido.{EnvidoMove, call_weight, highest_weight}
use convite.Truco.EnvidoSteps
use convite.Truco.EnvidoSteps.{Above, number_of}
use convite.Truco.EnvidoPlays.{apply_envido_action-Stepped}
use convite.Truco.Kept.{
  Keeps, apply_card_play_action-Keeps, apply_sena_action-Keeps, apply_consult_action-Keeps,
}
use convite.Truco.Engine.{
  Action, truco_action, envido_action, play_card, send_sena, consult_partner, ok, apply_action,
}
use convite.Truco.Spending.{from_truco-ok, from_play-ok, from_envido-ok, from_sena-ok}

-- How far the truco of a hand has come.
pub truco_position : TrucoState → ℕ
truco_position not_called = 0
truco_position (pending truco team) = 1
truco_position (accepted truco team) = 2
truco_position (pending retruco team) = 3
truco_position (accepted retruco team) = 4
truco_position (pending vale_cuatro team) = 5
truco_position (accepted vale_cuatro team) = 6
truco_position (declined level team other) = 7

truco_position-le : (c : TrucoState) → truco_position c ≤ 7
unfolding truco_position
truco_position-le not_called = omega arith
truco_position-le (pending truco team) = omega arith
truco_position-le (accepted truco team) = omega arith
truco_position-le (pending retruco team) = omega arith
truco_position-le (accepted retruco team) = omega arith
truco_position-le (pending vale_cuatro team) = omega arith
truco_position-le (accepted vale_cuatro team) = omega arith
truco_position-le (declined level team other) = omega arith

Raise-position :
    {l m : TrucoCallLevel} (c team : String)
    → Raise l m
    → truco_position (accepted l c) < truco_position (pending m team)
unfolding truco_position
Raise-position c team Raise.to_retruco = omega arith
Raise-position c team Raise.to_vale_cuatro = omega arith

answered_position :
    (l : TrucoCallLevel) (c other : String)
    → (truco_position (pending l c) < truco_position (accepted l c))
      × (truco_position (pending l c) < truco_position (declined l c other))
unfolding truco_position
answered_position truco c other = (omega arith, omega arith)
answered_position retruco c other = (omega arith, omega arith)
answered_position vale_cuatro c other = (omega arith, omega arith)

truco_moves_on :
    {n : ℕ} {p : Player} {c d : TrucoState} {m : TrucoMove} {o : HandOutcome} {ts us : List Team}
    → Calls.Step n p c m d o ts us
    → truco_position c < truco_position d
unfolding truco_position
truco_moves_on (Calls.Step.opens seat) = omega arith
truco_moves_on {p} (Calls.Step.accepts {level} {caller} ne) =
    (answered_position level caller caller).0
truco_moves_on {p} (Calls.Step.refuses {level} {caller} ne r q) =
    (answered_position level caller p.team_id).1
truco_moves_on {p} (Calls.Step.raises {caller = caller} ne r) = Raise-position caller p.team_id r

-- How far the envido of a hand has come, at a table of that many seats.
pub envido_position : ℕ → EnvidoState → ℕ
envido_position seats no_envido = 0
envido_position seats (envido_pending calls caller) = min 4 (highest_weight calls)
envido_position seats (envido_accepted calls caller value said) = 5 + min seats (length said)
envido_position seats (envido_declined calls caller other) = 6 + seats
envido_position seats (envido_revealed calls winner value said) = 6 + seats

envido_position-le : (seats : ℕ) (c : EnvidoState) → envido_position seats c ≤ 6 + seats
unfolding envido_position
envido_position-le seats no_envido = omega arith
envido_position-le seats (envido_pending calls caller) = ground arith
envido_position-le seats (envido_accepted calls caller value said) = ground arith
envido_position-le seats (envido_declined calls caller other) = omega arith
envido_position-le seats (envido_revealed calls winner value said) = omega arith

weight_order : {l m : EnvidoCallLevel} → Above l m → call_weight l < call_weight m
weight_order Above.second_envido = omega arith
weight_order Above.real_first = omega arith
weight_order Above.real_second = omega arith
weight_order Above.falta_first = omega arith
weight_order Above.falta_second = omega arith
weight_order Above.falta_real = omega arith

call_weight-range : (level : EnvidoCallLevel) → (0 < call_weight level) × (call_weight level ≤ 4)
call_weight-range envido = (omega arith, omega arith)
call_weight-range envido_envido = (omega arith, omega arith)
call_weight-range real_envido = (omega arith, omega arith)
call_weight-range falta_envido = (omega arith, omega arith)

pub raised_weight :
    (calls : List EnvidoCallLevel) (level : EnvidoCallLevel)
    → All (λ l. Above l level) calls
    → (highest_weight calls < call_weight level)
      × (highest_weight (calls ++ level ∷ []) ≡ call_weight level)
unfolding highest_weight
raised_weight [] level h = let (low, high) = call_weight-range level in (low, ground arith)
raised_weight (l ∷ calls) level (a, h) =
    let (less, top) = raised_weight calls level h in
    let here = weight_order a in (ground (arith, less, here), rw top (ground (arith, here)))

envido_moves_on :
    {s : MatchState} {h : HandState} {p : Player} {c d : EnvidoState} {m : EnvidoMove}
    {us : List Team}
    → EnvidoSteps.Step s h p c m d us
    → envido_position (length s.players) c < envido_position (length s.players) d
unfolding envido_position highest_weight
envido_moves_on (EnvidoSteps.Step.opens may) = omega arith
envido_moves_on (EnvidoSteps.Step.raises {calls} {level = level} ne all) =
    let (less, top) = raised_weight calls level all in
    let range = (call_weight-range level).1 in rw top (ground (arith, less, range))
envido_moves_on (EnvidoSteps.Step.accepts ne w) = ground arith
envido_moves_on (EnvidoSteps.Step.refuses ne r q) = ground arith
envido_moves_on {p} (EnvidoSteps.Step.speaks {said = said} {laid = laid} turn l more) =
    let size = length-append said (number_of p laid ∷ []) in rw size (ground (arith, more))
envido_moves_on (EnvidoSteps.Step.finishes turn l last w q) = ground arith
envido_moves_on (EnvidoSteps.Step.concedes turn b f q) = ground arith

-- How many actions of the truco and of the envido an action is.
abbrev pub of_truco : Action → ℕ
of_truco (truco_action a) = 1
of_truco (envido_action a) = 0
of_truco (play_card a) = 0
of_truco (send_sena a) = 0
of_truco (consult_partner a) = 0

abbrev pub of_envido : Action → ℕ
of_envido (truco_action a) = 0
of_envido (envido_action a) = 1
of_envido (play_card a) = 0
of_envido (send_sena a) = 0
of_envido (consult_partner a) = 0

-- The accepted actions of a hand, of every kind, with the number of those of the truco and of the envido.
pub data Run : ℕ → ℕ → MatchState → MatchState → Type 0 where
  stay : {s : MatchState} → Run 0 0 s s
  step :
      {m n : ℕ} {s t u : MatchState} (a : Action)
      → apply_action s a ≡ ok t
      → Run m n t u
      → Run (of_truco a + m) (of_envido a + n) s u

-- What an action adds to the positions of a hand.
abbrev Further : MatchState → HandState → Action → MatchState → Type 0
Further s h a t =
    (h' : HandState) × (t.hand ≡ some h')
    × (length t.players ≡ length s.players)
    × (of_truco a + truco_position h.truco_state ≤ truco_position h'.truco_state)
    × (of_envido a + envido_position (length s.players) h.envido_state
        ≤ envido_position (length s.players) h'.envido_state)

Keeps-Further :
    (s t : MatchState) (h : HandState) (a : Action)
    → of_truco a ≡ 0
    → of_envido a ≡ 0
    → Keeps s h t
    → Further s h a t
Keeps-Further s t h a e f (h', at_hand, same, same', n) =
    (h', at_hand, n, rw (e, same) (omega arith), rw (f, same') (omega arith))

apply_action-Further :
    (s t : MatchState) (h : HandState) (a : Action)
    → s.hand ≡ some h
    → apply_action s a ≡ ok t
    → Further s h a t
unfolding apply_action
apply_action-Further s t h (truco_action a) k e =
    let (p, g, settled, going, (after, o, teams, took, same)) =
      apply_truco_action-Stepped s t h a k (from_truco-ok _ t e) in
    let more = truco_moves_on took in
    (_, ap (λ x. x.hand) same, ap (λ x. length x.players) same, omega (arith, more), omega arith)
apply_action-Further s t h (envido_action a) k e =
    let (p, g, going, (after, teams, took, same)) =
      apply_envido_action-Stepped s t h a k (from_envido-ok _ t e) in
    let more = envido_moves_on took in
    (_, ap (λ x. x.hand) same, ap (λ x. length x.players) same, omega arith, omega (arith, more))
apply_action-Further s t h (play_card a) k e =
    Keeps-Further s t h (play_card a) refl refl
      (apply_card_play_action-Keeps s t h a k (from_play-ok _ t e))
apply_action-Further s t h (send_sena a) k e =
    Keeps-Further s t h (send_sena a) refl refl
      (apply_sena_action-Keeps s t h a k (from_sena-ok _ t e))
apply_action-Further s t h (consult_partner a) k e =
    Keeps-Further s t h (consult_partner a) refl refl
      (apply_consult_action-Keeps s t h a k (from_sena-ok _ t e))

-- However a hand goes on, with plays, signals, consults and the envido between, the actions of the truco accepted in it
-- and the position of the truco before them are seven at most; so a hand whose truco has not been called
-- sees at most seven of them.
pub Run-truco :
    {m n : ℕ} {s t : MatchState} (h : HandState)
    → s.hand ≡ some h
    → Run m n s t
    → m + truco_position h.truco_state ≤ 7
Run-truco h k stay = omega (arith, truco_position-le h.truco_state)
Run-truco h k (step {m} {n} {s} {t} a e r) =
    let (h', at_hand, same, more, more') = apply_action-Further s t h a k e in
    let rest = Run-truco h' at_hand r in omega (arith, more, rest)

-- However a hand goes on, with plays, signals, consults and the truco between, the actions of the envido accepted in it
-- and the position of the envido before them are six more than the players at most; so a hand whose envido
-- has not been called sees at most that many of them.
pub Run-envido :
    {m n : ℕ} {s t : MatchState} (h : HandState)
    → s.hand ≡ some h
    → Run m n s t
    → n + envido_position (length s.players) h.envido_state ≤ 6 + length s.players
Run-envido {s} h k stay = omega (arith, envido_position-le (length s.players) h.envido_state)
Run-envido h k (step {m} {n} {s} {t} a e r) =
    let (h', at_hand, same, more, more') = apply_action-Further s t h a k e in
    let rest = Run-envido h' at_hand r in
    let rest' : n + envido_position (length s.players) h'.envido_state ≤ 6 + length s.players =
      subst (λ x. n + envido_position x h'.envido_state ≤ 6 + x) same rest in
    omega (arith, more', rest')
