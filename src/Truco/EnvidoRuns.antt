-- ===== src/Truco/EnvidoRuns.antt =====
-- About applyEnvidoAction of envido-chain.ts: that a legal action has a next match.
use convite.Prelude.{
  ℕ, max, ◌≤◌, ◌≡◌, ◌⊎◌, refl, sym, ap, arith, ◌∙◌, subst, inl, inr, Bool, true, false, ◌&&◌, ltb,
  ◌==◌, Bool-cases, Option-cases, List, [], ◌∷◌, ◌++◌, Option, none, some, length, String, any,
  same_id, if◌then◌else◌,
}
use convite.Truco.State.{
  Team, real_envido, falta_envido, envido_envido, Player, EnvidoCallLevel, envido,
  EnvidoDeclaration, EnvidoState, no_envido, envido_pending, envido_accepted, envido_declined,
  envido_revealed, HandState, MatchState,
}
use mathlib.Core.Option.{some-injective}
use convite.Truco.Chain.{find_player, is_decided}
use convite.Truco.Envido.{
  call_weight, call_value, add_values, sum_value, EnvidoMove, call_envido, declare_envido,
  EnvidoAction, EnvidoResult, ok, violation, decline_value, leading_score, can_open_envido,
  declarer_seat_for, envido_moves, envido_actions_equal, get_legal_envido_actions, is_legal_envido,
}
use convite.Truco.Declaring.{
  accepted_value, entry_of, answer_envido, declare, make_envido_move, apply_envido_action,
}
use convite.Truco.EnvidoPlays.{apply_envido_action-Stepped}
use convite.Truco.EnvidoSteps.{Adds, Worth, Step}
use convite.Truco.Rounds.{raised_weight}
use convite.Truco.EnvidoGrants.{Replies, is_opening, is_reply, is_declaration, legal_parts}
use convite.Truco.EnvidoValues.{
  light, sum_value-append, sum_value-IsRising, IsRising, opened-IsRising, raised-IsRising,
  decline_value-IsRising, accepted_value-IsRising,
}

-- The calls of a pending envido rise, and the value of an accepted one is at most that.
unfoldable pub IsSound : ℕ → EnvidoState → Type 0
IsSound most no_envido = Unit
IsSound most (envido_pending calls caller) = IsRising calls
IsSound most (envido_accepted calls caller value said) = value ≤ most
IsSound most (envido_declined calls caller other) = Unit
IsSound most (envido_revealed calls winner value said) = value ≤ most

no_falta :
    (l : EnvidoCallLevel) (n v : ℕ)
    → (call_weight l == 4) ≡ true
    → ¬ (add_values (some n) (call_value l) ≡ some v)
no_falta envido n v e f = cc
no_falta envido_envido n v e f = cc
no_falta real_envido n v e f = cc
no_falta falta_envido n v e f = cc

Adds-sum_value : {calls : List EnvidoCallLevel} {v : ℕ} → Adds calls v → sum_value calls ≡ some v
unfolding sum_value
Adds-sum_value Adds.no_calls = refl
Adds-sum_value (Adds.two_more a) = rw (Adds-sum_value a) refl
Adds-sum_value (Adds.two_again a) = rw (Adds-sum_value a) refl
Adds-sum_value (Adds.three_more a) = rw (Adds-sum_value a) refl

rising_sum :
    (calls : List EnvidoCallLevel) (v : ℕ) → IsRising calls → sum_value calls ≡ some v → v ≤ 7
rising_sum calls v r e = elim (Bool-cases (call_weight r.last == 4)) [
  | inl g ↦ absurd (
      no_falta r.last r.value v g
        (sym (sum_value-append r.before r.last r.value r.worth) ∙ sym (ap sum_value r.split) ∙ e))
  | inr g ↦
      let (w, sum, small) =
        sum_value-IsRising r.before r.last falta_envido r.value r.worth r.bound (light r.last g) in
      let same = some-injective w v (sym sum ∙ sym (ap sum_value r.split) ∙ e) in
      subst (λ n. n ≤ 7) same small
]

Worth-le :
    {s : MatchState} {calls : List EnvidoCallLevel} {v : ℕ}
    → IsRising calls
    → Worth s calls v
    → v ≤ max 7 s.points_to_win
Worth-le {calls = calls} {v} r (Worth.summed a) =
    let small = rising_sum calls v r (Adds-sum_value a) in omega (arith, small)
Worth-le r (Worth.falta calls (best, first, below, e)) = omega (arith, e)

Step-IsSound :
    {s : MatchState} {h : HandState} {p : Player} {c d : EnvidoState} {m : EnvidoMove}
    {us : List Team}
    → IsSound (max 7 s.points_to_win) c
    → Step s h p c m d us
    → IsSound (max 7 s.points_to_win) d
unfolding IsSound
Step-IsSound i (Step.opens may) = opened-IsRising
Step-IsSound i (Step.raises {calls} {level = level} ne all) =
    raised-IsRising calls level i (raised_weight calls level all).0
Step-IsSound i (Step.accepts ne w) = Worth-le i w
Step-IsSound i (Step.refuses ne r q) = tt
Step-IsSound i (Step.speaks turn l more) = i
Step-IsSound i (Step.finishes turn l last w q) = i
Step-IsSound i (Step.concedes turn b f q) = i

Runs : MatchState → HandState → Player → EnvidoMove → Type 0
Runs s h p m = (t : MatchState) × (make_envido_move s h p m ≡ ok t)

either_ok : (b : Bool) (x y : MatchState) → (t : MatchState) × ((if b then ok x else ok y) ≡ ok t)
either_ok true x y = (x, refl)
either_ok false x y = (y, refl)

valued_ok :
    (o : Option ℕ) (f : ℕ → MatchState) (v : ℕ)
    → o ≡ some v
    → (t : MatchState) × ((elim o [ none ↦ EnvidoResult.out_of_range | some w ↦ ok (f w) ]) ≡ ok t)
valued_ok none f v e = cc
valued_ok (some w) f v e = (f w, refl)

declare_runs :
    (s : MatchState) (h : HandState) (p : Player) (points : Bool) (calls : List EnvidoCallLevel)
    (caller : String) (v : ℕ) (said : List EnvidoDeclaration)
    → (t : MatchState) × (declare s h p points (envido_accepted calls caller v said) ≡ ok t)
unfolding declare
declare_runs s h p points calls caller v said =
    either_ok (points && ltb (length (said ++ entry_of h p points ∷ [])) (length s.players)) _ _

accept_runs :
    (s : MatchState) (h : HandState) (p : Player) (calls : List EnvidoCallLevel) (caller : String)
    (v : ℕ)
    → accepted_value s calls ≡ some v
    → (t : MatchState) × (answer_envido s h p true (envido_pending calls caller) ≡ ok t)
unfolding answer_envido
accept_runs s h p calls caller v e = valued_ok (accepted_value s calls) _ v e

decline_runs :
    (s : MatchState) (h : HandState) (p : Player) (calls : List EnvidoCallLevel) (caller : String)
    (v : ℕ)
    → decline_value calls ≡ some v
    → (t : MatchState) × (answer_envido s h p false (envido_pending calls caller) ≡ ok t)
unfolding answer_envido
decline_runs s h p calls caller v e = valued_ok (decline_value calls) _ v e

call_has_next :
    (s : MatchState) (h : HandState) (p : Player) (level : EnvidoCallLevel)
    → Runs s h p (call_envido level)
unfolding Runs make_envido_move
call_has_next s h p level = (_, refl)

reply_has_next :
    (s : MatchState) (h : HandState) (p : Player) (m : EnvidoMove) (calls : List EnvidoCallLevel)
    (caller : String) (n : ℕ)
    → leading_score s.teams ≡ some n
    → n ≤ s.points_to_win
    → IsRising calls
    → h.envido_state ≡ envido_pending calls caller
    → Replies calls m
    → Runs s h p m
unfolding Runs make_envido_move Replies
reply_has_next s h p m calls caller n l b r k (inl (level, same, higher)) =
    subst (Runs s h p) (sym same) (call_has_next s h p level)
reply_has_next s h p m calls caller n l b r k (inr (inl same)) =
    let (v, f, _) = accepted_value-IsRising s n calls l b r in
    subst (Runs s h p) (sym same) (
      subst (λ c. (t : MatchState) × (answer_envido s h p true c ≡ ok t)) (sym k)
        (accept_runs s h p calls caller v f))
reply_has_next s h p m calls caller n l b r k (inr (inr same)) =
    let (v, f, _, _) = decline_value-IsRising calls r in
    subst (Runs s h p) (sym same) (
      subst (λ c. (t : MatchState) × (answer_envido s h p false c ≡ ok t)) (sym k)
        (decline_runs s h p calls caller v f))

declaration_has_next :
    (s : MatchState) (h : HandState) (p : Player) (m : EnvidoMove) (points : Bool)
    (calls : List EnvidoCallLevel) (caller : String) (v : ℕ) (said : List EnvidoDeclaration)
    → h.envido_state ≡ envido_accepted calls caller v said
    → m ≡ declare_envido points
    → Runs s h p m
unfolding Runs make_envido_move
declaration_has_next s h p m points calls caller v said k same = subst (Runs s h p) (sym same) (
    subst (λ c. (t : MatchState) × (declare s h p points c ≡ ok t)) (sym k)
      (declare_runs s h p points calls caller v said))

legal_has_next :
    (c : EnvidoState) (s : MatchState) (h : HandState) (p : Player) (m : EnvidoMove) (n : ℕ)
    → leading_score s.teams ≡ some n
    → n ≤ s.points_to_win
    → IsSound (max 7 s.points_to_win) c
    → h.envido_state ≡ c
    → any (λ legal. envido_actions_equal legal m) (envido_moves c s h p) ≡ true
    → Runs s h p m
unfolding envido_moves IsSound
legal_has_next no_envido s h p m n l b i k e =
    elim (Bool-cases (can_open_envido h p (length s.players))) [
      | inr g ↦ cc (rw g at e)
      | inl g ↦ subst (Runs s h p) (sym (is_opening m (rw g at e))) (call_has_next s h p envido)
    ]
legal_has_next (envido_pending calls c) s h p m n l b i k e =
    elim (Bool-cases (same_id p.team_id c)) [
      | inl g ↦ cc (rw g at e)
      | inr g ↦ reply_has_next s h p m calls c n l b i k (is_reply calls m (rw g at e))
    ]
legal_has_next (envido_accepted calls c v said) s h p m n l b i k e =
    elim (Bool-cases (declarer_seat_for s h said == p.seat)) [
      | inr g ↦ cc (rw g at e)
      | inl g ↦ elim (is_declaration said p m (rw g at e)) [
        | inl same ↦ declaration_has_next s h p m true calls c v said k same
        | inr (same, behind) ↦ declaration_has_next s h p m false calls c v said k same
      ]
    ]
legal_has_next (envido_declined calls c o) s h p m n l b i k e = cc
legal_has_next (envido_revealed calls c v said) s h p m n l b i k e = cc

-- In a match with teams of which none is past the target, and a hand whose pending calls of envido rise
-- and whose accepted envido is worth at most seven points or the target, applyEnvidoAction refuses an
-- action that is not offered and has a next match, with the same two conditions on its envido, for every
-- action that is: it never throws, and no value is NaN or negative.
pub apply_envido_action-runs :
    (s : MatchState) (h : HandState) (a : EnvidoAction) (n : ℕ)
    → s.hand ≡ some h
    → leading_score s.teams ≡ some n
    → n ≤ s.points_to_win
    → IsSound (max 7 s.points_to_win) h.envido_state
    → (is_legal_envido s a ≡ false) × (apply_envido_action s a ≡ violation)
      ⊎ (is_legal_envido s a ≡ true)
        × (t : MatchState) × (h' : HandState) × (apply_envido_action s a ≡ ok t)
        × (t.hand ≡ some h')
        × IsSound (max 7 s.points_to_win) h'.envido_state
unfolding apply_envido_action is_legal_envido get_legal_envido_actions Runs
apply_envido_action-runs s h a n k l b i = elim (Bool-cases (is_legal_envido s a)) [
  | inr f ↦ inl (f, rw (apply_envido_action, f) refl)
  | inl f ↦ elim (Option-cases (find_player s.players a.player_id)) [
    | inl g ↦ elim (Bool-cases (is_decided h.outcome)) [
      | inl o ↦ cc (rw (is_legal_envido, get_legal_envido_actions, k, o) at f)
      | inr o ↦ cc (rw (is_legal_envido, get_legal_envido_actions, k, o, g) at f)
    ]
    | inr (p, g) ↦
        let (over, legal) = legal_parts s a h p k g f in
        let (t, e) = legal_has_next h.envido_state s h p a.move n l b i refl legal in
        let done : apply_envido_action s a ≡ ok t = rw (apply_envido_action, f, k, g) e in
        let (q, g', going, (after, teams, took, same)) =
          apply_envido_action-Stepped s t h a k done in
        inr (f, t, _, done, ap (λ x. x.hand) same, Step-IsSound i took)
  ]
]
