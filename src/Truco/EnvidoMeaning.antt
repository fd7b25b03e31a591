-- ===== src/Truco/EnvidoMeaning.antt =====
-- What the helpers of applyEnvidoAction of envido-chain.ts compute, by the rules of the game.
use convite.Prelude.{
  ℕ, ◌+◌, ◌-◌, max, ◌<◌, ◌≤◌, ◌≡◌, refl, sym, ap, subst, inl, inr, Bool, true, false, Bool-cases,
  Option-cases, not, ◌&&◌, ◌==◌, ==_iff, String, List, [], ◌∷◌, ◌++◌, map, filter, any, find,
  Option, none, some, All, length, arith, same_id, same_id_iff, leb, leb→le, ◌%◌,
}
use mathlib.Core.Option.{some-injective}
use mathlib.Core.List.{Memᴰ}
use native.Mathlib.Decide.{dec_le}
use convite.Deck.{Card}
use convite.Truco.State.{
  Team, Player, TrucoState, not_called, pending, accepted, declined, EnvidoCallLevel, envido,
  envido_envido, real_envido, falta_envido, EnvidoDeclaration, points_said, son_buenas, HandPlay,
  HandState, MatchState,
}
use convite.Truco.Envido.{
  call_weight, sum_value, all_but_last, decline_value, leading_score, falta_envido_value, is_pie,
  has_played, can_open_envido, may_speak, highest_weight, Said, is_more, better, best_declaration,
  side_is_ahead,
}
use convite.Truco.Declaring.{ends_in_falta, accepted_value, opposing_team, team_of_best}
use convite.Truco.Calls.{not_team}
use convite.Truco.BestSaid.{best_declaration-IsFirstBest}
use convite.Truco.Tantos.{calculate_envido_points}
use convite.Truco.EnvidoSteps.{
  Above, Adds, IsMissing, Worth, Refusal, Laid, FirstOther, Speaks, IsPie, MayOpen, IsBehind,
  IsWinner, number_of,
}

above : (l m : EnvidoCallLevel) → call_weight l < call_weight m → Above l m
above envido envido h = absurd (omega (arith, h))
above envido envido_envido h = Above.second_envido
above envido real_envido h = Above.real_first
above envido falta_envido h = Above.falta_first
above envido_envido envido h = absurd (omega (arith, h))
above envido_envido envido_envido h = absurd (omega (arith, h))
above envido_envido real_envido h = Above.real_second
above envido_envido falta_envido h = Above.falta_second
above real_envido envido h = absurd (omega (arith, h))
above real_envido envido_envido h = absurd (omega (arith, h))
above real_envido real_envido h = absurd (omega (arith, h))
above real_envido falta_envido h = Above.falta_real
above falta_envido envido h = absurd (omega (arith, h))
above falta_envido envido_envido h = absurd (omega (arith, h))
above falta_envido real_envido h = absurd (omega (arith, h))
above falta_envido falta_envido h = absurd (omega (arith, h))

pub every_one_below :
    (calls : List EnvidoCallLevel) (level : EnvidoCallLevel)
    → highest_weight calls < call_weight level
    → All (λ l. Above l level) calls
unfolding highest_weight
every_one_below [] level h = tt
every_one_below (l ∷ calls) level h =
    (above l level (ground (arith, h)), every_one_below calls level (ground (arith, h)))

sum_value-Adds : (calls : List EnvidoCallLevel) (v : ℕ) → sum_value calls ≡ some v → Adds calls v
unfolding sum_value
sum_value-Adds [] v e = subst (Adds []) (some-injective 0 v e) Adds.no_calls
sum_value-Adds (envido ∷ calls) v e = elim (Option-cases (sum_value calls)) [
  | inl f ↦ cc (rw (sum_value, f) at e)
  | inr (n, f) ↦
      subst (Adds (envido ∷ calls)) (some-injective (2 + n) v (rw (sum_value, f) at e))
        (Adds.two_more (sum_value-Adds calls n f))
]
sum_value-Adds (envido_envido ∷ calls) v e = elim (Option-cases (sum_value calls)) [
  | inl f ↦ cc (rw (sum_value, f) at e)
  | inr (n, f) ↦
      subst (Adds (envido_envido ∷ calls)) (some-injective (2 + n) v (rw (sum_value, f) at e))
        (Adds.two_again (sum_value-Adds calls n f))
]
sum_value-Adds (real_envido ∷ calls) v e = elim (Option-cases (sum_value calls)) [
  | inl f ↦ cc (rw (sum_value, f) at e)
  | inr (n, f) ↦
      subst (Adds (real_envido ∷ calls)) (some-injective (3 + n) v (rw (sum_value, f) at e))
        (Adds.three_more (sum_value-Adds calls n f))
]
sum_value-Adds (falta_envido ∷ calls) v e = cc

later :
    (l m : EnvidoCallLevel) (calls : List EnvidoCallLevel)
    → ends_in_falta (l ∷ m ∷ calls) ≡ true
    → ends_in_falta (m ∷ calls) ≡ true
unfolding ends_in_falta
later envido m calls e = e
later envido_envido m calls e = e
later real_envido m calls e = e
later falta_envido m calls e = e

ends_in_falta-split :
    (calls : List EnvidoCallLevel)
    → ends_in_falta calls ≡ true
    → (prior : List EnvidoCallLevel) × (prior ++ falta_envido ∷ [] ≡ calls)
unfolding ends_in_falta
ends_in_falta-split [] e = cc
ends_in_falta-split (envido ∷ []) e = cc
ends_in_falta-split (envido_envido ∷ []) e = cc
ends_in_falta-split (real_envido ∷ []) e = cc
ends_in_falta-split (falta_envido ∷ []) e = ([], refl)
ends_in_falta-split (l ∷ m ∷ calls) e =
    let (prior, f) = ends_in_falta-split (m ∷ calls) (later l m calls e) in
    (l ∷ prior, ap (λ x. l ∷ x) f)

lone : (teams : List Team) (n : ℕ) → leading_score teams ≡ none → All (λ team. team.score ≤ n) teams
unfolding leading_score
lone [] n e = tt
lone (team ∷ teams) n e = elim (Option-cases (leading_score teams)) [
  | inl f ↦ cc (rw (leading_score, f) at e)
  | inr (m, f) ↦ cc (rw (leading_score, f) at e)
]

All-weaken :
    (teams : List Team) (m n : ℕ)
    → m ≤ n
    → All (λ team. team.score ≤ m) teams
    → All (λ team. team.score ≤ n) teams
All-weaken [] m n le h = tt
All-weaken (team ∷ teams) m n le (here, h) = (omega (arith, here, le), All-weaken teams m n le h)

leading_score-leads :
    (teams : List Team) (n : ℕ)
    → leading_score teams ≡ some n
    → ((team : Team) × Memᴰ team teams × (team.score ≡ n)) × All (λ team. team.score ≤ n) teams
unfolding leading_score
leading_score-leads [] n e = cc
leading_score-leads (team ∷ teams) n e = elim (Option-cases (leading_score teams)) [
  | inl f ↦
      let same = some-injective team.score n (rw (leading_score, f) at e) in
      ((team, Memᴰ.head refl, same), (omega (arith, same), lone teams n f))
  | inr (m, f) ↦
      let same : max team.score m ≡ n = some-injective _ n (rw (leading_score, f) at e) in
      let ((first, there, is_m), below) = leading_score-leads teams m f in
      (
        elim (dec_le m team.score) [
          | yes le ↦ (team, Memᴰ.head refl, omega (arith, same, le))
          | no gt ↦ (first, Memᴰ.tail there, omega (arith, same, is_m, gt))
        ],
        (omega (arith, same), All-weaken teams m n (omega (arith, same)) below),
      )
]

rest : (n target v : ℕ) → leb n target ≡ true → target - n ≡ v → v + n ≡ target
rest n target v e f = ground arith

falta_envido_value-IsMissing :
    (s : MatchState) (v : ℕ) → falta_envido_value s ≡ some v → IsMissing s v
unfolding falta_envido_value
falta_envido_value-IsMissing s v e = elim (Option-cases (leading_score s.teams)) [
  | inl f ↦ cc (rw (falta_envido_value, f) at e)
  | inr (n, f) ↦ elim (Bool-cases (leb n s.points_to_win)) [
    | inr g ↦ cc (rw (falta_envido_value, f, g) at e)
    | inl g ↦
        let same = some-injective (s.points_to_win - n) v (rw (falta_envido_value, f, g) at e) in
        let (first, below) = leading_score-leads s.teams n f in
        (n, first, below, rest n s.points_to_win v g same)
  ]
]

pub accepted_value-Worth :
    (s : MatchState) (calls : List EnvidoCallLevel) (v : ℕ)
    → accepted_value s calls ≡ some v
    → Worth s calls v
unfolding accepted_value
accepted_value-Worth s calls v e = elim (Bool-cases (ends_in_falta calls)) [
  | inr f ↦ Worth.summed (sum_value-Adds calls v (rw (accepted_value, f) at e))
  | inl f ↦
      let (prior, same) = ends_in_falta-split calls f in
      subst (λ x. Worth s x v) same
        (Worth.falta prior (falta_envido_value-IsMissing s v (rw (accepted_value, f) at e)))
]

all_but_last-split :
    (l : EnvidoCallLevel) (calls : List EnvidoCallLevel)
    → (last : EnvidoCallLevel) × (all_but_last (l ∷ calls) ++ last ∷ [] ≡ l ∷ calls)
unfolding all_but_last
all_but_last-split l [] = (l, refl)
all_but_last-split l (m ∷ calls) =
    let (last, e) = all_but_last-split m calls in (last, ap (λ x. l ∷ x) e)

pub decline_value-Refusal :
    (calls : List EnvidoCallLevel) (v : ℕ) → decline_value calls ≡ some v → Refusal calls v
unfolding decline_value all_but_last sum_value
decline_value-Refusal [] v e = subst (Refusal []) (some-injective 1 v e) Refusal.nothing_called
decline_value-Refusal (l ∷ calls) v e = elim (Option-cases (sum_value (all_but_last (l ∷ calls)))) [
  | inl f ↦ cc (rw (decline_value, f) at e)
  | inr (n, f) ↦
      let (last, same) = all_but_last-split l calls in
      let paid = some-injective (max 1 n) v (rw (decline_value, f) at e) in
      subst (Refusal (l ∷ calls)) paid (
        subst (λ x. Refusal x (max 1 n)) same
          (Refusal.last_refused (all_but_last (l ∷ calls)) last (sum_value-Adds _ n f)))
]

pub own_plays :
    (id : String) (plays : List HandPlay)
    → Laid id plays (map (λ play. play.card) (filter (λ play. same_id play.player_id id) plays))
own_plays id [] = Laid.laid_none
own_plays id (play ∷ plays) = elim (Bool-cases (same_id play.player_id id)) [
  | inl f ↦ rw f (Laid.laid_own play ((same_id_iff play.player_id id).0 f) (own_plays id plays))
  | inr f ↦ rw f (Laid.laid_other play (not_team play.player_id id f) (own_plays id plays))
]

first_other :
    (own caller : String) (teams : List Team)
    → FirstOther own caller teams
        (elim (find (λ t. not (same_id t.id own)) teams) [ none ↦ caller | some team ↦ team.id ])
first_other own caller [] = FirstOther.nobody_else
first_other own caller (team ∷ teams) = elim (Bool-cases (same_id team.id own)) [
  | inl f ↦
      rw f (FirstOther.own_team team ((same_id_iff team.id own).0 f) (first_other own caller teams))
  | inr f ↦ rw f (FirstOther.found_other team (not_team team.id own f))
]

pub opposing_team-FirstOther :
    (s : MatchState) (p : Player) (caller : String)
    → FirstOther p.team_id caller s.teams (opposing_team s p caller)
unfolding opposing_team
opposing_team-FirstOther s p caller = first_other p.team_id caller s.teams

any-none {ℓ} :
    {A : Type ℓ} (f : A → Bool) (xs : List A) → any f xs ≡ false → (x : A) → Memᴰ x xs → f x ≡ false
any-none f [] e x m = elim m [ ]
any-none f (y ∷ xs) e x (Memᴰ.head h) = subst (λ z. f z ≡ false) (sym h) (ground arith)
any-none f (y ∷ xs) e x (Memᴰ.tail m) = any-none f xs (ground arith) x m

no_length {ℓ} : {A : Type ℓ} (xs : List A) → length xs == 0 ≡ true → xs ≡ []
no_length [] e = refl
no_length (x ∷ xs) e = absurd (omega (arith, (==_iff (length (x ∷ xs)) 0).0 e))

speaks : (c : TrucoState) (h : HandState) (p : Player) → may_speak c h p ≡ true → Speaks h p c
speaks not_called h p e = Speaks.in_turn ((==_iff p.seat h.turn_seat).0 e)
speaks (pending level team) h p e = elim (Bool-cases (same_id p.team_id team)) [
  | inl f ↦ cc (rw f at e)
  | inr f ↦ Speaks.answering (not_team p.team_id team f)
]
speaks (accepted level team) h p e = Speaks.playing ((==_iff p.seat h.turn_seat).0 e)
speaks (declined level team other) h p e = cc

both : (a b : Bool) → (a && b) ≡ true → (a ≡ true) × (b ≡ true)
both true true e = (refl, refl)
both true false e = cc
both false b e = cc

negated : (a : Bool) → not a ≡ true → a ≡ false
negated true e = cc
negated false e = refl

is_pie-IsPie : (h : HandState) (p : Player) (seats : ℕ) → is_pie h p seats ≡ true → IsPie h p seats
unfolding is_pie
is_pie-IsPie h p seats e = elim (Bool-cases (leb h.mano_seat (p.seat + seats))) [
  | inl f ↦ inl (
    leb→le h.mano_seat (p.seat + seats) f,
    leb→le seats ((p.seat + seats - h.mano_seat) % seats + 2) (rw (is_pie, f) at e),
  )
  | inr f ↦ inr (
    ground (arith, f),
    leb→le (seats + (h.mano_seat - (p.seat + seats)) % seats) 2 (rw (is_pie, f) at e),
  )
]

pub can_open_envido-MayOpen :
    (s : MatchState) (h : HandState) (p : Player)
    → can_open_envido h p (length s.players) ≡ true
    → MayOpen s h p
unfolding can_open_envido has_played
can_open_envido-MayOpen s h p e =
    let (first, e1) = both _ _ e in
    let (unplayed, e2) = both _ _ e1 in
    let (pie, speaking) = both _ _ e2 in
    (
      no_length h.trick_outcomes first,
      λ play m. not_team play.player_id p.id (
          any-none (λ x. same_id x.player_id p.id) h.current_trick_plays (negated _ unplayed) play
            m),
      is_pie-IsPie h p (length s.players) pie,
      speaks h.truco_state h p speaking,
    )

pub side_is_ahead-IsBehind :
    (p : Player) (said : List EnvidoDeclaration)
    → side_is_ahead (best_declaration none said) p ≡ false
    → IsBehind p said
side_is_ahead-IsBehind p said e best f = not_team best.team_id p.team_id (rw f at e)

best_of_last :
    (w : Option Said) (said : List EnvidoDeclaration) (id team : String) (seat : ℕ) (q : Option ℕ)
    → (b : Said) × (best_declaration w (said ++ points_said id team seat q ∷ []) ≡ some b)
unfolding best_declaration
best_of_last none [] id team seat q = (_, refl)
best_of_last (some w) [] id team seat q = elim (Bool-cases (is_more q w.points)) [
  | inl f ↦ (record { team_id = team; points = q }, rw f refl)
  | inr f ↦ (w, rw f refl)
]
best_of_last w (son_buenas i t n ∷ said) id team seat q = best_of_last w said id team seat q
best_of_last w (points_said i t n r ∷ said) id team seat q =
    best_of_last (better w (record { team_id = t; points = r })) said id team seat q

-- The team of the best declaration, once a number has been said.
pub team_of_best-IsWinner :
    (said : List EnvidoDeclaration) (p : Player) (laid : List Card) (caller : String)
    → IsWinner
        (said ++ number_of p laid ∷ [])
        (team_of_best (best_declaration none (said ++ number_of p laid ∷ [])) caller)
team_of_best-IsWinner said p laid caller =
    let (b, e) =
      best_of_last none said p.id p.team_id p.seat (calculate_envido_points (p.hand ++ laid)) in
    (b, best_declaration-IsFirstBest _ b e, rw e refl)
