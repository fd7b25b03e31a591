-- ===== src/Truco/EnvidoGrants.antt =====
-- About getLegalEnvidoActions of envido-chain.ts: what the legal moves of an envido grant.
use convite.Prelude.{
  ◌<◌, ◌≡◌, ◌⊎◌, refl, subst, inl, inr, ==_iff, ltb, ltb→lt, Bool, true, false, Bool-cases, List,
  [], ◌∷◌, map, none, some, any, filter,
}
use convite.Truco.State.{
  Player, EnvidoCallLevel, envido, envido_envido, real_envido, falta_envido, EnvidoDeclaration,
  HandState, MatchState,
}
use convite.Truco.Chain.{find_player, is_decided}
use convite.Truco.Envido.{
  EnvidoMove, call_envido, respond_envido, declare_envido, EnvidoAction, ok, call_weight,
  call_order, highest_weight, escalations, best_declaration, side_is_ahead, declare_moves,
  envido_moves, get_legal_envido_actions, envido_actions_equal, is_legal_envido,
}

pub ok-injective : {s t : MatchState} → ok s ≡ ok t → s ≡ t
ok-injective e = cc

any-map-filter {ℓ κ} :
    {A : Type ℓ} {B : Type κ} (q : B → Bool) (f : A → B) (r : A → Bool) (xs : List A)
    → any q (map f (filter r xs)) ≡ true
    → (x : A) × (r x ≡ true) × (q (f x) ≡ true)
any-map-filter q f r [] e = cc
any-map-filter q f r (x ∷ xs) e = elim (Bool-cases (r x)) [
  | inr g ↦ any-map-filter q f r xs (rw g at e)
  | inl g ↦ elim (Bool-cases (q (f x))) [
    | inl h ↦ (x, g, h)
    | inr h ↦ any-map-filter q f r xs (rw (g, h) at e)
  ]
]

pub is_opening :
    (m : EnvidoMove)
    → any (λ legal. envido_actions_equal legal m) (call_envido envido ∷ []) ≡ true
    → m ≡ call_envido envido
is_opening (call_envido envido) e = refl
is_opening (call_envido envido_envido) e = cc
is_opening (call_envido real_envido) e = cc
is_opening (call_envido falta_envido) e = cc
is_opening (respond_envido q) e = cc
is_opening (declare_envido q) e = cc

-- The moves against a pending call.
unfoldable pub Replies : List EnvidoCallLevel → EnvidoMove → Type 0
Replies calls m =
    ((level : EnvidoCallLevel) × (m ≡ call_envido level)
      × (highest_weight calls < call_weight level))
    ⊎ (m ≡ respond_envido true)
    ⊎ (m ≡ respond_envido false)

pub is_reply :
    (calls : List EnvidoCallLevel) (m : EnvidoMove)
    → any
        (λ legal. envido_actions_equal legal m)
        (respond_envido true ∷ respond_envido false ∷ escalations calls)
      ≡ true
    → Replies calls m
unfolding escalations Replies
is_reply calls (call_envido level) e =
    let (x, more, same) =
      any-map-filter (λ legal. envido_actions_equal legal (call_envido level)) call_envido
        (λ l. ltb (highest_weight calls) (call_weight l)) call_order e in
    let equal : call_weight x ≡ call_weight level =
      (==_iff (call_weight x) (call_weight level)).0 same in
    let higher = ltb→lt (highest_weight calls) (call_weight x) more in
    inl (level, refl, subst (λ n. highest_weight calls < n) equal higher)
is_reply calls (respond_envido true) e = inr (inl refl)
is_reply calls (respond_envido false) e = inr (inr refl)
is_reply calls (declare_envido q) e =
    let (x, more, same) =
      any-map-filter (λ legal. envido_actions_equal legal (declare_envido q)) call_envido
        (λ l. ltb (highest_weight calls) (call_weight l)) call_order e in
    cc

pub is_declaration :
    (said : List EnvidoDeclaration) (p : Player) (m : EnvidoMove)
    → any (λ legal. envido_actions_equal legal m) (declare_moves said p) ≡ true
    → (m ≡ declare_envido true)
      ⊎ (m ≡ declare_envido false) × (side_is_ahead (best_declaration none said) p ≡ false)
unfolding declare_moves
is_declaration said p (declare_envido true) e = inl refl
is_declaration said p (declare_envido false) e =
    elim (Bool-cases (side_is_ahead (best_declaration none said) p)) [
      | inl f ↦ cc (rw (declare_moves, f) at e)
      | inr f ↦ inr (refl, f)
    ]
is_declaration said p (call_envido l) e =
    elim (Bool-cases (side_is_ahead (best_declaration none said) p)) [
      | inl f ↦ cc (rw (declare_moves, f) at e)
      | inr f ↦ cc (rw (declare_moves, f) at e)
    ]
is_declaration said p (respond_envido q) e =
    elim (Bool-cases (side_is_ahead (best_declaration none said) p)) [
      | inl f ↦ cc (rw (declare_moves, f) at e)
      | inr f ↦ cc (rw (declare_moves, f) at e)
    ]

pub legal_parts :
    (s : MatchState) (a : EnvidoAction) (h : HandState) (p : Player)
    → s.hand ≡ some h
    → find_player s.players a.player_id ≡ some p
    → is_legal_envido s a ≡ true
    → (is_decided h.outcome ≡ false)
      × (any (λ legal. envido_actions_equal legal a.move) (envido_moves h.envido_state s h p)
          ≡ true)
unfolding is_legal_envido get_legal_envido_actions
legal_parts s a h p k g e = elim (Bool-cases (is_decided h.outcome)) [
  | inl o ↦ cc (rw (is_legal_envido, get_legal_envido_actions, k, o) at e)
  | inr o ↦ (o, rw (is_legal_envido, get_legal_envido_actions, k, o, g) at e)
]
