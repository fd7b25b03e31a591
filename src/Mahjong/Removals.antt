-- ===== src/Mahjong/Removals.antt =====
-- About getLegalActions of board.ts and applyAction of module.ts: what a removal takes.
use convite.Prelude.{
  ℕ, ◌⊎◌, ◌++◌, suc, ◌+◌, ◌<◌, ◌≤◌, ◌≡◌, sym, ◌∙◌, subst, inl, inr, ◌==◌, Bool, true, false, ◌&&◌,
  ◌||◌, Bool-cases, Option-cases, String, List, [], ◌∷◌, Option, some, any-append, get_elem?, arith,
  same_id, same_id_iff, length,
}
use convite.Mahjong.Layout.{Position}
use convite.Mahjong.Board.{
  MatchState, RemovePairAction, FreeTile, key_at, occupied_from, is_free, free_tiles, pairs_with,
  pairs_of, get_legal_actions,
}
use convite.Mahjong.Solitaire.{
  SolitaireMatchState, remove_pair, ok, cleared, outcome_of, is_offered, apply_removal, apply_open,
  apply_action,
}
use convite.Mahjong.Occupied.{has, All-has, Ascending, occupied_from-Ascending, at_occupied}
use convite.Mahjong.Offered.{offers, IsReady}
use convite.Mahjong.Filled.{clear_two}

either : (x y : Bool) → (x || y) ≡ true → (x ≡ true) ⊎ (y ≡ true)
either x y h = ground (arith, h)

module _ (layout : List Position) (tiles : List (Option String)) (occupied : List ℕ) where
  -- A position of the list that is ready under that key.
  pub record IsListed (r : List ℕ) (key : String) (i : ℕ) : Type 0 where
    pub listed : has i r ≡ true
    pub ready : IsReady layout tiles occupied key i

  later : (x : ℕ) (r : List ℕ) (key : String) (i : ℕ) → IsListed r key i → IsListed (x ∷ r) key i
  later x r key i v = record { listed = let h = v.listed in ground (arith, h); ready = v.ready }

  here :
      (x : ℕ) (r : List ℕ) (key : String)
      → is_free layout x occupied ≡ true
      → key_at (get_elem? tiles x) ≡ some key
      → IsListed (x ∷ r) key x
  here x r key e g = record { listed = ground arith; ready = record { free = e; keyed = g } }

  pairs_with-IsListed :
      (player_id : String) (first : FreeTile) (a b : ℕ) (r : List ℕ)
      → offers a b (pairs_with player_id first (free_tiles layout tiles occupied r)) ≡ true
      → (first.index ≡ a) × IsListed r first.key b
  unfolding free_tiles pairs_with
  pairs_with-IsListed player_id first a b [] h = cc
  pairs_with-IsListed player_id first a b (x ∷ r) h =
      elim (Bool-cases (is_free layout x occupied)) [
        | inr e ↦
            let (same, v) = pairs_with-IsListed player_id first a b r (rw e at h) in
            (same, later x r first.key b v)
        | inl e ↦ elim (Option-cases (key_at (get_elem? tiles x))) [
          | inl g ↦
              let (same, v) = pairs_with-IsListed player_id first a b r (rw (e, g) at h) in
              (same, later x r first.key b v)
          | inr (key, g) ↦ elim (Bool-cases (same_id first.key key)) [
            | inr k ↦
                let (same, v) = pairs_with-IsListed player_id first a b r (rw (e, g, k) at h) in
                (same, later x r first.key b v)
            | inl k ↦ elim (either ((first.index == a) && (x == b)) _ (rw (e, g, k) at h)) [
              | inr q ↦
                  let (same, v) = pairs_with-IsListed player_id first a b r q in
                  (same, later x r first.key b v)
              | inl q ↦
                  let at_a : first.index ≡ a = ground (arith, q) in
                  let at_b : x ≡ b = ground (arith, q) in
                  let g' =
                    subst (λ n. key_at (get_elem? tiles x) ≡ some n)
                      (sym ((same_id_iff first.key key).0 k)) g in
                  (at_a, subst (IsListed (x ∷ r) first.key) at_b (here x r first.key e g'))
            ]
          ]
        ]
      ]

  -- Two ready positions under one key, the lower one first.
  pub record IsPair (r : List ℕ) (a b : ℕ) : Type 0 where
    pub key : String
    pub lower : a < b
    pub first : IsListed r key a
    pub second : IsListed r key b

  later-IsPair : (x : ℕ) (r : List ℕ) (a b : ℕ) → IsPair r a b → IsPair (x ∷ r) a b
  later-IsPair x r a b v = record {
    key = v.key;
    lower = v.lower;
    first = later x r v.key a v.first;
    second = later x r v.key b v.second;
  }

  pub pairs_of-IsPair :
      (player_id : String) (a b : ℕ) (r : List ℕ)
      → Ascending r
      → offers a b (pairs_of player_id (free_tiles layout tiles occupied r)) ≡ true
      → IsPair r a b
  unfolding free_tiles pairs_of Ascending
  pairs_of-IsPair player_id a b [] up h = cc
  pairs_of-IsPair player_id a b (x ∷ r) up h = elim (Bool-cases (is_free layout x occupied)) [
    | inr e ↦ later-IsPair x r a b (pairs_of-IsPair player_id a b r up.1 (rw e at h))
    | inl e ↦ elim (Option-cases (key_at (get_elem? tiles x))) [
      | inl g ↦ later-IsPair x r a b (pairs_of-IsPair player_id a b r up.1 (rw (e, g) at h))
      | inr (key, g) ↦
          let first : FreeTile = record { index = x; key = key } in
          let rest = free_tiles layout tiles occupied r in
          let split =
            any-append (λ legal. (legal.a == a) && (legal.b == b)) (pairs_with player_id first rest)
              (pairs_of player_id rest) in
          let h' : offers a b (pairs_with player_id first rest ++ pairs_of player_id rest) ≡ true =
            rw (e, g) at h in
          elim (either (offers a b (pairs_with player_id first rest))
            (offers a b (pairs_of player_id rest)) (sym split ∙ h')) [
              | inr q ↦ later-IsPair x r a b (pairs_of-IsPair player_id a b r up.1 q)
              | inl q ↦
                  let (same, v) = pairs_with-IsListed player_id first a b r q in
                  let above = All-has (λ i. suc x ≤ i) r b up.0 v.listed in
                  record {
                    key = key;
                    lower = subst (λ n. n < b) same above;
                    first = subst (IsListed (x ∷ r) key) same (here x r key e g);
                    second = later x r key b v;
                  }
            ]
    ]
  ]

ok-injective : {s t : SolitaireMatchState} → ok s ≡ ok t → s ≡ t
ok-injective e = cc

offered-IsPair :
    (layout : List Position) (board : MatchState) (action : RemovePairAction)
    → is_offered layout board action ≡ true
    → (action.player_id ≡ board.player_id)
      × IsPair layout board.tiles
          (occupied_from 0 board.tiles)
          (occupied_from 0 board.tiles)
          action.a
          action.b
unfolding is_offered get_legal_actions
offered-IsPair layout board action h =
    elim (Bool-cases (same_id action.player_id board.player_id)) [
      | inr f ↦ cc (rw (is_offered, get_legal_actions, f) at h)
      | inl f ↦
          let occupied = occupied_from 0 board.tiles in
          (
            (same_id_iff action.player_id board.player_id).0 f,
            pairs_of-IsPair layout board.tiles occupied action.player_id action.a action.b occupied
                (occupied_from-Ascending 0 board.tiles)
                (rw (is_offered, get_legal_actions, f) at h),
          )
    ]

cleared-occupied :
    (layout : List Position) (board : MatchState) (action : RemovePairAction)
    → IsPair layout board.tiles
        (occupied_from 0 board.tiles)
        (occupied_from 0 board.tiles)
        action.a
        action.b
    → length (occupied_from 0 (cleared board action).tiles) + 2
      ≡ length (occupied_from 0 board.tiles)
unfolding cleared
cleared-occupied layout board action v =
    let (x, one) = at_occupied action.a board.tiles v.first.listed in
    let (y, two) = at_occupied action.b board.tiles v.second.listed in
    let low = v.lower in
    (clear_two action.a action.b x y board.tiles (λ e. absurd (omega (arith, e, low))) one two).1

-- A removal is accepted only on a dealt board of a match that is not abandoned, from its player, for two
-- positions, the lower one first, that have tiles, are free, and match by one key. It takes exactly the
-- tiles at these positions away, so that two tiles fewer are left.
pub apply_action-IsPair :
    (layout : List Position) (s t : SolitaireMatchState) (action : RemovePairAction)
    → apply_action layout s (remove_pair action) ≡ ok t
    → (board : MatchState) × (s.board ≡ some board)
      × (s.abandoned ≡ false)
      × (action.player_id ≡ board.player_id)
      × IsPair layout board.tiles
          (occupied_from 0 board.tiles)
          (occupied_from 0 board.tiles)
          action.a
          action.b
      × (t ≡ record s { board = some (cleared board action) })
      × (length (occupied_from 0 (cleared board action).tiles) + 2
          ≡ length (occupied_from 0 board.tiles))
unfolding apply_action outcome_of apply_open apply_removal
apply_action-IsPair layout s t action e = elim (Bool-cases s.abandoned) [
  | inl g ↦ cc (rw (apply_action, outcome_of, g) at e)
  | inr g ↦ elim (Option-cases (outcome_of layout s)) [
    | inr (winners, f) ↦ cc (rw (apply_action, f) at e)
    | inl f ↦
        let e' : apply_removal layout s action ≡ ok t = rw (apply_action, f) at e in
        elim (Option-cases s.board) [
          | inl k ↦ cc (rw (apply_removal, k) at e')
          | inr (board, k) ↦ elim (Bool-cases (is_offered layout board action)) [
            | inr q ↦ cc (rw (apply_removal, k, q) at e')
            | inl q ↦
                let (same, v) = offered-IsPair layout board action q in
                (
                  board,
                  k,
                  g,
                  same,
                  v,
                  sym (ok-injective (rw (apply_removal, k, q) at e')),
                  cleared-occupied layout board action v,
                )
          ]
        ]
  ]
]
