-- ===== src/Mahjong/Offered.antt =====
-- About getLegalActions of board.ts: two free tiles of one key are offered.
use convite.Prelude.{
  ℕ, suc, ◌<◌, ◌≤◌, ◌≡◌, refl, sym, subst, inl, inr, ◌==◌, ==_iff, ==_refl, Bool, true, false, ◌&&◌,
  Bool-cases, Option-cases, String, List, [], ◌∷◌, Option, some, any, any-append, get_elem?, arith,
  same_id, same_id_refl,
}
use convite.Mahjong.Layout.{Position}
use convite.Mahjong.Board.{
  MatchState, RemovePairAction, key_at, occupied_from, is_free, free_tiles, pairs_with, pairs_of,
  get_legal_actions,
}
use convite.Mahjong.Occupied.{has, All-has, Ascending, occupied_from-Ascending}

abbrev pub offers : ℕ → ℕ → List RemovePairAction → Bool
offers a b actions = any (λ legal. (legal.a == a) && (legal.b == b)) actions

module _ (layout : List Position) (tiles : List (Option String)) (occupied : List ℕ)
    (key : String) where
  -- A free tile with that key.
  pub record IsReady (i : ℕ) : Type 0 where
    pub free : is_free layout i occupied ≡ true
    pub keyed : key_at (get_elem? tiles i) ≡ some key

  with_partner :
      (player_id : String) (a b : ℕ) (r : List ℕ)
      → has b r ≡ true
      → IsReady b
      → offers a b (
          pairs_with player_id
            (record { index = a; key = key })
            (free_tiles layout tiles occupied r))
        ≡ true
  unfolding free_tiles pairs_with
  with_partner player_id a b [] h v = cc
  with_partner player_id a b (x ∷ r) h v = elim (Bool-cases (x == b)) [
    | inl f ↦
        let same = (==_iff x b).0 f in
        let e = subst (λ y. is_free layout y occupied ≡ true) (sym same) v.free in
        let g = subst (λ y. key_at (get_elem? tiles y) ≡ some key) (sym same) v.keyed in
        rw (e, g, same_id_refl key) (rw (==_refl a, f) refl)
    | inr f ↦
        let rest = with_partner player_id a b r (rw f at h) v in
        elim (Bool-cases (is_free layout x occupied)) [
          | inr e ↦ rw e rest
          | inl e ↦ elim (Option-cases (key_at (get_elem? tiles x))) [
            | inl g ↦ rw (e, g) rest
            | inr (other, g) ↦ elim (Bool-cases (same_id key other)) [
              | inl k ↦ rw (e, g, k, rest) (ground arith)
              | inr k ↦ rw (e, g, k) rest
            ]
          ]
        ]
  ]

  pub offers-pairs_of :
      (player_id : String) (a b : ℕ) (r : List ℕ)
      → a < b
      → Ascending r
      → has a r ≡ true
      → has b r ≡ true
      → IsReady a
      → IsReady b
      → offers a b (pairs_of player_id (free_tiles layout tiles occupied r)) ≡ true
  unfolding free_tiles pairs_of Ascending
  offers-pairs_of player_id a b [] lt up h k v w = cc
  offers-pairs_of player_id a b (x ∷ r) lt up h k v w = elim (Bool-cases (x == a)) [
    | inl f ↦
        let same = (==_iff x a).0 f in
        let e = subst (λ y. is_free layout y occupied ≡ true) (sym same) v.free in
        let g = subst (λ y. key_at (get_elem? tiles y) ≡ some key) (sym same) v.keyed in
        let other : (x == b) ≡ false = ground (arith, lt, same) in
        let paired = with_partner player_id x b r (rw other at k) w in
        let both =
          subst
            (λ y.
              offers y b (
                pairs_with player_id (record { index = x; key = key })
                  (free_tiles layout tiles occupied r))
              ≡ true)
            same paired in
        rw
          (
            e,
            g,
            any-append (λ legal. (legal.a == a) && (legal.b == b))
                (pairs_with player_id (record { index = x; key = key })
                  (free_tiles layout tiles occupied r))
                (pairs_of player_id (free_tiles layout tiles occupied r)),
            both,
          )
          refl
    | inr f ↦ elim (Bool-cases (x == b)) [
      | inl g ↦
          let same = (==_iff x b).0 g in
          let above = All-has (λ i. suc x ≤ i) r a up.0 (rw f at h) in
          absurd (omega (arith, same, above, lt))
      | inr g ↦
          let rest = offers-pairs_of player_id a b r lt up.1 (rw f at h) (rw g at k) v w in
          elim (Bool-cases (is_free layout x occupied)) [
            | inr e ↦ rw e rest
            | inl e ↦ elim (Option-cases (key_at (get_elem? tiles x))) [
              | inl m ↦ rw (e, m) rest
              | inr (other, m) ↦
                  rw
                    (
                      e,
                      m,
                      any-append (λ legal. (legal.a == a) && (legal.b == b))
                          (pairs_with player_id (record { index = x; key = other })
                            (free_tiles layout tiles occupied r))
                          (pairs_of player_id (free_tiles layout tiles occupied r)),
                      rest,
                    )
                    (ground arith)
            ]
          ]
    ]
  ]

pub offers-get_legal_actions :
    (layout : List Position) (board : MatchState) (key : String) (a b : ℕ)
    → a < b
    → has a (occupied_from 0 board.tiles) ≡ true
    → has b (occupied_from 0 board.tiles) ≡ true
    → IsReady layout board.tiles (occupied_from 0 board.tiles) key a
    → IsReady layout board.tiles (occupied_from 0 board.tiles) key b
    → offers a b (get_legal_actions layout board board.player_id) ≡ true
unfolding get_legal_actions
offers-get_legal_actions layout board key a b lt h k v w =
    rw (get_legal_actions, same_id_refl board.player_id)
      (offers-pairs_of layout board.tiles (occupied_from 0 board.tiles) key board.player_id a b
        (occupied_from 0 board.tiles) lt (occupied_from-Ascending 0 board.tiles) h k v w)
