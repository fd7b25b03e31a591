-- ===== src/Platform/Queues.antt =====
-- About the pool of presence.ts: the order of the queues and that nobody waits twice in one.
use convite.Prelude.{
  ℕ, zero, suc, ◌≡◌, refl, sym, ap, ◌∙◌, inl, inr, ◌==◌, leb, ◌&&◌, not, Bool-cases, String, List,
  [], ◌∷◌, ◌++◌, if◌then◌else◌, length, take, drop, same_id, same_id_iff,
}
use mathlib.Core.List.{append-nil, append_assoc}
use convite.Platform.Pool.{
  WaitingPlayer, MatchmakingPool, with_queue, is_waiting, join, PairResult, paired, too_few, thrown,
  try_pair_seats,
}

-- What the rooms ask of a pool.
pub data Request : Type 0 where
  joining : String → WaitingPlayer → Request
  pairing : String → ℕ → Request

abbrev pool_after : PairResult → MatchmakingPool → MatchmakingPool
pool_after (paired group next) pool = next
pool_after too_few pool = pool
pool_after thrown pool = pool

abbrev group_of : PairResult → List WaitingPlayer
group_of (paired group next) = group
group_of too_few = []
group_of thrown = []

abbrev answer : Request → MatchmakingPool → MatchmakingPool
answer (joining key player) pool = join key player pool
answer (pairing key seats) pool = pool_after (try_pair_seats key seats pool) pool

-- The players of a queue that got a table by a request, and those that it put into the queue.
abbrev seated_by : String → Request → MatchmakingPool → List WaitingPlayer
seated_by key (joining other player) pool = []
seated_by key (pairing other seats) pool =
    if same_id key other then group_of (try_pair_seats other seats pool) else []

abbrev queued_by : String → Request → MatchmakingPool → List WaitingPlayer
queued_by key (joining other player) pool =
    if same_id key other && not (is_waiting player.connection_id (pool other))
    then player ∷ []
    else []
queued_by key (pairing other seats) pool = []

unfoldable pub after_all : List Request → MatchmakingPool → MatchmakingPool
after_all [] pool = pool
after_all (request ∷ requests) pool = after_all requests (answer request pool)

unfoldable pub seated : String → List Request → MatchmakingPool → List WaitingPlayer
seated key [] pool = []
seated key (request ∷ requests) pool =
    seated_by key request pool ++ seated key requests (answer request pool)

unfoldable pub queued : String → List Request → MatchmakingPool → List WaitingPlayer
queued key [] pool = []
queued key (request ∷ requests) pool =
    queued_by key request pool ++ queued key requests (answer request pool)

take-drop : (n : ℕ) (xs : List WaitingPlayer) → take n xs ++ drop n xs ≡ xs
take-drop zero xs = refl
take-drop (suc n) [] = refl
take-drop (suc n) (x ∷ xs) = ap (λ ys. x ∷ ys) (take-drop n xs)

-- One request: who got a table and who waits now are who waited before and who came.
answer-order :
    (key : String) (request : Request) (pool : MatchmakingPool)
    → seated_by key request pool ++ answer request pool key ≡ pool key ++ queued_by key request pool
unfolding join with_queue try_pair_seats
answer-order key (joining other player) pool =
    elim (Bool-cases (is_waiting player.connection_id (pool other))) [
      | inl f ↦ elim (Bool-cases (same_id key other)) [
        | inl g ↦ rw (join, f, g) (sym (append-nil (pool key)))
        | inr g ↦ rw (join, f, g) (sym (append-nil (pool key)))
      ]
      | inr f ↦ elim (Bool-cases (same_id key other)) [
        | inl g ↦
            let same = (same_id_iff key other).0 g in
            rw (join, f, with_queue, g) (ap (λ k. pool k ++ player ∷ []) (sym same))
        | inr g ↦ rw (join, f, with_queue, g) (sym (append-nil (pool key)))
      ]
    ]
answer-order key (pairing other seats) pool = elim (Bool-cases (seats == 0)) [
  | inl f ↦ elim (Bool-cases (same_id key other)) [
    | inl g ↦ rw (try_pair_seats, f, g) (sym (append-nil (pool key)))
    | inr g ↦ rw (try_pair_seats, f, g) (sym (append-nil (pool key)))
  ]
  | inr f ↦ elim (Bool-cases (leb seats (length (pool other)))) [
    | inr h ↦ elim (Bool-cases (same_id key other)) [
      | inl g ↦ rw (try_pair_seats, f, h, g) (sym (append-nil (pool key)))
      | inr g ↦ rw (try_pair_seats, f, h, g) (sym (append-nil (pool key)))
    ]
    | inl h ↦ elim (Bool-cases (same_id key other)) [
      | inl g ↦
          let same = (same_id_iff key other).0 g in
          rw (try_pair_seats, f, h, with_queue, g)
            (take-drop seats (pool other) ∙ ap pool (sym same) ∙ sym (append-nil (pool key)))
      | inr g ↦ rw (try_pair_seats, f, h, with_queue, g) (sym (append-nil (pool key)))
    ]
  ]
]

-- Over any requests to join and to pair, on any queues, the players of a queue who got a table, in the
-- order in which they got it, and then those who still wait are the players who waited at the start and
-- then those who joined it, in that order: nobody is lost, doubled or overtaken.
pub seated-after_all :
    (key : String) (requests : List Request) (pool : MatchmakingPool)
    → seated key requests pool ++ after_all requests pool key ≡ pool key ++ queued key requests pool
unfolding seated after_all queued
seated-after_all key [] pool = sym (append-nil (pool key))
seated-after_all key (request ∷ requests) pool =
    let next = answer request pool in
    let one = answer-order key request pool in
    let rest = seated-after_all key requests next in
    append_assoc (seated_by key request pool) (seated key requests next)
      (after_all requests next key)
    ∙ ap (λ xs. seated_by key request pool ++ xs) rest
    ∙ sym (append_assoc (seated_by key request pool) (next key) (queued key requests next))
    ∙ ap (λ xs. xs ++ queued key requests next) one
    ∙ append_assoc (pool key) (queued_by key request pool) (queued key requests next)
