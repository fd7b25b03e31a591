-- ===== src/Platform/Windows.antt =====
-- About tryConsume of rate-limiter.ts: how many calls of a key pass.
use convite.Prelude.{
  ℕ, ◌+◌, ◌*◌, max, ◌≤◌, ◌<◌, ◌≡◌, sym, subst, inl, inr, leb, true, Bool-cases, Option-cases,
  String, List, [], ◌∷◌, Option, none, some, All, same_id, same_id_iff, arith,
}
use mathlib.Core.Option.{some-injective}
use convite.Platform.Limiter.{
  RateLimiterOptions, Bucket, Consumed, get_bucket, set_bucket, is_open, start_window, consume_open,
  try_consume,
}
use convite.Platform.Buckets.{IsMap, get_bucket-set_same, get_bucket-set_other, try_consume-IsMap}
use convite.Platform.Credit.{
  Call, passed, admitted, credit, credit-closed, credit-new, credit-more, get_bucket-start_window,
  credit-start_other, start_window-allowed, credit-none,
}

Step : RateLimiterOptions → ℕ → String → ℕ → String → List Bucket → Consumed → Type 0
Step options start key now other buckets r =
    credit (max 1 options.limit) start (get_bucket key r.buckets)
      + passed (same_id other key) r.allowed
    ≤ credit (max 1 options.limit) start (get_bucket key buckets)

-- The key itself starts a window: what it had before was worth a whole one.
start_window-Step :
    (options : RateLimiterOptions) (start : ℕ) (key : String) (now : ℕ) (other : String)
    (buckets : List Bucket)
    → IsMap buckets
    → start ≤ now
    → now < start + options.window_ms
    → max 1 options.limit ≤ credit (max 1 options.limit) start (get_bucket other buckets)
    → Step options start key now other buckets (start_window options now other buckets)
unfolding Step
start_window-Step options start key now other buckets m low high worth =
    let most = max 1 options.limit in
    let r = start_window options now other buckets in
    elim (Bool-cases (same_id other key)) [
      | inr f ↦
          let h = credit-start_other options most start now other key buckets m high f in
          rw f (omega (arith, h))
      | inl f ↦
          let same = (same_id_iff other key).0 f in
          let g = get_bucket-start_window options now other buckets in
          let exact = credit-new most start now other (omega arith) low in
          let allowed : r.allowed ≡ true = start_window-allowed options now other buckets in
          let h : credit most start (get_bucket other r.buckets) + 1
              ≤ credit most start (get_bucket other buckets) =
            rw (g, exact) worth in
          rw (f, allowed)
            (subst
              (λ k.
                credit most start (get_bucket k r.buckets) + 1
                ≤ credit most start (get_bucket k buckets))
              same h)
    ]

consume_open-Step :
    (options : RateLimiterOptions) (start : ℕ) (key : String) (now : ℕ) (e : Bucket)
    (buckets : List Bucket)
    → get_bucket e.key buckets ≡ some e
    → Step options start key now e.key buckets (consume_open options e buckets)
unfolding Step consume_open
consume_open-Step options start key now e buckets found =
    let most = max 1 options.limit in
    let new : Bucket = record e { count = e.count + 1 } in
    elim (Bool-cases (leb options.limit e.count)) [
      | inl f ↦ elim (Bool-cases (same_id e.key key)) [
        | inl g ↦ rw (consume_open, f, g) (omega arith)
        | inr g ↦ rw (consume_open, f, g) (omega arith)
      ]
      | inr f ↦ elim (Bool-cases (same_id e.key key)) [
        | inr g ↦ rw (consume_open, f, g, get_bucket-set_other new key buckets g) (omega arith)
        | inl g ↦
            let same = (same_id_iff e.key key).0 g in
            let few : e.count < most = ground (arith, f) in
            let less = credit-more most start e few in
            let h : credit most start (get_bucket e.key (set_bucket new buckets)) + 1
                ≤ credit most start (get_bucket e.key buckets) =
              rw (get_bucket-set_same new buckets, found) less in
            rw (consume_open, f, g)
              (subst
                (λ k.
                  credit most start (get_bucket k (set_bucket new buckets)) + 1
                  ≤ credit most start (get_bucket k buckets))
                same h)
      ]
    ]

get_bucket-key :
    (key : String) (buckets : List Bucket) (e : Bucket)
    → get_bucket key buckets ≡ some e
    → e.key ≡ key
unfolding get_bucket
get_bucket-key key [] e h = cc
get_bucket-key key (b ∷ buckets) e h = elim (Bool-cases (same_id b.key key)) [
  | inl f ↦ subst (λ x. x.key ≡ key) (some-injective b e (rw f at h)) ((same_id_iff b.key key).0 f)
  | inr f ↦ get_bucket-key key buckets e (rw f at h)
]

try_consume-Step :
    (options : RateLimiterOptions) (start : ℕ) (key : String) (now : ℕ) (other : String)
    (buckets : List Bucket)
    → IsMap buckets
    → start ≤ now
    → now < start + options.window_ms
    → Step options start key now other buckets (try_consume options now other buckets)
unfolding try_consume
try_consume-Step options start key now other buckets m low high =
    let most = max 1 options.limit in
    elim (Option-cases (get_bucket other buckets)) [
      | inl f ↦
          rw (try_consume, f)
            (start_window-Step options start key now other buckets m low high
              (credit-none most start other buckets f))
      | inr (e, f) ↦ elim (Bool-cases (is_open options.window_ms now e)) [
        | inr g ↦
            rw (try_consume, f, g)
              (start_window-Step options start key now other buckets m low high
                (rw f (credit-closed most options.window_ms start now e high g)))
        | inl g ↦
            let same = get_bucket-key other buckets e f in
            let found = subst (λ k. get_bucket k buckets ≡ some e) (sym same) f in
            rw (try_consume, f, g)
              (subst (λ k. Step options start key now k buckets (consume_open options e buckets))
                same (consume_open-Step options start key now e buckets found))
      ]
    ]

admitted-credit :
    (options : RateLimiterOptions) (start : ℕ) (key : String) (calls : List Call)
    (buckets : List Bucket)
    → IsMap buckets
    → All (λ call. (start ≤ call.now) × (call.now < start + options.window_ms)) calls
    → admitted options key calls buckets
      ≤ credit (max 1 options.limit) start (get_bucket key buckets)
unfolding admitted Step
admitted-credit options start key [] buckets m h = omega arith
admitted-credit options start key (call ∷ calls) buckets m h =
    let r = try_consume options call.now call.key buckets in
    let (low, high) = h.0 in
    let one = try_consume-Step options start key call.now call.key buckets m low high in
    let rest =
      admitted-credit options start key calls r.buckets
        (try_consume-IsMap options call.now call.key buckets m) h.1 in
    omega (arith, one, rest)

credit-le : (most start : ℕ) (o : Option Bucket) → credit most start o ≤ 2 * most
unfolding credit
credit-le most start none = omega arith
credit-le most start (some bucket) = elim (Bool-cases (leb start bucket.window_start)) [
  | inl f ↦ rw f (omega arith)
  | inr f ↦ rw f (omega arith)
]

-- From any buckets of which no two are of one key, and for calls of any keys at times that all lie in one
-- stretch as long as a window, at most twice the limit of the calls of a key are allowed, or two where the
-- limit is zero.
pub admitted-le :
    (options : RateLimiterOptions) (start : ℕ) (key : String) (calls : List Call)
    (buckets : List Bucket)
    → IsMap buckets
    → All (λ call. (start ≤ call.now) × (call.now < start + options.window_ms)) calls
    → admitted options key calls buckets ≤ 2 * max 1 options.limit
admitted-le options start key calls buckets m h =
    let one = admitted-credit options start key calls buckets m h in
    let two = credit-le (max 1 options.limit) start (get_bucket key buckets) in
    omega (arith, one, two)

-- From no buckets, as the limiter starts, at most the limit of those calls are allowed, or one where the
-- limit is zero.
admitted-le_limit :
    (options : RateLimiterOptions) (start : ℕ) (key : String) (calls : List Call)
    → All (λ call. (start ≤ call.now) × (call.now < start + options.window_ms)) calls
    → admitted options key calls [] ≤ max 1 options.limit
unfolding IsMap credit get_bucket
admitted-le_limit options start key calls h = admitted-credit options start key calls [] tt h
