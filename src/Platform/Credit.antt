-- ===== src/Platform/Credit.antt =====
-- About tryConsume of rate-limiter.ts: the calls that a bucket still lets pass.
use convite.Prelude.{
  ℕ, ◌+◌, ◌-◌, ◌≤◌, ◌<◌, ◌≡◌, refl, inl, inr, leb, Bool, true, false, ◌&&◌, Bool-cases,
  Option-cases, String, List, [], ◌∷◌, Option, none, some, if◌then◌else◌, filter, length, same_id,
  arith,
}
use convite.Platform.Limiter.{
  RateLimiterOptions, Bucket, get_bucket, is_open, sweep_expired, start_window, try_consume,
}
use convite.Platform.Buckets.{IsMap, get_bucket-set_same, get_bucket-set_other, get_bucket-filter}

-- A call of a key at a time.
pub record Call : Type 0 where
  pub key : String
  pub now : ℕ

abbrev pub passed : Bool → Bool → ℕ
passed same allowed = if same && allowed then 1 else 0

-- How many of the calls are of this key and are allowed.
unfoldable pub admitted : RateLimiterOptions → String → List Call → List Bucket → ℕ
admitted options key [] buckets = 0
admitted options key (call ∷ calls) buckets =
    passed (same_id call.key key) (try_consume options call.now call.key buckets).allowed
    + admitted options key calls (try_consume options call.now call.key buckets).buckets

-- The calls of a key that may still pass before the time `start + window`.
unfoldable pub credit : ℕ → ℕ → Option Bucket → ℕ
credit most start none = most
credit most start (some bucket) =
    if leb start bucket.window_start then most - bucket.count else most - bucket.count + most

-- A window that is not open any more began before the stretch.
closed_before :
    (window start now : ℕ) (bucket : Bucket)
    → now < start + window
    → is_open window now bucket ≡ false
    → leb start bucket.window_start ≡ false
closed_before window start now bucket h e = ground (arith, h, e)

pub credit-closed :
    (most window start now : ℕ) (bucket : Bucket)
    → now < start + window
    → is_open window now bucket ≡ false
    → most ≤ credit most start (some bucket)
unfolding credit
credit-closed most window start now bucket h e =
    let f = closed_before window start now bucket h e in rw f (omega arith)

pub credit-new :
    (most start now : ℕ) (key : String)
    → 1 ≤ most
    → start ≤ now
    → credit most start (some (record { key = key; count = 1; window_start = now })) + 1 ≡ most
unfolding credit
credit-new most start now key h g =
    let f : leb start now ≡ true = ground (arith, g) in rw f (omega (arith, h))

pub credit-more :
    (most start : ℕ) (e : Bucket)
    → e.count < most
    → credit most start (some (record e { count = e.count + 1 })) + 1 ≤ credit most start (some e)
unfolding credit
credit-more most start e h = elim (Bool-cases (leb start e.window_start)) [
  | inl f ↦ rw f (omega (arith, h))
  | inr f ↦ rw f (omega (arith, h))
]

pub get_bucket-start_window :
    (options : RateLimiterOptions) (now : ℕ) (key : String) (buckets : List Bucket)
    → get_bucket key (start_window options now key buckets).buckets
      ≡ some (record { key = key; count = 1; window_start = now })
unfolding start_window
get_bucket-start_window options now key buckets =
    get_bucket-set_same (record { key = key; count = 1; window_start = now }) _

-- What a window started for another key leaves of the credit.
pub credit-start_other :
    (options : RateLimiterOptions) (most start now : ℕ) (other key : String) (buckets : List Bucket)
    → IsMap buckets
    → now < start + options.window_ms
    → same_id other key ≡ false
    → credit most start (get_bucket key (start_window options now other buckets).buckets)
      ≤ credit most start (get_bucket key buckets)
unfolding start_window sweep_expired credit
credit-start_other options most start now other key buckets m h ne =
    let new : Bucket = record { key = other; count = 1; window_start = now } in
    let p = is_open options.window_ms now in
    elim (Bool-cases (leb options.max_tracked_keys (length buckets))) [
      | inr f ↦ rw (start_window, f, get_bucket-set_other new key buckets ne) (omega arith)
      | inl f ↦
          rw
            (
              start_window,
              f,
              get_bucket-set_other new key (filter p buckets) ne,
              get_bucket-filter p key buckets m,
            )
            (elim (Option-cases (get_bucket key buckets)) [
              | inl g ↦ rw g (omega arith)
              | inr (e, g) ↦ elim (Bool-cases (is_open options.window_ms now e)) [
                | inl k ↦ rw (g, k) (omega arith)
                | inr k ↦
                    let big = credit-closed most options.window_ms start now e h k in rw (g, k) big
              ]
            ])
    ]

pub start_window-allowed :
    (options : RateLimiterOptions) (now : ℕ) (key : String) (buckets : List Bucket)
    → (start_window options now key buckets).allowed ≡ true
unfolding start_window
start_window-allowed options now key buckets = refl

pub credit-none :
    (most start : ℕ) (key : String) (buckets : List Bucket)
    → get_bucket key buckets ≡ none
    → most ≤ credit most start (get_bucket key buckets)
unfolding credit
credit-none most start key buckets e = rw e (omega arith)
