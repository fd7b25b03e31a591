-- ===== src/Platform/Limiter.antt =====
-- rate-limiter.ts: the limiter with one fixed window for every key. The clock of a call is an argument,
-- in whole milliseconds.
use convite.Prelude.{
  ℕ, ◌+◌, leb, ltb, Bool, true, false, String, List, [], ◌∷◌, Option, none, some, if◌then◌else◌,
  find, filter, length, same_id,
}

pub record RateLimiterOptions : Type 0 where
  pub limit : ℕ
  pub window_ms : ℕ
  pub max_tracked_keys : ℕ

-- A bucket with its key: an entry of the map, in the order of its insertion.
pub record Bucket : Type 0 where
  pub key : String
  pub count : ℕ
  pub window_start : ℕ

pub record Consumed : Type 0 where
  pub allowed : Bool
  pub buckets : List Bucket

unfoldable pub get_bucket : String → List Bucket → Option Bucket
get_bucket key buckets = find (λ bucket. same_id bucket.key key) buckets

-- `buckets.set(key, ...)`: in its place, or at the end.
unfoldable pub set_bucket : Bucket → List Bucket → List Bucket
set_bucket new [] = new ∷ []
set_bucket new (bucket ∷ buckets) =
    let rest = set_bucket new buckets in
    if same_id bucket.key new.key then new ∷ buckets else bucket ∷ rest

-- `now - bucket.windowStart < options.windowMs`
abbrev pub is_open : ℕ → ℕ → Bucket → Bool
is_open window_ms now bucket = ltb now (bucket.window_start + window_ms)

unfoldable pub sweep_expired : RateLimiterOptions → ℕ → List Bucket → List Bucket
sweep_expired options now buckets = filter (is_open options.window_ms now) buckets

-- A call that starts a window for its key.
unfoldable pub start_window : RateLimiterOptions → ℕ → String → List Bucket → Consumed
start_window options now key buckets = record {
  allowed = true;
  buckets =
      set_bucket (record { key = key; count = 1; window_start = now })
        (if leb options.max_tracked_keys (length buckets)
          then sweep_expired options now buckets
          else buckets);
}

-- A call in the window of its key.
unfoldable pub consume_open : RateLimiterOptions → Bucket → List Bucket → Consumed
consume_open options existing buckets =
    if leb options.limit existing.count
    then record { allowed = false; buckets = buckets }
    else record {
      allowed = true;
      buckets = set_bucket (record existing { count = existing.count + 1 }) buckets;
    }

unfoldable pub try_consume : RateLimiterOptions → ℕ → String → List Bucket → Consumed
try_consume options now key buckets = elim (get_bucket key buckets) [
  | none ↦ start_window options now key buckets
  | some existing ↦
      if is_open options.window_ms now existing
      then consume_open options existing buckets
      else start_window options now key buckets
]
