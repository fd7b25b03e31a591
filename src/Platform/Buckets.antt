-- ===== src/Platform/Buckets.antt =====
-- About the map of buckets of rate-limiter.ts.
use convite.Prelude.{
  ℕ, ◌+◌, ◌≡◌, refl, sym, subst, inl, inr, leb, Bool, false, Bool-cases, Option-cases, String, List,
  [], ◌∷◌, none, some, if◌then◌else◌, filter, length, All, same_id, same_id_iff, same_id_refl,
  same_id_ne,
}
use convite.Platform.Limiter.{
  RateLimiterOptions, Bucket, get_bucket, set_bucket, is_open, sweep_expired, start_window,
  consume_open, try_consume,
}

-- No two buckets of one key.
unfoldable pub IsMap : List Bucket → Type 0
IsMap [] = Unit
IsMap (bucket ∷ buckets) =
    All (λ other. same_id other.key bucket.key ≡ false) buckets × IsMap buckets

pub get_bucket-set_same :
    (new : Bucket) (buckets : List Bucket) → get_bucket new.key (set_bucket new buckets) ≡ some new
unfolding get_bucket set_bucket
get_bucket-set_same new [] = rw (same_id_refl new.key) refl
get_bucket-set_same new (b ∷ buckets) = elim (Bool-cases (same_id b.key new.key)) [
  | inl f ↦ rw (f, same_id_refl new.key) refl
  | inr f ↦ rw (f, f) (get_bucket-set_same new buckets)
]

pub get_bucket-set_other :
    (new : Bucket) (key : String) (buckets : List Bucket)
    → same_id new.key key ≡ false
    → get_bucket key (set_bucket new buckets) ≡ get_bucket key buckets
unfolding get_bucket set_bucket
get_bucket-set_other new key [] h = rw h refl
get_bucket-set_other new key (b ∷ buckets) h = elim (Bool-cases (same_id b.key new.key)) [
  | inl f ↦
      let same = (same_id_iff b.key new.key).0 f in
      let h' : same_id b.key key ≡ false = subst (λ k. same_id k key ≡ false) (sym same) h in
      rw (f, h, h') refl
  | inr f ↦ elim (Bool-cases (same_id b.key key)) [
    | inl g ↦ rw (f, g) refl
    | inr g ↦ rw (f, g) (get_bucket-set_other new key buckets h)
  ]
]

get_bucket-none :
    (key : String) (buckets : List Bucket)
    → All (λ b. same_id b.key key ≡ false) buckets
    → get_bucket key buckets ≡ none
unfolding get_bucket
get_bucket-none key [] h = refl
get_bucket-none key (b ∷ buckets) h = let g = h.0 in rw g (get_bucket-none key buckets h.1)

All-filter :
    (P : Bucket → Type 0) (p : Bucket → Bool) (buckets : List Bucket)
    → All P buckets
    → All P (filter p buckets)
All-filter P p [] h = tt
All-filter P p (b ∷ buckets) h = elim (Bool-cases (p b)) [
  | inl f ↦ rw f (h.0, All-filter P p buckets h.1)
  | inr f ↦ rw f (All-filter P p buckets h.1)
]

All-set_bucket :
    (P : Bucket → Type 0) (new : Bucket) (buckets : List Bucket)
    → P new
    → All P buckets
    → All P (set_bucket new buckets)
unfolding set_bucket
All-set_bucket P new [] n h = (n, tt)
All-set_bucket P new (b ∷ buckets) n h = elim (Bool-cases (same_id b.key new.key)) [
  | inl f ↦ rw f (n, h.1)
  | inr f ↦ rw f (h.0, All-set_bucket P new buckets n h.1)
]

filter-IsMap :
    (p : Bucket → Bool) (buckets : List Bucket) → IsMap buckets → IsMap (filter p buckets)
unfolding IsMap
filter-IsMap p [] m = tt
filter-IsMap p (b ∷ buckets) m = elim (Bool-cases (p b)) [
  | inl f ↦ rw f (
    All-filter (λ other. same_id other.key b.key ≡ false) p buckets m.0,
    filter-IsMap p buckets m.1,
  )
  | inr f ↦ rw f (filter-IsMap p buckets m.1)
]

swap_ne : (x y : String) → same_id x y ≡ false → same_id y x ≡ false
swap_ne x y h = same_id_ne y x (λ e. cc (h, (same_id_iff x y).1 (sym e)))

set_bucket-IsMap :
    (new : Bucket) (buckets : List Bucket) → IsMap buckets → IsMap (set_bucket new buckets)
unfolding IsMap set_bucket
set_bucket-IsMap new [] m = (tt, tt)
set_bucket-IsMap new (b ∷ buckets) m = elim (Bool-cases (same_id b.key new.key)) [
  | inl f ↦
      let same = (same_id_iff b.key new.key).0 f in
      rw f (subst (λ k. All (λ other. same_id other.key k ≡ false) buckets) same m.0, m.1)
  | inr f ↦ rw f (
    All-set_bucket (λ other. same_id other.key b.key ≡ false) new buckets (swap_ne b.key new.key f)
        m.0,
    set_bucket-IsMap new buckets m.1,
  )
]

-- A sweep keeps a bucket whose window is open, and takes away one whose window is not.
pub get_bucket-filter :
    (p : Bucket → Bool) (key : String) (buckets : List Bucket)
    → IsMap buckets
    → get_bucket key (filter p buckets)
      ≡ (elim (get_bucket key buckets) [ none ↦ none | some b ↦ if p b then some b else none ])
unfolding get_bucket IsMap
get_bucket-filter p key [] m = refl
get_bucket-filter p key (b ∷ buckets) m = elim (Bool-cases (same_id b.key key)) [
  | inl f ↦ elim (Bool-cases (p b)) [
    | inl g ↦ rw (f, g, f) refl
    | inr g ↦
        let same = (same_id_iff b.key key).0 f in
        let gone = subst (λ k. All (λ other. same_id other.key k ≡ false) buckets) same m.0 in
        rw (f, g)
          (get_bucket-none key (filter p buckets)
            (All-filter (λ other. same_id other.key key ≡ false) p buckets gone))
  ]
  | inr f ↦ elim (Bool-cases (p b)) [
    | inl g ↦ rw (f, g, f) (get_bucket-filter p key buckets m.1)
    | inr g ↦ rw (f, g) (get_bucket-filter p key buckets m.1)
  ]
]

start_window-IsMap :
    (options : RateLimiterOptions) (now : ℕ) (key : String) (buckets : List Bucket)
    → IsMap buckets
    → IsMap (start_window options now key buckets).buckets
unfolding start_window sweep_expired
start_window-IsMap options now key buckets m =
    let new : Bucket = record { key = key; count = 1; window_start = now } in
    elim (Bool-cases (leb options.max_tracked_keys (length buckets))) [
      | inl f ↦
          rw (start_window, f)
            (set_bucket-IsMap new (filter (is_open options.window_ms now) buckets)
              (filter-IsMap (is_open options.window_ms now) buckets m))
      | inr f ↦ rw (start_window, f) (set_bucket-IsMap new buckets m)
    ]

pub try_consume-IsMap :
    (options : RateLimiterOptions) (now : ℕ) (key : String) (buckets : List Bucket)
    → IsMap buckets
    → IsMap (try_consume options now key buckets).buckets
unfolding try_consume start_window consume_open sweep_expired
try_consume-IsMap options now key buckets m =
    let started = start_window-IsMap options now key buckets m in
    elim (Option-cases (get_bucket key buckets)) [
      | inl f ↦ rw (try_consume, f) started
      | inr (e, f) ↦ elim (Bool-cases (is_open options.window_ms now e)) [
        | inr g ↦ rw (try_consume, f, g) started
        | inl g ↦ elim (Bool-cases (leb options.limit e.count)) [
          | inl h ↦ rw (try_consume, f, g, consume_open, h) m
          | inr h ↦
              rw (try_consume, f, g, consume_open, h)
                (set_bucket-IsMap (record e { count = e.count + 1 }) buckets m)
        ]
      ]
    ]
