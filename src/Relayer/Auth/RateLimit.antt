-- ===== src/Relayer/Auth/RateLimit.antt =====
-- The quota of `enforceRateLimit`, whose window is a fixed one from the first request on.
use Prim.Native.Nat.{min}
use b402_solana.Common.{
  ℕ, suc, ◌+◌, ◌-◌, ◌≤◌, ◌<◌, ◌≡◌, ◌≢◌, refl, arith, List, [], ◌∷◌, length, Option, ◌⊎◌, none, some,
  All, Text, text_eq, text_eq_iff, text_eq_refl, Result, ok, err, if◌then◌else◌, inl, inr, le→leb,
  lt→leb,
}
use b402_solana.Relayer.Errors.{RelayerError, rate_limited}
use b402_solana.Relayer.Auth.{
  AuthContext, Bucket, get_bucket, set_bucket, current_bucket, enforce_rate_limit, window_ms,
}

get_bucket-set_bucket :
    (j k : Text) (b : Bucket) (m : List (Text × Bucket))
    → get_bucket j (set_bucket k b m) ≡ (if text_eq k j then some b else get_bucket j m)
unfolding get_bucket set_bucket
get_bucket-set_bucket j k b [] = refl
get_bucket-set_bucket j k b ((i, c) ∷ m) =
    ground (arith, text_eq_iff i k, text_eq_iff i j, text_eq_iff k j, get_bucket-set_bucket j k b m)

get_bucket-set_bucket_self :
    (k : Text) (b : Bucket) (m : List (Text × Bucket)) → get_bucket k (set_bucket k b m) ≡ some b
get_bucket-set_bucket_self k b m = rw (get_bucket-set_bucket, text_eq_refl k)

-- A call for one key leaves the buckets of all other keys as they are.
pub enforce_rate_limit-others :
    (buckets : List (Text × Bucket)) (ctx : AuthContext) (now : ℕ) (j : Text)
    → j ≢ ctx.key_id
    → get_bucket j (enforce_rate_limit buckets ctx now).0 ≡ get_bucket j buckets
unfolding enforce_rate_limit
enforce_rate_limit-others buckets ctx now j h =
    let b = current_bucket (get_bucket ctx.key_id buckets) ctx.policy.rate_limit_per_min now in
    ground (
      arith,
      text_eq_iff ctx.key_id j,
      get_bucket-set_bucket j ctx.key_id b buckets,
      get_bucket-set_bucket j ctx.key_id (record b { count = suc b.count }) buckets,
    )

tally : Result RelayerError (Unit {0}) → ℕ → ℕ
tally (ok done) n = suc n
tally (err e) n = n

-- The calls of a key at the given times, and how many of them are let through.
pub accepted : List (Text × Bucket) → AuthContext → List ℕ → ℕ
accepted buckets ctx [] = 0
accepted buckets ctx (now ∷ times) =
    let r = enforce_rate_limit buckets ctx now in tally r.1 (accepted r.0 ctx times)

enforce_rate_limit_full :
    (buckets : List (Text × Bucket)) (ctx : AuthContext) (now : ℕ) (b : Bucket)
    → current_bucket (get_bucket ctx.key_id buckets) ctx.policy.rate_limit_per_min now ≡ b
    → ctx.policy.rate_limit_per_min ≤ b.count
    → enforce_rate_limit buckets ctx now ≡ (set_bucket ctx.key_id b buckets, err rate_limited)
unfolding enforce_rate_limit
enforce_rate_limit_full buckets ctx now b e h = rw (e, le→leb _ _ h)

enforce_rate_limit_room :
    (buckets : List (Text × Bucket)) (ctx : AuthContext) (now : ℕ) (b : Bucket)
    → current_bucket (get_bucket ctx.key_id buckets) ctx.policy.rate_limit_per_min now ≡ b
    → b.count < ctx.policy.rate_limit_per_min
    → enforce_rate_limit buckets ctx now
      ≡ (set_bucket ctx.key_id (record b { count = suc b.count }) buckets, ok tt)
unfolding enforce_rate_limit
enforce_rate_limit_room buckets ctx now b e h = rw (e, lt→leb _ _ h)

-- Within its window a bucket lets through exactly what is left of the limit.
accepted-active :
    (times : List ℕ) (buckets : List (Text × Bucket)) (ctx : AuthContext) (b : Bucket)
    → get_bucket ctx.key_id buckets ≡ some b
    → All (λ t. t < b.window_start + window_ms) times
    → b.count ≤ ctx.policy.rate_limit_per_min
    → accepted buckets ctx times ≡ min (ctx.policy.rate_limit_per_min - b.count) (length times)
unfolding accepted tally
accepted-active [] buckets ctx b e within h = omega arith
accepted-active (now ∷ times) buckets ctx b e (inside, within) h = elim (le-cases limit b.count) [
  | inl full ↦
      rw (enforce_rate_limit_full buckets ctx now b same full, accepted)
        (omega (
          arith,
          accepted-active times (set_bucket ctx.key_id b buckets) ctx b
              (get_bucket-set_bucket_self ctx.key_id b buckets) within h,
        ))
  | inr room ↦
      rw (enforce_rate_limit_room buckets ctx now b same room, accepted)
        (omega (
          arith,
          accepted-active times (set_bucket ctx.key_id (record b { count = suc b.count }) buckets)
              ctx (record b { count = suc b.count })
              (get_bucket-set_bucket_self ctx.key_id (record b { count = suc b.count }) buckets)
              within room,
        ))
]
  where
    limit : ℕ
    limit = ctx.policy.rate_limit_per_min

    same : current_bucket (get_bucket ctx.key_id buckets) limit now ≡ b
    same = unfold current_bucket in rw e (ground arith)

    le-cases : (a b : ℕ) → (a ≤ b) ⊎ (b < a)
    le-cases a b = grind arith

-- A key has no bucket, or its window is over at `now`.
abbrev pub IsOver : Option Bucket → ℕ → Type 0
IsOver none now = Unit
IsOver (some b) now = b.window_start + window_ms ≤ now

current_bucket_fresh :
    (o : Option Bucket) (limit now : ℕ)
    → IsOver o now
    → current_bucket o limit now ≡ record { window_start = now; count = 0; limit = limit }
unfolding current_bucket
current_bucket_fresh none limit now h = refl
current_bucket_fresh (some b) limit now h = ground arith

-- A call of a key that has no bucket, or whose window is over, opens a window of 60 seconds; of it
-- and all further calls of the key in that window exactly the first `rate_limit_per_min` are let
-- through.
pub accepted-window :
    (buckets : List (Text × Bucket)) (ctx : AuthContext) (now : ℕ) (times : List ℕ)
    → IsOver (get_bucket ctx.key_id buckets) now
    → All (λ t. t < now + window_ms) times
    → accepted buckets ctx (now ∷ times) ≡ min ctx.policy.rate_limit_per_min (suc (length times))
unfolding accepted tally
accepted-window buckets ctx now times over within = elim (zero-cases limit) [
  | inl none_left ↦
      rw (enforce_rate_limit_full buckets ctx now fresh opened (omega arith), accepted)
        (omega (
          arith,
          accepted-active times (set_bucket ctx.key_id fresh buckets) ctx fresh
              (get_bucket-set_bucket_self ctx.key_id fresh buckets) within (omega arith),
        ))
  | inr some_left ↦
      let used = record fresh { count = 1 } in
      rw (enforce_rate_limit_room buckets ctx now fresh opened some_left, accepted)
        (omega (
          arith,
          accepted-active times (set_bucket ctx.key_id used buckets) ctx used
              (get_bucket-set_bucket_self ctx.key_id used buckets) within some_left,
        ))
]
  where
    limit : ℕ
    limit = ctx.policy.rate_limit_per_min

    fresh : Bucket
    fresh = record { window_start = now; count = 0; limit = limit }

    opened : current_bucket (get_bucket ctx.key_id buckets) limit now ≡ fresh
    opened = current_bucket_fresh (get_bucket ctx.key_id buckets) limit now over

    zero-cases : (a : ℕ) → (a ≡ 0) ⊎ (0 < a)
    zero-cases a = grind arith
