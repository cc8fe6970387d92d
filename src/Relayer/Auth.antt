-- ===== src/Relayer/Auth.antt =====
-- packages/relayer/src/auth.ts. `utf8` is the encoder of the platform; a header that is no string is
-- `none`; `keys` lists the entries of the key file in the order in which they are enumerated.
pub mod RateLimit
pub mod Keys
use b402_solana.Common.{
  ℕ, suc, ◌+◌, ◌-◌, Bool, true, false, not, ◌&&◌, ◌||◌, List, [], ◌∷◌, length, drop, Option, none,
  some, Text, codes, starts_with, trim, text_eq, Bytes, Result, ok, err, if◌then◌else◌, leb, ltb,
  ◌==◌,
}
use b402_solana.Relayer.Errors.{RelayerError, unauthorized, rate_limited, internal}

pub record ApiKeyEntry : Type 0 where
  pub rate_limit_per_min : ℕ
  pub token_allowlist : Option (List Text)

pub record AuthContext : Type 0 where
  pub key_id : Text
  pub policy : ApiKeyEntry

pub record Bucket : Type 0 where
  pub window_start : ℕ
  pub count : ℕ
  pub limit : ℕ

pub record AuthConfig : Type 0 where
  pub auth_enabled : Bool
  pub api_keys : Option (List (Text × ApiKeyEntry))

pub record Headers : Type 0 where
  pub authorization : Option Text
  pub x_api_key : Option Text

abbrev pub window_ms : ℕ
window_ms = 60_000

abbrev pub anon_policy : ApiKeyEntry
anon_policy = record { rate_limit_per_min = 30; token_allowlist = none }

api_key_header : Option Text → Option Text
unfolding trim
api_key_header none = none
api_key_header (some x) = if ltb 0 (length x) then some (trim x) else none

unfoldable pub extract_key : Headers → Option Text
unfolding api_key_header starts_with trim
extract_key h = elim h.authorization [
  | none ↦ api_key_header h.x_api_key
  | some a ↦
      if starts_with (codes "Bearer ") a then some (trim (drop 7 a)) else api_key_header h.x_api_key
]

module _ (utf8 : Text → Bytes) where
  pub match_key : Text → List (Text × ApiKeyEntry) → Option AuthContext
  match_key presented [] = none
  match_key presented ((key_id, policy) ∷ keys) =
      if length (utf8 key_id) == length (utf8 presented) && text_eq (utf8 key_id) (utf8 presented)
      then some (record { key_id = key_id; policy = policy })
      else match_key presented keys

  -- An empty string is falsy.
  check_key : Option (List (Text × ApiKeyEntry)) → Option Text → Result RelayerError AuthContext
  unfolding match_key
  check_key keys none = err unauthorized
  check_key keys (some []) = err unauthorized
  check_key none (some (c ∷ s)) = err internal
  check_key (some keys) (some (c ∷ s)) = elim (match_key (c ∷ s) keys) [
    | none ↦ err unauthorized
    | some ctx ↦ ok ctx
  ]

  unfoldable pub authenticate : AuthConfig → Headers → Result RelayerError AuthContext
  unfolding check_key
  authenticate cfg h =
      if not cfg.auth_enabled
      then ok (record { key_id = codes "anon"; policy = anon_policy })
      else check_key cfg.api_keys (extract_key h)

-- The map from key ids to buckets.
unfoldable pub get_bucket : Text → List (Text × Bucket) → Option Bucket
get_bucket k [] = none
get_bucket k ((j, b) ∷ m) = if text_eq j k then some b else get_bucket k m

unfoldable pub set_bucket : Text → Bucket → List (Text × Bucket) → List (Text × Bucket)
set_bucket k b [] = (k, b) ∷ []
set_bucket k b ((j, c) ∷ m) = if text_eq j k then (j, b) ∷ m else (j, c) ∷ set_bucket k b m

-- The bucket that a call at `now` counts in: the stored one, or a fresh one.
unfoldable pub current_bucket : Option Bucket → ℕ → ℕ → Bucket
current_bucket none limit now = record { window_start = now; count = 0; limit = limit }
current_bucket (some b) limit now =
    if leb window_ms (now - b.window_start)
    then record { window_start = now; count = 0; limit = limit }
    else b

-- The buckets after the call, and whether it threw.
unfoldable pub enforce_rate_limit :
    List (Text × Bucket) → AuthContext → ℕ → List (Text × Bucket) × Result RelayerError (Unit {0})
unfolding current_bucket get_bucket set_bucket
enforce_rate_limit buckets ctx now =
    let limit = ctx.policy.rate_limit_per_min in
    let b = current_bucket (get_bucket ctx.key_id buckets) limit now in
    if leb limit b.count
    then (set_bucket ctx.key_id b buckets, err rate_limited)
    else (set_bucket ctx.key_id (record b { count = suc b.count }) buckets, ok tt)
