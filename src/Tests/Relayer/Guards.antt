-- ===== src/Tests/Relayer/Guards.antt =====
-- packages/relayer/src/auth.ts, validate.ts and routes at concrete inputs: one API key, a limit of
-- two calls a minute, and an unshield body of 512 bytes that pays a fee of 9.
use b402_solana.Common.{
  ◌≡◌, ◌≢◌, ◌↔◌, ◌++◌, refl, arith, true, [], ◌∷◌, length, ok, value, Bytes, AllBytes, take, drop,
  replicate, ltb, if◌then◌else◌, none, some, codes,
}
use Prim.Native.Nat.{min}
use b402_solana.Relayer.Auth.{
  ApiKeyEntry, AuthContext, AuthConfig, Headers, authenticate, extract_key, get_bucket,
}
use b402_solana.Relayer.Auth.RateLimit.{IsOver, accepted, accepted-window}
use b402_solana.Relayer.Auth.Keys.{Admits, authenticate_iff}
use b402_solana.Relayer.Validate.{extract_relayer_fee}
use b402_solana.Relayer.Validate.Fee.{extract_relayer_fee-value}

abbrev policy : ApiKeyEntry
policy = record { rate_limit_per_min = 2; token_allowlist = none }

abbrev ctx : AuthContext
ctx = record { key_id = codes "alice"; policy = policy }

abbrev auth : AuthConfig
auth = record { auth_enabled = true; api_keys = some ((codes "alice", policy) ∷ []) }

abbrev headers : Headers
headers = record { authorization = some (codes "Bearer alice"); x_api_key = none }

no_bucket : IsOver (get_bucket ctx.key_id []) 10
unfolding get_bucket
no_bucket = tt

accepted-window_example : accepted [] ctx (10 ∷ 20 ∷ 30 ∷ []) ≡ min 2 3
accepted-window_example = accepted-window [] ctx 10 (20 ∷ 30 ∷ []) no_bucket (omega arith)

bob : codes "bob" ≢ codes "alice"
bob e = cc

authenticate_iff_example :
    (authenticate (λ t. t) auth headers ≡ ok ctx)
    ↔ Admits (λ t. t) auth.api_keys (extract_key headers) ctx
authenticate_iff_example = authenticate_iff (λ t. t) auth headers ctx refl

abbrev paying : Bytes
paying = replicate 476 0 ++ (9 ∷ replicate 35 0)

paying-AllBytes : AllBytes paying
paying-AllBytes = omega arith

extract_relayer_fee-value_example :
    extract_relayer_fee paying
    ≡ (if ltb (length paying) 484 then none else some (value (take 8 (drop 476 paying))))
extract_relayer_fee-value_example = extract_relayer_fee-value paying paying-AllBytes
