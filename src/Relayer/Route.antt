-- ===== src/Relayer/Route.antt =====
-- packages/relayer/src/routes: the handlers. Outside the code and so parameters: `utf8` and
-- `from_base64` of the platform, `public_key` (`new PublicKey`, `none` where it throws; a key is its
-- bytes) and `to_base58` of web3.js, and the submitter, which a handler is given as an interface. A
-- body is what zod has typed of it, `none` where it refuses the types. What throws no RelayerError
-- is answered as `internal`. The log lines are left out.
pub mod Keys
pub mod Sound
use b402_solana.Common.{
  ℕ, ◌+◌, ◌*◌, Bool, true, false, not, ◌&&◌, List, [], ◌∷◌, length, take, drop, any, Option, none,
  some, Text, codes, text_eq, Bytes, Result, ok, err, ◌>>=◌, ◌>>◌, throw_if, if◌then◌else◌, leb,
  ltb, ◌==◌,
}
use b402_solana.Relayer.Errors.{
  Reason, invalid_body, too_short, too_long, no_fee_field, bad_signature_length, RelayerError,
  bad_request, forbidden, fee_too_low, program_not_allowed, internal,
}
use b402_solana.Relayer.Auth.{
  AuthConfig, AuthContext, ApiKeyEntry, Headers, Bucket, authenticate, enforce_rate_limit,
}
use b402_solana.Relayer.Validate.{
  AccountMeta, AdditionalIx, RelayRequest, request_ok, extract_relayer_fee, is_allowed_program,
}

pub record Config : Type 0 where
  pub auth : AuthConfig
  pub pool_program_id : Bytes
  pub adapter_allowlist : List Bytes
  pub min_fee_lamports : ℕ
  pub compute_unit_limit : ℕ

pub record RelayRouteOptions : Type 0 where
  pub path : Text
  pub min_ix_data_len : ℕ
  pub max_ix_data_len : ℕ
  pub requires_adapter_allowlist : Bool

-- The options that routes/shield.ts registers.
abbrev pub shield_route : RelayRouteOptions
shield_route = record {
  path = codes "/relay/shield";
  min_ix_data_len = 480;
  max_ix_data_len = 1500;
  requires_adapter_allowlist = false;
}

-- Those of routes/unshield.ts, transact.ts and adapt.ts.
abbrev pub unshield_route : RelayRouteOptions
unshield_route = record {
  path = codes "/relay/unshield";
  min_ix_data_len = 480;
  max_ix_data_len = 1500;
  requires_adapter_allowlist = false;
}

abbrev pub transact_route : RelayRouteOptions
transact_route = record {
  path = codes "/relay/transact";
  min_ix_data_len = 480;
  max_ix_data_len = 1500;
  requires_adapter_allowlist = false;
}

abbrev pub adapt_route : RelayRouteOptions
adapt_route = record {
  path = codes "/relay/adapt";
  min_ix_data_len = 540;
  max_ix_data_len = 2000;
  requires_adapter_allowlist = true;
}

pub record AdditionalIxInput : Type 0 where
  pub program_id : Bytes
  pub ix_data : Bytes
  pub account_keys : List AccountMeta

pub record UserSignature : Type 0 where
  pub signature : Bytes
  pub pubkey : Bytes

pub record SubmitInput : Type 0 where
  pub program_id : Bytes
  pub ix_data : Bytes
  pub account_keys : List AccountMeta
  pub alt_addresses : List Bytes
  pub compute_unit_limit : ℕ
  pub user_signature : Option UserSignature
  pub additional_ixs : List AdditionalIxInput

abbrev pub public_token_mint_offset : ℕ
public_token_mint_offset = 8 + 4 + 256 + 5 * 32 + 16

abbrev pub or_empty {ℓ} : {A : Type ℓ} → Option (List A) → List A
or_empty none = []
or_empty (some l) = l

abbrev pub or_default {ℓ} : {A : Type ℓ} → Option A → A → A
or_default none a = a
or_default (some b) a = b

unfoldable pub parse_body : Option RelayRequest → Result RelayerError RelayRequest
parse_body none = err (bad_request invalid_body)
parse_body (some r) = if request_ok r then ok r else err (bad_request invalid_body)

unfoldable pub assert_len : ℕ → RelayRouteOptions → Result RelayerError (Unit {0})
assert_len len opts =
    if ltb len opts.min_ix_data_len
    then err (bad_request too_short)
    else if ltb opts.max_ix_data_len len
    then err (bad_request too_long)
    else ok tt

unfoldable pub check_fee : Config → Bytes → Result RelayerError (Unit {0})
check_fee cfg ix_data = elim (extract_relayer_fee ix_data) [
  | none ↦ err (bad_request no_fee_field)
  | some fee ↦ throw_if (ltb fee cfg.min_fee_lamports) (fee_too_low fee cfg.min_fee_lamports)
]

unfoldable pub pubkeys_of : List AccountMeta → List Text
pubkeys_of [] = []
pubkeys_of (k ∷ keys) = k.pubkey ∷ pubkeys_of keys

module _ (public_key : Text → Option Bytes) where
  unfoldable pub to_key : Text → Result RelayerError Bytes
  to_key s = elim (public_key s) [ none ↦ err internal | some key ↦ ok key ]

  unfoldable pub to_keys : List Text → Result RelayerError (List Bytes)
  unfolding to_key
  to_keys [] = ok []
  to_keys (s ∷ rest) = do key ← to_key s; keys ← to_keys rest; ok (key ∷ keys)

  unfoldable pub check_adapter :
      Config → RelayRouteOptions → List AccountMeta → Result RelayerError (Unit {0})
  unfolding pubkeys_of
  check_adapter cfg opts account_keys =
      if not opts.requires_adapter_allowlist
      then ok tt
      else if length cfg.adapter_allowlist == 0
      then err forbidden
      else do
        seen ← to_keys (pubkeys_of account_keys)
        throw_if (not (any (λ key. is_allowed_program key cfg.adapter_allowlist) seen))
            program_not_allowed

module _ (to_base58 : Bytes → Text) where
  unfoldable pub allow_mint : Bytes → List Text → Result RelayerError (Unit {0})
  allow_mint ix_data allowlist =
      if ltb (length ix_data) (public_token_mint_offset + 32)
      then ok tt
      else let mint = to_base58 (take 32 (drop public_token_mint_offset ix_data)) in
        throw_if (not (any (λ a. text_eq a mint) allowlist)) forbidden

  unfoldable pub enforce_token_allowlist :
      Bytes → Option (List Text) → Result RelayerError (Unit {0})
  unfolding allow_mint
  enforce_token_allowlist ix_data none = ok tt
  enforce_token_allowlist ix_data (some []) = ok tt
  enforce_token_allowlist ix_data (some (a ∷ allowlist)) = allow_mint ix_data (a ∷ allowlist)

module _ (from_base64 : Text → Bytes) (public_key : Text → Option Bytes) where
  -- Both strings are longer than nothing, by the schema, so each is truthy where it is given.
  unfoldable pub read_user_signature :
      Option Text → Option Text → Result RelayerError (Option UserSignature)
  unfolding to_key
  read_user_signature (some sig) (some pubkey) =
      if length (from_base64 sig) == 64
      then (do
        key ← to_key public_key pubkey
        ok (some (record { signature = from_base64 sig; pubkey = key })))
      else err (bad_request bad_signature_length)
  read_user_signature _ _ = ok none

  unfoldable pub read_additional_ixs :
      List AdditionalIx → Result RelayerError (List AdditionalIxInput)
  unfolding to_key
  read_additional_ixs [] = ok []
  read_additional_ixs (x ∷ rest) = do
    key ← to_key public_key x.program_id
    more ← read_additional_ixs rest
    ok (
        record { program_id = key; ix_data = from_base64 x.ix_data; account_keys = x.account_keys }
        ∷ more)

  -- What both handlers make of a body for the submitter.
  unfoldable pub to_submit_input : Config → RelayRequest → Result RelayerError SubmitInput
  to_submit_input cfg body = do
    alts ← to_keys public_key (or_empty body.alt_addresses)
    sig ← read_user_signature body.user_signature body.user_pubkey
    extras ← read_additional_ixs (or_empty body.additional_ixs)
    ok (record {
      program_id = cfg.pool_program_id;
      ix_data = from_base64 body.ix_data;
      account_keys = body.account_keys;
      alt_addresses = alts;
      compute_unit_limit = or_default body.compute_unit_limit cfg.compute_unit_limit;
      user_signature = sig;
      additional_ixs = extras;
    })

module _ (from_base64 : Text → Bytes) (public_key : Text → Option Bytes) (to_base58 : Bytes → Text)
    {R : Type 0} (submit : SubmitInput → Result RelayerError R) where
  -- The handler of `registerRelayRoute` behind authentication and rate limit.
  unfoldable pub relay_body :
      Config → RelayRouteOptions → ApiKeyEntry → Option RelayRequest → Result RelayerError R
  relay_body cfg opts policy shaped = do
    body ← parse_body shaped
    assert_len (length (from_base64 body.ix_data)) opts
    check_fee cfg (from_base64 body.ix_data)
    check_adapter public_key cfg opts body.account_keys
    enforce_token_allowlist to_base58 (from_base64 body.ix_data) policy.token_allowlist
    input ← to_submit_input from_base64 public_key cfg body
    submit input

  -- The handler of `registerPoolIx`, likewise.
  unfoldable pub pool_ix_body : Config → Option RelayRequest → Result RelayerError R
  pool_ix_body cfg shaped = do
    body ← parse_body shaped
    input ← to_submit_input from_base64 public_key cfg body
    submit input

  -- The buckets behind the call, and the answer.
  unfoldable pub guarded :
      (Text → Bytes)
      → Config
      → List (Text × Bucket)
      → Headers
      → ℕ
      → (AuthContext → Result RelayerError R)
      → List (Text × Bucket) × Result RelayerError R
  guarded utf8 cfg buckets headers now serve = elim (authenticate utf8 cfg.auth headers) [
    | err e ↦ (buckets, err e)
    | ok ctx ↦
        let limited = enforce_rate_limit buckets ctx now in (limited.0, limited.1 >> serve ctx)
  ]

  unfoldable pub relay :
      (Text → Bytes)
      → Config
      → RelayRouteOptions
      → List (Text × Bucket)
      → Headers
      → Option RelayRequest
      → ℕ
      → List (Text × Bucket) × Result RelayerError R
  unfolding guarded
  relay utf8 cfg opts buckets headers shaped now =
      guarded utf8 cfg buckets headers now (λ ctx. relay_body cfg opts ctx.policy shaped)

  unfoldable pub pool_ix :
      (Text → Bytes)
      → Config
      → List (Text × Bucket)
      → Headers
      → Option RelayRequest
      → ℕ
      → List (Text × Bucket) × Result RelayerError R
  unfolding guarded
  pool_ix utf8 cfg buckets headers shaped now =
      guarded utf8 cfg buckets headers now (λ ctx. pool_ix_body cfg shaped)
