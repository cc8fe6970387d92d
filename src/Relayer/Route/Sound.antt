-- ===== src/Relayer/Route/Sound.antt =====
-- What a handler has checked when it answers with a result, and what it has handed over.
use b402_solana.Common.{
  ℕ, ◌≤◌, ◌+◌, ◌≡◌, ◌⊎◌, inl, inr, refl, ap, sym, arith, Bool, true, false, not, List, [], ◌∷◌,
  length, take, drop, any, Option, none, some, Text, text_eq, Bytes, Result, ok, >>=-eq-ok,
  >>-eq-ok, Bool-cases, Option-cases, ltb, ◌==◌, throw_if, Result-cases,
}
use mathlib.Core.List.{Memᴰ}
use b402_solana.Relayer.Errors.{RelayerError}
use b402_solana.Relayer.Auth.{
  AuthContext, ApiKeyEntry, Headers, Bucket, authenticate, enforce_rate_limit,
}
use b402_solana.Relayer.Validate.{
  AccountMeta, RelayRequest, request_ok, extract_relayer_fee, is_allowed_program,
}
use b402_solana.Relayer.Route.Keys.{to_key_inv}
use b402_solana.Relayer.Route.{
  Config, RelayRouteOptions, SubmitInput, public_token_mint_offset, parse_body, assert_len,
  check_fee, to_key, to_keys, pubkeys_of, check_adapter, enforce_token_allowlist, to_submit_input,
  relay_body, pool_ix_body, or_empty, read_user_signature, read_additional_ixs, allow_mint, guarded,
  relay, pool_ix,
}

ok_eq : {E A : Type 0} {a b : A} → ◌≡◌ {A = Result E A} (ok a) (ok b) → a ≡ b
ok_eq e = cc

throw_if-passes : {E : Type 0} (b : Bool) (x : E) → throw_if (not b) x ≡ ok tt → b ≡ true
throw_if-passes true x e = refl
throw_if-passes false x e = cc

parse_body_inv :
    (shaped : Option RelayRequest) (body : RelayRequest)
    → parse_body shaped ≡ ok body
    → (shaped ≡ some body) × (request_ok body ≡ true)
unfolding parse_body
parse_body_inv none body e = cc
parse_body_inv (some r) body e = elim (Bool-cases (request_ok r)) [
  | inl fine ↦ ground arith
  | inr bad ↦ ground arith
]

assert_len_inv :
    (len : ℕ) (opts : RelayRouteOptions)
    → assert_len len opts ≡ ok tt
    → (opts.min_ix_data_len ≤ len) × (len ≤ opts.max_ix_data_len)
unfolding assert_len
assert_len_inv len opts e = ground arith

check_fee_inv :
    (cfg : Config) (ix_data : Bytes)
    → check_fee cfg ix_data ≡ ok tt
    → (fee : ℕ) × (extract_relayer_fee ix_data ≡ some fee) × (cfg.min_fee_lamports ≤ fee)
unfolding check_fee
check_fee_inv cfg ix_data e = elim (Option-cases (extract_relayer_fee ix_data)) [
  | inl missing ↦ cc (rw (missing, check_fee) at e)
  | inr (fee, at) ↦ (fee, at, ground arith)
]

to_keys_cons :
    (public_key : Text → Option Bytes) (name : Text) (names : List Text) (keys : List Bytes)
    → to_keys public_key (name ∷ names) ≡ ok keys
    → (key : Bytes) × (more : List Bytes) × (public_key name ≡ some key)
      × (to_keys public_key names ≡ ok more)
      × (keys ≡ key ∷ more)
unfolding to_keys
to_keys_cons public_key name names keys e =
    let (key, at, e') = >>=-eq-ok (to_key public_key name) _ e in
    let (more, others, e'') = >>=-eq-ok (to_keys public_key names) _ e' in
    (key, more, to_key_inv public_key name key at, others, cc)

-- Some account of the request is an allowlisted program.
abbrev pub NamesAdapter : (Text → Option Bytes) → Config → List AccountMeta → Type 0
NamesAdapter public_key cfg account_keys =
    (k : AccountMeta) × (key : Bytes) × Memᴰ k account_keys
    × (public_key k.pubkey ≡ some key)
    × (is_allowed_program key cfg.adapter_allowlist ≡ true)

module _ (public_key : Text → Option Bytes) where
  rest_of_any :
      (allowed : List Bytes) {key : Bytes} {seen : List Bytes} (more : List Bytes)
      → seen ≡ key ∷ more
      → any (λ k. is_allowed_program k allowed) seen ≡ true
      → is_allowed_program key allowed ≡ false
      → any (λ k. is_allowed_program k allowed) more ≡ true
  rest_of_any allowed {key = key} more same h other =
      let h' : any (λ k. is_allowed_program k allowed) (key ∷ more) ≡ true = rw same at h in
      ground arith

  names_of_any :
      (cfg : Config) (account_keys : List AccountMeta) (seen : List Bytes)
      → to_keys public_key (pubkeys_of account_keys) ≡ ok seen
      → any (λ key. is_allowed_program key cfg.adapter_allowlist) seen ≡ true
      → NamesAdapter public_key cfg account_keys
  unfolding pubkeys_of
  names_of_any cfg [] seen e h = unfold to_keys in ground arith
  names_of_any cfg (k ∷ rest) seen e h =
      let (key, more, at, others, same) =
        to_keys_cons public_key k.pubkey (pubkeys_of rest) seen e in
      elim (Bool-cases (is_allowed_program key cfg.adapter_allowlist)) [
        | inl allowed ↦ (k, key, Memᴰ.head refl, at, allowed)
        | inr other ↦
            let (k', key', m, at', allowed) =
              names_of_any cfg rest more others
                (rest_of_any cfg.adapter_allowlist more same h other) in
            (k', key', Memᴰ.tail m, at', allowed)
      ]

  check_adapter_inv :
      (cfg : Config) (opts : RelayRouteOptions) (account_keys : List AccountMeta)
      → check_adapter public_key cfg opts account_keys ≡ ok tt
      → (opts.requires_adapter_allowlist ≡ false) ⊎ NamesAdapter public_key cfg account_keys
  unfolding check_adapter
  check_adapter_inv cfg opts account_keys e = elim (Bool-cases opts.requires_adapter_allowlist) [
    | inl needed ↦ elim (Bool-cases (length cfg.adapter_allowlist == 0)) [
      | inl empty ↦ ground arith
      | inr full ↦
          let (seen, all, e') =
            >>=-eq-ok (to_keys public_key (pubkeys_of account_keys)) _ (rw (needed, full) at e) in
          inr (names_of_any cfg account_keys seen all (throw_if-passes _ _ e'))
    ]
    | inr free ↦ inl free
  ]

-- The mint that the instruction data carries, where it is long enough to, is in the key's list.
abbrev pub MintAllowed : (Bytes → Text) → Bytes → Option (List Text) → Type 0
MintAllowed to_base58 ix_data none = Unit
MintAllowed to_base58 ix_data (some []) = Unit
MintAllowed to_base58 ix_data (some (a ∷ allowlist)) =
    (length ix_data ≤ public_token_mint_offset + 31)
    ⊎ (any (λ m. text_eq m (to_base58 (take 32 (drop public_token_mint_offset ix_data))))
          (a ∷ allowlist)
        ≡ true)

too_short_for_mint :
    (n : ℕ) → ltb n (public_token_mint_offset + 32) ≡ true → n ≤ public_token_mint_offset + 31
too_short_for_mint n e = ground arith

enforce_token_allowlist_inv :
    (to_base58 : Bytes → Text) (ix_data : Bytes) (allowlist : Option (List Text))
    → enforce_token_allowlist to_base58 ix_data allowlist ≡ ok tt
    → MintAllowed to_base58 ix_data allowlist
unfolding enforce_token_allowlist allow_mint
enforce_token_allowlist_inv to_base58 ix_data none e = tt
enforce_token_allowlist_inv to_base58 ix_data (some []) e = tt
enforce_token_allowlist_inv to_base58 ix_data (some (a ∷ l)) e =
    elim (Bool-cases (ltb (length ix_data) (public_token_mint_offset + 32))) [
      | inl short ↦ inl (too_short_for_mint (length ix_data) short)
      | inr long ↦ inr (throw_if-passes _ _ (rw long at e))
    ]

-- What the handler has made sure of before it hands `input` to the submitter.
pub record Forwarded (from_base64 : Text → Bytes) (public_key : Text → Option Bytes)
    (to_base58 : Bytes → Text) (cfg : Config) (opts : RelayRouteOptions) (policy : ApiKeyEntry)
    (body : RelayRequest) (input : SubmitInput) : Type 0 where
  pub schema : request_ok body ≡ true
  pub long_enough : opts.min_ix_data_len ≤ length (from_base64 body.ix_data)
  pub short_enough : length (from_base64 body.ix_data) ≤ opts.max_ix_data_len
  pub pays :
      (fee : ℕ) × (extract_relayer_fee (from_base64 body.ix_data) ≡ some fee)
      × (cfg.min_fee_lamports ≤ fee)
  pub adapter :
      (opts.requires_adapter_allowlist ≡ false) ⊎ NamesAdapter public_key cfg body.account_keys
  pub mint : MintAllowed to_base58 (from_base64 body.ix_data) policy.token_allowlist
  pub to_the_pool : input.program_id ≡ cfg.pool_program_id
  pub same_data : input.ix_data ≡ from_base64 body.ix_data
  pub same_accounts : input.account_keys ≡ body.account_keys

to_submit_input_inv :
    (from_base64 : Text → Bytes) (public_key : Text → Option Bytes) (cfg : Config)
    (body : RelayRequest) (input : SubmitInput)
    → to_submit_input from_base64 public_key cfg body ≡ ok input
    → (input.program_id ≡ cfg.pool_program_id)
      × (input.ix_data ≡ from_base64 body.ix_data)
      × (input.account_keys ≡ body.account_keys)
unfolding to_submit_input
to_submit_input_inv from_base64 public_key cfg body input e =
    let (alts, _, e1) = >>=-eq-ok (to_keys public_key (or_empty body.alt_addresses)) _ e in
    let (sig, _, e2) =
      >>=-eq-ok (read_user_signature from_base64 public_key body.user_signature body.user_pubkey) _
        e1 in
    let (extras, _, e3) =
      >>=-eq-ok (read_additional_ixs from_base64 public_key (or_empty body.additional_ixs)) _ e2 in
    let same = ok_eq e3 in
    (
      ap (λ i. i.program_id) (sym same),
      ap (λ i. i.ix_data) (sym same),
      ap (λ i. i.account_keys) (sym same),
    )

module _ (from_base64 : Text → Bytes) (public_key : Text → Option Bytes) (to_base58 : Bytes → Text)
    {R : Type 0} (submit : SubmitInput → Result RelayerError R) (cfg : Config) where
  -- The relay handler answers with a result only where the submitter did, on an input for the pool
  -- with the client's own data and accounts, all checks passed.
  pub relay_body-Forwarded :
      (opts : RelayRouteOptions) (policy : ApiKeyEntry) (shaped : Option RelayRequest) (r : R)
      → relay_body from_base64 public_key to_base58 submit cfg opts policy shaped ≡ ok r
      → (body : RelayRequest) × (input : SubmitInput) × (shaped ≡ some body)
        × Forwarded from_base64 public_key to_base58 cfg opts policy body input
        × (submit input ≡ ok r)
  unfolding relay_body
  relay_body-Forwarded opts policy shaped r e =
      let (body, parsed, e1) = >>=-eq-ok (parse_body shaped) _ e in
      let ix_data : Bytes = from_base64 body.ix_data in
      let (given, fine) = parse_body_inv shaped body parsed in
      let (sized, e2) = >>-eq-ok (assert_len (length ix_data) opts) _ e1 in
      let (low, high) = assert_len_inv (length ix_data) opts sized in
      let (paid, e3) = >>-eq-ok (check_fee cfg ix_data) _ e2 in
      let (listed, e4) = >>-eq-ok (check_adapter public_key cfg opts body.account_keys) _ e3 in
      let (minted, e5) =
        >>-eq-ok (enforce_token_allowlist to_base58 ix_data policy.token_allowlist) _ e4 in
      let (input, made, sent) = >>=-eq-ok (to_submit_input from_base64 public_key cfg body) _ e5 in
      let (pool, same, accounts) = to_submit_input_inv from_base64 public_key cfg body input made in
      (
        body,
        input,
        given,
        record {
          schema = fine;
          long_enough = low;
          short_enough = high;
          pays = check_fee_inv cfg ix_data paid;
          adapter = check_adapter_inv public_key cfg opts body.account_keys listed;
          mint = enforce_token_allowlist_inv to_base58 ix_data policy.token_allowlist minted;
          to_the_pool = pool;
          same_data = same;
          same_accounts = accounts;
        },
        sent,
      )

  -- Behind a guard, a result means a known caller within its rate, and the handler's own result.
  guarded_inv :
      (utf8 : Text → Bytes) (buckets : List (Text × Bucket)) (headers : Headers) (now : ℕ)
      (serve : AuthContext → Result RelayerError R) (r : R)
      → (guarded from_base64 public_key to_base58 submit utf8 cfg buckets headers now serve).1
        ≡ ok r
      → (ctx : AuthContext) × (authenticate utf8 cfg.auth headers ≡ ok ctx)
        × ((enforce_rate_limit buckets ctx now).1 ≡ ok tt)
        × (serve ctx ≡ ok r)
  unfolding guarded
  guarded_inv utf8 buckets headers now serve r e =
      elim (Result-cases (authenticate utf8 cfg.auth headers)) [
        | inl (ctx, known) ↦
            let (within, served) =
              >>-eq-ok (enforce_rate_limit buckets ctx now).1 (serve ctx)
                (rw (known, guarded) at e) in
            (ctx, known, within, served)
        | inr (x, unknown) ↦ cc (rw (unknown, guarded) at e)
      ]

  -- When POST to one of the relay paths is answered with a result, the caller authenticated and
  -- stayed within its rate, every check of the handler passed for that caller's policy, and the
  -- result is the submitter's, on the pool's program id, the client's instruction data and its
  -- account list unchanged.
  pub relay-Forwarded :
      (utf8 : Text → Bytes) (opts : RelayRouteOptions) (buckets : List (Text × Bucket))
      (headers : Headers) (shaped : Option RelayRequest) (now : ℕ) (r : R)
      → (relay from_base64 public_key to_base58 submit utf8 cfg opts buckets headers shaped now).1
        ≡ ok r
      → (ctx : AuthContext) × (body : RelayRequest) × (input : SubmitInput) × (authenticate utf8
            cfg.auth headers
          ≡ ok ctx)
        × ((enforce_rate_limit buckets ctx now).1 ≡ ok tt)
        × (shaped ≡ some body)
        × Forwarded from_base64 public_key to_base58 cfg opts ctx.policy body input
        × (submit input ≡ ok r)
  unfolding relay
  relay-Forwarded utf8 opts buckets headers shaped now r e =
      let (ctx, known, within, served) = guarded_inv utf8 buckets headers now _ r e in
      let (body, input, given, forwarded, sent) =
        relay_body-Forwarded opts ctx.policy shaped r served in
      (ctx, body, input, known, within, given, forwarded, sent)

  -- When POST to a pool path is answered with a result, the caller authenticated and stayed within
  -- its rate, the body fits the schema, and the result is the submitter's, on the pool's program
  -- id, the client's instruction data and its account list unchanged.
  pool_ix-verbatim :
      (utf8 : Text → Bytes) (buckets : List (Text × Bucket)) (headers : Headers)
      (shaped : Option RelayRequest) (now : ℕ) (r : R)
      → (pool_ix from_base64 public_key to_base58 submit utf8 cfg buckets headers shaped now).1
        ≡ ok r
      → (ctx : AuthContext) × (body : RelayRequest) × (input : SubmitInput) × (authenticate utf8
            cfg.auth headers
          ≡ ok ctx)
        × ((enforce_rate_limit buckets ctx now).1 ≡ ok tt)
        × (shaped ≡ some body)
        × (request_ok body ≡ true)
        × (input.program_id ≡ cfg.pool_program_id)
        × (input.ix_data ≡ from_base64 body.ix_data)
        × (input.account_keys ≡ body.account_keys)
        × (submit input ≡ ok r)
  unfolding pool_ix pool_ix_body
  pool_ix-verbatim utf8 buckets headers shaped now r e =
      let (ctx, known, within, served) = guarded_inv utf8 buckets headers now _ r e in
      let (body, parsed, e1) = >>=-eq-ok (parse_body shaped) _ served in
      let (given, fine) = parse_body_inv shaped body parsed in
      let (input, made, sent) = >>=-eq-ok (to_submit_input from_base64 public_key cfg body) _ e1 in
      let (pool, same, accounts) = to_submit_input_inv from_base64 public_key cfg body input made in
      (ctx, body, input, known, within, given, fine, pool, same, accounts, sent)
