-- ===== src/Tests/Relayer/Submission.antt =====
-- packages/relayer/src/routes and submit.ts at concrete inputs: an unshield body with the fee payer's
-- slot and one more account, whose decoded data is the same 512 bytes whatever the string.
use b402_solana.Common.{
  ℕ, zero, suc, ◌+◌, ◌≤◌, ◌≡◌, ◌++◌, refl, arith, Bool, true, false, List, [], ◌∷◌, length, ok,
  Result, Bytes, replicate, Option, none, some, Text, codes, All,
}
use b402_solana.Relayer.Errors.{RelayerError}
use b402_solana.Relayer.Auth.{AuthContext, Headers, authenticate, enforce_rate_limit}
use b402_solana.Relayer.Validate.{AccountMeta, RelayRequest, request_ok, extract_relayer_fee}
use b402_solana.Relayer.Route.{
  Config, SubmitInput, unshield_route, relay, pool_ix, relay_body, pool_ix_body, parse_body,
  assert_len, check_fee, check_adapter, enforce_token_allowlist, to_submit_input, to_key, to_keys,
  read_user_signature, read_additional_ixs,
}
use b402_solana.Relayer.Route.Sound.{Forwarded, relay-Forwarded}
use b402_solana.Relayer.Base58.{base58_encode, base58_value, base58_encode-number}
use b402_solana.Relayer.Submit.{
  TransactionInstruction, SignatureStatus, client_ixs, relayer_slot, place_relayer, sibling_ixs,
  sibling_keys, sibling_key, settled, poll,
}
use b402_solana.Relayer.Submit.Placement.{FirstSigner, Placed, SignedByRelayer, client_ixs-Placed}
use b402_solana.Relayer.Submit.Polling.{poll-returns}

abbrev name : Text
name = replicate 32 65

abbrev account : Bool → AccountMeta
account signs = record { pubkey = name; is_signer = signs; is_writable = true }

abbrev body : RelayRequest
body = record {
  ix_data = codes "AAAA";
  account_keys = account false ∷ account true ∷ [];
  alt_addresses = none;
  compute_unit_limit = none;
  user_signature = none;
  user_pubkey = none;
  additional_ixs = none;
}

abbrev cfg : Config
cfg = record {
  auth = record { auth_enabled = false; api_keys = none };
  pool_program_id = 1 ∷ [];
  adapter_allowlist = [];
  min_fee_lamports = 5;
  compute_unit_limit = 1_400_000;
}

abbrev headers : Headers
headers = record { authorization = none; x_api_key = none }

abbrev decoded : Text → Bytes
decoded t = replicate 476 0 ++ (9 ∷ replicate 35 0)

abbrev key_of : Text → Option Bytes
key_of t = some (2 ∷ [])

abbrev sent : SubmitInput → Result RelayerError ℕ
sent input = ok (length input.ix_data)

relayed :
    (relay decoded key_of (λ b. b) sent (λ t. t) cfg unshield_route [] headers (some body) 10).1
    ≡ ok 512
unfolding relay authenticate enforce_rate_limit relay_body parse_body request_ok assert_len
    check_fee extract_relayer_fee check_adapter enforce_token_allowlist to_submit_input to_keys
    read_user_signature read_additional_ixs
relayed = refl

relay-Forwarded_example :
    (ctx : AuthContext) × (body' : RelayRequest) × (input : SubmitInput) × (authenticate
        (λ t. t)
        cfg.auth
        headers
      ≡ ok ctx)
    × ((enforce_rate_limit [] ctx 10).1 ≡ ok tt)
    × (some body ≡ some body')
    × Forwarded decoded key_of (λ b. b) cfg unshield_route ctx.policy body' input
    × (sent input ≡ ok 512)
relay-Forwarded_example =
    relay-Forwarded decoded key_of (λ b. b) sent cfg (λ t. t) unshield_route [] headers (some body)
      10 512 relayed

appended : (pool_ix decoded key_of (λ b. b) sent (λ t. t) cfg [] headers (some body) 10).1 ≡ ok 512
unfolding pool_ix authenticate enforce_rate_limit pool_ix_body parse_body request_ok to_submit_input
    to_keys read_user_signature read_additional_ixs
appended = refl

abbrev input : SubmitInput
input = record {
  program_id = 1 ∷ [];
  ix_data = 4 ∷ [];
  account_keys = account false ∷ account true ∷ [];
  alt_addresses = [];
  compute_unit_limit = 1;
  user_signature = none;
  additional_ixs =
      record { program_id = 3 ∷ []; ix_data = []; account_keys = account true ∷ account false ∷ [] }
      ∷ [];
}

placed : (ixs : List TransactionInstruction) × (client_ixs key_of (9 ∷ []) input ≡ ok ixs)
unfolding client_ixs relayer_slot place_relayer to_key sibling_ixs sibling_keys sibling_key
placed = (_, refl)

client_ixs-Placed_example :
    (main : TransactionInstruction) × (siblings : List TransactionInstruction) × (i : ℕ) × (placed.0
      ≡ main ∷ siblings)
    × (main.program_id ≡ input.program_id)
    × (main.ix_data ≡ input.ix_data)
    × FirstSigner input.account_keys i
    × Placed key_of (9 ∷ []) (some i) input.account_keys main.keys
    × All (SignedByRelayer key_of (9 ∷ [])) siblings
client_ixs-Placed_example = client_ixs-Placed key_of (9 ∷ []) input placed.0 placed.1

base58_encode-number_example : base58_value 0 (base58_encode (0 ∷ 1 ∷ 2 ∷ [])) ≡ 258
base58_encode-number_example = base58_encode-number (0 ∷ 1 ∷ 2 ∷ [])

-- The second status settles.
abbrev statuses : ℕ → Result RelayerError (Option SignatureStatus)
statuses zero = ok none
statuses (suc k) = ok (some (record { slot = 77; failure = none; confirmed = true }))

abbrev ticking : ℕ → ℕ
ticking k = 100 + k

ticks : (k : ℕ) → 100 + k ≤ ticking k
ticks k = omega arith

poll-returns_example :
    (r : Result RelayerError (ℕ × Option Text)) × (poll ticking statuses 100 5 6 0 ≡ some r)
poll-returns_example = poll-returns ticking statuses 100 5 ticks 6 0 (omega arith)

polled : poll ticking statuses 100 5 6 0 ≡ some (ok (77, none))
unfolding poll settled
polled = refl
