-- ===== src/Relayer/Submit.antt =====
-- packages/relayer/src/submit.ts: `RpcSubmitter`, which puts the relayer into a client's instruction,
-- and `pollForConfirmation`. Outside the code, so parameters: `public_key` (`new PublicKey`), the
-- relayer's key, `lookup` and `blockhash` (the RPC), `compute_unit_ix` (ComputeBudgetProgram),
-- `sign_and_serialize` (the compiled message signed and serialised), and the answers of
-- `getSignatureStatuses` and of the clock, one for each turn of the loop.
pub mod Polling
pub mod Placement
use b402_solana.Common.{
  ℕ, zero, suc, ◌+◌, ◌*◌, ◌-◌, ◌<◌, ◌^◌, ◌≤◌, Bool, true, false, ◌&&◌, List, [], ◌∷◌, ◌++◌, length,
  take, drop, get_or, Option, none, some, Text, text_eq, Bytes, Result, ok, err, ◌>>=◌, ◌>>◌,
  throw_if, if◌then◌else◌, ltb, ◌==◌, bit_and, bit_or,
}
use b402_solana.Relayer.Errors.{
  no_account_keys, no_relayer_slot, unknown_lookup_table, RelayerError, bad_request, tx_too_large,
  rpc_failure, internal,
}
use b402_solana.Relayer.Validate.{AccountMeta}
use b402_solana.Relayer.Route.{UserSignature, AdditionalIxInput, SubmitInput, to_key}
use b402_solana.Relayer.Base58.{base58_encode}

pub record KeyMeta : Type 0 where
  pub pubkey : Bytes
  pub is_signer : Bool
  pub is_writable : Bool

pub record TransactionInstruction : Type 0 where
  pub program_id : Bytes
  pub keys : List KeyMeta
  pub ix_data : Bytes

pub record Message {ℓ} (Lut : Type ℓ) : Type ℓ where
  pub payer_key : Bytes
  pub recent_blockhash : Bytes
  pub instructions : List TransactionInstruction
  pub luts : List Lut

-- `findIndex`: the first slot that is a writable signer.
unfoldable pub relayer_slot : List AccountMeta → Option ℕ
relayer_slot [] = none
relayer_slot (k ∷ keys) =
    let later = relayer_slot keys in
    if k.is_signer && k.is_writable
    then some 0
    else elim later [ none ↦ none | some i ↦ some (suc i) ]

-- What the code never reads: the slot is in the list.
abbrev pub no_slot : AccountMeta
no_slot = record { pubkey = []; is_signer = false; is_writable = false }

module _ (public_key : Text → Option Bytes) (relayer : Bytes) where
  -- `accountKeys.map` with the slot's place counted down to 0.
  unfoldable pub place_relayer : Option ℕ → List AccountMeta → Result RelayerError (List KeyMeta)
  place_relayer at [] = ok []
  place_relayer none (k ∷ keys) = do
    key ← to_key public_key k.pubkey
    rest ← place_relayer none keys
    ok (record { pubkey = key; is_signer = k.is_signer; is_writable = k.is_writable } ∷ rest)
  place_relayer (some zero) (k ∷ keys) = do
    rest ← place_relayer none keys
    ok (record { pubkey = relayer; is_signer = k.is_signer; is_writable = k.is_writable } ∷ rest)
  place_relayer (some (suc i)) (k ∷ keys) = do
    key ← to_key public_key k.pubkey
    rest ← place_relayer (some i) keys
    ok (record { pubkey = key; is_signer = k.is_signer; is_writable = k.is_writable } ∷ rest)

  -- The first `map` over a sibling's accounts: the relayer where the writable signer is the one of
  -- the main instruction's slot.
  unfoldable pub sibling_key : AccountMeta → AccountMeta → Result RelayerError Bytes
  sibling_key first k =
      if k.is_signer && k.is_writable
      then (do
        key ← to_key public_key k.pubkey
        slot ← to_key public_key first.pubkey
        ok (if text_eq key slot then relayer else key))
      else to_key public_key k.pubkey

  -- Both maps: any signer is the relayer in the end.
  unfoldable pub sibling_keys : AccountMeta → List AccountMeta → Result RelayerError (List KeyMeta)
  sibling_keys first [] = ok []
  sibling_keys first (k ∷ keys) = do
    key ← sibling_key first k
    rest ← sibling_keys first keys
    ok (
        record {
          pubkey = if k.is_signer then relayer else key;
          is_signer = k.is_signer;
          is_writable = k.is_writable;
        }
        ∷ rest)

  unfoldable pub sibling_ixs :
      AccountMeta → List AdditionalIxInput → Result RelayerError (List TransactionInstruction)
  sibling_ixs first [] = ok []
  sibling_ixs first (x ∷ extras) = do
    keys ← sibling_keys first x.account_keys
    rest ← sibling_ixs first extras
    ok (record { program_id = x.program_id; keys = keys; ix_data = x.ix_data } ∷ rest)

  -- The instructions behind the compute-budget one: the client's, and its siblings.
  unfoldable pub client_ixs : SubmitInput → Result RelayerError (List TransactionInstruction)
  client_ixs input =
      if length input.account_keys == 0
      then err (bad_request no_account_keys)
      else elim (relayer_slot input.account_keys) [
        | none ↦ err (bad_request no_relayer_slot)
        | some i ↦ do
          keys ← place_relayer (some i) input.account_keys
          extras ← sibling_ixs (get_or input.account_keys i no_slot) input.additional_ixs
          ok (
              record { program_id = input.program_id; keys = keys; ix_data = input.ix_data }
              ∷ extras)
      ]

module _ {Lut : Type 0} (lookup : Bytes → Result RelayerError (Option Lut)) where
  unfoldable pub resolve_luts : List Bytes → Result RelayerError (List Lut)
  resolve_luts [] = ok []
  resolve_luts (addr ∷ rest) = do
    found ← lookup addr
    elim found [
      | none ↦ err (bad_request unknown_lookup_table)
      | some lut ↦ do luts ← resolve_luts rest; ok (lut ∷ luts)
    ]

module _ (public_key : Text → Option Bytes) (relayer : Bytes)
    (compute_unit_ix : ℕ → TransactionInstruction) {Lut : Type 0}
    (lookup : Bytes → Result RelayerError (Option Lut)) (blockhash : Result RelayerError Bytes)
    (sign_and_serialize : Message Lut → Option UserSignature → Result RelayerError Bytes)
    (max_tx_size : ℕ) (send : Bytes → Result RelayerError (Bytes × ℕ)) where
  unfoldable pub build : SubmitInput → Result RelayerError (Message Lut)
  build input = do
    luts ← resolve_luts lookup input.alt_addresses
    ixs ← client_ixs public_key relayer input
    hash ← blockhash
    ok (record {
      payer_key = relayer;
      recent_blockhash = hash;
      instructions = compute_unit_ix input.compute_unit_limit ∷ ixs;
      luts = luts;
    })

  -- `send` is `submitViaRpc` or `submitViaJito`, as the configuration has it.
  unfoldable pub submit : SubmitInput → Result RelayerError (Bytes × ℕ)
  unfolding build
  submit input = do
    message ← build input
    wire ← sign_and_serialize message input.user_signature
    throw_if (ltb max_tx_size (length wire)) (tx_too_large (length wire) max_tx_size)
    send wire

-- One status of getSignatureStatuses: the slot, the error and whether it says confirmed or finalized.
pub record SignatureStatus : Type 0 where
  pub slot : ℕ
  pub failure : Option Text
  pub confirmed : Bool

-- What one status decides: the slot with the error or with none, or nothing yet.
unfoldable pub settled : Option SignatureStatus → Option (ℕ × Option Text)
settled none = none
settled (some s) = elim s.failure [
  | some e ↦ some (s.slot, some e)
  | none ↦ if s.confirmed then some (s.slot, none) else none
]

module _ (clock : ℕ → ℕ) (statuses : ℕ → Result RelayerError (Option SignatureStatus))
    (start timeout_ms : ℕ) where
  -- The `while` of pollForConfirmation from its turn `k` on; `none` where the fuel runs out.
  unfoldable pub poll : ℕ → ℕ → Option (Result RelayerError (ℕ × Option Text))
  poll zero k = none
  poll (suc fuel) k =
      let later = poll fuel (suc k) in
      if ltb (clock k - start) timeout_ms
      then (elim (statuses k) [
        | err e ↦ some (err e)
        | ok s ↦ elim (settled s) [ none ↦ later | some outcome ↦ some (ok outcome) ]
      ])
      else some (err rpc_failure)

-- `recoverFirstSignature`: the shortvec's byte at `off` and those behind it, for the shifts that are
-- left; a byte past the end reads as 0.
unfoldable pub read_count : ℕ → ℕ → ℕ → ℕ → Bytes → Option (ℕ × ℕ)
read_count zero off count shift wire = none
read_count (suc left) off count shift wire =
    let b = get_or wire off 0 in
    let read = bit_or count (bit_and b 0x7f * 2 ^ shift) in
    let more = read_count left (suc off) read (shift + 7) wire in
    if bit_and b 0x80 == 0 then some (read, suc off) else more

unfoldable pub recover_first_signature : Bytes → Option Text
recover_first_signature wire = elim (read_count 4 0 0 0 wire) [
  | none ↦ none
  | some (count, off) ↦ if ltb count 1 then none else some (base58_encode (take 64 (drop off wire)))
]
