-- ===== src/Programs/Nullifier.antt =====
-- packages/sdk/src/light-nullifier.ts: the instruction that records a spent note's nullifier, and the
-- fetch of the proof it carries. `photon` is what each call of `getValidityProofV0` gives.
use b402_solana.Common.{
  ℕ, zero, suc, ◌+◌, ◌*◌, ◌/◌, ◌^◌, bit_and, not, List, [], ◌∷◌, map, length, Text, codes, Bytes,
  Option, none, some, Bool, Result, ok, err, ◌>>=◌, if◌then◌else◌, ltb, ◌==◌, includes, lower,
  get_elem?,
}
use b402_solana.Programs.Anchor.{join, u16_le}
use b402_solana.Programs.Accounts.{AccountMeta, signer_writable, writable, readonly}
pub mod Layout
pub mod Retry

pub record CompressedProof : Type 0 where
  pub a : List ℕ
  pub b : List ℕ
  pub c : List ℕ

pub record AddressTreeInfo : Type 0 where
  pub root_index : Option ℕ
  pub address_merkle_tree_pubkey_index : ℕ
  pub address_queue_pubkey_index : ℕ

pub record NullifierProof : Type 0 where
  pub proof : CompressedProof
  pub address_tree_info : AddressTreeInfo
  pub output_state_tree_index : ℕ
  pub output_queue : Bytes
  pub address_tree : Bytes

-- `write_range` is what Node's `writeUInt8` and `writeUInt16LE` throw on a number out of range and on
-- `undefined`, the index that an answer without root indices leaves.
pub data NullifierError : Type 0 where
  bad_id_length write_range address_may_exist : NullifierError
  bad_payload_length : ℕ → NullifierError
  already_exists : Text → NullifierError
  retries_exhausted : Text → NullifierError

-- `Buffer.from` on numbers keeps each number's low byte.
unfoldable pub buffer_from : List ℕ → Bytes
buffer_from = map (λ x. bit_and x 0xff)

abbrev pub discriminator : Bytes
discriminator = 171 ∷ 144 ∷ 50 ∷ 154 ∷ 87 ∷ 170 ∷ 57 ∷ 66 ∷ []

unfoldable pub encode_proof : CompressedProof → Bytes
unfolding buffer_from
encode_proof p =
    join (buffer_from (1 ∷ []) ∷ buffer_from p.a ∷ buffer_from p.b ∷ buffer_from p.c ∷ [])

unfoldable pub encode_address_tree_info : AddressTreeInfo → Result NullifierError Bytes
encode_address_tree_info info =
    if ltb 0xff info.address_merkle_tree_pubkey_index
    then err write_range
    else if ltb 0xff info.address_queue_pubkey_index
    then err write_range
    else elim info.root_index [
      | none ↦ err write_range
      | some root_index ↦
          if ltb 0xffff root_index
          then err write_range
          else ok (
              info.address_merkle_tree_pubkey_index
              ∷ info.address_queue_pubkey_index
              ∷ u16_le root_index)
    ]

unfoldable pub build_create_nullifier_data : Bytes → NullifierProof → Result NullifierError Bytes
unfolding buffer_from
build_create_nullifier_data nullifier_le p =
    if not (length nullifier_le == 32)
    then err bad_id_length
    else (encode_address_tree_info p.address_tree_info >>= λ info. ok (
        join (
          discriminator
          ∷ encode_proof p.proof
          ∷ info
          ∷ buffer_from (p.output_state_tree_index ∷ [])
          ∷ nullifier_le
          ∷ [])))

unfoldable pub build_nullifier_cpi_payload : NullifierProof → Result NullifierError Bytes
unfolding buffer_from
build_nullifier_cpi_payload p = encode_address_tree_info p.address_tree_info >>= λ info.
    let payload =
      join (encode_proof p.proof ∷ info ∷ buffer_from (p.output_state_tree_index ∷ []) ∷ []) in
    if not (length payload == 134) then err (bad_payload_length (length payload)) else ok payload

-- The accounts that Light's library and Solana name.
pub record LightAccounts : Type 0 where
  pub light_system_program : Bytes
  pub cpi_authority : Bytes
  pub registered_program_pda : Bytes
  pub account_compression_authority : Bytes
  pub account_compression_program : Bytes
  pub system_program : Bytes
  pub sysvar_instructions : Bytes
  pub batch_address_tree : Bytes
  pub default_output_queue : Bytes

unfoldable pub create_nullifier_accounts : LightAccounts → Bytes → NullifierProof → List AccountMeta
create_nullifier_accounts sys payer p =
    signer_writable payer
    ∷ readonly sys.light_system_program
    ∷ readonly sys.cpi_authority
    ∷ readonly sys.registered_program_pda
    ∷ readonly sys.account_compression_authority
    ∷ readonly sys.account_compression_program
    ∷ readonly sys.system_program
    ∷ writable p.address_tree
    ∷ writable p.output_queue
    ∷ []

unfoldable pub build_nullifier_cpi_accounts :
    LightAccounts → Bytes → NullifierProof → List AccountMeta
build_nullifier_cpi_accounts sys payer p =
    signer_writable payer
    ∷ readonly sys.sysvar_instructions
    ∷ readonly sys.light_system_program
    ∷ readonly sys.cpi_authority
    ∷ readonly sys.registered_program_pda
    ∷ readonly sys.account_compression_authority
    ∷ readonly sys.account_compression_program
    ∷ readonly sys.system_program
    ∷ writable p.address_tree
    ∷ writable p.output_queue
    ∷ []

-- A call of Photon: it answers, or throws an error with this message.
pub record PhotonAnswer : Type 0 where
  pub compressed_proof : Option CompressedProof
  pub root_indices : List ℕ

pub data Attempt : Type 0 where
  answered : PhotonAnswer → Attempt
  threw : Text → Attempt

unfoldable pub is_terminal : Text → Bool
is_terminal msg = includes (codes "already exists") (lower msg)

-- The rounds of the retry loop from round `attempt` on, with the delays it waits and the outcome;
-- `last` is the message of the last error, the text of `null` before there is one.
unfoldable pub fetch_rounds :
    (ℕ → Attempt) → ℕ → ℕ → Text → List ℕ × Result NullifierError PhotonAnswer
fetch_rounds photon zero attempt last = ([], err (retries_exhausted last))
fetch_rounds photon (suc left) attempt last = elim (photon attempt) [
  | answered r ↦ ([], ok r)
  | threw msg ↦
      let rest : List ℕ × Result NullifierError PhotonAnswer =
        fetch_rounds photon left (suc attempt) msg in
      if is_terminal msg
      then ([], err (already_exists msg))
      else (500 * 3 ^ attempt ∷ rest.0, rest.1)
]

abbrev pub max_attempts : ℕ
max_attempts = 4

unfoldable pub nullifier_proof : LightAccounts → PhotonAnswer → Result NullifierError NullifierProof
nullifier_proof sys r = elim r.compressed_proof [
  | none ↦ err address_may_exist
  | some proof ↦ ok (record {
    proof = proof;
    address_tree_info = record {
      root_index = get_elem? r.root_indices 0;
      address_merkle_tree_pubkey_index = 0;
      address_queue_pubkey_index = 0;
    };
    output_state_tree_index = 1;
    output_queue = sys.default_output_queue;
    address_tree = sys.batch_address_tree;
  })
]

unfoldable pub get_validity_proof_for_nullifier :
    LightAccounts → (ℕ → Attempt) → Result NullifierError NullifierProof
get_validity_proof_for_nullifier sys photon =
    (fetch_rounds photon max_attempts 0 (codes "null")).1 >>= nullifier_proof sys
