-- ===== src/Wallet/Signer.antt =====
-- packages/sdk/src/signer.ts: the two signers. `sha256` and `utf8` are libraries'; a wallet adapter is
-- what it exposes, its signature of a message among it.
use b402_solana.Common.{take, codes, Text, Bytes, Bool, ◌&&◌, Option, none, some, Result, ok, err}

pub data SignerError : Type 0 where
  no_public_key no_sign_message no_sign_transaction unsupported_transaction : SignerError

unfoldable pub derivation_message : Text
derivation_message = codes "b402-solana wallet derivation v1"

-- A transaction to sign: versioned, legacy, or neither.
pub data Signable {ℓ} (Tx : Type ℓ) : Type ℓ where
  versioned : Tx → Signable Tx
  legacy : Tx → Signable Tx
  neither : Signable Tx

pub record Keypair : Type 0 where
  pub public_key : Bytes
  pub secret_key : Bytes

unfoldable pub keypair_seed : Keypair → Bytes
keypair_seed kp = take 32 kp.secret_key

-- What the adapter has: a key when it is connected, and the methods that it supports.
pub record WalletAdapter {ℓ} (Tx : Type ℓ) : Type ℓ where
  pub public_key : Option Bytes
  pub sign_message : Option (Bytes → Bytes)
  pub sign_transaction : Option (Tx → Tx)

pub record WalletAdapterSigner {ℓ} (Tx : Type ℓ) : Type ℓ where
  pub public_key : Bytes
  pub adapter : WalletAdapter Tx
  pub seed : Bytes

unfoldable pub is_b402_signer : Bool → Bool → Bool → Bool → Bool
is_b402_signer is_object has_key has_sign has_seed = is_object && has_key && has_sign && has_seed

module _ {ℓ} {Tx : Type ℓ} (sign partial_sign : Keypair → Tx → Tx) where
  unfoldable pub keypair_sign_transaction : Keypair → Signable Tx → Result SignerError (Signable Tx)
  keypair_sign_transaction kp (versioned tx) = ok (versioned (sign kp tx))
  keypair_sign_transaction kp (legacy tx) = ok (legacy (partial_sign kp tx))
  keypair_sign_transaction kp neither = err unsupported_transaction

module _ {ℓ} {Tx : Type ℓ} (sha256 : Bytes → Bytes) (utf8 : Text → Bytes) where
  -- The constructor tests the key again.
  unfoldable pub from_adapter : WalletAdapter Tx → Result SignerError (WalletAdapterSigner Tx)
  from_adapter adapter = elim adapter.public_key [
    | none ↦ err no_public_key
    | some key ↦ elim adapter.sign_message [
      | none ↦ err no_sign_message
      | some sign_message ↦ ok (record {
        public_key = key;
        adapter = adapter;
        seed = take 32 (sha256 (sign_message (utf8 derivation_message)));
      })
    ]
  ]

unfoldable pub adapter_sign_transaction {ℓ} :
    {Tx : Type ℓ} → WalletAdapterSigner Tx → Tx → Result SignerError Tx
adapter_sign_transaction s tx = elim s.adapter.sign_transaction [
  | none ↦ err no_sign_transaction
  | some sign_transaction ↦ ok (sign_transaction tx)
]
