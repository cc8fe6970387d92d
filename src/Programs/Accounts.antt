-- ===== src/Programs/Accounts.antt =====
-- The account lists of the instructions that packages/sdk/src builds: web3.js's `AccountMeta`.
use b402_solana.Common.{Bytes, Bool, true, false, List, [], ◌∷◌}

pub record AccountMeta : Type 0 where
  pub pubkey : Bytes
  pub is_signer : Bool
  pub is_writable : Bool

-- web3.js's `TransactionInstruction`.
pub record Instruction : Type 0 where
  pub program_id : Bytes
  pub account_keys : List AccountMeta
  pub ix_data : Bytes

-- The three kinds of account that the builders list.
abbrev pub signer_writable : Bytes → AccountMeta
signer_writable key = record { pubkey = key; is_signer = true; is_writable = true }

abbrev pub writable : Bytes → AccountMeta
writable key = record { pubkey = key; is_signer = false; is_writable = true }

abbrev pub readonly : Bytes → AccountMeta
readonly key = record { pubkey = key; is_signer = false; is_writable = false }

-- The keys that sign.
unfoldable pub signers : List AccountMeta → List Bytes
signers [] = []
signers (a ∷ rest) = elim a.is_signer [ true ↦ a.pubkey ∷ signers rest | false ↦ signers rest ]

-- The keys that the instruction may write.
unfoldable pub writables : List AccountMeta → List Bytes
writables [] = []
writables (a ∷ rest) = elim a.is_writable [
  | true ↦ a.pubkey ∷ writables rest
  | false ↦ writables rest
]
