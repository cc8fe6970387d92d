-- ===== src/Wallet.antt =====
-- packages/sdk/src/wallet.ts: the keys that a seed gives. `raw` is the Poseidon permutation; `sha512`,
-- the text encoder `utf8` and X25519's public key, `x25519_public`, are libraries'.
pub mod Signer
pub mod Derivation
use b402_solana.Common.{
  ℕ, not, List, ◌++◌, length, take, get_or, set, bit_and, bit_or, Text, codes, Bytes, Result, ok,
  err, ◌>>=◌, if◌then◌else◌, ◌==◌,
}
use b402_solana.Protocol.Encoding.{le_to_fr_reduced}
use b402_solana.Protocol.Poseidon.{spending_pub}

pub record Wallet : Type 0 where
  pub seed : Bytes
  pub spending_priv : ℕ
  pub spending_pub : ℕ
  pub viewing_priv : Bytes
  pub viewing_pub : Bytes

pub data WalletError : Type 0 where
  bad_seed_length bad_scalar_length bad_hash : WalletError

unfoldable pub clamp_x25519 : Bytes → Result WalletError Bytes
clamp_x25519 bytes =
    if not (length bytes == 32)
    then err bad_scalar_length
    else let low = set bytes 0 (bit_and (get_or bytes 0 0) 248) in
      let masked = set low 31 (bit_and (get_or low 31 0) 127) in
      ok (set masked 31 (bit_or (get_or masked 31 0) 64))

-- `leToFrReduced` of a slice of the hash, which throws on another length.
unfoldable pub reduced : Bytes → Result WalletError ℕ
reduced hash = elim (le_to_fr_reduced hash) [ ok priv ↦ ok priv | err e ↦ err bad_hash ]

module _ (raw : List ℕ → ℕ) (sha512 : Bytes → Bytes) (utf8 : Text → Bytes)
    (x25519_public : Bytes → Bytes) where
  unfoldable pub build_wallet : Bytes → Result WalletError Wallet
  build_wallet seed = if not (length seed == 32) then err bad_seed_length else do
    let spend_hash = sha512 (utf8 (codes "b402/v1/spend-key") ++ seed)
    priv ← reduced (take 32 spend_hash)
    let view_raw = take 32 (sha512 (utf8 (codes "b402/v1/view-key") ++ seed))
    scalar ← clamp_x25519 view_raw
    ok (record {
      seed = seed;
      spending_priv = priv;
      spending_pub = spending_pub raw priv;
      viewing_priv = scalar;
      viewing_pub = x25519_public scalar;
    })
