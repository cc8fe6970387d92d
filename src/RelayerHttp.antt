-- ===== src/RelayerHttp.antt =====
-- packages/sdk/src/relayer-http.ts: the body that the client posts to a relayer. `to_base58` and
-- `to_base64` spell keys and bytes; the post itself and the health check are the network's.
pub mod Received
pub mod Delivered
use b402_solana.Common.{
  ℕ, Bool, not, List, [], ◌∷◌, map, length, Option, none, some, Text, Bytes, if◌then◌else◌, ◌==◌,
}
use b402_solana.Programs.Accounts.{Instruction}
use b402_solana.Programs.Accounts
use b402_solana.Relayer.Validate.{AccountMeta, AdditionalIx, RelayRequest}
use b402_solana.Relayer.Route.{UserSignature}

-- The argument of `submit`, without the label, which chooses the path.
pub record SubmitOptions : Type 0 where
  pub ix : Instruction
  pub alt_addresses : Option (List Bytes)
  pub compute_unit_limit : Option ℕ
  pub user_signature : Option UserSignature
  pub additional_ixs : Option (List Instruction)

-- `u.endsWith('/') ? u.slice(0, -1) : u`
unfoldable pub trim : Text → Text
trim [] = []
trim (c ∷ []) = if c == b'/' then [] else c ∷ []
trim (c ∷ d ∷ u) = c ∷ trim (d ∷ u)

module _ (to_base58 to_base64 : Bytes → Text) where
  unfoldable pub account_json : Accounts.AccountMeta → AccountMeta
  account_json k = record {
    pubkey = to_base58 k.pubkey;
    is_signer = k.is_signer;
    is_writable = k.is_writable;
  }

  unfoldable pub additional_json : Instruction → AdditionalIx
  unfolding account_json
  additional_json extra = record {
    program_id = to_base58 extra.program_id;
    ix_data = to_base64 extra.ix_data;
    account_keys = map account_json extra.account_keys;
  }

  -- `additionalIxs && additionalIxs.length > 0`
  unfoldable pub additional_of : Option (List Instruction) → Option (List AdditionalIx)
  unfolding additional_json
  additional_of none = none
  additional_of (some []) = none
  additional_of (some (x ∷ extras)) = some (map additional_json (x ∷ extras))

  unfoldable pub request_body : SubmitOptions → RelayRequest
  unfolding account_json additional_of
  request_body o = record {
    ix_data = to_base64 o.ix.ix_data;
    account_keys = map account_json o.ix.account_keys;
    alt_addresses = some (elim o.alt_addresses [ none ↦ [] | some alts ↦ map to_base58 alts ]);
    compute_unit_limit = some (elim o.compute_unit_limit [ none ↦ 1400000 | some n ↦ n ]);
    user_signature = elim o.user_signature [ none ↦ none | some s ↦ some (to_base64 s.signature) ];
    user_pubkey = elim o.user_signature [ none ↦ none | some s ↦ some (to_base58 s.pubkey) ];
    additional_ixs = additional_of o.additional_ixs;
  }
