-- ===== src/Tests/Relayer/Posted.antt =====
-- packages/sdk/src/relayer-http.ts at a body of two accounts and a sibling, with codecs that spell bytes as they are.
use b402_solana.Common.{false, [], ◌∷◌, replicate, Option, some, none, Text, Bytes, Result, ok}
use b402_solana.Relayer.Errors.{RelayerError}
use b402_solana.Relayer.Route.{Config, SubmitInput}
use b402_solana.Programs.Accounts.{signer_writable, readonly}
use b402_solana.RelayerHttp.{SubmitOptions}

abbrev cfg : Config
cfg = record {
  auth = record { auth_enabled = false; api_keys = none };
  pool_program_id = 1 ∷ [];
  adapter_allowlist = [];
  min_fee_lamports = 5;
  compute_unit_limit = 1_400_000;
}

abbrev key : Bytes
key = replicate 32 b'A'

abbrev spell : Bytes → Text
spell b = b

abbrev key_of : Text → Option Bytes
key_of t = some t

abbrev sent : SubmitInput → Result RelayerError Bytes
sent input = ok input.ix_data

abbrev call : SubmitOptions
call = record {
  ix = record {
    program_id = key;
    account_keys = readonly key ∷ signer_writable key ∷ [];
    ix_data = replicate 8 b'A';
  };
  alt_addresses = some (key ∷ []);
  compute_unit_limit = none;
  user_signature = some (record { signature = replicate 64 b'A'; pubkey = key });
  additional_ixs =
      some
        (record { program_id = key; account_keys = signer_writable key ∷ []; ix_data = key } ∷ []);
}

abbrev relayer : Bytes
relayer = replicate 32 b'R'
