-- ===== src/Relayer/Errors.antt =====
-- packages/relayer/src/errors.ts. The texts of the messages are left out; where one status is thrown
-- for several reasons the reason is a constructor.
use b402_solana.Common.{ℕ, Text, codes}

pub data Reason : Type 0 where
  invalid_body too_short too_long no_fee_field bad_signature_length : Reason
  no_account_keys no_relayer_slot unknown_lookup_table : Reason

pub data RelayerError : Type 0 where
  bad_request : Reason → RelayerError
  unauthorized : RelayerError
  forbidden : RelayerError
  rate_limited : RelayerError
  tx_too_large : ℕ → ℕ → RelayerError
  fee_too_low : ℕ → ℕ → RelayerError
  program_not_allowed : RelayerError
  rpc_failure : RelayerError
  internal : RelayerError

unfoldable pub status_of : RelayerError → ℕ
status_of (bad_request reason) = 400
status_of unauthorized = 401
status_of forbidden = 403
status_of rate_limited = 429
status_of (tx_too_large size most) = 400
status_of (fee_too_low got least) = 400
status_of program_not_allowed = 400
status_of rpc_failure = 502
status_of internal = 500

unfoldable pub code_of : RelayerError → Text
code_of (bad_request reason) = codes "bad_request"
code_of unauthorized = codes "unauthorized"
code_of forbidden = codes "forbidden"
code_of rate_limited = codes "rate_limited"
code_of (tx_too_large size most) = codes "tx_too_large"
code_of (fee_too_low got least) = codes "fee_too_low"
code_of program_not_allowed = codes "program_not_allowed"
code_of rpc_failure = codes "rpc_failure"
code_of internal = codes "internal"
