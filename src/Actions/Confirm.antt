-- ===== src/Actions/Confirm.antt =====
-- The two loops of packages/sdk/src that wait for a transaction: the end of `shield` in
-- actions/shield.ts, and `pollConfirm` of b402.ts. `clock` is the time at each turn, `statuses` what
-- each call of getSignatureStatuses gives.
use b402_solana.Common.{
  ℕ, zero, suc, ◌-◌, Bool, Option, none, some, Text, Result, ok, err, if◌then◌else◌, ltb,
}

pub record TxStatus : Type 0 where
  pub confirmed : Bool
  pub failure : Option Text

pub data ConfirmError : Type 0 where
  rpc_failed : Text → ConfirmError
  landed_with_error : Text → ConfirmError
  not_confirmed : ConfirmError

-- What one status decides, or nothing yet.
unfoldable pub decided : Option TxStatus → Option (Result ConfirmError (Unit {0}))
decided none = none
decided (some s) =
    if s.confirmed
    then some (elim s.failure [ none ↦ ok tt | some e ↦ err (landed_with_error e) ])
    else none

module _ (clock : ℕ → ℕ) (statuses : ℕ → Result Text (Option TxStatus)) (start timeout_ms : ℕ)
    (late : Result ConfirmError (Unit {0})) where
  -- The `while` from its turn `k` on; `late` is what stands behind the loop, and `none` is the fuel's
  -- end.
  unfoldable pub await_status : ℕ → ℕ → Option (Result ConfirmError (Unit {0}))
  unfolding decided
  await_status zero k = none
  await_status (suc fuel) k =
      let later = await_status fuel (suc k) in
      if ltb (clock k - start) timeout_ms
      then (elim (statuses k) [
        | err e ↦ some (err (rpc_failed e))
        | ok s ↦ elim (decided s) [ none ↦ later | some outcome ↦ some outcome ]
      ])
      else some late

module _ (clock : ℕ → ℕ) (statuses : ℕ → Result Text (Option TxStatus)) (start : ℕ) where
  unfoldable pub poll_confirm : ℕ → ℕ → Option (Result ConfirmError (Unit {0}))
  unfolding await_status
  poll_confirm timeout_ms fuel =
      await_status clock statuses start timeout_ms (err not_confirmed) fuel 0

  -- The loop of `shield` leaves a timeout unsaid.
  unfoldable pub shield_confirm : ℕ → Option (Result ConfirmError (Unit {0}))
  unfolding await_status
  shield_confirm fuel = await_status clock statuses start 90000 (ok tt) fuel 0
