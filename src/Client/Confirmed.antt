-- ===== src/Client/Confirmed.antt =====
-- The waiting loops of packages/sdk/src/b402.ts (`pollConfirm`) and actions/shield.ts on a transaction
-- that no status settles.
use b402_solana.Common.{
  ℕ, zero, suc, ◌+◌, ◌-◌, ◌≤◌, ◌<◌, ◌≡◌, inl, inr, refl, arith, Bool-cases, Option, none, some,
  Text, Result, ok, err, ltb, ltb→lt,
}
use b402_solana.Actions.Confirm.{
  TxStatus, ConfirmError, decided, await_status, poll_confirm, shield_confirm, not_confirmed,
}

module _ (clock : ℕ → ℕ) (statuses : ℕ → Result Text (Option TxStatus)) (start : ℕ)
    (moves : (k : ℕ) → start + k ≤ clock k)
    (undecided : (k : ℕ) → (o : Option TxStatus) × (statuses k ≡ ok o) × (decided o ≡ none)) where
  await_status-late :
      (timeout_ms : ℕ) (late : Result ConfirmError (Unit {0})) (fuel k : ℕ)
      → timeout_ms - k < fuel
      → await_status clock statuses start timeout_ms late fuel k ≡ some late
  unfolding await_status
  await_status-late timeout_ms late zero k enough = absurd (omega (arith, enough))
  await_status-late timeout_ms late (suc fuel) k enough =
      elim (Bool-cases (ltb (clock k - start) timeout_ms)) [
        | inl within ↦
            let (o, answered, nothing) = undecided k in
            rw (await_status, within, answered, nothing)
              (await_status-late timeout_ms late fuel (suc k)
                (omega (arith, moves k, ltb→lt (clock k - start) timeout_ms within)))
        | inr past ↦ rw (await_status, past) refl
      ]

  -- On a clock that moves a millisecond a turn at least, with status calls that never say confirmed
  -- or finalized, and with fuel above the milliseconds of the timeouts: `pollConfirm` ends with the
  -- error that the transaction is not confirmed, and the loop of `shield` ends without an error, as
  -- it does on a confirmed transaction.
  pub shield_confirm-unconfirmed :
      (timeout_ms fuel : ℕ)
      → timeout_ms < fuel
      → 90000 < fuel
      → (poll_confirm clock statuses start timeout_ms fuel ≡ some (err not_confirmed))
        × (shield_confirm clock statuses start fuel ≡ some (ok tt))
  unfolding poll_confirm shield_confirm
  shield_confirm-unconfirmed timeout_ms fuel enough long = (
    await_status-late timeout_ms (err not_confirmed) fuel 0 (omega arith),
    await_status-late 90000 (ok tt) fuel 0 (omega arith),
  )
