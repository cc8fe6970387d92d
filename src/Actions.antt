-- ===== src/Actions.antt =====
-- packages/sdk/src/actions: the deposit (shield.ts) and the withdrawal (unshield.ts), with the witness
-- type of packages/prover/src/index.ts and the circuit that checks it.
pub mod Witness
pub mod Circuit
pub mod Slots
pub mod Accepted
pub mod Owner
pub mod Wire
pub mod Confirm
pub mod Shield
pub mod Unshield
pub mod Layout
pub mod WithdrawData
pub mod Withdrawn
pub mod DepositData
pub mod Deposited
