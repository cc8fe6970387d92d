-- ===== src/Swap.antt =====
-- packages/sdk/src/b402.ts: `privateSwap`, the swap of a whole note through an adapter program, with
-- the witness type of packages/prover/src/adapt.ts and the circuit circuits/adapt.circom.
pub mod Witness
pub mod Circuit
pub mod Accepted
pub mod Data
pub mod Layout
pub mod Fees
pub mod Prepare
pub mod Flow
pub mod Settle
pub mod Settled
pub mod Whole
pub mod Unlanded
pub mod Committed
