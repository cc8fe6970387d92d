-- ===== src/Programs.antt =====
-- packages/sdk/src/programs and commit-inputs.ts: the wire formats of the on-chain programs.
pub mod Anchor
pub mod Pda
pub mod TreeState
pub mod CommitInputs
pub mod Indexer
pub mod Accounts
pub mod Nullifier
