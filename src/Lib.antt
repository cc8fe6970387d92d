-- ===== src/Lib.antt =====
-- Verification library of b402-solana: the protocol's shared encodings, the client's wallet, Merkle
-- tree and notes, the deposit and the withdrawal with their proofs, the wire formats of the programs,
-- and the HTTP relayer.
--
-- A client of the privacy pool derives a wallet from a seed and keeps notes as leaves of a Merkle tree.
-- A deposit (shield) makes a note, a withdrawal (unshield) spends one: each builds a witness for the
-- circuit, has it proved, and writes the proof, its public inputs and the accounts into an instruction
-- of the pool; a withdrawal also records the note's nullifier in an instruction of its own. The client
-- signs it or hands it to a relayer, which authenticates the caller, checks the body, puts itself into
-- the instruction as fee payer and submits it.
--
-- The modules and the code they model:
--   Common: types, operators and lemmas that the others share; numbers are natural numbers, bytes and
--     strings are lists of numbers, a call that may throw is a Result.
--   Protocol.Encoding: packages/shared/src/encoding.ts and constants.ts (frToLe, leToFr,
--     leToFrReduced, tagToFr, domainTag, u64ToFrLe, DomainTags).
--   Protocol.Poseidon: packages/sdk/src/poseidon.ts, over the permutation as the parameter `raw`.
--   Merkle: packages/sdk/src/merkle.ts (ClientMerkleTree as a record, its methods as functions that
--     return the tree they leave behind; buildZeroCache; proveMostRecentLeaf). Merkle.Cells describes
--     the complete binary tree that the methods are measured against.
--   Relayer.Errors, Relayer.Auth, Relayer.Validate: the files of these names in packages/relayer/src.
--   Relayer.Route: packages/relayer/src/routes (registerRelayRoute, registerPoolIx and the options of
--     the four relay paths), over the submitter as a function.
--   Relayer.Submit, Relayer.Base58: packages/relayer/src/submit.ts.
--   Notes.Encryption, Notes.Events, Notes.Scanner, Notes.Excess, Notes.Store: the files
--     note-encryption.ts, notes/scanner.ts, excess.ts and note-store.ts of packages/sdk/src (a
--     NoteStore and a Scanner as records, their methods as functions; Notes.Store.Backfill is the
--     backfill, Notes.Store.Persist the saved form).
--   Programs.Anchor, Programs.Pda, Programs.TreeState, Programs.CommitInputs, Programs.Indexer: the
--     files anchor.ts, pda.ts and tree-state.ts of packages/sdk/src/programs, and commit-inputs.ts and
--     indexer.ts (Programs.Indexer.Client holds its calls) of packages/sdk/src.
--   Programs.Accounts, Programs.Nullifier: account lists, and light-nullifier.ts of packages/sdk/src.
--   Wallet, Wallet.Signer: wallet.ts and signer.ts of packages/sdk/src.
--   Prover: packages/prover/src (g1g2.ts, and `prove` of index.ts and adapt.ts over snarkjs).
--   Actions.Witness, Actions.Wire, Actions.Shield, Actions.Unshield, Actions.Confirm: shield.ts and
--     unshield.ts of packages/sdk/src/actions, and the witness's type of packages/prover/src/index.ts.
--     Each action is cut where its instruction is done: `shield_prepare` and `unshield_prepare` go up to
--     the signing, `shield` and `unshield` go on from there. Actions.Circuit is circuits/transact.circom
--     with its libraries: what a witness has to satisfy.
--   Client: packages/sdk/src/b402.ts (the notes that `unshield` and `privateSwap` take,
--     _confirmAndMarkSpent, _proveLeafForSpend, balance, in Client.Watch holdings, watchIncoming and
--     the mint registry, in Client.Calls the methods shield and unshield around the actions;
--     pollConfirm stands in Actions.Confirm).
--   Swap: privateSwap of packages/sdk/src/b402.ts, in the stages of the code: Swap.Prepare and
--     Swap.Flow (the terms, the proof, the transaction that commits the public inputs, the pool's
--     instruction), Swap.Data (its data and accounts), Swap.Settle (the submissions, the amount that
--     came in, the notes). Swap.Witness is the witness of packages/prover/src/adapt.ts, Swap.Circuit
--     circuits/adapt.circom.
--   RelayerHttp: packages/sdk/src/relayer-http.ts, the body that a client posts to the relayer.
--   Tests: the theorems at concrete inputs.
--
-- Parameters stand for code of other parties: the Poseidon permutation, SHA-256, SHA-512 and X25519,
-- the cipher of a note, snarkjs with its curve, `new PublicKey` and the search of program addresses, the
-- base-58 and base-64 codecs of the platform, the accounts that Light's library names, the answers of
-- the RPC, of Photon and of the indexer, the signing, random bytes and the clock.
--
-- Loops are structural recursion on the number of rounds where the code has it. The carry loop of
-- `append` has one round more than the tree has levels, since it throws at the depth; the base-58
-- carry has as many as the carry is large; the confirmation loops have fuel, and return when the fuel
-- exceeds the milliseconds that are left. The retry loop of the nullifier's proof and the status loop
-- of a spend have four rounds, the pages of a backfill are at most ten, as in the code.
--
-- Not modelled: the setup of the client of packages/sdk/src/b402.ts and its public balances; the Kamino
-- and Jupiter integrations; the MCP server and the scaffolder; the relayer's reading of its
-- environment; the Rust programs, another language; logging, debug output and message texts.
mod Common
pub mod Protocol
pub mod Wallet
pub mod Merkle
pub mod Notes
pub mod Programs
pub mod Relayer
pub mod Prover
pub mod Actions
pub mod Client
pub mod Swap
pub mod RelayerHttp
mod Tests
