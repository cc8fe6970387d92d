-- ===== src/Protocol.antt =====
-- What the packages share: packages/shared (constants and encodings) and the Poseidon wrapper of
-- packages/sdk/src/poseidon.ts.
pub mod Encoding
pub mod Poseidon
