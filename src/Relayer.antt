-- ===== src/Relayer.antt =====
-- packages/relayer: the HTTP fee payer, from the API key to the signed transaction.
pub mod Errors
pub mod Auth
pub mod Validate
pub mod Route
pub mod Base58
pub mod Submit
