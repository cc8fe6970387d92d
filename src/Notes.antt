-- ===== src/Notes.antt =====
-- packages/sdk/src: the client's notes, from the log line to the spendable note.
pub mod Encryption
pub mod Events
pub mod Store
pub mod Scanner
pub mod Excess
