-- ===== src/Tests.antt =====
-- The theorems at concrete inputs.
mod Trees
mod Notes
mod Programs
mod Relayer
mod Actions
mod Swaps
mod Client
mod Watching
mod Calling
mod Wallets
