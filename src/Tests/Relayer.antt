-- ===== src/Tests/Relayer.antt =====
-- packages/relayer/src at concrete inputs.
mod Guards
mod Posted
mod Submission
