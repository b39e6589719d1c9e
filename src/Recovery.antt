-- ===== src/Recovery.antt =====
-- The recovery of src/recovery.
pub mod Analysis
pub mod Replay
pub mod Redo
pub mod Undo
pub mod Survivors
pub mod Idempotence
pub mod Classified
pub mod Committed
mod Examples
mod ReplayExamples
