-- ===== src/Concurrency.antt =====
-- The locks of src/concurrency.
pub mod LockManager
pub mod WaitDie
pub mod Exclusion
pub mod Reachable
mod Examples
