-- ===== src/Transactions.antt =====
-- Transactions: mutation capture, the transaction itself, and what ends it.
pub mod Errors
pub mod Capture
pub mod Context
pub mod Transaction
pub mod Coordinator
pub mod Forced
pub mod Commit
pub mod Allocation
pub mod Finish
pub mod Rollback
mod Examples
