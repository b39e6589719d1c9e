-- ===== src/Buffer/Pool.antt =====
-- BufferPoolManager of src/buffer/buffer_pool_manager.cpp, over any store of pages.
pub mod Disk
pub mod Defs
pub mod Io
pub mod Invariant
pub mod WriteBack
pub mod Fetch
pub mod Fetched
pub mod Reads
pub mod Check
pub mod Methods
pub mod Pending
pub mod FlushAll
pub mod Durability
pub mod Create
pub mod Reachable
mod Examples
