-- ===== src/Buffer.antt =====
-- The buffer pool: src/buffer and include/ddb/buffer.
pub mod Table
pub mod Pool
