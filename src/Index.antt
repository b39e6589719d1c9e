-- ===== src/Index.antt =====
-- The B+ tree of src/index.
pub mod Key
pub mod Shape
pub mod Node
pub mod Tree
