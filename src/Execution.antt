-- ===== src/Execution.antt =====
-- The execution layer of src/execution and include/ddb/execution.
pub mod Tuple
pub mod SlotPage
pub mod TableHeap
pub mod Query
