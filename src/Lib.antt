-- ===== src/Lib.antt =====
-- A database engine: the write-ahead log, the page manager and the buffer pool, recovery, the lock
-- manager, the transactions over them, the B+ tree, table heaps, executors, and the facade.
--
-- Storage. Storage/Page is include/ddb/storage/page.h: page identifiers and pages. Storage/Wal is the
-- record format of src/storage/log_manager.cpp: `encode`, `decode` and the two payloads
-- (Wal/Mutation), and `read_records`, the scan of a file (Wal/Scan). Storage/Log is its class
-- `LogManager`: `open_and_scan`, `append` and its callers, `flush`. Storage/Bitmap and
-- Storage/PageManager are src/storage/page_manager.cpp: the catalog in block 0, the pages behind it,
-- and the methods under their own names; the constructor is `open_database`.
--
-- Buffer. Buffer/Pool is src/buffer/buffer_pool_manager.cpp: the cache between callers and the page
-- manager. It stands over any `Disk` (Pool/Disk), which the page manager fills. Pool/Defs has the
-- state and the methods in memory, Pool/Io those that reach the disk, and Pool/Check
-- `validate_invariants`.
--
-- Recovery. Recovery/Analysis is src/recovery/recovery_analysis.cpp: what the records of a log say of
-- every transaction. Recovery/Replay is src/recovery/replay_context.cpp, the changes that recovery
-- makes, and Recovery/Redo and Recovery/Undo are the two engines that call it
-- (src/recovery/redo_engine.cpp and undo_engine.cpp), each with its `run`.
--
-- Concurrency. Concurrency/LockManager is src/concurrency/lock_manager.cpp. A wait ends a step with
-- the outcome `blocked`, and `woken` is the step of the waiter after a notification: it looks at
-- compatibility again, and not at who is younger. Concurrency/Reachable has the manager's calls as a
-- step relation; it lets any transaction be woken at any time.
--
-- Transactions. Transactions/Capture and Transactions/Context are
-- src/storage/physical_mutation.cpp: images of pages, and `MutationContext`.
-- Transactions/Transaction is src/concurrency/transaction.cpp, with
-- `PageManager::allocate_transactional_page`, over a `Session`: the transaction and all that it
-- reaches. Transactions/Coordinator is src/concurrency/transaction_coordinator.cpp, the methods of
-- `LogManager` that it calls, and `TransactionManager::begin`. A page that the source passes by
-- reference is the frame it is pinned in.
--
-- Index. Index/Node is the format of a node of src/index/bplus_tree.cpp, and Index/Tree its metadata,
-- the reads and writes of nodes through the pool, `create` and the constructor. Tree/Search has
-- `find_leaf`, `get_value`, `scan` and `height`, Tree/Insert and Tree/Remove the changes with their
-- splits and merges, and Tree/Validate `validate_invariants`. A key is the 64 bits of an int64_t;
-- Index/Key has their order. Index/Shape is the tree that the pages stand for.
--
-- Execution. Execution/Tuple is include/ddb/execution/tuple.h with the bytes of a tuple, and
-- Execution/SlotPage the pages of src/execution/table_heap.cpp as bytes. Execution/TableHeap is its
-- class: TableHeap/Reach has the pool and the capture, TableHeap/Rows the loops over the pages.
-- Execution/Query is include/ddb/execution/executor.h: what each executor computes, and in
-- Query/Pull the plans and the executors' `init` and `next`. They reach tables and indexes through a
-- `Catalog`.
--
-- Access is include/ddb/concurrency/transactional_access.h: locks in front of the pool, the heap and
-- the tree. Database is src/database.cpp, the constructor that puts the parts together.
--
-- How they interact: the pool reads and writes pages through the page manager, and asks the log, by
-- its durable LSN, before it writes a page back; a session sets the pool's durable LSN to the log's
-- after each call of the log. A finished change of a page goes to the finalizer, which is the
-- transaction, and from there to the log. A log and a page manager own one file each. The analysis
-- reads a log file through `read_records`, and the engines change pages through a pool over the page
-- manager.
--
-- State and errors. A class is a record of its members, and a method is a function from the object to
-- a result and the object as it was left, since what was written before a throw stays written. A
-- mutex makes a method one step. Exceptions are the constructors of an error type, one for each
-- message. Bytes are numbers below 256, and 64-bit values wrap around where the source adds to them.
--
-- Files. A write meets an outcome of a schedule (Common/Stream): it reaches the file whole, or stops
-- after some bytes and sets the fail bit. `clear` is the reset of that bit. A write is taken to be in
-- the file when it returns; what the operating system may lose after that is not modelled, nor are
-- failures to create, open, resize or seek.
--
-- Fuel. The scan of a log has one round more than the file has bytes; a record takes 40 bytes at
-- least. The recursions of the B+ tree take fuel for its height, and `scan` for the leaves too; the
-- loops of a table heap take it for the pages of the chain, and the executors for their depth and the
-- rows that a call goes through. The end of the fuel is an error of its own, which no source
-- exception is. An access out of a vector's bounds, undefined in the source, is an error too.
--
-- Not modelled: `explain` of the plans, which prints them; the Windows flush, times, and the check that
-- a transaction uses one pool (a session has one). The operations on doubles are parameters, and so
-- is what a caller's `DatabaseLifecycle` does. `std::stable_sort`, `std::lower_bound` and
-- `std::upper_bound` are the list that they give for an order and for a sorted vector. Where they
-- are called on anything else (keys with NaN among them, which compare as no strict weak order, or
-- a vector that is not sorted), the standard leaves their result open, and the model has one.
pub mod Common
pub mod Storage
pub mod Buffer
pub mod Recovery
pub mod Concurrency
pub mod Transactions
pub mod Index
pub mod Execution
pub mod Access
pub mod Database
