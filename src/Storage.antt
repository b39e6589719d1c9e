-- ===== src/Storage.antt =====
-- The storage layer: src/storage and include/ddb/storage. Pages and their identifiers, the
-- write-ahead log, and the page file.
pub mod Page
pub mod Wal
pub mod Log
pub mod Bitmap
pub mod Errors
pub mod PageManager
