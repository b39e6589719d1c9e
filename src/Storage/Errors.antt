-- ===== src/Storage/Errors.antt =====
-- The exceptions that a caller can see, by class, with one constructor for each message.
use resume_project.Storage.Wal.{WalError}

-- `StorageError`
pub data StorageError : Type 0 where
  invalid_page_id unrepresentable_offset beyond_file not_logically_allocated : StorageError
  already_allocated catalog_exhausted : StorageError
  not_page_aligned corrupt_catalog invalid_catalog_bounds invalid_catalog_count : StorageError
  write_failed flush_failed short_read : StorageError
  unsupported_page_format page_id_mismatch write_target_mismatch : StorageError
  invalid_recovery_page recovery_page_exists physical_gap unexpected_recovery_page : StorageError
  invalid_physical_page fetch_unallocated : StorageError
  invalid_recovery_allocation recovery_gap invalid_undo_allocation : StorageError

-- Errors of several layers together.
pub data Error : Type 0 where
  storage : StorageError → Error
  wal : WalError → Error
