-- ===== src/Transactions/Errors.antt =====
-- The exceptions above the pool: those of the storage classes, and the ones of mutation capture,
-- transactions and replay, one constructor for each message.
use resume_project.Storage.Errors.{StorageError}
use resume_project.Storage.Wal.{WalError}
use resume_project.Buffer.Pool.Defs.{PoolError}

pub data EngineError : Type 0 where
  pool : PoolError → EngineError
  pages : StorageError → EngineError
  wal : WalError → EngineError
  cannot_fetch_mutation_page cannot_unpin_mutation_page : EngineError
  invalid_payload_image cannot_fetch_replay_page cannot_unpin_replay_page : EngineError
  invalid_mutation_page finish_without_watch must_finish_pinned zero_mutation_lsn : EngineError
  page_does_not_match unfinished_capture : EngineError
  logger_returned_zero nothing_to_finalize invalid_undo_index already_resolved : EngineError
  not_reverse_order no_buffer_pool abort_with_unfinished_capture : EngineError
  unlogged_mutations unresolved_mutations : EngineError
  commit_unfinalized abort_unresolved : EngineError
  replay_inactive resident_replay_page invalid_recovery_mutation : EngineError
  cannot_pin_recovery_page cannot_unpin_skipped_page cannot_unpin_recovery_page : EngineError
  undo_inactive invalid_undo_mutation cannot_pin_undo_page cannot_unpin_skipped_undo : EngineError
  impossible_undo_lsn cannot_unpin_undo_page undo_page_pinned : EngineError
  reconstruction_inactive invalid_reconstructed_image : EngineError
  cannot_pin_reconstructed_page cannot_unpin_reconstructed_page : EngineError
  redo_inactive no_transaction_analysis missing_allocation missing_mutation : EngineError
  undo_run_inactive index_out_of_range mutation_without_transaction : EngineError
  invalid_node_capacity cannot_fetch_new_metadata cannot_fetch_metadata_page : EngineError
  invalid_metadata_page cannot_fetch_metadata cannot_fetch_node corrupt_node : EngineError
  invalid_node_write cannot_fetch_node_for_write : EngineError
  parent_missing_child parent_missing_child_in_update empty_child : EngineError
  empty_schema cannot_pin_table_metadata invalid_table_metadata tuple_mismatch : EngineError
  cannot_pin_new_data cannot_pin_previous_data cannot_repin_new_data : EngineError
  cannot_pin_data_page invalid_data_page corrupt_tuple pool_unpin_failed : EngineError
  unlike_values sum_not_numeric column_out_of_range : EngineError
  cannot_pin_read_page cannot_pin_write_page : EngineError
  -- Not messages: an access out of a vector's bounds, which C++ leaves undefined, and a loop of the
  -- model that has used up its fuel.
  out_of_bounds out_of_fuel : EngineError
