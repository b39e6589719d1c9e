-- ===== src/Recovery/Redo.antt =====
-- RedoEngine of src/recovery/redo_engine.cpp: the records of committed transactions, in log order.
-- `duration`, a time, is left out.
use resume_project.Common.{
  ℕ, ◌+◌, Bool, true, false, not, ◌&&◌, Option, none, some, List, [], ◌∷◌, ◌==◌, if◌then◌else◌,
}
use resume_project.Common.Action.{Action, pure, gets, or_throw, throw_if, ◌>>=◌, ◌>>◌}
use resume_project.Storage.Wal.{WalRecord, RecordType, physical_mutation, page_allocate}
use resume_project.Transactions.Errors.{
  EngineError, redo_inactive, no_transaction_analysis, missing_allocation, missing_mutation,
}
use resume_project.Recovery.Analysis.{
  RecoveryState, AllocationRecord, MutationRecord, TransactionAnalysis, TransactionStatus,
  is_committed, transaction,
}
use resume_project.Recovery.Replay.{ReplayContext, redo_page_allocate, redo_physical_mutation}

pub record RedoMetrics : Type 0 where
  pub records_considered : ℕ
  pub committed_transactions : ℕ
  pub page_allocates_processed : ℕ
  pub pages_materialized : ℕ
  pub physical_mutations_considered : ℕ
  pub mutations_applied : ℕ
  pub mutations_skipped_page_lsn : ℕ

abbrev pub is_committed_status : TransactionStatus → Bool
is_committed_status is_committed = true
is_committed_status s = false

unfoldable pub count_committed : List (ℕ × TransactionAnalysis) → ℕ
count_committed [] = 0
count_committed ((k, t) ∷ ts) =
    let rest = count_committed ts in if is_committed_status t.status then rest + 1 else rest

unfoldable pub no_redo : ℕ → RedoMetrics
no_redo committed = record {
  records_considered = 0;
  committed_transactions = committed;
  page_allocates_processed = 0;
  pages_materialized = 0;
  physical_mutations_considered = 0;
  mutations_applied = 0;
  mutations_skipped_page_lsn = 0;
}

-- `std::find_if` by LSN and transaction
unfoldable pub find_allocation : WalRecord → List AllocationRecord → Option AllocationRecord
find_allocation r [] = none
find_allocation r (a ∷ later) =
    if a.lsn == r.lsn && a.transaction_id == r.transaction_id
    then some a
    else find_allocation r later

unfoldable pub find_mutation : WalRecord → List MutationRecord → Option MutationRecord
find_mutation r [] = none
find_mutation r (m ∷ ms) =
    if m.lsn == r.lsn && m.transaction_id == r.transaction_id then some m else find_mutation r ms

abbrev pub count_allocation : Bool → RedoMetrics → RedoMetrics
count_allocation materialized m = record m {
  page_allocates_processed = m.page_allocates_processed + 1;
  pages_materialized = if materialized then m.pages_materialized + 1 else m.pages_materialized;
}

abbrev pub count_mutation : Bool → RedoMetrics → RedoMetrics
count_mutation applied m = record m {
  physical_mutations_considered = m.physical_mutations_considered + 1;
  mutations_applied = if applied then m.mutations_applied + 1 else m.mutations_applied;
  mutations_skipped_page_lsn =
      if applied then m.mutations_skipped_page_lsn else m.mutations_skipped_page_lsn + 1;
}

unfoldable pub redo_record :
    RecoveryState
    → WalRecord
    → RecordType
    → RedoMetrics
    → Action ReplayContext EngineError RedoMetrics
redo_record state r page_allocate m = do
  a ← or_throw (find_allocation r state.allocations) missing_allocation
  materialized ← redo_page_allocate a.page_id
  pure (count_allocation materialized m)
redo_record state r physical_mutation m = do
  found ← or_throw (find_mutation r state.mutations) missing_mutation
  applied ← redo_physical_mutation r.lsn found.mutation
  pure (count_mutation applied m)
redo_record state r type m = pure m

unfoldable pub redo_one :
    RecoveryState → WalRecord → RedoMetrics → Action ReplayContext EngineError RedoMetrics
redo_one state r m = do
  t ← or_throw (transaction state.transactions r.transaction_id) no_transaction_analysis
  if is_committed_status t.status then redo_record state r r.type m else pure m

unfoldable pub redo_all :
    RecoveryState → List WalRecord → RedoMetrics → Action ReplayContext EngineError RedoMetrics
redo_all state [] m = pure m
redo_all state (r ∷ rs) m = do
  counted ← redo_one state r (record m { records_considered = m.records_considered + 1 })
  redo_all state rs counted

unfoldable pub run : RecoveryState → Action ReplayContext EngineError RedoMetrics
run state = do
  active ← gets (λ s. s.active)
  throw_if (not active) redo_inactive
  redo_all state state.records (no_redo (count_committed state.transactions))
