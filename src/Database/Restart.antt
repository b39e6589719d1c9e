-- ===== src/Database/Restart.antt =====
-- Transaction ids across restarts: src/database.cpp keeps the log and starts the ids over.
use resume_project.Common.{
  ℕ, ◌≡◌, ◌∙◌, Option, List, ◌++◌, arith, ok, Option-cases, inl, inr, Outcome,
}
use resume_project.Storage.Wal.{WalRecord}
use resume_project.Storage.Wal.Scan.{read_records}
use resume_project.Recovery.Analysis.{RecoveryState, analyze}
use resume_project.Recovery.Committed.{
  HasCommit, IsCommitted, analyze-IsCommitted, HasCommit-append,
}
use resume_project.Transactions.Transaction.{Transaction}
use resume_project.Transactions.Coordinator
use resume_project.Transactions.Coordinator.{TransactionManager}
use resume_project.Database.{Database, DatabaseLifecycle, Files, open_files}

opened_first :
    (files : Files) (log_stream page_stream : List Outcome) (capacity : ℕ)
    (lifecycle : Option DatabaseLifecycle) (db : Database)
    → open_files files log_stream page_stream capacity lifecycle ≡ ok db
    → db.manager.next_id ≡ 1
unfolding open_files
opened_first files log_stream page_stream capacity lifecycle db e = ground (arith, e)

first_id :
    (tm : TransactionManager) (t : Transaction)
    → (Coordinator.begins tm).0 ≡ ok t
    → t.id ≡ tm.next_id
unfolding Coordinator.begins
first_id tm t e = elim (Option-cases tm.log) [
  | inl absent ↦ ground (arith, e, absent)
  | inr (log, present) ↦ ground (arith, e, present)
]

-- A database that is opened with a log which has a COMMIT record of transaction 1 begins its first
-- transaction as transaction 1 again; and whenever the analysis returns on a log file with those
-- old records and any new ones behind them, it calls that transaction committed, whatever the new
-- records are.
pub begins-reused :
    (files : Files) (log_stream page_stream : List Outcome) (capacity : ℕ)
    (lifecycle : Option DatabaseLifecycle) (db : Database) (t : Transaction)
    (old new : List WalRecord) (file : List ℕ) (s : RecoveryState)
    → open_files files log_stream page_stream capacity lifecycle ≡ ok db
    → (Coordinator.begins db.manager).0 ≡ ok t
    → read_records files.wal_file ≡ ok old
    → HasCommit 1 old
    → read_records file ≡ ok (old ++ new)
    → analyze file ≡ ok s
    → (t.id ≡ 1) × IsCommitted t.id s.transactions
begins-reused files log_stream page_stream capacity lifecycle db t old new file s opens began held h
      read e =
    let first : t.id ≡ 1 =
      first_id db.manager t began
      ∙ opened_first files log_stream page_stream capacity lifecycle db opens in
    (
      first,
      rw first (analyze-IsCommitted 1 file (old ++ new) s read (HasCommit-append 1 old new h) e),
    )
