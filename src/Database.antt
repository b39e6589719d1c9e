-- ===== src/Database.antt =====
-- The facade of src/database.cpp: what it opens, in which order, and what it hands to which part.
pub mod Restart
mod Examples
use resume_project.Common.{ℕ, Option, none, some, List, Result, ok, err, ◌>>=◌, ◌>>◌, Outcome}
use resume_project.Storage.Errors.{StorageError}
use resume_project.Storage.Wal.{WalError}
use resume_project.Storage.Log.{Log, open_and_scan}
use resume_project.Storage.PageManager.{PageManager, open_database}
use resume_project.Buffer.Pool.Defs.{Pool}
use resume_project.Buffer.Pool.Defs
use resume_project.Recovery.Analysis.{RecoveryState, analyze}
use resume_project.Transactions.Errors.{EngineError, pages, wal}
use resume_project.Transactions.Coordinator.{TransactionManager}

-- `DatabaseLifecycle`, which the caller implements: what each of its methods does. `open_wal` works
-- on its own object only. `provider` is what the returned provider's `durable_lsn()` answers, `none`
-- for a null pointer.
pub record DatabaseLifecycle : Type 0 where
  pub recover : PageManager → Result EngineError PageManager
  pub provider : Option ℕ

-- The base class.
abbrev pub no_lifecycle : DatabaseLifecycle
no_lifecycle = record { recover = λ pm. ok pm; provider = none }

-- The four parts: the page manager is the pool's disk, and the log manager is the one that the
-- transaction manager writes to.
pub record Database : Type 0 where
  pub pool : Pool PageManager
  pub manager : TransactionManager

-- The bytes of the database file, as blocks, and of the file beside it with the log.
pub record Files : Type 0 where
  pub blocks : List (List ℕ)
  pub wal_file : List ℕ

unfoldable pub analyze_wal : Files → Result WalError RecoveryState
analyze_wal files = analyze files.wal_file

abbrev from_wal : {A : Type 0} → Result WalError A → Result EngineError A
from_wal (ok a) = ok a
from_wal (err e) = err (wal e)

abbrev from_pages : {A : Type 0} → Result StorageError A → Result EngineError A
from_pages (ok a) = ok a
from_pages (err e) = err (pages e)

unfoldable pub recovered : Option DatabaseLifecycle → PageManager → Result EngineError PageManager
recovered none pm = ok pm
recovered (some l) pm = l.recover pm

unfoldable pub provider_of : Option DatabaseLifecycle → Log → Option ℕ
provider_of none log = some log.durable_lsn
provider_of (some l) log = l.provider

-- `TransactionManager(log)`, whose ids start at 1
abbrev pub new_transactions : Log → TransactionManager
new_transactions log = record { next_id = 1; log = some log }

-- The constructor.
unfoldable pub open_files :
    Files → List Outcome → List Outcome → ℕ → Option DatabaseLifecycle → Result EngineError Database
open_files files log_stream page_stream capacity lifecycle = do
  log ← from_wal (open_and_scan files.wal_file log_stream)
  pm ← from_pages (open_database files.blocks page_stream)
  recovered_pm ← recovered lifecycle pm
  ok (record {
    pool = Defs.create recovered_pm capacity (provider_of lifecycle log);
    manager = new_transactions log;
  })
