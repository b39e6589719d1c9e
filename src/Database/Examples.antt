-- ===== src/Database/Examples.antt =====
-- A log in which transaction 1 has committed, opened again.
use resume_project.Common.{
  ℕ, ◌<◌, ◌≡◌, refl, true, false, none, some, List, [], ◌∷◌, ◌++◌, length, IsU64, arith, ok, inl,
  inr,
}
use resume_project.Storage.Wal.{RecordType, WalRecord, begins, commit}
use resume_project.Storage.Wal.RoundTrip.{IsEncodable}
use resume_project.Storage.Wal.Scan.{read_records}
use resume_project.Storage.Wal.Recover.{frames, read_records-frames}
use resume_project.Storage.Log.{append_begin}
use resume_project.Storage.Log.Append.{append-whole}
use resume_project.Storage.Log.Reopen.{opened, open_and_scan-torn}
use resume_project.Storage.PageManager.{PageManager}
use resume_project.Storage.PageManager.Fresh.{created, created-IsConsistent, created-IsStored}
use resume_project.Storage.PageManager.Reopen.{open_database-stored}
use resume_project.Buffer.Pool.Defs
use resume_project.Recovery.Analysis.{
  RecoveryState, is_committed, analyze, observe, observe_all, classify, change,
  validate_empty_payload, is_empty, no_metrics,
}
use resume_project.Recovery.Committed.{IsCommitted}
use resume_project.Transactions.Transaction.{Transaction}
use resume_project.Transactions.Coordinator
use resume_project.Database.{Database, Files, open_files, recovered, provider_of, new_transactions}
use resume_project.Database.Restart.{begins-reused}

abbrev begun : WalRecord
begun = record { lsn = 1; transaction_id = 1; type = begins; payload = [] }

abbrev committed : WalRecord
committed = record { lsn = 2; transaction_id = 1; type = commit; payload = [] }

-- The record of the transaction after the restart.
abbrev again : WalRecord
again = record { lsn = 3; transaction_id = 1; type = begins; payload = [] }

plain :
    (lsn : ℕ) (type : RecordType)
    → IsU64 lsn
    → 0 < lsn
    → IsEncodable (record { lsn = lsn; transaction_id = 1; type = type; payload = [] })
plain lsn type fits set = record {
  lsn_fits = fits;
  lsn_set = set;
  transaction_fits = omega arith;
  payload_fits = omega arith;
}

abbrev files : Files
files = record { blocks = (created []).blocks; wal_file = frames (begun ∷ committed ∷ []) ++ [] }

abbrev pages : PageManager
pages = record (created []) { failed = false; stream = [] }

abbrev database : Database
database = record {
  pool = Defs.create pages 2 (some 2);
  manager = new_transactions (opened (begun ∷ committed ∷ []) []);
}

opens : open_files files [] [] 2 none ≡ ok database
unfolding open_files recovered provider_of
opens =
    rw
      (
        open_files,
        open_and_scan-torn (begun ∷ committed ∷ []) [] []
            (
              plain 1 begins (omega arith) (omega arith),
              (plain 2 commit (omega arith) (omega arith), tt),
            )
            (refl, omega arith, (refl, omega arith, tt)) (inl (omega arith)),
        open_database-stored (created []) [] (created-IsConsistent []) (created-IsStored []),
      )
      refl

scanned_before : read_records files.wal_file ≡ ok (begun ∷ committed ∷ [])
scanned_before =
    read_records-frames (begun ∷ committed ∷ []) []
      (plain 1 begins (omega arith) (omega arith), (plain 2 commit (omega arith) (omega arith), tt))
      (refl, omega arith, (refl, omega arith, tt)) (inl (omega arith))

abbrev transaction : Transaction
transaction = record {
  id = 1;
  logged = true;
  pending_mutations = [];
  undo_resolved = [];
  finalized_mutations = 0;
  allocated_pages = [];
}

began : (Coordinator.begins database.manager).0 ≡ ok transaction
unfolding Coordinator.begins append_begin
began =
    rw
      (append-whole begins 1 [] (opened (begun ∷ committed ∷ []) [])
        (plain 3 begins (omega arith) (omega arith)) refl)
      refl

abbrev file : List ℕ
file = frames (begun ∷ committed ∷ again ∷ []) ++ []

scanned : read_records file ≡ ok (begun ∷ committed ∷ again ∷ [])
scanned =
    read_records-frames (begun ∷ committed ∷ again ∷ []) []
      (
        plain 1 begins (omega arith) (omega arith),
        (
          plain 2 commit (omega arith) (omega arith),
          (plain 3 begins (omega arith) (omega arith), tt),
        ),
      )
      (refl, omega arith, (refl, omega arith, (refl, omega arith, tt))) (inl (omega arith))

abbrev recovered_state : RecoveryState
recovered_state = record {
  records = begun ∷ committed ∷ again ∷ [];
  allocations = [];
  mutations = [];
  transactions =
      (
        1,
        record {
          transaction_id = 1;
          status = is_committed;
          began = true;
          committed = true;
          aborted = false;
          allocation_indexes = [];
          mutation_indexes = [];
        },
      )
      ∷ [];
  metrics = record (no_metrics (length file)) {
    total_records = 3;
    transactions_observed = 1;
    committed_transactions = 1;
    first_lsn = 1;
    last_lsn = 3;
  };
}

analyzed : analyze file ≡ ok recovered_state
unfolding analyze observe_all observe classify change validate_empty_payload is_empty
analyzed = rw (analyze, scanned) refl

begins-reused_example : (◌≡◌ {A = ℕ} 1 1) × IsCommitted 1 recovered_state.transactions
begins-reused_example =
    begins-reused files [] [] 2 none database transaction (begun ∷ committed ∷ []) (again ∷ []) file
      recovered_state opens began scanned_before (inr (inl (refl, refl))) scanned analyzed
