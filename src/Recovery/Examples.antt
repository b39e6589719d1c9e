-- ===== src/Recovery/Examples.antt =====
-- The analysis of a log with one committed transaction and one that is incomplete.
use resume_project.Common.{
  ℕ, ◌<◌, IsU64, ◌≡◌, refl, true, false, List, [], ◌∷◌, ◌++◌, ◌&&◌, length, arith, ok, inl,
}
use resume_project.Storage.Wal.{RecordType, WalRecord, begins, commit}
use resume_project.Storage.Wal.RoundTrip.{IsEncodable}
use resume_project.Storage.Wal.Scan.{read_records}
use resume_project.Storage.Wal.Recover.{frames, read_records-frames}
use resume_project.Recovery.Analysis.{
  RecoveryState, is_committed, is_incomplete, analyze, observe, observe_all, classify, change,
  validate_empty_payload, is_empty, no_metrics,
}
use resume_project.Recovery.Classified.{
  status_in, logged_status, logged, is_commit, is_abort, tally, one_if_committed, one_if_aborted,
  one_if_incomplete, analyze_lem,
}

abbrev first : WalRecord
first = record { lsn = 1; transaction_id = 7; type = begins; payload = [] }

abbrev second : WalRecord
second = record { lsn = 2; transaction_id = 8; type = begins; payload = [] }

abbrev third : WalRecord
third = record { lsn = 3; transaction_id = 7; type = commit; payload = [] }

abbrev file : List ℕ
file = frames (first ∷ second ∷ third ∷ []) ++ []

abbrev one_committed : RecoveryState
one_committed = record {
  records = first ∷ second ∷ third ∷ [];
  allocations = [];
  mutations = [];
  transactions =
      (
        7,
        record {
          transaction_id = 7;
          status = is_committed;
          began = true;
          committed = true;
          aborted = false;
          allocation_indexes = [];
          mutation_indexes = [];
        },
      )
      ∷ (
        8,
        record {
          transaction_id = 8;
          status = is_incomplete;
          began = true;
          committed = false;
          aborted = false;
          allocation_indexes = [];
          mutation_indexes = [];
        },
      )
      ∷ [];
  metrics = record (no_metrics (length file)) {
    total_records = 3;
    transactions_observed = 2;
    committed_transactions = 1;
    incomplete_transactions = 1;
    first_lsn = 1;
    last_lsn = 3;
  };
}

plain :
    (lsn transaction_id : ℕ) (type : RecordType)
    → IsU64 lsn
    → 0 < lsn
    → IsU64 transaction_id
    → IsEncodable (record { lsn = lsn; transaction_id = transaction_id; type = type; payload = [] })
plain lsn transaction_id type fits set small = record {
  lsn_fits = fits;
  lsn_set = set;
  transaction_fits = small;
  payload_fits = omega arith;
}

scanned : read_records file ≡ ok (first ∷ second ∷ third ∷ [])
scanned =
    read_records-frames (first ∷ second ∷ third ∷ []) []
      (
        plain 1 7 begins (omega arith) (omega arith) (omega arith),
        (
          plain 2 8 begins (omega arith) (omega arith) (omega arith),
          (plain 3 7 commit (omega arith) (omega arith) (omega arith), tt),
        ),
      )
      (refl, omega arith, (refl, omega arith, (refl, omega arith, tt))) (inl (omega arith))

analyzed : analyze file ≡ ok one_committed
unfolding analyze observe_all observe classify change validate_empty_payload is_empty
analyzed = rw (analyze, scanned) refl

-- Transaction 8 has begun and not ended.
analyze_lem_example :
    (read_records file ≡ ok (first ∷ second ∷ third ∷ []))
    × (status_in one_committed.transactions 8 ≡ logged_status 8 (first ∷ second ∷ third ∷ []))
    × ((logged is_commit 8 one_committed.records && logged is_abort 8 one_committed.records)
        ≡ false)
    × (1 ≡ tally one_if_committed one_committed.transactions)
    × (0 ≡ tally one_if_aborted one_committed.transactions)
    × (1 ≡ tally one_if_incomplete one_committed.transactions)
    × (2 ≡ length one_committed.transactions)
analyze_lem_example = analyze_lem file one_committed 8 analyzed
