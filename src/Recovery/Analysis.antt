-- ===== src/Recovery/Analysis.antt =====
-- RecoveryAnalyzer of src/recovery/recovery_analysis.cpp: what the log says of every transaction.
-- `scan_duration`, a time, is left out.
use resume_project.Common.{
  ℕ, ◌+◌, Bool, true, false, ◌&&◌, Option, none, some, List, [], ◌∷◌, ◌++◌, length, ◌==◌,
  if◌then◌else◌, Result, ok, err, require, ◌>>=◌, ◌>>◌,
}
use resume_project.Storage.Page.{PhysicalMutation}
use resume_project.Storage.Wal.{
  begins, physical_mutation, commit, abort, page_allocate, WalRecord, WalError, payload_on_terminal,
  conflicting_terminals,
}
use resume_project.Storage.Wal.Mutation.{decode_physical_mutation, decode_page_allocate}
use resume_project.Storage.Wal.Scan.{read_records}
use resume_project.Storage.Log.{last_lsn}

pub data TransactionStatus : Type 0 where
  is_committed is_aborted is_incomplete : TransactionStatus

pub record AllocationRecord : Type 0 where
  pub lsn : ℕ
  pub transaction_id : ℕ
  pub page_id : ℕ

pub record MutationRecord : Type 0 where
  pub lsn : ℕ
  pub transaction_id : ℕ
  pub mutation : PhysicalMutation

pub record TransactionAnalysis : Type 0 where
  pub transaction_id : ℕ
  pub status : TransactionStatus
  pub began : Bool
  pub committed : Bool
  pub aborted : Bool
  pub allocation_indexes : List ℕ
  pub mutation_indexes : List ℕ

pub record RecoveryMetrics : Type 0 where
  pub wal_bytes_scanned : ℕ
  pub total_records : ℕ
  pub transactions_observed : ℕ
  pub committed_transactions : ℕ
  pub aborted_transactions : ℕ
  pub incomplete_transactions : ℕ
  pub page_allocates : ℕ
  pub physical_mutations : ℕ
  pub first_lsn : ℕ
  pub last_lsn : ℕ

-- `transactions` is a map from ids. No result depends on its order.
pub record RecoveryState : Type 0 where
  pub records : List WalRecord
  pub allocations : List AllocationRecord
  pub mutations : List MutationRecord
  pub transactions : List (ℕ × TransactionAnalysis)
  pub metrics : RecoveryMetrics

unfoldable pub transaction : List (ℕ × TransactionAnalysis) → ℕ → Option TransactionAnalysis
transaction [] id = none
transaction ((k, t) ∷ m) id = if k == id then some t else transaction m id

pub allocations_for_page : ℕ → List AllocationRecord → List AllocationRecord
allocations_for_page page [] = []
allocations_for_page page (a ∷ later) =
    let rest = allocations_for_page page later in if a.page_id == page then a ∷ rest else rest

pub mutations_for_page : ℕ → List MutationRecord → List MutationRecord
mutations_for_page page [] = []
mutations_for_page page (m ∷ ms) =
    let rest = mutations_for_page page ms in if m.mutation.page_id == page then m ∷ rest else rest

-- `TransactionAnalysis{}`, with the id set
abbrev pub new_analysis : ℕ → TransactionAnalysis
new_analysis id = record {
  transaction_id = id;
  status = is_incomplete;
  began = false;
  committed = false;
  aborted = false;
  allocation_indexes = [];
  mutation_indexes = [];
}

-- `state.transactions[id]`, which makes an entry where there is none, and a change of it.
unfoldable pub change :
    ℕ
    → (TransactionAnalysis → TransactionAnalysis)
    → List (ℕ × TransactionAnalysis)
    → List (ℕ × TransactionAnalysis)
change id f [] = (id, f (new_analysis id)) ∷ []
change id f ((k, t) ∷ m) = if k == id then (k, f t) ∷ m else (k, t) ∷ change id f m

unfoldable pub is_empty : List ℕ → Bool
is_empty [] = true
is_empty (x ∷ xs) = false

unfoldable pub validate_empty_payload : WalRecord → Result WalError (Unit {0})
validate_empty_payload r = require (is_empty r.payload) payload_on_terminal

-- One round of the loop over the records.
unfoldable pub observe : WalRecord → RecoveryState → Result WalError RecoveryState
observe r s = elim r.type [
  | begins ↦ (do
    validate_empty_payload r
    ok (record s {
      transactions = change r.transaction_id (λ t. record t { began = true }) s.transactions;
    }))
  | commit ↦ (do
    validate_empty_payload r
    ok (record s {
      transactions = change r.transaction_id (λ t. record t { committed = true }) s.transactions;
    }))
  | abort ↦ (do
    validate_empty_payload r
    ok (record s {
      transactions = change r.transaction_id (λ t. record t { aborted = true }) s.transactions;
    }))
  | page_allocate ↦ (do
    page ← decode_page_allocate r.payload
    let index = length s.allocations
    ok (record s {
      transactions =
          change r.transaction_id
            (λ t. record t { allocation_indexes = t.allocation_indexes ++ index ∷ [] })
            s.transactions;
      allocations =
          s.allocations
          ++ record { lsn = r.lsn; transaction_id = r.transaction_id; page_id = page } ∷ [];
    }))
  | physical_mutation ↦ (do
    m ← decode_physical_mutation r.payload
    let index = length s.mutations
    ok (record s {
      transactions =
          change r.transaction_id
            (λ t. record t { mutation_indexes = t.mutation_indexes ++ index ∷ [] }) s.transactions;
      mutations =
          s.mutations
          ++ record { lsn = r.lsn; transaction_id = r.transaction_id; mutation = m } ∷ [];
    }))
]

unfoldable pub observe_all : List WalRecord → RecoveryState → Result WalError RecoveryState
observe_all [] s = ok s
observe_all (r ∷ rs) s = do t ← observe r s; observe_all rs t

abbrev pub status_of : TransactionAnalysis → TransactionStatus
status_of t = if t.committed then is_committed else if t.aborted then is_aborted else is_incomplete

abbrev pub count_status : TransactionStatus → RecoveryMetrics → RecoveryMetrics
count_status is_committed m = record m { committed_transactions = m.committed_transactions + 1 }
count_status is_aborted m = record m { aborted_transactions = m.aborted_transactions + 1 }
count_status is_incomplete m = record m { incomplete_transactions = m.incomplete_transactions + 1 }

-- The loop over the transactions: their statuses, and how many there are of each.
unfoldable pub classify :
    List (ℕ × TransactionAnalysis)
    → RecoveryMetrics
    → Result WalError (List (ℕ × TransactionAnalysis) × RecoveryMetrics)
classify [] m = ok ([], m)
classify ((k, t) ∷ ts) m = if t.committed && t.aborted then err conflicting_terminals else (do
  (rest, counted) ← classify ts (count_status (status_of t) m)
  ok ((k, record t { status = status_of t }) ∷ rest, counted))

abbrev first_lsn_of : List WalRecord → ℕ
first_lsn_of [] = 0
first_lsn_of (r ∷ rs) = r.lsn

abbrev last_lsn_of : Option ℕ → ℕ
last_lsn_of none = 0
last_lsn_of (some lsn) = lsn

abbrev pub no_metrics : ℕ → RecoveryMetrics
no_metrics bytes = record {
  wal_bytes_scanned = bytes;
  total_records = 0;
  transactions_observed = 0;
  committed_transactions = 0;
  aborted_transactions = 0;
  incomplete_transactions = 0;
  page_allocates = 0;
  physical_mutations = 0;
  first_lsn = 0;
  last_lsn = 0;
}

abbrev pub initial : List WalRecord → ℕ → RecoveryState
initial records bytes = record {
  records = records;
  allocations = [];
  mutations = [];
  transactions = [];
  metrics = no_metrics bytes;
}

-- The bytes of the file stand for its path.
unfoldable pub analyze : List ℕ → Result WalError RecoveryState
analyze file = do
  records ← read_records file
  s ← observe_all records (initial records (length file))
  (transactions, counted) ← classify s.transactions s.metrics
  ok (record s {
    transactions = transactions;
    metrics = record counted {
      total_records = length s.records;
      transactions_observed = length transactions;
      page_allocates = length s.allocations;
      physical_mutations = length s.mutations;
      first_lsn = first_lsn_of s.records;
      last_lsn = last_lsn_of (last_lsn s.records);
    };
  })
