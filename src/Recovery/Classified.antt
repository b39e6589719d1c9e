-- ===== src/Recovery/Classified.antt =====
-- What an analysis that returns says of the log (src/recovery/recovery_analysis.cpp): who committed,
-- who aborted and who did neither.
use resume_project.Common.{
  ℕ, ◌+◌, ◌≡◌, refl, Bool, true, false, ◌&&◌, ◌||◌, Option, none, some, List, [], ◌∷◌, ◌++◌, length,
  ◌==◌, if◌then◌else◌, arith, ok, Result-cases, inl, inr,
}
use resume_project.Storage.Wal.{
  WalRecord, RecordType, commit, begins, abort, page_allocate, physical_mutation,
}
use resume_project.Storage.Wal.Scan.{read_records}
use resume_project.Recovery.Analysis.{
  TransactionAnalysis, TransactionStatus, is_committed, is_aborted, is_incomplete, RecoveryState,
  RecoveryMetrics, status_of, count_status, change, new_analysis, observe, observe_all, classify,
  analyze, validate_empty_payload, initial,
}

abbrev pub any_kind : RecordType → Bool
any_kind type = true

abbrev pub is_commit : RecordType → Bool
is_commit type = elim type [
  | begins ↦ false
  | physical_mutation ↦ false
  | commit ↦ true
  | abort ↦ false
  | page_allocate ↦ false
]

abbrev pub is_abort : RecordType → Bool
is_abort type = elim type [
  | begins ↦ false
  | physical_mutation ↦ false
  | commit ↦ false
  | abort ↦ true
  | page_allocate ↦ false
]

-- The log has a record of the transaction, of such a kind.
unfoldable pub logged : (RecordType → Bool) → ℕ → List WalRecord → Bool
logged kind id [] = false
logged kind id (r ∷ rs) = (kind r.type && r.transaction_id == id) || logged kind id rs

-- What the log says of a transaction.
unfoldable pub logged_status : ℕ → List WalRecord → Option TransactionStatus
logged_status id rs =
    if logged is_commit id rs
    then some is_committed
    else if logged is_abort id rs
    then some is_aborted
    else if logged any_kind id rs
    then some is_incomplete
    else none

-- What the analysis says of it.
unfoldable pub status_in : List (ℕ × TransactionAnalysis) → ℕ → Option TransactionStatus
status_in [] id = none
status_in ((k, t) ∷ ts) id = if k == id then some t.status else status_in ts id

-- How many transactions have the status.
unfoldable pub tally : (TransactionStatus → ℕ) → List (ℕ × TransactionAnalysis) → ℕ
tally one [] = 0
tally one ((k, t) ∷ ts) = one t.status + tally one ts

abbrev pub one_if_committed : TransactionStatus → ℕ
one_if_committed s = elim s [ is_committed ↦ 1 | is_aborted ↦ 0 | is_incomplete ↦ 0 ]

abbrev pub one_if_aborted : TransactionStatus → ℕ
one_if_aborted s = elim s [ is_committed ↦ 0 | is_aborted ↦ 1 | is_incomplete ↦ 0 ]

abbrev pub one_if_incomplete : TransactionStatus → ℕ
one_if_incomplete s = elim s [ is_committed ↦ 0 | is_aborted ↦ 0 | is_incomplete ↦ 1 ]

-- A flag of the transaction's entry, false where there is none.
flag : (TransactionAnalysis → Bool) → List (ℕ × TransactionAnalysis) → ℕ → Bool
flag g [] id = false
flag g ((k, t) ∷ ts) id = if k == id then g t else flag g ts id

flag-change :
    (g : TransactionAnalysis → Bool) (b : Bool) (id j : ℕ)
    (f : TransactionAnalysis → TransactionAnalysis) (ts : List (ℕ × TransactionAnalysis))
    → ((t : TransactionAnalysis) → g (f t) ≡ (g t || b))
    → g (f (new_analysis id)) ≡ b
    → flag g (change id f ts) j ≡ (flag g ts j || (b && id == j))
unfolding flag change
flag-change g b id j f [] sets fresh = ground (arith, fresh)
flag-change g b id j f ((k, t) ∷ ts) sets fresh =
    ground (arith, sets t, flag-change g b id j f ts sets fresh)

-- One record changes the entry of its transaction.
record IsNoted (r : WalRecord) (s t : RecoveryState) : Type 0 where
  how : TransactionAnalysis → TransactionAnalysis
  table : t.transactions ≡ change r.transaction_id how s.transactions
  commits : (a : TransactionAnalysis) → (how a).committed ≡ (a.committed || is_commit r.type)
  aborts : (a : TransactionAnalysis) → (how a).aborted ≡ (a.aborted || is_abort r.type)

observe-IsNoted : (r : WalRecord) (s t : RecoveryState) → observe r s ≡ ok t → IsNoted r s t
unfolding observe validate_empty_payload
observe-IsNoted r s t = go r.type refl
  where
    go : (ty : RecordType) → r.type ≡ ty → observe r s ≡ ok t → IsNoted r s t
    go begins e done = record {
      how = λ a. record a { began = true };
      table = ground (arith, e, done);
      commits = λ a. ground (arith, e);
      aborts = λ a. ground (arith, e);
    }
    go commit e done = record {
      how = λ a. record a { committed = true };
      table = ground (arith, e, done);
      commits = λ a. ground (arith, e);
      aborts = λ a. ground (arith, e);
    }
    go abort e done = record {
      how = λ a. record a { aborted = true };
      table = ground (arith, e, done);
      commits = λ a. ground (arith, e);
      aborts = λ a. ground (arith, e);
    }
    go page_allocate e done = record {
      how =
          λ a. record a { allocation_indexes = a.allocation_indexes ++ length s.allocations ∷ [] };
      table = ground (arith, e, done);
      commits = λ a. ground (arith, e);
      aborts = λ a. ground (arith, e);
    }
    go physical_mutation e done = record {
      how = λ a. record a { mutation_indexes = a.mutation_indexes ++ length s.mutations ∷ [] };
      table = ground (arith, e, done);
      commits = λ a. ground (arith, e);
      aborts = λ a. ground (arith, e);
    }

-- The three flags of an entry after the records.
record IsFlagged (id : ℕ) (rs : List WalRecord) (s t : List (ℕ × TransactionAnalysis))
    : Type 0 where
  present : flag (λ a. true) t id ≡ (flag (λ a. true) s id || logged any_kind id rs)
  commits : flag (λ a. a.committed) t id ≡ (flag (λ a. a.committed) s id || logged is_commit id rs)
  aborts : flag (λ a. a.aborted) t id ≡ (flag (λ a. a.aborted) s id || logged is_abort id rs)

observe_all-IsFlagged :
    (id : ℕ) (rs : List WalRecord) (s t : RecoveryState)
    → observe_all rs s ≡ ok t
    → IsFlagged id rs s.transactions t.transactions
unfolding observe_all logged
observe_all-IsFlagged id [] s t e = record {
  present = ground (arith, e);
  commits = ground (arith, e);
  aborts = ground (arith, e);
}
observe_all-IsFlagged id (r ∷ rs) s t e = elim (Result-cases (observe r s)) [
  | inr (x, thrown) ↦ absurd (ground (arith, thrown))
  | inl (u, done) ↦
      let n = observe-IsNoted r s u done in
      let rest = observe_all-IsFlagged id rs u t (ground (arith, e, done)) in
      let own = r.transaction_id in
      record {
        present = ground (
          arith,
          n.table,
          rest.present,
          flag-change (λ a. true) true own id n.how s.transactions (λ a. ground arith) refl,
        );
        commits = ground (
          arith,
          n.table,
          rest.commits,
          flag-change (λ a. a.committed) (is_commit r.type) own id n.how s.transactions n.commits
              (n.commits (new_analysis own)),
        );
        aborts = ground (
          arith,
          n.table,
          rest.aborts,
          flag-change (λ a. a.aborted) (is_abort r.type) own id n.how s.transactions n.aborts
              (n.aborts (new_analysis own)),
        );
      }
]

-- The status by the flags of the entry.
IsDecided : ℕ → List (ℕ × TransactionAnalysis) → List (ℕ × TransactionAnalysis) → Type 0
IsDecided id ts out =
    (status_in out id ≡ (
      if flag (λ a. a.committed) ts id
      then some is_committed
      else if flag (λ a. a.aborted) ts id
      then some is_aborted
      else if flag (λ a. true) ts id
      then some is_incomplete
      else none))
    × ((flag (λ a. a.committed) ts id && flag (λ a. a.aborted) ts id) ≡ false)

record IsCounted (ts : List (ℕ × TransactionAnalysis)) (m n : RecoveryMetrics) : Type 0 where
  commits : n.committed_transactions ≡ m.committed_transactions + tally one_if_committed ts
  aborts : n.aborted_transactions ≡ m.aborted_transactions + tally one_if_aborted ts
  others : n.incomplete_transactions ≡ m.incomplete_transactions + tally one_if_incomplete ts

classify-cons :
    (k : ℕ) (t : TransactionAnalysis) (ts out rest : List (ℕ × TransactionAnalysis))
    (m counted n : RecoveryMetrics)
    → classify ((k, t) ∷ ts) m ≡ ok (out, counted)
    → classify ts (count_status (status_of t) m) ≡ ok (rest, n)
    → (out ≡ (k, record t { status = status_of t }) ∷ rest)
      × (counted ≡ n)
      × ((t.committed && t.aborted) ≡ false)
unfolding classify
classify-cons k t ts out rest m counted n e done = ground arith

classify_lem :
    (id : ℕ) (ts out : List (ℕ × TransactionAnalysis)) (m counted : RecoveryMetrics)
    → classify ts m ≡ ok (out, counted)
    → IsDecided id ts out × IsCounted out m counted
unfolding classify flag status_in tally IsDecided
classify_lem id [] [] m counted e =
    ((refl, refl), record { commits = ground arith; aborts = ground arith; others = ground arith })
classify_lem id [] (o ∷ out) m counted e = cc
classify_lem id ((k, t) ∷ ts) out m counted e =
    elim (Result-cases (classify ts (count_status (status_of t) m))) [
      | inr (x, thrown) ↦ absurd (ground (arith, thrown))
      | inl ((rest, n), done) ↦
          let (shape, same, clean) = classify-cons k t ts out rest m counted n e done in
          let (decided, counts) = classify_lem id ts rest (count_status (status_of t) m) n done in
          rw (shape, same)
            (
              (ground (arith, decided, clean), ground (arith, decided, clean)),
              record {
                commits = ground (arith, counts.commits);
                aborts = ground (arith, counts.aborts);
                others = ground (arith, counts.others);
              },
            )
    ]

observe-records :
    (r : WalRecord) (s t : RecoveryState)
    → observe r s ≡ ok t
    → (t.records ≡ s.records) × (t.metrics ≡ s.metrics)
unfolding observe validate_empty_payload
observe-records r s t e = ground arith

observe_all-records :
    (rs : List WalRecord) (s t : RecoveryState)
    → observe_all rs s ≡ ok t
    → (t.records ≡ s.records) × (t.metrics ≡ s.metrics)
unfolding observe_all
observe_all-records [] s t e = ground arith
observe_all-records (r ∷ rs) s t e = elim (Result-cases (observe r s)) [
  | inr (x, thrown) ↦ absurd (ground (arith, thrown))
  | inl (u, done) ↦ ground (arith, observe-records r s u, observe_all-records rs u t)
]

-- When the analysis of a log file returns, its records are the ones that the file holds; for every
-- id, the status is committed if these have a COMMIT record of the id, else aborted if they have
-- an ABORT record of it, else incomplete if they have any record of it, and there is none
-- otherwise; they do not have both a COMMIT and an ABORT record of it; and the three counts are
-- the numbers of transactions with these statuses, and that of the observed ones is the number of
-- all of them.
pub analyze_lem :
    (file : List ℕ) (s : RecoveryState) (id : ℕ)
    → analyze file ≡ ok s
    → (read_records file ≡ ok s.records)
      × (status_in s.transactions id ≡ logged_status id s.records)
      × ((logged is_commit id s.records && logged is_abort id s.records) ≡ false)
      × (s.metrics.committed_transactions ≡ tally one_if_committed s.transactions)
      × (s.metrics.aborted_transactions ≡ tally one_if_aborted s.transactions)
      × (s.metrics.incomplete_transactions ≡ tally one_if_incomplete s.transactions)
      × (s.metrics.transactions_observed ≡ length s.transactions)
unfolding analyze flag logged_status IsDecided
analyze_lem file s id e = elim (Result-cases (read_records file)) [
  | inr (x, thrown) ↦ absurd (ground (arith, thrown))
  | inl (records, read) ↦
      elim (Result-cases (observe_all records (initial records (length file)))) [
        | inr (x, thrown) ↦ absurd (ground (arith, read, thrown))
        | inl (u, seen) ↦ elim (Result-cases (classify u.transactions u.metrics)) [
          | inr (x, thrown) ↦ absurd (ground (arith, read, seen, thrown))
          | inl ((ts, n), done) ↦
              let start = initial records (length file) in
              let kept = observe_all-records records start u seen in
              let flags = observe_all-IsFlagged id records start u seen in
              let (decided, counts) = classify_lem id u.transactions ts u.metrics n done in
              let shape : (s.records ≡ u.records)
                  × (s.transactions ≡ ts)
                  × (s.metrics.committed_transactions ≡ n.committed_transactions)
                  × (s.metrics.aborted_transactions ≡ n.aborted_transactions)
                  × (s.metrics.incomplete_transactions ≡ n.incomplete_transactions)
                  × (s.metrics.transactions_observed ≡ length ts) =
                ground (arith, read, seen, done) in
              (
                rw (read, shape.0, kept.0) refl,
                rw (shape.0, shape.1, kept.0)
                    (ground (arith, decided, flags.present, flags.commits, flags.aborts)),
                rw (shape.0, kept.0) (ground (arith, decided, flags.commits, flags.aborts)),
                rw (shape.1, shape.2, counts.commits, kept.1) (omega arith),
                rw (shape.1, shape.3, counts.aborts, kept.1) (omega arith),
                rw (shape.1, shape.4, counts.others, kept.1) (omega arith),
                rw shape.1 shape.5,
              )
        ]
      ]
]
