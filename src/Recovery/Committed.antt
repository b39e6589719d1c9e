-- ===== src/Recovery/Committed.antt =====
-- A transaction with a COMMIT record is committed for src/recovery/recovery_analysis.cpp, wherever in
-- the log the record stands.
use resume_project.Common.{
  ℕ, ◌≡◌, refl, true, some, List, [], ◌∷◌, ◌++◌, length, ◌==◌, ==_self, arith, ok, Result-cases,
  Bool-cases, inl, inr, subst, ◌⊎◌, ◌&&◌,
}
use resume_project.Storage.Wal.{
  WalRecord, RecordType, commit, begins, abort, page_allocate, physical_mutation,
}
use resume_project.Storage.Wal.Scan.{read_records}
use resume_project.Recovery.Analysis.{
  RecoveryState, RecoveryMetrics, TransactionAnalysis, is_committed, transaction, change, observe,
  observe_all, initial, classify, new_analysis, status_of, count_status, analyze,
  validate_empty_payload,
}

-- The log's transaction `id` has its flag for COMMIT.
abbrev IsMarked : ℕ → List (ℕ × TransactionAnalysis) → Type 0
IsMarked id ts = (t : TransactionAnalysis) × (transaction ts id ≡ some t) × (t.committed ≡ true)

change_self :
    (id : ℕ) (f : TransactionAnalysis → TransactionAnalysis) (m : List (ℕ × TransactionAnalysis))
    → ((t : TransactionAnalysis) → (f t).committed ≡ true)
    → IsMarked id (change id f m)
unfolding change transaction
change_self id f [] marks = (f (new_analysis id), rw (==_self id) refl, marks (new_analysis id))
change_self id f ((k, t) ∷ m) marks = elim (Bool-cases (k == id)) [
  | inl same ↦ (f t, rw (same, change, transaction) (ground (arith, same)), marks t)
  | inr other ↦
      let (u, found, flag) = change_self id f m marks in
      (u, simp (change, transaction, other, found) refl, flag)
]

change-keeps :
    (id j : ℕ) (f : TransactionAnalysis → TransactionAnalysis) (m : List (ℕ × TransactionAnalysis))
    → ((t : TransactionAnalysis) → t.committed ≡ true → (f t).committed ≡ true)
    → IsMarked j m
    → IsMarked j (change id f m)
unfolding change transaction
change-keeps id j f [] keeps (u, found, flag) = absurd (ground arith)
change-keeps id j f ((k, t) ∷ m) keeps (u, found, flag) = elim (Bool-cases (k == j)) [
  | inl here ↦
      let same : t ≡ u = ground (arith, found, here) in
      elim (Bool-cases (k == id)) [
        | inl changed ↦
            (f t, simp (change, transaction, changed, here) refl, keeps t (rw same flag))
        | inr kept ↦ (u, simp (change, transaction, kept, here, same) refl, flag)
      ]
  | inr there ↦
      let (v, back, still) = change-keeps id j f m keeps (u, ground (arith, found, there), flag) in
      elim (Bool-cases (k == id)) [
        | inl changed ↦
            (u, simp (change, transaction, changed, there) (ground (arith, found, there)), flag)
        | inr kept ↦ (v, simp (change, transaction, kept, there, back) refl, still)
      ]
]

-- What one record does to the table: a change of its transaction, which marks it for a COMMIT and
-- takes no mark away.
record IsChange (r : WalRecord) (s t : RecoveryState) : Type 0 where
  how : TransactionAnalysis → TransactionAnalysis
  table : t.transactions ≡ change r.transaction_id how s.transactions
  keeps : (a : TransactionAnalysis) → a.committed ≡ true → (how a).committed ≡ true
  marks : r.type ≡ commit → (a : TransactionAnalysis) → (how a).committed ≡ true

observe-IsChange : (r : WalRecord) (s t : RecoveryState) → observe r s ≡ ok t → IsChange r s t
unfolding observe validate_empty_payload
observe-IsChange r s t = go r.type refl
  where
    go : (ty : RecordType) → r.type ≡ ty → observe r s ≡ ok t → IsChange r s t
    go begins e done = record {
      how = λ a. record a { began = true };
      table = ground (arith, e, done);
      keeps = λ a h. h;
      marks = λ c a. absurd (ground (arith, e, c));
    }
    go commit e done = record {
      how = λ a. record a { committed = true };
      table = ground (arith, e, done);
      keeps = λ a h. refl;
      marks = λ c a. refl;
    }
    go abort e done = record {
      how = λ a. record a { aborted = true };
      table = ground (arith, e, done);
      keeps = λ a h. h;
      marks = λ c a. absurd (ground (arith, e, c));
    }
    go page_allocate e done = record {
      how =
          λ a. record a { allocation_indexes = a.allocation_indexes ++ length s.allocations ∷ [] };
      table = ground (arith, e, done);
      keeps = λ a h. h;
      marks = λ c a. absurd (ground (arith, e, c));
    }
    go physical_mutation e done = record {
      how = λ a. record a { mutation_indexes = a.mutation_indexes ++ length s.mutations ∷ [] };
      table = ground (arith, e, done);
      keeps = λ a h. h;
      marks = λ c a. absurd (ground (arith, e, c));
    }

-- A COMMIT record anywhere in the list.
abbrev pub HasCommit : ℕ → List WalRecord → Type 0
HasCommit id [] = ⊥
HasCommit id (r ∷ rs) = ((r.type ≡ commit) × (r.transaction_id ≡ id)) ⊎ HasCommit id rs

observe_all-keeps :
    (id : ℕ) (rs : List WalRecord) (s t : RecoveryState)
    → observe_all rs s ≡ ok t
    → IsMarked id s.transactions
    → IsMarked id t.transactions
unfolding observe_all
observe_all-keeps id [] s t e m =
    let same : s ≡ t = cc in subst (λ u. IsMarked id u.transactions) same m
observe_all-keeps id (r ∷ rs) s t e m = elim (Result-cases (observe r s)) [
  | inr (x, thrown) ↦ absurd (ground (arith, thrown))
  | inl (u, done) ↦
      let c = observe-IsChange r s u done in
      observe_all-keeps id rs u t (ground (arith, e, done))
        (rw c.table (change-keeps r.transaction_id id c.how s.transactions c.keeps m))
]

observe_all-marks :
    (id : ℕ) (rs : List WalRecord) (s t : RecoveryState)
    → observe_all rs s ≡ ok t
    → HasCommit id rs
    → IsMarked id t.transactions
unfolding observe_all
observe_all-marks id [] s t e h = absurd h
observe_all-marks id (r ∷ rs) s t e h = elim (Result-cases (observe r s)) [
  | inr (x, thrown) ↦ absurd (ground (arith, thrown))
  | inl (u, done) ↦
      let rest : observe_all rs u ≡ ok t = ground (arith, e, done) in
      elim h [
        | inr later ↦ observe_all-marks id rs u t rest later
        | inl (terminal, own) ↦
            let c = observe-IsChange r s u done in
            observe_all-keeps id rs u t rest (
              rw c.table (
                subst (λ k. IsMarked k (change r.transaction_id c.how s.transactions)) own
                  (change_self r.transaction_id c.how s.transactions (c.marks terminal))))
      ]
]

-- The status that the classification gives a marked transaction.
abbrev pub IsCommitted : ℕ → List (ℕ × TransactionAnalysis) → Type 0
IsCommitted id ts =
    (t : TransactionAnalysis) × (transaction ts id ≡ some t) × (t.status ≡ is_committed)

classify-IsCommitted :
    (id : ℕ) (ts out : List (ℕ × TransactionAnalysis)) (m n : RecoveryMetrics)
    → classify ts m ≡ ok (out, n)
    → IsMarked id ts
    → IsCommitted id out
unfolding classify transaction
classify-IsCommitted id [] out m n e (u, found, flag) = absurd (ground arith)
classify-IsCommitted id ((k, t) ∷ ts) out m n e (u, found, flag) =
    elim (Bool-cases (t.committed && t.aborted)) [
      | inl both ↦ absurd (ground (arith, both, e))
      | inr fine ↦ elim (Result-cases (classify ts (count_status (status_of t) m))) [
        | inr (x, thrown) ↦ absurd (ground (arith, e, fine, thrown))
        | inl ((rest, counted), done) ↦
            let whole : (k, record t { status = status_of t }) ∷ rest ≡ out =
              ground (arith, e, fine, done) in
            subst (λ o. IsCommitted id o) whole
              (elim (Bool-cases (k == id)) [
                | inl here ↦
                    let same : t ≡ u = ground (arith, found, here) in
                    (
                      record t { status = status_of t },
                      rw (here, transaction) refl,
                      rw (same, flag) refl,
                    )
                | inr there ↦
                    let (v, back, status) =
                      classify-IsCommitted id ts rest (count_status (status_of t) m) counted done
                        (u, ground (arith, found, there), flag) in
                    (v, simp (transaction, there, back) refl, status)
              ])
      ]
    ]

pub analyze-IsCommitted :
    (id : ℕ) (file : List ℕ) (rs : List WalRecord) (s : RecoveryState)
    → read_records file ≡ ok rs
    → HasCommit id rs
    → analyze file ≡ ok s
    → IsCommitted id s.transactions
unfolding analyze
analyze-IsCommitted id file rs s read h e =
    elim (Result-cases (observe_all rs (initial rs (length file)))) [
      | inr (x, thrown) ↦ absurd (ground (arith, e, read, thrown))
      | inl (u, seen) ↦ elim (Result-cases (classify u.transactions u.metrics)) [
        | inr (x, thrown) ↦ absurd (ground (arith, e, read, seen, thrown))
        | inl ((ts, n), done) ↦
            let same : ts ≡ s.transactions = ground (arith, e, read, seen, done) in
            subst (λ o. IsCommitted id o) same
              (classify-IsCommitted id u.transactions ts u.metrics n done
                (observe_all-marks id rs (initial rs (length file)) u seen h))
      ]
    ]

pub HasCommit-append : (id : ℕ) (rs qs : List WalRecord) → HasCommit id rs → HasCommit id (rs ++ qs)
HasCommit-append id [] qs h = absurd h
HasCommit-append id (r ∷ rs) qs (inl here) = inl here
HasCommit-append id (r ∷ rs) qs (inr later) = inr (HasCommit-append id rs qs later)
