-- ===== src/Transactions/Commit.antt =====
-- What a commit through the log leaves behind.
use resume_project.Common.{
  ℕ, ◌+◌, ◌≡◌, ◌≢◌, refl, sym, ap, ◌∙◌, subst, true, false, ◌⊎◌, inl, inr, some, List, [], ◌∷◌,
  ◌++◌, arith, Bool-cases, Result, ok, err, IsU64, outcome, later, whole, ==_self,
}
use resume_project.Storage.Wal.{WalRecord}
use resume_project.Storage.Wal
use resume_project.Storage.Wal.RoundTrip.{IsEncodable}
use resume_project.Storage.Log.{append_commit, flush}
use resume_project.Storage.Log.Append.{Holds, record_of, append-whole}
use resume_project.Concurrency.LockManager.{
  LockManager, TransactionState, growing, shrinking, committed, aborted, entry, set_state,
  release_all, finish, is_finished,
}
use resume_project.Concurrency.LockManager
use resume_project.Common.Action.{next}
use resume_project.Transactions.Errors.{EngineError, unlogged_mutations}
use resume_project.Transactions.Transaction.{Session, has_unfinalized_mutations, has_open_capture}
use resume_project.Transactions.Coordinator.{
  log_participant, prepare_commit, commit_prepared, state, commit,
}
use resume_project.Transactions.Forced.{
  AllDurable, then_flush, SameButLog, then_flush-SameButLog, then_flush-ok, append-IsDone,
}

abbrev pub commit_record : Session → WalRecord
commit_record s = record_of Wal.commit s.transaction.id [] s.log

commit_record-IsEncodable :
    (s : Session) (rs : List WalRecord)
    → Holds s.log rs
    → IsU64 s.transaction.id
    → IsEncodable (commit_record s)
commit_record-IsEncodable s rs h fits = record {
  lsn_fits = h.next_fits;
  lsn_set = h.next_set;
  transaction_fits = fits;
  payload_fits = omega arith;
}

prepare_commit-steps :
    (s : Session)
    → has_unfinalized_mutations s ≡ false
    → prepare_commit s ≡ then_flush s (append_commit s.transaction.id s.log)
unfolding prepare_commit
prepare_commit-steps s e = rw (e, prepare_commit) refl

prepare_commit-thrown :
    (s : Session)
    → has_unfinalized_mutations s ≡ true
    → (prepare_commit s).0 ≡ err unlogged_mutations
unfolding prepare_commit
prepare_commit-thrown s e = rw (e, prepare_commit) refl

prepare_commit-SameButLog : (s : Session) → SameButLog s (prepare_commit s).1
unfolding prepare_commit
prepare_commit-SameButLog s = elim (Bool-cases (has_unfinalized_mutations s)) [
  | inl bad ↦ rw (bad, prepare_commit) (refl, refl, refl, refl, refl, refl)
  | inr fine ↦ rw (prepare_commit-steps s fine) (then_flush-SameButLog s _)
]

prepare_commit-ok :
    (s : Session) (rs : List WalRecord)
    → Holds s.log rs
    → IsU64 (s.log.next_lsn + 1)
    → IsU64 s.transaction.id
    → (prepare_commit s).0 ≡ ok tt
    → AllDurable (prepare_commit s).1.log (rs ++ commit_record s ∷ [])
unfolding prepare_commit append_commit
prepare_commit-ok s rs h room fits e = elim (Bool-cases (has_unfinalized_mutations s)) [
  | inl bad ↦ absurd (ground (arith, prepare_commit-thrown s bad))
  | inr fine ↦
      let steps = prepare_commit-steps s fine in
      rw steps (
        then_flush-ok s (append_commit s.transaction.id s.log) _
          (append-IsDone Wal.commit s.transaction.id [] s.log rs
            (commit_record-IsEncodable s rs h fits) h room)
          (ap (λ q. q.0) (sym steps) ∙ e))
]

-- The lock manager's part: the state of the transaction, once it was not finished.
commit-state :
    (id : ℕ) (lm : LockManager)
    → is_finished (lm.states id) ≡ false
    → (LockManager.commit id lm).states id ≡ committed
unfolding LockManager.commit finish set_state release_all
commit-state id lm e = ground (arith, ==_self id)

commit-steps :
    (s : Session)
    → is_finished (state s) ≡ false
    → commit (some log_participant) s ≡ next (prepare_commit s) (λ u. commit_prepared)
unfolding commit
commit-steps s e = rw (e, commit) refl

commit_prepared-cases :
    (s : Session)
    → ((commit_prepared s).0 ≡ ok tt)
        × ((commit_prepared s).1 ≡ record s { locks = LockManager.commit s.transaction.id s.locks })
      ⊎ ((commit_prepared s).0 ≢ ok tt) × ((commit_prepared s).1 ≡ s)
unfolding commit_prepared
commit_prepared-cases s = elim (Bool-cases (has_unfinalized_mutations s)) [
  | inl bad ↦ inr (rw (bad, commit_prepared) (ground arith, refl))
  | inr fine ↦ inl (rw (fine, commit_prepared) (refl, refl))
]

-- When a commit through the log of a transaction that was not finished returns, on a log that
-- holds the records `rs` and has an LSN left, the log holds `rs` and the COMMIT record, every
-- record of it is durable, the transaction is committed, and the lock manager has committed it.
pub commit-AllDurable :
    (s s' : Session) (rs : List WalRecord)
    → Holds s.log rs
    → IsU64 (s.log.next_lsn + 1)
    → IsU64 s.transaction.id
    → is_finished (state s) ≡ false
    → commit (some log_participant) s ≡ (ok tt, s')
    → AllDurable s'.log (rs ++ commit_record s ∷ [])
      × (state s' ≡ committed)
      × (s'.locks ≡ LockManager.commit s.transaction.id s.locks)
commit-AllDurable s s' rs h room fits open_yet e =
    after (prepare_commit s) (prepare_commit-SameButLog s) (prepare_commit-ok s rs h room fits)
      (sym (commit-steps s open_yet) ∙ e)
  where
    after :
        (q : Result EngineError (Unit {0}) × Session)
        → SameButLog s q.1
        → (q.0 ≡ ok tt → AllDurable q.1.log (rs ++ commit_record s ∷ []))
        → next q (λ u. commit_prepared) ≡ (ok tt, s')
        → AllDurable s'.log (rs ++ commit_record s ∷ [])
          × (state s' ≡ committed)
          × (s'.locks ≡ LockManager.commit s.transaction.id s.locks)
    after (err x, t) same all r = absurd (ground (arith, r))
    after (ok u, t) (locks, transaction, _, _, _, _) all r = elim (commit_prepared-cases t) [
      | inl (done, left) ↦
          let end : s' ≡ record t { locks = LockManager.commit t.transaction.id t.locks } =
            ap (λ q. q.1) (sym r) ∙ left in
          rw (end, transaction, locks)
            (all refl, commit-state s.transaction.id s.locks open_yet, refl)
      | inr (bad, left) ↦ absurd (bad (ap (λ q. q.0) r))
    ]

-- A commit through the log that throws leaves the locks and the state of every transaction as they
-- were, and the transaction with its mutations.
pub commit-throws :
    (s : Session)
    → (commit (some log_participant) s).0 ≢ ok tt
    → ((commit (some log_participant) s).1.locks ≡ s.locks)
      × ((commit (some log_participant) s).1.transaction ≡ s.transaction)
unfolding commit
commit-throws s bad = elim (Bool-cases (is_finished (state s))) [
  | inl finished ↦ rw (finished, commit) (refl, refl)
  | inr open_yet ↦ rw (commit-steps s open_yet) (
      thrown (prepare_commit s) (prepare_commit-SameButLog s)
        (subst (λ q. q.0 ≢ ok tt) (commit-steps s open_yet) bad))
]
  where
    thrown :
        (q : Result EngineError (Unit {0}) × Session)
        → SameButLog s q.1
        → (next q (λ u. commit_prepared)).0 ≢ ok tt
        → ((next q (λ u. commit_prepared)).1.locks ≡ s.locks)
          × ((next q (λ u. commit_prepared)).1.transaction ≡ s.transaction)
    thrown (err x, t) (locks, transaction, _, _, _, _) r = (locks, transaction)
    thrown (ok u, t) (locks, transaction, _, _, _, _) r = elim (commit_prepared-cases t) [
      | inl (done, left) ↦ absurd (r done)
      | inr (failed, left) ↦ rw left (locks, transaction)
    ]

-- A commit through the log of a transaction that is not finished and has no unfinalized mutation
-- returns, on a well-formed log whose next two writes succeed and whose next flush is not forced
-- to fail.
pub commit-returns :
    (s : Session) (rs : List WalRecord)
    → Holds s.log rs
    → IsU64 s.transaction.id
    → is_finished (state s) ≡ false
    → has_unfinalized_mutations s ≡ false
    → s.log.fail_next_flush ≡ false
    → outcome s.log.stream ≡ whole
    → outcome (later s.log.stream) ≡ whole
    → (commit (some log_participant) s).0 ≡ ok tt
unfolding commit_prepared append_commit flush has_unfinalized_mutations has_open_capture
commit-returns s rs h fits open_yet fine calm first second =
    rw
      (
        commit-steps s open_yet,
        prepare_commit-steps s fine,
        append_commit,
        append-whole Wal.commit s.transaction.id [] s.log (commit_record-IsEncodable s rs h fits)
            first,
        flush,
        calm,
        second,
      )
      (ground (arith, fine))
