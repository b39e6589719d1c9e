-- ===== src/Transactions/Coordinator.antt =====
-- src/concurrency/transaction_coordinator.cpp, the part of LogManager of src/storage/log_manager.cpp
-- that it calls, and the start of a transaction in include/ddb/concurrency/transaction.h.
use resume_project.Common.{
  ℕ, ◌+◌, ◌%◌, ◌^◌, Bool, true, false, Option, none, some, [], if◌then◌else◌, ok, then_do,
}
use resume_project.Common.Action.{Action, pure, gets, throw_if, modify, ◌>>=◌, ◌>>◌, within}
use resume_project.Storage.Wal.{WalError}
use resume_project.Storage.Log
use resume_project.Storage.Log.{Log, append_begin, append_commit, append_abort}
use resume_project.Concurrency.LockManager
use resume_project.Concurrency.LockManager.{LockManager, TransactionState, is_finished}
use resume_project.Transactions.Errors.{
  EngineError, unlogged_mutations, unresolved_mutations, commit_unfinalized, abort_unresolved,
}
use resume_project.Transactions.Transaction.{
  Session, Transaction, on_log, has_unfinalized_mutations, has_unresolved_mutations_for_abort,
  rollback_for_abort,
}

-- `TransactionDurabilityParticipant`
pub record Participant : Type 0 where
  pub prepare_commit : Action Session EngineError (Unit {0})
  pub prepare_abort : Action Session EngineError (Unit {0})

unfoldable pub prepare_commit : Action Session EngineError (Unit {0})
prepare_commit = do
  unfinalized ← gets has_unfinalized_mutations
  throw_if unfinalized unlogged_mutations
  id ← gets (λ s. s.transaction.id)
  _ ← on_log (append_commit id)
  on_log Log.flush

unfoldable pub prepare_abort : Action Session EngineError (Unit {0})
prepare_abort = do
  rollback_for_abort
  unresolved ← gets has_unresolved_mutations_for_abort
  throw_if unresolved unresolved_mutations
  id ← gets (λ s. s.transaction.id)
  _ ← on_log (append_abort id)
  on_log Log.flush

-- The log as a participant.
abbrev pub log_participant : Participant
log_participant = record { prepare_commit = prepare_commit; prepare_abort = prepare_abort }

abbrev pub state : Session → TransactionState
state s = s.locks.states s.transaction.id

abbrev edit_locks : (LockManager → LockManager) → Session → Session
edit_locks f s = record s { locks = f s.locks }

abbrev commit_of : Option Participant → Action Session EngineError (Unit {0})
commit_of none = pure tt
commit_of (some p) = p.prepare_commit

abbrev abort_of : Option Participant → Action Session EngineError (Unit {0})
abort_of none = pure tt
abort_of (some p) = p.prepare_abort

unfoldable pub commit_prepared : Action Session EngineError (Unit {0})
commit_prepared = do
  unfinalized ← gets has_unfinalized_mutations
  throw_if unfinalized commit_unfinalized
  modify (λ s. edit_locks (LockManager.commit s.transaction.id) s)

unfoldable pub abort_prepared : Action Session EngineError (Unit {0})
abort_prepared = do
  unresolved ← gets has_unresolved_mutations_for_abort
  throw_if unresolved abort_unresolved
  modify (λ s. edit_locks (LockManager.abort s.transaction.id) s)

unfoldable pub commit : Option Participant → Action Session EngineError (Unit {0})
unfolding commit_prepared
commit participant = do
  finished ← gets (λ s. is_finished (state s))
  if finished then pure tt else (commit_of participant >> commit_prepared)

unfoldable pub abort : Option Participant → Action Session EngineError (Unit {0})
unfolding abort_prepared
abort participant = do
  finished ← gets (λ s. is_finished (state s))
  if finished then pure tt else (abort_of participant >> abort_prepared)

-- `TransactionManager`: the next id, and the log, if it writes one.
pub record TransactionManager : Type 0 where
  pub next_id : ℕ
  pub log : Option Log

-- The id is taken also when the log throws.
unfoldable pub begins : Action TransactionManager WalError Transaction
begins tm =
    let fresh : Bool → Transaction = λ logged. record {
      id = tm.next_id;
      logged = logged;
      pending_mutations = [];
      undo_resolved = [];
      finalized_mutations = 0;
      allocated_pages = [];
    } in
    let taken = record tm { next_id = (tm.next_id + 1) % 2 ^ 64 } in
    elim tm.log [
      | none ↦ (ok (fresh false), taken)
      | some log ↦
          within (λ s. log) (λ t s. record s { log = some t }) (λ e. e)
            (λ l. then_do (append_begin tm.next_id l) (λ lsn t. (ok (fresh true), t))) taken
    ]
