-- ===== src/Transactions/Transaction.antt =====
-- Transaction of src/concurrency/transaction.cpp. A session is the transaction with what it reaches:
-- the pool over the page manager, the log, the lock manager, and its own mutation context.
use resume_project.Common.{
  ℕ, zero, suc, ◌+◌, Bool, true, false, not, ◌&&◌, ◌||◌, Option, none, some, List, [], ◌∷◌, ◌++◌,
  length, drop, get_elem?, get_or, set, ltb, ◌==◌, if◌then◌else◌, Result,
}
use resume_project.Common.Action.{
  Action, pure, gets, or_throw, throw_if, modify, ◌>>=◌, ◌>>◌, within,
}
use resume_project.Storage.Page.{PhysicalMutation}
use resume_project.Storage.Errors.{StorageError}
use resume_project.Storage.Wal.{WalError}
use resume_project.Storage.Log
use resume_project.Storage.Log.{Log, append_physical_mutation, append_page_allocate}
use resume_project.Storage.PageManager.{
  PageManager, reserve_page, activate_reserved_page, allocate_page, deallocate_page,
  is_page_allocated,
}
use resume_project.Buffer.Pool.Disk.{page_disk}
use resume_project.Buffer.Pool.Defs.{
  Pool, finalize_pending_mutation, restore_page_lsn_after_undo, resolve_pending_mutation,
}
use resume_project.Concurrency.LockManager.{LockManager}
use resume_project.Transactions.Errors.{
  EngineError, pages, wal, logger_returned_zero, nothing_to_finalize, invalid_undo_index,
  already_resolved, not_reverse_order, no_buffer_pool, abort_with_unfinished_capture,
}
use resume_project.Transactions.Capture.{
  MutationContext, Capture, new_context, pooled, apply_before_image,
}
use resume_project.Transactions.Context.{has_unfinished_capture}

-- `logged` tells whether there is a log sink; the lock manager has the state. The manager of the
-- allocated pages is set together with the first of them.
pub record Transaction : Type 0 where
  pub id : ℕ
  pub logged : Bool
  pub pending_mutations : List PhysicalMutation
  pub undo_resolved : List Bool
  pub finalized_mutations : ℕ
  pub allocated_pages : List ℕ

-- What `finalize_mutation` changes.
pub record Journal : Type 0 where
  pub log : Log
  pub transaction : Transaction

-- `context` is `mutation_context_`, which comes with the pool that it is for.
pub record Session : Type 0 where
  pub buffer : Pool PageManager
  pub log : Log
  pub locks : LockManager
  pub context : Option MutationContext
  pub transaction : Transaction

-- The pool asks the log for its durable LSN, if it was given the log.
abbrev provided : ℕ → Option ℕ → Option ℕ
provided lsn none = none
provided lsn (some d) = some lsn

abbrev pub put_log : Log → Session → Session
put_log log s = record s {
  log = log;
  buffer = record s.buffer { durable = provided log.durable_lsn s.buffer.durable };
}

abbrev pub on_pool :
    {A : Type 0} → Action (Pool PageManager) EngineError A → Action Session EngineError A
on_pool = within (λ s. s.buffer) (λ t s. record s { buffer = t }) (λ e. e)

abbrev pub on_log : {A : Type 0} → (Log → Result WalError A × Log) → Action Session EngineError A
on_log = within (λ s. s.log) put_log wal

abbrev pub put_pages : PageManager → Session → Session
put_pages t s = record s { buffer = record s.buffer { disk = t } }

abbrev pub on_pages :
    {A : Type 0}
    → (PageManager → Result StorageError A × PageManager)
    → Action Session EngineError A
on_pages = within (λ s. s.buffer.disk) put_pages pages

abbrev pub edit_transaction : (Transaction → Transaction) → Session → Session
edit_transaction f s = record s { transaction = f s.transaction }

abbrev or_new : Option MutationContext → MutationContext
or_new none = new_context
or_new (some c) = c

abbrev put_capture : Capture PageManager Journal → Session → Session
put_capture c s = record s {
  buffer = c.buffer;
  context = some c.context;
  log = c.owner.log;
  transaction = c.owner.transaction;
}

-- `mutation_context(pool)`, made on the first call, and one of its methods.
abbrev pub mutation_context :
    {A : Type 0} → Action (Capture PageManager Journal) EngineError A → Action Session EngineError A
mutation_context =
    within
      (λ s. record {
        buffer = s.buffer;
        context = or_new s.context;
        owner = record { log = s.log; transaction = s.transaction };
      })
      put_capture (λ e. e)

unfoldable pub has_open_capture : Session → Bool
has_open_capture s = elim s.context [ none ↦ false | some c ↦ has_unfinished_capture c ]

unfoldable pub has_unfinalized_mutations : Session → Bool
has_unfinalized_mutations s =
    has_open_capture s
    || not (s.transaction.finalized_mutations == length s.transaction.pending_mutations)

-- The loop over the mutations, which reads the flag of each.
unfoldable pub has_unresolved_from : List PhysicalMutation → List Bool → Bool
has_unresolved_from [] resolved = false
has_unresolved_from (m ∷ ms) [] = true
has_unresolved_from (m ∷ ms) (b ∷ bs) = not b || has_unresolved_from ms bs

unfoldable pub has_unresolved_mutations_for_abort : Session → Bool
has_unresolved_mutations_for_abort s =
    has_open_capture s
    || has_unresolved_from s.transaction.pending_mutations s.transaction.undo_resolved

abbrev on_journal_log :
    {A : Type 0} → (Log → Result WalError A × Log) → Action Journal EngineError A
on_journal_log = within (λ j. j.log) (λ log j. record j { log = log }) wal

unfoldable pub log_mutation : PhysicalMutation → Action Journal EngineError (Option ℕ)
log_mutation m = do
  t ← gets (λ j. j.transaction)
  lsn ← on_journal_log (append_physical_mutation t.id m)
  throw_if (lsn == 0) logger_returned_zero
  modify (λ j. record j {
    transaction = record j.transaction {
      finalized_mutations = j.transaction.finalized_mutations + 1;
    };
  })
  pure (some lsn)

unfoldable pub finalize_mutation : PhysicalMutation → Action Journal EngineError (Option ℕ)
unfolding log_mutation
finalize_mutation m = do
  modify (λ j. record j {
    transaction = record j.transaction {
      pending_mutations = j.transaction.pending_mutations ++ m ∷ [];
      undo_resolved = j.transaction.undo_resolved ++ false ∷ [];
    };
  })
  logged ← gets (λ j. j.transaction.logged)
  if logged then log_mutation m else pure none

-- The slot is durable in the log before it is in the catalog.
unfoldable pub allocate_transactional_page : ℕ → Action Session EngineError ℕ
allocate_transactional_page transaction_id = do
  id ← on_pages reserve_page
  _ ← on_log (append_page_allocate transaction_id id)
  on_log Log.flush
  on_pages (activate_reserved_page id)
  pure id

unfoldable pub transaction_page : Action Session EngineError ℕ
transaction_page = do
  t ← gets (λ s. s.transaction)
  id ← if t.logged then allocate_transactional_page t.id else on_pages allocate_page
  modify (edit_transaction (λ t. record t { allocated_pages = t.allocated_pages ++ id ∷ [] }))
  pure id

unfoldable pub finalize_next_mutation : ℕ → Action Session EngineError (Unit {0})
finalize_next_mutation lsn = do
  t ← gets (λ s. s.transaction)
  context ← gets (λ s. s.context)
  _ ← or_throw context nothing_to_finalize
  m ← or_throw (get_elem? t.pending_mutations t.finalized_mutations) nothing_to_finalize
  on_pool (pooled (finalize_pending_mutation m.page_id lsn))
  modify (edit_transaction (λ t. record t { finalized_mutations = t.finalized_mutations + 1 }))

unfoldable pub all_resolved : List Bool → Bool
all_resolved [] = true
all_resolved (b ∷ bs) = b && all_resolved bs

-- A mutation that has its LSN, and one that is still pending.
abbrev restore_lsn : Bool → ℕ → ℕ → Action Session EngineError (Unit {0})
restore_lsn true id lsn = on_pool (pooled (restore_page_lsn_after_undo id lsn))
restore_lsn false id lsn = on_pool (pooled (resolve_pending_mutation id lsn))

unfoldable pub resolve_mutation_for_undo : ℕ → ℕ → Action Session EngineError (Unit {0})
resolve_mutation_for_undo index restored = do
  t ← gets (λ s. s.transaction)
  context ← gets (λ s. s.context)
  _ ← or_throw context invalid_undo_index
  m ← or_throw (get_elem? t.pending_mutations index) invalid_undo_index
  throw_if (get_or t.undo_resolved index false) already_resolved
  throw_if (not (all_resolved (drop (index + 1) t.undo_resolved))) not_reverse_order
  restore_lsn (ltb index t.finalized_mutations) m.page_id restored
  modify (edit_transaction (λ t. record t { undo_resolved = set t.undo_resolved index true }))

unfoldable pub undo_mutation : ℕ → Action Session EngineError (Unit {0})
undo_mutation index = do
  context ← gets (λ s. s.context)
  _ ← or_throw context no_buffer_pool
  t ← gets (λ s. s.transaction)
  m ← or_throw (get_elem? t.pending_mutations index) invalid_undo_index
  on_pool (apply_before_image page_disk m)
  resolve_mutation_for_undo index m.previous_page_lsn

-- The loop of `rollback_for_abort`: the mutation `n - 1`, and then those before it.
unfoldable pub rollback_from : ℕ → Action Session EngineError (Unit {0})
rollback_from zero = pure tt
rollback_from (suc index) = do
  done ← gets (λ s. get_or s.transaction.undo_resolved index false)
  if done then pure tt else undo_mutation index
  rollback_from index

-- The allocated pages, the last one first.
unfoldable pub release_pages : List ℕ → Action Session EngineError (Unit {0})
release_pages [] = pure tt
release_pages (id ∷ ids) = do
  release_pages ids
  allocated ← gets (λ s. is_page_allocated s.buffer.disk id)
  if allocated then on_pages (deallocate_page id) else pure tt

unfoldable pub rollback_for_abort : Action Session EngineError (Unit {0})
rollback_for_abort = do
  unfinished ← gets has_open_capture
  throw_if unfinished abort_with_unfinished_capture
  count ← gets (λ s. length s.transaction.pending_mutations)
  rollback_from count
  allocated ← gets (λ s. s.transaction.allocated_pages)
  release_pages allocated
