-- ===== src/Access.antt =====
-- The wrappers of include/ddb/concurrency/transactional_access.h: a lock first, then the call.
pub mod Granted
pub mod Pinned
mod Examples
use resume_project.Common.{ℕ, Bool, true, false, Option, none, some, List, Result, ok, err}
use resume_project.Common.Action.{Action, pure, gets, or_throw, modify, ◌>>=◌, ◌>>◌, within}
use resume_project.Buffer.Pool.Disk.{page_disk}
use resume_project.Buffer.Pool.Defs.{unpin_page}
use resume_project.Buffer.Pool.Io.{fetch_page}
use resume_project.Concurrency.LockManager.{
  LockManager, LockMode, shared, exclusive, Outcome, granted, refused, blocked, lock,
}
use resume_project.Transactions.Errors.{EngineError, cannot_pin_read_page, cannot_pin_write_page}
use resume_project.Transactions.Capture.{pooled}
use resume_project.Transactions.Transaction.{Session, on_pool}
use resume_project.Index.Node.{RecordId}
use resume_project.Index.Tree.{Tree, TreeAction}
use resume_project.Index.Tree
use resume_project.Index.Tree.Search.{get_value}
use resume_project.Index.Tree.Insert.{insert_in_transaction}
use resume_project.Index.Tree.Remove.{remove_in_transaction}
use resume_project.Execution.Tuple.{Value}
use resume_project.Execution.TableHeap.{Heap, HeapAction, on_access, get, erase_in_transaction}
use resume_project.Execution.TableHeap
use resume_project.Execution.TableHeap.Reach

-- A call behind a lock: the lock is refused, or the caller waits for it, or the call was made.
pub data Locked (A : Type 0) : Type 0 where
  denied : Locked A
  waiting : Locked A
  done : A → Locked A

-- The lock of the session's own transaction.
unfoldable pub acquire : ℕ → LockMode → Action Session EngineError Outcome
acquire resource mode s =
    let (outcome, locks) = lock s.transaction.id resource mode s.locks in
    (ok outcome, record s { locks = locks })

-- `if (!locks_.lock_...(tx, resource)) return {};` and what follows.
unfoldable pub after_lock :
    {S A : Type 0} → Action S EngineError A → Outcome → Action S EngineError (Locked A)
after_lock m refused = pure denied
after_lock m blocked = pure waiting
after_lock m granted = m >>= λ a. pure (done a)

unfoldable pub behind_lock :
    {S A : Type 0}
    → Action S EngineError Outcome
    → Action S EngineError A
    → Action S EngineError (Locked A)
unfolding after_lock
behind_lock locked m = locked >>= after_lock m

-- `LockedPage`: a pin that the destructor gives back.
pub record LockedPage : Type 0 where
  pub id : ℕ
  pub frame : ℕ
  pub dirty : Bool

unfoldable pub pin_page : ℕ → Bool → EngineError → Action Session EngineError LockedPage
pin_page id dirty error = do
  fetched ← on_pool (pooled (fetch_page page_disk id))
  f ← or_throw fetched error
  pure (record { id = id; frame = f; dirty = dirty })

-- TransactionalBufferPool
unfoldable pub read : ℕ → Action Session EngineError (Locked LockedPage)
read id = behind_lock (acquire id shared) (pin_page id false cannot_pin_read_page)

unfoldable pub write : ℕ → Action Session EngineError (Locked LockedPage)
write id = behind_lock (acquire id exclusive) (pin_page id true cannot_pin_write_page)

-- The destructor of `LockedPage`; a failed unpin terminates the program.
unfoldable pub close_page : LockedPage → Action Session EngineError Bool
close_page p = on_pool (pooled (unpin_page p.id p.dirty))

abbrev heap_lock : ℕ → LockMode → HeapAction Outcome
heap_lock resource mode = on_access (Reach.in_session (acquire resource mode))

-- TransactionalTableHeap
unfoldable pub get_tuple : RecordId → HeapAction (Locked (Option (List Value)))
get_tuple r = behind_lock (heap_lock r.page_id shared) (get r)

unfoldable pub insert_tuple : List Value → HeapAction (Locked (Option RecordId))
insert_tuple t = do
  id ← gets (λ h. h.metadata_page_id)
  behind_lock (heap_lock id exclusive) (TableHeap.insert_in_transaction t)

unfoldable pub erase_tuple : RecordId → HeapAction (Locked Bool)
erase_tuple r = behind_lock (heap_lock r.page_id exclusive) (erase_in_transaction r)

abbrev tree_lock : LockMode → TreeAction Outcome
tree_lock mode = do id ← gets (λ t. t.metadata_page_id); Tree.in_session (acquire id mode)

-- TransactionalBPlusTree
unfoldable pub get_key : ℕ → ℕ → TreeAction (Locked (Option RecordId))
get_key fuel key = behind_lock (tree_lock shared) (get_value fuel key)

unfoldable pub insert_key : ℕ → ℕ → RecordId → TreeAction (Locked Bool)
insert_key fuel key value = behind_lock (tree_lock exclusive) (insert_in_transaction fuel key value)

unfoldable pub remove_key : ℕ → ℕ → TreeAction (Locked Bool)
remove_key fuel key = behind_lock (tree_lock exclusive) (remove_in_transaction fuel key)
