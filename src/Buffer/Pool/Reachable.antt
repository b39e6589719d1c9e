-- ===== src/Buffer/Pool/Reachable.antt =====
-- The pool as a state machine: each call of a public method is a step, whether it returns or throws.
use resume_project.Common.{ℕ, Bool, Option}
use resume_project.Buffer.Pool.Disk.{Disk}
use resume_project.Buffer.Pool.Defs.{
  Pool, create, unpin_page, mark_mutation_pending, finalize_pending_mutation,
  resolve_pending_mutation, restore_page_lsn_after_undo,
}
use resume_project.Buffer.Pool.Io.{fetch_page, flush_page, delete_page, flush_all_pages}
use resume_project.Buffer.Pool.Invariant.{IsValid}
use resume_project.Buffer.Pool.Create.{create-IsValid}
use resume_project.Buffer.Pool.Fetch.{fetch_page-IsValid}
use resume_project.Buffer.Pool.FlushAll.{flush_all_pages-IsValid}
use resume_project.Buffer.Pool.Methods.{
  unpin_page-IsValid, flush_page-IsValid, delete_page-IsValid, mark_mutation_pending-IsValid,
  finalize_pending_mutation-IsValid, resolve_pending_mutation-IsValid,
  restore_page_lsn_after_undo-IsValid,
}

module _ {D : Type 0} (disk : Disk D) where
  pub data Step : Pool D → Pool D → Type 0 where
    fetches : (id : ℕ) (pool : Pool D) → Step pool (fetch_page disk id pool).1
    unpins : (id : ℕ) (dirty : Bool) (pool : Pool D) → Step pool (unpin_page id dirty pool).1
    flushes : (id : ℕ) (pool : Pool D) → Step pool (flush_page disk id pool).1
    deletes : (id : ℕ) (pool : Pool D) → Step pool (delete_page disk id pool).1
    flushes_all : (pool : Pool D) → Step pool (flush_all_pages disk pool).1
    marks : (id : ℕ) (pool : Pool D) → Step pool (mark_mutation_pending id pool).1
    finalizes : (id lsn : ℕ) (pool : Pool D) → Step pool (finalize_pending_mutation id lsn pool).1
    resolves : (id lsn : ℕ) (pool : Pool D) → Step pool (resolve_pending_mutation id lsn pool).1
    restores : (id lsn : ℕ) (pool : Pool D) → Step pool (restore_page_lsn_after_undo id lsn pool).1

  -- The states of a pool that was made of `start`.
  pub data IsReachable (capacity : ℕ) : Pool D → Type 0 where
    made : (start : D) (durable : Option ℕ) → IsReachable capacity (create start capacity durable)
    after : {s t : Pool D} → IsReachable capacity s → Step s t → IsReachable capacity t

  Step-IsValid : {s t : Pool D} → Step s t → IsValid s → IsValid t
  Step-IsValid (fetches id pool) = fetch_page-IsValid disk id pool
  Step-IsValid (unpins id dirty pool) = unpin_page-IsValid id dirty pool
  Step-IsValid (flushes id pool) = flush_page-IsValid disk id pool
  Step-IsValid (deletes id pool) = delete_page-IsValid disk id pool
  Step-IsValid (flushes_all pool) = flush_all_pages-IsValid disk pool
  Step-IsValid (marks id pool) = mark_mutation_pending-IsValid id pool
  Step-IsValid (finalizes id lsn pool) = finalize_pending_mutation-IsValid id lsn pool
  Step-IsValid (resolves id lsn pool) = resolve_pending_mutation-IsValid id lsn pool
  Step-IsValid (restores id lsn pool) = restore_page_lsn_after_undo-IsValid id lsn pool

  -- Every state that a new pool of any capacity reaches by calls of its methods (fetch, unpin,
  -- flush of one page or of all, removal, and the four of pending mutations), whether they return
  -- or throw, is valid.
  pub IsReachable-IsValid :
      (capacity : ℕ) (pool : Pool D) → IsReachable capacity pool → IsValid pool
  IsReachable-IsValid capacity _ (made start durable) = create-IsValid start capacity durable
  IsReachable-IsValid capacity _ (after reach step) =
      Step-IsValid step (IsReachable-IsValid capacity _ reach)
