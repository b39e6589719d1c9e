-- ===== src/Buffer/Pool/Pending.antt =====
-- The methods for pending mutations and PageLSNs.
use resume_project.Common.{ℕ}
use resume_project.Buffer.Pool.Defs.{
  Pool, mark_mutation_pending, finalize_pending_mutation, resolve_pending_mutation,
  restore_page_lsn_after_undo,
}
use resume_project.Buffer.Pool.Invariant.{IsValid}
use resume_project.Buffer.Pool.Methods.{
  mark_mutation_pending-IsValid, finalize_pending_mutation-IsValid,
  resolve_pending_mutation-IsValid, restore_page_lsn_after_undo-IsValid,
}

-- Marking a mutation pending, finalizing one, resolving one and restoring a PageLSN each keep a
-- valid pool valid, whatever they return or throw.
pub pending_mutations-IsValid :
    {D : Type 0} (id lsn : ℕ) (pool : Pool D)
    → IsValid pool
    → IsValid (mark_mutation_pending id pool).1
      × IsValid (finalize_pending_mutation id lsn pool).1
      × IsValid (resolve_pending_mutation id lsn pool).1
      × IsValid (restore_page_lsn_after_undo id lsn pool).1
pending_mutations-IsValid id lsn pool h = (
  mark_mutation_pending-IsValid id pool h,
  finalize_pending_mutation-IsValid id lsn pool h,
  resolve_pending_mutation-IsValid id lsn pool h,
  restore_page_lsn_after_undo-IsValid id lsn pool h,
)
