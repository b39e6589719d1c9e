-- ===== src/Recovery/Replay.antt =====
-- ReplayContext of src/recovery/replay_context.cpp: the changes of pages and of the catalog that
-- recovery makes, none of which is logged. Its page manager is the one under the pool.
use resume_project.Common.{
  ℕ, Bool, true, false, not, ◌&&◌, ◌||◌, List, [], ◌∷◌, length, ltb, leb, ◌==◌, if◌then◌else◌,
  Result, err,
}
use resume_project.Common.Action.{
  Action, pure, gets, or_throw, throw_if, modify, ◌>>=◌, ◌>>◌, within,
}
use resume_project.Storage.Page.{PhysicalMutation, Page, is_valid, page_payload_size}
use resume_project.Storage.Errors.{
  StorageError, invalid_recovery_allocation, recovery_gap, invalid_undo_allocation,
}
use resume_project.Storage.PageManager.{
  PageManager, is_page_allocated, activate_reserved_page, deallocate_page,
  materialize_page_for_recovery, validate_physical_page_for_recovery,
}
use resume_project.Buffer.Pool.Disk.{page_disk}
use resume_project.Buffer.Pool.Defs.{
  Pool, PoolError, Frame, frame_at, set_frame, contains, unpin_page, restore_page_lsn_after_undo,
  with_lsn,
}
use resume_project.Buffer.Pool.Io.{fetch_page, delete_page}
use resume_project.Transactions.Errors.{
  EngineError, pages, replay_inactive, resident_replay_page, invalid_recovery_mutation,
  cannot_pin_recovery_page, cannot_unpin_skipped_page, cannot_unpin_recovery_page, undo_inactive,
  invalid_undo_mutation, cannot_pin_undo_page, cannot_unpin_skipped_undo, impossible_undo_lsn,
  cannot_unpin_undo_page, undo_page_pinned, reconstruction_inactive, invalid_reconstructed_image,
  cannot_pin_reconstructed_page, cannot_unpin_reconstructed_page,
}
use resume_project.Transactions.Capture.{pooled, with_payload}

-- The two sets are unordered.
pub record ReplayContext : Type 0 where
  pub buffer : Pool PageManager
  pub active : Bool
  pub undone_lsns : List ℕ
  pub reconstructed_pages : List ℕ

pub new_replay : Pool PageManager → ReplayContext
new_replay buffer = record {
  buffer = buffer;
  active = true;
  undone_lsns = [];
  reconstructed_pages = [];
}

unfoldable pub is_in : ℕ → List ℕ → Bool
is_in x [] = false
is_in x (y ∷ ys) = x == y || is_in x ys

abbrev pub on_pool :
    {A : Type 0}
    → (Pool PageManager → Result PoolError A × Pool PageManager)
    → Action ReplayContext EngineError A
on_pool m = within (λ s. s.buffer) (λ t s. record s { buffer = t }) (λ e. e) (pooled m)

abbrev put_pages : PageManager → ReplayContext → ReplayContext
put_pages pm s = record s { buffer = record s.buffer { disk = pm } }

abbrev pub on_pages :
    {A : Type 0}
    → (PageManager → Result StorageError A × PageManager)
    → Action ReplayContext EngineError A
on_pages = within (λ s. s.buffer.disk) put_pages pages

-- A change of the page in frame `f`.
abbrev pub edit_frame : ℕ → (Frame → Frame) → ReplayContext → ReplayContext
edit_frame f g s = record s { buffer = set_frame f (g (frame_at s.buffer.frames f)) s.buffer }

abbrev pub page_of : ℕ → ReplayContext → Page
page_of f s = (frame_at s.buffer.frames f).page

unfoldable materialize : ℕ → Action ReplayContext EngineError Bool
materialize id = do
  resident ← gets (λ s. contains s.buffer id)
  throw_if resident resident_replay_page
  on_pages (materialize_page_for_recovery id)
  pure true

abbrev activate : Bool → ℕ → Action ReplayContext EngineError (Unit {0})
activate true id = pure tt
activate false id = on_pages (activate_reserved_page id)

unfoldable pub redo_page_allocate : ℕ → Action ReplayContext EngineError Bool
unfolding materialize
redo_page_allocate id = do
  active ← gets (λ s. s.active)
  throw_if (not active) replay_inactive
  throw_if (not (is_valid id)) (pages invalid_recovery_allocation)
  count ← gets (λ s. s.buffer.disk.page_count)
  throw_if (ltb count id) (pages recovery_gap)
  materialized ← if id == count then materialize id else pure false
  on_pages (validate_physical_page_for_recovery id)
  allocated ← gets (λ s. is_page_allocated s.buffer.disk id)
  activate allocated id
  pure materialized

unfoldable pub is_redoable : ℕ → PhysicalMutation → Bool
is_redoable lsn m =
    not (lsn == 0)
    && is_valid m.page_id
    && length m.after_image == page_payload_size
    && length m.before_image == page_payload_size

unfoldable pub skip_page : ℕ → EngineError → Action ReplayContext EngineError Bool
skip_page id error = do
  unpinned ← on_pool (unpin_page id false)
  throw_if (not unpinned) error
  pure false

-- The copy, the LSN, and the unpin of a dirty page.
unfoldable pub put_image : ℕ → ℕ → List ℕ → ℕ → EngineError → Action ReplayContext EngineError Bool
put_image id f payload lsn error = do
  modify (edit_frame f (λ frame. with_lsn (with_payload payload frame) lsn))
  unpinned ← on_pool (unpin_page id true)
  throw_if (not unpinned) error
  pure true

unfoldable pub redo_at : ℕ → PhysicalMutation → ℕ → Action ReplayContext EngineError Bool
redo_at lsn m f = do
  page ← gets (page_of f)
  if leb lsn page.lsn
      then skip_page m.page_id cannot_unpin_skipped_page
      else put_image m.page_id f m.after_image lsn cannot_unpin_recovery_page

unfoldable pub redo_physical_mutation : ℕ → PhysicalMutation → Action ReplayContext EngineError Bool
redo_physical_mutation lsn m = do
  active ← gets (λ s. s.active)
  throw_if (not active) replay_inactive
  throw_if (not (is_redoable lsn m)) invalid_recovery_mutation
  fetched ← on_pool (fetch_page page_disk m.page_id)
  f ← or_throw fetched cannot_pin_recovery_page
  redo_at lsn m f

abbrev note_undone : ℕ → ReplayContext → ReplayContext
note_undone lsn s = record s { undone_lsns = lsn ∷ s.undone_lsns }

unfoldable pub undo_at : ℕ → ℕ → PhysicalMutation → ℕ → ℕ → Action ReplayContext EngineError Bool
undo_at lsn restored m f page_lsn =
    if ltb page_lsn lsn
    then (skip_page m.page_id cannot_unpin_skipped_undo >>= λ skipped.
        modify (note_undone lsn) >> pure false)
    else if ltb lsn page_lsn
    then (λ s. (err impossible_undo_lsn, (on_pool (unpin_page m.page_id false) s).1))
    else (do
      modify (edit_frame f (with_payload m.before_image))
      on_pool (restore_page_lsn_after_undo m.page_id restored)
      unpinned ← on_pool (unpin_page m.page_id true)
      throw_if (not unpinned) cannot_unpin_undo_page
      modify (note_undone lsn)
      pure true)

unfoldable pub undo_pinned : ℕ → ℕ → PhysicalMutation → Action ReplayContext EngineError Bool
undo_pinned lsn restored m = do
  fetched ← on_pool (fetch_page page_disk m.page_id)
  f ← or_throw fetched cannot_pin_undo_page
  page ← gets (page_of f)
  undo_at lsn restored m f page.lsn

unfoldable pub undo_physical_mutation :
    ℕ → ℕ → PhysicalMutation → Action ReplayContext EngineError Bool
undo_physical_mutation lsn restored m = do
  active ← gets (λ s. s.active)
  throw_if (not active) undo_inactive
  throw_if
      (lsn == 0 || not (is_valid m.page_id) || not (length m.before_image == page_payload_size))
      invalid_undo_mutation
  undone ← gets (λ s. is_in lsn s.undone_lsns)
  if undone then pure false else undo_pinned lsn restored m

unfoldable release_page : ℕ → Action ReplayContext EngineError Bool
release_page id = do
  removed ← on_pool (delete_page page_disk id)
  throw_if (not removed) undo_page_pinned
  on_pages (deallocate_page id)
  pure true

unfoldable pub undo_page_allocate : ℕ → Action ReplayContext EngineError Bool
unfolding release_page
undo_page_allocate id = do
  active ← gets (λ s. s.active)
  throw_if (not active) undo_inactive
  throw_if (not (is_valid id)) (pages invalid_undo_allocation)
  present ← gets (λ s. ltb id s.buffer.disk.page_count && is_page_allocated s.buffer.disk id)
  if present then release_page id else pure false

unfoldable pub rebuild : ℕ → List ℕ → ℕ → Action ReplayContext EngineError Bool
rebuild id payload lsn = do
  fetched ← on_pool (fetch_page page_disk id)
  f ← or_throw fetched cannot_pin_reconstructed_page
  _ ← put_image id f payload lsn cannot_unpin_reconstructed_page
  modify (λ s. record s { reconstructed_pages = id ∷ s.reconstructed_pages })
  pure true

unfoldable pub reconstruct_page : ℕ → List ℕ → ℕ → Action ReplayContext EngineError Bool
reconstruct_page id payload lsn = do
  active ← gets (λ s. s.active)
  throw_if (not active) reconstruction_inactive
  throw_if (not (is_valid id && length payload == page_payload_size)) invalid_reconstructed_image
  done ← gets (λ s. is_in id s.reconstructed_pages)
  if done then pure false else rebuild id payload lsn
