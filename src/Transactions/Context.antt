-- ===== src/Transactions/Context.antt =====
-- MutationContext of src/storage/physical_mutation.cpp. Without a finalizer the context keeps the
-- mutations itself; with one, the page that changed is given by the frame it is pinned in.
use resume_project.Common.{
  ℕ, ◌+◌, ◌%◌, ◌^◌, Bool, true, false, not, Option, none, some, List, [], ◌∷◌, ◌++◌, ◌==◌,
  if◌then◌else◌, Result, ok, err, same_bytes,
}
use resume_project.Common.Action.{
  Action, pure, gets, or_throw, throw_if, modify, ◌>>=◌, ◌>>◌, within, throw,
}
use resume_project.Storage.Page.{PhysicalMutation, is_valid}
use resume_project.Buffer.Pool.Disk.{Disk}
use resume_project.Buffer.Pool.Defs.{
  Pool, frame_at, set_frame, unpin_page, mark_mutation_pending, with_lsn,
}
use resume_project.Buffer.Pool.Io.{fetch_page}
use resume_project.Transactions.Errors.{
  EngineError, cannot_fetch_mutation_page, cannot_unpin_mutation_page, invalid_mutation_page,
  finish_without_watch, must_finish_pinned, zero_mutation_lsn, page_does_not_match,
  unfinished_capture,
}
use resume_project.Transactions.Capture.{
  Pending, MutationContext, Capture, Finalizer, find_pending, erase_pending, take_before,
  mutation_of, pooled, image,
}

module _ {D F : Type 0} where
  -- A method of the pool that the context works on.
  abbrev pub on_buffer :
      {A : Type 0} → Action (Pool D) EngineError A → Action (Capture D F) EngineError A
  on_buffer = within (λ s. s.buffer) (λ t s. record s { buffer = t }) (λ e. e)

  abbrev pub on_owner : {A : Type 0} → Action F EngineError A → Action (Capture D F) EngineError A
  on_owner = within (λ s. s.owner) (λ t s. record s { owner = t }) (λ e. e)

  abbrev pub edit : (MutationContext → MutationContext) → Capture D F → Capture D F
  edit f s = record s { context = f s.context }

  -- `page->set_lsn(*lsn)`, through the pointer
  abbrev set_page_lsn : ℕ → ℕ → Capture D F → Capture D F
  set_page_lsn f lsn s = record s {
    buffer = set_frame f (with_lsn (frame_at s.buffer.frames f) lsn) s.buffer;
  }

  -- What the finalizer's answer does to the page.
  unfoldable pub settle : ℕ → ℕ → Option ℕ → Action (Capture D F) EngineError (Unit {0})
  settle id f none = on_buffer (pooled (mark_mutation_pending id))
  settle id f (some lsn) = do throw_if (lsn == 0) zero_mutation_lsn; modify (set_page_lsn f lsn)

  -- `next_sequence_++`, and the before image is moved out.
  unfoldable pub take_mutation : Pending → Capture D F → Capture D F
  take_mutation p = edit (λ c. record c {
    pending = take_before p.id c.pending;
    next_sequence = (c.next_sequence + 1) % 2 ^ 64;
  })

  unfoldable pub hand_over :
      Option (Finalizer F)
      → PhysicalMutation
      → Option ℕ
      → Action (Capture D F) EngineError (Unit {0})
  hand_over none m page = modify (edit (λ c. record c { mutations = c.mutations ++ m ∷ [] }))
  hand_over (some finalize_mutation) m none = throw must_finish_pinned
  hand_over (some finalize_mutation) m (some f) = do
    lsn ← on_owner (finalize_mutation m)
    settle m.page_id f lsn

  unfoldable pub record_change :
      Option (Finalizer F)
      → Pending
      → List ℕ
      → Option ℕ
      → Action (Capture D F) EngineError (Unit {0})
  record_change finalizer p after page s =
      if same_bytes after p.before
      then (ok tt, s)
      else hand_over finalizer (mutation_of after s.context.next_sequence p) page
          (take_mutation p s)

  unfoldable pub capture :
      Option (Finalizer F) → ℕ → List ℕ → Option ℕ → Action (Capture D F) EngineError (Unit {0})
  capture finalizer id after page = do
    found ← gets (λ s. find_pending id s.context.pending)
    p ← or_throw found finish_without_watch
    record_change finalizer p after page
    modify (edit (λ c. record c { pending = erase_pending id c.pending }))

  -- `catch (...) { unpin; throw; }`, and the unpin after it.
  unfoldable pub then_unpin :
      ℕ → Result EngineError (Unit {0}) × Capture D F → Result EngineError (Unit {0}) × Capture D F
  then_unpin id (err e, s) = (err e, (on_buffer (pooled (unpin_page id false)) s).1)
  then_unpin id (ok _, s) =
      (on_buffer (pooled (unpin_page id false)) >>= λ unpinned.
      throw_if (not unpinned) cannot_unpin_mutation_page)
        s

  unfoldable pub drain_captured : Action (Capture D F) EngineError (List PhysicalMutation)
  drain_captured = do
    pending ← gets (λ s. s.context.pending)
    throw_if (elim pending [ [] ↦ false | p ∷ ps ↦ true ]) unfinished_capture
    out ← gets (λ s. s.context.mutations)
    modify (edit (λ c. record c { mutations = [] }))
    pure out

  pub finalize : Action (Capture D F) EngineError (List PhysicalMutation)
  finalize = drain_captured

unfoldable pub has_unfinished_capture : MutationContext → Bool
has_unfinished_capture c = elim c.pending [ [] ↦ false | p ∷ ps ↦ true ]

module _ {D F : Type 0} (disk : Disk D) where
  unfoldable pub watch : ℕ → Action (Capture D F) EngineError (Unit {0})
  watch id = do
    throw_if (not (is_valid id)) invalid_mutation_page
    before ← on_buffer (image disk id)
    modify (
        edit (λ c. record c {
          pending =
              c.pending ++ record { id = id; before = before.0; previous_page_lsn = before.1 } ∷ [];
        }))

  unfoldable pub finish : Option (Finalizer F) → ℕ → Action (Capture D F) EngineError (Unit {0})
  finish finalizer id = do
    throw_if (elim finalizer [ none ↦ false | some g ↦ true ]) must_finish_pinned
    fetched ← on_buffer (pooled (fetch_page disk id))
    f ← or_throw fetched cannot_fetch_mutation_page
    payload ← gets (λ s. (frame_at s.buffer.frames f).page.payload)
    λ s. then_unpin id (capture finalizer id payload none s)

-- `finish` with the page, pinned in frame `f`
unfoldable pub finish_page :
    {D F : Type 0} → Option (Finalizer F) → ℕ → ℕ → Action (Capture D F) EngineError (Unit {0})
finish_page finalizer id f = do
  page ← gets (λ s. (frame_at s.buffer.frames f).page)
  throw_if (not (page.id == id)) page_does_not_match
  capture finalizer id page.payload (some f)
