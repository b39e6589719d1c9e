-- ===== src/Execution/TableHeap/Reach.antt =====
-- How TableHeap of src/execution/table_heap.cpp reaches its pages: the pool, and the capture of what
-- it changes.
use resume_project.Common.{ℕ, Bool, not, Option, none, some, List, Result}
use resume_project.Common.Action.{
  Action, pure, gets, or_throw, throw_if, modify, ◌>>=◌, ◌>>◌, within,
}
use resume_project.Storage.PageManager.{PageManager, allocate_page}
use resume_project.Buffer.Pool.Disk.{page_disk}
use resume_project.Buffer.Pool.Defs.{Pool, PoolError, frame_at, set_frame, unpin_page}
use resume_project.Buffer.Pool.Io.{fetch_page}
use resume_project.Transactions.Errors.{EngineError, pool_unpin_failed}
use resume_project.Transactions.Capture.{MutationContext, Capture, pooled, with_payload}
use resume_project.Transactions.Context
use resume_project.Transactions.Transaction
use resume_project.Transactions.Transaction.{
  Session, mutation_context, finalize_mutation, transaction_page, on_pages,
}
use resume_project.Index.Tree.{Mode, plain, captured, transactional}

-- `captures` is the caller's context of the mode `captured`.
pub record Access : Type 0 where
  pub session : Session
  pub captures : MutationContext
  pub mode : Mode

abbrev pub AccessAction : Type 0 → Type 0
AccessAction A = Action Access EngineError A

abbrev pub in_session : {A : Type 0} → Action Session EngineError A → AccessAction A
in_session = within (λ a. a.session) (λ s a. record a { session = s }) (λ e. e)

abbrev pub on_pool :
    {A : Type 0} → (Pool PageManager → Result PoolError A × Pool PageManager) → AccessAction A
on_pool m = in_session (Transaction.on_pool (pooled m))

abbrev put_captures : Capture PageManager (Unit {0}) → Access → Access
put_captures c a = record a {
  captures = c.context;
  session = record a.session { buffer = c.buffer };
}

abbrev in_captures :
    {A : Type 0} → Action (Capture PageManager (Unit {0})) EngineError A → AccessAction A
in_captures =
    within (λ a. record { buffer = a.session.buffer; context = a.captures; owner = tt })
      put_captures (λ e. e)

-- `if (active_mutations_) active_mutations_->watch(id)`, and `finish`
unfoldable pub watch_in : Mode → ℕ → AccessAction (Unit {0})
watch_in plain id = pure tt
watch_in captured id = in_captures (Context.watch page_disk id)
watch_in transactional id = in_session (mutation_context (Context.watch page_disk id))

unfoldable pub finish_in : Mode → ℕ → ℕ → AccessAction (Unit {0})
finish_in plain id f = pure tt
finish_in captured id f = in_captures (Context.finish_page none id f)
finish_in transactional id f =
    in_session (mutation_context (Context.finish_page (some finalize_mutation) id f))

unfoldable pub allocate_in : Mode → AccessAction ℕ
allocate_in transactional = in_session transaction_page
allocate_in mode = in_session (on_pages allocate_page)

-- `bp_.fetch_page(id)`
unfoldable pub try_pin : ℕ → AccessAction (Option ℕ)
try_pin id = on_pool (fetch_page page_disk id)

unfoldable pub pin : ℕ → EngineError → AccessAction ℕ
unfolding try_pin
pin id error = do fetched ← try_pin id; or_throw fetched error

unfoldable pub payload_of : ℕ → AccessAction (List ℕ)
payload_of f = gets (λ a. (frame_at a.session.buffer.frames f).page.payload)

-- The unpin of `release` must succeed.
unfoldable pub release : ℕ → Bool → AccessAction (Unit {0})
release id dirty = do done ← on_pool (unpin_page id dirty); throw_if (not done) pool_unpin_failed

unfoldable pub change_payload : ℕ → (List ℕ → List ℕ) → Access → Access
change_payload f change a = record a {
  session = record a.session {
    buffer =
        let frame = frame_at a.session.buffer.frames f in
        set_frame f (with_payload (change frame.page.payload) frame) a.session.buffer;
  };
}

-- A change of a pinned page, between its `watch` and its `finish`.
unfoldable pub edit_pinned : ℕ → ℕ → (List ℕ → List ℕ) → AccessAction (Unit {0})
unfolding watch_in finish_in change_payload
edit_pinned id f change = do
  mode ← gets (λ a. a.mode)
  watch_in mode id
  modify (change_payload f change)
  finish_in mode id f
