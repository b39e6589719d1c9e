-- ===== src/Transactions/Capture.antt =====
-- src/storage/physical_mutation.cpp: images of a page before and after a change. The context reaches
-- its pool and, through the finalizer, what the finalizer owns; `Capture` has the three together.
use resume_project.Common.{
  ℕ, true, false, not, Option, none, some, List, [], ◌∷◌, length, ◌==◌, if◌then◌else◌, Result,
}
use resume_project.Common.Action.{
  Action, pure, gets, or_throw, throw_if, modify, ◌>>=◌, ◌>>◌, within,
}
use resume_project.Storage.Page.{PhysicalMutation, page_payload_size}
use resume_project.Buffer.Pool.Disk.{Disk}
use resume_project.Buffer.Pool.Defs.{Frame, Pool, PoolError, frame_at, set_frame, unpin_page}
use resume_project.Buffer.Pool.Io.{fetch_page}
use resume_project.Transactions.Errors.{
  EngineError, pool, cannot_fetch_mutation_page, cannot_unpin_mutation_page, invalid_payload_image,
  cannot_fetch_replay_page, cannot_unpin_replay_page,
}

pub record Pending : Type 0 where
  pub id : ℕ
  pub before : List ℕ
  pub previous_page_lsn : ℕ

pub record MutationContext : Type 0 where
  pub pending : List Pending
  pub mutations : List PhysicalMutation
  pub next_sequence : ℕ

abbrev pub new_context : MutationContext
new_context = record { pending = []; mutations = []; next_sequence = 0 }

-- `finalize_mutation` of a `MutationFinalizer`, which owns an `F`.
abbrev pub Finalizer : Type 0 → Type 0
Finalizer F = PhysicalMutation → Action F EngineError (Option ℕ)

pub record Capture (D F : Type 0) : Type 0 where
  pub buffer : Pool D
  pub context : MutationContext
  pub owner : F

unfoldable pub find_pending : ℕ → List Pending → Option Pending
find_pending id [] = none
find_pending id (p ∷ ps) = if p.id == id then some p else find_pending id ps

unfoldable pub erase_pending : ℕ → List Pending → List Pending
erase_pending id [] = []
erase_pending id (p ∷ ps) = if p.id == id then ps else p ∷ erase_pending id ps

-- `std::move(it->before)` leaves an empty vector behind.
unfoldable pub take_before : ℕ → List Pending → List Pending
take_before id [] = []
take_before id (p ∷ ps) =
    if p.id == id then record p { before = [] } ∷ ps else p ∷ take_before id ps

-- `std::memcpy(page->data(), ...)`
abbrev pub with_payload : List ℕ → Frame → Frame
with_payload payload frame = record frame { page = record frame.page { payload = payload } }

unfoldable pub mutation_of : List ℕ → ℕ → Pending → PhysicalMutation
mutation_of after sequence p = record {
  page_id = p.id;
  sequence = sequence;
  before_image = p.before;
  after_image = after;
  previous_page_lsn = p.previous_page_lsn;
}

-- A method of the pool, its exceptions passed on.
abbrev pub pooled :
    {D A : Type 0} → (Pool D → Result PoolError A × Pool D) → Action (Pool D) EngineError A
pooled = within (λ s. s) (λ t s. t) pool

module _ {D : Type 0} (disk : Disk D) where
  unfoldable pub image : ℕ → Action (Pool D) EngineError (List ℕ × ℕ)
  image id = do
    fetched ← pooled (fetch_page disk id)
    f ← or_throw fetched cannot_fetch_mutation_page
    page ← gets (λ s. (frame_at s.frames f).page)
    unpinned ← pooled (unpin_page id false)
    throw_if (not unpinned) cannot_unpin_mutation_page
    pure (page.payload, page.lsn)

  unfoldable pub apply : PhysicalMutation → List ℕ → Action (Pool D) EngineError (Unit {0})
  apply mutation bytes = do
    throw_if (not (length bytes == page_payload_size)) invalid_payload_image
    fetched ← pooled (fetch_page disk mutation.page_id)
    f ← or_throw fetched cannot_fetch_replay_page
    modify (λ s. set_frame f (with_payload bytes (frame_at s.frames f)) s)
    unpinned ← pooled (unpin_page mutation.page_id true)
    throw_if (not unpinned) cannot_unpin_replay_page

  unfoldable pub apply_after_image : PhysicalMutation → Action (Pool D) EngineError (Unit {0})
  apply_after_image mutation = apply mutation mutation.after_image

  unfoldable pub apply_before_image : PhysicalMutation → Action (Pool D) EngineError (Unit {0})
  apply_before_image mutation = apply mutation mutation.before_image
