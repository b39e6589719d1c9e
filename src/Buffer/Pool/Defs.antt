-- ===== src/Buffer/Pool/Defs.antt =====
-- The state of the pool and its methods.
use resume_project.Common.{
  ℕ, ◌≡◌, refl, zero, suc, ◌+◌, ◌-◌, ◌^◌, Bool, true, false, ◌||◌, Option, none, some, List, [],
  ◌∷◌, ◌++◌, get_or, set, leb, ◌==◌, if◌then◌else◌, Result, ok, err,
}
use resume_project.Storage.Page.{Page, empty_page}
use resume_project.Storage.Errors.{StorageError}
use resume_project.Buffer.Table.{lookup, remove}

pub record Frame : Type 0 where
  pub page : Page
  pub pin_count : ℕ
  pub dirty : Bool
  pub occupied : Bool
  pub pending_mutations : ℕ

-- The exceptions of the pool, one constructor for each message.
pub data PoolError : Type 0 where
  storage : StorageError → PoolError
  mutations_not_finalized wal_not_durable : PoolError
  requires_pinned_page too_many_pending not_resident no_pending zero_lsn : PoolError
  undo_not_resident pending_unresolved duplicate_insertion : PoolError

pub record Stats : Type 0 where
  pub fetches : ℕ
  pub cache_hits : ℕ
  pub disk_reads : ℕ
  pub disk_writes : ℕ

-- `free_frames` has the back of the vector first. `lru_positions_` holds for each frame of `lru_` its
-- place there, so it is `lru` again. `durable` is what the provider's `durable_lsn()` answers; `none`
-- is a pool without a provider. A counter of statistics does not come near 2^64.
pub record Pool (D : Type 0) : Type 0 where
  pub disk : D
  pub frames : List Frame
  pub page_table : List (ℕ × ℕ)
  pub free_frames : List ℕ
  pub lru : List ℕ
  pub stats : Stats
  pub durable : Option ℕ

abbrev pub max_u32 : ℕ
max_u32 = 2 ^ 32 - 1

pub empty_frame : Frame
empty_frame = record {
  page = empty_page;
  pin_count = 0;
  dirty = false;
  occupied = false;
  pending_mutations = 0;
}

pub empty_frame-free : empty_frame.occupied ≡ false
unfolding empty_frame
empty_frame-free = refl

-- `frames_[f]`
abbrev pub frame_at : List Frame → ℕ → Frame
frame_at frames f = get_or frames f empty_frame

unfoldable pub empty_frames : ℕ → List Frame
empty_frames zero = []
empty_frames (suc n) = empty_frame ∷ empty_frames n

-- The constructor's loop pushes capacity - 1, ..., 0; from the back: 0, 1, ...
unfoldable pub free_from : ℕ → ℕ → List ℕ
free_from zero i = []
free_from (suc n) i = i ∷ free_from n (i + 1)

unfoldable pub create : {D : Type 0} → D → ℕ → Option ℕ → Pool D
unfolding empty_frames free_from
create disk capacity durable = record {
  disk = disk;
  frames = empty_frames capacity;
  page_table = [];
  free_frames = free_from capacity 0;
  lru = [];
  stats = record { fetches = 0; cache_hits = 0; disk_reads = 0; disk_writes = 0 };
  durable = durable;
}

-- No WAL record may be missing for what a page says: `require_wal_durable`.
unfoldable pub is_wal_durable : Option ℕ → ℕ → Bool
is_wal_durable durable lsn = lsn == 0 || elim durable [ none ↦ false | some d ↦ leb lsn d ]

unfoldable pub require_mutations_finalized : Frame → Result PoolError (Unit {0})
require_mutations_finalized frame =
    if frame.pending_mutations == 0 then ok tt else err mutations_not_finalized

unfoldable pub require_wal_durable : Option ℕ → Frame → Result PoolError (Unit {0})
require_wal_durable durable frame =
    if is_wal_durable durable frame.page.lsn then ok tt else err wal_not_durable

abbrev pub from_storage {ℓ} : {A : Type ℓ} → Result StorageError A → Result PoolError A
from_storage (ok a) = ok a
from_storage (err e) = err (storage e)

-- A method may throw, and leaves a pool either way.
abbrev pub Method : Type 0 → Type 0 → Type 0
Method D A = Pool D → Result PoolError A × Pool D

abbrev pub with_lsn : Frame → ℕ → Frame
with_lsn frame lsn = record frame { page = record frame.page { lsn = lsn } }

module _ {D : Type 0} where
  abbrev pub set_frame : ℕ → Frame → Pool D → Pool D
  set_frame f frame pool = record pool { frames = set pool.frames f frame }

  unfoldable pub contains : Pool D → ℕ → Bool
  contains pool id = elim (lookup id pool.page_table) [ none ↦ false | some f ↦ true ]

  -- `pin_count`, `is_dirty` and `pending_mutation_count`: a field of the cached frame
  unfoldable pub query : {A : Type 0} → (Frame → A) → Pool D → ℕ → Option A
  query field pool id = elim (lookup id pool.page_table) [
    | none ↦ none
    | some f ↦ some (field (frame_at pool.frames f))
  ]

  pub is_dirty : Pool D → ℕ → Option Bool
  is_dirty = query (λ frame. frame.dirty)

  pub pending_mutation_count : Pool D → ℕ → Option ℕ
  pending_mutation_count = query (λ frame. frame.pending_mutations)

  unfoldable pub remove_from_lru : ℕ → Pool D → Pool D
  remove_from_lru f pool = record pool { lru = remove f pool.lru }

  unfoldable pub make_evictable : ℕ → Pool D → Pool D
  make_evictable f pool = record pool { lru = remove f pool.lru ++ f ∷ [] }

  unfoldable pub reset_frame : ℕ → Pool D → Pool D
  reset_frame f pool = set_frame f empty_frame pool

  -- Methods that change one field of a resident frame.
  unfoldable pub mark_mutation_pending : ℕ → Method D (Unit {0})
  mark_mutation_pending id pool = elim (lookup id pool.page_table) [
    | none ↦ (err requires_pinned_page, pool)
    | some f ↦
        let frame = frame_at pool.frames f in
        if frame.pin_count == 0
        then (err requires_pinned_page, pool)
        else if frame.pending_mutations == max_u32
        then (err too_many_pending, pool)
        else (
          ok tt,
          set_frame f (record frame { pending_mutations = frame.pending_mutations + 1 }) pool,
        )
  ]

  unfoldable pub finalize_pending_mutation : ℕ → ℕ → Method D (Unit {0})
  finalize_pending_mutation id lsn pool = elim (lookup id pool.page_table) [
    | none ↦ (err not_resident, pool)
    | some f ↦
        let frame = frame_at pool.frames f in
        if frame.pending_mutations == 0
        then (err no_pending, pool)
        else if lsn == 0
        then (err zero_lsn, pool)
        else (
          ok tt,
          set_frame f
              (record (with_lsn frame lsn) { pending_mutations = frame.pending_mutations - 1 })
              pool,
        )
  ]

  unfoldable pub resolve_pending_mutation : ℕ → ℕ → Method D (Unit {0})
  resolve_pending_mutation id lsn pool = elim (lookup id pool.page_table) [
    | none ↦ (err not_resident, pool)
    | some f ↦
        let frame = frame_at pool.frames f in
        if frame.pending_mutations == 0 then (err no_pending, pool) else (
          ok tt,
          set_frame f
              (record (with_lsn frame lsn) { pending_mutations = frame.pending_mutations - 1 })
              pool,
        )
  ]

  unfoldable pub restore_page_lsn_after_undo : ℕ → ℕ → Method D (Unit {0})
  restore_page_lsn_after_undo id lsn pool = elim (lookup id pool.page_table) [
    | none ↦ (err undo_not_resident, pool)
    | some f ↦
        let frame = frame_at pool.frames f in
        if frame.pending_mutations == 0
        then (ok tt, set_frame f (with_lsn frame lsn) pool)
        else (err pending_unresolved, pool)
  ]

  unfoldable pub unpin_page : ℕ → Bool → Method D Bool
  unpin_page id is_dirty pool = elim (lookup id pool.page_table) [
    | none ↦ (ok false, pool)
    | some f ↦
        let frame = frame_at pool.frames f in
        if frame.pin_count == 0
        then (ok false, pool)
        else let unpinned =
            set_frame f
              (record frame { pin_count = frame.pin_count - 1; dirty = frame.dirty || is_dirty })
              pool in
          if frame.pin_count - 1 == 0
          then (ok true, make_evictable f unpinned)
          else (ok true, unpinned)
  ]
