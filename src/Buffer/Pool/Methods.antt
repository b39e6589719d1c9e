-- ===== src/Buffer/Pool/Methods.antt =====
-- The other methods keep the bookkeeping valid too.
use resume_project.Common.{
  ℕ, ◌-◌, ◌<◌, ◌≡◌, refl, ap, sym, ◌∙◌, false, some, length, set, ◌==◌, arith, Bool, ◌⊎◌, inl, inr,
  Bool-cases, Option-cases,
}
use resume_project.Buffer.Table.{lookup, erase, remove}
use resume_project.Buffer.Pool.Disk.{Disk}
use resume_project.Buffer.Pool.Defs.{
  Pool, frame_at, set_frame, require_mutations_finalized, require_wal_durable, max_u32,
  remove_from_lru,
}
use resume_project.Buffer.Pool.Io.{give_back, write_out, write_dirty_frame}
use resume_project.Buffer.Pool.Invariant.{
  IsValid, IsValid-same, set_frame-IsValid, unpinned-IsValid, discarded-IsValid,
}
use resume_project.Buffer.Pool.Defs.{
  mark_mutation_pending, finalize_pending_mutation, resolve_pending_mutation,
  restore_page_lsn_after_undo, unpin_page,
}
use resume_project.Buffer.Pool.Io.{flush_page, delete_page, sync_out}
use resume_project.Buffer.Pool.WriteBack.{
  write_dirty_frame-state, write_dirty_frame-IsValid, write_dirty_frame-frame,
}

-- An unpin keeps a valid pool valid, whatever it returns.
pub unpin_page-IsValid :
    {D : Type 0} (id : ℕ) (is_dirty : Bool) (pool : Pool D)
    → IsValid pool
    → IsValid (unpin_page id is_dirty pool).1
unfolding unpin_page
unpin_page-IsValid id is_dirty pool h = elim (Option-cases (lookup id pool.page_table)) [
  | inl absent ↦ rw (absent, unpin_page) h
  | inr (f, cached) ↦
      let (inside, used, same) = h.resident id f cached in
      elim (Bool-cases ((frame_at pool.frames f).pin_count == 0)) [
        | inl idle ↦ rw (cached, idle, unpin_page) h
        | inr pinned ↦ elim (Bool-cases ((frame_at pool.frames f).pin_count - 1 == 0)) [
          | inl last ↦
              rw (cached, pinned, last, unpin_page)
                (unpinned-IsValid pool h f inside _ used used last refl)
          | inr more ↦
              rw (cached, pinned, more, unpin_page)
                (set_frame-IsValid pool h f inside _ refl (λ e. more ∙ sym pinned) (λ e. refl))
        ]
      ]
]

-- Marking a mutation pending keeps a valid pool valid, whatever it returns or throws.
pub mark_mutation_pending-IsValid :
    {D : Type 0} (id : ℕ) (pool : Pool D) → IsValid pool → IsValid (mark_mutation_pending id pool).1
unfolding mark_mutation_pending
mark_mutation_pending-IsValid id pool h = elim (Option-cases (lookup id pool.page_table)) [
  | inl absent ↦ rw (absent, mark_mutation_pending) h
  | inr (f, cached) ↦ elim (Bool-cases ((frame_at pool.frames f).pin_count == 0)) [
    | inl idle ↦ rw (cached, idle, mark_mutation_pending) h
    | inr pinned ↦ elim (Bool-cases ((frame_at pool.frames f).pending_mutations == max_u32)) [
      | inl full ↦ rw (cached, pinned, full, mark_mutation_pending) h
      | inr room ↦
          rw (cached, pinned, room, mark_mutation_pending)
            (set_frame-IsValid pool h f (h.resident id f cached).0 _ refl (λ e. refl) (λ e. refl))
    ]
  ]
]

-- A pool whose frame `f` may have lost its dirty flag, and no more.
abbrev pub IsCleaned : {D : Type 0} → ℕ → Pool D → Pool D → Type 0
IsCleaned f pool s =
    (s.page_table ≡ pool.page_table)
    × (s.free_frames ≡ pool.free_frames)
    × (s.lru ≡ pool.lru)
    × ((s.frames ≡ pool.frames)
        ⊎ (s.frames ≡ set pool.frames f (record (frame_at pool.frames f) { dirty = false })))

cleaned-IsValid :
    {D : Type 0} (f : ℕ) (pool s : Pool D)
    → IsValid pool
    → f < length pool.frames
    → IsCleaned f pool s
    → IsValid s
cleaned-IsValid f pool s h inside (table, free, lru, inl same) =
    IsValid-same pool s same table free lru h
cleaned-IsValid f pool s h inside (table, free, lru, inr cleaned) =
    IsValid-same (set_frame f (record (frame_at pool.frames f) { dirty = false }) pool) s cleaned
      table free lru (set_frame-IsValid pool h f inside _ refl (λ e. refl) (λ e. refl))

module _ {D : Type 0} (disk : Disk D) where
  flush_page-state :
      (id f : ℕ) (pool : Pool D)
      → lookup id pool.page_table ≡ some f
      → IsCleaned f pool (flush_page disk id pool).1
  unfolding flush_page write_out sync_out require_mutations_finalized require_wal_durable
  flush_page-state id f pool e = ground arith

  -- A flush of one page keeps a valid pool valid, whatever it returns or throws.
  pub flush_page-IsValid :
      (id : ℕ) (pool : Pool D) → IsValid pool → IsValid (flush_page disk id pool).1
  unfolding flush_page
  flush_page-IsValid id pool h = elim (Option-cases (lookup id pool.page_table)) [
    | inl absent ↦ rw (absent, flush_page) h
    | inr (f, cached) ↦
        cleaned-IsValid f pool _ h (h.resident id f cached).0 (flush_page-state id f pool cached)
  ]

  delete_page-state :
      (id f : ℕ) (pool : Pool D)
      → lookup id pool.page_table ≡ some f
      → ((delete_page disk id pool).1 ≡ pool)
        ⊎ ((delete_page disk id pool).1 ≡ (write_dirty_frame disk f pool).1)
        ⊎ ((frame_at pool.frames f).pin_count ≡ 0)
          × ((delete_page disk id pool).1
              ≡ give_back f (record (write_dirty_frame disk f pool).1 {
                lru = remove f (write_dirty_frame disk f pool).1.lru;
                page_table = erase id (write_dirty_frame disk f pool).1.page_table;
              }))
  unfolding delete_page remove_from_lru
  delete_page-state id f pool e = ground arith

  -- A removal of a page from the cache keeps a valid pool valid, whatever it returns or throws.
  pub delete_page-IsValid :
      (id : ℕ) (pool : Pool D) → IsValid pool → IsValid (delete_page disk id pool).1
  unfolding delete_page
  delete_page-IsValid id pool h = elim (Option-cases (lookup id pool.page_table)) [
    | inl absent ↦ rw (absent, delete_page) h
    | inr (f, cached) ↦
        let inside = (h.resident id f cached).0 in
        let s = (write_dirty_frame disk f pool).1 in
        let hs = write_dirty_frame-IsValid disk f pool h inside in
        let (table, free, lru, frames) = write_dirty_frame-state disk f pool in
        let (page, pins, used, size) = write_dirty_frame-frame disk f pool inside in
        elim (delete_page-state id f pool cached) [
          | inl same ↦ rw same h
          | inr (inl thrown) ↦ rw thrown hs
          | inr (inr (idle, done)) ↦ rw done (
              discarded-IsValid s hs f (omega (arith, inside, size)) id
                (ap (λ t. lookup id t) table ∙ cached) (pins ∙ idle))
        ]
  ]

-- Finalizing a pending mutation keeps a valid pool valid, whatever it returns or throws.
pub finalize_pending_mutation-IsValid :
    {D : Type 0} (id lsn : ℕ) (pool : Pool D)
    → IsValid pool
    → IsValid (finalize_pending_mutation id lsn pool).1
unfolding finalize_pending_mutation
finalize_pending_mutation-IsValid id lsn pool h = elim (Option-cases (lookup id pool.page_table)) [
  | inl absent ↦ rw (absent, finalize_pending_mutation) h
  | inr (f, cached) ↦ elim (Bool-cases ((frame_at pool.frames f).pending_mutations == 0)) [
    | inl none_left ↦ rw (cached, none_left, finalize_pending_mutation) h
    | inr some_left ↦ elim (Bool-cases (lsn == 0)) [
      | inl unset ↦ rw (cached, some_left, unset, finalize_pending_mutation) h
      | inr known ↦
          rw (cached, some_left, known, finalize_pending_mutation)
            (set_frame-IsValid pool h f (h.resident id f cached).0 _ refl (λ e. refl) (λ e. refl))
    ]
  ]
]

-- Resolving a pending mutation keeps a valid pool valid, whatever it returns or throws.
pub resolve_pending_mutation-IsValid :
    {D : Type 0} (id lsn : ℕ) (pool : Pool D)
    → IsValid pool
    → IsValid (resolve_pending_mutation id lsn pool).1
unfolding resolve_pending_mutation
resolve_pending_mutation-IsValid id lsn pool h = elim (Option-cases (lookup id pool.page_table)) [
  | inl absent ↦ rw (absent, resolve_pending_mutation) h
  | inr (f, cached) ↦ elim (Bool-cases ((frame_at pool.frames f).pending_mutations == 0)) [
    | inl none_left ↦ rw (cached, none_left, resolve_pending_mutation) h
    | inr some_left ↦
        rw (cached, some_left, resolve_pending_mutation)
          (set_frame-IsValid pool h f (h.resident id f cached).0 _ refl (λ e. refl) (λ e. refl))
  ]
]

-- Restoring a PageLSN after an undo keeps a valid pool valid, whatever it returns or throws.
pub restore_page_lsn_after_undo-IsValid :
    {D : Type 0} (id lsn : ℕ) (pool : Pool D)
    → IsValid pool
    → IsValid (restore_page_lsn_after_undo id lsn pool).1
unfolding restore_page_lsn_after_undo
restore_page_lsn_after_undo-IsValid id lsn pool h =
    elim (Option-cases (lookup id pool.page_table)) [
      | inl absent ↦ rw (absent, restore_page_lsn_after_undo) h
      | inr (f, cached) ↦ elim (Bool-cases ((frame_at pool.frames f).pending_mutations == 0)) [
        | inl none_left ↦
            rw (cached, none_left, restore_page_lsn_after_undo)
              (set_frame-IsValid pool h f (h.resident id f cached).0 _ refl (λ e. refl) (λ e. refl))
        | inr some_left ↦ rw (cached, some_left, restore_page_lsn_after_undo) h
      ]
    ]
