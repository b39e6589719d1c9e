-- ===== src/Buffer/Pool/WriteBack.antt =====
-- What a write-back of `write_dirty_frame` changes of the pool.
use resume_project.Common.{
  ℕ, ◌<◌, ◌≡◌, refl, false, length, set, length-set, get_or-set, arith, ◌⊎◌, inl, inr,
}
use resume_project.Buffer.Pool.Disk.{Disk}
use resume_project.Buffer.Pool.Defs.{
  Frame, Pool, frame_at, empty_frame, set_frame, require_mutations_finalized, require_wal_durable,
}
use resume_project.Buffer.Pool.Io.{write_out, write_frame, write_dirty_frame}
use resume_project.Buffer.Pool.Invariant.{IsValid, IsValid-same, set_frame-IsValid}

module _ {D : Type 0} (disk : Disk D) where
  -- A write-back changes the dirty flag of its frame at most.
  pub write_dirty_frame-state :
      (f : ℕ) (pool : Pool D)
      → ((write_dirty_frame disk f pool).1.page_table ≡ pool.page_table)
        × ((write_dirty_frame disk f pool).1.free_frames ≡ pool.free_frames)
        × ((write_dirty_frame disk f pool).1.lru ≡ pool.lru)
        × (((write_dirty_frame disk f pool).1.frames ≡ pool.frames)
            ⊎ ((write_dirty_frame disk f pool).1.frames
                ≡ set pool.frames f (record (frame_at pool.frames f) { dirty = false })))
  unfolding write_dirty_frame write_frame write_out require_mutations_finalized require_wal_durable
  write_dirty_frame-state f pool = ground arith

  -- A write-back keeps the bookkeeping, also when it throws.
  pub write_dirty_frame-IsValid :
      (f : ℕ) (pool : Pool D)
      → IsValid pool
      → f < length pool.frames
      → IsValid (write_dirty_frame disk f pool).1
  write_dirty_frame-IsValid f pool h inside =
      let (table, free, lru, frames) = write_dirty_frame-state f pool in
      elim frames [
        | inl same ↦ IsValid-same pool _ same table free lru h
        | inr cleaned ↦
            IsValid-same (set_frame f (record (frame_at pool.frames f) { dirty = false }) pool) _
              cleaned table free lru
              (set_frame-IsValid pool h f inside _ refl (λ e. refl) (λ e. refl))
      ]

  -- What a write-back leaves of its frame.
  pub write_dirty_frame-frame :
      (f : ℕ) (pool : Pool D)
      → f < length pool.frames
      → ((frame_at (write_dirty_frame disk f pool).1.frames f).page ≡ (frame_at pool.frames f).page)
        × ((frame_at (write_dirty_frame disk f pool).1.frames f).pin_count
            ≡ (frame_at pool.frames f).pin_count)
        × ((frame_at (write_dirty_frame disk f pool).1.frames f).occupied
            ≡ (frame_at pool.frames f).occupied)
        × (length (write_dirty_frame disk f pool).1.frames ≡ length pool.frames)
  write_dirty_frame-frame f pool inside =
      let (table, free, lru, frames) = write_dirty_frame-state f pool in
      let clean : Frame = record (frame_at pool.frames f) { dirty = false } in
      ground (
        arith,
        frames,
        length-set pool.frames f clean,
        get_or-set pool.frames f f clean empty_frame,
      )
