-- ===== src/Buffer/Pool/Io.antt =====
-- The methods of the pool that reach the disk.
use resume_project.Common.{
  ℕ, zero, suc, ◌+◌, Bool, true, false, not, ◌&&◌, Option, none, some, List, [], ◌∷◌, length, ◌==◌,
  if◌then◌else◌, Result, ok, err, then_do, check,
}
use resume_project.Storage.Page.{Page, is_valid}
use resume_project.Storage.Errors.{StorageError}
use resume_project.Storage.Errors.{fetch_unallocated}
use resume_project.Buffer.Table.{lookup, erase}
use resume_project.Buffer.Pool.Disk.{Disk}
use resume_project.Buffer.Pool.Defs.{
  Frame, Pool, PoolError, storage, duplicate_insertion, Method, frame_at, set_frame, from_storage,
  max_u32, require_mutations_finalized, require_wal_durable, remove_from_lru, reset_frame,
}

-- The last loop of `flush_all_pages`.
abbrev pub clean_frame : Frame → Frame
clean_frame frame = if frame.occupied then record frame { dirty = false } else frame

unfoldable pub clean_frames : List Frame → List Frame
clean_frames [] = []
clean_frames (frame ∷ frames) = clean_frame frame ∷ clean_frames frames

-- `give_back` is `reset_frame` and `free_frames_.push_back`.
unfoldable pub give_back : {D : Type 0} → ℕ → Pool D → Pool D
give_back f pool = let s = reset_frame f pool in record s { free_frames = f ∷ s.free_frames }

unfoldable pub pin_cached : {D : Type 0} → ℕ → Method D (Option ℕ)
pin_cached f pool =
    let frame = frame_at pool.frames f in
    if frame.pin_count == max_u32 then (ok none, pool) else (
      ok (some f),
      remove_from_lru f (
          set_frame f (record frame { pin_count = frame.pin_count + 1 })
            (record pool { stats = record pool.stats { cache_hits = pool.stats.cache_hits + 1 } })),
    )

module _ {D : Type 0} (disk : Disk D) where
  open disk use {is_allocated, read, write, sync}

  -- `page_manager_.write_page(...)` and `++stats_.disk_writes`
  unfoldable pub write_out : ℕ → Page → Method D (Unit {0})
  write_out id page pool =
      let (result, d) = write id page pool.disk in
      then_do (from_storage result, record pool { disk = d })
        (λ _ s.
          (ok tt, record s { stats = record s.stats { disk_writes = s.stats.disk_writes + 1 } }))

  -- `page_manager_.flush()`
  unfoldable pub sync_out : Method D (Unit {0})
  sync_out pool =
      let (result, d) = sync pool.disk in (from_storage result, record pool { disk = d })

  -- The two gates, then the write.
  unfoldable pub write_frame : ℕ → Method D (Unit {0})
  write_frame f pool =
      let frame = frame_at pool.frames f in
      check (require_mutations_finalized frame) pool (λ _.
        check (require_wal_durable pool.durable frame) pool
          (λ _. write_out frame.page.id frame.page pool))

  unfoldable pub write_dirty_frame : ℕ → Method D (Unit {0})
  write_dirty_frame f pool =
      if (frame_at pool.frames f).dirty
      then then_do (write_frame f pool)
          (λ _ s. (ok tt, set_frame f (record (frame_at s.frames f) { dirty = false }) s))
      else (ok tt, pool)

  -- The victim leaves the pool only after its write-back.
  unfoldable pub evict : ℕ → List ℕ → Method D (Option ℕ)
  evict victim rest pool = then_do (write_dirty_frame victim pool) (λ _ s. (
    ok (some victim),
    reset_frame victim (record s {
      lru = rest;
      page_table = erase (frame_at s.frames victim).page.id s.page_table;
    }),
  ))

  unfoldable pub acquire_frame : Method D (Option ℕ)
  acquire_frame pool = elim pool.free_frames [
    | f ∷ free ↦ (ok (some f), record pool { free_frames = free })
    | [] ↦ elim pool.lru [ [] ↦ (ok none, pool) | victim ∷ rest ↦ evict victim rest pool ]
  ]

  -- The read into the frame, and the entry in the page table.
  unfoldable pub place : ℕ → ℕ → Result StorageError Page → Method D (Option ℕ)
  place id f (err e) pool = (err (storage e), give_back f pool)
  place id f (ok page) pool =
      let loaded =
        set_frame f
          (record (frame_at pool.frames f) {
            page = page;
            pin_count = 1;
            dirty = false;
            occupied = true;
          })
          (record pool { stats = record pool.stats { disk_reads = pool.stats.disk_reads + 1 } }) in
      elim (lookup id pool.page_table) [
        | none ↦ (ok (some f), record loaded { page_table = (id, f) ∷ pool.page_table })
        | some g ↦ (err duplicate_insertion, give_back f loaded)
      ]

  unfoldable pub load_page : ℕ → ℕ → Method D (Option ℕ)
  unfolding place
  load_page id f pool =
      let (result, d) = read id pool.disk in place id f result (record pool { disk = d })

  unfoldable pub load_acquired : ℕ → Option ℕ → Method D (Option ℕ)
  load_acquired id none pool = (ok none, pool)
  load_acquired id (some f) pool = load_page id f pool

  -- The pointer that the source returns is the frame's id; `none` is the null pointer.
  unfoldable pub fetch_page : ℕ → Method D (Option ℕ)
  unfolding load_acquired pin_cached
  fetch_page id pool =
      let counted = record pool {
        stats = record pool.stats { fetches = pool.stats.fetches + 1 };
      } in
      if not (is_valid id)
      then (ok none, counted)
      else if not (is_allocated pool.disk id)
      then (err (storage fetch_unallocated), counted)
      else elim (lookup id pool.page_table) [
        | some f ↦ pin_cached f counted
        | none ↦ then_do (acquire_frame counted) (λ acquired s. load_acquired id acquired s)
      ]

  -- The gates stand only before the write of a dirty frame; a clean one is written without them.
  unfoldable pub flush_page : ℕ → Method D Bool
  flush_page id pool = elim (lookup id pool.page_table) [
    | none ↦ (ok false, pool)
    | some f ↦
        let frame = frame_at pool.frames f in
        let write_through = then_do (write_out id frame.page pool) (λ _ s.
          then_do (sync_out s)
            (λ _ t. (ok true, set_frame f (record (frame_at t.frames f) { dirty = false }) t))) in
        if frame.dirty
        then check (require_mutations_finalized frame) pool
            (λ _. check (require_wal_durable pool.durable frame) pool (λ _. write_through))
        else write_through
  ]

  unfoldable pub delete_page : ℕ → Method D Bool
  delete_page id pool = elim (lookup id pool.page_table) [
    | none ↦ (ok true, pool)
    | some f ↦
        if (frame_at pool.frames f).pin_count == 0
        then then_do (write_dirty_frame f pool) (λ _ s.
          let detached = remove_from_lru f s in
          (ok true, give_back f (record detached { page_table = erase id detached.page_table })))
        else (ok false, pool)
  ]

  -- The first loop of `flush_all_pages`, from frame `f` on, for `n` frames.
  unfoldable pub write_all : ℕ → ℕ → Method D (Unit {0})
  write_all zero f pool = (ok tt, pool)
  write_all (suc n) f pool =
      let frame = frame_at pool.frames f in
      let step : Result PoolError (Unit {0}) × Pool D =
        if frame.occupied && frame.dirty then write_frame f pool else (ok tt, pool) in
      then_do step (λ _ s. write_all n (f + 1) s)

  unfoldable pub flush_all_pages : Method D (Unit {0})
  flush_all_pages pool =
      then_do (write_all (length pool.frames) 0 pool)
        (λ _ s. then_do (sync_out s) (λ _ t. (ok tt, record t { frames = clean_frames t.frames })))

  -- What the destructor leaves: an exception of the flush is dropped.
  pub close : Pool D → Pool D
  close pool = (flush_all_pages pool).1
