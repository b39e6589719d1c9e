-- ===== src/Buffer/Pool/Durability.antt =====
-- The log before the data: what the pool's write-backs ask of the log.
use resume_project.Common.{
  List-cases, ℕ, zero, suc, ◌+◌, ◌≡◌, true, not, none, some, length, ◌==◌, arith, inl, inr, Result,
  ok, err, Bool-cases, Option-cases, Option, then_do-keeps, if-keeps, ◌&&◌,
}
use resume_project.Storage.Page.{Page, is_valid}
use resume_project.Storage.Errors.{StorageError}
use resume_project.Buffer.Table.{lookup}
use resume_project.Buffer.Pool.Disk.{Disk}
use resume_project.Buffer.Pool.Defs.{
  Pool, frame_at, reset_frame, require_mutations_finalized, require_wal_durable, is_wal_durable,
  max_u32, remove_from_lru,
}
use resume_project.Buffer.Pool.Io.{
  give_back, write_out, write_frame, write_dirty_frame, evict, acquire_frame, place, load_page,
  load_acquired, pin_cached, fetch_page, delete_page, flush_all_pages, write_all, sync_out,
}

-- A property of the disk that a read, a sync, and a write of a page whose log records are durable keep.
pub record IsKept {D : Type 0} (disk : Disk D) (durable : Option ℕ) (P : D → Type 0) : Type 0 where
  pub read_keeps : (id : ℕ) (d : D) → P d → P (disk.read id d).1
  pub sync_keeps : (d : D) → P d → P (disk.sync d).1
  pub write_keeps :
      (page : Page) (d : D)
      → is_wal_durable durable page.lsn ≡ true
      → P d
      → P (disk.write page.id page d).1

module _ {D : Type 0} (disk : Disk D) (durable : Option ℕ) (P : D → Type 0)
    (kept : IsKept disk durable P) where
  abbrev pub Keeps : Pool D → Type 0
  Keeps pool = (pool.durable ≡ durable) × P pool.disk

  write_out-Keeps :
      (page : Page) (pool : Pool D)
      → is_wal_durable durable page.lsn ≡ true
      → Keeps pool
      → Keeps (write_out disk page.id page pool).1
  unfolding write_out
  write_out-Keeps page pool w (same, p) =
      then_do-keeps Keeps _ _ (same, kept.write_keeps page pool.disk w p) (λ _ s k. k)

  write_frame-Keeps : (f : ℕ) (pool : Pool D) → Keeps pool → Keeps (write_frame disk f pool).1
  unfolding write_frame require_mutations_finalized require_wal_durable
  write_frame-Keeps f pool k =
      let frame = frame_at pool.frames f in
      elim (Bool-cases (frame.pending_mutations == 0)) [
        | inr pending ↦ rw (pending, write_frame, require_mutations_finalized) k
        | inl finalized ↦ elim (Bool-cases (is_wal_durable pool.durable frame.page.lsn)) [
          | inr early ↦
              rw (write_frame, require_mutations_finalized, require_wal_durable, finalized, early) k
          | inl written ↦
              rw (write_frame, require_mutations_finalized, require_wal_durable, finalized, written)
                (write_out-Keeps frame.page pool (rw k.0 at written) k)
        ]
      ]

  write_dirty_frame-Keeps :
      (f : ℕ) (pool : Pool D) → Keeps pool → Keeps (write_dirty_frame disk f pool).1
  unfolding write_dirty_frame
  write_dirty_frame-Keeps f pool k =
      if-keeps Keeps (frame_at pool.frames f).dirty _ (ok tt, pool)
        (then_do-keeps Keeps _ _ (write_frame-Keeps f pool k) (λ _ s ks. ks)) k

  acquire_frame-Keeps : (pool : Pool D) → Keeps pool → Keeps (acquire_frame disk pool).1
  unfolding acquire_frame evict reset_frame
  acquire_frame-Keeps pool k = elim (List-cases pool.free_frames) [
    | inr (f, free, e) ↦ rw (acquire_frame, e) k
    | inl e ↦ elim (List-cases pool.lru) [
      | inl empty ↦ rw (acquire_frame, e, empty) k
      | inr (victim, rest, front) ↦
          rw (acquire_frame, e, front)
            (then_do-keeps Keeps _ _ (write_dirty_frame-Keeps victim pool k) (λ _ s ks. ks))
    ]
  ]

  place-Keeps :
      (id f : ℕ) (result : Result StorageError Page) (pool : Pool D)
      → Keeps pool
      → Keeps (place disk id f result pool).1
  unfolding place give_back reset_frame
  place-Keeps id f (err e) pool k = k
  place-Keeps id f (ok page) pool k = ground arith

  load_acquired-Keeps :
      (id : ℕ) (acquired : Option ℕ) (pool : Pool D)
      → Keeps pool
      → Keeps (load_acquired disk id acquired pool).1
  unfolding load_acquired load_page
  load_acquired-Keeps id none pool k = k
  load_acquired-Keeps id (some f) pool k =
      place-Keeps id f _ _ (k.0, kept.read_keeps id pool.disk k.1)

  pin_cached-Keeps : (f : ℕ) (pool : Pool D) → Keeps pool → Keeps (pin_cached f pool).1
  unfolding pin_cached remove_from_lru
  pin_cached-Keeps f pool k =
      if-keeps Keeps ((frame_at pool.frames f).pin_count == max_u32) (ok none, pool) _ k k

  -- A fetch, with the eviction that it may need, writes no page whose LSN is past the durable LSN:
  -- it keeps every property of the disk that reads, syncs and writes of pages with durable log
  -- records keep, whatever it returns or throws.
  pub fetch_page-Keeps : (id : ℕ) (pool : Pool D) → Keeps pool → Keeps (fetch_page disk id pool).1
  unfolding fetch_page
  fetch_page-Keeps id pool k =
      let counted : Pool D = record pool {
        stats = record pool.stats { fetches = pool.stats.fetches + 1 };
      } in
      elim (Option-cases (lookup id pool.page_table)) [
        | inl absent ↦
            rw (fetch_page, absent)
              (if-keeps Keeps (not (is_valid id)) (ok none, counted) _ k
                (if-keeps Keeps (not (disk.is_allocated pool.disk id)) _ _ k (
                  then_do-keeps Keeps (acquire_frame disk counted) _ (acquire_frame-Keeps counted k)
                    (λ acquired s ks. load_acquired-Keeps id acquired s ks))))
        | inr (f, cached) ↦
            rw (fetch_page, cached)
              (if-keeps Keeps (not (is_valid id)) (ok none, counted) _ k
                (if-keeps Keeps (not (disk.is_allocated pool.disk id)) _ _ k
                  (pin_cached-Keeps f counted k)))
      ]

  -- A removal of a page from the cache writes no page whose LSN is past the durable LSN, whatever
  -- it returns or throws.
  pub delete_page-Keeps : (id : ℕ) (pool : Pool D) → Keeps pool → Keeps (delete_page disk id pool).1
  unfolding delete_page remove_from_lru give_back reset_frame
  delete_page-Keeps id pool k = elim (Option-cases (lookup id pool.page_table)) [
    | inl absent ↦ rw (delete_page, absent) k
    | inr (f, cached) ↦
        rw (delete_page, cached)
          (if-keeps Keeps ((frame_at pool.frames f).pin_count == 0) _ _
            (then_do-keeps Keeps _ _ (write_dirty_frame-Keeps f pool k) (λ _ s ks. ks)) k)
  ]

  write_all-Keeps : (n f : ℕ) (pool : Pool D) → Keeps pool → Keeps (write_all disk n f pool).1
  unfolding write_all
  write_all-Keeps zero f pool k = k
  write_all-Keeps (suc n) f pool k =
      then_do-keeps Keeps _ (λ _ s. write_all disk n (f + 1) s)
        (if-keeps Keeps ((frame_at pool.frames f).occupied && (frame_at pool.frames f).dirty)
          (write_frame disk f pool) (ok tt, pool) (write_frame-Keeps f pool k) k)
        (λ _ s ks. write_all-Keeps n (f + 1) s ks)

  -- A flush of every page writes no page whose LSN is past the durable LSN, whether it returns or
  -- throws half-way.
  pub flush_all_pages-Keeps : (pool : Pool D) → Keeps pool → Keeps (flush_all_pages disk pool).1
  unfolding flush_all_pages sync_out
  flush_all_pages-Keeps pool k =
      then_do-keeps Keeps (write_all disk (length pool.frames) 0 pool) _
        (write_all-Keeps (length pool.frames) 0 pool k)
        (λ _ s ks.
          then_do-keeps Keeps (sync_out disk s) _ (ks.0, kept.sync_keeps s.disk ks.1)
            (λ _ t kt. kt))
