-- ===== src/Buffer/Pool/FlushAll.antt =====
-- `flush_all_pages` keeps the bookkeeping valid.
use resume_project.Common.{
  ℕ, zero, suc, ◌+◌, ◌≡◌, refl, ap, List, [], ◌∷◌, length, arith, ok, then_do-keeps, if-keeps, ◌&&◌,
}
use resume_project.Buffer.Pool.Disk.{Disk}
use resume_project.Buffer.Pool.Defs.{
  Frame, Pool, frame_at, empty_frame-free, require_mutations_finalized, require_wal_durable,
}
use resume_project.Buffer.Pool.Io.{write_out, write_frame}
use resume_project.Buffer.Pool.Invariant.{IsValid, IsValid-same}
use resume_project.Buffer.Pool.Io.{flush_all_pages, write_all, clean_frames, sync_out, clean_frame}

clean_frames-at :
    (frames : List Frame) (f : ℕ)
    → frame_at (clean_frames frames) f ≡ clean_frame (frame_at frames f)
unfolding clean_frames
clean_frames-at [] f = ground (arith, empty_frame-free)
clean_frames-at (x ∷ xs) zero = refl
clean_frames-at (x ∷ xs) (suc f) = clean_frames-at xs f

length-clean_frames : (frames : List Frame) → length (clean_frames frames) ≡ length frames
unfolding clean_frames
length-clean_frames [] = refl
length-clean_frames (x ∷ xs) = ap suc (length-clean_frames xs)

clean_frames-IsValid :
    {D : Type 0} (pool : Pool D)
    → IsValid pool
    → IsValid (record pool { frames = clean_frames pool.frames })
clean_frames-IsValid pool h = record {
  resident = λ p g e.
      ground
        (arith, length-clean_frames pool.frames, clean_frames-at pool.frames g, h.resident p g);
  owned = λ g e. ground (arith, clean_frames-at pool.frames g, h.owned g);
  free =
      λ g. ground (arith, length-clean_frames pool.frames, clean_frames-at pool.frames g, h.free g);
  evictable = λ g. ground (arith, clean_frames-at pool.frames g, h.evictable g);
  is_map = h.is_map;
  free_distinct = h.free_distinct;
  lru_distinct = h.lru_distinct;
  sizes = omega (arith, h.sizes, length-clean_frames pool.frames);
}

module _ {D : Type 0} (disk : Disk D) where
  write_frame-IsValid : (f : ℕ) (pool : Pool D) → IsValid pool → IsValid (write_frame disk f pool).1
  unfolding write_frame write_out require_mutations_finalized require_wal_durable
  write_frame-IsValid f pool h =
      IsValid-same pool _ (ground arith) (ground arith) (ground arith) (ground arith) h

  write_all-IsValid : (n f : ℕ) (pool : Pool D) → IsValid pool → IsValid (write_all disk n f pool).1
  unfolding write_all
  write_all-IsValid zero f pool h = h
  write_all-IsValid (suc n) f pool h =
      then_do-keeps IsValid _ (λ _ s. write_all disk n (f + 1) s)
        (if-keeps IsValid ((frame_at pool.frames f).occupied && (frame_at pool.frames f).dirty)
          (write_frame disk f pool) (ok tt, pool) (write_frame-IsValid f pool h) h)
        (λ _ s hs. write_all-IsValid n (f + 1) s hs)

  sync_out-IsValid : (pool : Pool D) → IsValid pool → IsValid (sync_out disk pool).1
  unfolding sync_out
  sync_out-IsValid pool h = IsValid-same pool _ refl refl refl refl h

  -- A flush of every page keeps a valid pool valid, whether it returns or throws half-way.
  pub flush_all_pages-IsValid :
      (pool : Pool D) → IsValid pool → IsValid (flush_all_pages disk pool).1
  unfolding flush_all_pages
  flush_all_pages-IsValid pool h =
      then_do-keeps IsValid (write_all disk (length pool.frames) 0 pool) _
        (write_all-IsValid (length pool.frames) 0 pool h)
        (λ _ s hs.
          then_do-keeps IsValid (sync_out disk s) _ (sync_out-IsValid s hs)
            (λ _ t ht. clean_frames-IsValid t ht))
