-- ===== src/Buffer/Pool/Reads.antt =====
-- A page that is pinned and unpinned again, unwritten.
use resume_project.Common.{
  ℕ, ◌+◌, ◌-◌, ◌<◌, ◌≡◌, refl, ◌∙◌, true, false, ◌||◌, some, length, set, get_or-set_self, set-set,
  set-get_or, arith, ok,
}
use resume_project.Storage.Page.{is_valid}
use resume_project.Buffer.Table.{lookup}
use resume_project.Buffer.Pool.Disk.{Disk}
use resume_project.Buffer.Pool.Defs.{
  Frame, Pool, frame_at, empty_frame, max_u32, unpin_page, make_evictable, remove_from_lru,
}
use resume_project.Buffer.Pool.Io.{fetch_page, pin_cached}
use resume_project.Buffer.Pool.Invariant.{IsValid}
use resume_project.Buffer.Pool.Methods.{unpin_page-IsValid}
use resume_project.Buffer.Pool.Fetch.{fetch_page-IsValid}

abbrev pinned : {D : Type 0} → ℕ → Pool D → Frame
pinned f pool = record (frame_at pool.frames f) {
  pin_count = (frame_at pool.frames f).pin_count + 1;
}

-- What two pools share: the cache with its contents, and the disk.
abbrev pub IsSame : {D : Type 0} → Pool D → Pool D → Type 0
IsSame s t = (t.page_table ≡ s.page_table) × (t.frames ≡ s.frames) × (t.disk ≡ s.disk)

module _ {D : Type 0} (disk : Disk D) where
  fetch_page-frames :
      (id f : ℕ) (pool : Pool D)
      → is_valid id ≡ true
      → disk.is_allocated pool.disk id ≡ true
      → lookup id pool.page_table ≡ some f
      → (frame_at pool.frames f).pin_count < max_u32
      → ((fetch_page disk id pool).0 ≡ ok (some f))
        × ((fetch_page disk id pool).1.frames ≡ set pool.frames f (pinned f pool))
        × ((fetch_page disk id pool).1.page_table ≡ pool.page_table)
        × ((fetch_page disk id pool).1.disk ≡ pool.disk)
  unfolding fetch_page pin_cached remove_from_lru
  fetch_page-frames id f pool valid allocated cached room = ground arith

  unpin_page-frames :
      (id f : ℕ) (s : Pool D)
      → lookup id s.page_table ≡ some f
      → 0 < (frame_at s.frames f).pin_count
      → ((unpin_page id false s).0 ≡ ok true)
        × ((unpin_page id false s).1.frames
            ≡ set s.frames f (record (frame_at s.frames f) {
              pin_count = (frame_at s.frames f).pin_count - 1;
              dirty = (frame_at s.frames f).dirty || false;
            }))
        × ((unpin_page id false s).1.page_table ≡ s.page_table)
        × ((unpin_page id false s).1.disk ≡ s.disk)
  unfolding unpin_page make_evictable
  unpin_page-frames id f s cached pins = ground (arith, cached)

  -- The frame is as it was: one pin more, one pin less.
  restored :
      (f : ℕ) (pool : Pool D)
      → f < length pool.frames
      → set
          (set pool.frames f (pinned f pool))
          f
          (record (frame_at (set pool.frames f (pinned f pool)) f) {
            pin_count = (frame_at (set pool.frames f (pinned f pool)) f).pin_count - 1;
            dirty = (frame_at (set pool.frames f (pinned f pool)) f).dirty || false;
          })
        ≡ pool.frames
  restored f pool inside =
      let at_f = get_or-set_self pool.frames f (pinned f pool) empty_frame inside in
      rw (at_f, set-set pool.frames f)
        (same_frame (frame_at pool.frames f) ∙ set-get_or pool.frames f empty_frame inside)
    where
      same_frame :
          (v : Frame)
          → set pool.frames f
              (record v { pin_count = v.pin_count + 1 - 1; dirty = v.dirty || false })
            ≡ set pool.frames f v
      same_frame v = ground arith

  -- Fetching a cached page and unpinning it unwritten changes neither the cache nor the disk, only
  -- the order of eviction and the statistics.
  pub read_pinned-IsSame :
      (id f : ℕ) (pool : Pool D)
      → IsValid pool
      → is_valid id ≡ true
      → disk.is_allocated pool.disk id ≡ true
      → lookup id pool.page_table ≡ some f
      → (frame_at pool.frames f).pin_count < max_u32
      → let s = (fetch_page disk id pool).1 in
        ((fetch_page disk id pool).0 ≡ ok (some f))
        × ((frame_at s.frames f).page ≡ (frame_at pool.frames f).page)
        × ((unpin_page id false s).0 ≡ ok true)
        × IsSame pool (unpin_page id false s).1
        × IsValid (unpin_page id false s).1
  read_pinned-IsSame id f pool h valid allocated cached room =
      let inside = (h.resident id f cached).0 in
      let s = (fetch_page disk id pool).1 in
      let (hit, frames, table, same) = fetch_page-frames id f pool valid allocated cached room in
      let at_f = get_or-set_self pool.frames f (pinned f pool) empty_frame inside in
      let one : 0 < (frame_at s.frames f).pin_count = rw (frames, at_f) (omega arith) in
      let (done, back, kept, untouched) = unpin_page-frames id f s (rw table cached) one in
      (
        hit,
        rw (frames, at_f) refl,
        done,
        (kept ∙ table, rw (back, frames) (restored f pool inside), untouched ∙ same),
        unpin_page-IsValid id false s (fetch_page-IsValid disk id pool h),
      )
