-- ===== src/Buffer/Pool/Invariant.antt =====
-- The bookkeeping of the pool: what it states, and the steps that keep it.
use resume_project.Common.{
  ℕ, ◌+◌, ◌<◌, ◌≡◌, ap, true, false, not, ◌&&◌, none, some, List, ◌∷◌, length, set, length-set,
  get_or-set, ltb, ◌==◌, arith,
}
use resume_project.Buffer.Table.{
  lookup, erase, mem, remove, IsDistinct, IsMap, mem-remove, IsDistinct-remove, mem-snoc,
  IsDistinct-snoc, lookup-erase, IsMap-erase, length-erase, lookup-cons, mem-cons,
}
use resume_project.Buffer.Pool.Defs.{
  Frame, Pool, frame_at, empty_frame, empty_frame-free, set_frame, remove_from_lru, make_evictable,
  reset_frame,
}
use resume_project.Buffer.Pool.Io.{give_back}

-- The page table and the frames agree, every frame is free or cached, and the LRU list holds the
-- cached frames that nobody has pinned.
pub record IsValid {D : Type 0} (pool : Pool D) : Type 0 where
  pub resident :
      (p f : ℕ)
      → lookup p pool.page_table ≡ some f
      → (f < length pool.frames)
        × ((frame_at pool.frames f).occupied ≡ true)
        × ((frame_at pool.frames f).page.id ≡ p)
  pub owned :
      (f : ℕ)
      → (frame_at pool.frames f).occupied ≡ true
      → lookup (frame_at pool.frames f).page.id pool.page_table ≡ some f
  pub free :
      (f : ℕ)
      → mem f pool.free_frames
        ≡ (ltb f (length pool.frames) && not (frame_at pool.frames f).occupied)
  pub evictable :
      (f : ℕ)
      → mem f pool.lru
        ≡ ((frame_at pool.frames f).occupied && (frame_at pool.frames f).pin_count == 0)
  pub is_map : IsMap pool.page_table
  pub free_distinct : IsDistinct pool.free_frames
  pub lru_distinct : IsDistinct pool.lru
  pub sizes : length pool.page_table + length pool.free_frames ≡ length pool.frames

-- Only the bookkeeping counts: not the disk, not the statistics.
pub IsValid-same :
    {D : Type 0} (a b : Pool D)
    → b.frames ≡ a.frames
    → b.page_table ≡ a.page_table
    → b.free_frames ≡ a.free_frames
    → b.lru ≡ a.lru
    → IsValid a
    → IsValid b
IsValid-same a b frames table free lru h = record {
  resident = λ p g e. rw frames (h.resident p g (rw table at e));
  owned = λ g. rw (frames, table) (h.owned g);
  free = λ g. rw (frames, free) (h.free g);
  evictable = λ g. rw (frames, lru) (h.evictable g);
  is_map = rw table h.is_map;
  free_distinct = rw free h.free_distinct;
  lru_distinct = rw lru h.lru_distinct;
  sizes = rw (frames, table, free) h.sizes;
}

module _ {D : Type 0} (pool : Pool D) (h : IsValid pool) (f : ℕ)
    (inside : f < length pool.frames) where
  -- A change of a frame that keeps its use and its page, and whether it is pinned.
  pub set_frame-IsValid :
      (v : Frame)
      → v.occupied ≡ (frame_at pool.frames f).occupied
      → (v.occupied ≡ true → (v.pin_count == 0) ≡ ((frame_at pool.frames f).pin_count == 0))
      → (v.occupied ≡ true → v.page.id ≡ (frame_at pool.frames f).page.id)
      → IsValid (set_frame f v pool)
  set_frame-IsValid v occupied pins id = record {
    resident = λ p g e. ground (
      arith,
      length-set pool.frames f v,
      get_or-set pool.frames f g v empty_frame,
      h.resident p g,
    );
    owned = λ g e. ground (arith, get_or-set pool.frames f g v empty_frame, h.owned g);
    free = λ g.
        ground
          (arith, length-set pool.frames f v, get_or-set pool.frames f g v empty_frame, h.free g);
    evictable = λ g. ground (arith, get_or-set pool.frames f g v empty_frame, h.evictable g);
    is_map = h.is_map;
    free_distinct = h.free_distinct;
    lru_distinct = h.lru_distinct;
    sizes = omega (arith, h.sizes, length-set pool.frames f v);
  }

  -- A pinned frame leaves the LRU list.
  pub pinned-IsValid :
      (v : Frame)
      → v.occupied ≡ (frame_at pool.frames f).occupied
      → (v.pin_count == 0) ≡ false
      → v.page.id ≡ (frame_at pool.frames f).page.id
      → IsValid (remove_from_lru f (set_frame f v pool))
  unfolding remove_from_lru
  pinned-IsValid v occupied pins id = record {
    resident = λ p g e. ground (
      arith,
      length-set pool.frames f v,
      get_or-set pool.frames f g v empty_frame,
      h.resident p g,
    );
    owned = λ g e. ground (arith, get_or-set pool.frames f g v empty_frame, h.owned g);
    free = λ g.
        ground
          (arith, length-set pool.frames f v, get_or-set pool.frames f g v empty_frame, h.free g);
    evictable = λ g. ground (
      arith,
      get_or-set pool.frames f g v empty_frame,
      h.evictable g,
      mem-remove pool.lru f g h.lru_distinct,
    );
    is_map = h.is_map;
    free_distinct = h.free_distinct;
    lru_distinct = IsDistinct-remove pool.lru f h.lru_distinct;
    sizes = omega (arith, h.sizes, length-set pool.frames f v);
  }

  -- A frame that loses its last pin goes to the end of the LRU list.
  pub unpinned-IsValid :
      (v : Frame)
      → v.occupied ≡ true
      → (frame_at pool.frames f).occupied ≡ true
      → (v.pin_count == 0) ≡ true
      → v.page.id ≡ (frame_at pool.frames f).page.id
      → IsValid (make_evictable f (set_frame f v pool))
  unfolding make_evictable
  unpinned-IsValid v occupied before pins id = record {
    resident = λ p g e. ground (
      arith,
      length-set pool.frames f v,
      get_or-set pool.frames f g v empty_frame,
      h.resident p g,
    );
    owned = λ g e. ground (arith, get_or-set pool.frames f g v empty_frame, h.owned g);
    free = λ g.
        ground
          (arith, length-set pool.frames f v, get_or-set pool.frames f g v empty_frame, h.free g);
    evictable = λ g. ground (
      arith,
      get_or-set pool.frames f g v empty_frame,
      h.evictable g,
      mem-remove pool.lru f g h.lru_distinct,
      mem-snoc (remove f pool.lru) f g,
    );
    is_map = h.is_map;
    free_distinct = h.free_distinct;
    lru_distinct =
        IsDistinct-snoc (remove f pool.lru) f (IsDistinct-remove pool.lru f h.lru_distinct)
          (ground (arith, mem-remove pool.lru f f h.lru_distinct));
    sizes = omega (arith, h.sizes, length-set pool.frames f v);
  }

  -- A cached frame is given back, and its page leaves the page table.
  pub discarded-IsValid :
      (id : ℕ)
      → lookup id pool.page_table ≡ some f
      → (frame_at pool.frames f).pin_count ≡ 0
      → IsValid (
          give_back f
            (record pool { lru = remove f pool.lru; page_table = erase id pool.page_table }))
  unfolding give_back reset_frame
  discarded-IsValid id e pins = record {
    resident = λ p g found. ground (
      arith,
      empty_frame-free,
      length-set pool.frames f empty_frame,
      get_or-set pool.frames f g empty_frame empty_frame,
      h.resident p g,
      h.resident id f,
      lookup-erase pool.page_table id p h.is_map,
    );
    owned = λ g used. ground (
      arith,
      empty_frame-free,
      get_or-set pool.frames f g empty_frame empty_frame,
      h.owned g,
      h.resident id f,
      lookup-erase pool.page_table id (frame_at pool.frames g).page.id h.is_map,
    );
    free = λ g. ground (
      arith,
      empty_frame-free,
      length-set pool.frames f empty_frame,
      get_or-set pool.frames f g empty_frame empty_frame,
      h.free g,
      mem-cons pool.free_frames f g,
    );
    evictable = λ g. ground (
      arith,
      empty_frame-free,
      get_or-set pool.frames f g empty_frame empty_frame,
      h.evictable g,
      mem-remove pool.lru f g h.lru_distinct,
    );
    is_map = IsMap-erase pool.page_table id h.is_map;
    free_distinct = (ground (arith, h.free f, h.resident id f), h.free_distinct);
    lru_distinct = IsDistinct-remove pool.lru f h.lru_distinct;
    sizes =
        omega (
          arith,
          h.sizes,
          length-set pool.frames f empty_frame,
          length-erase pool.page_table id f e,
        );
  }

  -- The last free frame is taken for a page that was not cached.
  pub loaded-IsValid :
      (id : ℕ) (v : Frame) (free : List ℕ)
      → lookup id pool.page_table ≡ none
      → pool.free_frames ≡ f ∷ free
      → v.occupied ≡ true
      → (v.pin_count == 0) ≡ false
      → v.page.id ≡ id
      → IsValid (record pool {
        frames = set pool.frames f v;
        free_frames = free;
        page_table = (id, f) ∷ pool.page_table;
      })
  loaded-IsValid id v free absent head used pins same = record {
    resident = λ p g found. ground (
      arith,
      length-set pool.frames f v,
      get_or-set pool.frames f g v empty_frame,
      h.resident p g,
      unused,
      lookup-cons pool.page_table id f p,
    );
    owned = λ g occupied. ground (
      arith,
      get_or-set pool.frames f g v empty_frame,
      h.owned g,
      absent,
      lookup-cons pool.page_table id f id,
      lookup-cons pool.page_table id f (frame_at pool.frames g).page.id,
    );
    free = λ g. ground (
      arith,
      length-set pool.frames f v,
      get_or-set pool.frames f g v empty_frame,
      rw head at (h.free g),
      mem-cons free f g,
      apart,
    );
    evictable =
        λ g. ground (arith, get_or-set pool.frames f g v empty_frame, h.evictable g, unused);
    is_map = (absent, h.is_map);
    free_distinct = (rw head at h.free_distinct).1;
    lru_distinct = h.lru_distinct;
    sizes =
        omega (arith, h.sizes, ap (λ (xs : List ℕ). length xs) head, length-set pool.frames f v);
  }
    where
      unused : (frame_at pool.frames f).occupied ≡ false
      unused = ground (arith, rw head at (h.free f), mem-cons free f f)

      apart : mem f free ≡ false
      apart = (rw head at h.free_distinct).0
