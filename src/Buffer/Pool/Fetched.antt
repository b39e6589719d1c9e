-- ===== src/Buffer/Pool/Fetched.antt =====
-- What a fetch returns.
use resume_project.Common.{
  ℕ, ◌+◌, ◌<◌, ◌≡◌, refl, subst, true, false, none, some, length, get_or-set, arith, inl, inr,
  Result, ok, err, Bool-cases, Option-cases, Option, then_do,
}
use resume_project.Storage.Page.{Page, is_valid}
use resume_project.Storage.Errors.{StorageError}
use resume_project.Buffer.Table.{lookup, lookup-cons}
use resume_project.Buffer.Pool.Disk.{Disk}
use resume_project.Buffer.Pool.Defs.{
  Frame, Pool, PoolError, frame_at, empty_frame, max_u32, remove_from_lru,
}
use resume_project.Buffer.Pool.Io.{
  acquire_frame, place, load_page, load_acquired, pin_cached, fetch_page,
}
use resume_project.Buffer.Pool.Invariant.{IsValid, IsValid-same}
use resume_project.Buffer.Pool.Fetch.{IsAcquired, Acquires, acquired-inside, acquire_frame-IsValid}

-- Frame `f` is cached for page `id`, and nobody may evict it.
abbrev pub IsPinned : {D : Type 0} → ℕ → ℕ → Pool D → Type 0
IsPinned id f s =
    (lookup id s.page_table ≡ some f)
    × ((frame_at s.frames f).page.id ≡ id)
    × (0 < (frame_at s.frames f).pin_count)

module _ {D : Type 0} (disk : Disk D) where
  place-IsPinned :
      (id f g : ℕ) (result : Result StorageError Page) (s : Pool D)
      → f < length s.frames
      → lookup id s.page_table ≡ none
      → ((page : Page) → result ≡ ok page → page.id ≡ id)
      → (place disk id f result s).0 ≡ ok (some g)
      → IsPinned id g (place disk id f result s).1
  unfolding place
  place-IsPinned id f g (err e) s inside absent same done = cc
  place-IsPinned id f g (ok page) s inside absent same done =
      let v : Frame = record (frame_at s.frames f) {
        page = page;
        pin_count = 1;
        dirty = false;
        occupied = true;
      } in
      ground (
        arith,
        absent,
        get_or-set s.frames f f v empty_frame,
        same page refl,
        lookup-cons s.page_table id f id,
      )

  load_acquired-IsPinned :
      (id g : ℕ) (pool : Pool D) (r : Result PoolError (Option ℕ)) (s : Pool D)
      → lookup id pool.page_table ≡ none
      → Acquires disk pool (r, s)
      → (then_do (r, s) (λ acquired t. load_acquired disk id acquired t)).0 ≡ ok (some g)
      → IsPinned id g (then_do (r, s) (λ acquired t. load_acquired disk id acquired t)).1
  unfolding load_acquired load_page
  load_acquired-IsPinned id g pool (err e) s absent a done = cc
  load_acquired-IsPinned id g pool (ok none) s absent a done = cc
  load_acquired-IsPinned id g pool (ok (some f)) s absent (inl (never, h)) done =
      absurd (never f refl)
  load_acquired-IsPinned id g pool (ok (some f)) s absent (inr (x, same, h, kept)) done =
      let e : x ≡ f = ground arith in
      place-IsPinned id f g (disk.read id s.disk).0 (record s { disk = (disk.read id s.disk).1 })
        (acquired-inside f s (subst (λ y. IsAcquired y s) e h)).0 (kept id absent)
        (disk.read_id s.disk id) done

  pin_cached-IsPinned :
      (id f g : ℕ) (pool : Pool D)
      → IsValid pool
      → lookup id pool.page_table ≡ some f
      → (pin_cached f pool).0 ≡ ok (some g)
      → IsPinned id g (pin_cached f pool).1
  unfolding pin_cached remove_from_lru
  pin_cached-IsPinned id f g pool h e done =
      let v : Frame = record (frame_at pool.frames f) {
        pin_count = (frame_at pool.frames f).pin_count + 1;
      } in
      ground (arith, get_or-set pool.frames f f v empty_frame, h.resident id f e)

  abbrev Pins : ℕ → ℕ → Result PoolError (Option ℕ) × Pool D → Type 0
  Pins id f q = q.0 ≡ ok (some f) → IsPinned id f q.1

  fetch_page-Pins : (id f : ℕ) (pool : Pool D) → IsValid pool → Pins id f (fetch_page disk id pool)
  unfolding fetch_page
  fetch_page-Pins id f pool h =
      let counted : Pool D = record pool {
        stats = record pool.stats { fetches = pool.stats.fetches + 1 };
      } in
      let hc = IsValid-same pool counted refl refl refl refl h in
      elim (Bool-cases (is_valid id)) [
        | inr invalid ↦ rw (invalid, fetch_page) (λ d. cc)
        | inl valid ↦ elim (Bool-cases (disk.is_allocated pool.disk id)) [
          | inr off ↦ rw (valid, off, fetch_page) (λ d. cc)
          | inl on ↦ elim (Option-cases (lookup id pool.page_table)) [
            | inl absent ↦
                rw (valid, on, absent, fetch_page)
                  (load_acquired-IsPinned id f counted (acquire_frame disk counted).0
                    (acquire_frame disk counted).1 absent (acquire_frame-IsValid disk counted hc))
            | inr (g, cached) ↦
                rw (valid, on, cached, fetch_page) (pin_cached-IsPinned id g f counted hc cached)
          ]
        ]
      ]

  -- When a fetch of a page from a valid pool returns a frame, the page table has that frame for
  -- the page, the frame holds a page of that id, and it is pinned.
  pub fetch_page-IsPinned :
      (id f : ℕ) (pool : Pool D)
      → IsValid pool
      → (fetch_page disk id pool).0 ≡ ok (some f)
      → IsPinned id f (fetch_page disk id pool).1
  fetch_page-IsPinned id f pool h done = fetch_page-Pins id f pool h done

  -- On a valid pool, fetching a valid, allocated page that is cached with fewer than 2^32 - 1 pins
  -- returns its frame with one pin more, and does not touch the disk.
  pub fetch_page-hit :
      (id f : ℕ) (pool : Pool D)
      → IsValid pool
      → is_valid id ≡ true
      → disk.is_allocated pool.disk id ≡ true
      → lookup id pool.page_table ≡ some f
      → (frame_at pool.frames f).pin_count < max_u32
      → ((fetch_page disk id pool).0 ≡ ok (some f))
        × ((frame_at (fetch_page disk id pool).1.frames f).pin_count
            ≡ (frame_at pool.frames f).pin_count + 1)
        × ((fetch_page disk id pool).1.disk ≡ pool.disk)
  unfolding fetch_page pin_cached remove_from_lru
  fetch_page-hit id f pool h valid allocated cached room =
      let v : Frame = record (frame_at pool.frames f) {
        pin_count = (frame_at pool.frames f).pin_count + 1;
      } in
      ground (arith, get_or-set pool.frames f f v empty_frame, h.resident id f cached)

  -- The same fetch leaves the page in the frame as it is.
  pub fetch_page-page :
      (id f : ℕ) (pool : Pool D)
      → IsValid pool
      → is_valid id ≡ true
      → disk.is_allocated pool.disk id ≡ true
      → lookup id pool.page_table ≡ some f
      → (frame_at pool.frames f).pin_count < max_u32
      → (frame_at (fetch_page disk id pool).1.frames f).page ≡ (frame_at pool.frames f).page
  unfolding fetch_page pin_cached remove_from_lru
  fetch_page-page id f pool h valid allocated cached room =
      let v : Frame = record (frame_at pool.frames f) {
        pin_count = (frame_at pool.frames f).pin_count + 1;
      } in
      ground (arith, get_or-set pool.frames f f v empty_frame, h.resident id f cached)
