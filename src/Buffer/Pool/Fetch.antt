-- ===== src/Buffer/Pool/Fetch.antt =====
-- A fetch keeps the bookkeeping valid.
use resume_project.Common.{
  List-cases, ℕ, ◌+◌, ◌<◌, ◌≡◌, ◌≢◌, refl, sym, subst, ◌∙◌, true, false, none, some, List, ◌∷◌,
  length, ◌==◌, ==_self, arith, ◌⊎◌, inl, inr, Result, ok, err, Bool-cases, Option-cases, Option,
  then_do,
}
use resume_project.Storage.Page.{Page, is_valid}
use resume_project.Storage.Errors.{StorageError}
use resume_project.Buffer.Table.{lookup, erase, mem, remove, lookup-erase}
use resume_project.Buffer.Pool.Disk.{Disk}
use resume_project.Buffer.Pool.Defs.{
  Pool, PoolError, frame_at, empty_frame, empty_frame-free, reset_frame, max_u32,
}
use resume_project.Buffer.Pool.Io.{
  give_back, write_dirty_frame, evict, acquire_frame, place, load_page, load_acquired, pin_cached,
  fetch_page,
}
use resume_project.Buffer.Pool.Invariant.{
  IsValid, IsValid-same, set_frame-IsValid, pinned-IsValid, discarded-IsValid, loaded-IsValid,
}
use resume_project.Buffer.Pool.WriteBack.{write_dirty_frame-state, write_dirty_frame-IsValid}

-- `f` is taken off the free list and not yet used.
abbrev pub IsAcquired : {D : Type 0} → ℕ → Pool D → Type 0
IsAcquired f s = IsValid (record s { free_frames = f ∷ s.free_frames })

module _ {D : Type 0} where
  pub acquired-inside :
      (f : ℕ) (s : Pool D)
      → IsAcquired f s
      → (f < length s.frames) × ((frame_at s.frames f).occupied ≡ false)
  unfolding mem
  acquired-inside f s h = ground (arith, h.free f, ==_self f)

  pub give_back-IsValid : (f : ℕ) (s : Pool D) → IsAcquired f s → IsValid (give_back f s)
  unfolding give_back reset_frame
  give_back-IsValid f s h =
      let (inside, unused) = acquired-inside f s h in
      set_frame-IsValid (record s { free_frames = f ∷ s.free_frames }) h f inside empty_frame
        (ground (arith, empty_frame-free)) (λ e. ground (arith, empty_frame-free))
        (λ e. ground (arith, empty_frame-free))

module _ {D : Type 0} (disk : Disk D) where
  place-IsValid :
      (id f : ℕ) (result : Result StorageError Page) (s : Pool D)
      → IsAcquired f s
      → lookup id s.page_table ≡ none
      → ((page : Page) → result ≡ ok page → page.id ≡ id)
      → IsValid (place disk id f result s).1
  unfolding place
  place-IsValid id f (err e) s h absent same = give_back-IsValid f s h
  place-IsValid id f (ok page) s h absent same =
      let (inside, unused) = acquired-inside f s h in
      let v = record (frame_at s.frames f) {
        page = page;
        pin_count = 1;
        dirty = false;
        occupied = true;
      } in
      rw (absent, place)
        (IsValid-same _ _ refl refl refl refl (
          loaded-IsValid (record s { free_frames = f ∷ s.free_frames }) h f inside id v
            s.free_frames absent refl refl refl (same page refl)))

  pub load_page-IsValid :
      (id f : ℕ) (s : Pool D)
      → IsAcquired f s
      → lookup id s.page_table ≡ none
      → IsValid (load_page disk id f s).1
  unfolding load_page
  load_page-IsValid id f s h absent =
      place-IsValid id f (disk.read id s.disk).0 (record s { disk = (disk.read id s.disk).1 })
        (IsValid-same _ _ refl refl refl refl h) absent (disk.read_id s.disk id)

  -- The state after a write-back that returned.
  abbrev detached : ℕ → List ℕ → Pool D → Pool D
  detached victim rest s =
      reset_frame victim (record s {
        lru = rest;
        page_table = erase (frame_at s.frames victim).page.id s.page_table;
      })

  -- The victim, being evictable, is cached and unpinned.
  front_lem :
      (victim : ℕ) (rest : List ℕ) (s : Pool D)
      → IsValid s
      → s.lru ≡ victim ∷ rest
      → ((frame_at s.frames victim).pin_count ≡ 0)
        × (lookup (frame_at s.frames victim).page.id s.page_table ≡ some victim)
        × (victim < length s.frames)
  unfolding mem
  front_lem victim rest s h front =
      let listed : mem victim s.lru ≡ true = rw front (ground (arith, ==_self victim)) in
      ground (
        arith,
        listed,
        h.evictable victim,
        h.owned victim,
        h.resident (frame_at s.frames victim).page.id victim,
      )

  detached-IsAcquired :
      (victim : ℕ) (rest : List ℕ) (s : Pool D)
      → IsValid s
      → s.lru ≡ victim ∷ rest
      → IsAcquired victim (detached victim rest s)
  unfolding give_back reset_frame remove
  detached-IsAcquired victim rest s h front =
      let (pins, cached, inside) = front_lem victim rest s h front in
      IsValid-same
        (give_back victim (record s {
          lru = remove victim s.lru;
          page_table = erase (frame_at s.frames victim).page.id s.page_table;
        }))
        _ refl refl refl (rw front (rw (==_self victim) refl))
        (discarded-IsValid s h victim inside (frame_at s.frames victim).page.id cached pins)

  detached-table :
      (victim : ℕ) (rest : List ℕ) (s : Pool D)
      → (detached victim rest s).page_table ≡ erase (frame_at s.frames victim).page.id s.page_table
  unfolding reset_frame
  detached-table victim rest s = refl

  evict-state :
      (victim : ℕ) (rest : List ℕ) (pool : Pool D)
      → ((x : PoolError) × ((evict disk victim rest pool).0 ≡ err x)
          × ((evict disk victim rest pool).1 ≡ (write_dirty_frame disk victim pool).1))
        ⊎ ((evict disk victim rest pool).0 ≡ ok (some victim))
          × ((evict disk victim rest pool).1
              ≡ detached victim rest (write_dirty_frame disk victim pool).1)
  unfolding evict
  evict-state victim rest pool = ground arith

  -- What an acquisition leaves: a valid pool, or one with a free frame taken, and no new entry in the
  -- page table.
  abbrev pub Acquires : Pool D → Result PoolError (Option ℕ) × Pool D → Type 0
  Acquires pool (r, s) =
      (((f : ℕ) → r ≢ ok (some f)) × IsValid s)
      ⊎ ((f : ℕ) × (r ≡ ok (some f))
          × IsAcquired f s
          × ((id : ℕ) → lookup id pool.page_table ≡ none → lookup id s.page_table ≡ none))

  evict-IsValid :
      (victim : ℕ) (rest : List ℕ) (pool : Pool D)
      → IsValid pool
      → pool.lru ≡ victim ∷ rest
      → Acquires pool (evict disk victim rest pool)
  evict-IsValid victim rest pool h front =
      let (pins, cached, inside) = front_lem victim rest pool h front in
      let s = (write_dirty_frame disk victim pool).1 in
      let hs = write_dirty_frame-IsValid disk victim pool h inside in
      let (table, free, lru, frames) = write_dirty_frame-state disk victim pool in
      elim (evict-state victim rest pool) [
        | inl (x, thrown, state) ↦ inl ((λ f e. cc (thrown, e)), rw state hs)
        | inr (done, state) ↦ inr (
          victim,
          done,
          rw state (detached-IsAcquired victim rest s hs (lru ∙ front)),
          λ id absent. ground (
            arith,
            absent,
            table,
            state,
            detached-table victim rest s,
            lookup-erase s.page_table (frame_at s.frames victim).page.id id hs.is_map,
          ),
        )
      ]

  pub acquire_frame-IsValid :
      (pool : Pool D) → IsValid pool → Acquires pool (acquire_frame disk pool)
  unfolding acquire_frame
  acquire_frame-IsValid pool h = elim (List-cases pool.free_frames) [
    | inr (f, free, e) ↦
        rw (acquire_frame, e)
          (inr (f, refl, IsValid-same _ _ refl refl (sym e) refl h, λ id absent. absent))
    | inl e ↦ elim (List-cases pool.lru) [
      | inl empty ↦ rw (acquire_frame, e, empty) (inl ((λ f none_some. cc), h))
      | inr (victim, rest, front) ↦
          rw (acquire_frame, e, front) (evict-IsValid victim rest pool h front)
    ]
  ]

  load_acquired-IsValid :
      (id : ℕ) (pool : Pool D) (r : Result PoolError (Option ℕ)) (s : Pool D)
      → lookup id pool.page_table ≡ none
      → Acquires pool (r, s)
      → IsValid (then_do (r, s) (λ acquired t. load_acquired disk id acquired t)).1
  unfolding load_acquired
  load_acquired-IsValid id pool (err e) s absent (inl (never, h)) = h
  load_acquired-IsValid id pool (err e) s absent (inr (f, same, h, kept)) = cc
  load_acquired-IsValid id pool (ok none) s absent (inl (never, h)) = h
  load_acquired-IsValid id pool (ok none) s absent (inr (f, same, h, kept)) = cc
  load_acquired-IsValid id pool (ok (some f)) s absent (inl (never, h)) = absurd (never f refl)
  load_acquired-IsValid id pool (ok (some f)) s absent (inr (g, same, h, kept)) =
      let e : g ≡ f = ground arith in
      load_page-IsValid id f s (subst (λ x. IsAcquired x s) e h) (kept id absent)

  pin_cached-IsValid :
      (id f : ℕ) (pool : Pool D)
      → IsValid pool
      → lookup id pool.page_table ≡ some f
      → IsValid (pin_cached f pool).1
  unfolding pin_cached
  pin_cached-IsValid id f pool h e =
      elim (Bool-cases ((frame_at pool.frames f).pin_count == max_u32)) [
        | inl full ↦ rw (full, pin_cached) h
        | inr room ↦
            rw (room, pin_cached)
              (pinned-IsValid
                (record pool {
                  stats = record pool.stats { cache_hits = pool.stats.cache_hits + 1 };
                })
                (IsValid-same pool _ refl refl refl refl h) f (h.resident id f e).0 _ refl
                (ground arith) refl)
      ]

  -- A fetch keeps the bookkeeping of a valid pool valid, whatever it returns or throws: hit, miss,
  -- eviction, failed write-back and failed read.
  pub fetch_page-IsValid :
      (id : ℕ) (pool : Pool D) → IsValid pool → IsValid (fetch_page disk id pool).1
  unfolding fetch_page
  fetch_page-IsValid id pool h =
      let counted : Pool D = record pool {
        stats = record pool.stats { fetches = pool.stats.fetches + 1 };
      } in
      let hc = IsValid-same pool counted refl refl refl refl h in
      elim (Bool-cases (is_valid id)) [
        | inr invalid ↦ rw (invalid, fetch_page) hc
        | inl valid ↦ elim (Bool-cases (disk.is_allocated pool.disk id)) [
          | inr off ↦ rw (valid, off, fetch_page) hc
          | inl on ↦ elim (Option-cases (lookup id pool.page_table)) [
            | inl absent ↦
                rw (valid, on, absent, fetch_page)
                  (load_acquired-IsValid id counted (acquire_frame disk counted).0
                    (acquire_frame disk counted).1 absent (acquire_frame-IsValid counted hc))
            | inr (f, cached) ↦
                rw (valid, on, cached, fetch_page) (pin_cached-IsValid id f counted hc cached)
          ]
        ]
      ]
