-- ===== src/Buffer/Pool/Check.antt =====
-- `validate_invariants`, the check that the tests call, against the invariant.
use resume_project.Common.{
  ℕ, ◌+◌, ◌<◌, ◌≡◌, ◌↔◌, refl, Bool, true, false, not, ◌&&◌, ◌||◌, some, List, [], ◌∷◌, ◌++◌,
  length, ltb, ◌==◌, ==_self, length-append, get_or-beyond, arith,
}
use resume_project.Buffer.Table.{
  lookup, mem, mem-append, mem-covers, IsMap, IsDistinct, distinct, distinct-IsDistinct,
  IsDistinct-distinct,
}
use resume_project.Buffer.Pool.Defs.{Pool, frame_at, empty_frame, empty_frame-free}
use resume_project.Buffer.Pool.Invariant.{IsValid}

abbrev pub agrees : Bool → Bool → Bool
agrees true b = b
agrees false b = not b

module _ {D : Type 0} (pool : Pool D) where
  check_entries : List (ℕ × ℕ) → Bool
  check_entries [] = true
  check_entries ((p, f) ∷ t) =
      let frame = frame_at pool.frames f in
      ltb f (length pool.frames)
      && frame.occupied
      && frame.page.id == p
      && agrees (frame.pin_count == 0) (mem f pool.lru)
      && check_entries t

  check_free : List ℕ → Bool
  check_free [] = true
  check_free (f ∷ fs) =
      ltb f (length pool.frames)
      && not (frame_at pool.frames f).occupied
      && not (mem f pool.lru)
      && check_free fs

  check_lru : List ℕ → Bool
  check_lru [] = true
  check_lru (f ∷ fs) =
      let frame = frame_at pool.frames f in
      ltb f (length pool.frames) && frame.occupied && frame.pin_count == 0 && check_lru fs

  -- `lru_positions_` has a key for each frame of the list.
  pub validate_invariants : Bool
  validate_invariants =
      length pool.page_table + length pool.free_frames == length pool.frames
      && check_entries pool.page_table
      && check_free pool.free_frames
      && length pool.lru == length (distinct pool.lru)
      && check_lru pool.lru

  module _ (h : IsValid pool) where
    check_entries-IsValid :
        (t : List (ℕ × ℕ))
        → IsMap t
        → ((p f : ℕ) → lookup p t ≡ some f → lookup p pool.page_table ≡ some f)
        → check_entries t ≡ true
    unfolding check_entries lookup
    check_entries-IsValid [] m sub = refl
    check_entries-IsValid ((p, f) ∷ t) m sub = ground (
      arith,
      h.resident p f,
      h.evictable f,
      sub p f,
      ==_self p,
      check_entries-IsValid t m.1 (λ q g e. sub q g (ground (arith, m.0, e))),
    )

    check_free-IsValid :
        (fs : List ℕ)
        → ((f : ℕ) → mem f fs ≡ true → mem f pool.free_frames ≡ true)
        → check_free fs ≡ true
    unfolding check_free mem
    check_free-IsValid [] sub = refl
    check_free-IsValid (f ∷ fs) sub = ground (
      arith,
      sub f,
      ==_self f,
      h.free f,
      h.evictable f,
      check_free-IsValid fs (λ g e. sub g (ground (arith, e))),
    )

    check_lru-IsValid :
        (fs : List ℕ) → ((f : ℕ) → mem f fs ≡ true → mem f pool.lru ≡ true) → check_lru fs ≡ true
    unfolding check_lru mem
    check_lru-IsValid [] sub = refl
    check_lru-IsValid (f ∷ fs) sub = ground (
      arith,
      sub f,
      ==_self f,
      h.evictable f,
      h.owned f,
      h.resident (frame_at pool.frames f).page.id f,
      check_lru-IsValid fs (λ g e. sub g (ground (arith, e))),
    )

    IsValid-validate_invariants : validate_invariants ≡ true
    unfolding validate_invariants
    IsValid-validate_invariants = ground (
      arith,
      h.sizes,
      check_entries-IsValid pool.page_table h.is_map (λ p f e. e),
      check_free-IsValid pool.free_frames (λ f e. e),
      IsDistinct-distinct pool.lru h.lru_distinct,
      check_lru-IsValid pool.lru (λ f e. e),
    )

  check_entries_sound :
      (t : List (ℕ × ℕ)) (p f : ℕ)
      → check_entries t ≡ true
      → lookup p t ≡ some f
      → (f < length pool.frames)
        × ((frame_at pool.frames f).occupied ≡ true)
        × ((frame_at pool.frames f).page.id ≡ p)
        × (((frame_at pool.frames f).pin_count == 0) ≡ mem f pool.lru)
  unfolding check_entries lookup
  check_entries_sound [] p f e found = absurd (ground arith)
  check_entries_sound ((q, g) ∷ t) p f e found = ground (arith, check_entries_sound t p f)

  check_free_sound :
      (fs : List ℕ) (f : ℕ)
      → check_free fs ≡ true
      → mem f fs ≡ true
      → (f < length pool.frames) × ((frame_at pool.frames f).occupied ≡ false)
  unfolding check_free mem
  check_free_sound [] f e found = absurd (ground arith)
  check_free_sound (g ∷ fs) f e found = ground (arith, check_free_sound fs f)

  check_lru_sound :
      (fs : List ℕ) (f : ℕ)
      → check_lru fs ≡ true
      → mem f fs ≡ true
      → ((frame_at pool.frames f).occupied ≡ true) × ((frame_at pool.frames f).pin_count ≡ 0)
  unfolding check_lru mem
  check_lru_sound [] f e found = absurd (ground arith)
  check_lru_sound (g ∷ fs) f e found = ground (arith, check_lru_sound fs f)

  -- The frames of the page table.
  frames_of : List (ℕ × ℕ) → List ℕ
  frames_of [] = []
  frames_of ((p, f) ∷ t) = f ∷ frames_of t

  -- A frame of the table has an entry, under the id of its page.
  frames_of_lem :
      (t : List (ℕ × ℕ)) (f : ℕ)
      → check_entries t ≡ true
      → IsMap t
      → mem f (frames_of t) ≡ true
      → lookup (frame_at pool.frames f).page.id t ≡ some f
  unfolding check_entries mem lookup frames_of
  frames_of_lem [] f e m found = absurd (ground arith)
  frames_of_lem ((p, g) ∷ t) f e m found =
      ground (arith, m.0, frames_of_lem t f (ground (arith, e)) m.1)

  length-frames_of : (t : List (ℕ × ℕ)) → length (frames_of t) ≡ length t
  unfolding frames_of
  length-frames_of [] = refl
  length-frames_of ((p, f) ∷ t) = omega (arith, length-frames_of t)

  -- The frames of the table and the free ones are different ones.
  frames-IsDistinct :
      (t : List (ℕ × ℕ))
      → check_entries t ≡ true
      → IsMap t
      → check_free pool.free_frames ≡ true
      → IsDistinct pool.free_frames
      → IsDistinct (frames_of t ++ pool.free_frames)
  unfolding check_entries frames_of
  frames-IsDistinct [] e m free d = d
  frames-IsDistinct ((p, f) ∷ t) e m free d = (
    ground (
      arith,
      mem-append (frames_of t) pool.free_frames f,
      check_free_sound pool.free_frames f free,
      frames_of_lem t f (ground (arith, e)) m.1,
      m.0,
    ),
    frames-IsDistinct t (ground (arith, e)) m.1 free d,
  )

  module _ (is_map : IsMap pool.page_table) (free_distinct : IsDistinct pool.free_frames)
      (lru_distinct : IsDistinct pool.lru) (entries : check_entries pool.page_table ≡ true)
      (free : check_free pool.free_frames ≡ true) (lru : check_lru pool.lru ≡ true)
      (sizes : length pool.page_table + length pool.free_frames ≡ length pool.frames) where
    -- Every frame is in the table or free.
    is_used :
        (f : ℕ)
        → f < length pool.frames
        → (mem f (frames_of pool.page_table) || mem f pool.free_frames) ≡ true
    is_used f inside =
        let total = length-append (frames_of pool.page_table) pool.free_frames in
        let count = length-frames_of pool.page_table in
        let found =
          mem-covers (frames_of pool.page_table ++ pool.free_frames) f
            (frames-IsDistinct pool.page_table entries is_map free free_distinct)
            (λ x m. ground (
              arith,
              mem-append (frames_of pool.page_table) pool.free_frames x,
              check_free_sound pool.free_frames x free,
              frames_of_lem pool.page_table x entries is_map,
              check_entries_sound pool.page_table (frame_at pool.frames x).page.id x entries,
              total,
              count,
              sizes,
            ))
            (omega (arith, inside, total, count, sizes)) in
        ground (arith, mem-append (frames_of pool.page_table) pool.free_frames f, found)

    inside_occupied : (f : ℕ) → (frame_at pool.frames f).occupied ≡ true → f < length pool.frames
    inside_occupied f used =
        ground (arith, get_or-beyond pool.frames f empty_frame, empty_frame-free)

    owned_checked :
        (f : ℕ)
        → (frame_at pool.frames f).occupied ≡ true
        → lookup (frame_at pool.frames f).page.id pool.page_table ≡ some f
    owned_checked f used = ground (
      arith,
      inside_occupied f used,
      is_used f,
      check_free_sound pool.free_frames f free,
      frames_of_lem pool.page_table f entries is_map,
    )

    checked-IsValid : IsValid pool
    checked-IsValid = record {
      resident = λ p f e.
          let (inside, used, id, pins) = check_entries_sound pool.page_table p f entries e in
          (inside, used, id);
      owned = owned_checked;
      free = λ f. ground (
        arith,
        is_used f,
        check_free_sound pool.free_frames f free,
        frames_of_lem pool.page_table f entries is_map,
        check_entries_sound pool.page_table (frame_at pool.frames f).page.id f entries,
      );
      evictable = λ f. ground (
        arith,
        owned_checked f,
        check_entries_sound pool.page_table (frame_at pool.frames f).page.id f entries,
        check_lru_sound pool.lru f lru,
      );
      is_map = is_map;
      free_distinct = free_distinct;
      lru_distinct = lru_distinct;
      sizes = sizes;
    }

  -- For a pool whose page table is a map and whose list of free frames repeats none,
  -- `validate_invariants` returns true exactly when the pool is valid.
  pub validate_invariants-IsValid :
      IsMap pool.page_table
      → IsDistinct pool.free_frames
      → (validate_invariants ≡ true) ↔ IsValid pool
  unfolding validate_invariants
  validate_invariants-IsValid m free = (
    λ e.
        checked-IsValid m free (distinct-IsDistinct pool.lru (ground (arith, e)))
          (ground (arith, e)) (ground (arith, e)) (ground (arith, e)) (ground (arith, e)),
    IsValid-validate_invariants,
  )
