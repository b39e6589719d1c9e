-- ===== src/Execution/SlotPage/Slots.antt =====
-- Data pages: what a new tuple and an erased one do to the slots.
use resume_project.Common.{
  ℕ, ◌+◌, ◌-◌, ◌%◌, ◌^◌, ◌≤◌, ◌<◌, ◌≡◌, ◌⊎◌, refl, sym, ◌∙◌, ap, true, false, some, List, ◌++◌,
  length, drop, ltb, leb, arith, inl, inr, get16, Bool-cases,
}
use resume_project.Storage.Page.{page_payload_size}
use resume_project.Execution.SlotPage.{
  splice, has_magic, data_magic, slot_count, directory_end, tuples_start, slot_at, slot_offset,
  slot_length, slot_size, is_live, has_room, store_tuple, add_tuple, tuple_bytes,
}
use resume_project.Execution.SlotPage.Splice.{drop-splice, drop-splice_behind}
use resume_project.Execution.SlotPage.Store.{
  length-new_page, counts_below, slot_beyond, new_end, new_directory, new_count, new_offset,
  new_length, new_live, bytes_kept, new_magic, new_page, live,
}

-- The tests of `validate_invariants` on a page, but for the tuples' own bytes.
pub record IsDataPage (payload : List ℕ) : Type 0 where
  pub full : length payload ≡ page_payload_size
  pub magic : has_magic payload data_magic ≡ true
  pub directory : directory_end payload ≡ slot_at (slot_count payload)
  pub ordered : directory_end payload ≤ tuples_start payload
  pub inside : tuples_start payload ≤ page_payload_size
  pub tuples :
      (i : ℕ)
      → i < slot_count payload
      → is_live payload i ≡ true
      → (tuples_start payload ≤ slot_offset payload i)
        × (slot_offset payload i + slot_length payload i ≤ page_payload_size)

lt-or-eq : (i n : ℕ) → i < n + 1 → (i < n) ⊎ (i ≡ n)
lt-or-eq i n h = ground arith

-- Two pages that agree on slot `i`.
pub same_slot :
    (p q : List ℕ) (i : ℕ)
    → has_magic q data_magic ≡ has_magic p data_magic
    → leb (slot_count q) i ≡ leb (slot_count p) i
    → slot_offset q i ≡ slot_offset p i
    → slot_length q i ≡ slot_length p i
    → get16 q (slot_at i + 4) ≡ get16 p (slot_at i + 4)
    → (is_live p i ≡ true → drop (slot_offset p i) q ≡ drop (slot_offset p i) p)
    → tuple_bytes q i ≡ tuple_bytes p i
unfolding tuple_bytes is_live
same_slot p q i magic count offset size alive bytes =
    rw (magic, count, alive, offset, size)
      (elim (Bool-cases (is_live p i)) [
        | inl live ↦ rw (bytes live) refl
        | inr dead ↦ ground (arith, dead)
      ])

-- Where the new tuple goes.
abbrev tuple_end : List ℕ → List ℕ → ℕ
tuple_end payload bytes = tuples_start payload - length bytes

module _ (payload bytes : List ℕ) (page : IsDataPage payload)
    (room : has_room payload (length bytes) ≡ true) where
  fits : directory_end payload + (slot_size + length bytes) ≤ tuples_start payload
  unfolding has_room
  fits = ground (arith, page.ordered, page.inside)

  add_tuple-new_page :
      add_tuple payload bytes
      ≡ new_page payload bytes
          (slot_count payload)
          (directory_end payload)
          (tuple_end payload bytes)
  unfolding add_tuple store_tuple
  add_tuple-new_page =
      ap (λ e. store_tuple payload bytes (slot_count payload) (directory_end payload) e)
        (wraps (tuples_start payload) (length bytes) (omega (arith, fits))
          (omega (arith, page.inside)))
    where
      wraps : (t n : ℕ) → n ≤ t → t < 2 ^ 16 → (t + 2 ^ 16 - n) % 2 ^ 16 ≡ t - n
      wraps t n h g = omega arith

  full_end : directory_end payload + slot_size ≤ tuple_end payload bytes
  full_end = omega (arith, fits)

  full_page : tuple_end payload bytes + length bytes ≤ page_payload_size
  full_page = omega (arith, fits, page.inside)

  abbrev page_after : List ℕ
  page_after =
      new_page payload bytes (slot_count payload) (directory_end payload) (tuple_end payload bytes)

  magic_after : has_magic page_after data_magic ≡ true
  unfolding has_magic
  magic_after =
      rw
        (new_magic payload bytes (slot_count payload) (directory_end payload)
          (tuple_end payload bytes) page.full page.directory full_end full_page)
        page.magic

  count_after : slot_count page_after ≡ slot_count payload + 1
  count_after =
      new_count payload bytes (slot_count payload) (directory_end payload) (tuple_end payload bytes)
        page.full page.directory full_end full_page

  start_after : tuples_start page_after ≡ tuple_end payload bytes
  start_after =
      new_end payload bytes (slot_count payload) (directory_end payload) (tuple_end payload bytes)
        page.full page.directory full_end full_page

  live_after : is_live page_after (slot_count payload) ≡ true
  unfolding is_live
  live_after =
      rw
        (new_live payload bytes (slot_count payload) (directory_end payload)
          (tuple_end payload bytes) page.full page.directory full_end full_page)
        refl

  offset_after : slot_offset page_after (slot_count payload) ≡ tuple_end payload bytes
  offset_after =
      new_offset payload bytes (slot_count payload) (directory_end payload)
        (tuple_end payload bytes) page.full page.directory full_end full_page

  length_after : slot_length page_after (slot_count payload) ≡ length bytes
  length_after =
      new_length payload bytes (slot_count payload) (directory_end payload)
        (tuple_end payload bytes) page.full page.directory full_end full_page

  directory_after : directory_end page_after ≡ directory_end payload + slot_size
  directory_after =
      new_directory payload bytes (slot_count payload) (directory_end payload)
        (tuple_end payload bytes) page.full page.directory full_end full_page

  -- A field of a slot before.
  field_after :
      (x : ℕ) → 22 ≤ x → x + 2 ≤ slot_at (slot_count payload) → get16 page_after x ≡ get16 payload x
  field_after x low high =
      counts_below payload bytes (slot_count payload) (directory_end payload)
        (tuple_end payload bytes) page.full page.directory full_end full_page x low
      ∙ slot_beyond payload bytes (slot_count payload) (directory_end payload)
          (tuple_end payload bytes) page.full page.directory full_end full_page x high

  bytes_after :
      (k : ℕ)
      → tuple_end payload bytes ≤ k
      → drop k page_after ≡ drop k (splice payload (tuple_end payload bytes) bytes)
  bytes_after =
      bytes_kept payload bytes (slot_count payload) (directory_end payload)
        (tuple_end payload bytes) page.full page.directory full_end full_page

  -- The new slot has the tuple's bytes.
  pub tuple_bytes-add_tuple :
      tuple_bytes (add_tuple payload bytes) (slot_count payload)
      ≡ some (bytes ++ drop (tuples_start payload) payload, length bytes)
  unfolding tuple_bytes
  tuple_bytes-add_tuple =
      let start = tuple_end payload bytes in
      let tuple : drop start page_after ≡ bytes ++ drop (start + length bytes) payload =
        bytes_after start (omega arith)
        ∙ drop-splice payload start bytes (omega (arith, full_page, page.full)) in
      let whole : start + length bytes ≡ tuples_start payload = omega (arith, fits) in
      let seen : leb (slot_count payload + 1) (slot_count payload) ≡ false = ground arith in
      let holds : ltb page_payload_size (start + length bytes) ≡ false =
        ground (arith, full_page) in
      rw (add_tuple-new_page) (
        simp
          (
            magic_after,
            count_after,
            seen,
            live_after,
            offset_after,
            length_after,
            holds,
            tuple,
            ap (λ k. drop k payload) whole,
          )
          refl)

  -- The slots before keep theirs.
  pub tuple_bytes-add_tuple_before :
      (i : ℕ)
      → i < slot_count payload
      → tuple_bytes (add_tuple payload bytes) i ≡ tuple_bytes payload i
  unfolding tuple_bytes
  tuple_bytes-add_tuple_before i h = rw add_tuple-new_page (
      same_slot payload page_after i (magic_after ∙ sym page.magic) (ground (arith, count_after, h))
        (field_after (slot_at i) (omega arith) (omega arith))
        (field_after (slot_at i + 2) (omega arith) (omega arith))
        (field_after (slot_at i + 4) (omega arith) (omega arith))
        (λ alive.
          let (low, high) = page.tuples i h alive in
          bytes_after (slot_offset payload i) (omega (arith, low))
          ∙ drop-splice_behind payload (tuple_end payload bytes) bytes
              (omega (arith, full_page, page.full)) (slot_offset payload i)
              (omega (arith, low, fits))))

  live_before : (i : ℕ) → i < slot_count payload → is_live page_after i ≡ is_live payload i
  unfolding is_live
  live_before i h = rw (field_after (slot_at i + 4) (omega arith) (omega arith)) refl

  pub add_tuple-IsDataPage : IsDataPage (add_tuple payload bytes)
  add_tuple-IsDataPage = rw add_tuple-new_page (record {
    full =
        length-new_page payload bytes (slot_count payload) (directory_end payload)
          (tuple_end payload bytes) page.full page.directory full_end full_page;
    magic = magic_after;
    directory = omega (arith, directory_after, count_after, page.directory);
    ordered = omega (arith, directory_after, start_after, full_end);
    inside = omega (arith, start_after, page.inside);
    tuples = λ i h alive. elim (lt-or-eq i (slot_count payload) (omega (arith, h, count_after))) [
      | inl before ↦
          let (low, high) = page.tuples i before (sym (live_before i before) ∙ alive) in
          (
            omega (arith, start_after, low, field_after (slot_at i) (omega arith) (omega arith)),
            omega (
              arith,
              high,
              field_after (slot_at i) (omega arith) (omega arith),
              field_after (slot_at i + 2) (omega arith) (omega arith),
            ),
          )
      | inr last ↦ rw last (
        omega (arith, start_after, offset_after),
        omega (arith, full_page, offset_after, length_after),
      )
    ];
  })
