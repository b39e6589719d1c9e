-- ===== src/Execution/SlotPage/Erase.antt =====
-- An erased slot: its tuple is gone, the others stay under their numbers.
use resume_project.Common.{
  ℕ, ◌+◌, ◌≤◌, ◌<◌, ◌≡◌, ◌≢◌, refl, ◌∙◌, sym, ap, none, List, length, leb, arith, inl, inr, put16,
  get16, ◌⊎◌,
}
use resume_project.Execution.SlotPage.{
  has_magic, data_magic, slot_count, slot_at, slot_offset, is_live, erase_slot, tuple_bytes,
}
use resume_project.Execution.SlotPage.Splice.{
  get16-splice, get16-splice_ne, drop-splice_behind, take-splice,
}
use resume_project.Execution.SlotPage.Slots.{IsDataPage, same_slot}

module _ (payload : List ℕ) (i : ℕ) (page : IsDataPage payload) (h : i < slot_count payload) where
  inside : slot_at i + 4 + 2 ≤ length payload
  inside = omega (arith, page.full, page.directory, page.ordered, page.inside, h)

  field_kept :
      (x : ℕ)
      → (x + 2 ≤ slot_at i + 4) ⊎ (slot_at i + 6 ≤ x)
      → get16 (erase_slot payload i) x ≡ get16 payload x
  unfolding erase_slot put16
  field_kept x (inl before) =
      get16-splice_ne payload (slot_at i + 4) (put16 0) inside x (inl before)
  field_kept x (inr behind) =
      get16-splice_ne payload (slot_at i + 4) (put16 0) inside x (inr (omega (arith, behind)))

  cleared : get16 (erase_slot payload i) (slot_at i + 4) ≡ 0
  unfolding erase_slot
  cleared = get16-splice payload (slot_at i + 4) 0 inside (omega arith)

  magic_kept : has_magic (erase_slot payload i) data_magic ≡ has_magic payload data_magic
  unfolding has_magic erase_slot put16
  magic_kept = rw (take-splice payload (slot_at i + 4) (put16 0) inside 6 (omega arith)) refl

  -- On a data page, the tuple of an erased slot is gone.
  tuple_bytes-erase_slot_self : tuple_bytes (erase_slot payload i) i ≡ none
  unfolding tuple_bytes is_live
  tuple_bytes-erase_slot_self = ground (arith, cleared)

  apart : (j : ℕ) → j ≢ i → (slot_at j + 6 ≤ slot_at i) ⊎ (slot_at i + 6 ≤ slot_at j)
  apart j ne = ground (arith, ne)

  away :
      (j d : ℕ)
      → j ≢ i
      → d ≤ 4
      → (slot_at j + d + 2 ≤ slot_at i + 4) ⊎ (slot_at i + 6 ≤ slot_at j + d)
  away j d ne small = elim (apart j ne) [
    | inl before ↦ inl (omega (arith, before))
    | inr behind ↦ inr (omega (arith, behind))
  ]

  -- Every other slot keeps its number and its tuple.
  tuple_bytes-erase_slot_ne :
      (j : ℕ)
      → j ≢ i
      → j < slot_count payload
      → tuple_bytes (erase_slot payload i) j ≡ tuple_bytes payload j
  unfolding erase_slot put16
  tuple_bytes-erase_slot_ne j ne low =
      same_slot payload (erase_slot payload i) j magic_kept
        (ap (λ n. leb n j) (field_kept 16 (inl (omega arith))))
        (ap (λ x. get16 (erase_slot payload i) x) (plus_zero (slot_at j))
          ∙ field_kept (slot_at j + 0) (away j 0 ne (omega arith))
          ∙ ap (get16 payload) (sym (plus_zero (slot_at j))))
        (field_kept (slot_at j + 2) (away j 2 ne (omega arith)))
        (field_kept (slot_at j + 4) (away j 4 ne (omega arith)))
        (λ alive.
          let (start, end) = page.tuples j low alive in
          drop-splice_behind payload (slot_at i + 4) (put16 0) inside (slot_offset payload j)
            (omega (arith, start, page.ordered, page.directory, h)))
    where
      plus_zero : (n : ℕ) → n ≡ n + 0
      plus_zero n = omega arith

  -- On a data page, erasing one of its slots leaves that slot without a tuple, and every other
  -- slot with the bytes that it had.
  pub tuple_bytes-erase_slot :
      (tuple_bytes (erase_slot payload i) i ≡ none)
      × ((j : ℕ)
          → j ≢ i
          → j < slot_count payload
          → tuple_bytes (erase_slot payload i) j ≡ tuple_bytes payload j)
  tuple_bytes-erase_slot = (tuple_bytes-erase_slot_self, tuple_bytes-erase_slot_ne)
