-- ===== src/Execution/SlotPage/Store.antt =====
-- The writes of `store_tuple`, one after the other, on a page where they fit.
use resume_project.Common.{
  ℕ, ◌+◌, ◌%◌, ◌^◌, ◌≤◌, ◌≡◌, ◌∙◌, List, length, take, drop, arith, inl, inr, put16, get16,
}
use resume_project.Storage.Page.{page_payload_size}
use resume_project.Execution.SlotPage.{splice, slot_at, slot_size}
use resume_project.Execution.SlotPage.Splice.{
  length-splice, get16-splice, get16-splice_ne, drop-splice_behind, take-splice,
}

-- The pages in between.
module _ (payload bytes : List ℕ) (slots start end : ℕ) where
  abbrev pub stored : List ℕ
  stored = splice payload end bytes

  abbrev pub offset : List ℕ
  offset = splice stored (slot_at slots) (put16 end)

  abbrev pub sized : List ℕ
  sized = splice offset (slot_at slots + 2) (put16 (length bytes % 2 ^ 16))

  abbrev pub live : List ℕ
  live = splice sized (slot_at slots + 4) (put16 1)

  abbrev pub counted : List ℕ
  counted = splice live 16 (put16 ((slots + 1) % 2 ^ 16))

  abbrev pub grown : List ℕ
  grown = splice counted 18 (put16 ((start + slot_size) % 2 ^ 16))

  abbrev pub new_page : List ℕ
  new_page = splice grown 20 (put16 end)

  -- Where they fit.
  module _ (full : length payload ≡ page_payload_size) (directory : start ≡ slot_at slots)
      (above : start + slot_size ≤ end) (inside : end + length bytes ≤ page_payload_size) where
    length-stored : length stored ≡ page_payload_size
    length-stored = length-splice payload end bytes (omega (arith, full)) ∙ full

    length-offset : length offset ≡ page_payload_size
    unfolding put16
    length-offset =
        length-splice stored (slot_at slots) (put16 end) (omega (arith, length-stored))
        ∙ length-stored

    length-sized : length sized ≡ page_payload_size
    unfolding put16
    length-sized =
        length-splice offset (slot_at slots + 2) (put16 (length bytes % 2 ^ 16))
          (omega (arith, length-offset))
        ∙ length-offset

    length-live : length live ≡ page_payload_size
    unfolding put16
    length-live =
        length-splice sized (slot_at slots + 4) (put16 1) (omega (arith, length-sized))
        ∙ length-sized

    length-counted : length counted ≡ page_payload_size
    unfolding put16
    length-counted =
        length-splice live 16 (put16 ((slots + 1) % 2 ^ 16)) (omega (arith, length-live))
        ∙ length-live

    length-grown : length grown ≡ page_payload_size
    unfolding put16
    length-grown =
        length-splice counted 18 (put16 ((start + slot_size) % 2 ^ 16))
          (omega (arith, length-counted))
        ∙ length-counted

    pub length-new_page : length new_page ≡ page_payload_size
    unfolding put16
    length-new_page =
        length-splice grown 20 (put16 end) (omega (arith, length-grown)) ∙ length-grown

    -- The writes of the counts stay in the header.
    pub counts_below : (x : ℕ) → 22 ≤ x → get16 new_page x ≡ get16 live x
    unfolding put16
    counts_below x h =
        get16-splice_ne grown 20 (put16 end) (omega (arith, length-grown)) x (inr (omega arith))
        ∙ get16-splice_ne counted 18 (put16 ((start + slot_size) % 2 ^ 16))
            (omega (arith, length-counted)) x (inr (omega arith))
        ∙ get16-splice_ne live 16 (put16 ((slots + 1) % 2 ^ 16)) (omega (arith, length-live)) x
            (inr (omega arith))

    -- The writes of the slot and of the tuple leave the slots before as they are.
    pub slot_beyond : (x : ℕ) → x + 2 ≤ slot_at slots → get16 live x ≡ get16 payload x
    unfolding put16
    slot_beyond x h =
        get16-splice_ne sized (slot_at slots + 4) (put16 1) (omega (arith, length-sized)) x
          (inl (omega arith))
        ∙ get16-splice_ne offset (slot_at slots + 2) (put16 (length bytes % 2 ^ 16))
            (omega (arith, length-offset)) x (inl (omega arith))
        ∙ get16-splice_ne stored (slot_at slots) (put16 end) (omega (arith, length-stored)) x
            (inl (omega arith))
        ∙ get16-splice_ne payload end bytes (omega (arith, full)) x (inl (omega arith))

    pub new_end : get16 new_page 20 ≡ end
    new_end = get16-splice grown 20 end (omega (arith, length-grown)) (omega arith)

    pub new_directory : get16 new_page 18 ≡ start + slot_size
    unfolding put16
    new_directory =
        get16-splice_ne grown 20 (put16 end) (omega (arith, length-grown)) 18 (inl (omega arith))
        ∙ get16-splice counted 18 ((start + slot_size) % 2 ^ 16) (omega (arith, length-counted))
            (omega arith)
        ∙ omega (arith, above, inside)

    pub new_count : get16 new_page 16 ≡ slots + 1
    unfolding put16
    new_count =
        get16-splice_ne grown 20 (put16 end) (omega (arith, length-grown)) 16 (inl (omega arith))
        ∙ get16-splice_ne counted 18 (put16 ((start + slot_size) % 2 ^ 16))
            (omega (arith, length-counted)) 16 (inl (omega arith))
        ∙ get16-splice live 16 ((slots + 1) % 2 ^ 16) (omega (arith, length-live)) (omega arith)
        ∙ omega (arith, directory, above, inside)

    pub new_offset : get16 new_page (slot_at slots) ≡ end
    unfolding put16
    new_offset =
        counts_below (slot_at slots) (omega arith)
        ∙ get16-splice_ne sized (slot_at slots + 4) (put16 1) (omega (arith, length-sized))
            (slot_at slots) (inl (omega arith))
        ∙ get16-splice_ne offset (slot_at slots + 2) (put16 (length bytes % 2 ^ 16))
            (omega (arith, length-offset)) (slot_at slots) (inl (omega arith))
        ∙ get16-splice stored (slot_at slots) end (omega (arith, length-stored)) (omega arith)

    pub new_length : get16 new_page (slot_at slots + 2) ≡ length bytes
    unfolding put16
    new_length =
        counts_below (slot_at slots + 2) (omega arith)
        ∙ get16-splice_ne sized (slot_at slots + 4) (put16 1) (omega (arith, length-sized))
            (slot_at slots + 2) (inl (omega arith))
        ∙ get16-splice offset (slot_at slots + 2) (length bytes % 2 ^ 16)
            (omega (arith, length-offset)) (omega arith)
        ∙ omega (arith, inside)

    pub new_live : get16 new_page (slot_at slots + 4) ≡ 1
    unfolding put16
    new_live =
        counts_below (slot_at slots + 4) (omega arith)
        ∙ get16-splice sized (slot_at slots + 4) 1 (omega (arith, length-sized)) (omega arith)

    -- Bytes at `k` and behind, where only the tuple's bytes may stand below.
    pub bytes_kept : (k : ℕ) → end ≤ k → drop k new_page ≡ drop k stored
    unfolding put16
    bytes_kept k h =
        drop-splice_behind grown 20 (put16 end) (omega (arith, length-grown)) k (omega arith)
        ∙ drop-splice_behind counted 18 (put16 ((start + slot_size) % 2 ^ 16))
            (omega (arith, length-counted)) k (omega arith)
        ∙ drop-splice_behind live 16 (put16 ((slots + 1) % 2 ^ 16)) (omega (arith, length-live)) k
            (omega arith)
        ∙ drop-splice_behind sized (slot_at slots + 4) (put16 1) (omega (arith, length-sized)) k
            (omega arith)
        ∙ drop-splice_behind offset (slot_at slots + 2) (put16 (length bytes % 2 ^ 16))
            (omega (arith, length-offset)) k (omega arith)
        ∙ drop-splice_behind stored (slot_at slots) (put16 end) (omega (arith, length-stored)) k
            (omega arith)

    pub new_magic : take 6 new_page ≡ take 6 payload
    unfolding put16
    new_magic =
        take-splice grown 20 (put16 end) (omega (arith, length-grown)) 6 (omega arith)
        ∙ take-splice counted 18 (put16 ((start + slot_size) % 2 ^ 16))
            (omega (arith, length-counted)) 6 (omega arith)
        ∙ take-splice live 16 (put16 ((slots + 1) % 2 ^ 16)) (omega (arith, length-live)) 6
            (omega arith)
        ∙ take-splice sized (slot_at slots + 4) (put16 1) (omega (arith, length-sized)) 6
            (omega arith)
        ∙ take-splice offset (slot_at slots + 2) (put16 (length bytes % 2 ^ 16))
            (omega (arith, length-offset)) 6 (omega arith)
        ∙ take-splice stored (slot_at slots) (put16 end) (omega (arith, length-stored)) 6
            (omega arith)
        ∙ take-splice payload end bytes (omega (arith, full)) 6 (omega arith)
