-- ===== src/Execution/SlotPage.antt =====
-- The pages of src/execution/table_heap.cpp as bytes: the metadata page, and the data page with its
-- slot directory and the tuples behind it.
pub mod Splice
pub mod Store
pub mod Slots
pub mod Erase
pub mod Examples
use resume_project.Common.{
  ℕ, ◌+◌, ◌-◌, ◌*◌, ◌%◌, ◌^◌, Bool, true, false, not, ◌&&◌, ◌||◌, Option, none, some, List, [], ◌∷◌,
  ◌++◌, length, take, drop, replicate, ltb, leb, ◌==◌, if◌then◌else◌, put16, put64, get16, get64,
  same_bytes,
}
use resume_project.Storage.Page.{page_payload_size, invalid_page}

-- `kHeader` and `kSlot`
abbrev pub slot_header_size : ℕ
slot_header_size = 24

abbrev pub slot_size : ℕ
slot_size = 6

-- `kMetaMagic` and `kDataMagic`
abbrev pub meta_magic : List ℕ
meta_magic = b'D' ∷ b'D' ∷ b'B' ∷ b'T' ∷ b'H' ∷ b'4' ∷ []

abbrev pub data_magic : List ℕ
data_magic = b'D' ∷ b'D' ∷ b'B' ∷ b'D' ∷ b'P' ∷ b'4' ∷ []

unfoldable pub has_magic : List ℕ → List ℕ → Bool
has_magic payload magic = same_bytes (take 6 payload) magic

-- `memcpy(page.data() + at, bytes)`: the bytes around stay.
unfoldable pub splice : List ℕ → ℕ → List ℕ → List ℕ
splice payload at bytes = take at payload ++ (bytes ++ drop (at + length bytes) payload)

-- `data_init`, on a cleared page
unfoldable pub empty_data_page : List ℕ
empty_data_page =
    data_magic
    ++ (0
        ∷ 0
        ∷ (put64 invalid_page
            ++ (put16 0
                ++ (put16 slot_header_size
                    ++ (put16 page_payload_size ++ replicate (page_payload_size - 22) 0)))))

-- A new metadata page, of a heap without data pages
unfoldable pub empty_metadata : List ℕ
empty_metadata =
    meta_magic
    ++ (0
        ∷ 0
        ∷ (put64 invalid_page ++ (put64 invalid_page ++ replicate (page_payload_size - 24) 0)))

unfoldable pub with_ends : ℕ → ℕ → List ℕ → List ℕ
with_ends first last payload = splice (splice payload 8 (put64 first)) 16 (put64 last)

abbrev pub next_page : List ℕ → ℕ
next_page payload = get64 payload 8

abbrev pub slot_count : List ℕ → ℕ
slot_count payload = get16 payload 16

abbrev pub directory_end : List ℕ → ℕ
directory_end payload = get16 payload 18

abbrev pub tuples_start : List ℕ → ℕ
tuples_start payload = get16 payload 20

-- Where slot `i` stands, and its three fields.
abbrev pub slot_at : ℕ → ℕ
slot_at i = slot_header_size + i * slot_size

abbrev pub slot_offset : List ℕ → ℕ → ℕ
slot_offset payload i = get16 payload (slot_at i)

abbrev pub slot_length : List ℕ → ℕ → ℕ
slot_length payload i = get16 payload (slot_at i + 2)

unfoldable pub is_live : List ℕ → ℕ → Bool
is_live payload i = not (get16 payload (slot_at i + 4) == 0)

-- `get16(20) - get16(18)`, as the unsigned number that it is compared as
abbrev pub free_space : List ℕ → ℕ
free_space payload =
    let start = directory_end payload in
    let end = tuples_start payload in if ltb end start then 2 ^ 64 - (start - end) else end - start

unfoldable pub has_room : List ℕ → ℕ → Bool
has_room payload size = not (ltb (free_space payload) (size + slot_size))

-- The tuple's bytes at `end`, slot number `slots` behind the others, and the counts.
unfoldable pub store_tuple : List ℕ → List ℕ → ℕ → ℕ → ℕ → List ℕ
store_tuple payload bytes slots start end =
    let stored = splice payload end bytes in
    let offset = splice stored (slot_at slots) (put16 end) in
    let sized = splice offset (slot_at slots + 2) (put16 (length bytes % 2 ^ 16)) in
    let live = splice sized (slot_at slots + 4) (put16 1) in
    let counted = splice live 16 (put16 ((slots + 1) % 2 ^ 16)) in
    let grown = splice counted 18 (put16 ((start + slot_size) % 2 ^ 16)) in
    splice grown 20 (put16 end)

-- The tuple goes in front of the others. On a page that is no data page it may not fit: the source
-- then writes behind the page, which is undefined.
unfoldable pub add_tuple : List ℕ → List ℕ → List ℕ
unfolding store_tuple
add_tuple payload bytes =
    store_tuple payload bytes (slot_count payload) (directory_end payload)
      ((tuples_start payload + 2 ^ 16 - length bytes) % 2 ^ 16)

-- The slot's flag is cleared; the bytes stay.
unfoldable pub erase_slot : List ℕ → ℕ → List ℕ
erase_slot payload i = splice payload (slot_at i + 4) (put16 0)

-- What `get` hands to `deserialize`: `none` for a page or a slot that has no tuple.
unfoldable pub tuple_bytes : List ℕ → ℕ → Option (List ℕ × ℕ)
tuple_bytes payload i =
    if not (has_magic payload data_magic) || leb (slot_count payload) i
    then none
    else if not (is_live payload i)
        || ltb page_payload_size (slot_offset payload i + slot_length payload i)
    then none
    else some (drop (slot_offset payload i) payload, slot_length payload i)
