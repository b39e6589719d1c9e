-- ===== src/Storage/PageManager.antt =====
-- PageManager of src/storage/page_manager.cpp: one database file of 4096-byte blocks. Block 0 is the
-- allocation catalog, and block N + 1 is page N.
pub mod Format
pub mod Access
pub mod Allocation
pub mod Reopen
pub mod Durable
pub mod Restart
pub mod Fresh
pub mod Reachable
mod Examples
use resume_project.Common.{
  ℕ, zero, suc, ◌+◌, ◌-◌, ◌*◌, ◌/◌, ◌^◌, Bool, true, false, not, ◌&&◌, ◌||◌, Option, none, some,
  List, [], ◌∷◌, ◌++◌, length, take, drop, get_elem?, get_or, set, replicate, ltb, leb, ◌==◌,
  if◌then◌else◌, Result, ok, err, require, ◌>>=◌, ◌>>◌, Outcome, whole, torn, outcome, later, put16,
  put64, get16, get64, same_bytes, then_do, check,
}
use resume_project.Storage.Page.{
  Page, page_size, page_header_size, page_payload_size, page_format_version, is_valid, zero_payload,
}
use resume_project.Storage.Errors.{
  StorageError, invalid_page_id, unrepresentable_offset, beyond_file, not_logically_allocated,
  already_allocated, catalog_exhausted, not_page_aligned, corrupt_catalog, invalid_catalog_bounds,
  invalid_catalog_count, write_failed, flush_failed, short_read, unsupported_page_format,
  page_id_mismatch, write_target_mismatch, invalid_recovery_page, recovery_page_exists,
  physical_gap, unexpected_recovery_page, invalid_physical_page,
}
use resume_project.Storage.Bitmap.{test_bit, set_bit, clear_bit, count_set}

abbrev pub page_magic : List ℕ
page_magic = b'D' ∷ b'D' ∷ b'B' ∷ b'P' ∷ []

abbrev pub catalog_magic : List ℕ
catalog_magic = b'D' ∷ b'D' ∷ b'B' ∷ b'A' ∷ []

abbrev pub catalog_version : ℕ
catalog_version = 1

abbrev pub catalog_header : ℕ
catalog_header = 24

abbrev pub bitmap_size : ℕ
bitmap_size = page_size - catalog_header

abbrev pub catalog_bits : ℕ
catalog_bits = bitmap_size * 8

-- The largest `std::streamoff`.
abbrev pub max_offset : ℕ
max_offset = 2 ^ 63 - 1

-- `blocks` is the file, `failed` the fail bit of `file_`, and `stream` what its next writes meet.
pub record PageManager : Type 0 where
  pub blocks : List (List ℕ)
  pub page_count : ℕ
  pub allocation_bitmap : List ℕ
  pub allocated_page_count : ℕ
  pub failed : Bool
  pub stream : List Outcome

abbrev pub Method : Type 0 → Type 0
Method A = PageManager → Result StorageError A × PageManager

-- The block of a page; `memcpy` and the puts fill it in this order.
unfoldable pub raw_page : ℕ → ℕ → List ℕ → List ℕ
raw_page id lsn payload =
    page_magic
    ++ (put16 page_format_version
        ++ (put16 page_header_size ++ (put64 id ++ (put64 lsn ++ (put64 0 ++ payload)))))

unfoldable pub raw_catalog : PageManager → List ℕ
raw_catalog pm =
    catalog_magic
    ++ (put16 catalog_version
        ++ (0
            ∷ 0
            ∷ (put64 pm.page_count ++ (put64 pm.allocated_page_count ++ pm.allocation_bitmap))))

-- A write at block `i`; one behind the end of the file fills the gap with zeros.
unfoldable pub put_block : List (List ℕ) → ℕ → List ℕ → List (List ℕ)
put_block [] zero raw = raw ∷ []
put_block [] (suc i) raw = replicate page_size 0 ∷ put_block [] i raw
put_block (b ∷ bs) zero raw = (raw ++ drop (length raw) b) ∷ bs
put_block (b ∷ bs) (suc i) raw = b ∷ put_block bs i raw

-- A write that stops after `k` bytes. One that wrote nothing fills no gap.
put_torn : List (List ℕ) → ℕ → ℕ → List ℕ → List (List ℕ)
put_torn blocks i zero raw = blocks
put_torn blocks i (suc k) raw = put_block blocks i (take (suc k) raw)

-- `clear`, `seekp`, `write` and `ensure_stream_good`
write_outcome : ℕ → List ℕ → Outcome → Method (Unit {0})
write_outcome i raw whole pm = (
  ok tt,
  record pm { blocks = put_block pm.blocks i raw; failed = false; stream = later pm.stream },
)
write_outcome i raw (torn k) pm = (
  err write_failed,
  record pm { blocks = put_torn pm.blocks i k raw; failed = true; stream = later pm.stream },
)

unfoldable pub write_block : ℕ → List ℕ → Method (Unit {0})
unfolding write_outcome put_torn
write_block i raw pm = write_outcome i raw (outcome pm.stream) pm

-- The number of the block stands for the offset, `block * 4096`.
unfoldable pub offset_for : ℕ → Result StorageError ℕ
offset_for id = do
  require (is_valid id) invalid_page_id
  require (leb id (max_offset / page_size)) unrepresentable_offset
  ok (id + 1)

unfoldable pub is_page_allocated : PageManager → ℕ → Bool
is_page_allocated pm id = is_valid id && ltb id pm.page_count && test_bit pm.allocation_bitmap id

unfoldable pub validate_allocated : PageManager → ℕ → Result StorageError (Unit {0})
validate_allocated pm id = do _ ← offset_for id; require (ltb id pm.page_count) beyond_file

unfoldable pub validate_logically_allocated : PageManager → ℕ → Result StorageError (Unit {0})
validate_logically_allocated pm id = do
  validate_allocated pm id
  require (is_page_allocated pm id) not_logically_allocated

unfoldable pub write_allocation_catalog : Method (Unit {0})
write_allocation_catalog pm = write_block 0 (raw_catalog pm) pm

-- `ensure_stream_good` after `file_.flush()`: the fail bit is not cleared here.
unfoldable pub flush : Method (Unit {0})
flush pm = if pm.failed then (err flush_failed, pm) else (ok tt, pm)

-- The `catch` of `reserve_page` gives the slot back.
release_slot :
    ℕ → Result StorageError (Unit {0}) × PageManager → Result StorageError ℕ × PageManager
release_slot id (ok _, pm) = (ok id, pm)
release_slot id (err e, pm) = (err e, record pm { page_count = pm.page_count - 1 })

unfoldable pub reserve_page : Method ℕ
unfolding release_slot
reserve_page pm =
    let id = pm.page_count in
    if leb catalog_bits id
    then (err catalog_exhausted, pm)
    else check (offset_for id) pm (λ block. release_slot id (
        then_do (write_block block (raw_page id 0 zero_payload) (record pm { page_count = id + 1 }))
          (λ _ s. write_allocation_catalog s)))

unfoldable pub activate_reserved_page : ℕ → Method (Unit {0})
activate_reserved_page id pm = check (validate_allocated pm id) pm (λ _.
    if is_page_allocated pm id
    then (err already_allocated, pm)
    else write_allocation_catalog (record pm {
      allocation_bitmap = set_bit pm.allocation_bitmap id;
      allocated_page_count = pm.allocated_page_count + 1;
    }))

unfoldable pub allocate_page : Method ℕ
allocate_page pm =
    then_do (reserve_page pm) (λ id s. then_do (activate_reserved_page id s) (λ _ t. (ok id, t)))

-- Only the bit is cleared: the slot stays and is not used again.
unfoldable pub deallocate_page : ℕ → Method (Unit {0})
deallocate_page id pm = check (validate_logically_allocated pm id) pm (λ _.
    write_allocation_catalog (record pm {
      allocation_bitmap = clear_bit pm.allocation_bitmap id;
      allocated_page_count = pm.allocated_page_count - 1;
    }))

-- `file_.read` of one block; `none` is a short read.
unfoldable pub read_block : List (List ℕ) → ℕ → Option (List ℕ)
read_block blocks i = elim (get_elem? blocks i) [
  | none ↦ none
  | some raw ↦ if ltb (length raw) page_size then none else some raw
]

abbrev or_short_read : Option (List ℕ) → Result StorageError (List ℕ)
or_short_read none = err short_read
or_short_read (some raw) = ok raw

-- magic, version and header size
unfoldable pub has_page_format : List ℕ → Bool
has_page_format raw =
    same_bytes (take 4 raw) page_magic
    && get16 raw 4 == page_format_version
    && get16 raw 6 == page_header_size

-- What a read of a page returns.
unfoldable pub page_in : PageManager → ℕ → Result StorageError Page
page_in pm id = do
  validate_logically_allocated pm id
  block ← offset_for id
  raw ← or_short_read (read_block pm.blocks block)
  require (has_page_format raw) unsupported_page_format
  require (get64 raw 8 == id) page_id_mismatch
  ok (record { id = id; lsn = get64 raw 16; payload = drop page_header_size raw })

-- `clear` and `read`: a read of the stream forgets an earlier failure, and a short one sets the bit.
unfoldable pub after_read : PageManager → ℕ → PageManager
after_read pm id = elim (read_block pm.blocks (id + 1)) [
  | none ↦ record pm { failed = true }
  | some raw ↦ record pm { failed = false }
]

-- The source fills the caller's page; here it is returned.
unfoldable pub read_page : ℕ → Method Page
read_page id pm = elim (validate_logically_allocated pm id) [
  | err e ↦ (err e, pm)
  | ok _ ↦ (page_in pm id, after_read pm id)
]

unfoldable pub write_page : ℕ → Page → Method (Unit {0})
write_page id page pm = check (validate_logically_allocated pm id) pm (λ _.
    if page.id == id
    then check (offset_for id) pm
        (λ block. write_block block (raw_page id page.lsn page.payload) pm)
    else (err write_target_mismatch, pm))

abbrev is_physical_page : PageManager → ℕ → Result StorageError (Unit {0})
is_physical_page pm id = do
  block ← offset_for id
  raw ← or_short_read (read_block pm.blocks block)
  require (has_page_format raw && get64 raw 8 == id) invalid_physical_page

-- The two members that only recovery calls.
unfoldable pub materialize_page_for_recovery : ℕ → Method (Unit {0})
materialize_page_for_recovery id pm =
    if not (is_valid id)
    then (err invalid_recovery_page, pm)
    else if ltb id pm.page_count
    then (err recovery_page_exists, pm)
    else if ltb pm.page_count id
    then (err physical_gap, pm)
    else then_do (reserve_page pm) (λ materialized s.
      if materialized == id then (ok tt, s) else (err unexpected_recovery_page, s))

unfoldable pub validate_physical_page_for_recovery : ℕ → Method (Unit {0})
validate_physical_page_for_recovery id pm =
    check (validate_allocated pm id) pm (λ _. (is_physical_page pm id, after_read pm id))

-- The constructor. A new file (no bytes) gets a catalog; any other must hold whole blocks, and a
-- catalog that agrees with them. What the file system may refuse is not modelled.
abbrev fresh : List Outcome → PageManager
fresh stream = record {
  blocks = [];
  page_count = 0;
  allocation_bitmap = replicate bitmap_size 0;
  allocated_page_count = 0;
  failed = false;
  stream = stream;
}

abbrev only_state : Result StorageError (Unit {0}) × PageManager → Result StorageError PageManager
only_state (ok _, pm) = ok pm
only_state (err e, pm) = err e

unfoldable pub are_whole : List (List ℕ) → Bool
are_whole [] = true
are_whole (b ∷ bs) = length b == page_size && are_whole bs

-- The allocated pages are counted before the test of the count.
load_catalog : List ℕ → List (List ℕ) → List Outcome → Result StorageError PageManager
load_catalog catalog pages stream = do
  require (same_bytes (take 4 catalog) catalog_magic && get16 catalog 4 == catalog_version)
      corrupt_catalog
  let page_count = length pages
  let bitmap = drop catalog_header catalog
  require (get64 catalog 8 == page_count && leb page_count catalog_bits) invalid_catalog_bounds
  require (count_set bitmap page_count == get64 catalog 16) invalid_catalog_count
  ok (record {
    blocks = catalog ∷ pages;
    page_count = page_count;
    allocation_bitmap = bitmap;
    allocated_page_count = count_set bitmap page_count;
    failed = false;
    stream = stream;
  })

unfoldable pub open_database : List (List ℕ) → List Outcome → Result StorageError PageManager
unfolding load_catalog
open_database [] stream = only_state (write_allocation_catalog (fresh stream))
open_database (catalog ∷ pages) stream = do
  require (are_whole (catalog ∷ pages)) not_page_aligned
  load_catalog catalog pages stream
