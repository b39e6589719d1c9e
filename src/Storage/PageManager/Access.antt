-- ===== src/Storage/PageManager/Access.antt =====
-- Reading and writing pages.
use resume_project.Common.{
  ℕ, sym, ◌∙◌, ◌+◌, ◌≤◌, ◌<◌, ◌≡◌, ◌≢◌, refl, true, false, some, List, length, get_elem?, arith, ok,
  IsU64, ==_self, whole, outcome, later, Bool, Outcome,
}
use resume_project.Storage.Page.{Page, page_payload_size, IsFull}
use resume_project.Storage.PageManager.{
  PageManager, raw_page, put_block, read_block, is_page_allocated, offset_for, validate_allocated,
  validate_logically_allocated, page_in, read_page, write_page, write_block, catalog_bits,
}
use resume_project.Storage.Bitmap.{test_bit, count_set}
use resume_project.Storage.Bitmap.Laws.{IsBitmap}
use resume_project.Storage.PageManager.{raw_catalog, bitmap_size}
use resume_project.Storage.PageManager.Format.{
  length-raw_page, has_page_format-raw_page, payload-raw_page, id-raw_page, lsn-raw_page,
  put_block_self, put_block_ne, read_block-some,
}

-- What the manager keeps in memory.
pub record IsConsistent (pm : PageManager) : Type 0 where
  pub bitmap : IsBitmap bitmap_size pm.allocation_bitmap
  pub counted : pm.allocated_page_count ≡ count_set pm.allocation_bitmap pm.page_count
  pub bounded : pm.page_count ≤ catalog_bits
  pub clear : (i : ℕ) → pm.page_count ≤ i → test_bit pm.allocation_bitmap i ≡ false

-- Block `id + 1` holds a page of that id with this LSN and payload.
pub record Stores (blocks : List (List ℕ)) (id lsn : ℕ) (payload : List ℕ) : Type 0 where
  pub block : get_elem? blocks (id + 1) ≡ some (raw_page id lsn payload)
  pub full : length payload ≡ page_payload_size
  pub lsn_fits : IsU64 lsn

-- What the manager keeps in the file: the catalog, and a well-formed block for every page.
pub record IsStored (pm : PageManager) : Type 0 where
  pub catalog : get_elem? pm.blocks 0 ≡ some (raw_catalog pm)
  pub sized : length pm.blocks ≡ pm.page_count + 1
  pub page_at :
      (i : ℕ) → i < pm.page_count → (lsn : ℕ) × (payload : List ℕ) × Stores pm.blocks i lsn payload

-- A logically allocated page passes every check before the file is touched.
pub allocated_checks :
    (pm : PageManager) (id : ℕ)
    → pm.page_count ≤ catalog_bits
    → is_page_allocated pm id ≡ true
    → (validate_logically_allocated pm id ≡ ok tt)
      × (offset_for id ≡ ok (id + 1))
      × (id < pm.page_count)
unfolding validate_logically_allocated validate_allocated is_page_allocated offset_for
allocated_checks pm id h e = ground arith

pub read_page-result : (pm : PageManager) (id : ℕ) → (read_page id pm).0 ≡ page_in pm id
unfolding read_page page_in
read_page-result pm id = ground arith

pub page_in-Stores :
    (pm : PageManager) (id lsn : ℕ) (payload : List ℕ)
    → pm.page_count ≤ catalog_bits
    → is_page_allocated pm id ≡ true
    → Stores pm.blocks id lsn payload
    → page_in pm id ≡ ok (record { id = id; lsn = lsn; payload = payload })
unfolding page_in
page_in-Stores pm id lsn payload small allocated s =
    let (valid, offset, below) = allocated_checks pm id small allocated in
    rw (
      valid,
      offset,
      read_block-some pm.blocks (id + 1) _ s.block
          (omega (arith, length-raw_page id lsn payload, s.full)),
      has_page_format-raw_page id lsn payload,
      id-raw_page id lsn payload (omega arith),
      ==_self id,
      lsn-raw_page id lsn payload s.lsn_fits,
      payload-raw_page id lsn payload,
    )

pub write_page-whole :
    (pm : PageManager) (id : ℕ) (page : Page)
    → pm.page_count ≤ catalog_bits
    → is_page_allocated pm id ≡ true
    → page.id ≡ id
    → outcome pm.stream ≡ whole
    → write_page id page pm ≡ (
      ok tt,
      record pm {
        blocks = put_block pm.blocks (id + 1) (raw_page id page.lsn page.payload);
        failed = false;
        stream = later pm.stream;
      },
    )
unfolding write_page write_block
write_page-whole pm id page small allocated same w =
    let (valid, offset, below) = allocated_checks pm id small allocated in
    rw (valid, same, ==_self id, offset, write_block, w)

-- The block that held a page fits under the block that replaces it.
pub Stores-put_block :
    (pm : PageManager) (id lsn : ℕ) (payload : List ℕ)
    → IsStored pm
    → id < pm.page_count
    → length payload ≡ page_payload_size
    → IsU64 lsn
    → Stores (put_block pm.blocks (id + 1) (raw_page id lsn payload)) id lsn payload
Stores-put_block pm id lsn payload s below full fits =
    let (l, p, old) = s.page_at id below in
    record {
      block =
          put_block_self pm.blocks (id + 1) (raw_page id lsn payload)
            (λ b e.
              let same : b ≡ raw_page id l p = cc (e, old.block) in
              rw same
                (omega (arith, length-raw_page id lsn payload, length-raw_page id l p, old.full)))
            (omega (arith, s.sized));
      full = full;
      lsn_fits = fits;
    }

-- On a consistent and stored manager, an allocated page whose write reaches the file is read back
-- as it was written: id, LSN and payload.
pub read_page-write_page :
    (pm : PageManager) (page : Page)
    → IsConsistent pm
    → IsStored pm
    → is_page_allocated pm page.id ≡ true
    → IsFull page
    → IsU64 page.lsn
    → outcome pm.stream ≡ whole
    → (read_page page.id (write_page page.id page pm).1).0 ≡ ok page
read_page-write_page pm page c s allocated full fits w =
    let (_, _, below) = allocated_checks pm page.id c.bounded allocated in
    rw (read_page-result, write_page-whole pm page.id page c.bounded allocated refl w)
      (page_in-Stores _ page.id page.lsn page.payload c.bounded
        (unfold is_page_allocated in allocated)
        (Stores-put_block pm page.id page.lsn page.payload s below full fits))

-- A read depends on the file only through the block of its page.
pub page_in-blocks :
    (pm : PageManager) (j : ℕ) (blocks : List (List ℕ)) (failed : Bool) (stream : List Outcome)
    → get_elem? blocks (j + 1) ≡ get_elem? pm.blocks (j + 1)
    → page_in (record pm { blocks = blocks; failed = failed; stream = stream }) j ≡ page_in pm j
unfolding page_in read_block offset_for validate_logically_allocated validate_allocated
    is_page_allocated
page_in-blocks pm j blocks failed stream e = ground arith

write_page-state :
    (pm : PageManager) (id j : ℕ) (page : Page)
    → IsConsistent pm
    → IsStored pm
    → id ≢ j
    → (blocks : List (List ℕ)) × (failed : Bool) × (stream : List Outcome) × ((write_page id page
          pm).1
        ≡ record pm { blocks = blocks; failed = failed; stream = stream })
      × (get_elem? blocks (j + 1) ≡ get_elem? pm.blocks (j + 1))
unfolding write_page write_block offset_for validate_logically_allocated validate_allocated
write_page-state pm id j page c s apart = (
  (write_page id page pm).1.blocks,
  (write_page id page pm).1.failed,
  (write_page id page pm).1.stream,
  ground arith,
  grind (arith, s.sized, put_block_ne),
)

-- On a consistent and stored manager, a write to one page, whatever becomes of it, leaves what a
-- read of another page returns as it was.
pub read_page-write_page_ne :
    (pm : PageManager) (id j : ℕ) (page : Page)
    → IsConsistent pm
    → IsStored pm
    → id ≢ j
    → (read_page j (write_page id page pm).1).0 ≡ (read_page j pm).0
read_page-write_page_ne pm id j page c s apart =
    let (blocks, failed, stream, e, same) = write_page-state pm id j page c s apart in
    read_page-result (write_page id page pm).1 j
    ∙ rw e (page_in-blocks pm j blocks failed stream same)
    ∙ sym (read_page-result pm j)
