-- ===== src/Storage/PageManager/Format.antt =====
-- The fields of a block that was written, and the blocks of a file after a write.
use resume_project.Common.{
  ℕ, zero, suc, ◌+◌, ◌≤◌, ◌<◌, ◌≡◌, ◌≢◌, refl, ap, true, some, List, [], ◌∷◌, length, drop,
  get_elem?, drop-nil_of_le, append-nil, arith, put16, put64, get16, get64, get64-put64, IsU64,
  same_bytes, take,
}
use resume_project.Storage.Page.{page_size, page_header_size}
use resume_project.Storage.PageManager.{
  raw_page, raw_catalog, put_block, has_page_format, read_block, PageManager, catalog_header,
  catalog_magic, catalog_version,
}

module _ (id lsn : ℕ) (payload : List ℕ) where
  pub length-raw_page : length (raw_page id lsn payload) ≡ page_header_size + length payload
  unfolding raw_page put16 put64
  length-raw_page = omega arith

  pub has_page_format-raw_page : has_page_format (raw_page id lsn payload) ≡ true
  unfolding has_page_format raw_page put16 put64 get16 same_bytes
  has_page_format-raw_page = refl

  pub payload-raw_page : drop page_header_size (raw_page id lsn payload) ≡ payload
  unfolding raw_page put16 put64
  payload-raw_page = refl

  pub id-raw_page : IsU64 id → get64 (raw_page id lsn payload) 8 ≡ id
  unfolding raw_page put16 put64 get64
  id-raw_page h = get64-put64 id [] h

  pub lsn-raw_page : IsU64 lsn → get64 (raw_page id lsn payload) 16 ≡ lsn
  unfolding raw_page put16 put64 get64
  lsn-raw_page h = get64-put64 lsn [] h

module _ (pm : PageManager) where
  pub length-raw_catalog : length (raw_catalog pm) ≡ catalog_header + length pm.allocation_bitmap
  unfolding raw_catalog put16 put64
  length-raw_catalog = omega arith

  pub magic-raw_catalog : same_bytes (take 4 (raw_catalog pm)) catalog_magic ≡ true
  unfolding raw_catalog same_bytes
  magic-raw_catalog = refl

  pub version-raw_catalog : get16 (raw_catalog pm) 4 ≡ catalog_version
  unfolding raw_catalog put16 get16
  version-raw_catalog = refl

  pub page_count-raw_catalog : IsU64 pm.page_count → get64 (raw_catalog pm) 8 ≡ pm.page_count
  unfolding raw_catalog put16 put64 get64
  page_count-raw_catalog h = get64-put64 pm.page_count [] h

  pub allocated-raw_catalog :
      IsU64 pm.allocated_page_count → get64 (raw_catalog pm) 16 ≡ pm.allocated_page_count
  unfolding raw_catalog put16 put64 get64
  allocated-raw_catalog h = get64-put64 pm.allocated_page_count [] h

  pub bitmap-raw_catalog : drop catalog_header (raw_catalog pm) ≡ pm.allocation_bitmap
  unfolding raw_catalog put16 put64
  bitmap-raw_catalog = refl

-- A whole block is overwritten whole, and a block at the end of the file is added.
pub put_block_self :
    (blocks : List (List ℕ)) (i : ℕ) (raw : List ℕ)
    → ((old : List ℕ) → get_elem? blocks i ≡ some old → length old ≤ length raw)
    → i ≤ length blocks
    → get_elem? (put_block blocks i raw) i ≡ some raw
unfolding put_block
put_block_self [] zero raw fits h = refl
put_block_self [] (suc i) raw fits h = absurd (omega arith)
put_block_self (b ∷ bs) zero raw fits h =
    ap some (rw (drop-nil_of_le (length raw) b (fits b refl)) (append-nil raw))
put_block_self (b ∷ bs) (suc i) raw fits h = put_block_self bs i raw fits (omega arith)

pub put_block_ne :
    (blocks : List (List ℕ)) (i j : ℕ) (raw : List ℕ)
    → i ≢ j
    → i ≤ length blocks
    → get_elem? (put_block blocks i raw) j ≡ get_elem? blocks j
unfolding put_block
put_block_ne [] zero zero raw h le = absurd (h refl)
put_block_ne [] zero (suc j) raw h le = refl
put_block_ne [] (suc i) j raw h le = absurd (omega arith)
put_block_ne (b ∷ bs) zero zero raw h le = absurd (h refl)
put_block_ne (b ∷ bs) zero (suc j) raw h le = refl
put_block_ne (b ∷ bs) (suc i) zero raw h le = refl
put_block_ne (b ∷ bs) (suc i) (suc j) raw h le =
    put_block_ne bs i j raw (λ e. h (ap suc e)) (omega arith)

pub length-put_block :
    (blocks : List (List ℕ)) (i : ℕ) (raw : List ℕ)
    → i < length blocks
    → length (put_block blocks i raw) ≡ length blocks
unfolding put_block
length-put_block [] i raw h = absurd (omega arith)
length-put_block (b ∷ bs) zero raw h = refl
length-put_block (b ∷ bs) (suc i) raw h = ap suc (length-put_block bs i raw (omega arith))

pub length-put_block_end :
    (blocks : List (List ℕ)) (i : ℕ) (raw : List ℕ)
    → i ≡ length blocks
    → length (put_block blocks i raw) ≡ suc (length blocks)
unfolding put_block
length-put_block_end [] zero raw h = refl
length-put_block_end [] (suc i) raw h = absurd (omega arith)
length-put_block_end (b ∷ bs) zero raw h = absurd (omega arith)
length-put_block_end (b ∷ bs) (suc i) raw h = ap suc (length-put_block_end bs i raw (omega arith))

pub read_block-some :
    (blocks : List (List ℕ)) (i : ℕ) (raw : List ℕ)
    → get_elem? blocks i ≡ some raw
    → page_size ≤ length raw
    → read_block blocks i ≡ some raw
unfolding read_block
read_block-some blocks i raw e h = rw (e, read_block) (ground arith)
