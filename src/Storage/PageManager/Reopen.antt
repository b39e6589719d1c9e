-- ===== src/Storage/PageManager/Reopen.antt =====
-- What the file holds, and opening it again.
use resume_project.Common.{
  ℕ, zero, suc, ◌<◌, ◌≡◌, refl, ap, true, false, some, List, [], ◌∷◌, length, get_elem?, arith, ok,
  Outcome, subst, sym,
}
use native.Mathlib.Numerals.{add-one}
use resume_project.Storage.Page.{page_size}
use resume_project.Storage.Bitmap.Laws.{count_set-le}
use resume_project.Storage.PageManager.{
  PageManager, raw_page, raw_catalog, are_whole, open_database, load_catalog,
}
use resume_project.Storage.PageManager.Format.{
  length-raw_page, length-raw_catalog, magic-raw_catalog, version-raw_catalog,
  page_count-raw_catalog, allocated-raw_catalog, bitmap-raw_catalog,
}
use resume_project.Storage.PageManager.Access.{IsConsistent, IsStored}

-- The pages behind the catalog, and that every block is whole.
pub are_whole-stored :
    (blocks : List (List ℕ))
    → ((i : ℕ) (raw : List ℕ) → get_elem? blocks i ≡ some raw → length raw ≡ page_size)
    → are_whole blocks ≡ true
unfolding are_whole
are_whole-stored [] h = refl
are_whole-stored (b ∷ bs) h =
    ground (arith, h 0 b refl, are_whole-stored bs (λ i raw e. h (suc i) raw e))

pub get_elem?-lt :
    (blocks : List (List ℕ)) (i : ℕ) (raw : List ℕ)
    → get_elem? blocks i ≡ some raw
    → i < length blocks
get_elem?-lt [] i raw e = cc
get_elem?-lt (b ∷ bs) zero raw e = omega arith
get_elem?-lt (b ∷ bs) (suc i) raw e = omega (arith, get_elem?-lt bs i raw e)

pub block_size :
    (pm : PageManager)
    → IsConsistent pm
    → IsStored pm
    → (i : ℕ) (raw : List ℕ) → get_elem? pm.blocks i ≡ some raw
    → length raw ≡ page_size
block_size pm c s zero raw e =
    let same : raw ≡ raw_catalog pm = cc (e, s.catalog) in
    rw same (omega (arith, length-raw_catalog pm, c.bitmap.sized))
block_size pm c s (suc i) raw e =
    let (lsn, payload, at) =
      s.page_at i (omega (arith, s.sized, get_elem?-lt pm.blocks (suc i) raw e)) in
    let same : raw ≡ raw_page i lsn payload = cc (e, rw add-one at at.block) in
    rw same (omega (arith, length-raw_page i lsn payload, at.full))

pub blocks-cons :
    (blocks : List (List ℕ)) (b : List ℕ)
    → get_elem? blocks 0 ≡ some b
    → (pages : List (List ℕ)) × (blocks ≡ b ∷ pages)
blocks-cons [] b e = cc
blocks-cons (x ∷ pages) b e = (pages, cc)

load_catalog-raw_catalog :
    (pm : PageManager) (pages : List (List ℕ)) (stream : List Outcome)
    → IsConsistent pm
    → length pages ≡ pm.page_count
    → load_catalog (raw_catalog pm) pages stream
      ≡ ok (record pm { blocks = raw_catalog pm ∷ pages; failed = false; stream = stream })
unfolding load_catalog
load_catalog-raw_catalog pm pages stream c e = ground (
  arith,
  c.bounded,
  c.counted,
  count_set-le pm.allocation_bitmap pm.page_count,
  magic-raw_catalog pm,
  version-raw_catalog pm,
  page_count-raw_catalog pm,
  allocated-raw_catalog pm,
  bitmap-raw_catalog pm,
)

-- Opening the file of a consistent and stored manager gives the manager again.
pub open_database-stored :
    (pm : PageManager) (stream : List Outcome)
    → IsConsistent pm
    → IsStored pm
    → open_database pm.blocks stream ≡ ok (record pm { failed = false; stream = stream })
unfolding open_database
open_database-stored pm stream c s =
    let (pages, e) = blocks-cons pm.blocks (raw_catalog pm) s.catalog in
    let whole_blocks : are_whole (raw_catalog pm ∷ pages) ≡ true =
      rw e at (are_whole-stored pm.blocks (block_size pm c s)) in
    let count : length pages ≡ pm.page_count =
      omega (arith, s.sized, ap (λ (bs : List (List ℕ)). length bs) e) in
    subst
      (λ bs.
        open_database bs stream ≡ ok (record pm { blocks = bs; failed = false; stream = stream }))
      (sym e) (rw whole_blocks (load_catalog-raw_catalog pm pages stream c count))
