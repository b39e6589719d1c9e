-- ===== src/Storage/PageManager/Examples.antt =====
-- Runs of the page manager on a new file and on one with a single page.
use resume_project.Common.{
  ◌≡◌, refl, true, false, List, [], ◌∷◌, arith, ok, err, torn, whole, Outcome, ap,
}
use resume_project.Storage.Page.{Page, zero_payload, length-zero_payload}
use resume_project.Storage.Errors.{invalid_catalog_bounds}
use resume_project.Storage.PageManager.{
  PageManager, raw_catalog, is_page_allocated, reserve_page, allocate_page, deallocate_page,
  read_page, write_page, open_database,
}
use resume_project.Storage.PageManager.Access.{IsConsistent, IsStored, read_page-write_page}
use resume_project.Storage.PageManager.Allocation.{allocate_page_lem}
use resume_project.Storage.PageManager.Reachable.{
  start, after, reserves, deallocates, Steps-IsConsistent,
}
use resume_project.Storage.PageManager.Restart.{
  allocate_page-IsStored, open_database-allocate_page, open_database-reserve_page_torn,
}
use resume_project.Storage.PageManager.Fresh.{created, created-IsConsistent, created-IsStored}

-- A manager without pages, one whose slot 0 is reserved, and one whose page 0 is allocated.
abbrev empty_database : PageManager
empty_database = created []

abbrev reserved : PageManager
reserved = (reserve_page empty_database).1

abbrev one_page : PageManager
one_page = (allocate_page empty_database).1

one_page-lem : ((allocate_page empty_database).0 ≡ ok 0) × IsConsistent one_page × IsStored one_page
one_page-lem =
    allocate_page-IsStored empty_database (created-IsConsistent []) (created-IsStored [])
      (omega arith) refl refl refl

allocation : allocate_page empty_database ≡ (ok 0, one_page)
allocation = ap (λ r. (r, one_page)) one_page-lem.0

allocated : is_page_allocated one_page 0 ≡ true
allocated = (allocate_page_lem empty_database one_page 0 (created-IsConsistent []) allocation).2 0

-- The same page after a restart, for any outcomes of the writes to come.
abbrev reopened : List Outcome → PageManager
reopened stream = record one_page { failed = false; stream = stream }

reopened-IsConsistent : (stream : List Outcome) → IsConsistent (reopened stream)
reopened-IsConsistent stream = record {
  bitmap = one_page-lem.1.bitmap;
  counted = one_page-lem.1.counted;
  bounded = one_page-lem.1.bounded;
  clear = one_page-lem.1.clear;
}

reopened-IsStored : (stream : List Outcome) → IsStored (reopened stream)
unfolding raw_catalog
reopened-IsStored stream = record {
  catalog = one_page-lem.2.catalog;
  sized = one_page-lem.2.sized;
  page_at = one_page-lem.2.page_at;
}

reopened-allocated : (stream : List Outcome) → is_page_allocated (reopened stream) 0 ≡ true
unfolding is_page_allocated
reopened-allocated stream = allocated

abbrev new_page : Page
new_page = record { id = 0; lsn = 6; payload = zero_payload }

open_database-allocate_page_example :
    ((allocate_page empty_database).0 ≡ ok 0)
    × (open_database one_page.blocks [] ≡ ok (record one_page { failed = false; stream = [] }))
open_database-allocate_page_example =
    open_database-allocate_page empty_database [] (created-IsConsistent []) (created-IsStored [])
      (omega arith) refl refl refl

open_database-reserve_page_torn_example :
    open_database (reserve_page (created (whole ∷ whole ∷ torn 0 ∷ []))).1.blocks []
    ≡ err invalid_catalog_bounds
open_database-reserve_page_torn_example =
    open_database-reserve_page_torn (created (whole ∷ whole ∷ torn 0 ∷ [])) []
      (created-IsConsistent (whole ∷ whole ∷ torn 0 ∷ []))
      (created-IsStored (whole ∷ whole ∷ torn 0 ∷ [])) (omega arith) refl refl

read_page-write_page_example : (read_page 0 (write_page 0 new_page (reopened [])).1).0 ≡ ok new_page
read_page-write_page_example =
    read_page-write_page (reopened []) new_page (reopened-IsConsistent []) (reopened-IsStored [])
      (reopened-allocated []) length-zero_payload (omega arith) refl

-- Slot 0 is reserved, and the next write stops at once.
abbrev half_reserved : PageManager
half_reserved = record empty_database { page_count = 1; stream = torn 0 ∷ [] }

Steps-IsConsistent_example : IsConsistent (deallocate_page 0 (reserve_page one_page).1).1
Steps-IsConsistent_example =
    Steps-IsConsistent one_page (deallocate_page 0 (reserve_page one_page).1).1
      (after (after (start one_page) (reserves one_page)) (deallocates 0 (reserve_page one_page).1))
      one_page-lem.1
