-- ===== src/Storage/PageManager/Restart.antt =====
-- The file of a database across a restart, after operations whose writes reach it, and after the one
-- crash that it does not survive.
use resume_project.Common.{
  ℕ, ◌+◌, ◌≤◌, ◌<◌, ◌≡◌, refl, ap, true, false, some, List, ◌∷◌, length, get_elem?, arith, Result,
  ok, err, IsU64, whole, torn, outcome, later, Outcome, subst, sym, ◌∙◌,
}
use resume_project.Storage.Page.{Page, IsFull}
use resume_project.Storage.Errors.{invalid_catalog_bounds}
use resume_project.Storage.PageManager.{
  PageManager, raw_catalog, is_page_allocated, offset_for, write_block, write_allocation_catalog,
  reserve_page, activate_reserved_page, allocate_page, deallocate_page, write_page, read_page,
  catalog_bits, open_database, are_whole, load_catalog,
}
use resume_project.Storage.PageManager.Format.{put_block_ne}
use resume_project.Storage.PageManager.Access.{
  IsConsistent, IsStored, write_page-whole, page_in-blocks, read_page-result, read_page-write_page,
}
use resume_project.Storage.PageManager.Reopen.{blocks-cons, are_whole-stored, open_database-stored}
use resume_project.Storage.PageManager.Allocation.{
  reserve_page-memory, reserve_page-IsConsistent, is_page_allocated-reserve_page,
  activate_reserved_page-IsConsistent, deallocate_page-IsConsistent,
}
use resume_project.Common.{then_do}
use resume_project.Storage.PageManager.Format.{
  magic-raw_catalog, version-raw_catalog, page_count-raw_catalog,
}
use resume_project.Storage.PageManager.Durable.{
  with_slot, with_slot-HasPages, reserve_page-IsStored, activate_reserved_page-IsStored,
  deallocate_page-IsStored, HasPages-size, write_page-IsStored,
}

IsConsistent-write_page :
    (pm : PageManager) (page : Page)
    → IsConsistent pm
    → is_page_allocated pm page.id ≡ true
    → outcome pm.stream ≡ whole
    → IsConsistent (write_page page.id page pm).1
IsConsistent-write_page pm page c on w =
    rw (write_page-whole pm page.id page c.bounded on refl w)
      (record { bitmap = c.bitmap; counted = c.counted; bounded = c.bounded; clear = c.clear })

then_do-ok {ℓ κ} :
    {E S : Type 0} {A : Type ℓ} {B : Type κ} (q : Result E A × S) (f : A → S → Result E B × S)
    (a : A)
    → q.0 ≡ ok a
    → then_do q f ≡ f a q.1
then_do-ok (ok x, s) f a e = ground arith
then_do-ok (err x, s) f a e = cc

reserve_page-stream :
    (pm : PageManager)
    → pm.page_count < catalog_bits
    → outcome pm.stream ≡ whole
    → outcome (later pm.stream) ≡ whole
    → (reserve_page pm).1.stream ≡ later (later pm.stream)
unfolding reserve_page write_allocation_catalog write_block offset_for
reserve_page-stream pm room w w' = ground arith

with_slot-catalog :
    (pm : PageManager) → IsStored pm → get_elem? (with_slot pm).blocks 0 ≡ some (raw_catalog pm)
unfolding with_slot
with_slot-catalog pm s =
    put_block_ne pm.blocks (pm.page_count + 1) 0 _ (omega arith) (omega (arith, s.sized))
    ∙ s.catalog

reserve_page-torn_state :
    (pm : PageManager)
    → pm.page_count < catalog_bits
    → outcome pm.stream ≡ whole
    → outcome (later pm.stream) ≡ torn 0
    → (reserve_page pm).1.blocks ≡ (with_slot pm).blocks
unfolding reserve_page write_allocation_catalog write_block offset_for with_slot
reserve_page-torn_state pm room w t = ground arith

reserve_page-torn_blocks :
    (pm : PageManager) (pages : List (List ℕ))
    → pm.page_count < catalog_bits
    → outcome pm.stream ≡ whole
    → outcome (later pm.stream) ≡ torn 0
    → (with_slot pm).blocks ≡ raw_catalog pm ∷ pages
    → (reserve_page pm).1.blocks ≡ raw_catalog pm ∷ pages
reserve_page-torn_blocks pm pages room w t e = reserve_page-torn_state pm room w t ∙ e

load_catalog-uncounted :
    (pm : PageManager) (pages : List (List ℕ)) (stream : List Outcome)
    → IsConsistent pm
    → length pages ≡ pm.page_count + 1
    → load_catalog (raw_catalog pm) pages stream ≡ err invalid_catalog_bounds
unfolding load_catalog
load_catalog-uncounted pm pages stream c e =
    ground
      (arith, c.bounded, magic-raw_catalog pm, version-raw_catalog pm, page_count-raw_catalog pm)

-- Three writes reach the file: an allocation succeeds.
pub allocate_page-IsStored :
    (pm : PageManager)
    → IsConsistent pm
    → IsStored pm
    → pm.page_count < catalog_bits
    → outcome pm.stream ≡ whole
    → outcome (later pm.stream) ≡ whole
    → outcome (later (later pm.stream)) ≡ whole
    → ((allocate_page pm).0 ≡ ok pm.page_count)
      × IsConsistent (allocate_page pm).1
      × IsStored (allocate_page pm).1
unfolding allocate_page
allocate_page-IsStored pm c s room w w' w'' =
    let (done, stored) = reserve_page-IsStored pm c s room w w' in
    let q = (reserve_page pm).1 in
    let c' = reserve_page-IsConsistent pm c in
    let below : pm.page_count < q.page_count = ground (arith, reserve_page-memory pm) in
    let off : is_page_allocated q pm.page_count ≡ false =
      is_page_allocated-reserve_page pm pm.page_count c ∙ beyond pm pm.page_count (omega arith) in
    let (active, kept) =
      activate_reserved_page-IsStored q pm.page_count c' stored below off
        (rw (reserve_page-stream pm room w w') w'') in
    rw (then_do-ok (reserve_page pm) _ pm.page_count done) (
      rw (then_do-ok (activate_reserved_page pm.page_count q) _ tt active)
        (refl, activate_reserved_page-IsConsistent q pm.page_count c' below off, kept))
  where
    beyond : (p : PageManager) (i : ℕ) → p.page_count ≤ i → is_page_allocated p i ≡ false
    beyond p i h = unfold is_page_allocated in ground arith

-- On a consistent and stored manager with room left, an allocation whose three writes reach the
-- file returns the next page id, and opening the file gives the manager with that page.
pub open_database-allocate_page :
    (pm : PageManager) (stream : List Outcome)
    → IsConsistent pm
    → IsStored pm
    → pm.page_count < catalog_bits
    → outcome pm.stream ≡ whole
    → outcome (later pm.stream) ≡ whole
    → outcome (later (later pm.stream)) ≡ whole
    → ((allocate_page pm).0 ≡ ok pm.page_count)
      × (open_database (allocate_page pm).1.blocks stream
          ≡ ok (record (allocate_page pm).1 { failed = false; stream = stream }))
open_database-allocate_page pm stream c s room w w' w'' =
    let (done, consistent, stored) = allocate_page-IsStored pm c s room w w' w'' in
    (done, open_database-stored (allocate_page pm).1 stream consistent stored)

-- On a consistent and stored manager, after a deallocation of an allocated page whose write
-- reaches the file, opening the file gives the manager without the page.
pub open_database-deallocate_page :
    (pm : PageManager) (id : ℕ) (stream : List Outcome)
    → IsConsistent pm
    → IsStored pm
    → is_page_allocated pm id ≡ true
    → outcome pm.stream ≡ whole
    → open_database (deallocate_page id pm).1.blocks stream
      ≡ ok (record (deallocate_page id pm).1 { failed = false; stream = stream })
open_database-deallocate_page pm id stream c s on w =
    open_database-stored (deallocate_page id pm).1 stream (deallocate_page-IsConsistent pm id c on)
      (deallocate_page-IsStored pm id c s on w).1

-- On a consistent and stored manager with room left, a reservation that writes its page and then
-- nothing of the catalog leaves a file that does not open: the catalog bounds are refused.
pub open_database-reserve_page_torn :
    (pm : PageManager) (stream : List Outcome)
    → IsConsistent pm
    → IsStored pm
    → pm.page_count < catalog_bits
    → outcome pm.stream ≡ whole
    → outcome (later pm.stream) ≡ torn 0
    → open_database (reserve_page pm).1.blocks stream ≡ err invalid_catalog_bounds
unfolding open_database
open_database-reserve_page_torn pm stream c s room w t =
    let slot = with_slot pm in
    let h = with_slot-HasPages pm c s in
    let (pages, e) = blocks-cons slot.blocks (raw_catalog pm) (with_slot-catalog pm s) in
    let whole_blocks : are_whole (raw_catalog pm ∷ pages) ≡ true =
      rw e at (are_whole-stored slot.blocks (HasPages-size slot h)) in
    let count : length pages ≡ pm.page_count + 1 =
      unfold with_slot in omega (arith, h.sized, ap (λ (bs : List (List ℕ)). length bs) e) in
    subst (λ bs. open_database bs stream ≡ err invalid_catalog_bounds)
      (sym (reserve_page-torn_blocks pm pages room w t e))
      (rw whole_blocks (load_catalog-uncounted pm pages stream c count))

-- On a consistent and stored manager, after a write of an allocated page that reaches the file,
-- the file opens again, and the page is read there as it was written.
pub read_page-open_database :
    (pm : PageManager) (page : Page) (stream : List Outcome)
    → IsConsistent pm
    → IsStored pm
    → is_page_allocated pm page.id ≡ true
    → IsFull page
    → IsU64 page.lsn
    → outcome pm.stream ≡ whole
    → (pm' : PageManager) × (open_database (write_page page.id page pm).1.blocks stream ≡ ok pm')
      × ((read_page page.id pm').0 ≡ ok page)
read_page-open_database pm page stream c s on full fits w = (
  record (write_page page.id page pm).1 { failed = false; stream = stream },
  open_database-stored (write_page page.id page pm).1 stream
      (IsConsistent-write_page pm page c on w) (write_page-IsStored pm page c s on full fits w),
  rw (read_page-result, page_in-blocks (write_page page.id page pm).1 page.id _ false stream refl)
      (rw read_page-result at (read_page-write_page pm page c s on full fits w)),
)
