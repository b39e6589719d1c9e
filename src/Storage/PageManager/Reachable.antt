-- ===== src/Storage/PageManager/Reachable.antt =====
-- The page manager as a state machine: what its methods do to the catalog in memory.
use resume_project.Common.{ℕ, ◌<◌, ◌≡◌, true, false, arith, inl, inr, ◌⊎◌}
use resume_project.Storage.Page.{Page}
use resume_project.Storage.PageManager.{
  PageManager, reserve_page, activate_reserved_page, deallocate_page, read_page, write_page,
  is_page_allocated, validate_allocated, validate_logically_allocated, write_block, after_read,
}
use resume_project.Storage.PageManager.Access.{IsConsistent}
use resume_project.Storage.PageManager.Allocation.{
  SameMemory, IsConsistent-transport, reserve_page-IsConsistent,
  activate_reserved_page-IsConsistent, deallocate_page-IsConsistent,
}

-- What an activation and a deallocation of any page do: they change the catalog, or nothing.
activate-cases :
    (id : ℕ) (pm : PageManager)
    → (id < pm.page_count) × (is_page_allocated pm id ≡ false)
      ⊎ ((activate_reserved_page id pm).1 ≡ pm)
unfolding activate_reserved_page validate_allocated
activate-cases id pm = ground arith

deallocate-cases :
    (id : ℕ) (pm : PageManager)
    → (is_page_allocated pm id ≡ true) ⊎ ((deallocate_page id pm).1 ≡ pm)
unfolding deallocate_page validate_logically_allocated validate_allocated
deallocate-cases id pm = ground arith

any_activate-IsConsistent :
    (id : ℕ) (pm : PageManager) → IsConsistent pm → IsConsistent (activate_reserved_page id pm).1
any_activate-IsConsistent id pm c = elim (activate-cases id pm) [
  | inl (below, off) ↦ activate_reserved_page-IsConsistent pm id c below off
  | inr same ↦ rw same c
]

any_deallocate-IsConsistent :
    (id : ℕ) (pm : PageManager) → IsConsistent pm → IsConsistent (deallocate_page id pm).1
any_deallocate-IsConsistent id pm c = elim (deallocate-cases id pm) [
  | inl on ↦ deallocate_page-IsConsistent pm id c on
  | inr same ↦ rw same c
]

write_page-SameMemory :
    (id : ℕ) (page : Page) (pm : PageManager) → SameMemory (write_page id page pm).1 pm
unfolding write_page write_block
write_page-SameMemory id page pm = ground arith

read_page-SameMemory : (id : ℕ) (pm : PageManager) → SameMemory (read_page id pm).1 pm
unfolding read_page after_read
read_page-SameMemory id pm = ground arith

pub data Step : PageManager → PageManager → Type 0 where
  reserves : (pm : PageManager) → Step pm (reserve_page pm).1
  activates : (id : ℕ) (pm : PageManager) → Step pm (activate_reserved_page id pm).1
  deallocates : (id : ℕ) (pm : PageManager) → Step pm (deallocate_page id pm).1
  writes : (id : ℕ) (page : Page) (pm : PageManager) → Step pm (write_page id page pm).1
  reads : (id : ℕ) (pm : PageManager) → Step pm (read_page id pm).1

-- What a manager becomes by calls of its methods.
pub data Steps : PageManager → PageManager → Type 0 where
  start : (pm : PageManager) → Steps pm pm
  after : {a b c : PageManager} → Steps a b → Step b c → Steps a c

Step-IsConsistent : {a b : PageManager} → Step a b → IsConsistent a → IsConsistent b
Step-IsConsistent (reserves pm) = reserve_page-IsConsistent pm
Step-IsConsistent (activates id pm) = any_activate-IsConsistent id pm
Step-IsConsistent (deallocates id pm) = any_deallocate-IsConsistent id pm
Step-IsConsistent (writes id page pm) =
    IsConsistent-transport pm _ (write_page-SameMemory id page pm)
Step-IsConsistent (reads id pm) = IsConsistent-transport pm _ (read_page-SameMemory id pm)

-- Reservations, activations, deallocations, writes and reads of any pages, in any order and
-- whether they return or throw, keep a consistent manager consistent.
pub Steps-IsConsistent : (a b : PageManager) → Steps a b → IsConsistent a → IsConsistent b
Steps-IsConsistent a _ (start pm) c = c
Steps-IsConsistent a b (after steps step) c =
    Step-IsConsistent step (Steps-IsConsistent a _ steps c)
