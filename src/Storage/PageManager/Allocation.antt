-- ===== src/Storage/PageManager/Allocation.antt =====
-- Allocation: which pages are logically allocated, and that memory stays consistent whatever the
-- writes meet.
use resume_project.Common.{
  ℕ, ◌+◌, ◌-◌, ◌≤◌, ◌<◌, ◌≡◌, ap, true, false, List, arith, ok, err, ◌==◌, torn, outcome,
  if◌then◌else◌, ◌⊎◌, ==_self, subst, sym, ◌∙◌,
}
use resume_project.Storage.Page.{is_valid}
use resume_project.Storage.Errors.{StorageError, write_failed}
use resume_project.Storage.Bitmap.{test_bit, set_bit, clear_bit}
use resume_project.Storage.Bitmap.Laws.{
  IsBitmap, set_bit-IsBitmap, clear_bit-IsBitmap, test_bit-set_bit, test_bit-clear_bit,
  count_set-set_bit, count_set-clear_bit, count_set-add_one,
}
use resume_project.Storage.PageManager.{
  PageManager, is_page_allocated, offset_for, validate_allocated, validate_logically_allocated,
  write_block, write_allocation_catalog, reserve_page, activate_reserved_page, allocate_page,
  deallocate_page, catalog_bits, bitmap_size,
}
use resume_project.Storage.PageManager.Access.{IsConsistent, allocated_checks}

-- Writing the catalog changes nothing in memory, whether it reaches the file or not.
abbrev pub SameMemory : PageManager → PageManager → Type 0
SameMemory a b =
    (a.page_count ≡ b.page_count)
    × (a.allocation_bitmap ≡ b.allocation_bitmap)
    × (a.allocated_page_count ≡ b.allocated_page_count)

write_block-memory :
    (i : ℕ) (raw : List ℕ) (pm : PageManager) → SameMemory (write_block i raw pm).1 pm
unfolding write_block
write_block-memory i raw pm = ground arith

-- A reservation takes the next slot, or fails and leaves memory as it was.
pub reserve_page-memory :
    (pm : PageManager)
    → ((reserve_page pm).0 ≡ ok pm.page_count
          × ((reserve_page pm).1.page_count ≡ pm.page_count + 1)
          × (pm.page_count < catalog_bits)
        ⊎ ((e : StorageError) × ((reserve_page pm).0 ≡ err e))
          × ((reserve_page pm).1.page_count ≡ pm.page_count))
      × ((reserve_page pm).1.allocation_bitmap ≡ pm.allocation_bitmap)
      × ((reserve_page pm).1.allocated_page_count ≡ pm.allocated_page_count)
unfolding reserve_page write_allocation_catalog write_block
reserve_page-memory pm = ground arith

-- A reservation on a consistent manager, also one that fails, makes no page accessible and takes
-- none away.
pub is_page_allocated-reserve_page :
    (pm : PageManager) (j : ℕ)
    → IsConsistent pm
    → is_page_allocated (reserve_page pm).1 j ≡ is_page_allocated pm j
unfolding is_page_allocated
is_page_allocated-reserve_page pm j c = ground (arith, reserve_page-memory pm, c.clear j)

pub IsConsistent-transport : (a b : PageManager) → SameMemory b a → IsConsistent a → IsConsistent b
IsConsistent-transport a b (count, bits, allocated) c = record {
  bitmap = subst (IsBitmap bitmap_size) (sym bits) c.bitmap;
  counted = rw (bits, count, allocated) c.counted;
  bounded = rw count c.bounded;
  clear = λ i h. rw bits (c.clear i (omega (arith, count)));
}

-- A reservation keeps memory consistent, also one that fails.
pub reserve_page-IsConsistent :
    (pm : PageManager) → IsConsistent pm → IsConsistent (reserve_page pm).1
reserve_page-IsConsistent pm c =
    let (result, bits, allocated) = reserve_page-memory pm in
    record {
      bitmap = subst (IsBitmap bitmap_size) (sym bits) c.bitmap;
      counted =
          rw (bits, allocated)
            (ground (
              arith,
              result,
              c.counted,
              c.clear pm.page_count,
              count_set-add_one pm.allocation_bitmap pm.page_count,
            ));
      bounded = ground (arith, result, c.bounded);
      clear = λ i h. rw bits (ground (arith, result, c.clear i));
    }

-- What activation and deallocation do to memory.
abbrev activated : PageManager → ℕ → PageManager
activated pm id = record pm {
  allocation_bitmap = set_bit pm.allocation_bitmap id;
  allocated_page_count = pm.allocated_page_count + 1;
}

abbrev deactivated : PageManager → ℕ → PageManager
deactivated pm id = record pm {
  allocation_bitmap = clear_bit pm.allocation_bitmap id;
  allocated_page_count = pm.allocated_page_count - 1;
}

module _ (pm : PageManager) (id : ℕ) (c : IsConsistent pm) where
  activate_reserved_page-memory :
      id < pm.page_count
      → is_page_allocated pm id ≡ false
      → SameMemory (activate_reserved_page id pm).1 (activated pm id)
  unfolding activate_reserved_page write_allocation_catalog write_block validate_allocated
      offset_for
  activate_reserved_page-memory below off = ground (arith, c.bounded)

  deallocate_page-memory :
      is_page_allocated pm id ≡ true → SameMemory (deallocate_page id pm).1 (deactivated pm id)
  unfolding deallocate_page write_allocation_catalog write_block validate_logically_allocated
      validate_allocated offset_for
  deallocate_page-memory on = ground (arith, allocated_checks pm id c.bounded on)

  bit_off :
      id < pm.page_count
      → is_page_allocated pm id ≡ false
      → test_bit pm.allocation_bitmap id ≡ false
  unfolding is_page_allocated
  bit_off below off = ground (arith, c.bounded)

  bit_on : is_page_allocated pm id ≡ true → test_bit pm.allocation_bitmap id ≡ true
  unfolding is_page_allocated
  bit_on on = ground arith

  -- On a consistent manager, activating a reserved page that is not accessible makes exactly this
  -- page accessible, also when the catalog write throws.
  pub is_page_allocated-activate :
      (j : ℕ)
      → is_valid id ≡ true
      → id < pm.page_count
      → is_page_allocated pm id ≡ false
      → is_page_allocated (activate_reserved_page id pm).1 j
        ≡ (if id == j then true else is_page_allocated pm j)
  unfolding is_page_allocated
  is_page_allocated-activate j valid below off = ground (
    arith,
    c.bounded,
    activate_reserved_page-memory below off,
    test_bit-set_bit pm.allocation_bitmap c.bitmap id j,
  )

  -- Activating a reserved page that is not accessible keeps memory consistent, also when the
  -- catalog write throws.
  pub activate_reserved_page-IsConsistent :
      id < pm.page_count
      → is_page_allocated pm id ≡ false
      → IsConsistent (activate_reserved_page id pm).1
  activate_reserved_page-IsConsistent below off =
      IsConsistent-transport (activated pm id) _ (activate_reserved_page-memory below off) (record {
        bitmap = set_bit-IsBitmap pm.allocation_bitmap c.bitmap id;
        counted = ground (
          arith,
          c.bounded,
          c.counted,
          bit_off below off,
          count_set-set_bit pm.allocation_bitmap c.bitmap id pm.page_count,
        );
        bounded = c.bounded;
        clear = λ i h.
            ground
              (arith, c.bounded, c.clear i, test_bit-set_bit pm.allocation_bitmap c.bitmap id i);
      })

  -- On a consistent manager, deallocating an accessible page takes away exactly this page, also
  -- when the catalog write throws.
  pub is_page_allocated-deallocate :
      (j : ℕ)
      → is_page_allocated pm id ≡ true
      → is_page_allocated (deallocate_page id pm).1 j
        ≡ (if id == j then false else is_page_allocated pm j)
  unfolding is_page_allocated
  is_page_allocated-deallocate j on = ground (
    arith,
    c.bounded,
    deallocate_page-memory on,
    test_bit-clear_bit pm.allocation_bitmap c.bitmap id j,
  )

  -- Deallocating an accessible page keeps memory consistent, also when the catalog write throws.
  pub deallocate_page-IsConsistent :
      is_page_allocated pm id ≡ true → IsConsistent (deallocate_page id pm).1
  deallocate_page-IsConsistent on =
      IsConsistent-transport (deactivated pm id) _ (deallocate_page-memory on) (record {
        bitmap = clear_bit-IsBitmap pm.allocation_bitmap c.bitmap id;
        counted = ground (
          arith,
          c.bounded,
          c.counted,
          allocated_checks pm id c.bounded on,
          bit_on on,
          count_set-clear_bit pm.allocation_bitmap c.bitmap id pm.page_count,
        );
        bounded = c.bounded;
        clear = λ i h. ground (
          arith,
          c.bounded,
          c.clear i,
          allocated_checks pm id c.bounded on,
          test_bit-clear_bit pm.allocation_bitmap c.bitmap id i,
        );
      })

allocate_page-steps :
    (pm pm' : PageManager) (id : ℕ)
    → allocate_page pm ≡ (ok id, pm')
    → ((reserve_page pm).0 ≡ ok id) × (pm' ≡ (activate_reserved_page id (reserve_page pm).1).1)
unfolding allocate_page
allocate_page-steps pm pm' id e = ground arith

-- An allocation on a consistent manager that returns gives the next page id, leaves a consistent
-- manager, and makes that page accessible and no other.
pub allocate_page_lem :
    (pm pm' : PageManager) (id : ℕ)
    → IsConsistent pm
    → allocate_page pm ≡ (ok id, pm')
    → (id ≡ pm.page_count)
      × IsConsistent pm'
      × ((j : ℕ) → is_page_allocated pm' j ≡ (if id == j then true else is_page_allocated pm j))
allocate_page_lem pm pm' id c e =
    let (reserved, state) = allocate_page-steps pm pm' id e in
    let s = (reserve_page pm).1 in
    let c' = reserve_page-IsConsistent pm c in
    let next : (id ≡ pm.page_count) × (s.page_count ≡ pm.page_count + 1) =
      ground (arith, reserve_page-memory pm) in
    let valid : is_valid id ≡ true = ground (arith, reserve_page-memory pm) in
    let off : is_page_allocated s id ≡ false =
      is_page_allocated-reserve_page pm id c ∙ beyond pm id (omega arith) in
    (
      next.0,
      rw state (activate_reserved_page-IsConsistent s id c' (omega arith) off),
      λ j. rw state (
          is_page_allocated-activate s id c' j valid (omega arith) off
          ∙ ap (λ b. if id == j then true else b) (is_page_allocated-reserve_page pm j c)),
    )
  where
    beyond : (p : PageManager) (i : ℕ) → p.page_count ≤ i → is_page_allocated p i ≡ false
    beyond p i h = unfold is_page_allocated in ground arith

-- On a consistent manager, activating a reserved page that is not accessible throws when the
-- catalog write fails, and the page is accessible all the same.
pub activate_reserved_page-torn :
    (pm : PageManager) (id k : ℕ)
    → IsConsistent pm
    → id < pm.page_count
    → is_page_allocated pm id ≡ false
    → outcome pm.stream ≡ torn k
    → ((activate_reserved_page id pm).0 ≡ err write_failed)
      × (is_page_allocated (activate_reserved_page id pm).1 id ≡ true)
unfolding activate_reserved_page write_allocation_catalog write_block validate_allocated offset_for
activate_reserved_page-torn pm id k c below off w = (
  ground (arith, c.bounded),
  is_page_allocated-activate pm id c id (ground (arith, c.bounded)) below off ∙ rw (==_self id),
)
