-- ===== src/Storage/PageManager/Durable.antt =====
-- The file follows memory: operations whose writes reach it keep it ready to be opened again, and
-- the one crash that does not.
use native.Mathlib.Numerals.{add-one}
use resume_project.Common.{
  ℕ, zero, suc, ◌+◌, ◌≤◌, ◌<◌, ◌≡◌, ◌≢◌, refl, true, false, some, List, length, get_elem?, arith,
  Result, ok, err, IsU64, ◌==◌, whole, outcome, later, Bool-cases, inl, inr, subst, sym, ◌∙◌,
  ==_iff,
}
use resume_project.Storage.Page.{Page, page_size, IsFull, zero_payload, length-zero_payload}
use resume_project.Storage.Errors.{StorageError}
use resume_project.Storage.Bitmap.Laws.{IsBitmap, set_bit-IsBitmap, clear_bit-IsBitmap}
use resume_project.Storage.PageManager.{
  PageManager, raw_page, raw_catalog, put_block, is_page_allocated, offset_for, write_block,
  write_allocation_catalog, validate_allocated, reserve_page, activate_reserved_page,
  deallocate_page, write_page, catalog_bits, bitmap_size, release_slot,
}
use resume_project.Storage.PageManager.Format.{
  length-raw_page, put_block_self, put_block_ne, length-put_block, length-put_block_end,
  length-raw_catalog,
}
use resume_project.Storage.PageManager.Access.{
  IsConsistent, IsStored, Stores, allocated_checks, Stores-put_block, write_page-whole,
}
use resume_project.Storage.PageManager.Reopen.{block_size, get_elem?-lt}

-- The pages of the file, whatever its catalog says.
pub record HasPages (pm : PageManager) : Type 0 where
  pub sized : length pm.blocks ≡ pm.page_count + 1
  pub first : (raw : List ℕ) → get_elem? pm.blocks 0 ≡ some raw → length raw ≡ page_size
  pub page_at :
      (i : ℕ) → i < pm.page_count → (lsn : ℕ) × (payload : List ℕ) × Stores pm.blocks i lsn payload

Stores-put_block_ne :
    (blocks : List (List ℕ)) (k i lsn : ℕ) (payload raw : List ℕ)
    → k ≢ i + 1
    → k ≤ length blocks
    → Stores blocks i lsn payload
    → Stores (put_block blocks k raw) i lsn payload
Stores-put_block_ne blocks k i lsn payload raw apart h s = record {
  block = put_block_ne blocks k (i + 1) raw apart h ∙ s.block;
  full = s.full;
  lsn_fits = s.lsn_fits;
}

-- A catalog that reaches the file makes it agree with memory.
write_allocation_catalog-IsStored :
    (pm : PageManager)
    → HasPages pm
    → IsBitmap bitmap_size pm.allocation_bitmap
    → outcome pm.stream ≡ whole
    → ((write_allocation_catalog pm).0 ≡ ok tt) × IsStored (write_allocation_catalog pm).1
unfolding write_allocation_catalog write_block raw_catalog
write_allocation_catalog-IsStored pm h b w = rw w (
  refl,
  record {
    catalog =
        put_block_self pm.blocks 0 (raw_catalog pm)
          (λ old e. omega (arith, h.first old e, length-raw_catalog pm, b.sized)) (omega arith);
    sized = omega (arith, h.sized, length-put_block pm.blocks 0 (raw_catalog pm));
    page_at = λ i below.
        let (lsn, payload, at) = h.page_at i below in
        (
          lsn,
          payload,
          Stores-put_block_ne pm.blocks 0 i lsn payload (raw_catalog pm) (omega arith) (omega arith)
              at,
        );
  },
)

-- A page that is written into the file.
pub write_page-IsStored :
    (pm : PageManager) (page : Page)
    → IsConsistent pm
    → IsStored pm
    → is_page_allocated pm page.id ≡ true
    → IsFull page
    → IsU64 page.lsn
    → outcome pm.stream ≡ whole
    → IsStored (write_page page.id page pm).1
unfolding raw_catalog
write_page-IsStored pm page c s allocated full fits w =
    let (_, _, below) = allocated_checks pm page.id c.bounded allocated in
    rw (write_page-whole pm page.id page c.bounded allocated refl w) (record {
      catalog =
          put_block_ne pm.blocks (page.id + 1) 0 _ (omega arith) (omega (arith, s.sized))
          ∙ s.catalog;
      sized = omega (
        arith,
        s.sized,
        length-put_block pm.blocks (page.id + 1) (raw_page page.id page.lsn page.payload),
      );
      page_at = λ i h. elim (Bool-cases (page.id == i)) [
        | inl here ↦ (
          page.lsn,
          page.payload,
          subst
              (λ k.
                Stores (put_block pm.blocks (page.id + 1) (raw_page page.id page.lsn page.payload))
                  k page.lsn page.payload)
              ((==_iff page.id i).0 here)
              (Stores-put_block pm page.id page.lsn page.payload s below full fits),
        )
        | inr apart ↦
            let (lsn, payload, at) = s.page_at i h in
            (
              lsn,
              payload,
              Stores-put_block_ne pm.blocks (page.id + 1) i lsn payload _ (λ e. ground arith)
                  (omega (arith, s.sized)) at,
            )
      ];
    })

-- The slot that a reservation adds, before its catalog is written.
unfoldable pub with_slot : PageManager → PageManager
with_slot pm = record pm {
  blocks = put_block pm.blocks (pm.page_count + 1) (raw_page pm.page_count 0 zero_payload);
  page_count = pm.page_count + 1;
  failed = false;
  stream = later pm.stream;
}

pub with_slot-HasPages :
    (pm : PageManager) → IsConsistent pm → IsStored pm → HasPages (with_slot pm)
unfolding with_slot
with_slot-HasPages pm c s = record {
  sized = omega (
    arith,
    s.sized,
    length-put_block_end pm.blocks (pm.page_count + 1) (raw_page pm.page_count 0 zero_payload),
  );
  first = λ raw e. block_size pm c s 0 raw (
      sym (put_block_ne pm.blocks (pm.page_count + 1) 0 _ (omega arith) (omega (arith, s.sized)))
      ∙ e);
  page_at = λ i h. elim (Bool-cases (pm.page_count == i)) [
    | inl here ↦ (
      0,
      zero_payload,
      subst
          (λ k.
            Stores (put_block pm.blocks (pm.page_count + 1) (raw_page pm.page_count 0 zero_payload))
              k 0 zero_payload)
          ((==_iff pm.page_count i).0 here)
          (record {
            block =
                put_block_self pm.blocks (pm.page_count + 1) _
                  (λ old e.
                    absurd
                      (omega (arith, s.sized, get_elem?-lt pm.blocks (pm.page_count + 1) old e)))
                  (omega (arith, s.sized));
            full = length-zero_payload;
            lsn_fits = omega arith;
          }),
    )
    | inr apart ↦
        let below : i < pm.page_count = ground arith in
        let (lsn, payload, at) = s.page_at i below in
        (
          lsn,
          payload,
          Stores-put_block_ne pm.blocks (pm.page_count + 1) i lsn payload _ (omega arith)
              (omega (arith, s.sized)) at,
        )
  ];
}

release_slot-ok :
    (id : ℕ) (q : Result StorageError (Unit {0}) × PageManager)
    → q.0 ≡ ok tt
    → release_slot id q ≡ (ok id, q.1)
unfolding release_slot
release_slot-ok id (ok _, pm) e = refl
release_slot-ok id (err x, pm) e = cc

reserve_page-slot :
    (pm : PageManager)
    → pm.page_count < catalog_bits
    → outcome pm.stream ≡ whole
    → reserve_page pm ≡ release_slot pm.page_count (write_allocation_catalog (with_slot pm))
unfolding reserve_page write_block offset_for with_slot
reserve_page-slot pm room w = ground arith

-- A reservation whose two writes reach the file.
pub reserve_page-IsStored :
    (pm : PageManager)
    → IsConsistent pm
    → IsStored pm
    → pm.page_count < catalog_bits
    → outcome pm.stream ≡ whole
    → outcome (later pm.stream) ≡ whole
    → ((reserve_page pm).0 ≡ ok pm.page_count) × IsStored (reserve_page pm).1
reserve_page-IsStored pm c s room w w' =
    let (done, stored) =
      write_allocation_catalog-IsStored (with_slot pm) (with_slot-HasPages pm c s)
        (unfold with_slot in c.bitmap) (unfold with_slot in w') in
    rw
      (
        reserve_page-slot pm room w,
        release_slot-ok pm.page_count (write_allocation_catalog (with_slot pm)) done,
      )
      (refl, stored)

HasPages-memory :
    (pm : PageManager) (bits : List ℕ) (n : ℕ)
    → IsConsistent pm
    → IsStored pm
    → HasPages (record pm { allocation_bitmap = bits; allocated_page_count = n })
HasPages-memory pm bits n c s = record {
  sized = s.sized;
  first = block_size pm c s 0;
  page_at = s.page_at;
}

-- An activation, or a deallocation, whose write reaches the file.
pub activate_reserved_page-IsStored :
    (pm : PageManager) (id : ℕ)
    → IsConsistent pm
    → IsStored pm
    → id < pm.page_count
    → is_page_allocated pm id ≡ false
    → outcome pm.stream ≡ whole
    → ((activate_reserved_page id pm).0 ≡ ok tt) × IsStored (activate_reserved_page id pm).1
unfolding activate_reserved_page
activate_reserved_page-IsStored pm id c s below off w =
    rw (allowed pm id below c.bounded, off)
      (write_allocation_catalog-IsStored _ (HasPages-memory pm _ _ c s)
        (set_bit-IsBitmap pm.allocation_bitmap c.bitmap id) w)
  where
    allowed :
        (p : PageManager) (i : ℕ)
        → i < p.page_count
        → p.page_count ≤ catalog_bits
        → validate_allocated p i ≡ ok tt
    allowed p i h b = unfold validate_allocated offset_for in ground arith

pub deallocate_page-IsStored :
    (pm : PageManager) (id : ℕ)
    → IsConsistent pm
    → IsStored pm
    → is_page_allocated pm id ≡ true
    → outcome pm.stream ≡ whole
    → ((deallocate_page id pm).0 ≡ ok tt) × IsStored (deallocate_page id pm).1
unfolding deallocate_page
deallocate_page-IsStored pm id c s on w = rw ((allocated_checks pm id c.bounded on).0) (
    write_allocation_catalog-IsStored _ (HasPages-memory pm _ _ c s)
      (clear_bit-IsBitmap pm.allocation_bitmap c.bitmap id) w)

-- Every block of such a file is whole.
pub HasPages-size :
    (pm : PageManager)
    → HasPages pm
    → (i : ℕ) (raw : List ℕ) → get_elem? pm.blocks i ≡ some raw
    → length raw ≡ page_size
HasPages-size pm h zero raw e = h.first raw e
HasPages-size pm h (suc i) raw e =
    let (lsn, payload, at) =
      h.page_at i (omega (arith, h.sized, get_elem?-lt pm.blocks (suc i) raw e)) in
    let same : raw ≡ raw_page i lsn payload = cc (e, rw add-one at at.block) in
    rw same (omega (arith, length-raw_page i lsn payload, at.full))
