-- ===== src/Storage/PageManager/Fresh.antt =====
-- A new database file.
use resume_project.Common.{
  ◌≡◌, refl, false, List, [], ◌∷◌, replicate, arith, ok, Outcome, whole, outcome, later,
}
use resume_project.Storage.Bitmap.{count_set}
use resume_project.Storage.Bitmap.Laws.{zeros-IsBitmap, test_bit-zeros}
use resume_project.Storage.PageManager.{
  PageManager, raw_catalog, open_database, write_allocation_catalog, write_block, put_block,
  bitmap_size,
}
use resume_project.Storage.PageManager.Access.{IsConsistent, IsStored}

-- The manager that opening no bytes gives, when its catalog reaches the file.
abbrev pub created : List Outcome → PageManager
created stream =
    let pm : PageManager = record {
      blocks = [];
      page_count = 0;
      allocation_bitmap = replicate bitmap_size 0;
      allocated_page_count = 0;
      failed = false;
      stream = later stream;
    } in
    record pm { blocks = raw_catalog pm ∷ [] }

pub created-IsConsistent : (stream : List Outcome) → IsConsistent (created stream)
created-IsConsistent stream = record {
  bitmap = zeros-IsBitmap bitmap_size;
  counted = unfold count_set in refl;
  bounded = omega arith;
  clear = λ i h. test_bit-zeros bitmap_size i;
}

pub created-IsStored : (stream : List Outcome) → IsStored (created stream)
unfolding raw_catalog
created-IsStored stream = record {
  catalog = refl;
  sized = refl;
  page_at = λ i h. absurd (omega arith);
}

-- Opening an empty file, when the write of its catalog reaches the file, gives a consistent and
-- stored manager without pages.
pub open_database-nil :
    (stream : List Outcome)
    → outcome stream ≡ whole
    → (pm : PageManager) × (open_database [] stream ≡ ok pm)
      × (pm.page_count ≡ 0)
      × IsConsistent pm
      × IsStored pm
unfolding open_database write_allocation_catalog write_block put_block raw_catalog
open_database-nil stream w =
    (created stream, rw w refl, refl, created-IsConsistent stream, created-IsStored stream)
