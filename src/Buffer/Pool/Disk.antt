-- ===== src/Buffer/Pool/Disk.antt =====
-- What the pool uses of `PageManager`, and the page manager as a value of it.
use resume_project.Common.{ℕ, ◌≡◌, Bool, Result, ok, arith}
use resume_project.Storage.Page.{Page}
use resume_project.Storage.Errors.{StorageError}
use resume_project.Storage.PageManager
use resume_project.Storage.PageManager.{PageManager}

pub record Disk (D : Type 0) : Type 0 where
  pub is_allocated : D → ℕ → Bool
  pub read : ℕ → D → Result StorageError Page × D
  pub write : ℕ → Page → D → Result StorageError (Unit {0}) × D
  pub sync : D → Result StorageError (Unit {0}) × D
  -- A page that was read carries the id under which it was asked for.
  pub read_id : (d : D) (id : ℕ) (p : Page) → (read id d).0 ≡ ok p → p.id ≡ id

pub read_page-id :
    (pm : PageManager) (id : ℕ) (p : Page) → (PageManager.read_page id pm).0 ≡ ok p → p.id ≡ id
unfolding PageManager.read_page PageManager.page_in
read_page-id pm id p e = ground arith

abbrev pub page_disk : Disk PageManager
page_disk = record {
  is_allocated = PageManager.is_page_allocated;
  read = PageManager.read_page;
  write = PageManager.write_page;
  sync = PageManager.flush;
  read_id = read_page-id;
}
