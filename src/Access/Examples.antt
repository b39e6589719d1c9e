-- ===== src/Access/Examples.antt =====
-- Transaction 7 takes page 0 of a new pool for itself.
use resume_project.Common.{
  ℕ, ◌≡◌, refl, true, none, ok, replicate, put16, put64, get16, get64, same_bytes,
}
use resume_project.Storage.PageManager.{
  raw_page, is_page_allocated, read_page, page_in, after_read, read_block, has_page_format,
  validate_logically_allocated, validate_allocated, offset_for,
}
use resume_project.Storage.Bitmap.{test_bit}
use resume_project.Buffer.Table.{lookup}
use resume_project.Buffer.Pool.Defs.{create, free_from, empty_frames}
use resume_project.Buffer.Pool.Io.{fetch_page, acquire_frame, load_acquired, load_page, place}
use resume_project.Buffer.Pool.Create.{create-IsValid}
use resume_project.Buffer.Pool.Fetched.{IsPinned}
use resume_project.Concurrency.LockManager.{
  LockMode, exclusive, holds, lock, with_own, own_mode, entry, request, compatible, none_conflict,
  grant, put_entry, insert_resource,
}
use resume_project.Concurrency.Reachable.{start, new_manager}
use resume_project.Transactions.Transaction.{Session}
use resume_project.Index.Tree.LookupExamples.{tree, disk}
use resume_project.Access.{done, write, acquire, behind_lock, after_lock, pin_page, LockedPage}
use resume_project.Access.Pinned.{write-holds}

abbrev session : Session
session = tree.session

abbrev page : LockedPage
page = record { id = 0; frame = 0; dirty = true }

writes : (write 0 session).0 ≡ ok (done page)
unfolding write acquire behind_lock after_lock pin_page lock with_own own_mode entry request
    compatible none_conflict grant put_entry insert_resource new_manager fetch_page acquire_frame
    create load_acquired load_page place free_from empty_frames lookup is_page_allocated test_bit
    read_page page_in after_read read_block has_page_format validate_logically_allocated
    validate_allocated offset_for raw_page put16 put64 get16 get64 same_bytes replicate
writes = refl

write-holds_example :
    (holds (write 0 session).1.locks 7 0 exclusive ≡ true)
    × ((j : ℕ) (mode : LockMode) → holds (write 0 session).1.locks j 0 mode ≡ true → 7 ≡ j)
    × ◌≡◌ {A = ℕ} 0 0
    × IsPinned 0 0 (write 0 session).1.buffer
write-holds_example = write-holds 0 session page start (create-IsValid disk 3 none) writes
