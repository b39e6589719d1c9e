-- ===== src/Transactions/Allocation.antt =====
-- `PageManager::allocate_transactional_page`: the log has the allocation, durably, before the catalog.
use resume_project.Common.{
  ℕ, ◌+◌, ◌<◌, ◌≡◌, refl, sym, subst, true, false, ◌⊎◌, inl, inr, List, [], ◌∷◌, ◌++◌, arith,
  Result, ok, err, IsU64, put64,
}
use resume_project.Common.Action.{pure, next, rewrap, ◌>>=◌, ◌>>◌}
use resume_project.Storage.Page.{is_valid}
use resume_project.Storage.Errors.{StorageError}
use resume_project.Storage.Wal.{WalRecord, WalError}
use resume_project.Storage.Wal
use resume_project.Storage.Wal.Mutation.{encode_page_allocate}
use resume_project.Storage.Log
use resume_project.Storage.Log.{append, append_page_allocate}
use resume_project.Storage.Log.Append.{Holds, record_of}
use resume_project.Storage.PageManager.{
  PageManager, reserve_page, activate_reserved_page, is_page_allocated, catalog_bits,
}
use resume_project.Storage.PageManager.Access.{IsConsistent}
use resume_project.Storage.PageManager.Allocation.{
  reserve_page-memory, is_page_allocated-reserve_page, reserve_page-IsConsistent,
  is_page_allocated-activate,
}
use resume_project.Transactions.Errors.{EngineError, pages, wal}
use resume_project.Transactions.Transaction
use resume_project.Transactions.Transaction.{
  Session, put_pages, on_pages, on_log, allocate_transactional_page,
}
use resume_project.Transactions.Forced.{
  AllDurable, then_flush, then_flush-SameButLog, then_flush-ok, IsDone, append-IsDone,
}

abbrev pub allocation_record : ℕ → Session → WalRecord
allocation_record transaction_id s =
    record_of Wal.page_allocate transaction_id (put64 s.buffer.disk.page_count) s.log

append_page_allocate-IsDone :
    (transaction_id id : ℕ) (log : Log.Log) (rs : List WalRecord)
    → is_valid id ≡ true
    → IsU64 transaction_id
    → Holds log rs
    → IsU64 (log.next_lsn + 1)
    → IsDone
        (append_page_allocate transaction_id id log).0
        (append_page_allocate transaction_id id log).1
        (rs ++ record_of Wal.page_allocate transaction_id (put64 id) log ∷ [])
unfolding append_page_allocate encode_page_allocate
append_page_allocate-IsDone transaction_id id log rs valid fits h room =
    rw (append_page_allocate, encode_page_allocate, valid)
      (append-IsDone Wal.page_allocate transaction_id (put64 id) log rs
        (record {
          lsn_fits = h.next_fits;
          lsn_set = h.next_set;
          transaction_fits = fits;
          payload_fits = unfold put64 in omega arith;
        })
        h room)

-- The statements after the reservation.
abbrev after_flush : ℕ → Result EngineError (Unit {0}) × Session → Result EngineError ℕ × Session
after_flush id q = next q (λ u. on_pages (activate_reserved_page id) >> pure id)

abbrev after_reserve :
    ℕ → Session → Result StorageError ℕ × PageManager → Result EngineError ℕ × Session
after_reserve transaction_id s r =
    next (rewrap put_pages pages s r)
      (λ id t. after_flush id (then_flush t (append_page_allocate transaction_id id t.log)))

after_reserve-steps :
    (transaction_id : ℕ) (s : Session)
    → allocate_transactional_page transaction_id s
      ≡ after_reserve transaction_id s (reserve_page s.buffer.disk)
unfolding allocate_transactional_page
after_reserve-steps transaction_id s = reserved (reserve_page s.buffer.disk)
  where
    logged :
        (id : ℕ) (t : Session) (q : Result WalError ℕ × Log.Log)
        → next
            (rewrap Transaction.put_log wal t q)
            (λ lsn. on_log Log.flush >> (on_pages (activate_reserved_page id) >> pure id))
          ≡ after_flush id (then_flush t q)
    logged id t (ok l, log) = refl
    logged id t (err e, log) = refl

    reserved :
        (r : Result StorageError ℕ × PageManager)
        → next (rewrap put_pages pages s r) (λ id.
          on_log (append_page_allocate transaction_id id) >>= λ lsn.
          on_log Log.flush >> (on_pages (activate_reserved_page id) >> pure id))
          ≡ after_reserve transaction_id s r
    reserved (ok id, pm) = logged id (put_pages pm s) (append_page_allocate transaction_id id s.log)
    reserved (err e, pm) = refl

page_count-off : (pm : PageManager) → is_page_allocated pm pm.page_count ≡ false
unfolding is_page_allocated
page_count-off pm = ground arith

-- What is to be shown of the rest, for a page `j` that was not accessible.
abbrev IsGuarded : ℕ → ℕ → List WalRecord → Result EngineError ℕ × Session → Type 0
IsGuarded j id rs q = is_page_allocated q.1.buffer.disk j ≡ true → (j ≡ id) × AllDurable q.1.log rs

activate-IsGuarded :
    (j id : ℕ) (s : Session) (rs : List WalRecord)
    (r : Result StorageError (Unit {0}) × PageManager)
    → AllDurable s.log rs
    → (is_page_allocated r.1 j ≡ true → j ≡ id)
    → IsGuarded j id rs (next (rewrap {F = EngineError} put_pages pages s r) (λ u. pure id))
activate-IsGuarded j id s rs (ok u, t) all same on = (same on, all)
activate-IsGuarded j id s rs (err e, t) all same on = (same on, all)

after_flush-IsGuarded :
    (j id : ℕ) (rs : List WalRecord) (q : Result EngineError (Unit {0}) × Session)
    → IsConsistent q.1.buffer.disk
    → is_valid id ≡ true
    → id < q.1.buffer.disk.page_count
    → is_page_allocated q.1.buffer.disk id ≡ false
    → is_page_allocated q.1.buffer.disk j ≡ false
    → (q.0 ≡ ok tt → AllDurable q.1.log rs)
    → IsGuarded j id rs (after_flush id q)
after_flush-IsGuarded j id rs (err e, s) c valid below off off_j all = λ on. absurd (ground arith)
after_flush-IsGuarded j id rs (ok u, s) c valid below off off_j all =
    activate-IsGuarded j id s rs (activate_reserved_page id s.buffer.disk) (all refl)
      (λ on. ground (arith, is_page_allocated-activate s.buffer.disk id c j valid below off))

-- On a consistent page manager and a log that holds the records `rs` and has an LSN left, a page
-- that was not accessible and is so after a transactional allocation, whether this returned or
-- threw, is the next page of the file, and the log then holds `rs` and the allocation's record,
-- all of it durable.
pub allocate_transactional_page-AllDurable :
    (transaction_id j : ℕ) (s : Session) (rs : List WalRecord)
    → IsConsistent s.buffer.disk
    → Holds s.log rs
    → IsU64 (s.log.next_lsn + 1)
    → IsU64 transaction_id
    → is_page_allocated s.buffer.disk j ≡ false
    → is_page_allocated (allocate_transactional_page transaction_id s).1.buffer.disk j ≡ true
    → (j ≡ s.buffer.disk.page_count)
      × AllDurable
          (allocate_transactional_page transaction_id s).1.log
          (rs ++ allocation_record transaction_id s ∷ [])
allocate_transactional_page-AllDurable transaction_id j s rs c h room fits off =
    rw (after_reserve-steps transaction_id s) (
      reserved (reserve_page s.buffer.disk) (reserve_page-memory s.buffer.disk)
        (reserve_page-IsConsistent s.buffer.disk c)
        (λ i. is_page_allocated-reserve_page s.buffer.disk i c))
  where
    reserved :
        (r : Result StorageError ℕ × PageManager)
        → ((r.0 ≡ ok s.buffer.disk.page_count)
              × (r.1.page_count ≡ s.buffer.disk.page_count + 1)
              × (s.buffer.disk.page_count < catalog_bits)
            ⊎ ((e : StorageError) × (r.0 ≡ err e)) × (r.1.page_count ≡ s.buffer.disk.page_count))
          × (r.1.allocation_bitmap ≡ s.buffer.disk.allocation_bitmap)
          × (r.1.allocated_page_count ≡ s.buffer.disk.allocated_page_count)
        → IsConsistent r.1
        → ((i : ℕ) → is_page_allocated r.1 i ≡ is_page_allocated s.buffer.disk i)
        → IsGuarded j s.buffer.disk.page_count
            (rs ++ allocation_record transaction_id s ∷ [])
            (after_reserve transaction_id s r)
    reserved (err e, t) memory ct same = λ on. absurd (ground (arith, same j))
    reserved (ok id, t) (inr ((e, bad), _), _, _) ct same = absurd (ground arith)
    reserved (ok id, t) (inl (here, count, below), _, _) ct same =
        let id_is : id ≡ s.buffer.disk.page_count = ground arith in
        let valid : is_valid s.buffer.disk.page_count ≡ true = ground arith in
        let u = put_pages t s in
        rw id_is (
          let q = append_page_allocate transaction_id s.buffer.disk.page_count u.log in
          let (_, _, _, disk, _, _) = then_flush-SameButLog u q in
          after_flush-IsGuarded j s.buffer.disk.page_count
            (rs ++ allocation_record transaction_id s ∷ []) (then_flush u q)
            (subst IsConsistent (sym disk) ct) valid (rw (disk, count) (omega arith))
            (rw disk (ground (arith, same s.buffer.disk.page_count, page_count-off s.buffer.disk)))
            (rw (disk, same j) off)
            (then_flush-ok u q _ (
              append_page_allocate-IsDone transaction_id s.buffer.disk.page_count u.log rs valid
                fits h room)))
