-- ===== src/Access/Pinned.antt =====
-- A page that TransactionalBufferPool of include/ddb/concurrency/transactional_access.h hands out.
use resume_project.Common.{
  ℕ, ◌≡◌, refl, sym, ap, ◌∙◌, subst, Bool, true, Option, none, some, arith, Result, ok, err,
}
use resume_project.Common.Action.{next, rewrap, or_throw, pure, ◌>>=◌}
use resume_project.Storage.PageManager.{PageManager}
use resume_project.Buffer.Pool.Disk.{page_disk}
use resume_project.Buffer.Pool.Defs.{Pool, PoolError}
use resume_project.Buffer.Pool.Io.{fetch_page}
use resume_project.Buffer.Pool.Invariant.{IsValid}
use resume_project.Buffer.Pool.Fetched.{IsPinned, fetch_page-IsPinned}
use resume_project.Concurrency.LockManager.{
  LockMode, exclusive, Outcome, granted, refused, blocked, lock, holds,
}
use resume_project.Concurrency.Reachable.{IsReachable, after, locks, holds-exclusive}
use resume_project.Transactions.Errors.{EngineError, pool, cannot_pin_write_page}
use resume_project.Transactions.Transaction.{Session}
use resume_project.Access.{
  Locked, done, acquire, after_lock, behind_lock, LockedPage, pin_page, write,
}
use resume_project.Access.Granted.{lock-holds}

-- A fetch of the pool, as a step of the session.
abbrev of_fetch :
    Session
    → Result PoolError (Option ℕ) × Pool PageManager
    → Result EngineError (Option ℕ) × Session
of_fetch s q =
    rewrap (λ t r. record r { buffer = t }) (λ e. e) s (rewrap (λ t r. t) pool s.buffer q)

-- What was handed out is pinned, and the locks are as they were.
abbrev IsHanded : ℕ → Session → Result EngineError LockedPage × Session → LockedPage → Type 0
IsHanded id s q p = (q.1.locks ≡ s.locks) × (p.id ≡ id) × IsPinned id p.frame q.1.buffer

abbrev page_at : ℕ → Bool → ℕ → LockedPage
page_at id dirty f = record { id = id; frame = f; dirty = dirty }

abbrev locked_page :
    ℕ → Bool → EngineError → Option ℕ → Session → Result EngineError LockedPage × Session
locked_page id dirty error fetched = or_throw fetched error >>= λ f. pure (page_at id dirty f)

abbrev handed :
    ℕ
    → Bool
    → EngineError
    → Session
    → Result PoolError (Option ℕ) × Pool PageManager
    → Result EngineError LockedPage × Session
handed id dirty error s q = next (of_fetch s q) (locked_page id dirty error)

pinned_of :
    (id : ℕ) (dirty : Bool) (error : EngineError) (s : Session) (p : LockedPage)
    (q : Result PoolError (Option ℕ) × Pool PageManager)
    → ((f : ℕ) → q.0 ≡ ok (some f) → IsPinned id f q.1)
    → (handed id dirty error s q).0 ≡ ok p
    → IsHanded id s (handed id dirty error s q) p
pinned_of id dirty error s p (err x, t) pins e = absurd (ground arith)
pinned_of id dirty error s p (ok none, t) pins e = absurd (ground arith)
pinned_of id dirty error s p (ok (some f), t) pins e =
    let same : f ≡ p.frame = ground (arith, e) in
    let named : id ≡ p.id = ground (arith, e) in
    (refl, sym named, subst (λ g. IsPinned id g t) same (pins f refl))

pin_page-IsHanded :
    (id : ℕ) (dirty : Bool) (error : EngineError) (s : Session) (p : LockedPage)
    → IsValid s.buffer
    → (pin_page id dirty error s).0 ≡ ok p
    → IsHanded id s (pin_page id dirty error s) p
unfolding pin_page
pin_page-IsHanded id dirty error s p h =
    pinned_of id dirty error s p (fetch_page page_disk id s.buffer)
      (λ f. fetch_page-IsPinned page_disk id f s.buffer h)

returned :
    (q : Result EngineError LockedPage × Session) (p : LockedPage)
    → (next q (λ a. pure (done a))).0 ≡ ok (done p)
    → (q.0 ≡ ok p) × ((next q (λ a. pure (done a))).1 ≡ q.1)
returned (ok a, t) p e = (ground (arith, e), refl)
returned (err x, t) p e = absurd (ground arith)

-- What `write` does with the outcome of its lock.
abbrev behind : ℕ → Session → Outcome → Result EngineError (Locked LockedPage) × Session
behind id t o = after_lock (pin_page id true cannot_pin_write_page) o t

behind-IsHanded :
    (id : ℕ) (t : Session) (o : Outcome) (p : LockedPage)
    → IsValid t.buffer
    → (behind id t o).0 ≡ ok (done p)
    → (o ≡ granted)
      × ((behind id t o).1.locks ≡ t.locks)
      × (p.id ≡ id)
      × IsPinned id p.frame (behind id t o).1.buffer
unfolding after_lock
behind-IsHanded id t refused p h e = absurd (ground arith)
behind-IsHanded id t blocked p h e = absurd (ground arith)
behind-IsHanded id t granted p h e =
    let (gave, same) = returned (pin_page id true cannot_pin_write_page t) p e in
    let (kept, named, pinned) = pin_page-IsHanded id true cannot_pin_write_page t p h gave in
    (
      refl,
      ap (λ r. r.locks) same ∙ kept,
      named,
      subst (λ r. IsPinned id p.frame r.buffer) (sym same) pinned,
    )

write-behind :
    (id : ℕ) (s : Session)
    → let q = lock s.transaction.id id exclusive s.locks in
      write id s ≡ behind id (record s { locks = q.1 }) q.0
unfolding write behind_lock acquire
write-behind id s = refl

-- When `write` of the transactional pool hands out a page, over a valid pool and a lock manager
-- reached from a new one by its calls, the transaction holds the page's lock in exclusive mode, no
-- other transaction holds it in any mode, and the page is the one asked for, pinned in its frame.
pub write-holds :
    (id : ℕ) (s : Session) (p : LockedPage)
    → IsReachable s.locks
    → IsValid s.buffer
    → (write id s).0 ≡ ok (done p)
    → (holds (write id s).1.locks s.transaction.id id exclusive ≡ true)
      × ((j : ℕ) (mode : LockMode)
          → holds (write id s).1.locks j id mode ≡ true
          → s.transaction.id ≡ j)
      × (p.id ≡ id)
      × IsPinned id p.frame (write id s).1.buffer
write-holds id s p reach h =
    let lm = (lock s.transaction.id id exclusive s.locks).1 in
    let t : Session = record s { locks = lm } in
    rw (write-behind id s) (λ e.
      let (won, same, named, pinned) =
        behind-IsHanded id t (lock s.transaction.id id exclusive s.locks).0 p h e in
      let held = lock-holds s.transaction.id id exclusive s.locks won in
      let reached : IsReachable lm = after reach (locks s.transaction.id id exclusive s.locks) in
      (
        rw same held,
        (λ j mode other.
            holds-exclusive lm s.transaction.id j id mode reached held (rw same at other)),
        named,
        pinned,
      ))
