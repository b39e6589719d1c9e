-- ===== src/Concurrency/Examples.antt =====
-- Two transactions that wait for each other, and one that holds a resource alone.
use resume_project.Common.{ℕ, true, ◌≡◌, refl, arith}
use resume_project.Concurrency.LockManager.{
  LockManager, shared, exclusive, blocked, lock, woken, with_own, own_mode, entry, request,
  compatible, none_conflict, grant, put_entry, insert_resource, holds, is_holder,
}
use resume_project.Concurrency.Reachable.{new_manager, start, after, locks, holds-exclusive}
use resume_project.Concurrency.WaitDie.{before_wait, during_wait, woken-blocked}

woken-blocked_example :
    ((lock 2 7 exclusive (before_wait 1 2 3 7 8)).0 ≡ blocked)
    × (holds (during_wait 1 2 3 7 8) 1 7 shared ≡ true)
    × (holds (during_wait 1 2 3 7 8) 2 8 exclusive ≡ true)
    × (woken 2 7 exclusive (during_wait 1 2 3 7 8) ≡ (blocked, during_wait 1 2 3 7 8))
    × (lock 1 8 exclusive (during_wait 1 2 3 7 8) ≡ (blocked, during_wait 1 2 3 7 8))
    × (woken 1 8 exclusive (during_wait 1 2 3 7 8) ≡ (blocked, during_wait 1 2 3 7 8))
woken-blocked_example = woken-blocked 1 2 3 7 8 (omega arith) (omega arith) (λ e. omega (arith, e))

-- Transaction 3 takes resource 1 for itself.
abbrev taken : LockManager
taken = (lock 3 1 exclusive new_manager).1

taken-holds : holds taken 3 1 exclusive ≡ true
unfolding new_manager lock with_own own_mode entry request compatible none_conflict grant put_entry
    insert_resource holds is_holder
taken-holds = refl

holds-exclusive_example : ◌≡◌ {A = ℕ} 3 3
holds-exclusive_example =
    holds-exclusive taken 3 3 1 exclusive (after start (locks 3 1 exclusive new_manager))
      taken-holds taken-holds
