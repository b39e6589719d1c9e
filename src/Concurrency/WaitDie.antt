-- ===== src/Concurrency/WaitDie.antt =====
-- A waiter does not look again at who is younger (the wait in `lock` of
-- src/concurrency/lock_manager.cpp).
use resume_project.Common.{
  ℕ, ◌<◌, ◌≡◌, ◌≢◌, true, [], ◌∷◌, ◌==◌, arith, if◌then◌else◌, ap, sym, subst, ◌∙◌,
}
use resume_project.Concurrency.LockManager.{
  LockManager, shared, exclusive, committed, growing, blocked, conflicts, entry, put_entry,
  younger_than_one, own_mode, requester_is_younger_than_conflict, request, with_own, lock, woken,
  compatible, none_conflict, grant, insert_resource, remove_all, release_from, release_all,
  set_state, finish, commit, holds, is_holder, Outcome,
}
use resume_project.Concurrency.Reachable.{new_manager}

module _ (a b c r s : ℕ) where
  -- `b` has `s`, and `c` shares `r`.
  abbrev pub held_by_two : LockManager
  held_by_two = record {
    table =
        (s, record { transaction_id = b; mode = exclusive } ∷ [])
        ∷ (r, record { transaction_id = c; mode = shared } ∷ [])
        ∷ [];
    held = (b, s ∷ []) ∷ (c, r ∷ []) ∷ [];
    states = λ id. growing;
  }

  abbrev pub held_by_three : LockManager
  held_by_three = record {
    table =
        (s, record { transaction_id = b; mode = exclusive } ∷ [])
        ∷ (
          r,
          record { transaction_id = c; mode = shared }
              ∷ record { transaction_id = a; mode = shared }
              ∷ [],
        )
        ∷ [];
    held = (b, s ∷ []) ∷ (c, r ∷ []) ∷ (a, r ∷ []) ∷ [];
    states = λ id. growing;
  }

  abbrev pub held_apart : LockManager
  held_apart = record {
    table =
        (s, record { transaction_id = b; mode = exclusive } ∷ [])
        ∷ (r, record { transaction_id = a; mode = shared } ∷ [])
        ∷ [];
    held = (b, s ∷ []) ∷ (a, r ∷ []) ∷ [];
    states = λ id. if id == c then committed else growing;
  }

  -- A new manager after: `b` locks `s`; `c` shares `r`.
  abbrev pub before_wait : LockManager
  before_wait = (lock c r shared (lock b s exclusive new_manager).1).1

  -- Then: `b` asks for `r` alone; `a` shares `r`; `c` commits.
  abbrev pub during_wait : LockManager
  during_wait = commit c (lock a r shared (lock b r exclusive before_wait).1).1

module _ (a b c r s : ℕ) (first : a < b) (second : b < c) (apart : r ≢ s) where
  first_two : before_wait a b c r s ≡ held_by_two a b c r s
  unfolding new_manager lock with_own own_mode entry request compatible none_conflict grant
      put_entry insert_resource
  first_two = ground (arith, apart)

  -- `b` waits for `c`, which is younger.
  request-waits : lock b r exclusive (held_by_two a b c r s) ≡ (blocked, held_by_two a b c r s)
  unfolding lock with_own own_mode entry request compatible none_conflict conflicts
      requester_is_younger_than_conflict younger_than_one
  request-waits = ground (arith, first, second, apart)

  shares : (lock a r shared (held_by_two a b c r s)).1 ≡ held_by_three a b c r s
  unfolding lock with_own own_mode entry request compatible none_conflict conflicts grant put_entry
      insert_resource
  shares = ground (arith, first, second, apart)

  leaves : commit c (held_by_three a b c r s) ≡ held_apart a b c r s
  unfolding commit finish release_all release_from remove_all set_state entry put_entry
  leaves = ground (arith, first, second, apart)

  waits_on : woken b r exclusive (held_apart a b c r s) ≡ (blocked, held_apart a b c r s)
  unfolding woken entry compatible none_conflict conflicts
  waits_on = ground (arith, first, second, apart)

  other-waits : lock a s exclusive (held_apart a b c r s) ≡ (blocked, held_apart a b c r s)
  unfolding lock with_own own_mode entry request compatible none_conflict conflicts
      requester_is_younger_than_conflict younger_than_one
  other-waits = ground (arith, first, second, apart)

  other_waits_on : woken a s exclusive (held_apart a b c r s) ≡ (blocked, held_apart a b c r s)
  unfolding woken entry compatible none_conflict conflicts
  other_waits_on = ground (arith, first, second, apart)

  shares_yet : holds (held_apart a b c r s) a r shared ≡ true
  unfolding holds is_holder entry
  shares_yet = ground (arith, apart)

  holds_yet : holds (held_apart a b c r s) b s exclusive ≡ true
  unfolding holds is_holder entry
  holds_yet = ground arith

  apart_in_wait : during_wait a b c r s ≡ held_apart a b c r s
  apart_in_wait =
      ap (λ m. commit c (lock a r shared (lock b r exclusive m).1).1) first_two
      ∙ ap (λ (o : Outcome × LockManager). commit c (lock a r shared o.1).1) request-waits
      ∙ ap (commit c) shares
      ∙ leaves

  -- Two transactions can wait for each other although each request compared the ages. With ids a <
  -- b < c and different resources r and s, on a new manager, let b lock s alone and c share r. The
  -- request of b for r alone waits. Then a shares r, and c commits. Now a holds r shared and b
  -- holds s alone; b, woken, waits on, for a, which is older; the request of a for s alone waits,
  -- for b; and waking b or a leaves both waiting and the manager as it is.
  pub woken-blocked :
      ((lock b r exclusive (before_wait a b c r s)).0 ≡ blocked)
      × (holds (during_wait a b c r s) a r shared ≡ true)
      × (holds (during_wait a b c r s) b s exclusive ≡ true)
      × (woken b r exclusive (during_wait a b c r s) ≡ (blocked, during_wait a b c r s))
      × (lock a s exclusive (during_wait a b c r s) ≡ (blocked, during_wait a b c r s))
      × (woken a s exclusive (during_wait a b c r s) ≡ (blocked, during_wait a b c r s))
  woken-blocked = (
    subst (λ m. (lock b r exclusive m).0 ≡ blocked) (sym first_two) (ap (λ o. o.0) request-waits),
    subst (λ m. holds m a r shared ≡ true) (sym apart_in_wait) shares_yet,
    subst (λ m. holds m b s exclusive ≡ true) (sym apart_in_wait) holds_yet,
    subst (λ m. woken b r exclusive m ≡ (blocked, m)) (sym apart_in_wait) waits_on,
    subst (λ m. lock a s exclusive m ≡ (blocked, m)) (sym apart_in_wait) other-waits,
    subst (λ m. woken a s exclusive m ≡ (blocked, m)) (sym apart_in_wait) other_waits_on,
  )
