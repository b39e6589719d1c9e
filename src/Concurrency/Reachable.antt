-- ===== src/Concurrency/Reachable.antt =====
-- The manager as a state machine: every call keeps conflicting locks apart.
use resume_project.Common.{
  ℕ, ◌==◌, arith, subst, ◌≡◌, refl, true, Option, none, some, List, [], ◌∷◌, All, Bool-cases,
  Option-cases, inl, inr, ◌⊎◌, ◌||◌,
}
use resume_project.Concurrency.LockManager.{
  LockManager, LockMode, shared, exclusive, TransactionState, committed, aborted, growing, Holder,
  entry, none_conflict, compatible, release_from, release_all, own_mode, set_state, grant, request,
  with_own, lock, woken, is_aborted, unlock, finish, commit, abort,
  requester_is_younger_than_conflict, is_growing, is_finished, is_holder, holds, conflicts,
}
use resume_project.Concurrency.Exclusion.{
  IsCompatible, AreCompatible, IsExclusive, entry-All, put_entry-All, remove_all-AreCompatible,
  remove_first-AreCompatible, append-AreCompatible, none_conflict-IsOwn, upgrade-IsOwn,
  IsOwn-AreCompatible,
}

holders-AreCompatible :
    (lm : LockManager) (resource : ℕ) → IsExclusive lm → AreCompatible (entry resource lm.table)
holders-AreCompatible lm resource = entry-All AreCompatible tt resource lm.table

release_from-IsExclusive :
    (id : ℕ) (rs : List ℕ) (table : List (ℕ × List Holder))
    → All (λ r. AreCompatible r.1) table
    → All (λ r. AreCompatible r.1) (release_from id rs table)
unfolding release_from
release_from-IsExclusive id [] table h = h
release_from-IsExclusive id (r ∷ rs) table h = release_from-IsExclusive id rs _ (
    put_entry-All AreCompatible tt r _ table
      (remove_all-AreCompatible id _ (entry-All AreCompatible tt r table h)) h)

release_all-IsExclusive :
    (id : ℕ) (lm : LockManager) → IsExclusive lm → IsExclusive (release_all id lm)
unfolding release_all
release_all-IsExclusive id lm h = release_from-IsExclusive id (entry id lm.held) lm.table h

grant-IsExclusive :
    (id resource : ℕ) (mode : LockMode) (own : Option LockMode) (lm : LockManager)
    → (own ≡ none) ⊎ (mode ≡ exclusive)
    → compatible lm id resource mode ≡ true
    → IsExclusive lm
    → IsExclusive (grant id resource mode own lm)
unfolding grant compatible
grant-IsExclusive id resource mode none lm fits e h =
    put_entry-All AreCompatible tt resource _ lm.table
      (append-AreCompatible id mode _ (holders-AreCompatible lm resource h) e) h
grant-IsExclusive id resource mode (some own) lm (inl bad) e h = absurd (ground arith)
grant-IsExclusive id resource mode (some own) lm (inr top) e h =
    put_entry-All AreCompatible tt resource _ lm.table
      (IsOwn-AreCompatible id _ (
        upgrade-IsOwn id _ (
          none_conflict-IsOwn id _
            (subst (λ m. none_conflict id m (entry resource lm.table) ≡ true) top e))))
      h

request-IsExclusive :
    (id resource : ℕ) (mode : LockMode) (own : Option LockMode) (lm : LockManager)
    → (own ≡ none) ⊎ (mode ≡ exclusive)
    → IsExclusive lm
    → IsExclusive (request id resource mode own lm).1
unfolding request set_state
request-IsExclusive id resource mode own lm fits h =
    elim (Bool-cases (compatible lm id resource mode)) [
      | inl free ↦ rw free (grant-IsExclusive id resource mode own lm fits free h)
      | inr taken ↦ elim (Bool-cases (requester_is_younger_than_conflict lm id resource mode)) [
        | inl younger ↦ rw (taken, younger) (release_all-IsExclusive id lm h)
        | inr older ↦ rw (taken, older) h
      ]
    ]

with_own-IsExclusive :
    (id resource : ℕ) (mode : LockMode) (own : Option LockMode) (lm : LockManager)
    → IsExclusive lm
    → IsExclusive (with_own id resource mode own lm).1
unfolding with_own
with_own-IsExclusive id resource shared none lm = request-IsExclusive id resource _ _ lm (inl refl)
with_own-IsExclusive id resource exclusive none lm =
    request-IsExclusive id resource _ _ lm (inl refl)
with_own-IsExclusive id resource shared (some shared) lm = λ h. h
with_own-IsExclusive id resource shared (some exclusive) lm = λ h. h
with_own-IsExclusive id resource exclusive (some exclusive) lm = λ h. h
with_own-IsExclusive id resource exclusive (some shared) lm =
    request-IsExclusive id resource _ _ lm (inr refl)

lock-IsExclusive :
    (id resource : ℕ) (mode : LockMode) (lm : LockManager)
    → IsExclusive lm
    → IsExclusive (lock id resource mode lm).1
unfolding lock
lock-IsExclusive id resource mode lm h = elim (Bool-cases (is_growing (lm.states id))) [
  | inl open_yet ↦ rw open_yet (with_own-IsExclusive id resource mode _ lm h)
  | inr closed ↦ rw closed h
]

woken-IsExclusive :
    (id resource : ℕ) (mode : LockMode) (lm : LockManager)
    → IsExclusive lm
    → IsExclusive (woken id resource mode lm).1
unfolding woken
woken-IsExclusive id resource mode lm h =
    elim (Bool-cases (is_aborted (lm.states id) || compatible lm id resource mode)) [
      | inl goes_on ↦ rw goes_on (lock-IsExclusive id resource mode lm h)
      | inr waits ↦ rw waits h
    ]

unlock-IsExclusive :
    (id resource : ℕ) (lm : LockManager) → IsExclusive lm → IsExclusive (unlock id resource lm).1
unfolding unlock set_state
unlock-IsExclusive id resource lm h = elim (Bool-cases (is_finished (lm.states id))) [
  | inl finished ↦ rw finished h
  | inr open_yet ↦ elim (Option-cases (own_mode id (entry resource lm.table))) [
    | inl absent ↦ rw (open_yet, absent) h
    | inr (mode, present) ↦
        rw (open_yet, present)
          (put_entry-All AreCompatible tt resource _ lm.table
            (remove_first-AreCompatible id _ (holders-AreCompatible lm resource h)) h)
  ]
]

finish-IsExclusive :
    (state : TransactionState) (id : ℕ) (lm : LockManager)
    → IsExclusive lm
    → IsExclusive (finish state id lm)
unfolding finish set_state
finish-IsExclusive state id lm h = elim (Bool-cases (is_finished (lm.states id))) [
  | inl finished ↦ rw finished h
  | inr open_yet ↦ rw open_yet (release_all-IsExclusive id lm h)
]

-- One call of the manager, by any transaction.
pub data Step : LockManager → LockManager → Type 0 where
  locks :
      (id resource : ℕ) (mode : LockMode) (lm : LockManager) → Step lm (lock id resource mode lm).1
  wakes :
      (id resource : ℕ) (mode : LockMode) (lm : LockManager) → Step lm (woken id resource mode lm).1
  unlocks : (id resource : ℕ) (lm : LockManager) → Step lm (unlock id resource lm).1
  commits : (id : ℕ) (lm : LockManager) → Step lm (commit id lm)
  aborts : (id : ℕ) (lm : LockManager) → Step lm (abort id lm)

-- A new manager; every transaction is growing.
unfoldable pub new_manager : LockManager
new_manager = record { table = []; held = []; states = λ id. growing }

pub data IsReachable : LockManager → Type 0 where
  start : IsReachable new_manager
  after : {lm lm' : LockManager} → IsReachable lm → Step lm lm' → IsReachable lm'

Step-IsExclusive : {lm lm' : LockManager} → Step lm lm' → IsExclusive lm → IsExclusive lm'
unfolding commit abort
Step-IsExclusive (locks id resource mode lm) = lock-IsExclusive id resource mode lm
Step-IsExclusive (wakes id resource mode lm) = woken-IsExclusive id resource mode lm
Step-IsExclusive (unlocks id resource lm) = unlock-IsExclusive id resource lm
Step-IsExclusive (commits id lm) = finish-IsExclusive committed id lm
Step-IsExclusive (aborts id lm) = finish-IsExclusive aborted id lm

-- Every state that a new manager reaches keeps its exclusive locks alone.
pub IsReachable-IsExclusive : (lm : LockManager) → IsReachable lm → IsExclusive lm
unfolding new_manager
IsReachable-IsExclusive _ start = tt
IsReachable-IsExclusive _ (after reach step) =
    Step-IsExclusive step (IsReachable-IsExclusive _ reach)

-- A holder beside `h`, one of the two in exclusive mode, is of the same transaction.
beside :
    (h : Holder) (j : ℕ) (mode : LockMode) (hs : List Holder)
    → All (IsCompatible h) hs
    → conflicts h.mode mode ≡ true
    → is_holder j mode hs ≡ true
    → j ≡ h.transaction_id
unfolding is_holder conflicts
beside h j mode [] a c e = absurd (ground arith)
beside h j mode (g ∷ hs) a c e = elim (Bool-cases (is_holder j mode hs)) [
  | inl later ↦ beside h j mode hs a.1 c later
  | inr here ↦ elim (Bool-cases (j == h.transaction_id)) [
    | inl same ↦ ground arith
    | inr apart ↦ absurd (ground (arith, a.0, c, e))
  ]
]

same_holder :
    (i j : ℕ) (mode : LockMode) (hs : List Holder)
    → AreCompatible hs
    → is_holder i exclusive hs ≡ true
    → is_holder j mode hs ≡ true
    → i ≡ j
unfolding is_holder conflicts
same_holder i j mode [] a ei ej = absurd (ground arith)
same_holder i j mode (h ∷ hs) a ei ej = elim (Bool-cases (is_holder i exclusive hs)) [
  | inl i_later ↦ elim (Bool-cases (is_holder j mode hs)) [
    | inl j_later ↦ same_holder i j mode hs a.1 i_later j_later
    | inr j_here ↦ ground (arith, beside h i exclusive hs a.0 (ground arith) i_later)
  ]
  | inr i_here ↦ elim (Bool-cases (is_holder j mode hs)) [
    | inl j_later ↦ ground (arith, beside h j mode hs a.0 (ground (arith, ei)) j_later)
    | inr j_here ↦ ground (arith, ei, ej)
  ]
]

-- In every state that a new lock manager reaches by locks, wake-ups of waiters, unlocks, commits
-- and aborts of any transactions, when one transaction holds a resource in exclusive mode, no
-- other transaction holds it in any mode.
pub holds-exclusive :
    (lm : LockManager) (i j resource : ℕ) (mode : LockMode)
    → IsReachable lm
    → holds lm i resource exclusive ≡ true
    → holds lm j resource mode ≡ true
    → i ≡ j
unfolding holds
holds-exclusive lm i j resource mode reach =
    same_holder i j mode _ (holders-AreCompatible lm resource (IsReachable-IsExclusive lm reach))
