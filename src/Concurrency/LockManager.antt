-- ===== src/Concurrency/LockManager.antt =====
-- LockManager of src/concurrency/lock_manager.cpp. Its mutex makes a method one step; the wait of
-- `lock` ends the step with the outcome `blocked`, and `woken` is the step of the waiter after a
-- notification.
use resume_project.Common.{
  ℕ, ◌+◌, Bool, true, false, not, ◌&&◌, ◌||◌, Option, none, some, List, [], ◌∷◌, ◌++◌, length, ltb,
  ◌==◌, if◌then◌else◌,
}

pub data LockMode : Type 0 where
  shared exclusive : LockMode

pub data TransactionState : Type 0 where
  growing shrinking committed aborted : TransactionState

pub record Holder : Type 0 where
  pub transaction_id : ℕ
  pub mode : LockMode

-- `table` and `held` are maps, the second one to sets of resources, and `states` has the `state_` of
-- each transaction by its id.
pub record LockManager : Type 0 where
  pub table : List (ℕ × List Holder)
  pub held : List (ℕ × List ℕ)
  pub states : ℕ → TransactionState

pub data Outcome : Type 0 where
  granted refused blocked : Outcome

abbrev pub is_exclusive : LockMode → Bool
is_exclusive shared = false
is_exclusive exclusive = true

unfoldable pub conflicts : LockMode → LockMode → Bool
conflicts requested held = is_exclusive requested || is_exclusive held

-- The entry of a map, or nothing.
unfoldable pub entry : {A : Type 0} → ℕ → List (ℕ × List A) → List A
entry k [] = []
entry k ((j, v) ∷ m) = if j == k then v else entry k m

-- The entry set, and erased when it is empty.
unfoldable pub put_entry : {A : Type 0} → ℕ → List A → List (ℕ × List A) → List (ℕ × List A)
put_entry k [] [] = []
put_entry k (v ∷ vs) [] = (k, v ∷ vs) ∷ []
put_entry k vs ((j, w) ∷ m) =
    let rest = put_entry k vs m in
    if j == k then elim vs [ [] ↦ m | x ∷ xs ↦ (j, x ∷ xs) ∷ m ] else (j, w) ∷ rest

-- `any holder of another transaction that conflicts`
unfoldable pub none_conflict : ℕ → LockMode → List Holder → Bool
none_conflict id mode [] = true
none_conflict id mode (h ∷ hs) =
    (h.transaction_id == id || not (conflicts mode h.mode)) && none_conflict id mode hs

unfoldable pub compatible : LockManager → ℕ → ℕ → LockMode → Bool
compatible lm id resource mode = none_conflict id mode (entry resource lm.table)

unfoldable pub younger_than_one : ℕ → LockMode → List Holder → Bool
younger_than_one id mode [] = false
younger_than_one id mode (h ∷ hs) =
    (not (h.transaction_id == id) && conflicts mode h.mode && ltb h.transaction_id id)
    || younger_than_one id mode hs

unfoldable pub requester_is_younger_than_conflict : LockManager → ℕ → ℕ → LockMode → Bool
requester_is_younger_than_conflict lm id resource mode =
    younger_than_one id mode (entry resource lm.table)

-- `find_if` of the transaction's own entry
unfoldable pub own_mode : ℕ → List Holder → Option LockMode
own_mode id [] = none
own_mode id (h ∷ hs) = if h.transaction_id == id then some h.mode else own_mode id hs

-- `own->mode = Exclusive`
unfoldable pub upgrade : ℕ → List Holder → List Holder
upgrade id [] = []
upgrade id (h ∷ hs) =
    if h.transaction_id == id then record h { mode = exclusive } ∷ hs else h ∷ upgrade id hs

unfoldable pub remove_all : ℕ → List Holder → List Holder
remove_all id [] = []
remove_all id (h ∷ hs) =
    let rest = remove_all id hs in if h.transaction_id == id then rest else h ∷ rest

unfoldable pub remove_first : ℕ → List Holder → List Holder
remove_first id [] = []
remove_first id (h ∷ hs) = if h.transaction_id == id then hs else h ∷ remove_first id hs

unfoldable pub release_from : ℕ → List ℕ → List (ℕ × List Holder) → List (ℕ × List Holder)
release_from id [] table = table
release_from id (r ∷ rs) table =
    release_from id rs (put_entry r (remove_all id (entry r table)) table)

unfoldable pub release_all : ℕ → LockManager → LockManager
release_all id lm = record lm {
  table = release_from id (entry id lm.held) lm.table;
  held = put_entry id [] lm.held;
}

unfoldable pub set_state : ℕ → TransactionState → LockManager → LockManager
set_state id state lm = record lm {
  states = λ other. if other == id then state else lm.states other;
}

abbrev pub is_growing : TransactionState → Bool
is_growing growing = true
is_growing s = false

abbrev pub is_finished : TransactionState → Bool
is_finished committed = true
is_finished aborted = true
is_finished s = false

unfoldable pub insert_resource : ℕ → List ℕ → List ℕ
insert_resource r [] = r ∷ []
insert_resource r (x ∷ xs) = if x == r then x ∷ xs else x ∷ insert_resource r xs

unfoldable pub erase_resource : ℕ → List ℕ → List ℕ
erase_resource r [] = []
erase_resource r (x ∷ xs) = if x == r then xs else x ∷ erase_resource r xs

-- The transaction holds the resource in this mode from now on.
unfoldable pub grant : ℕ → ℕ → LockMode → Option LockMode → LockManager → LockManager
grant id resource mode (some own) lm = record lm {
  table = put_entry resource (upgrade id (entry resource lm.table)) lm.table;
}
grant id resource mode none lm = record lm {
  table =
      put_entry resource
        (entry resource lm.table ++ record { transaction_id = id; mode = mode } ∷ []) lm.table;
  held = put_entry id (insert_resource resource (entry id lm.held)) lm.held;
}

-- WAIT-DIE: a requester that is younger than a conflicting holder is aborted.
unfoldable pub request : ℕ → ℕ → LockMode → Option LockMode → LockManager → Outcome × LockManager
request id resource mode own lm =
    if compatible lm id resource mode
    then (granted, grant id resource mode own lm)
    else if requester_is_younger_than_conflict lm id resource mode
    then (refused, set_state id aborted (release_all id lm))
    else (blocked, lm)

-- The tests on the transaction's own lock.
unfoldable pub with_own : ℕ → ℕ → LockMode → Option LockMode → LockManager → Outcome × LockManager
with_own id resource shared (some shared) lm = (granted, lm)
with_own id resource exclusive (some exclusive) lm = (granted, lm)
with_own id resource shared (some exclusive) lm = (refused, lm)
with_own id resource exclusive (some shared) lm = request id resource exclusive (some shared) lm
with_own id resource mode none lm = request id resource mode none lm

unfoldable pub lock : ℕ → ℕ → LockMode → LockManager → Outcome × LockManager
lock id resource mode lm =
    if is_growing (lm.states id)
    then with_own id resource mode (own_mode id (entry resource lm.table)) lm
    else (refused, lm)

abbrev pub is_aborted : TransactionState → Bool
is_aborted aborted = true
is_aborted s = false

-- The predicate of the wait: while it is false the call waits on, without another look at who is
-- younger. Behind it are the test of the state and the next round of the loop, as in `lock`.
unfoldable pub woken : ℕ → ℕ → LockMode → LockManager → Outcome × LockManager
woken id resource mode lm =
    if is_aborted (lm.states id) || compatible lm id resource mode
    then lock id resource mode lm
    else (blocked, lm)

pub lock_shared : ℕ → ℕ → LockManager → Outcome × LockManager
lock_shared id resource = lock id resource shared

pub lock_exclusive : ℕ → ℕ → LockManager → Outcome × LockManager
lock_exclusive id resource = lock id resource exclusive

unfoldable pub unlock : ℕ → ℕ → LockManager → Bool × LockManager
unlock id resource lm =
    if is_finished (lm.states id)
    then (false, lm)
    else elim (own_mode id (entry resource lm.table)) [
      | none ↦ (false, lm)
      | some own ↦ (
        true,
        set_state id shrinking (record lm {
          table = put_entry resource (remove_first id (entry resource lm.table)) lm.table;
          held = put_entry id (erase_resource resource (entry id lm.held)) lm.held;
        }),
      )
    ]

unfoldable pub finish : TransactionState → ℕ → LockManager → LockManager
finish state id lm =
    if is_finished (lm.states id) then lm else set_state id state (release_all id lm)

unfoldable pub commit : ℕ → LockManager → LockManager
commit = finish committed

unfoldable pub abort : ℕ → LockManager → LockManager
abort = finish aborted

pub lock_count : List (ℕ × List Holder) → ℕ
lock_count [] = 0
lock_count ((r, hs) ∷ table) = length hs + lock_count table

pub held_lock_count : LockManager → ℕ → ℕ
held_lock_count lm id = length (entry id lm.held)

abbrev pub same_mode : LockMode → LockMode → Bool
same_mode shared m = not (is_exclusive m)
same_mode exclusive m = is_exclusive m

unfoldable pub is_holder : ℕ → LockMode → List Holder → Bool
is_holder id mode [] = false
is_holder id mode (h ∷ hs) =
    (h.transaction_id == id && same_mode h.mode mode) || is_holder id mode hs

unfoldable pub holds : LockManager → ℕ → ℕ → LockMode → Bool
holds lm id resource mode = is_holder id mode (entry resource lm.table)
