-- ===== src/Concurrency/Exclusion.antt =====
-- Which holders of one resource may stand together, and what keeps them so.
use resume_project.Common.{
  ℕ, ◌≡◌, ◌≢◌, true, false, not, ◌||◌, List, [], ◌∷◌, ◌++◌, arith, All, ◌==◌, Bool-cases, inl, inr,
}
use resume_project.Concurrency.LockManager.{
  LockManager, LockMode, exclusive, Holder, conflicts, entry, put_entry, none_conflict, upgrade,
  remove_all, remove_first,
}

-- Holders of different transactions do not conflict.
abbrev pub IsCompatible : Holder → Holder → Type 0
IsCompatible h g = g.transaction_id ≢ h.transaction_id → conflicts h.mode g.mode ≡ false

abbrev pub AreCompatible : List Holder → Type 0
AreCompatible [] = Unit {0}
AreCompatible (h ∷ hs) = All (IsCompatible h) hs × AreCompatible hs

-- Every resource of the table.
abbrev pub IsExclusive : LockManager → Type 0
IsExclusive lm = All (λ resource. AreCompatible resource.1) lm.table

module _ {A : Type 0} (P : List A → Type 0) (empty : P []) where
  pub entry-All : (k : ℕ) (m : List (ℕ × List A)) → All (λ x. P x.1) m → P (entry k m)
  unfolding entry
  entry-All k [] h = empty
  entry-All k ((j, v) ∷ m) h = elim (Bool-cases (j == k)) [
    | inl here ↦ rw here h.0
    | inr other ↦ rw other (entry-All k m h.1)
  ]

  pub put_entry-All :
      (k : ℕ) (vs : List A) (m : List (ℕ × List A))
      → P vs
      → All (λ x. P x.1) m
      → All (λ x. P x.1) (put_entry k vs m)
  unfolding put_entry
  put_entry-All k [] [] p h = tt
  put_entry-All k (v ∷ vs) [] p h = (p, tt)
  put_entry-All k vs ((j, w) ∷ m) p h = elim (Bool-cases (j == k)) [
    | inl here ↦ rw here (kept vs p)
    | inr other ↦ rw other (h.0, put_entry-All k vs m p h.1)
  ]
    where
      kept : (us : List A) → P us → All (λ x. P x.1) (elim us [ [] ↦ m | x ∷ xs ↦ (j, x ∷ xs) ∷ m ])
      kept [] q = h.1
      kept (x ∷ xs) q = (q, h.1)

remove_all-All :
    (P : Holder → Type 0) (id : ℕ) (hs : List Holder) → All P hs → All P (remove_all id hs)
unfolding remove_all
remove_all-All P id [] h = tt
remove_all-All P id (g ∷ hs) h = elim (Bool-cases (g.transaction_id == id)) [
  | inl own ↦ rw own (remove_all-All P id hs h.1)
  | inr other ↦ rw other (h.0, remove_all-All P id hs h.1)
]

pub remove_all-AreCompatible :
    (id : ℕ) (hs : List Holder) → AreCompatible hs → AreCompatible (remove_all id hs)
unfolding remove_all
remove_all-AreCompatible id [] h = tt
remove_all-AreCompatible id (g ∷ hs) h = elim (Bool-cases (g.transaction_id == id)) [
  | inl own ↦ rw own (remove_all-AreCompatible id hs h.1)
  | inr other ↦
      rw other (remove_all-All (IsCompatible g) id hs h.0, remove_all-AreCompatible id hs h.1)
]

remove_first-All :
    (P : Holder → Type 0) (id : ℕ) (hs : List Holder) → All P hs → All P (remove_first id hs)
unfolding remove_first
remove_first-All P id [] h = tt
remove_first-All P id (g ∷ hs) h = elim (Bool-cases (g.transaction_id == id)) [
  | inl own ↦ rw own h.1
  | inr other ↦ rw other (h.0, remove_first-All P id hs h.1)
]

pub remove_first-AreCompatible :
    (id : ℕ) (hs : List Holder) → AreCompatible hs → AreCompatible (remove_first id hs)
unfolding remove_first
remove_first-AreCompatible id [] h = tt
remove_first-AreCompatible id (g ∷ hs) h = elim (Bool-cases (g.transaction_id == id)) [
  | inl own ↦ rw own h.1
  | inr other ↦
      rw other (remove_first-All (IsCompatible g) id hs h.0, remove_first-AreCompatible id hs h.1)
]

-- A new holder that `compatible` let in.
append-All :
    (h : Holder) (id : ℕ) (mode : LockMode) (hs : List Holder)
    → All (IsCompatible h) hs
    → (h.transaction_id == id || not (conflicts mode h.mode)) ≡ true
    → All (IsCompatible h) (hs ++ record { transaction_id = id; mode = mode } ∷ [])
unfolding conflicts
append-All h id mode [] a e = (λ apart. ground (arith, apart), tt)
append-All h id mode (g ∷ hs) a e = (a.0, append-All h id mode hs a.1 e)

pub append-AreCompatible :
    (id : ℕ) (mode : LockMode) (hs : List Holder)
    → AreCompatible hs
    → none_conflict id mode hs ≡ true
    → AreCompatible (hs ++ record { transaction_id = id; mode = mode } ∷ [])
unfolding none_conflict
append-AreCompatible id mode [] a e = (tt, tt)
append-AreCompatible id mode (h ∷ hs) a e = (
  append-All h id mode hs a.0 (ground (arith, e)),
  append-AreCompatible id mode hs a.1 (ground (arith, e)),
)

-- An upgrade that `compatible` let through finds no other transaction.
abbrev IsOwn : ℕ → Holder → Type 0
IsOwn id h = h.transaction_id ≡ id

pub none_conflict-IsOwn :
    (id : ℕ) (hs : List Holder) → none_conflict id exclusive hs ≡ true → All (IsOwn id) hs
unfolding none_conflict conflicts
none_conflict-IsOwn id [] e = tt
none_conflict-IsOwn id (h ∷ hs) e = (ground arith, none_conflict-IsOwn id hs (ground (arith, e)))

pub upgrade-IsOwn : (id : ℕ) (hs : List Holder) → All (IsOwn id) hs → All (IsOwn id) (upgrade id hs)
unfolding upgrade
upgrade-IsOwn id [] h = tt
upgrade-IsOwn id (g ∷ hs) h = elim (Bool-cases (g.transaction_id == id)) [
  | inl own ↦ rw own h
  | inr other ↦ rw other (h.0, upgrade-IsOwn id hs h.1)
]

IsOwn-All :
    (h : Holder) (id : ℕ) (hs : List Holder)
    → h.transaction_id ≡ id
    → All (IsOwn id) hs
    → All (IsCompatible h) hs
IsOwn-All h id [] e own = tt
IsOwn-All h id (g ∷ hs) e own =
    (λ apart. absurd (apart (ground (arith, own))), IsOwn-All h id hs e own.1)

pub IsOwn-AreCompatible : (id : ℕ) (hs : List Holder) → All (IsOwn id) hs → AreCompatible hs
IsOwn-AreCompatible id [] own = tt
IsOwn-AreCompatible id (h ∷ hs) own =
    (IsOwn-All h id hs own.0 own.1, IsOwn-AreCompatible id hs own.1)
