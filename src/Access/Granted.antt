-- ===== src/Access/Granted.antt =====
-- What a granted lock gives: the caller holds it, and nobody else anything that conflicts.
use resume_project.Common.{
  ℕ, ◌≡◌, ◌≢◌, refl, ap, true, Option, none, some, List, [], ◌∷◌, ◌++◌, ◌==◌, ==_self, arith,
  Bool-cases, inl, inr,
}
use resume_project.Concurrency.LockManager.{
  LockManager, LockMode, shared, exclusive, Holder, granted, entry, put_entry, own_mode, upgrade,
  grant, request, with_own, lock, is_holder, holds, compatible, is_growing,
}

entry-put_entry :
    {A : Type 0} (k : ℕ) (v : A) (vs : List A) (m : List (ℕ × List A))
    → entry k (put_entry k (v ∷ vs) m) ≡ v ∷ vs
unfolding entry put_entry
entry-put_entry k v vs [] = ground arith
entry-put_entry k v vs ((j, w) ∷ m) = ground (arith, entry-put_entry k v vs m)

own_mode-is_holder :
    (id : ℕ) (mode : LockMode) (hs : List Holder)
    → own_mode id hs ≡ some mode
    → is_holder id mode hs ≡ true
unfolding own_mode is_holder
own_mode-is_holder id mode [] e = absurd (ground arith)
own_mode-is_holder id shared (h ∷ hs) e = ground (arith, own_mode-is_holder id shared hs)
own_mode-is_holder id exclusive (h ∷ hs) e = ground (arith, own_mode-is_holder id exclusive hs)

upgrade-is_holder :
    (id : ℕ) (own : LockMode) (hs : List Holder)
    → own_mode id hs ≡ some own
    → (g : Holder) × (gs : List Holder) × (upgrade id hs ≡ g ∷ gs)
      × (is_holder id exclusive (g ∷ gs) ≡ true)
unfolding own_mode upgrade is_holder
upgrade-is_holder id own [] e = absurd (ground arith)
upgrade-is_holder id own (h ∷ hs) e = elim (Bool-cases (h.transaction_id == id)) [
  | inl same ↦ (record h { mode = exclusive }, hs, rw same, ground (arith, same))
  | inr other ↦
      let (g, gs, up, held) = upgrade-is_holder id own hs (ground (arith, e, other)) in
      (h, g ∷ gs, rw (other, up) refl, ground (arith, held))
]

append-is_holder :
    (id : ℕ) (mode : LockMode) (hs : List Holder)
    → (g : Holder) × (gs : List Holder) × (hs ++ record { transaction_id = id; mode = mode } ∷ []
        ≡ g ∷ gs)
      × (is_holder id mode (g ∷ gs) ≡ true)
unfolding is_holder
append-is_holder id shared [] =
    (record { transaction_id = id; mode = shared }, [], refl, ground (arith, ==_self id))
append-is_holder id exclusive [] =
    (record { transaction_id = id; mode = exclusive }, [], refl, ground (arith, ==_self id))
append-is_holder id mode (h ∷ hs) =
    let (g, gs, whole, held) = append-is_holder id mode hs in
    (h, g ∷ gs, ap (λ xs. h ∷ xs) whole, ground (arith, held))

-- A list of holders put into the table.
put_holds :
    (id resource : ℕ) (mode : LockMode) (hs : List Holder) (lm lm' : LockManager)
    → (g : Holder) × (gs : List Holder) × (hs ≡ g ∷ gs) × (is_holder id mode (g ∷ gs) ≡ true)
    → lm'.table ≡ put_entry resource hs lm.table
    → holds lm' id resource mode ≡ true
unfolding holds
put_holds id resource mode hs lm lm' (g, gs, e, held) table =
    rw (table, e, entry-put_entry resource g gs lm.table) held

grant-holds :
    (id resource : ℕ) (mode : LockMode) (own : Option LockMode) (lm : LockManager)
    → own_mode id (entry resource lm.table) ≡ own
    → (own ≢ none → mode ≡ exclusive)
    → holds (grant id resource mode own lm) id resource mode ≡ true
unfolding grant
grant-holds id resource mode none lm e up =
    put_holds id resource mode _ lm _ (append-is_holder id mode (entry resource lm.table)) refl
grant-holds id resource exclusive (some own) lm e up =
    put_holds id resource exclusive _ lm _ (upgrade-is_holder id own (entry resource lm.table) e)
      refl
grant-holds id resource shared (some own) lm e up =
    absurd (ground (arith, up (λ x. absurd (ground (arith, x)))))

request-holds :
    (id resource : ℕ) (mode : LockMode) (own : Option LockMode) (lm : LockManager)
    → own_mode id (entry resource lm.table) ≡ own
    → (own ≢ none → mode ≡ exclusive)
    → (request id resource mode own lm).0 ≡ granted
    → holds (request id resource mode own lm).1 id resource mode ≡ true
unfolding request
request-holds id resource mode own lm e up won =
    elim (Bool-cases (compatible lm id resource mode)) [
      | inl fits ↦ rw (fits, request) (grant-holds id resource mode own lm e up)
      | inr clash ↦ absurd (ground (arith, clash, won))
    ]

with_own-holds :
    (id resource : ℕ) (mode : LockMode) (own : Option LockMode) (lm : LockManager)
    → own_mode id (entry resource lm.table) ≡ own
    → (with_own id resource mode own lm).0 ≡ granted
    → holds (with_own id resource mode own lm).1 id resource mode ≡ true
unfolding with_own
with_own-holds id resource shared (some shared) lm e won =
    unfold holds in own_mode-is_holder id shared (entry resource lm.table) e
with_own-holds id resource exclusive (some exclusive) lm e won =
    unfold holds in own_mode-is_holder id exclusive (entry resource lm.table) e
with_own-holds id resource shared (some exclusive) lm e won = absurd (ground (arith, won))
with_own-holds id resource exclusive (some shared) lm e won =
    request-holds id resource exclusive (some shared) lm e (λ x. refl) won
with_own-holds id resource mode none lm e won =
    request-holds id resource mode none lm e (λ x. absurd (x refl)) won

-- A lock that is granted is held.
pub lock-holds :
    (id resource : ℕ) (mode : LockMode) (lm : LockManager)
    → (lock id resource mode lm).0 ≡ granted
    → holds (lock id resource mode lm).1 id resource mode ≡ true
unfolding lock
lock-holds id resource mode lm won = elim (Bool-cases (is_growing (lm.states id))) [
  | inl grows ↦
      rw (grows, lock)
        (with_own-holds id resource mode (own_mode id (entry resource lm.table)) lm refl
          (ground (arith, won, grows)))
  | inr over ↦ absurd (ground (arith, won, over))
]
