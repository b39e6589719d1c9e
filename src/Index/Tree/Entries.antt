-- ===== src/Index/Tree/Entries.antt =====
-- A leaf with one entry more, as a map.
use resume_project.Common.{
  ℕ, zero, suc, ◌<◌, ◌≡◌, ◌≢◌, refl, false, some, List, [], ◌∷◌, All, All-imp, IsU64, length, arith,
  Bool-cases, inl, inr, ◌==◌, if◌then◌else◌,
}
use resume_project.Index.Key.{rank, precedes, lower_bound, insert_at}
use resume_project.Index.Key.Bounds.{IsAscending, rank-injective}
use resume_project.Index.Node.{RecordId, Node}
use resume_project.Index.Shape.{pairs, assoc}
use resume_project.Index.Tree.Insert.{with_entry}

assoc-insert_at :
    (key q : ℕ) (v : RecordId) (ks : List ℕ) (vs : List RecordId)
    → length vs ≡ length ks
    → assoc q (pairs (insert_at ks (lower_bound ks key) key) (insert_at vs (lower_bound ks key) v))
      ≡ (if key == q then some v else assoc q (pairs ks vs))
unfolding assoc insert_at lower_bound
assoc-insert_at key q v [] [] same = refl
assoc-insert_at key q v [] (w ∷ vs) same = absurd (omega (arith, same))
assoc-insert_at key q v (k ∷ ks) [] same = absurd (omega (arith, same))
assoc-insert_at key q v (k ∷ ks) (w ∷ vs) same = elim (Bool-cases (precedes k key)) [
  | inl less ↦
      let apart : (k == key) ≡ false = ground arith in
      rw (less, assoc)
        (ground (arith, less, apart, assoc-insert_at key q v ks vs (omega (arith, same))))
  | inr more ↦ rw (more, assoc) refl
]

All-insert_at :
    (P : ℕ → Type 0) (x : ℕ) (ks : List ℕ) (i : ℕ) → P x → All P ks → All P (insert_at ks i x)
unfolding insert_at
All-insert_at P x ks zero p h = (p, h)
All-insert_at P x [] (suc i) p h = (p, tt)
All-insert_at P x (k ∷ ks) (suc i) p h = (h.0, All-insert_at P x ks i p h.1)

insert_at-IsAscending :
    (key : ℕ) (ks : List ℕ)
    → IsU64 key
    → All IsU64 ks
    → IsAscending ks
    → All (λ k. k ≢ key) ks
    → IsAscending (insert_at ks (lower_bound ks key) key)
unfolding insert_at lower_bound
insert_at-IsAscending key [] small fit asc new = (tt, tt)
insert_at-IsAscending key (k ∷ ks) small fit asc new = elim (Bool-cases (precedes k key)) [
  | inl less ↦ rw less (
    All-insert_at (λ x. rank k < rank x) key ks (lower_bound ks key) (ground arith) asc.0,
    insert_at-IsAscending key ks small fit.1 asc.1 new.1,
  )
  | inr more ↦
      let apart : rank k ≢ rank key = λ e. new.0 (rank-injective k key fit.0 small e) in
      let behind : rank key < rank k = ground (arith, more, apart) in
      rw more (
        (
          behind,
          All-imp (λ x. rank k < rank x) (λ x. rank key < rank x) (λ x h. omega (arith, h, behind))
              ks asc.0,
        ),
        asc,
      )
]

-- Putting a 64-bit key that a leaf does not have into the leaf, whose keys ascend and are 64-bit
-- and which has one value for each, leaves the keys ascending, and the leaf's map is the old one
-- with the new entry.
pub with_entry_lem :
    (leaf : Node) (key : ℕ) (v : RecordId)
    → length leaf.values ≡ length leaf.keys
    → IsU64 key
    → All IsU64 leaf.keys
    → IsAscending leaf.keys
    → All (λ k. k ≢ key) leaf.keys
    → IsAscending (with_entry leaf key v).keys
      × ((q : ℕ)
          → assoc q (pairs (with_entry leaf key v).keys (with_entry leaf key v).values)
            ≡ (if key == q then some v else assoc q (pairs leaf.keys leaf.values)))
unfolding with_entry
with_entry_lem leaf key v same small fit asc new = (
  insert_at-IsAscending key leaf.keys small fit asc new,
  λ q. assoc-insert_at key q v leaf.keys leaf.values same,
)
