-- ===== src/Index/Tree/Removed.antt =====
-- A leaf with one entry less, as a map.
use resume_project.Common.{
  ℕ, zero, suc, ◌<◌, ◌≡◌, refl, false, none, some, List, [], ◌∷◌, All, subst, length, get_elem?,
  arith, Bool-cases, inl, inr, ◌==◌, if◌then◌else◌,
}
use resume_project.Index.Key.{rank, precedes, lower_bound, erase_at}
use resume_project.Index.Key.Bounds.{IsAscending}
use resume_project.Index.Node.{RecordId, Node}
use resume_project.Index.Shape.{pairs, assoc}
use resume_project.Index.Tree.Search.{position}
use resume_project.Index.Tree.Remove.{without_entry}
use resume_project.Index.Tree.Lookup.{assoc_behind}

assoc-erase_at :
    (key q : ℕ) (ks : List ℕ) (vs : List RecordId)
    → length vs ≡ length ks
    → IsAscending ks
    → get_elem? ks (lower_bound ks key) ≡ some key
    → assoc q (pairs (erase_at ks (lower_bound ks key)) (erase_at vs (lower_bound ks key)))
      ≡ (if key == q then none else assoc q (pairs ks vs))
unfolding assoc erase_at lower_bound
assoc-erase_at key q [] vs same asc there = absurd (ground (arith, there))
assoc-erase_at key q (k ∷ ks) [] same asc there = absurd (omega (arith, same))
assoc-erase_at key q (k ∷ ks) (w ∷ vs) same asc there = elim (Bool-cases (precedes k key)) [
  | inl less ↦
      let apart : (k == key) ≡ false = ground arith in
      let further : get_elem? ks (lower_bound ks key) ≡ some key = rw less at there in
      rw (less, assoc)
        (ground
          (arith, less, apart, assoc-erase_at key q ks vs (omega (arith, same)) asc.1 further))
  | inr more ↦
      let own : k ≡ key = ground (arith, rw more at there) in
      rw (more, assoc)
        (elim (Bool-cases (key == q)) [
          | inl asked ↦
              let same_key : k ≡ q = ground (arith, own, asked) in
              rw (asked, assoc)
                (assoc_behind q ks vs (subst (λ x. All (λ y. rank x < rank y) ks) same_key asc.0))
          | inr other ↦
              let apart : (k == q) ≡ false = ground (arith, own, other) in
              rw (other, apart, assoc) refl
        ])
]

All-erase_at : (P : ℕ → Type 0) (ks : List ℕ) (i : ℕ) → All P ks → All P (erase_at ks i)
unfolding erase_at
All-erase_at P [] i h = tt
All-erase_at P (k ∷ ks) zero h = h.1
All-erase_at P (k ∷ ks) (suc i) h = (h.0, All-erase_at P ks i h.1)

erase_at-IsAscending : (ks : List ℕ) (i : ℕ) → IsAscending ks → IsAscending (erase_at ks i)
unfolding erase_at
erase_at-IsAscending [] i asc = tt
erase_at-IsAscending (k ∷ ks) zero asc = asc.1
erase_at-IsAscending (k ∷ ks) (suc i) asc =
    (All-erase_at (λ x. rank k < rank x) ks i asc.0, erase_at-IsAscending ks i asc.1)

found :
    (ks : List ℕ) (key i : ℕ)
    → position ks key ≡ some i
    → (i ≡ lower_bound ks key) × (get_elem? ks (lower_bound ks key) ≡ some key)
unfolding position
found ks key i e = ground (arith, e)

-- Taking the entry at a key's position out of a leaf, whose keys ascend and which has one value
-- for each, leaves the keys ascending, and the leaf's map is the old one without the key.
pub without_entry_lem :
    (leaf : Node) (key i : ℕ)
    → length leaf.values ≡ length leaf.keys
    → IsAscending leaf.keys
    → position leaf.keys key ≡ some i
    → IsAscending (without_entry leaf i).keys
      × ((q : ℕ)
          → assoc q (pairs (without_entry leaf i).keys (without_entry leaf i).values)
            ≡ (if key == q then none else assoc q (pairs leaf.keys leaf.values)))
unfolding without_entry
without_entry_lem leaf key i same asc e =
    let (place, there) = found leaf.keys key i e in
    rw place (
      erase_at-IsAscending leaf.keys (lower_bound leaf.keys key) asc,
      λ q. assoc-erase_at key q leaf.keys leaf.values same asc there,
    )
