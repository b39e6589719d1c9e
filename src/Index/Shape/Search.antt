-- ===== src/Index/Shape/Search.antt =====
-- The order of a search tree, and that a descent by the separators misses no entry.
use resume_project.Common.{
  ℕ, ◌<◌, ◌≤◌, ◌≡◌, ◌≢◌, refl, true, false, Option, none, some, List, [], ◌∷◌, ◌++◌, All, All-imp,
  IsU64, length, ◌==◌, if◌then◌else◌, arith, Bool-cases, inl, inr,
}
use resume_project.Index.Key.{rank, precedes}
use resume_project.Index.Key.Bounds.{IsAscending}
use resume_project.Index.Node.{RecordId}
use resume_project.Index.Shape.{
  Shape, Shapes, leaf, fork, nil, cons, pages_of, entries_of, entries_in, assoc,
}

abbrev pub IsBelow : ℕ → ℕ × RecordId → Type 0
IsBelow k e = rank e.0 < rank k

abbrev pub IsFrom : ℕ → ℕ × RecordId → Type 0
IsFrom k e = rank k ≤ rank e.0

-- The keys of a leaf ascend; a separator is above the entries in front of it and not above those
-- behind it.
abbrev mutual
  pub IsSearch : Shape → Type 0
  IsSearch (leaf id n) =
      (n.leaf ≡ true) × (length n.values ≡ length n.keys) × IsAscending n.keys × All IsU64 n.keys
  IsSearch (fork id n cs) = (n.leaf ≡ false) × (n.children ≡ pages_of cs) × AreParted n.keys cs

  pub AreParted : List ℕ → Shapes → Type 0
  AreParted ks nil = ⊥
  AreParted [] (cons c nil) = IsSearch c
  AreParted [] (cons c (cons d cs)) = ⊥
  AreParted (k ∷ ks) (cons c cs) =
      All (IsBelow k) (entries_of c) × All (IsFrom k) (entries_in cs) × IsSearch c × AreParted ks cs

-- A key that no entry has.
pub assoc-absent :
    (key : ℕ) (es : List (ℕ × RecordId)) → All (λ e. rank e.0 ≢ rank key) es → assoc key es ≡ none
unfolding assoc
assoc-absent key [] h = refl
assoc-absent key ((k, v) ∷ es) h = elim (Bool-cases (k == key)) [
  | inl same ↦ absurd (h.0 (ground arith))
  | inr other ↦ rw (other, assoc) (assoc-absent key es h.1)
]

pub assoc-append_right :
    (key : ℕ) (es fs : List (ℕ × RecordId))
    → assoc key es ≡ none
    → assoc key (es ++ fs) ≡ assoc key fs
unfolding assoc
assoc-append_right key [] fs h = refl
assoc-append_right key ((k, v) ∷ es) fs h = ground (arith, assoc-append_right key es fs)

pub assoc-append_left :
    (key : ℕ) (es fs : List (ℕ × RecordId))
    → assoc key fs ≡ none
    → assoc key (es ++ fs) ≡ assoc key es
unfolding assoc
assoc-append_left key [] fs h = h
assoc-append_left key ((k, v) ∷ es) fs h = ground (arith, assoc-append_left key es fs)

-- What a key that is not the wanted one stands beside.
pub before_key :
    (k key : ℕ) (es : List (ℕ × RecordId))
    → rank k ≤ rank key
    → All (IsBelow k) es
    → assoc key es ≡ none
before_key k key es h below =
    assoc-absent key es
      (All-imp (IsBelow k) (λ e. rank e.0 ≢ rank key) (λ e p. omega arith) es below)

pub behind_key :
    (k key : ℕ) (es : List (ℕ × RecordId))
    → rank key < rank k
    → All (IsFrom k) es
    → assoc key es ≡ none
behind_key k key es h from =
    assoc-absent key es (All-imp (IsFrom k) (λ e. rank e.0 ≢ rank key) (λ e p. omega arith) es from)

-- The child that the separators choose: `none` where there is none.
unfoldable pub chosen : List ℕ → Shapes → ℕ → Option Shape
chosen ks nil key = none
chosen [] (cons c cs) key = some c
chosen (k ∷ ks) (cons c cs) key = if precedes key k then some c else chosen ks cs key

-- A search tree's key is found below the child that the separators choose.
pub assoc-chosen :
    (ks : List ℕ) (cs : Shapes) (key : ℕ) (c : Shape)
    → AreParted ks cs
    → chosen ks cs key ≡ some c
    → assoc key (entries_in cs) ≡ assoc key (entries_of c)
unfolding chosen assoc entries_of
assoc-chosen ks nil key d h e = absurd h
assoc-chosen [] (cons c nil) key d h e =
    ground (arith, assoc-append_left key (entries_of c) [] refl)
assoc-chosen [] (cons c (cons b cs)) key d h e = absurd h
assoc-chosen (k ∷ ks) (cons c cs) key d h e = elim (Bool-cases (precedes key k)) [
  | inl less ↦
      rw
        (assoc-append_left key (entries_of c) (entries_in cs)
          (behind_key k key (entries_in cs) (ground arith) h.1))
        (ground arith)
  | inr more ↦
      rw
        (assoc-append_right key (entries_of c) (entries_in cs)
          (before_key k key (entries_of c) (ground arith) h.0))
        (assoc-chosen ks cs key d h.3 (ground arith))
]
