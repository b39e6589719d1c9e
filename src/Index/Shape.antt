-- ===== src/Index/Shape.antt =====
-- What the pages of a B+ tree of src/index/bplus_tree.cpp stand for: a tree, its entries in the order
-- of the leaves, and the map that they are.
pub mod Search
use resume_project.Common.{
  ℕ, zero, suc, ◌+◌, ◌<◌, ◌≤◌, ◌≡◌, Bool, true, false, Option, none, some, List, [], ◌∷◌, ◌++◌, All,
  IsU64, length, get_elem?, ◌==◌, if◌then◌else◌,
}
use resume_project.Index.Key.{rank, precedes}
use resume_project.Index.Key.Bounds.{IsAscending}
use resume_project.Index.Node.{RecordId, Node}

-- A node with its page, and the nodes below it.
mutual
  pub data Shape : Type 0 where
    leaf : ℕ → Node → Shape
    fork : ℕ → Node → Shapes → Shape

  pub data Shapes : Type 0 where
    nil : Shapes
    cons : Shape → Shapes → Shapes

abbrev pub page_of : Shape → ℕ
page_of (leaf id n) = id
page_of (fork id n cs) = id

abbrev pub pages_of : Shapes → List ℕ
pages_of nil = []
pages_of (cons c cs) = page_of c ∷ pages_of cs

abbrev pub pairs : List ℕ → List RecordId → List (ℕ × RecordId)
pairs (k ∷ ks) (v ∷ vs) = (k, v) ∷ pairs ks vs
pairs ks vs = []

unfoldable mutual
  pub entries_of : Shape → List (ℕ × RecordId)
  entries_of (leaf id n) = pairs n.keys n.values
  entries_of (fork id n cs) = entries_in cs

  pub entries_in : Shapes → List (ℕ × RecordId)
  entries_in nil = []
  entries_in (cons c cs) = entries_of c ++ entries_in cs

-- The map from keys to records.
unfoldable pub assoc : ℕ → List (ℕ × RecordId) → Option RecordId
assoc key [] = none
assoc key ((k, v) ∷ rest) = if k == key then some v else assoc key rest

-- The levels are at most so many.
abbrev mutual
  pub IsWithin : ℕ → Shape → Type 0
  IsWithin zero sh = ⊥
  IsWithin (suc h) (leaf id n) = Unit
  IsWithin (suc h) (fork id n cs) = AreWithin h cs

  pub AreWithin : ℕ → Shapes → Type 0
  AreWithin h nil = Unit
  AreWithin h (cons c cs) = IsWithin h c × AreWithin h cs
