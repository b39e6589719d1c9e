-- ===== src/Index/Key.antt =====
-- The keys of src/index/bplus_tree.cpp in their order: an int64_t, as its 64 bits. And the vector
-- operations that the tree uses.
pub mod Bounds
use resume_project.Common.{
  ℕ, zero, suc, ◌+◌, ◌%◌, ◌^◌, Bool, true, false, not, ◌&&◌, Option, none, some, List, [], ◌∷◌, ltb,
  ◌==◌, if◌then◌else◌,
}

-- The place of a key among the 2^64 signed ones.
unfoldable pub rank : ℕ → ℕ
rank k = (k + 2 ^ 63) % 2 ^ 64

abbrev pub precedes : ℕ → ℕ → Bool
precedes a b = ltb (rank a) (rank b)

-- `std::lower_bound` on a sorted vector: how many keys are below `key`.
unfoldable pub lower_bound : List ℕ → ℕ → ℕ
lower_bound [] key = 0
lower_bound (k ∷ ks) key = if precedes k key then suc (lower_bound ks key) else 0

-- `std::upper_bound` on a sorted vector: how many keys are not above `key`.
unfoldable pub upper_bound : List ℕ → ℕ → ℕ
upper_bound [] key = 0
upper_bound (k ∷ ks) key = if precedes key k then 0 else suc (upper_bound ks key)

-- `std::is_sorted`
unfoldable pub is_sorted : List ℕ → Bool
is_sorted [] = true
is_sorted (a ∷ []) = true
is_sorted (a ∷ b ∷ ks) = not (precedes b a) && is_sorted (b ∷ ks)

-- `std::find` as an index, which is the length for the end.
unfoldable pub find_index : List ℕ → ℕ → ℕ
find_index [] x = 0
find_index (y ∷ ys) x = if y == x then 0 else suc (find_index ys x)

module _ {A : Type 0} where
  -- `v.insert(v.begin() + i, x)`
  unfoldable pub insert_at : List A → ℕ → A → List A
  insert_at ys zero x = x ∷ ys
  insert_at [] (suc i) x = x ∷ []
  insert_at (y ∷ ys) (suc i) x = y ∷ insert_at ys i x

  -- `v.erase(v.begin() + i)`
  unfoldable pub erase_at : List A → ℕ → List A
  erase_at [] i = []
  erase_at (y ∷ ys) zero = ys
  erase_at (y ∷ ys) (suc i) = y ∷ erase_at ys i

  -- `v.back()` and `v.pop_back()`
  unfoldable pub back : List A → Option A
  back [] = none
  back (x ∷ []) = some x
  back (x ∷ y ∷ ys) = back (y ∷ ys)

  unfoldable pub pop_back : List A → List A
  pop_back [] = []
  pop_back (x ∷ []) = []
  pop_back (x ∷ y ∷ ys) = x ∷ pop_back (y ∷ ys)
