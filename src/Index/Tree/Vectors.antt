-- ===== src/Index/Tree/Vectors.antt =====
-- The accesses of a node's vectors, checked: out of bounds the source is undefined.
use resume_project.Common.{ℕ, not, List, length, get_elem?, set, ltb}
use resume_project.Common.Action.{pure, or_throw, throw_if, ◌>>◌}
use resume_project.Transactions.Errors.{out_of_bounds}
use resume_project.Index.Key.{back, erase_at}
use resume_project.Index.Tree.{TreeAction}

-- `v[i]`, and `v.front()` at 0.
abbrev pub at : {A : Type 0} → List A → ℕ → TreeAction A
at xs i = or_throw (get_elem? xs i) out_of_bounds

-- `v.back()`
abbrev pub last_of : {A : Type 0} → List A → TreeAction A
last_of xs = or_throw (back xs) out_of_bounds

-- `v[i] = x`
unfoldable pub put_at : {A : Type 0} → List A → ℕ → A → TreeAction (List A)
put_at xs i x = throw_if (not (ltb i (length xs))) out_of_bounds >> pure (set xs i x)

-- `v.erase(v.begin() + i)`
unfoldable pub remove_at : {A : Type 0} → List A → ℕ → TreeAction (List A)
remove_at xs i = throw_if (not (ltb i (length xs))) out_of_bounds >> pure (erase_at xs i)
