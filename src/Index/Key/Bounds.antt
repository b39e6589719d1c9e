-- ===== src/Index/Key/Bounds.antt =====
-- The order of the keys, and what the searches find in an ascending vector.
use resume_project.Common.{ℕ, ◌<◌, ◌≤◌, ◌≡◌, List, [], ◌∷◌, All, IsU64, arith, length}
use resume_project.Index.Key.{rank, lower_bound}

-- Different bit patterns are different keys.
pub rank-injective : (a b : ℕ) → IsU64 a → IsU64 b → rank a ≡ rank b → a ≡ b
unfolding rank
rank-injective a b ha hb e = omega (arith, e)

-- Every key is below the ones behind it.
abbrev pub IsAscending : List ℕ → Type 0
IsAscending [] = Unit
IsAscending (k ∷ ks) = All (λ x. rank k < rank x) ks × IsAscending ks

pub lower_bound-le : (keys : List ℕ) (key : ℕ) → lower_bound keys key ≤ length keys
unfolding lower_bound
lower_bound-le [] key = omega arith
lower_bound-le (k ∷ ks) key = ground (arith, lower_bound-le ks key)
