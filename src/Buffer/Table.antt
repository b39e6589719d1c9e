-- ===== src/Buffer/Table.antt =====
-- The containers of the buffer pool: the page table, an unordered_map from page ids to frame ids, and
-- the lists of frame ids. No result depends on the order of a map, so it is an association list.
use resume_project.Common.{
  ℕ, zero, suc, ◌<◌, ◌≤◌, Bool-cases, inl, inr, ◌≡◌, refl, Bool, true, false, ◌||◌, Option, none,
  some, List, [], ◌∷◌, ◌++◌, length, ◌==◌, if◌then◌else◌, arith,
}

unfoldable pub lookup : ℕ → List (ℕ × ℕ) → Option ℕ
lookup k [] = none
lookup k ((j, v) ∷ t) = if j == k then some v else lookup k t

unfoldable pub erase : ℕ → List (ℕ × ℕ) → List (ℕ × ℕ)
erase k [] = []
erase k ((j, v) ∷ t) = if j == k then t else (j, v) ∷ erase k t

unfoldable pub mem : ℕ → List ℕ → Bool
mem i [] = false
mem i (x ∷ xs) = x == i || mem i xs

-- `list::erase` at the position of `i`
unfoldable pub remove : ℕ → List ℕ → List ℕ
remove i [] = []
remove i (x ∷ xs) = if x == i then xs else x ∷ remove i xs

abbrev pub IsDistinct : List ℕ → Type 0
IsDistinct [] = Unit {0}
IsDistinct (x ∷ xs) = (mem x xs ≡ false) × IsDistinct xs

-- A map has one entry for a key.
abbrev pub IsMap : List (ℕ × ℕ) → Type 0
IsMap [] = Unit {0}
IsMap ((k, v) ∷ t) = (lookup k t ≡ none) × IsMap t

pub mem-remove :
    (xs : List ℕ) (i j : ℕ)
    → IsDistinct xs
    → mem j (remove i xs) ≡ (if i == j then false else mem j xs)
unfolding mem remove
mem-remove [] i j d = ground arith
mem-remove (x ∷ xs) i j d = ground (arith, mem-remove xs i j d.1)

pub IsDistinct-remove : (xs : List ℕ) (i : ℕ) → IsDistinct xs → IsDistinct (remove i xs)
unfolding mem remove
IsDistinct-remove [] i d = tt
IsDistinct-remove (x ∷ xs) i d = ground (arith, IsDistinct-remove xs i d.1, mem-remove xs i x d.1)

pub mem-snoc : (xs : List ℕ) (i j : ℕ) → mem j (xs ++ i ∷ []) ≡ (if i == j then true else mem j xs)
unfolding mem
mem-snoc [] i j = ground arith
mem-snoc (x ∷ xs) i j = ground (arith, mem-snoc xs i j)

pub IsDistinct-snoc :
    (xs : List ℕ) (i : ℕ) → IsDistinct xs → mem i xs ≡ false → IsDistinct (xs ++ i ∷ [])
unfolding mem
IsDistinct-snoc [] i d h = (refl, tt)
IsDistinct-snoc (x ∷ xs) i d h = ground (arith, mem-snoc xs i x, IsDistinct-snoc xs i d.1)

pub lookup-erase :
    (t : List (ℕ × ℕ)) (k j : ℕ)
    → IsMap t
    → lookup j (erase k t) ≡ (if k == j then none else lookup j t)
unfolding lookup erase
lookup-erase [] k j m = ground arith
lookup-erase ((i, v) ∷ t) k j m = ground (arith, lookup-erase t k j m.1)

pub IsMap-erase : (t : List (ℕ × ℕ)) (k : ℕ) → IsMap t → IsMap (erase k t)
unfolding lookup erase
IsMap-erase [] k m = tt
IsMap-erase ((i, v) ∷ t) k m = ground (arith, IsMap-erase t k m.1, lookup-erase t k i m.1)

pub length-erase :
    (t : List (ℕ × ℕ)) (k f : ℕ) → lookup k t ≡ some f → suc (length (erase k t)) ≡ length t
unfolding lookup erase
length-erase [] k f e = cc
length-erase ((i, v) ∷ t) k f e = ground (arith, length-erase t k f)

pub lookup-cons :
    (t : List (ℕ × ℕ)) (k f j : ℕ) → lookup j ((k, f) ∷ t) ≡ (if k == j then some f else lookup j t)
unfolding lookup
lookup-cons t k f j = refl

pub mem-cons : (xs : List ℕ) (i j : ℕ) → mem j (i ∷ xs) ≡ (if i == j then true else mem j xs)
unfolding mem
mem-cons xs i j = ground arith

-- Each number once: the keys of a map that has one for each of them.
unfoldable pub distinct : List ℕ → List ℕ
distinct [] = []
distinct (x ∷ xs) = let rest = distinct xs in if mem x xs then rest else x ∷ rest

length-distinct : (xs : List ℕ) → length (distinct xs) ≤ length xs
unfolding distinct
length-distinct [] = omega arith
length-distinct (x ∷ xs) = ground (arith, length-distinct xs)

pub distinct-IsDistinct : (xs : List ℕ) → length xs ≡ length (distinct xs) → IsDistinct xs
unfolding distinct
distinct-IsDistinct [] e = tt
distinct-IsDistinct (x ∷ xs) e = elim (Bool-cases (mem x xs)) [
  | inl again ↦ absurd (ground (arith, again, length-distinct xs))
  | inr fresh ↦ (fresh, distinct-IsDistinct xs (ground (arith, fresh)))
]

pub IsDistinct-distinct : (xs : List ℕ) → IsDistinct xs → length xs ≡ length (distinct xs)
unfolding distinct
IsDistinct-distinct [] d = refl
IsDistinct-distinct (x ∷ xs) d = ground (arith, d.0, IsDistinct-distinct xs d.1)

pub mem-append : (xs ys : List ℕ) (j : ℕ) → mem j (xs ++ ys) ≡ (mem j xs || mem j ys)
unfolding mem
mem-append [] ys j = refl
mem-append (x ∷ xs) ys j = ground (arith, mem-append xs ys j)

length-remove : (xs : List ℕ) (i : ℕ) → length xs ≤ suc (length (remove i xs))
unfolding remove
length-remove [] i = omega arith
length-remove (x ∷ xs) i = ground (arith, length-remove xs i)

-- Distinct numbers below `n` are at most `n`.
length_bound :
    (n : ℕ) (xs : List ℕ) → IsDistinct xs → ((x : ℕ) → mem x xs ≡ true → x < n) → length xs ≤ n
unfolding mem
length_bound zero [] d below = omega arith
length_bound zero (x ∷ xs) d below = absurd (ground (arith, below x))
length_bound (suc n) xs d below =
    let rest =
      length_bound n (remove n xs) (IsDistinct-remove xs n d)
        (λ x m. ground (arith, mem-remove xs n x d, below x)) in
    omega (arith, rest, length-remove xs n)

-- Where they are `n`, they are all of them.
pub mem-covers :
    (xs : List ℕ) (f : ℕ)
    → IsDistinct xs
    → ((x : ℕ) → mem x xs ≡ true → x < length xs)
    → f < length xs
    → mem f xs ≡ true
unfolding mem
mem-covers xs f d below inside = elim (Bool-cases (mem f xs)) [
  | inl here ↦ here
  | inr absent ↦ absurd (
      omega (arith, length_bound (length xs) (f ∷ xs) (absent, d) (λ x m. ground (arith, below x))))
]
