-- ===== src/Storage/Bitmap/Bits.antt =====
-- Masks on one byte, for every byte and every bit, by evaluation.
use Prim.Native.Nat.{bit_and, bit_or}
use resume_project.Common.{
  ℕ, zero, suc, ◌-◌, ◌^◌, ◌<◌, ◌≡◌, refl, Bool, true, false, not, ◌&&◌, ◌==◌, ltb, arith,
  if◌then◌else◌,
}

-- a test of the numbers from `n - 1` down to 0
every : (ℕ → Bool) → ℕ → Bool
every test zero = true
every test (suc n) = if test n then every test n else false

every_at : (test : ℕ → Bool) (n i : ℕ) → i < n → every test n ≡ true → test i ≡ true
unfolding every
every_at test zero i small all = absurd (omega arith)
every_at test (suc n) i small all = ground (arith, every_at test n i)

-- `p` at every byte and every two bits
abbrev table : (ℕ → ℕ → ℕ → Bool) → Bool
table p = every (λ b. every (λ k. every (λ j. p b k j) 8) 8) 256

table_sound :
    (p : ℕ → ℕ → ℕ → Bool) → table p ≡ true → (b k j : ℕ) → b < 256 → k < 8 → j < 8 → p b k j ≡ true
table_sound p t b k j hb hk hj =
    every_at (λ j. p b k j) 8 j hj
      (every_at (λ k. every (λ j. p b k j) 8) 8 k hk
        (every_at (λ b. every (λ k. every (λ j. p b k j) 8) 8) 256 b hb t))

abbrev pub has_bit : ℕ → ℕ → Bool
has_bit b j = not (bit_and b (2 ^ j) == 0)

abbrev same : Bool → Bool → Bool
same true b = b
same false b = not b

same→eq : (a b : Bool) → same a b ≡ true → a ≡ b
same→eq a b h = ground arith

or_table :
    table (λ b k j. same (has_bit (bit_or b (2 ^ k)) j) (if k == j then true else has_bit b j))
    ≡ true
unfolding every
or_table = refl

and_table :
    table
      (λ b k j. same (has_bit (bit_and b (255 - 2 ^ k)) j) (if k == j then false else has_bit b j))
    ≡ true
unfolding every
and_table = refl

range_table :
    table (λ b k j. ltb (bit_or b (2 ^ k)) 256 && ltb (bit_and b (255 - 2 ^ k)) 256) ≡ true
unfolding every
range_table = refl

module _ (b k j : ℕ) (hb : b < 256) (hk : k < 8) (hj : j < 8) where
  pub has_bit-or : has_bit (bit_or b (2 ^ k)) j ≡ (if k == j then true else has_bit b j)
  has_bit-or = same→eq _ _ (table_sound _ or_table b k j hb hk hj)

  pub has_bit-and : has_bit (bit_and b (255 - 2 ^ k)) j ≡ (if k == j then false else has_bit b j)
  has_bit-and = same→eq _ _ (table_sound _ and_table b k j hb hk hj)

  pub masks_range : (bit_or b (2 ^ k) < 256) × (bit_and b (255 - 2 ^ k) < 256)
  masks_range = ground (arith, table_sound _ range_table b k j hb hk hj)

zero_table : every (λ j. not (has_bit 0 j)) 8 ≡ true
unfolding every
zero_table = refl

pub has_bit-zero : (j : ℕ) → j < 8 → has_bit 0 j ≡ false
has_bit-zero j h = ground (arith, every_at (λ j. not (has_bit 0 j)) 8 j h zero_table)
