-- ===== src/Storage/Bitmap.antt =====
-- The allocation bitmap of src/storage/page_manager.cpp: bit `id % 8` of byte `id / 8`.
mod Bits
pub mod Laws
use Prim.Native.Nat.{bit_and, bit_or}
use resume_project.Common.{
  ℕ, suc, zero, ◌+◌, ◌-◌, ◌/◌, ◌%◌, ◌^◌, Bool, not, List, get_or, set, ◌==◌, if◌then◌else◌,
}

-- `1U << (id % 8)`
abbrev pub mask : ℕ → ℕ
mask id = 2 ^ (id % 8)

unfoldable pub test_bit : List ℕ → ℕ → Bool
test_bit bitmap id = not (bit_and (get_or bitmap (id / 8) 0) (mask id) == 0)

unfoldable pub set_bit : List ℕ → ℕ → List ℕ
set_bit bitmap id = set bitmap (id / 8) (bit_or (get_or bitmap (id / 8) 0) (mask id))

-- `std::byte(~mask)` keeps the low eight bits of the complement.
unfoldable pub clear_bit : List ℕ → ℕ → List ℕ
clear_bit bitmap id = set bitmap (id / 8) (bit_and (get_or bitmap (id / 8) 0) (255 - mask id))

-- The set bits below `n`, counted as the constructor counts them.
unfoldable pub count_set : List ℕ → ℕ → ℕ
count_set bitmap zero = 0
count_set bitmap (suc n) = count_set bitmap n + (if test_bit bitmap n then 1 else 0)
