-- ===== src/Storage/Bitmap/Laws.antt =====
-- The bitmap as a set of page ids.
use Prim.Native.Nat.{bit_and, bit_or}
use native.Mathlib.Numerals.{add-one}
use resume_project.Common.{
  ℕ, zero, suc, ◌+◌, ◌-◌, ◌*◌, ◌/◌, ◌%◌, ◌≤◌, ◌<◌, ◌≡◌, true, false, inl, inr, List, length, All,
  get_or, get_or-set_self, get_or-set_ne, All-set, All-get_or, length-set, arith, ◌==◌, Bool-cases,
  refl, replicate, length-replicate, if◌then◌else◌, IsByte, ==_iff, ltb, ◌∙◌, set,
}
use resume_project.Storage.Bitmap.{mask, test_bit, set_bit, clear_bit, count_set}
use resume_project.Storage.Bitmap.Bits.{has_bit-or, has_bit-and, has_bit-zero, masks_range}

-- A bitmap of `size` bytes.
pub record IsBitmap (size : ℕ) (bitmap : List ℕ) : Type 0 where
  pub sized : length bitmap ≡ size
  pub bytes : All IsByte bitmap

byte-IsByte : (bitmap : List ℕ) (i : ℕ) → All IsByte bitmap → get_or bitmap i 0 < 256
byte-IsByte bitmap i h = All-get_or IsByte bitmap i 0 h (omega arith)

byte_written :
    (bitmap : List ℕ) (i j x : ℕ)
    → i < length bitmap
    → get_or (set bitmap i x) j 0 ≡ (if i == j then x else get_or bitmap j 0)
byte_written bitmap i j x h = elim (Bool-cases (i == j)) [
  | inl here ↦ rw (here, ← (==_iff i j).0 here) (get_or-set_self bitmap i x 0 h)
  | inr apart ↦ rw apart (get_or-set_ne bitmap i j x 0 (λ e. ground arith))
]

module _ {size : ℕ} (bitmap : List ℕ) (h : IsBitmap size bitmap) (i : ℕ) where
  range :
      (bit_or (get_or bitmap (i / 8) 0) (mask i) < 256)
      × (bit_and (get_or bitmap (i / 8) 0) (255 - mask i) < 256)
  range =
      masks_range (get_or bitmap (i / 8) 0) (i % 8) 0 (byte-IsByte bitmap (i / 8) h.bytes)
        (omega arith) (omega arith)

  pub set_bit-IsBitmap : IsBitmap size (set_bit bitmap i)
  unfolding set_bit
  set_bit-IsBitmap = record {
    sized = length-set bitmap _ _ ∙ h.sized;
    bytes = All-set IsByte bitmap _ _ h.bytes range.0;
  }

  pub clear_bit-IsBitmap : IsBitmap size (clear_bit bitmap i)
  unfolding clear_bit
  clear_bit-IsBitmap = record {
    sized = length-set bitmap _ _ ∙ h.sized;
    bytes = All-set IsByte bitmap _ _ h.bytes range.1;
  }

  pub test_bit-set_bit :
      (j : ℕ)
      → i < 8 * size
      → test_bit (set_bit bitmap i) j ≡ (if i == j then true else test_bit bitmap j)
  unfolding test_bit set_bit
  test_bit-set_bit j inside = ground (
    arith,
    h.sized,
    byte_written bitmap (i / 8) (j / 8) (bit_or (get_or bitmap (i / 8) 0) (mask i)),
    has_bit-or (get_or bitmap (i / 8) 0) (i % 8) (j % 8) (byte-IsByte bitmap (i / 8) h.bytes),
  )

  pub test_bit-clear_bit :
      (j : ℕ)
      → i < 8 * size
      → test_bit (clear_bit bitmap i) j ≡ (if i == j then false else test_bit bitmap j)
  unfolding test_bit clear_bit
  test_bit-clear_bit j inside = ground (
    arith,
    h.sized,
    byte_written bitmap (i / 8) (j / 8) (bit_and (get_or bitmap (i / 8) 0) (255 - mask i)),
    has_bit-and (get_or bitmap (i / 8) 0) (i % 8) (j % 8) (byte-IsByte bitmap (i / 8) h.bytes),
  )

  pub count_set-set_bit :
      (n : ℕ)
      → i < 8 * size
      → test_bit bitmap i ≡ false
      → count_set (set_bit bitmap i) n ≡ count_set bitmap n + (if ltb i n then 1 else 0)
  unfolding count_set
  count_set-set_bit zero inside off = ground arith
  count_set-set_bit (suc n) inside off =
      ground (arith, test_bit-set_bit n inside, count_set-set_bit n inside off)

  pub count_set-clear_bit :
      (n : ℕ)
      → i < 8 * size
      → test_bit bitmap i ≡ true
      → count_set (clear_bit bitmap i) n + (if ltb i n then 1 else 0) ≡ count_set bitmap n
  unfolding count_set
  count_set-clear_bit zero inside on = ground arith
  count_set-clear_bit (suc n) inside on =
      ground (arith, test_bit-clear_bit n inside, count_set-clear_bit n inside on)

pub count_set-add_one :
    (bitmap : List ℕ) (n : ℕ)
    → count_set bitmap (n + 1) ≡ count_set bitmap n + (if test_bit bitmap n then 1 else 0)
unfolding count_set
count_set-add_one bitmap n = rw add-one

pub count_set-pos :
    (bitmap : List ℕ) (i n : ℕ) → i < n → test_bit bitmap i ≡ true → 0 < count_set bitmap n
unfolding count_set
count_set-pos bitmap i zero h on = absurd (omega arith)
count_set-pos bitmap i (suc n) h on = ground (arith, count_set-pos bitmap i n)

pub count_set-le : (bitmap : List ℕ) (n : ℕ) → count_set bitmap n ≤ n
unfolding count_set
count_set-le bitmap zero = omega arith
count_set-le bitmap (suc n) = ground (arith, count_set-le bitmap n)

-- A bitmap of a new file.
All-zeros : (n : ℕ) → All IsByte (replicate n 0)
unfolding replicate
All-zeros zero = tt
All-zeros (suc n) = (omega arith, All-zeros n)

get_or-zeros : (n i : ℕ) → ◌≡◌ {A = ℕ} (get_or (replicate n 0) i 0) 0
unfolding replicate
get_or-zeros zero i = refl
get_or-zeros (suc n) zero = refl
get_or-zeros (suc n) (suc i) = get_or-zeros n i

pub zeros-IsBitmap : (n : ℕ) → IsBitmap n (replicate n 0)
zeros-IsBitmap n = record { sized = length-replicate n 0; bytes = All-zeros n }

pub test_bit-zeros : (n i : ℕ) → test_bit (replicate n 0) i ≡ false
unfolding test_bit
test_bit-zeros n i = rw get_or-zeros (has_bit-zero (i % 8) (omega arith))
