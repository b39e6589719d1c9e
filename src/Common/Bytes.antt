-- ===== src/Common/Bytes.antt =====
-- Little-endian fields in a sequence of bytes. Each source file has its own copy of these helpers
-- (put16, put32, put64, get16, get32, get64); they are one definition here.
use Prim.Native.Nat.{ℕ, ◌+◌, ◌*◌, ◌/◌, ◌%◌, ◌^◌, ◌≤◌, ◌<◌}
use mathlib.Core.Path.{◌≡◌}
use mathlib.Core.Bool.{Bool, true, false, ◌&&◌}
use mathlib.Core.List.{List, [], ◌∷◌, ◌++◌}
use native.Mathlib.Omega.{arith}
use resume_project.Common.Lists.{get_or, length, get_or-append_left, get_or-append_right}
use resume_project.Common.Tests.{◌==◌}

abbrev pub IsByte : ℕ → Type 0
IsByte b = b < 256

abbrev pub IsU16 : ℕ → Type 0
IsU16 v = v < 2 ^ 16

abbrev pub IsU32 : ℕ → Type 0
IsU32 v = v < 2 ^ 32

abbrev pub IsU64 : ℕ → Type 0
IsU64 v = v < 2 ^ 64

-- byte number `i` of `v`: `(v >> (i * 8)) & 0xff`
abbrev pub byte_of : ℕ → ℕ → ℕ
byte_of v i = v / 2 ^ (i * 8) % 256

unfoldable pub put16 : ℕ → List ℕ
put16 v = byte_of v 0 ∷ byte_of v 1 ∷ []

unfoldable pub put32 : ℕ → List ℕ
put32 v = byte_of v 0 ∷ byte_of v 1 ∷ byte_of v 2 ∷ byte_of v 3 ∷ []

unfoldable pub put64 : ℕ → List ℕ
put64 v =
    byte_of v 0
    ∷ byte_of v 1
    ∷ byte_of v 2
    ∷ byte_of v 3
    ∷ byte_of v 4
    ∷ byte_of v 5
    ∷ byte_of v 6
    ∷ byte_of v 7
    ∷ []

-- The shifted bytes do not overlap, so that `|` adds. A byte past the end reads as 0: every caller
-- has tested the size before.
abbrev pub byte_at : List ℕ → ℕ → ℕ → ℕ
byte_at bytes at i = get_or bytes (at + i) 0 * 2 ^ (i * 8)

unfoldable pub get16 : List ℕ → ℕ → ℕ
get16 bytes at = byte_at bytes at 0 + byte_at bytes at 1

unfoldable pub get32 : List ℕ → ℕ → ℕ
get32 bytes at = byte_at bytes at 0 + byte_at bytes at 1 + byte_at bytes at 2 + byte_at bytes at 3

unfoldable pub get64 : List ℕ → ℕ → ℕ
get64 bytes at =
    byte_at bytes at 0
    + byte_at bytes at 1
    + byte_at bytes at 2
    + byte_at bytes at 3
    + byte_at bytes at 4
    + byte_at bytes at 5
    + byte_at bytes at 6
    + byte_at bytes at 7

-- `std::equal` and `memcmp` over two byte strings
unfoldable pub same_bytes : List ℕ → List ℕ → Bool
same_bytes [] [] = true
same_bytes [] (y ∷ ys) = false
same_bytes (x ∷ xs) [] = false
same_bytes (x ∷ xs) (y ∷ ys) = x == y && same_bytes xs ys

pub get16-put16 : (v : ℕ) (rest : List ℕ) → IsU16 v → get16 (put16 v ++ rest) 0 ≡ v
unfolding get16 put16
get16-put16 v rest h = omega arith

pub get32-put32 : (v : ℕ) (rest : List ℕ) → IsU32 v → get32 (put32 v ++ rest) 0 ≡ v
unfolding get32 put32
get32-put32 v rest h = omega arith

pub get64-put64 : (v : ℕ) (rest : List ℕ) → IsU64 v → get64 (put64 v ++ rest) 0 ≡ v
unfolding get64 put64
get64-put64 v rest h = omega arith

pub get32-append_right : (xs ys : List ℕ) → get32 (xs ++ ys) (length xs) ≡ get32 ys 0
unfolding get32
get32-append_right xs ys = simp get_or-append_right

pub get32-append_left :
    (xs ys : List ℕ) (at : ℕ) → at + 4 ≤ length xs → get32 (xs ++ ys) at ≡ get32 xs at
unfolding get32
get32-append_left xs ys at h = ground (
  arith,
  get_or-append_left xs ys (at + 0) 0,
  get_or-append_left xs ys (at + 1) 0,
  get_or-append_left xs ys (at + 2) 0,
  get_or-append_left xs ys (at + 3) 0,
)
