-- ===== src/Execution/Tuple/Examples.antt =====
-- A row of a table with an integer, a text and a flag.
use resume_project.Common.{◌≡◌, refl, true, some, List, [], ◌∷◌, arith, All, get32, get64}
use resume_project.Execution.Tuple.{
  Value, integer, boolean, text, Column, int64_type, boolean_type, string_type, validates,
  deserialize, read_value,
}
use resume_project.Execution.Tuple.RoundTrip.{IsValue}
use resume_project.Execution.Tuple.Typed.{deserialize-validates}

abbrev pub schema : List Column
schema =
    record { name = b'a' ∷ []; type = int64_type }
    ∷ record { name = b'b' ∷ []; type = string_type }
    ∷ record { name = b'c' ∷ []; type = boolean_type }
    ∷ []

abbrev pub row : List Value
row = integer 70000 ∷ text (b'x' ∷ b'y' ∷ []) ∷ boolean true ∷ []

pub row-validates : validates schema row ≡ true
unfolding validates
row-validates = refl

pub row-IsValue : All IsValue row
row-IsValue = (omega arith, (omega arith, (tt, tt)))

row_read :
    deserialize schema (112 ∷ 17 ∷ 1 ∷ 0 ∷ 0 ∷ 0 ∷ 0 ∷ 0 ∷ 2 ∷ 0 ∷ 0 ∷ 0 ∷ b'x' ∷ b'y' ∷ 1 ∷ []) 15
    ≡ some row
unfolding deserialize read_value get32 get64
row_read = refl

deserialize-validates_example : validates schema row ≡ true
deserialize-validates_example =
    deserialize-validates schema
      (112 ∷ 17 ∷ 1 ∷ 0 ∷ 0 ∷ 0 ∷ 0 ∷ 0 ∷ 2 ∷ 0 ∷ 0 ∷ 0 ∷ b'x' ∷ b'y' ∷ 1 ∷ []) 15 row row_read
