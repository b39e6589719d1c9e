-- ===== src/Execution/Tuple/RoundTrip.antt =====
-- A tuple comes back from its bytes.
use resume_project.Common.{
  ℕ, ◌+◌, ◌-◌, ◌%◌, ◌^◌, ◌<◌, ◌≡◌, refl, ap, ◌∙◌, Bool, true, false, ◌&&◌, some, List, [], ◌∷◌,
  ◌++◌, append_assoc, length, length-append, drop, take-append, drop-append, arith, IsU64, All,
  put32, put64, get32, get32-put32, get64-put64,
}
use resume_project.Execution.Tuple.{
  Value, integer, number, boolean, text, ValueType, Column, type_of, same_type, validates,
  value_bytes, values_bytes, serialize, read_value, deserialize,
}

-- The values that the types of the source have, texts of less than 2^32 bytes.
abbrev pub IsValue : Value → Type 0
IsValue (integer v) = IsU64 v
IsValue (number v) = IsU64 v
IsValue (boolean b) = Unit
IsValue (text s) = length s < 2 ^ 32

read_value-value_bytes :
    (v : Value) (rest : List ℕ) (n : ℕ)
    → IsValue v
    → read_value (type_of v) (value_bytes v ++ rest) (length (value_bytes v) + n)
      ≡ some (v, length (value_bytes v))
unfolding read_value value_bytes
read_value-value_bytes (integer v) rest n h =
    let size : length (put64 v) ≡ 8 = unfold put64 in refl in
    rw (size, get64-put64 v rest h) (ground arith)
read_value-value_bytes (number v) rest n h =
    let size : length (put64 v) ≡ 8 = unfold put64 in refl in
    rw (size, get64-put64 v rest h) (ground arith)
read_value-value_bytes (boolean true) rest n h = ground arith
read_value-value_bytes (boolean false) rest n h = ground arith
read_value-value_bytes (text s) rest n h =
    let fits : length s % 2 ^ 32 ≡ length s = omega (arith, h) in
    let whole : length (put32 (length s) ++ s) ≡ 4 + length s = unfold put32 in omega arith in
    let size : get32 ((put32 (length s) ++ s) ++ rest) 0 ≡ length s =
      ap (λ b. get32 b 0) (append_assoc (put32 (length s)) s rest)
      ∙ get32-put32 (length s) (s ++ rest) h in
    let behind : drop 4 ((put32 (length s) ++ s) ++ rest) ≡ s ++ rest = unfold put32 in refl in
    rw (fits, whole, size, behind, take-append s rest) (ground arith)

and-both : (a b : Bool) → (a && b) ≡ true → (a ≡ true) × (b ≡ true)
and-both a b e = ground arith

deserialize-step :
    (c : Column) (cs : List Column) (v : Value) (bytes : List ℕ) (n m : ℕ) (vs : List Value)
    → read_value c.type bytes n ≡ some (v, m)
    → deserialize cs (drop m bytes) (n - m) ≡ some vs
    → deserialize (c ∷ cs) bytes n ≡ some (v ∷ vs)
unfolding deserialize
deserialize-step c cs v bytes n m vs first rest = simp (deserialize, first, rest) refl

same_type-eq : (a b : ValueType) → same_type a b ≡ true → b ≡ a
same_type-eq a b e = ground arith

-- What the schema admits, and what the values are.
pub deserialize-values_bytes :
    (schema : List Column) (vs : List Value) (rest : List ℕ)
    → validates schema vs ≡ true
    → All IsValue vs
    → deserialize schema (values_bytes vs ++ rest) (length (values_bytes vs)) ≡ some vs
unfolding deserialize values_bytes validates
deserialize-values_bytes [] [] rest e h = refl
deserialize-values_bytes [] (v ∷ vs) rest e h = absurd (ground arith)
deserialize-values_bytes (c ∷ cs) [] rest e h = absurd (ground arith)
deserialize-values_bytes (c ∷ cs) (v ∷ vs) rest e h =
    let both = and-both (same_type (type_of v) c.type) (validates cs vs) e in
    let same : c.type ≡ type_of v = same_type-eq (type_of v) c.type both.0 in
    let ih = deserialize-values_bytes cs vs rest both.1 h.1 in
    let first = read_value-value_bytes v (values_bytes vs ++ rest) (length (values_bytes vs)) h.0 in
    rw
      (
        append_assoc (value_bytes v) (values_bytes vs) rest,
        length-append (value_bytes v) (values_bytes vs),
      )
      (deserialize-step c cs v (value_bytes v ++ (values_bytes vs ++ rest))
        (length (value_bytes v) + length (values_bytes vs)) (length (value_bytes v)) vs
        (rw same first)
        (rw
          (
            drop-append (value_bytes v) (values_bytes vs ++ rest),
            add_sub (length (value_bytes v)) (length (values_bytes vs)),
          )
          ih))
  where
    add_sub : (a b : ℕ) → a + b - a ≡ b
    add_sub a b = omega arith

-- A tuple that the schema validates is read back from its bytes, with any others behind them.
pub deserialize-serialize :
    (schema : List Column) (t : List Value) (rest : List ℕ)
    → validates schema t ≡ true
    → All IsValue t
    → (bytes : List ℕ) × (serialize schema t ≡ some bytes)
      × (deserialize schema (bytes ++ rest) (length bytes) ≡ some t)
unfolding serialize
deserialize-serialize schema t rest e h =
    (values_bytes t, rw e, deserialize-values_bytes schema t rest e h)
