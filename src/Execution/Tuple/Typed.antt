-- ===== src/Execution/Tuple/Typed.antt =====
-- What is read back has the types of the schema.
use resume_project.Common.{
  ℕ, ◌-◌, ◌≡◌, refl, sym, true, some, List, [], ◌∷◌, drop, arith, Option-cases, inl, inr,
}
use resume_project.Execution.Tuple.{
  Value, ValueType, int64_type, double_type, boolean_type, string_type, Column, type_of, same_type,
  validates, read_value, deserialize,
}

read_value-same_type :
    (ty : ValueType) (bytes : List ℕ) (n m : ℕ) (v : Value)
    → read_value ty bytes n ≡ some (v, m)
    → same_type (type_of v) ty ≡ true
unfolding read_value
read_value-same_type int64_type bytes n m v e = ground (arith, e)
read_value-same_type double_type bytes n m v e = ground (arith, e)
read_value-same_type boolean_type bytes n m v e = ground (arith, e)
read_value-same_type string_type bytes n m v e = ground (arith, e)

-- Whatever bytes and size `deserialize` is given, the values that it returns are of the schema's
-- number and types.
pub deserialize-validates :
    (schema : List Column) (bytes : List ℕ) (n : ℕ) (vs : List Value)
    → deserialize schema bytes n ≡ some vs
    → validates schema vs ≡ true
unfolding deserialize validates
deserialize-validates [] bytes n [] e = refl
deserialize-validates [] bytes n (v ∷ vs) e = absurd (ground (arith, e))
deserialize-validates (c ∷ cs) bytes n out e = elim (Option-cases (read_value c.type bytes n)) [
  | inl short ↦ absurd (ground (arith, e, short))
  | inr ((v, m), read) ↦ elim (Option-cases (deserialize cs (drop m bytes) (n - m))) [
    | inl short ↦ absurd (ground (arith, e, read, short))
    | inr (vs, rest) ↦
        let whole : v ∷ vs ≡ out = ground (arith, e, read, rest) in
        let ih = deserialize-validates cs (drop m bytes) (n - m) vs rest in
        rw (sym whole) (ground (arith, ih, read_value-same_type c.type bytes n m v read))
  ]
]
