-- ===== src/Execution/Tuple.antt =====
-- Values, schemas and tuples of include/ddb/execution/tuple.h, and the bytes of a tuple in
-- src/execution/table_heap.cpp.
pub mod RoundTrip
pub mod Typed
pub mod Examples
use Prim.Native.Nat.{Ordering}
use resume_project.Common.{
  ℕ, ◌+◌, ◌-◌, ◌%◌, ◌^◌, Bool, true, false, not, ◌&&◌, Option, none, some, List, [], ◌∷◌, ◌++◌,
  length, take, drop, get_or, ltb, ◌==◌, if◌then◌else◌, put32, put64, get32, get64,
}
use resume_project.Index.Key.{precedes}

-- An int64_t and a double are their 64 bits; a text is its bytes.
pub data Value : Type 0 where
  integer : ℕ → Value
  number : ℕ → Value
  boolean : Bool → Value
  text : List ℕ → Value

pub data ValueType : Type 0 where
  int64_type double_type boolean_type string_type : ValueType

-- `static_cast<ValueType>(v.index())`
abbrev pub type_of : Value → ValueType
type_of (integer v) = int64_type
type_of (number v) = double_type
type_of (boolean v) = boolean_type
type_of (text v) = string_type

abbrev pub same_type : ValueType → ValueType → Bool
same_type int64_type int64_type = true
same_type double_type double_type = true
same_type boolean_type boolean_type = true
same_type string_type string_type = true
same_type a b = false

pub record Column : Type 0 where
  pub name : List ℕ
  pub type : ValueType

-- A `Schema` is its columns, a `Tuple` its values.
unfoldable pub validates : List Column → List Value → Bool
validates [] [] = true
validates [] (v ∷ vs) = false
validates (c ∷ cs) [] = false
validates (c ∷ cs) (v ∷ vs) = same_type (type_of v) c.type && validates cs vs

-- `std::string`'s `<`
unfoldable pub text_less : List ℕ → List ℕ → Bool
text_less [] [] = false
text_less [] (y ∷ ys) = true
text_less (x ∷ xs) [] = false
text_less (x ∷ xs) (y ∷ ys) = if x == y then text_less xs ys else ltb x y

-- The operations on a double, which the hardware gives.
pub record Doubles : Type 0 where
  pub less : ℕ → ℕ → Bool
  pub equal : ℕ → ℕ → Bool
  pub add : ℕ → ℕ → ℕ
  pub divide : ℕ → ℕ → ℕ
  pub of_int64 : ℕ → ℕ
  pub of_size : ℕ → ℕ

-- `x < y ? -1 : (x > y ? 1 : 0)`
abbrev pub order_by : {A : Type 0} → (A → A → Bool) → A → A → Ordering
order_by less x y = if less x y then Ordering.lt else if less y x then Ordering.gt else Ordering.eq

-- `none` is the exception for unlike values.
unfoldable pub compare_values : Doubles → Value → Value → Option Ordering
compare_values d (integer a) (integer b) = some (order_by precedes a b)
compare_values d (number a) (number b) = some (order_by d.less a b)
compare_values d (boolean a) (boolean b) = some (order_by (λ x y. not x && y) a b)
compare_values d (text a) (text b) = some (order_by text_less a b)
compare_values d a b = none

-- A text's size is cast to 32 bits.
unfoldable pub value_bytes : Value → List ℕ
value_bytes (integer v) = put64 v
value_bytes (number v) = put64 v
value_bytes (boolean true) = 1 ∷ []
value_bytes (boolean false) = 0 ∷ []
value_bytes (text s) = put32 (length s % 2 ^ 32) ++ s

unfoldable pub values_bytes : List Value → List ℕ
values_bytes [] = []
values_bytes (v ∷ vs) = value_bytes v ++ values_bytes vs

-- `none` is the exception for a tuple that does not match.
unfoldable pub serialize : List Column → List Value → Option (List ℕ)
serialize schema t = if validates schema t then some (values_bytes t) else none

-- One column at the front of `bytes`, of which `n` are the tuple's: the value and its size.
unfoldable pub read_value : ValueType → List ℕ → ℕ → Option (Value × ℕ)
read_value int64_type bytes n = if ltb n 8 then none else some (integer (get64 bytes 0), 8)
read_value double_type bytes n = if ltb n 8 then none else some (number (get64 bytes 0), 8)
read_value boolean_type bytes n =
    if ltb n 1 then none else some (boolean (not (get_or bytes 0 0 == 0)), 1)
read_value string_type bytes n =
    let size = get32 bytes 0 in
    if ltb n 4
    then none
    else if ltb n (4 + size)
    then none
    else some (text (take size (drop 4 bytes)), 4 + size)

-- The position `p` of the source is the bytes dropped so far; `n` is what is left up to its `n`.
unfoldable pub deserialize : List Column → List ℕ → ℕ → Option (List Value)
deserialize [] bytes n = if n == 0 then some [] else none
deserialize (c ∷ cs) bytes n = elim (read_value c.type bytes n) [
  | none ↦ none
  | some r ↦ elim (deserialize cs (drop r.1 bytes) (n - r.1)) [
    | none ↦ none
    | some vs ↦ some (r.0 ∷ vs)
  ]
]
