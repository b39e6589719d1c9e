-- ===== src/Execution/Query.antt =====
-- What the executors of include/ddb/execution/executor.h compute from rows: predicates, projections,
-- the sort, the aggregates and the join.
pub mod Pull
pub mod Gives
pub mod Drained
pub mod Refined
mod Examples
use Prim.Native.Nat.{Ordering}
use resume_project.Common.{
  ℕ, zero, suc, ◌+◌, ◌%◌, ◌^◌, Bool, true, false, not, ◌&&◌, ◌||◌, Option, none, some, List, [],
  ◌∷◌, ◌++◌, length, get_elem?, ◌==◌, if◌then◌else◌, Result, ok, err, ◌>>=◌, ◌>>◌, same_bytes,
}
use resume_project.Transactions.Errors.{
  EngineError, unlike_values, sum_not_numeric, column_out_of_range, out_of_bounds,
}
use resume_project.Execution.Tuple.{Value, integer, number, boolean, text, Doubles, compare_values}

-- A tuple is its values.
abbrev pub Row : Type 0
Row = List Value

abbrev pub Outcome : Type 0 → Type 0
Outcome A = Result EngineError A

abbrev pub or_fail : {A : Type 0} → Option A → EngineError → Outcome A
or_fail none e = err e
or_fail (some a) e = ok a

-- `t.values.at(c)` and `t.values[c]`
abbrev pub column_at : Row → ℕ → Outcome Value
column_at t c = or_fail (get_elem? t c) column_out_of_range

abbrev pub column_of : Row → ℕ → Outcome Value
column_of t c = or_fail (get_elem? t c) out_of_bounds

pub data Op : Type 0 where
  op_eq op_ne op_lt op_le op_gt op_ge : Op

pub record Predicate : Type 0 where
  pub column : ℕ
  pub op : Op
  pub value : Value

abbrev pub is_lt : Ordering → Bool
is_lt c = elim c [ Ordering.lt ↦ true | Ordering.eq ↦ false | Ordering.gt ↦ false ]

abbrev pub is_eq : Ordering → Bool
is_eq c = elim c [ Ordering.lt ↦ false | Ordering.eq ↦ true | Ordering.gt ↦ false ]

abbrev pub is_gt : Ordering → Bool
is_gt c = elim c [ Ordering.lt ↦ false | Ordering.eq ↦ false | Ordering.gt ↦ true ]

unfoldable pub holds_for : Op → Ordering → Bool
holds_for op_eq c = is_eq c
holds_for op_ne c = not (is_eq c)
holds_for op_lt c = is_lt c
holds_for op_le c = not (is_gt c)
holds_for op_gt c = is_gt c
holds_for op_ge c = not (is_lt c)

pub record SortKey : Type 0 where
  pub column : ℕ
  pub ascending : Bool

pub data AggregateKind : Type 0 where
  count sum min max avg : AggregateKind

pub record AggregateSpec : Type 0 where
  pub kind : AggregateKind
  pub column : Option ℕ

unfoldable pub project : List ℕ → Row → Outcome Row
project [] t = ok []
project (c ∷ cs) t = do v ← column_at t c; vs ← project cs t; ok (v ∷ vs)

module _ (d : Doubles) where
  unfoldable pub matches : Predicate → Row → Outcome Bool
  matches p t = do
    v ← column_at t p.column
    c ← or_fail (compare_values d v p.value) unlike_values
    ok (holds_for p.op c)

  -- `Value`'s `==`
  unfoldable pub value_equal : Value → Value → Bool
  value_equal (integer a) (integer b) = a == b
  value_equal (number a) (number b) = d.equal a b
  value_equal (boolean a) (boolean b) = if a then b else not b
  value_equal (text a) (text b) = same_bytes a b
  value_equal a b = false

  -- The comparison of `SortExecutor`.
  unfoldable pub row_less : List SortKey → Row → Row → Outcome Bool
  row_less [] a b = ok false
  row_less (k ∷ ks) a b = do
    x ← column_at a k.column
    y ← column_at b k.column
    c ← or_fail (compare_values d x y) unlike_values
    if is_eq c then row_less ks a b else ok (if k.ascending then is_lt c else is_gt c)

  -- `std::stable_sort`: a row goes in front of the first one of those behind it that is not less.
  -- Where the comparison is no strict weak order (a NaN among the keys) or meets unlike values, what
  -- the source's sort compares, and so its result, is its own affair.
  unfoldable pub insert_row : List SortKey → Row → List Row → Outcome (List Row)
  insert_row keys t [] = ok (t ∷ [])
  insert_row keys t (u ∷ us) =
      let rest = insert_row keys t us in
      row_less keys u t >>= λ less. if less then (rest >>= λ vs. ok (u ∷ vs)) else ok (t ∷ u ∷ us)

  unfoldable pub sort_rows : List SortKey → List Row → Outcome (List Row)
  sort_rows keys [] = ok []
  sort_rows keys (t ∷ ts) = sort_rows keys ts >>= insert_row keys t

  -- `all_of` over the grouping columns
  unfoldable pub same_group : List ℕ → Row → Row → Outcome Bool
  same_group [] a b = ok true
  same_group (c ∷ cs) a b = do
    x ← column_of a c
    y ← column_of b c
    if value_equal x y then same_group cs a b else ok false

  -- The row into the first bucket of its group, or a new one at the end.
  unfoldable pub put_row : List ℕ → Row → List (List Row) → Outcome (List (List Row))
  put_row groups t [] = ok ((t ∷ []) ∷ [])
  put_row groups t ([] ∷ bs) = put_row groups t bs >>= λ cs. ok ([] ∷ cs)
  put_row groups t ((u ∷ us) ∷ bs) =
      let rest = put_row groups t bs in
      same_group groups u t >>= λ same.
      if same then ok ((u ∷ (us ++ t ∷ [])) ∷ bs) else (rest >>= λ cs. ok ((u ∷ us) ∷ cs))

  unfoldable pub buckets_from : List ℕ → List Row → List (List Row) → Outcome (List (List Row))
  buckets_from groups [] bs = ok bs
  buckets_from groups (t ∷ ts) bs = put_row groups t bs >>= buckets_from groups ts

  unfoldable pub buckets_of : List ℕ → List Row → Outcome (List (List Row))
  buckets_of [] rows = ok (rows ∷ [])
  buckets_of (g ∷ gs) rows = buckets_from (g ∷ gs) rows []

  -- MIN and MAX from `v` on: `better` is the test of a comparison with the best so far.
  unfoldable pub best : (Ordering → Bool) → ℕ → Value → List Row → Outcome Value
  best better c v [] = ok v
  best better c v (t ∷ ts) = do
    x ← column_of t c
    o ← or_fail (compare_values d x v) unlike_values
    best better c (if better o then x else v) ts

  unfoldable pub as_double : Value → Outcome ℕ
  as_double (integer v) = ok (d.of_int64 v)
  as_double (number v) = ok v
  as_double (boolean b) = err sum_not_numeric
  as_double (text s) = err sum_not_numeric

  -- `double sum = 0` has no bit set.
  unfoldable pub sum_from : ℕ → ℕ → List Row → Outcome ℕ
  sum_from c acc [] = ok acc
  sum_from c acc (t ∷ ts) = do v ← column_of t c; x ← as_double v; sum_from c (d.add acc x) ts

  -- One aggregate of a bucket whose first row is `t`.
  unfoldable pub aggregate_of : AggregateKind → ℕ → Row → List Row → Outcome Value
  aggregate_of count c t ts = ok (integer (length (t ∷ ts) % 2 ^ 64))
  aggregate_of min c t ts = column_of t c >>= λ v. best is_lt c v (t ∷ ts)
  aggregate_of max c t ts = column_of t c >>= λ v. best is_gt c v (t ∷ ts)
  aggregate_of sum c t ts = sum_from c 0 (t ∷ ts) >>= λ s. ok (number s)
  aggregate_of avg c t ts =
      sum_from c 0 (t ∷ ts) >>= λ s. ok (number (d.divide s (d.of_size (length (t ∷ ts)))))

  -- The aggregates of a bucket: of an empty one only COUNT gives a value. `*a.column` of an empty
  -- optional is undefined; COUNT does not look at it.
  unfoldable pub aggregates_of : List AggregateSpec → List Row → Outcome Row
  aggregates_of [] b = ok []
  aggregates_of (a ∷ as_) [] =
      let rest = aggregates_of as_ [] in
      elim a.kind [
        | count ↦ (rest >>= λ vs. ok (integer 0 ∷ vs))
        | sum ↦ rest
        | min ↦ rest
        | max ↦ rest
        | avg ↦ rest
      ]
  aggregates_of (a ∷ as_) (t ∷ ts) = do
    c ← elim a.kind [
      | count ↦ ok 0
      | sum ↦ or_fail a.column out_of_bounds
      | min ↦ or_fail a.column out_of_bounds
      | max ↦ or_fail a.column out_of_bounds
      | avg ↦ or_fail a.column out_of_bounds
    ]
    v ← aggregate_of a.kind c t ts
    vs ← aggregates_of as_ (t ∷ ts)
    ok (v ∷ vs)

  unfoldable pub columns_of : List ℕ → Row → Outcome Row
  columns_of [] t = ok []
  columns_of (c ∷ cs) t = do v ← column_of t c; vs ← columns_of cs t; ok (v ∷ vs)

  unfoldable pub bucket_row : List AggregateSpec → List ℕ → List Row → Outcome Row
  bucket_row specs groups [] = aggregates_of specs []
  bucket_row specs groups (t ∷ ts) = do
    key ← columns_of groups t
    vs ← aggregates_of specs (t ∷ ts)
    ok (key ++ vs)

  unfoldable pub bucket_rows : List AggregateSpec → List ℕ → List (List Row) → Outcome (List Row)
  bucket_rows specs groups [] = ok []
  bucket_rows specs groups (b ∷ bs) = do
    row ← bucket_row specs groups b
    rows ← bucket_rows specs groups bs
    ok (row ∷ rows)

  unfoldable pub aggregate_rows : List AggregateSpec → List ℕ → List Row → Outcome (List Row)
  aggregate_rows specs groups rows = buckets_of groups rows >>= bucket_rows specs groups

  -- One left row against the right ones.
  unfoldable pub join_row : ℕ → ℕ → Row → List Row → Outcome (List Row)
  join_row a b t [] = ok []
  join_row a b t (r ∷ rs) = do
    x ← column_at t a
    y ← column_at r b
    rest ← join_row a b t rs
    ok (if value_equal x y then (t ++ r) ∷ rest else rest)

  unfoldable pub join_rows : ℕ → ℕ → List Row → List Row → Outcome (List Row)
  join_rows a b [] rs = ok []
  join_rows a b (t ∷ ts) rs = do
    joined ← join_row a b t rs
    rest ← join_rows a b ts rs
    ok (joined ++ rest)
