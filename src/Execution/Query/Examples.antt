-- ===== src/Execution/Query/Examples.antt =====
-- A world of one table and one index that counts its calls, in which a record id of another page is
-- refused, and a query over it: the row with the key 3 joined with the rows whose first column is at
-- least 2, sorted downwards.
use resume_project.Common.{
  ℕ, ◌+◌, ◌≡◌, ◌≤◌, refl, false, Option, none, some, List, [], ◌∷◌, ltb, ◌==◌, if◌then◌else◌, ok,
  err, ap,
}
use resume_project.Index.Key.{rank}
use resume_project.Index.Node.{RecordId}
use resume_project.Transactions.Errors.{out_of_bounds}
use resume_project.Execution.Tuple.{integer, Doubles, compare_values}
use resume_project.Execution.Query.{
  Row, Outcome, op_ge, matches, holds_for, sort_rows, insert_row, row_less, value_equal, join_row,
  join_rows,
}
use resume_project.Execution.Query.Pull.{
  Plan, seq_scan, index_scan, filter, sort, join, Catalog, run,
}
use resume_project.Execution.Query.Gives.{Answers, filter_rows, row_under}
use resume_project.Execution.Query.Refined.{eval, run-eval}

-- The operations on doubles do not matter here.
abbrev doubles : Doubles
doubles = record {
  less = λ a b. ltb a b;
  equal = λ a b. a == b;
  add = λ a b. a;
  divide = λ a b. a;
  of_int64 = λ a. a;
  of_size = λ a. a;
}

abbrev table : List Row
table = (integer 1 ∷ []) ∷ (integer 2 ∷ []) ∷ (integer 3 ∷ []) ∷ []

abbrev third : RecordId
third = record { page_id = 4; slot_id = 2 }

abbrev found_at : ℕ → Option RecordId
found_at key = if key == 3 then some third else none

-- Only page 4 is allocated.
abbrev row_at : RecordId → Outcome (Option Row)
row_at r = if r.page_id == 4 then ok (some (integer 3 ∷ [])) else err out_of_bounds

abbrev catalog : Catalog ℕ
catalog = record {
  scan = λ t w. (ok table, w + 1);
  find = λ x key w. (ok (found_at key), w + 1);
  fetch = λ t r w. (row_at r, w + 1);
}

abbrev answers : Answers catalog
answers = record {
  IsGood = λ w. Unit;
  tables = λ t. ok table;
  keys = λ x key. ok (found_at key);
  rows = λ t r. row_at r;
  scans = λ t w ts e good. (w + 1, ap (λ a. (a, w + 1)) e, tt);
  finds = λ x key w r e good. (w + 1, ap (λ a. (a, w + 1)) e, tt);
  fetches = λ t r w o e good. (w + 1, ap (λ a. (a, w + 1)) e, tt);
}

abbrev query : Plan
query =
    join (index_scan 0 0 3)
      (sort (filter (seq_scan 0) (record { column = 0; op = op_ge; value = integer 2 }))
        (record { column = 0; ascending = false } ∷ []))
      0 0

abbrev result : List Row
result = (integer 3 ∷ integer 3 ∷ []) ∷ []

query_means : eval doubles catalog answers query ≡ ok result
unfolding eval filter_rows matches holds_for compare_values sort_rows insert_row row_less rank
    row_under value_equal join_row join_rows
query_means = refl

run-eval_example :
    (n : ℕ) × ((fuel w : ℕ)
      → n ≤ fuel
      → Unit {0}
      → (v : ℕ) × (run doubles catalog fuel query w ≡ (ok result, v)) × Unit {0})
run-eval_example = run-eval doubles catalog answers query result query_means
