-- ===== src/Execution/Query/Gives.antt =====
-- What the state of an executor stands for, over tables and indexes that answer alike each time.
use resume_project.Common.{
  ℕ, ◌+◌, ◌≡◌, true, false, Option, none, some, List, [], ◌∷◌, length, ok, ◌>>=◌, if◌then◌else◌,
}
use resume_project.Index.Node.{RecordId}
use resume_project.Execution.Tuple.{Doubles}
use resume_project.Execution.Query.{Row, Outcome, Predicate, project, matches}
use resume_project.Execution.Query.Pull.{
  Executor, scanning, looking_up, filtering, projecting, sorting, aggregating, joining, Catalog,
}

unfoldable pub filter_rows : Doubles → Predicate → List Row → Outcome (List Row)
filter_rows d p [] = ok []
filter_rows d p (t ∷ ts) = do
  fits ← matches d p t
  rest ← filter_rows d p ts
  ok (if fits then t ∷ rest else rest)

unfoldable pub project_rows : List ℕ → List Row → Outcome (List Row)
project_rows cols [] = ok []
project_rows cols (t ∷ ts) = do vs ← project cols t; rest ← project_rows cols ts; ok (vs ∷ rest)

abbrev pub rows_in : Option Row → List Row
rows_in none = []
rows_in (some t) = t ∷ []

-- Worlds in which the tables and indexes answer alike, whatever the calls count and reorder. A call
-- that the world gives no answer to (a record id of no page, say) may throw or do anything.
pub record Answers {W : Type 0} (catalog : Catalog W) : Type 1 where
  pub IsGood : W → Type 0
  pub tables : ℕ → Outcome (List Row)
  pub keys : ℕ → ℕ → Outcome (Option RecordId)
  pub rows : ℕ → RecordId → Outcome (Option Row)
  pub scans :
      (t : ℕ) (w : W) (ts : List Row)
      → tables t ≡ ok ts
      → IsGood w
      → (v : W) × (catalog.scan t w ≡ (ok ts, v)) × IsGood v
  pub finds :
      (x key : ℕ) (w : W) (r : Option RecordId)
      → keys x key ≡ ok r
      → IsGood w
      → (v : W) × (catalog.find x key w ≡ (ok r, v)) × IsGood v
  pub fetches :
      (t : ℕ) (r : RecordId) (w : W) (o : Option Row)
      → rows t r ≡ ok o
      → IsGood w
      → (v : W) × (catalog.fetch t r w ≡ (ok o, v)) × IsGood v

module _ {W : Type 0} (d : Doubles) (catalog : Catalog W) (world : Answers catalog) where
  open world use {IsGood, keys, rows, finds, fetches}

  -- The row behind a key.
  unfoldable pub row_under : ℕ → Option RecordId → Outcome (Option Row)
  row_under t none = ok none
  row_under t (some r) = rows t r

  abbrev pub row_of : ℕ → ℕ → ℕ → Outcome (Option Row)
  row_of t x key = keys x key >>= row_under t

  -- The rows that are still to come.
  abbrev pub Gives : Executor → List Row → Type 0
  Gives (scanning t rs) out = rs ≡ out
  Gives (looking_up t x key true) out = [] ≡ out
  Gives (looking_up t x key false) out =
      (o : Option Row) × (row_of t x key ≡ ok o) × (rows_in o ≡ out)
  Gives (filtering c p) out = (rs : List Row) × Gives c rs × (filter_rows d p rs ≡ ok out)
  Gives (projecting c cols) out = (rs : List Row) × Gives c rs × (project_rows cols rs ≡ ok out)
  Gives (sorting c keys rs) out = rs ≡ out
  Gives (aggregating c specs groups rs) out = rs ≡ out
  Gives (joining l r a b rs) out = rs ≡ out

-- How much fuel a call wants.
unfoldable pub weight : Executor → ℕ
weight (scanning t rs) = length rs + 1
weight (looking_up t x key true) = 1
weight (looking_up t x key false) = 2
weight (filtering c p) = weight c + 1
weight (projecting c cols) = weight c + 1
weight (sorting c keys rs) = length rs + 1
weight (aggregating c specs groups rs) = length rs + 1
weight (joining l r a b rs) = length rs + 1
