-- ===== src/Execution/Query/Pull.antt =====
-- The plans and executors of include/ddb/execution/executor.h: `make_executor`, `init` and `next`.
-- The fuel of the three bounds the depth of the plan and the rows that one call goes through.
use resume_project.Common.{ℕ, zero, suc, Bool, true, false, Option, none, some, List, [], ◌∷◌, ◌++◌}
use resume_project.Common.Action.{Action, pure, throw, ◌>>=◌}
use resume_project.Transactions.Errors.{EngineError, out_of_fuel}
use resume_project.Index.Node.{RecordId}
use resume_project.Execution.Tuple.{Doubles}
use resume_project.Execution.Query.{
  Row, Outcome, Predicate, SortKey, AggregateSpec, project, matches, sort_rows, aggregate_rows,
  join_row,
}

-- A plan names its tables and indexes.
pub data Plan : Type 0 where
  seq_scan : ℕ → Plan
  index_scan : ℕ → ℕ → ℕ → Plan
  filter : Plan → Predicate → Plan
  projection : Plan → List ℕ → Plan
  sort : Plan → List SortKey → Plan
  aggregate : Plan → List AggregateSpec → List ℕ → Plan
  join : Plan → Plan → ℕ → ℕ → Plan

-- An executor with its state: the rows that are still to come, or `done_`.
pub data Executor : Type 0 where
  scanning : ℕ → List Row → Executor
  looking_up : ℕ → ℕ → ℕ → Bool → Executor
  filtering : Executor → Predicate → Executor
  projecting : Executor → List ℕ → Executor
  sorting : Executor → List SortKey → List Row → Executor
  aggregating : Executor → List AggregateSpec → List ℕ → List Row → Executor
  joining : Executor → Executor → ℕ → ℕ → List Row → Executor

-- What executors ask of the tables and indexes of a world `W`.
pub record Catalog (W : Type 0) : Type 0 where
  pub scan : ℕ → Action W EngineError (List Row)
  pub find : ℕ → ℕ → Action W EngineError (Option RecordId)
  pub fetch : ℕ → RecordId → Action W EngineError (Option Row)

unfoldable pub make_executor : Plan → Executor
make_executor (seq_scan t) = scanning t []
make_executor (index_scan t x key) = looking_up t x key false
make_executor (filter c p) = filtering (make_executor c) p
make_executor (projection c cols) = projecting (make_executor c) cols
make_executor (sort c keys) = sorting (make_executor c) keys []
make_executor (aggregate c specs groups) = aggregating (make_executor c) specs groups []
make_executor (join l r a b) = joining (make_executor l) (make_executor r) a b []

-- `none` is the result false of `next`.
abbrev pub Pulled : Type 0
Pulled = Option Row × Executor

-- A materialized executor's `next`.
abbrev pub take_row : List Row → (List Row → Executor) → Pulled
take_row [] rest = (none, rest [])
take_row (t ∷ ts) rest = (some t, rest ts)

module _ {W : Type 0} (d : Doubles) (catalog : Catalog W) where
  open catalog use {scan, find, fetch}

  abbrev pub WorldAction : Type 0 → Type 0
  WorldAction A = Action W EngineError A

  abbrev pub lift : {A : Type 0} → Outcome A → WorldAction A
  lift r w = (r, w)

  unfoldable pub look_up : ℕ → ℕ → ℕ → WorldAction Pulled
  look_up t x key = do
    found ← find x key
    elim found [
      | none ↦ pure (none, looking_up t x key true)
      | some r ↦ do row ← fetch t r; pure (row, looking_up t x key true)
    ]

  unfoldable pub next : ℕ → Executor → WorldAction Pulled
  next zero e = throw out_of_fuel
  next (suc fuel) (scanning t rows) = pure (take_row rows (scanning t))
  next (suc fuel) (looking_up t x key true) = pure (none, looking_up t x key true)
  next (suc fuel) (looking_up t x key false) = look_up t x key
  next (suc fuel) (filtering c p) = do
    pulled ← next fuel c
    elim pulled.0 [
      | none ↦ pure (none, filtering pulled.1 p)
      | some t ↦ do
        fits ← lift (matches d p t)
        elim fits [
          | true ↦ pure (some t, filtering pulled.1 p)
          | false ↦ next fuel (filtering pulled.1 p)
        ]
    ]
  next (suc fuel) (projecting c cols) = do
    pulled ← next fuel c
    elim pulled.0 [
      | none ↦ pure (none, projecting pulled.1 cols)
      | some t ↦ do vs ← lift (project cols t); pure (some vs, projecting pulled.1 cols)
    ]
  next (suc fuel) (sorting c keys rows) = pure (take_row rows (sorting c keys))
  next (suc fuel) (aggregating c specs groups rows) =
      pure (take_row rows (aggregating c specs groups))
  next (suc fuel) (joining l r a b rows) = pure (take_row rows (joining l r a b))

  -- `while (child->next(t)) rows.push_back(t);`
  unfoldable pub drain : ℕ → Executor → WorldAction (List Row × Executor)
  drain zero e = throw out_of_fuel
  drain (suc fuel) e = do
    pulled ← next fuel e
    elim pulled.0 [
      | none ↦ pure ([], pulled.1)
      | some t ↦ do rest ← drain fuel pulled.1; pure (t ∷ rest.0, rest.1)
    ]

  -- The loop of the join over its left child.
  unfoldable pub join_left : ℕ → ℕ → ℕ → List Row → Executor → WorldAction (List Row × Executor)
  join_left zero a b rs l = throw out_of_fuel
  join_left (suc fuel) a b rs l = do
    pulled ← next fuel l
    elim pulled.0 [
      | none ↦ pure ([], pulled.1)
      | some t ↦ do
        joined ← lift (join_row d a b t rs)
        rest ← join_left fuel a b rs pulled.1
        pure (joined ++ rest.0, rest.1)
    ]

  unfoldable pub init : ℕ → Executor → WorldAction Executor
  init fuel (scanning t rows) = do rows ← scan t; pure (scanning t rows)
  init fuel (looking_up t x key done) = pure (looking_up t x key false)
  init fuel (filtering c p) = do started ← init fuel c; pure (filtering started p)
  init fuel (projecting c cols) = do started ← init fuel c; pure (projecting started cols)
  init fuel (sorting c keys old) = do
    started ← init fuel c
    drained ← drain fuel started
    rows ← lift (sort_rows d keys drained.0)
    pure (sorting drained.1 keys rows)
  init fuel (aggregating c specs groups old) = do
    started ← init fuel c
    drained ← drain fuel started
    rows ← lift (aggregate_rows d specs groups drained.0)
    pure (aggregating drained.1 specs groups rows)
  init fuel (joining l r a b old) = do
    right ← init fuel r
    rs ← drain fuel right
    left ← init fuel l
    rows ← join_left fuel a b rs.0 left
    pure (joining rows.1 rs.1 a b rows.0)

  -- What a caller does with a plan.
  unfoldable pub run : ℕ → Plan → WorldAction (List Row)
  run fuel plan = do e ← init fuel (make_executor plan); rows ← drain fuel e; pure rows.0
