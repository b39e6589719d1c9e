-- ===== src/Index/Tree/Validate.antt =====
-- `validate_invariants` of src/index/bplus_tree.cpp. The fuel of the walk bounds the height of the
-- tree; an exception is the result false, only the end of the fuel is not.
use resume_project.Common.{
  ℕ, zero, suc, ◌+◌, Bool, true, false, not, ◌&&◌, ◌||◌, Option, none, some, List, [], ◌∷◌, ◌++◌,
  length, get_or, ◌==◌, if◌then◌else◌, Result, ok, err,
}
use resume_project.Common.Action.{pure, throw, gets, ◌>>=◌}
use resume_project.Storage.Page.{invalid_page, is_valid}
use resume_project.Buffer.Pool.Check
use resume_project.Transactions.Errors.{EngineError, empty_child, out_of_fuel}
use resume_project.Index.Key.{is_sorted}
use resume_project.Buffer.Table.{mem}
use resume_project.Index.Node.{Node}
use resume_project.Index.Tree.{Tree, TreeAction, read_node}
use resume_project.Index.Tree.Vectors.{at}

-- `seen`, `leaves` and `unique`
pub record Walk : Type 0 where
  pub seen : List ℕ
  pub leaves : List ℕ
  pub unique : List ℕ

abbrev new_walk : Walk
new_walk = record { seen = []; leaves = []; unique = [] }

-- The loop of `first_key`, from the node `n` on.
unfoldable pub first_below : ℕ → Node → TreeAction ℕ
first_below zero n = throw out_of_fuel
first_below (suc fuel) n = elim n.leaf [
  | true ↦ elim n.keys [ [] ↦ throw empty_child | k ∷ ks ↦ pure k ]
  | false ↦ do id ← at n.children 0; child ← read_node id; first_below fuel child
]

-- `none` stands for `return false`, here and below.
unfoldable pub insert_all : List ℕ → List ℕ → Option (List ℕ)
insert_all [] unique = some unique
insert_all (k ∷ ks) unique = if mem k unique then none else insert_all ks (k ∷ unique)

-- Every separator is the first key below the child behind it.
unfoldable pub separators_hold : ℕ → List ℕ → List ℕ → TreeAction Bool
separators_hold fuel [] children = pure true
separators_hold fuel (k ∷ ks) children = do
  id ← at children 0
  n ← read_node id
  first ← first_below fuel n
  elim (first == k) [
    | false ↦ pure false
    | true ↦ separators_hold fuel ks (elim children [ [] ↦ [] | c ∷ cs ↦ cs ])
  ]

-- The loop over the children, each walked by `self`.
unfoldable pub walk_children :
    (ℕ → Walk → TreeAction (Option Walk)) → List ℕ → Walk → TreeAction (Option Walk)
walk_children self [] w = pure (some w)
walk_children self (c ∷ cs) w = do
  done ← self c w
  elim done [ none ↦ pure none | some v ↦ walk_children self cs v ]

unfoldable pub walk_leaf : ℕ → Node → Walk → Option Walk
walk_leaf id n w = elim (insert_all n.keys w.unique) [
  | none ↦ none
  | some unique ↦ some (record w { leaves = w.leaves ++ id ∷ []; unique = unique })
]

unfoldable pub walk : ℕ → ℕ → ℕ → Walk → TreeAction (Option Walk)
walk zero parent id w = throw out_of_fuel
walk (suc fuel) parent id w = elim (not (is_valid id) || mem id w.seen) [
  | true ↦ pure none
  | false ↦ do
    n ← read_node id
    let v = record w { seen = id ∷ w.seen }
    elim (not (n.parent == parent) || not (is_sorted n.keys)) [
      | true ↦ pure none
      | false ↦ elim n.leaf [
        | true ↦ pure (walk_leaf id n v)
        | false ↦ elim (length n.children == length n.keys + 1) [
          | false ↦ pure none
          | true ↦ do
            hold ← separators_hold fuel n.keys (elim n.children [ [] ↦ [] | c ∷ cs ↦ cs ])
            elim hold [ false ↦ pure none | true ↦ walk_children (walk fuel id) n.children v ]
        ]
      ]
    ]
]

-- The loop along the leaves: `none` where one is not the next, else the page behind the last.
unfoldable pub follow : List ℕ → ℕ → TreeAction (Option ℕ)
follow [] next = pure (some next)
follow (expected ∷ rest) next = elim (next == expected) [
  | false ↦ pure none
  | true ↦ do n ← read_node next; follow rest n.next
]

unfoldable pub check_tree : ℕ → TreeAction Bool
check_tree fuel = do
  root ← gets (λ t. t.root_page_id)
  walked ← walk fuel invalid_page root new_walk
  elim walked [
    | none ↦ pure false
    | some w ↦ do
      behind ← follow w.leaves (get_or w.leaves 0 invalid_page)
      elim behind [
        | none ↦ pure false
        | some next ↦ gets (λ t. not (is_valid next) && Check.validate_invariants t.session.buffer)
      ]
  ]

-- `catch (...) { return false; }`
unfoldable pub caught : Result EngineError Bool × Tree → Result EngineError Bool × Tree
caught (ok b, t) = (ok b, t)
caught (err out_of_fuel, t) = (err out_of_fuel, t)
caught (err e, t) = (ok false, t)

unfoldable pub validate_invariants : ℕ → TreeAction Bool
unfolding caught
validate_invariants fuel t = caught (check_tree fuel t)
