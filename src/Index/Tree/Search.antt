-- ===== src/Index/Tree/Search.antt =====
-- The reads of src/index/bplus_tree.cpp from the root down: `find_leaf`, `get_value`, `scan` and
-- `height`. A loop takes fuel: the tree's height is enough, for `scan` the number of leaves too.
use resume_project.Common.{
  ℕ, zero, suc, ◌+◌, Bool, true, false, Option, none, some, List, [], ◌∷◌, ◌++◌, get_elem?, ◌==◌,
  if◌then◌else◌,
}
use resume_project.Common.Action.{pure, throw, gets, or_throw, ◌>>=◌}
use resume_project.Storage.Page.{is_valid}
use resume_project.Transactions.Errors.{out_of_bounds, out_of_fuel}
use resume_project.Index.Key.{lower_bound, upper_bound, precedes}
use resume_project.Index.Node.{RecordId, Node}
use resume_project.Index.Tree.{TreeAction, read_node}
use resume_project.Index.Tree.Vectors.{at}

-- The loop of `find_leaf`, from page `id` on.
unfoldable pub descend : ℕ → ℕ → ℕ → TreeAction ℕ
descend zero key id = throw out_of_fuel
descend (suc fuel) key id = do
  n ← read_node id
  if n.leaf then pure id else at n.children (upper_bound n.keys key) >>= descend fuel key

unfoldable pub find_leaf : ℕ → ℕ → TreeAction ℕ
find_leaf fuel key = do root ← gets (λ t. t.root_page_id); descend fuel key root

-- Where the key stands in a leaf; `none` if it is not there.
unfoldable pub position : List ℕ → ℕ → Option ℕ
position keys key = elim (get_elem? keys (lower_bound keys key)) [
  | none ↦ none
  | some k ↦ if k == key then some (lower_bound keys key) else none
]

-- `none` is the result false.
unfoldable pub value_in : Node → ℕ → TreeAction (Option RecordId)
value_in leaf key = elim (position leaf.keys key) [
  | none ↦ pure none
  | some i ↦ do v ← at leaf.values i; pure (some v)
]

unfoldable pub get_value : ℕ → ℕ → TreeAction (Option RecordId)
unfolding value_in
get_value fuel key = do id ← find_leaf fuel key; leaf ← read_node id; value_in leaf key

-- The entries of one leaf, from entry `i` on, that a scan adds; and whether it stops there.
unfoldable pub scan_leaf : ℕ → ℕ → List ℕ → List RecordId → Option (List (ℕ × RecordId) × Bool)
scan_leaf low high [] vs = some ([], false)
scan_leaf low high (k ∷ ks) [] =
    if precedes k low
    then scan_leaf low high ks []
    else if precedes high k
    then some ([], true)
    else none
scan_leaf low high (k ∷ ks) (v ∷ vs) =
    let rest = scan_leaf low high ks vs in
    if precedes k low
    then rest
    else if precedes high k
    then some ([], true)
    else elim rest [ none ↦ none | some r ↦ some ((k, v) ∷ r.0, r.1) ]

-- The loop of `scan` along the leaves.
unfoldable pub scan_from : ℕ → ℕ → ℕ → ℕ → List (ℕ × RecordId) → TreeAction (List (ℕ × RecordId))
scan_from zero low high id out = throw out_of_fuel
scan_from (suc fuel) low high id out = elim (is_valid id) [
  | false ↦ pure out
  | true ↦ do
    n ← read_node id
    found ← or_throw (scan_leaf low high n.keys n.values) out_of_bounds
    if found.1 then pure (out ++ found.0) else scan_from fuel low high n.next (out ++ found.0)
]

unfoldable pub scan : ℕ → ℕ → ℕ → TreeAction (List (ℕ × RecordId))
scan fuel low high = elim (precedes high low) [
  | true ↦ pure []
  | false ↦ do id ← find_leaf fuel low; scan_from fuel low high id []
]

-- The loop of `height`, after `h` levels.
unfoldable pub levels : ℕ → ℕ → Node → TreeAction ℕ
levels zero h n = throw out_of_fuel
levels (suc fuel) h n = elim n.leaf [
  | true ↦ pure h
  | false ↦ do id ← at n.children 0; child ← read_node id; levels fuel (h + 1) child
]

unfoldable pub height : ℕ → TreeAction ℕ
height fuel = do root ← gets (λ t. t.root_page_id); n ← read_node root; levels fuel 1 n
