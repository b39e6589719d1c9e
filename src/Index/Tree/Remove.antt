-- ===== src/Index/Tree/Remove.antt =====
-- Removal of src/index/bplus_tree.cpp: `remove_impl`, `rebalance_leaf`, `rebalance_internal` and the
-- two `remove`s. The fuel of a recursion is a bound on the height.
use resume_project.Common.{
  ℕ, zero, suc, ◌+◌, ◌-◌, ◌/◌, Bool, true, false, none, some, List, [], ◌∷◌, ◌++◌, length, drop,
  ltb, leb, ◌==◌,
}
use resume_project.Common.Action.{pure, throw, gets, modify, ◌>>=◌, ◌>>◌}
use resume_project.Storage.Page.{invalid_page}
use resume_project.Transactions.Errors.{out_of_fuel}
use resume_project.Transactions.Transaction.{mutation_context}
use resume_project.Index.Key.{find_index, erase_at, pop_back}
use resume_project.Index.Node.{Node}
use resume_project.Index.Tree.{
  Tree, TreeAction, Mode, transactional, in_session, read_node, write_node, set_parent,
  write_metadata,
}
use resume_project.Index.Tree.Vectors.{at, last_of, put_at, remove_at}
use resume_project.Index.Tree.Search.{find_leaf, position}
use resume_project.Index.Tree.Insert.{with_mode, set_parents, update_parent_separator}

-- The parent `p` without its child `i` and the separator in front of it.
unfoldable pub drop_child : Node → ℕ → TreeAction Node
drop_child p i = do
  keys ← remove_at p.keys (i - 1)
  children ← remove_at p.children i
  pure (record p { keys = keys; children = children })

unfoldable pub with_separator : Node → ℕ → ℕ → TreeAction Node
with_separator p i key = do keys ← put_at p.keys i key; pure (record p { keys = keys })

abbrev pub append_leaf : Node → Node → Node
append_leaf l n = record l { keys = l.keys ++ n.keys; values = l.values ++ n.values; next = n.next }

-- `separator` stood between the two in their parent.
abbrev pub append_internal : Node → ℕ → Node → Node
append_internal l separator n = record l {
  keys = l.keys ++ separator ∷ n.keys;
  children = l.children ++ n.children;
}

-- `if (id == root_page_id_)`: an internal root without keys gives way to its child.
unfoldable pub shrink_root : ℕ → Node → TreeAction (Unit {0})
shrink_root id n = elim n.keys [
  | k ∷ ks ↦ write_node id n
  | [] ↦ do
    child ← at n.children 0
    set_parent child invalid_page
    modify (λ t. record t { root_page_id = child })
    write_metadata
]

-- An entry of the left sibling, which has more than enough.
unfoldable pub borrow_left_leaf : ℕ → Node → Node → ℕ → ℕ → Node → TreeAction (Unit {0})
borrow_left_leaf id n p i lid l = do
  k ← last_of l.keys
  v ← last_of l.values
  q ← with_separator p (i - 1) k
  write_node lid (record l { keys = pop_back l.keys; values = pop_back l.values })
  write_node id (record n { keys = k ∷ n.keys; values = v ∷ n.values })
  write_node n.parent q

unfoldable pub borrow_right_leaf : ℕ → ℕ → Node → Node → ℕ → ℕ → Node → TreeAction (Unit {0})
borrow_right_leaf fuel id n p i rid r = do
  k ← at r.keys 0
  v ← at r.values 0
  separator ← at r.keys 1
  q ← with_separator p i separator
  write_node id (record n { keys = n.keys ++ k ∷ []; values = n.values ++ v ∷ [] })
  write_node rid (record r { keys = drop 1 r.keys; values = drop 1 r.values })
  write_node n.parent q
  first ← at (n.keys ++ k ∷ []) 0
  update_parent_separator fuel n.parent first

unfoldable pub borrow_left_internal : ℕ → Node → Node → ℕ → ℕ → Node → TreeAction (Unit {0})
borrow_left_internal id n p i lid l = do
  separator ← at p.keys (i - 1)
  moved ← last_of l.children
  k ← last_of l.keys
  q ← with_separator p (i - 1) k
  set_parent moved id
  write_node lid (record l { keys = pop_back l.keys; children = pop_back l.children })
  write_node id (record n { keys = separator ∷ n.keys; children = moved ∷ n.children })
  write_node n.parent q

unfoldable pub borrow_right_internal : ℕ → Node → Node → ℕ → ℕ → Node → TreeAction (Unit {0})
borrow_right_internal id n p i rid r = do
  separator ← at p.keys i
  moved ← at r.children 0
  k ← at r.keys 0
  q ← with_separator p i k
  set_parent moved id
  write_node id (record n { keys = n.keys ++ separator ∷ []; children = n.children ++ moved ∷ [] })
  write_node rid (record r { keys = drop 1 r.keys; children = drop 1 r.children })
  write_node n.parent q

-- The node `right`, child `i` of `p`, goes into its left sibling `left`.
unfoldable pub merge_internal : ℕ → Node → Node → ℕ → Node → ℕ → TreeAction (Unit {0})
merge_internal lid left right parent p i = do
  separator ← at p.keys (i - 1)
  set_parents right.children lid
  q ← drop_child p i
  write_node lid (append_internal left separator right)
  write_node parent q

unfoldable pub min_internal_keys : Tree → ℕ
min_internal_keys t = t.config.internal_max_keys / 2

unfoldable pub rebalance_internal : ℕ → ℕ → TreeAction (Unit {0})
unfolding min_internal_keys
rebalance_internal zero id = throw out_of_fuel
rebalance_internal (suc fuel) id = do
  n ← read_node id
  root ← gets (λ t. t.root_page_id)
  least ← gets min_internal_keys
  elim (id == root) [
    | true ↦ shrink_root id n
    | false ↦ elim (leb least (length n.keys)) [
      | true ↦ write_node id n
      | false ↦ do
        p ← read_node n.parent
        let i = find_index p.children id
        elim (ltb 0 i) [
          | true ↦ do
            lid ← at p.children (i - 1)
            l ← read_node lid
            elim (ltb least (length l.keys)) [
              | true ↦ borrow_left_internal id n p i lid l
              | false ↦ do merge_internal lid l n n.parent p i; rebalance_internal fuel n.parent
            ]
          | false ↦ do
            rid ← at p.children (i + 1)
            r ← read_node rid
            elim (ltb least (length r.keys)) [
              | true ↦ borrow_right_internal id n p i rid r
              | false ↦ do
                merge_internal id n r n.parent p (i + 1)
                rebalance_internal fuel n.parent
            ]
        ]
    ]
  ]

-- Into the left sibling, whose first key stays.
unfoldable pub merge_left_leaf : ℕ → Node → Node → ℕ → ℕ → Node → TreeAction (Unit {0})
merge_left_leaf fuel n p i lid l = do
  q ← drop_child p i
  write_node lid (append_leaf l n)
  write_node n.parent q
  rebalance_internal fuel n.parent

unfoldable pub merge_right_leaf : ℕ → ℕ → Node → Node → ℕ → Node → TreeAction (Unit {0})
merge_right_leaf fuel id n p i r = do
  q ← drop_child p (i + 1)
  write_node id (append_leaf n r)
  write_node n.parent q
  first ← at (n.keys ++ r.keys) 0
  update_parent_separator fuel n.parent first
  rebalance_internal fuel n.parent

unfoldable pub min_leaf_keys : Tree → ℕ
min_leaf_keys t = (t.config.leaf_max_keys + 1) / 2

unfoldable pub rebalance_leaf : ℕ → ℕ → TreeAction (Unit {0})
unfolding min_leaf_keys
rebalance_leaf fuel id = do
  n ← read_node id
  p ← read_node n.parent
  least ← gets min_leaf_keys
  let i = find_index p.children id
  elim (ltb 0 i) [
    | true ↦ do
      lid ← at p.children (i - 1)
      l ← read_node lid
      elim (ltb least (length l.keys)) [
        | true ↦ borrow_left_leaf id n p i lid l
        | false ↦ merge_left_leaf fuel n p i lid l
      ]
    | false ↦ do
      rid ← at p.children (i + 1)
      r ← read_node rid
      elim (ltb least (length r.keys)) [
        | true ↦ borrow_right_leaf fuel id n p i rid r
        | false ↦ merge_right_leaf fuel id n p i r
      ]
  ]

-- A leaf without its entry `i`.
unfoldable pub without_entry : Node → ℕ → Node
without_entry leaf i = record leaf { keys = erase_at leaf.keys i; values = erase_at leaf.values i }

-- `if (at == 0 && !leaf.keys.empty()) update_parent_separator(id, leaf.keys.front())`
unfoldable pub refresh_separator : ℕ → ℕ → List ℕ → ℕ → TreeAction (Unit {0})
refresh_separator fuel id [] i = pure tt
refresh_separator fuel id (k ∷ ks) i = elim (i == 0) [
  | true ↦ update_parent_separator fuel id k
  | false ↦ pure tt
]

-- What `remove_impl` does with the leaf that has lost its entry `i`.
unfoldable pub store_shorter : ℕ → ℕ → Node → ℕ → TreeAction (Unit {0})
unfolding min_leaf_keys
store_shorter fuel id leaf i = do
  root ← gets (λ t. t.root_page_id)
  least ← gets min_leaf_keys
  write_node id leaf
  elim (id == root) [
    | true ↦ pure tt
    | false ↦ elim (leb least (length leaf.keys)) [
      | true ↦ refresh_separator fuel id leaf.keys i
      | false ↦ rebalance_leaf fuel id
    ]
  ]

unfoldable pub remove_impl : ℕ → ℕ → TreeAction Bool
unfolding without_entry
remove_impl fuel key = do
  id ← find_leaf fuel key
  leaf ← read_node id
  elim (position leaf.keys key) [
    | none ↦ pure false
    | some i ↦ do store_shorter fuel id (without_entry leaf i) i; pure true
  ]

unfoldable pub remove : ℕ → Mode → ℕ → TreeAction Bool
remove fuel mode key = with_mode mode (remove_impl fuel key)

unfoldable pub remove_in_transaction : ℕ → ℕ → TreeAction Bool
remove_in_transaction fuel key =
    with_mode transactional (in_session (mutation_context (pure tt)) >> remove_impl fuel key)
