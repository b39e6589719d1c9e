-- ===== src/Index/Tree/Insert.antt =====
-- Insertion of src/index/bplus_tree.cpp: `insert_impl`, `insert_into_parent`,
-- `update_parent_separator` and the two `insert`s. The fuel of a recursion is a bound on the height.
use resume_project.Common.{
  ℕ, zero, suc, ◌+◌, ◌-◌, ◌/◌, Bool, true, false, none, some, List, [], ◌∷◌, length, take, drop,
  ltb, leb, ◌==◌, if◌then◌else◌,
}
use resume_project.Common.Action.{pure, throw, gets, throw_if, modify, ◌>>=◌, ◌>>◌}
use resume_project.Storage.Page.{invalid_page, is_valid}
use resume_project.Transactions.Errors.{
  parent_missing_child, parent_missing_child_in_update, out_of_fuel,
}
use resume_project.Transactions.Transaction.{mutation_context}
use resume_project.Index.Key.{lower_bound, find_index, insert_at}
use resume_project.Index.Node.{RecordId, Node}
use resume_project.Index.Tree.{
  TreeAction, Mode, transactional, set_mode, in_session, read_node, write_node, allocate_node,
  set_parent, write_metadata,
}
use resume_project.Index.Tree.Vectors.{at, put_at}
use resume_project.Index.Tree.Search.{find_leaf, position}

-- `struct Scope`: the fields as they were, whatever happens.
unfoldable pub with_mode : {A : Type 0} → Mode → TreeAction A → TreeAction A
with_mode mode m t = let (result, s) = m (set_mode mode t) in (result, set_mode t.mode s)

unfoldable pub set_parents : List ℕ → ℕ → TreeAction (Unit {0})
set_parents [] parent = pure tt
set_parents (c ∷ cs) parent = set_parent c parent >> set_parents cs parent

-- The root is split: a new one above the two halves.
unfoldable pub grow_root : ℕ → ℕ → ℕ → TreeAction (Unit {0})
grow_root left sep right = do
  id ← allocate_node (record {
    leaf = false;
    parent = invalid_page;
    next = invalid_page;
    keys = sep ∷ [];
    values = [];
    children = left ∷ right ∷ [];
  })
  set_parent left id
  set_parent right id
  modify (λ t. record t { root_page_id = id })
  write_metadata

-- The separator and the new child, behind the child `left`.
unfoldable pub add_child : Node → ℕ → ℕ → ℕ → Node
add_child parent left sep right = record parent {
  keys = insert_at parent.keys (find_index parent.children left) sep;
  children = insert_at parent.children (find_index parent.children left + 1) right;
}

-- The halves of an internal node with too many keys. The key between them moves up.
unfoldable pub upper_half : Node → Node
upper_half n =
    let middle = length n.keys / 2 in
    record {
      leaf = false;
      parent = n.parent;
      next = invalid_page;
      keys = drop (middle + 1) n.keys;
      values = [];
      children = drop (middle + 1) n.children;
    }

unfoldable pub lower_half : Node → Node
lower_half n =
    let middle = length n.keys / 2 in
    record n { keys = take middle n.keys; children = take (middle + 1) n.children }

-- The statements of the split up to the recursive call: the promoted key and the sibling's page.
unfoldable pub split_internal : ℕ → Node → TreeAction (ℕ × ℕ)
split_internal pid n = do
  promote ← at n.keys (length n.keys / 2)
  sid ← allocate_node (upper_half n)
  write_node pid (lower_half n)
  set_parents (upper_half n).children sid
  pure (promote, sid)

unfoldable pub insert_into_parent : ℕ → ℕ → ℕ → ℕ → TreeAction (Unit {0})
insert_into_parent zero left sep right = throw out_of_fuel
insert_into_parent (suc fuel) left sep right = do
  left_node ← read_node left
  elim (is_valid left_node.parent) [
    | false ↦ grow_root left sep right
    | true ↦ do
      parent ← read_node left_node.parent
      throw_if (find_index parent.children left == length parent.children) parent_missing_child
      set_parent right left_node.parent
      c ← gets (λ t. t.config)
      elim (leb (length (add_child parent left sep right).keys) c.internal_max_keys) [
        | true ↦ write_node left_node.parent (add_child parent left sep right)
        | false ↦ do
          split ← split_internal left_node.parent (add_child parent left sep right)
          insert_into_parent fuel left_node.parent split.0 split.1
      ]
  ]

unfoldable pub update_parent_separator : ℕ → ℕ → ℕ → TreeAction (Unit {0})
update_parent_separator zero child first = throw out_of_fuel
update_parent_separator (suc fuel) child first = do
  n ← read_node child
  elim (is_valid n.parent) [
    | false ↦ pure tt
    | true ↦ do
      p ← read_node n.parent
      throw_if (find_index p.children child == length p.children) parent_missing_child_in_update
      elim (ltb 0 (find_index p.children child)) [
        | true ↦ do
          keys ← put_at p.keys (find_index p.children child - 1) first
          write_node n.parent (record p { keys = keys })
        | false ↦ update_parent_separator fuel n.parent first
      ]
  ]

-- A leaf with one entry more, at its place.
unfoldable pub with_entry : Node → ℕ → RecordId → Node
with_entry leaf key value = record leaf {
  keys = insert_at leaf.keys (lower_bound leaf.keys key) key;
  values = insert_at leaf.values (lower_bound leaf.keys key) value;
}

-- The halves of a leaf with too many entries.
unfoldable pub right_leaf : Node → Node
right_leaf n =
    let split = length n.keys / 2 in
    record {
      leaf = true;
      parent = n.parent;
      next = n.next;
      keys = drop split n.keys;
      values = drop split n.values;
      children = [];
    }

unfoldable pub left_leaf : Node → ℕ → Node
left_leaf n next =
    let split = length n.keys / 2 in
    record n { keys = take split n.keys; values = take split n.values; next = next }

unfoldable pub split_leaf : ℕ → ℕ → Node → TreeAction (Unit {0})
split_leaf fuel id n = do
  rid ← allocate_node (right_leaf n)
  write_node id (left_leaf n rid)
  first ← at (right_leaf n).keys 0
  insert_into_parent fuel id first rid

-- What `insert_impl` does with the leaf and the new entry.
unfoldable pub insert_entry : ℕ → ℕ → Node → ℕ → RecordId → TreeAction (Unit {0})
unfolding with_entry
insert_entry fuel id leaf key value = do
  c ← gets (λ t. t.config)
  elim (leb (length (with_entry leaf key value).keys) c.leaf_max_keys) [
    | false ↦ split_leaf fuel id (with_entry leaf key value)
    | true ↦ do
      write_node id (with_entry leaf key value)
      if lower_bound leaf.keys key == 0 then update_parent_separator fuel id key else pure tt
  ]

unfoldable pub insert_impl : ℕ → ℕ → RecordId → TreeAction Bool
insert_impl fuel key value = do
  id ← find_leaf fuel key
  leaf ← read_node id
  elim (position leaf.keys key) [
    | some i ↦ pure false
    | none ↦ do insert_entry fuel id leaf key value; pure true
  ]

-- `mode` says whether the caller gave a context.
unfoldable pub insert : ℕ → Mode → ℕ → RecordId → TreeAction Bool
insert fuel mode key value = with_mode mode (insert_impl fuel key value)

unfoldable pub insert_in_transaction : ℕ → ℕ → RecordId → TreeAction Bool
insert_in_transaction fuel key value =
    with_mode transactional (in_session (mutation_context (pure tt)) >> insert_impl fuel key value)
