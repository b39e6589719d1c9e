-- ===== src/Index/Node.antt =====
-- The nodes of src/index/bplus_tree.cpp as bytes: what `write_node` puts into a cleared page, and
-- what `read_node` makes of it.
pub mod RoundTrip
pub mod Size
mod Examples
use resume_project.Common.{
  ℕ, zero, suc, ◌+◌, ◌-◌, ◌*◌, Bool, true, false, not, ◌&&◌, ◌||◌, Option, none, some, List, [],
  ◌∷◌, ◌++◌, length, drop, get_or, replicate, ltb, ◌==◌, if◌then◌else◌, put16, put32, put64, get16,
  get32, get64,
}
use resume_project.Storage.Page.{page_payload_size}

-- A key is an int64_t, here its 64 bits: `bit_cast` is the identity.
pub record RecordId : Type 0 where
  pub page_id : ℕ
  pub slot_id : ℕ

pub record Config : Type 0 where
  pub leaf_max_keys : ℕ
  pub internal_max_keys : ℕ

pub record Node : Type 0 where
  pub leaf : Bool
  pub parent : ℕ
  pub next : ℕ
  pub keys : List ℕ
  pub values : List RecordId
  pub children : List ℕ

abbrev pub node_header_size : ℕ
node_header_size = 32

abbrev pub leaf_entry_size : ℕ
leaf_entry_size = 20

abbrev pub internal_entry_size : ℕ
internal_entry_size = 16

-- The test of `create`.
unfoldable pub is_valid_config : Config → Bool
is_valid_config c = not (
    ltb c.leaf_max_keys 2
    || ltb c.internal_max_keys 2
    || ltb page_payload_size (node_header_size + c.leaf_max_keys * leaf_entry_size)
    || ltb page_payload_size (node_header_size + 8 + c.internal_max_keys * internal_entry_size))

abbrev pub max_keys : Config → Bool → ℕ
max_keys c leaf = if leaf then c.leaf_max_keys else c.internal_max_keys

abbrev pub tag_of : Bool → ℕ
tag_of leaf = if leaf then 1 else 2

unfoldable pub leaf_bytes : List ℕ → List RecordId → List ℕ
leaf_bytes (k ∷ ks) (v ∷ vs) = put64 k ++ (put64 v.page_id ++ (put32 v.slot_id ++ leaf_bytes ks vs))
leaf_bytes ks vs = []

unfoldable pub internal_bytes : List ℕ → List ℕ → List ℕ
internal_bytes (k ∷ ks) (c ∷ cs) = put64 k ++ (put64 c ++ internal_bytes ks cs)
internal_bytes ks cs = []

unfoldable pub children_bytes : List ℕ → List ℕ → List ℕ
children_bytes ks [] = []
children_bytes ks (c ∷ cs) = put64 c ++ internal_bytes ks cs

unfoldable pub entries : Node → List ℕ
entries n = if n.leaf then leaf_bytes n.keys n.values else children_bytes n.keys n.children

unfoldable pub node_header : Node → List ℕ
node_header n =
    tag_of n.leaf
    ∷ 0
    ∷ 0
    ∷ 0
    ∷ (put64 n.parent ++ (put64 n.next ++ (put16 (length n.keys) ++ replicate 10 0)))

-- `Page::clear` has left zeros behind the entries.
unfoldable pub encode_node : Node → List ℕ
encode_node n =
    node_header n
    ++ (entries n ++ replicate (page_payload_size - node_header_size - length (entries n)) 0)

unfoldable pub read_leaf : ℕ → List ℕ → List ℕ × List RecordId
read_leaf zero bytes = ([], [])
read_leaf (suc n) bytes =
    let (ks, vs) = read_leaf n (drop leaf_entry_size bytes) in
    (get64 bytes 0 ∷ ks, record { page_id = get64 bytes 8; slot_id = get32 bytes 16 } ∷ vs)

unfoldable pub read_internal : ℕ → List ℕ → List ℕ × List ℕ
read_internal zero bytes = ([], [])
read_internal (suc n) bytes =
    let (ks, cs) = read_internal n (drop internal_entry_size bytes) in
    (get64 bytes 0 ∷ ks, get64 bytes 8 ∷ cs)

unfoldable pub with_entries : Bool → ℕ → List ℕ → Node
with_entries true count bytes =
    let (ks, vs) = read_leaf count (drop node_header_size bytes) in
    record {
      leaf = true;
      parent = get64 bytes 4;
      next = get64 bytes 12;
      keys = ks;
      values = vs;
      children = [];
    }
with_entries false count bytes =
    let (ks, cs) = read_internal count (drop (node_header_size + 8) bytes) in
    record {
      leaf = false;
      parent = get64 bytes 4;
      next = get64 bytes 12;
      keys = ks;
      values = [];
      children = get64 bytes node_header_size ∷ cs;
    }

-- `none` is a corrupt node.
unfoldable pub decode_node : Config → List ℕ → Option Node
decode_node c bytes =
    let tag = get_or bytes 0 0 in
    let count = get16 bytes 20 in
    if not (tag == 1) && not (tag == 2) || ltb (max_keys c (tag == 1)) count
    then none
    else some (with_entries (tag == 1) count bytes)
