-- ===== src/Index/Node/Size.antt =====
-- A node fills its page exactly, and its entries fit behind the header.
use resume_project.Common.{
  ℕ, ◌+◌, ◌-◌, ◌*◌, ◌≤◌, ◌≡◌, refl, Bool, true, false, List, [], ◌∷◌, length, length-append,
  length-replicate, replicate, arith, put16, put32, put64,
}
use resume_project.Storage.Page.{page_payload_size}
use resume_project.Index.Node.{
  RecordId, Config, Node, leaf_bytes, internal_bytes, children_bytes, entries, node_header,
  encode_node, max_keys, is_valid_config, node_header_size, leaf_entry_size, internal_entry_size,
}
use resume_project.Index.Node.RoundTrip.{
  HasEntries, IsNode, padding, body, entries-true, entries-false,
}

length-leaf_bytes :
    (ks : List ℕ) (vs : List RecordId)
    → length vs ≡ length ks
    → length (leaf_bytes ks vs) ≡ length ks * leaf_entry_size
unfolding leaf_bytes put64 put32
length-leaf_bytes [] vs same = refl
length-leaf_bytes (k ∷ ks) [] same = absurd (omega (arith, same))
length-leaf_bytes (k ∷ ks) (v ∷ vs) same =
    omega (arith, length-leaf_bytes ks vs (omega (arith, same)))

length-internal_bytes :
    (ks cs : List ℕ)
    → length cs ≡ length ks
    → length (internal_bytes ks cs) ≡ length ks * internal_entry_size
unfolding internal_bytes put64
length-internal_bytes [] cs same = refl
length-internal_bytes (k ∷ ks) [] same = absurd (omega (arith, same))
length-internal_bytes (k ∷ ks) (c ∷ cs) same =
    omega (arith, length-internal_bytes ks cs (omega (arith, same)))

length-children_bytes :
    (ks cs : List ℕ)
    → length cs ≡ length ks + 1
    → length (children_bytes ks cs) ≡ 8 + length ks * internal_entry_size
unfolding children_bytes put64
length-children_bytes ks [] same = absurd (omega (arith, same))
length-children_bytes ks (c ∷ cs) same =
    omega (arith, length-internal_bytes ks cs (omega (arith, same)))

-- The entries fit behind the header.
length-entries :
    (c : Config) (n : Node) (b : Bool)
    → is_valid_config c ≡ true
    → n.leaf ≡ b
    → length n.keys ≤ max_keys c b
    → HasEntries b n
    → node_header_size + length (entries n) ≤ page_payload_size
unfolding is_valid_config
length-entries c n true valid leaf room has =
    rw (entries-true n leaf) (ground (arith, valid, room, length-leaf_bytes n.keys n.values has.0))
length-entries c n false valid internal room has =
    rw (entries-false n internal)
      (ground (arith, valid, room, length-children_bytes n.keys n.children has.0))

length-node_header : (n : Node) → length (node_header n) ≡ node_header_size
unfolding node_header put64 put16 replicate
length-node_header n = refl

-- In a valid configuration, a node with fields within their widths, vectors of the lengths that
-- its kind wants and no more keys than the configuration allows fills the payload of its page
-- exactly.
pub length-encode_node :
    (c : Config) (n : Node)
    → is_valid_config c ≡ true
    → IsNode c n
    → length (encode_node n) ≡ page_payload_size
unfolding encode_node
length-encode_node c n valid h = omega (
  arith,
  length-entries c n n.leaf valid refl h.room h.has_entries,
  length-append (node_header n) (body n),
  length-append (entries n) (padding n),
  length-node_header n,
  length-replicate {A = ℕ} (page_payload_size - node_header_size - length (entries n)) 0,
)
