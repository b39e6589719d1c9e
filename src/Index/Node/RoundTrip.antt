-- ===== src/Index/Node/RoundTrip.antt =====
-- A node comes back from its page, which it fits.
use resume_project.Common.{
  ℕ, ◌+◌, ◌-◌, ◌≤◌, ◌≡◌, refl, sym, ap, ◌∙◌, Bool, true, false, some, List, [], ◌∷◌, ◌++◌, length,
  drop, get_or, replicate, arith, All, IsU64, IsU32, IsU16, List-cases, inl, inr, subst, put16,
  put32, put64, get16, get32, get64, get64-put64, get32-put32, get16-put16,
}
use resume_project.Storage.Page.{page_payload_size}
use resume_project.Index.Node.{
  RecordId, Config, Node, leaf_bytes, internal_bytes, children_bytes, entries, node_header,
  encode_node, read_leaf, read_internal, with_entries, decode_node, max_keys, node_header_size,
  tag_of,
}

abbrev pub IsRecordId : RecordId → Type 0
IsRecordId v = IsU64 v.page_id × IsU32 v.slot_id

read_leaf-leaf_bytes :
    (ks : List ℕ) (vs : List RecordId) (rest : List ℕ)
    → length vs ≡ length ks
    → All IsU64 ks
    → All IsRecordId vs
    → read_leaf (length ks) (leaf_bytes ks vs ++ rest) ≡ (ks, vs)
unfolding read_leaf leaf_bytes put64 put32 get64 get32
read_leaf-leaf_bytes [] [] rest same hk hv = refl
read_leaf-leaf_bytes [] (v ∷ vs) rest same hk hv = absurd (omega (arith, same))
read_leaf-leaf_bytes (k ∷ ks) [] rest same hk hv = absurd (omega (arith, same))
read_leaf-leaf_bytes (k ∷ ks) (v ∷ vs) rest same hk hv =
    rw
      (
        read_leaf-leaf_bytes ks vs rest (omega (arith, same)) hk.1 hv.1,
        get64-put64 k [] hk.0,
        get64-put64 v.page_id [] hv.0.0,
        get32-put32 v.slot_id [] hv.0.1,
      )
      refl

read_internal-internal_bytes :
    (ks cs rest : List ℕ)
    → length cs ≡ length ks
    → All IsU64 ks
    → All IsU64 cs
    → read_internal (length ks) (internal_bytes ks cs ++ rest) ≡ (ks, cs)
unfolding read_internal internal_bytes put64 get64
read_internal-internal_bytes [] [] rest same hk hc = refl
read_internal-internal_bytes [] (c ∷ cs) rest same hk hc = absurd (omega (arith, same))
read_internal-internal_bytes (k ∷ ks) [] rest same hk hc = absurd (omega (arith, same))
read_internal-internal_bytes (k ∷ ks) (c ∷ cs) rest same hk hc =
    rw
      (
        read_internal-internal_bytes ks cs rest (omega (arith, same)) hk.1 hc.1,
        get64-put64 k [] hk.0,
        get64-put64 c [] hc.0,
      )
      refl

-- The vectors that a kind of node has, of the lengths that it wants, and the ones it has not.
abbrev pub HasEntries : Bool → Node → Type 0
HasEntries true n = (length n.values ≡ length n.keys) × (n.children ≡ []) × All IsRecordId n.values
HasEntries false n =
    (length n.children ≡ length n.keys + 1) × (n.values ≡ []) × All IsU64 n.children

-- A node that `write_node` accepts, its fields within their widths.
pub record IsNode (c : Config) (n : Node) : Type 0 where
  pub parent_fits : IsU64 n.parent
  pub next_fits : IsU64 n.next
  pub count_fits : IsU16 (length n.keys)
  pub keys_fit : All IsU64 n.keys
  pub room : length n.keys ≤ max_keys c n.leaf
  pub has_entries : HasEntries n.leaf n

module _ (n : Node) (rest : List ℕ) where
  abbrev bytes : List ℕ
  bytes = node_header n ++ rest

  header-tag : get_or bytes 0 0 ≡ tag_of n.leaf
  unfolding node_header
  header-tag = refl

  header-parent : IsU64 n.parent → get64 bytes 4 ≡ n.parent
  unfolding node_header put64 put16 replicate get64
  header-parent h = get64-put64 n.parent [] h

  header-next : IsU64 n.next → get64 bytes 12 ≡ n.next
  unfolding node_header put64 put16 replicate get64
  header-next h = get64-put64 n.next [] h

  header-count : IsU16 (length n.keys) → get16 bytes 20 ≡ length n.keys
  unfolding node_header put64 put16 replicate get16
  header-count h = get16-put16 (length n.keys) [] h

  header-drop : drop node_header_size bytes ≡ rest
  unfolding node_header put64 put16 replicate
  header-drop = refl

-- The zeros behind the entries.
abbrev pub padding : Node → List ℕ
padding n = replicate (page_payload_size - node_header_size - length (entries n)) 0

abbrev pub body : Node → List ℕ
body n = entries n ++ padding n

as_leaf : (n : Node) → n.leaf ≡ true → n.children ≡ [] → record n { leaf = true; children = [] } ≡ n
as_leaf n leaf none_left =
    ap (λ l. record n { leaf = l; children = [] }) (sym leaf)
    ∙ ap (λ cs. record n { children = cs }) (sym none_left)

as_internal :
    (n : Node) → n.leaf ≡ false → n.values ≡ [] → record n { leaf = false; values = [] } ≡ n
as_internal n leaf none_left =
    ap (λ l. record n { leaf = l; values = [] }) (sym leaf)
    ∙ ap (λ vs. record n { values = vs }) (sym none_left)

with_entries-true :
    (c : Config) (n : Node) (pad : List ℕ)
    → IsNode c n
    → n.leaf ≡ true
    → HasEntries true n
    → with_entries true (length n.keys) (node_header n ++ (leaf_bytes n.keys n.values ++ pad)) ≡ n
unfolding with_entries
with_entries-true c n pad h leaf (same, none_left, fit) =
    let rest = leaf_bytes n.keys n.values ++ pad in
    rw
      (
        header-drop n rest,
        header-parent n rest h.parent_fits,
        header-next n rest h.next_fits,
        read_leaf-leaf_bytes n.keys n.values pad same h.keys_fit fit,
      )
      (as_leaf n leaf none_left)

-- The first child, and the entries behind it.
first_child :
    (n : Node) (ch : ℕ) (rest : List ℕ)
    → IsU64 ch
    → (get64 (node_header n ++ (put64 ch ++ rest)) node_header_size ≡ ch)
      × (drop (node_header_size + 8) (node_header n ++ (put64 ch ++ rest)) ≡ rest)
unfolding node_header put64 put16 replicate get64
first_child n ch rest fits = (get64-put64 ch [] fits, refl)

with_children :
    (c : Config) (n : Node) (ch : ℕ) (cs pad : List ℕ)
    → IsNode c n
    → n.leaf ≡ false
    → n.children ≡ ch ∷ cs
    → HasEntries false n
    → with_entries false (length n.keys) (node_header n ++ (children_bytes n.keys (ch ∷ cs) ++ pad))
      ≡ n
unfolding with_entries children_bytes
with_children c n ch cs pad h internal split (same, none_left, fit) =
    let tail = internal_bytes n.keys cs ++ pad in
    let rest = put64 ch ++ tail in
    let all : All IsU64 (ch ∷ cs) = subst (All IsU64) split fit in
    let count : length (ch ∷ cs) ≡ length n.keys + 1 = ap length (sym split) ∙ same in
    let (first, later) = first_child n ch tail all.0 in
    let assoc : (put64 ch ++ internal_bytes n.keys cs) ++ pad ≡ rest = unfold put64 in refl in
    rw
      (
        assoc,
        header-parent n rest h.parent_fits,
        header-next n rest h.next_fits,
        first,
        later,
        read_internal-internal_bytes n.keys cs pad (omega (arith, count)) h.keys_fit all.1,
      )
      (ap (λ x. record n { leaf = false; values = []; children = x }) (sym split)
        ∙ as_internal n internal none_left)

with_entries-false :
    (c : Config) (n : Node) (pad : List ℕ)
    → IsNode c n
    → n.leaf ≡ false
    → HasEntries false n
    → with_entries false
        (length n.keys)
        (node_header n ++ (children_bytes n.keys n.children ++ pad))
      ≡ n
with_entries-false c n pad h internal has = elim (List-cases n.children) [
  | inl absent ↦ absurd (omega (arith, has.0, ap length absent))
  | inr (ch, cs, split) ↦
      subst
        (λ xs.
          with_entries false (length n.keys) (node_header n ++ (children_bytes n.keys xs ++ pad))
          ≡ n)
        (sym split) (with_children c n ch cs pad h internal split has)
]

decode_node-some :
    (c : Config) (b : Bool) (count : ℕ) (page : List ℕ)
    → get_or page 0 0 ≡ tag_of b
    → get16 page 20 ≡ count
    → count ≤ max_keys c b
    → decode_node c page ≡ some (with_entries b count page)
unfolding decode_node
decode_node-some c true count page tag same room = rw (tag, same) (ground (arith, room))
decode_node-some c false count page tag same room = rw (tag, same) (ground (arith, room))

pub entries-true : (n : Node) → n.leaf ≡ true → entries n ≡ leaf_bytes n.keys n.values
unfolding entries
entries-true n leaf = rw leaf refl

pub entries-false : (n : Node) → n.leaf ≡ false → entries n ≡ children_bytes n.keys n.children
unfolding entries
entries-false n internal = rw internal refl

with_entries-encode_node :
    (c : Config) (n : Node) (b : Bool)
    → IsNode c n
    → n.leaf ≡ b
    → HasEntries b n
    → with_entries b (length n.keys) (encode_node n) ≡ n
unfolding encode_node
with_entries-encode_node c n true h leaf has =
    ap (λ e. with_entries true (length n.keys) (node_header n ++ (e ++ padding n)))
      (entries-true n leaf)
    ∙ with_entries-true c n (padding n) h leaf has
with_entries-encode_node c n false h internal has =
    ap (λ e. with_entries false (length n.keys) (node_header n ++ (e ++ padding n)))
      (entries-false n internal)
    ∙ with_entries-false c n (padding n) h internal has

-- A node with fields within their widths, vectors of the lengths that its kind wants and no more
-- keys than the configuration allows comes back from the bytes of its page.
pub decode-encode_node :
    (c : Config) (n : Node) → IsNode c n → decode_node c (encode_node n) ≡ some n
unfolding encode_node
decode-encode_node c n h =
    decode_node-some c n.leaf (length n.keys) (encode_node n) (header-tag n (body n))
      (header-count n (body n) h.count_fits) h.room
    ∙ ap some (with_entries-encode_node c n n.leaf h refl h.has_entries)
