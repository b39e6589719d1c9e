-- ===== src/Index/Tree/Lookup.antt =====
-- `get_value` on the pages of a search tree.
use resume_project.Common.{
  ℕ, suc, ◌<◌, ◌≡◌, ◌≢◌, refl, ap, ◌∙◌, true, false, Option, none, some, List, [], ◌∷◌, All,
  All-imp, IsU64, length, get_elem?, arith, ok, Bool-cases, inl, inr, ◌==◌, if◌then◌else◌,
}
use resume_project.Buffer.Pool.Invariant.{IsValid}
use resume_project.Index.Key.{rank, precedes, lower_bound}
use resume_project.Index.Key.Bounds.{IsAscending, rank-injective}
use resume_project.Index.Node.{RecordId, Node}
use resume_project.Index.Shape.{Shape, leaf, page_of, pairs, entries_of, assoc, IsWithin}
use resume_project.Index.Shape.Search.{IsSearch}
use resume_project.Index.Tree.{Tree}
use resume_project.Index.Tree.Reads.{IsReadable, IsUnmoved, IsUnmoved-trans, read_node-IsReadable}
use resume_project.Index.Tree.Search.{descend, find_leaf, position, value_in, get_value}
use resume_project.Index.Tree.Descent.{IsStoredTree, descend-Found}

pub assoc_behind :
    (key : ℕ) (ks : List ℕ) (vs : List RecordId)
    → All (λ x. rank key < rank x) ks
    → assoc key (pairs ks vs) ≡ none
unfolding assoc
assoc_behind key [] vs h = refl
assoc_behind key (k ∷ ks) [] h = refl
assoc_behind key (k ∷ ks) (v ∷ vs) h = elim (Bool-cases (k == key)) [
  | inl same ↦ absurd (ground (arith, h.0))
  | inr other ↦ rw (other, assoc) (assoc_behind key ks vs h.1)
]

abbrev shifted : Option ℕ → Option ℕ
shifted none = none
shifted (some i) = some (suc i)

position_step :
    (key k : ℕ) (ks : List ℕ)
    → position (k ∷ ks) key
      ≡ (if precedes k key then shifted (position ks key) else if k == key then some 0 else none)
unfolding position lower_bound
position_step key k ks = ground arith

-- In an ascending leaf, `position` and the entry there are what the leaf's map has.
abbrev pub IsPosition : ℕ → List ℕ → List RecordId → Option ℕ → Type 0
IsPosition key ks vs none = assoc key (pairs ks vs) ≡ none
IsPosition key ks vs (some i) =
    (v : RecordId) × (get_elem? vs i ≡ some v) × (assoc key (pairs ks vs) ≡ some v)

IsPosition-shifted :
    (key k : ℕ) (ks : List ℕ) (v : RecordId) (vs : List RecordId) (o : Option ℕ)
    → (k == key) ≡ false
    → IsPosition key ks vs o
    → IsPosition key (k ∷ ks) (v ∷ vs) (shifted o)
unfolding assoc
IsPosition-shifted key k ks v vs none other h = rw (other, assoc) h
IsPosition-shifted key k ks v vs (some i) other h = (h.0, h.1, rw (other, assoc) h.2)

pub position_lem :
    (key : ℕ) (ks : List ℕ) (vs : List RecordId)
    → IsU64 key
    → All IsU64 ks
    → IsAscending ks
    → length vs ≡ length ks
    → IsPosition key ks vs (position ks key)
unfolding assoc
position_lem key [] vs hk fit asc same = unfold position lower_bound in refl
position_lem key (k ∷ ks) [] hk fit asc same = absurd (omega (arith, same))
position_lem key (k ∷ ks) (v ∷ vs) hk fit asc same =
    let ih = position_lem key ks vs hk fit.1 asc.1 (omega (arith, same)) in
    rw (position_step key k ks) (elim (Bool-cases (precedes k key)) [
      | inl less ↦ rw less (IsPosition-shifted key k ks v vs (position ks key) (different less) ih)
      | inr more ↦ elim (Bool-cases (k == key)) [
        | inl equal ↦ rw (more, equal) (v, refl, rw (equal, assoc))
        | inr other ↦
            rw (more, other) (rw (other, assoc) (assoc_behind key ks vs (behind more other)))
      ]
    ])
  where
    different : precedes k key ≡ true → (k == key) ≡ false
    different less = ground arith

    behind : precedes k key ≡ false → (k == key) ≡ false → All (λ x. rank key < rank x) ks
    behind more other =
        let apart : rank k ≢ rank key =
          λ e. absurd (ground (arith, rank-injective k key fit.0 hk e, other)) in
        All-imp (λ x. rank k < rank x) (λ x. rank key < rank x) (λ x h. ground arith) ks asc.0

value_in-IsPosition :
    (n : Node) (key : ℕ) (t : Tree)
    → IsPosition key n.keys n.values (position n.keys key)
    → value_in n key t ≡ (ok (assoc key (pairs n.keys n.values)), t)
unfolding value_in
value_in-IsPosition n key t = go (position n.keys key) refl
  where
    go :
        (o : Option ℕ)
        → position n.keys key ≡ o
        → IsPosition key n.keys n.values o
        → value_in n key t ≡ (ok (assoc key (pairs n.keys n.values)), t)
    go none e h = simp (value_in, e, h) refl
    go (some i) e h = simp (value_in, e, h.1, h.2) refl

get_value-leaf :
    (fuel key id : ℕ) (n : Node) (t s : Tree)
    → find_leaf fuel key t ≡ (ok id, s)
    → IsUnmoved t s
    → IsReadable id n s
    → IsSearch (leaf id n)
    → IsU64 key
    → (r : Tree) × (get_value fuel key t ≡ (ok (assoc key (pairs n.keys n.values)), r))
      × IsUnmoved t r
unfolding get_value
get_value-leaf fuel key id n t s found u r ordered fits =
    let (state, read, v) = read_node-IsReadable id n s u.valid r in
    let value =
      value_in-IsPosition n key state
        (position_lem key n.keys n.values fits ordered.3 ordered.2 ordered.1) in
    (state, simp (get_value, found, read, value) refl, IsUnmoved-trans t s state u v)

-- Over a valid pool in which every node of a search tree `sh` can be read (its page allocated and
-- cached with the node's bytes and fewer than 2^32 - 1 pins), whose root page is the tree's,
-- `get_value` of any 64-bit key with fuel for the height of `sh` returns what the entries of `sh`
-- have for that key, and leaves the cached pages and the disk as they are.
pub get_value-assoc :
    (sh : Shape) (fuel key : ℕ) (t : Tree)
    → t.root_page_id ≡ page_of sh
    → IsValid t.session.buffer
    → IsStoredTree sh t
    → IsSearch sh
    → IsWithin fuel sh
    → IsU64 key
    → (r : Tree) × (get_value fuel key t ≡ (ok (assoc key (entries_of sh)), r)) × IsUnmoved t r
unfolding find_leaf
get_value-assoc sh fuel key t root v h ordered w fits =
    let f = descend-Found sh fuel key t v h ordered w in
    let found : find_leaf fuel key t ≡ (ok f.page, f.state) =
      ap (λ id. descend fuel key id t) root ∙ f.returns in
    rw f.same
      (get_value-leaf fuel key f.page f.node t f.state found f.unmoved f.stored f.search fits)
