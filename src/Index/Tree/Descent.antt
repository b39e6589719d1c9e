-- ===== src/Index/Tree/Descent.antt =====
-- The descent of `find_leaf` through the pages of a search tree.
use resume_project.Common.{
  ℕ, zero, suc, ◌≡◌, refl, ◌∙◌, false, some, List, [], ◌∷◌, get_elem?, ok, Bool-cases, inl, inr,
}
use resume_project.Buffer.Pool.Invariant.{IsValid}
use resume_project.Index.Key.{precedes, upper_bound}
use resume_project.Index.Node.{Node}
use resume_project.Index.Shape.{
  Shape, Shapes, leaf, fork, nil, cons, page_of, pages_of, pairs, entries_of, assoc, IsWithin,
  AreWithin,
}
use resume_project.Index.Shape.Search.{IsSearch, AreParted, chosen, assoc-chosen}
use resume_project.Index.Tree.{Tree, read_node}
use resume_project.Index.Tree.Reads.{
  IsReadable, IsUnmoved, IsUnmoved-trans, IsReadable-moved, read_node-IsReadable,
}
use resume_project.Index.Tree.Search.{descend}

-- Every node of the tree can be read.
abbrev mutual
  pub IsStoredTree : Shape → Tree → Type 0
  IsStoredTree (leaf id n) t = IsReadable id n t
  IsStoredTree (fork id n cs) t = IsReadable id n t × AreStored cs t

  pub AreStored : Shapes → Tree → Type 0
  AreStored nil t = Unit
  AreStored (cons c cs) t = IsStoredTree c t × AreStored cs t

mutual
  pub IsStoredTree-moved :
      (sh : Shape) (t s : Tree) → IsUnmoved t s → IsStoredTree sh t → IsStoredTree sh s
  IsStoredTree-moved (leaf id n) t s u h = IsReadable-moved id n t s u h
  IsStoredTree-moved (fork id n cs) t s u h =
      (IsReadable-moved id n t s u h.0, AreStored-moved cs t s u h.1)

  AreStored-moved : (cs : Shapes) (t s : Tree) → IsUnmoved t s → AreStored cs t → AreStored cs s
  AreStored-moved nil t s u h = tt
  AreStored-moved (cons c cs) t s u h =
      (IsStoredTree-moved c t s u h.0, AreStored-moved cs t s u h.1)

-- A descent from the root of `sh` ends at a leaf that has all that the tree has of the key.
pub record Found (fuel key : ℕ) (sh : Shape) (t : Tree) : Type 0 where
  pub page : ℕ
  pub node : Node
  pub state : Tree
  pub returns : descend fuel key (page_of sh) t ≡ (ok page, state)
  pub unmoved : IsUnmoved t state
  pub stored : IsStoredTree (leaf page node) state
  pub search : IsSearch (leaf page node)
  pub same : assoc key (entries_of sh) ≡ assoc key (pairs node.keys node.values)

-- And so for the child that the separators choose.
record FoundIn (fuel key : ℕ) (ks : List ℕ) (cs : Shapes) (t : Tree) : Type 0 where
  child : Shape
  choice : chosen ks cs key ≡ some child
  place : get_elem? (pages_of cs) (upper_bound ks key) ≡ some (page_of child)
  found : Found fuel key child t

descend-fork :
    (fuel key id : ℕ) (n : Node) (cs : Shapes) (t s : Tree)
    → n.leaf ≡ false
    → n.children ≡ pages_of cs
    → AreParted n.keys cs
    → read_node id t ≡ (ok n, s)
    → IsUnmoved t s
    → FoundIn fuel key n.keys cs s
    → Found (suc fuel) key (fork id n cs) t
unfolding descend entries_of
descend-fork fuel key id n cs t s internal children parted read u f = record {
  page = f.found.page;
  node = f.found.node;
  state = f.found.state;
  returns = simp (descend, read, internal, children, f.place) f.found.returns;
  unmoved = IsUnmoved-trans t s f.found.state u f.found.unmoved;
  stored = f.found.stored;
  search = f.found.search;
  same = assoc-chosen n.keys cs key f.child parted f.choice ∙ f.found.same;
}

descend-leaf :
    (fuel key id : ℕ) (n : Node) (t s : Tree)
    → IsSearch (leaf id n)
    → IsReadable id n t
    → read_node id t ≡ (ok n, s)
    → IsUnmoved t s
    → Found (suc fuel) key (leaf id n) t
unfolding descend entries_of
descend-leaf fuel key id n t s ordered r read u = record {
  page = id;
  node = n;
  state = s;
  returns = simp (descend, read, ordered.0) refl;
  unmoved = u;
  stored = IsReadable-moved id n t s u r;
  search = ordered;
  same = refl;
}

mutual
  unfolding chosen upper_bound

  -- Enough fuel for the height: the descent returns.
  pub descend-Found :
      (sh : Shape) (fuel key : ℕ) (t : Tree)
      → IsValid t.session.buffer
      → IsStoredTree sh t
      → IsSearch sh
      → IsWithin fuel sh
      → Found fuel key sh t
  descend-Found (leaf id n) zero key t v h ordered w = absurd w
  descend-Found (fork id n cs) zero key t v h ordered w = absurd w
  descend-Found (leaf id n) (suc fuel) key t v h ordered w =
      let (s, read, u) = read_node-IsReadable id n t v h in
      descend-leaf fuel key id n t s ordered h read u
  descend-Found (fork id n cs) (suc fuel) key t v h ordered w =
      let (s, read, u) = read_node-IsReadable id n t v h.0 in
      descend-fork fuel key id n cs t s ordered.0 ordered.1 ordered.2 read u
        (chosen-FoundIn n.keys cs fuel key s u.valid (AreStored-moved cs t s u h.1) ordered.2 w)

  chosen-FoundIn :
      (ks : List ℕ) (cs : Shapes) (fuel key : ℕ) (t : Tree)
      → IsValid t.session.buffer
      → AreStored cs t
      → AreParted ks cs
      → AreWithin fuel cs
      → FoundIn fuel key ks cs t
  chosen-FoundIn ks nil fuel key t v h parted w = absurd parted
  chosen-FoundIn [] (cons c nil) fuel key t v h parted w = record {
    child = c;
    choice = refl;
    place = refl;
    found = descend-Found c fuel key t v h.0 parted w.0;
  }
  chosen-FoundIn [] (cons c (cons d cs)) fuel key t v h parted w = absurd parted
  chosen-FoundIn (k ∷ ks) (cons c cs) fuel key t v h parted w = elim (Bool-cases (precedes key k)) [
    | inl less ↦ record {
      child = c;
      choice = rw less;
      place = rw less;
      found = descend-Found c fuel key t v h.0 parted.2 w.0;
    }
    | inr more ↦
        let rest = chosen-FoundIn ks cs fuel key t v h.1 parted.3 w.1 in
        record {
          child = rest.child;
          choice = rw more rest.choice;
          place = rw more rest.place;
          found = rest.found;
        }
  ]
