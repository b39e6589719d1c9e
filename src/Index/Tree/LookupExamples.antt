-- ===== src/Index/Tree/LookupExamples.antt =====
-- A tree of a root and two leaves, in the pool.
use resume_project.Common.{
  ℕ, ◌≡◌, refl, true, false, none, [], ◌∷◌, arith, ok, replicate, put16, put64, get16, get64,
  same_bytes,
}
use resume_project.Storage.Page.{page_payload_size, invalid_page}
use resume_project.Storage.PageManager.{
  PageManager, raw_page, is_page_allocated, read_page, page_in, after_read, read_block,
  has_page_format, validate_logically_allocated, validate_allocated, offset_for,
}
use resume_project.Storage.Bitmap.{test_bit}
use resume_project.Storage.Log.Reopen.{opened}
use resume_project.Buffer.Table.{lookup}
use resume_project.Buffer.Pool.Defs.{create, free_from, empty_frames, unpin_page, make_evictable}
use resume_project.Buffer.Pool.Io.{fetch_page, acquire_frame, load_acquired, load_page, place}
use resume_project.Buffer.Pool.Invariant.{IsValid}
use resume_project.Buffer.Pool.Create.{create-IsValid}
use resume_project.Concurrency.Reachable.{new_manager}
use resume_project.Transactions.Capture.{new_context}
use resume_project.Index.Key.{rank}
use resume_project.Index.Node.{Node}
use resume_project.Index.Node.RoundTrip.{IsNode}
use resume_project.Index.Shape.{Shape, leaf, fork, nil, cons, entries_of, assoc}
use resume_project.Index.Shape.Search.{IsSearch}
use resume_project.Index.Tree.{
  Tree, plain, write_node, is_writable, write_payload, fill, watch_in, finish_in, put_payload,
}
use resume_project.Index.Tree.Examples.{config_16}
use resume_project.Index.Tree.Stored.{write_node-IsStored}
use resume_project.Index.Tree.Reads.{IsReadable, IsUnmoved}
use resume_project.Index.Tree.Search.{get_value}
use resume_project.Index.Tree.Lookup.{get_value-assoc}

abbrev pub disk : PageManager
disk = record {
  blocks =
      []
      ∷ raw_page 0 0 (replicate page_payload_size 0)
      ∷ raw_page 1 0 (replicate page_payload_size 0)
      ∷ raw_page 2 0 (replicate page_payload_size 0)
      ∷ [];
  page_count = 3;
  allocation_bitmap = 7 ∷ [];
  allocated_page_count = 3;
  failed = false;
  stream = [];
}

abbrev pub tree : Tree
tree = record {
  session = record {
    buffer = create disk 3 none;
    log = opened [] [];
    locks = new_manager;
    context = none;
    transaction = record {
      id = 7;
      logged = false;
      pending_mutations = [];
      undo_resolved = [];
      finalized_mutations = 0;
      allocated_pages = [];
    };
  };
  captures = new_context;
  mode = plain;
  metadata_page_id = 9;
  root_page_id = 0;
  config = config_16;
}

abbrev root : Node
root = record {
  leaf = false;
  parent = invalid_page;
  next = invalid_page;
  keys = 50 ∷ [];
  values = [];
  children = 1 ∷ 2 ∷ [];
}

abbrev low : Node
low = record {
  leaf = true;
  parent = 0;
  next = 2;
  keys = 10 ∷ [];
  values = record { page_id = 5; slot_id = 2 } ∷ [];
  children = [];
}

abbrev pub high : Node
high = record {
  leaf = true;
  parent = 0;
  next = invalid_page;
  keys = 50 ∷ 70 ∷ [];
  values = record { page_id = 5; slot_id = 3 } ∷ record { page_id = 6; slot_id = 0 } ∷ [];
  children = [];
}

abbrev one : Tree
one = (write_node 0 root tree).1

abbrev two : Tree
two = (write_node 1 low one).1

abbrev stored : Tree
stored = (write_node 2 high two).1

root-IsNode : IsNode config_16 root
root-IsNode = record {
  parent_fits = omega arith;
  next_fits = omega arith;
  count_fits = omega arith;
  keys_fit = (omega arith, tt);
  room = omega arith;
  has_entries = (refl, refl, (omega arith, (omega arith, tt)));
}

low-IsNode : IsNode config_16 low
low-IsNode = record {
  parent_fits = omega arith;
  next_fits = omega arith;
  count_fits = omega arith;
  keys_fit = (omega arith, tt);
  room = omega arith;
  has_entries = (refl, refl, ((omega arith, omega arith), tt));
}

high-IsNode : IsNode config_16 high
high-IsNode = record {
  parent_fits = omega arith;
  next_fits = omega arith;
  count_fits = omega arith;
  keys_fit = (omega arith, (omega arith, tt));
  room = omega arith;
  has_entries = (refl, refl, ((omega arith, omega arith), ((omega arith, omega arith), tt)));
}

stored-IsStoredTree :
    IsReadable 0 root stored
    × IsReadable 1 low stored
    × IsReadable 2 high stored
    × IsValid stored.session.buffer
    × ◌≡◌ {A = ℕ} stored.root_page_id 0
unfolding write_node is_writable write_payload fill watch_in finish_in put_payload fetch_page
    acquire_frame create load_acquired load_page place free_from empty_frames lookup unpin_page
    make_evictable is_page_allocated test_bit read_page page_in after_read read_block
    has_page_format validate_logically_allocated validate_allocated offset_for raw_page put16 put64
    get16 get64 same_bytes replicate
stored-IsStoredTree = (
  record {
    frame = 0;
    node = root-IsNode;
    named = refl;
    allocated = refl;
    cached = refl;
    holds = refl;
    room = omega arith;
  },
  record {
    frame = 1;
    node = low-IsNode;
    named = refl;
    allocated = refl;
    cached = refl;
    holds = refl;
    room = omega arith;
  },
  record {
    frame = 2;
    node = high-IsNode;
    named = refl;
    allocated = refl;
    cached = refl;
    holds = refl;
    room = omega arith;
  },
  (write_node-IsStored 2 high two refl
      (write_node-IsStored 1 low one refl
        (write_node-IsStored 0 root tree refl (create-IsValid disk 3 none) refl).valid refl).valid
      refl).valid,
  refl,
)

abbrev shape : Shape
shape = fork 0 root (cons (leaf 1 low) (cons (leaf 2 high) nil))

shape-IsSearch : IsSearch shape
unfolding rank entries_of
shape-IsSearch = (
  refl,
  refl,
  (
    (omega arith, tt),
    (omega arith, (omega arith, tt)),
    (refl, refl, (tt, tt), (omega arith, tt)),
    (refl, refl, ((omega arith, tt), (tt, tt)), (omega arith, (omega arith, tt))),
  ),
)

get_value-assoc_example :
    (r : Tree) × (get_value 2 70 stored ≡ (ok (assoc 70 (entries_of shape)), r))
    × IsUnmoved stored r
get_value-assoc_example =
    let (a, b, c, valid, same) = stored-IsStoredTree in
    get_value-assoc shape 2 70 stored same valid (a, (b, (c, tt))) shape-IsSearch (tt, (tt, tt))
      (omega arith)
