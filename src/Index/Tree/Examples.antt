-- ===== src/Index/Tree/Examples.antt =====
-- A tree on a database of one page, which becomes its leaf.
use resume_project.Common.{
  ◌≡◌, refl, true, false, none, [], ◌∷◌, ok, replicate, put16, put64, get16, get64, same_bytes,
}
use resume_project.Storage.Page.{page_payload_size}
use resume_project.Storage.PageManager.{
  PageManager, raw_page, is_page_allocated, read_page, page_in, after_read, read_block,
  has_page_format, validate_logically_allocated, validate_allocated, offset_for,
}
use resume_project.Storage.Bitmap.{test_bit}
use resume_project.Storage.Log.Reopen.{opened}
use resume_project.Buffer.Table.{lookup}
use resume_project.Buffer.Pool.Defs.{create, free_from, empty_frames, unpin_page, make_evictable}
use resume_project.Buffer.Pool.Io.{fetch_page, acquire_frame, load_acquired, load_page, place}
use resume_project.Buffer.Pool.Create.{create-IsValid}
use resume_project.Concurrency.Reachable.{new_manager}
use resume_project.Transactions.Capture.{new_context}
use resume_project.Index.Node.{Config, Node, encode_node}
use resume_project.Index.Tree.{
  Tree, plain, write_node, is_writable, write_payload, fill, watch_in, finish_in, put_payload,
}
use resume_project.Index.Tree.Stored.{IsStored, write_node-IsStored}

abbrev pub config_16 : Config
config_16 = record { leaf_max_keys = 16; internal_max_keys = 16 }

-- Page 0 is allocated and empty.
abbrev disk : PageManager
disk = record {
  blocks = [] ∷ raw_page 0 0 (replicate page_payload_size 0) ∷ [];
  page_count = 1;
  allocation_bitmap = 1 ∷ [];
  allocated_page_count = 1;
  failed = false;
  stream = [];
}

abbrev tree : Tree
tree = record {
  session = record {
    buffer = create disk 2 none;
    log = opened [] [];
    locks = new_manager;
    context = none;
    transaction = record {
      id = 7;
      logged = false;
      pending_mutations = [];
      undo_resolved = [];
      finalized_mutations = 0;
      allocated_pages = [];
    };
  };
  captures = new_context;
  mode = plain;
  metadata_page_id = 9;
  root_page_id = 0;
  config = config_16;
}

abbrev one_entry : Node
one_entry = record {
  leaf = true;
  parent = 9;
  next = 4;
  keys = 70 ∷ [];
  values = record { page_id = 5; slot_id = 2 } ∷ [];
  children = [];
}

writes : (write_node 0 one_entry tree).0 ≡ ok tt
unfolding write_node is_writable write_payload fill watch_in finish_in put_payload fetch_page
    acquire_frame create load_acquired load_page place free_from empty_frames lookup unpin_page
    make_evictable is_page_allocated test_bit read_page page_in after_read read_block
    has_page_format validate_logically_allocated validate_allocated offset_for raw_page put16 put64
    get16 get64 same_bytes replicate
writes = refl

write_node-IsStored_example : IsStored 0 (encode_node one_entry) (write_node 0 one_entry tree).1
write_node-IsStored_example =
    write_node-IsStored 0 one_entry tree refl (create-IsValid disk 2 none) writes
