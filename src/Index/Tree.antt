-- ===== src/Index/Tree.antt =====
-- The pages of BPlusTree of src/index/bplus_tree.cpp: its metadata, and the reads and writes of its
-- nodes through the pool.
pub mod Metadata
pub mod Stored
pub mod Reads
pub mod Vectors
pub mod Search
pub mod Descent
pub mod Lookup
pub mod Removed
pub mod Insert
pub mod Entries
pub mod Remove
pub mod Validate
pub mod Examples
pub mod LookupExamples
mod EntryExamples
use resume_project.Common.{
  ℕ, ◌+◌, ◌-◌, Bool, true, false, not, ◌&&◌, ◌||◌, Option, none, some, List, [], ◌∷◌, ◌++◌, length,
  take, get_or, replicate, ltb, ◌==◌, if◌then◌else◌, Result, ok, err, put16, put64, get16, get64,
  same_bytes,
}
use resume_project.Common.Action.{
  Action, pure, throw, gets, or_throw, throw_if, modify, ◌>>=◌, ◌>>◌, within,
}
use resume_project.Storage.Page.{page_payload_size, invalid_page, is_valid}
use resume_project.Storage.PageManager.{PageManager, allocate_page}
use resume_project.Buffer.Pool.Disk.{page_disk}
use resume_project.Buffer.Pool.Defs.{Pool, PoolError, frame_at, set_frame, unpin_page}
use resume_project.Buffer.Pool.Io.{fetch_page, flush_all_pages}
use resume_project.Transactions.Errors.{
  EngineError, invalid_node_capacity, cannot_fetch_new_metadata, cannot_fetch_metadata_page,
  invalid_metadata_page, cannot_fetch_metadata, cannot_fetch_node, corrupt_node, invalid_node_write,
  cannot_fetch_node_for_write,
}
use resume_project.Transactions.Capture.{
  MutationContext, Capture, new_context, pooled, with_payload,
}
use resume_project.Transactions.Context
use resume_project.Transactions.Transaction.{
  Session, mutation_context, finalize_mutation, transaction_page, on_pages,
}
use resume_project.Transactions.Transaction
use resume_project.Index.Node.{Config, Node, is_valid_config, max_keys, encode_node, decode_node}

-- `active_mutations_` and `active_transaction_`: none, a context of the caller's, or a transaction and
-- its own context.
pub data Mode : Type 0 where
  plain captured transactional : Mode

-- `captures` is the caller's context of the mode `captured`; it has no finalizer.
pub record Tree : Type 0 where
  pub session : Session
  pub captures : MutationContext
  pub mode : Mode
  pub metadata_page_id : ℕ
  pub root_page_id : ℕ
  pub config : Config

abbrev pub TreeAction : Type 0 → Type 0
TreeAction A = Action Tree EngineError A

abbrev pub in_session : {A : Type 0} → Action Session EngineError A → TreeAction A
in_session = within (λ t. t.session) (λ s t. record t { session = s }) (λ e. e)

abbrev pub on_pool :
    {A : Type 0} → (Pool PageManager → Result PoolError A × Pool PageManager) → TreeAction A
on_pool m = in_session (Transaction.on_pool (pooled m))

-- The caller's context works on the pool of the session.
abbrev put_captures : Capture PageManager (Unit {0}) → Tree → Tree
put_captures c t = record t {
  captures = c.context;
  session = record t.session { buffer = c.buffer };
}

abbrev in_captures :
    {A : Type 0} → Action (Capture PageManager (Unit {0})) EngineError A → TreeAction A
in_captures =
    within (λ t. record { buffer = t.session.buffer; context = t.captures; owner = tt })
      put_captures (λ e. e)

-- `if (active_mutations_) active_mutations_->watch(id)`
unfoldable pub watch_in : Mode → ℕ → TreeAction (Unit {0})
watch_in plain id = pure tt
watch_in captured id = in_captures (Context.watch page_disk id)
watch_in transactional id = in_session (mutation_context (Context.watch page_disk id))

unfoldable pub finish_in : Mode → ℕ → ℕ → TreeAction (Unit {0})
finish_in plain id f = pure tt
finish_in captured id f = in_captures (Context.finish_page none id f)
finish_in transactional id f =
    in_session (mutation_context (Context.finish_page (some finalize_mutation) id f))

unfoldable pub put_payload : ℕ → List ℕ → Tree → Tree
put_payload f payload t = record t {
  session = record t.session {
    buffer =
        set_frame f (with_payload payload (frame_at t.session.buffer.frames f)) t.session.buffer;
  };
}

-- What every write of a tree's page does once it is pinned: watch, clear and fill, finish, unpin. The
-- result of the unpin is dropped.
unfoldable pub fill : ℕ → List ℕ → ℕ → TreeAction (Unit {0})
unfolding watch_in finish_in
fill id payload f = do
  mode ← gets (λ t. t.mode)
  watch_in mode id
  modify (put_payload f payload)
  finish_in mode id f
  _ ← on_pool (unpin_page id true)
  pure tt

unfoldable pub write_payload : ℕ → List ℕ → EngineError → TreeAction (Unit {0})
write_payload id payload error = do
  fetched ← on_pool (fetch_page page_disk id)
  f ← or_throw fetched error
  fill id payload f

abbrev pub tree_magic : List ℕ
tree_magic = b'D' ∷ b'D' ∷ b'B' ∷ b'B' ∷ b'P' ∷ b'T' ∷ b'3' ∷ 0 ∷ []

-- The root page and the configuration, on a cleared page.
unfoldable pub encode_metadata : ℕ → Config → List ℕ
encode_metadata root c =
    tree_magic
    ++ (put64 root
        ++ (put16 c.leaf_max_keys
            ++ (put16 c.internal_max_keys ++ replicate (page_payload_size - 20) 0)))

-- `none` is an invalid page.
unfoldable pub decode_metadata : List ℕ → Option (ℕ × Config)
decode_metadata payload =
    let root = get64 payload 8 in
    let c : Config = record {
      leaf_max_keys = get16 payload 16;
      internal_max_keys = get16 payload 18;
    } in
    if same_bytes (take 8 payload) tree_magic
      && is_valid root
      && not (ltb c.leaf_max_keys 2 || ltb c.internal_max_keys 2)
    then some (root, c)
    else none

unfoldable pub write_metadata : TreeAction (Unit {0})
write_metadata = do
  id ← gets (λ t. t.metadata_page_id)
  root ← gets (λ t. t.root_page_id)
  c ← gets (λ t. t.config)
  write_payload id (encode_metadata root c) cannot_fetch_metadata

-- The payload of a page, which is unpinned again.
unfoldable pub read_payload : ℕ → EngineError → TreeAction (List ℕ)
read_payload id error = do
  fetched ← on_pool (fetch_page page_disk id)
  f ← or_throw fetched error
  payload ← gets (λ t. (frame_at t.session.buffer.frames f).page.payload)
  _ ← on_pool (unpin_page id false)
  pure payload

unfoldable pub read_node : ℕ → TreeAction Node
read_node id = do
  payload ← read_payload id cannot_fetch_node
  c ← gets (λ t. t.config)
  or_throw (decode_node c payload) corrupt_node

-- The sizes of the vectors of a node, as `write_node` wants them.
unfoldable pub is_writable : Config → Node → Bool
is_writable c n =
    not (ltb (max_keys c n.leaf) (length n.keys))
    && (if n.leaf then length n.values == length n.keys else length n.children == length n.keys + 1)

unfoldable pub write_node : ℕ → Node → TreeAction (Unit {0})
write_node id n = do
  c ← gets (λ t. t.config)
  throw_if (not (is_writable c n)) invalid_node_write
  write_payload id (encode_node n) cannot_fetch_node_for_write

unfoldable allocate_in : Mode → TreeAction ℕ
allocate_in transactional = in_session transaction_page
allocate_in mode = in_session (on_pages allocate_page)

unfoldable pub allocate_node : Node → TreeAction ℕ
unfolding allocate_in
allocate_node n = do mode ← gets (λ t. t.mode); id ← allocate_in mode; write_node id n; pure id

unfoldable pub set_parent : ℕ → ℕ → TreeAction (Unit {0})
set_parent child parent = do n ← read_node child; write_node child (record n { parent = parent })

-- `Node empty`
abbrev empty_leaf : Node
empty_leaf = record {
  leaf = true;
  parent = invalid_page;
  next = invalid_page;
  keys = [];
  values = [];
  children = [];
}

-- The constructor: what the metadata page says.
unfoldable pub open_tree : ℕ → TreeAction (Unit {0})
open_tree id = do
  payload ← read_payload id cannot_fetch_metadata_page
  found ← or_throw (decode_metadata payload) invalid_metadata_page
  modify (λ t. record t {
    metadata_page_id = id;
    root_page_id = found.0;
    config = found.1;
    mode = plain;
  })

abbrev pub set_mode : Mode → Tree → Tree
set_mode mode t = record t { mode = mode }

pub flush : TreeAction (Unit {0})
flush = on_pool (flush_all_pages page_disk)

-- The two `create`s.
unfoldable pub create : Config → TreeAction ℕ
create c = do
  throw_if (not (is_valid_config c)) invalid_node_capacity
  metadata ← in_session (on_pages allocate_page)
  root ← in_session (on_pages allocate_page)
  modify (set_mode plain)
  write_payload metadata (encode_metadata root c) cannot_fetch_new_metadata
  open_tree metadata
  write_node root empty_leaf
  write_metadata
  flush
  pure metadata

unfoldable pub create_in_transaction : Config → TreeAction ℕ
create_in_transaction c = do
  throw_if (not (is_valid_config c)) invalid_node_capacity
  metadata ← in_session transaction_page
  root ← in_session transaction_page
  in_session (mutation_context (pure tt))
  modify (set_mode transactional)
  write_payload metadata (encode_metadata root c) cannot_fetch_new_metadata
  open_tree metadata
  modify (set_mode transactional)
  write_node root empty_leaf
  pure metadata
