-- ===== src/Index/Tree/Stored.antt =====
-- A node that was written is read back, through the pool.
use resume_project.Common.{
  ℕ, ◌<◌, ◌≡◌, refl, ap, ◌∙◌, true, false, Option, none, some, List, length-set, get_or-set_self,
  arith, Result, ok, err, Bool-cases, inl, inr,
}
use resume_project.Common.Action.{next, rewrap, or_throw, ◌>>=◌, pure}
use resume_project.Storage.Page.{is_valid}
use resume_project.Storage.PageManager.{PageManager, is_page_allocated}
use resume_project.Buffer.Table.{lookup}
use resume_project.Buffer.Pool.Disk.{page_disk}
use resume_project.Buffer.Pool.Defs.{
  Pool, PoolError, frame_at, set_frame, empty_frame, unpin_page, max_u32,
}
use resume_project.Buffer.Pool.Io.{fetch_page}
use resume_project.Buffer.Pool.Invariant.{IsValid, set_frame-IsValid}
use resume_project.Buffer.Pool.Methods.{unpin_page-IsValid}
use resume_project.Buffer.Pool.Fetch.{fetch_page-IsValid}
use resume_project.Buffer.Pool.Fetched.{
  IsPinned, fetch_page-IsPinned, fetch_page-hit, fetch_page-page,
}
use resume_project.Recovery.Idempotence.{unpin_page-pinned}
use resume_project.Transactions.Errors.{EngineError, pool, cannot_fetch_node_for_write}
use resume_project.Transactions.Capture.{with_payload}
use resume_project.Index.Node.{Node, encode_node}
use resume_project.Index.Node.RoundTrip.{IsNode, decode-encode_node}
use resume_project.Index.Tree.{
  Tree, plain, fill, watch_in, finish_in, put_payload, write_payload, read_payload, read_node,
  write_node, is_writable,
}

-- A method of the pool with what it gave.
abbrev pub of_pool :
    {A : Type 0} → Tree → Result PoolError A × Pool PageManager → Result EngineError A × Tree
of_pool t q =
    rewrap (λ s r. record r { session = s }) (λ e. e) t
      (rewrap (λ b s. record s { buffer = b }) (λ e. e) t.session
        (rewrap (λ b r. b) pool t.session.buffer q))

abbrev pub with_buffer : Pool PageManager → Tree → Tree
with_buffer b t = record t { session = record t.session { buffer = b } }

pub of_pool-ok :
    {A : Type 0} (t : Tree) (q : Result PoolError A × Pool PageManager) (a : A)
    → q.0 ≡ ok a
    → of_pool t q ≡ (ok a, with_buffer q.1 t)
of_pool-ok t (ok b, s) a e = ground (arith, e)
of_pool-ok t (err x, s) a e = absurd (ground arith)

-- The page is cached with this payload.
pub record IsStored (id : ℕ) (payload : List ℕ) (t : Tree) : Type 0 where
  pub frame : ℕ
  pub cached : lookup id t.session.buffer.page_table ≡ some frame
  pub holds : (frame_at t.session.buffer.frames frame).page.payload ≡ payload
  pub valid : IsValid t.session.buffer

-- The statements of a write after the fetch, in the mode `plain`.
abbrev filled : ℕ → ℕ → List ℕ → Tree → Result EngineError (Unit {0}) × Tree
filled id f payload t =
    next
      (of_pool (put_payload f payload t)
        (unpin_page id true (put_payload f payload t).session.buffer))
      (λ u. pure tt)

filled-IsStored :
    (id f : ℕ) (payload : List ℕ) (t : Tree)
    → IsValid t.session.buffer
    → IsPinned id f t.session.buffer
    → IsStored id payload (filled id f payload t).1
unfolding put_payload
filled-IsStored id f payload t h (cached, named, pinned) =
    let old = t.session.buffer in
    let v = with_payload payload (frame_at old.frames f) in
    let changed = set_frame f v old in
    let (inside, used, same) = h.resident id f cached in
    let at_f = get_or-set_self old.frames f v empty_frame inside in
    let (done, (table, _, page, _)) =
      unpin_page-pinned id f true changed cached (rw (length-set old.frames f v) inside)
        (rw at_f pinned) in
    let hv = set_frame-IsValid old h f inside v refl (λ e. refl) (λ e. refl) in
    rw (of_pool-ok (with_buffer changed t) (unpin_page id true changed) true done) (record {
      frame = f;
      cached = ap (λ m. lookup id m) table ∙ cached;
      holds = rw (page, at_f) refl;
      valid = unpin_page-IsValid id true changed hv;
    })

fill-plain :
    (id f : ℕ) (payload : List ℕ) (t : Tree)
    → t.mode ≡ plain
    → fill id payload f t ≡ filled id f payload t
unfolding fill watch_in finish_in
fill-plain id f payload t mode = simp (fill, mode) refl

fetched-IsStored :
    (id : ℕ) (payload : List ℕ) (error : EngineError) (t : Tree)
    (q : Result PoolError (Option ℕ) × Pool PageManager)
    → t.mode ≡ plain
    → IsValid q.1
    → ((f : ℕ) → q.0 ≡ ok (some f) → IsPinned id f q.1)
    → (next (of_pool t q) (λ fetched. or_throw fetched error >>= fill id payload)).0 ≡ ok tt
    → IsStored id payload
        (next (of_pool t q) (λ fetched. or_throw fetched error >>= fill id payload)).1
fetched-IsStored id payload error t (err x, s) mode h held e = absurd (ground arith)
fetched-IsStored id payload error t (ok none, s) mode h held e = absurd (ground arith)
fetched-IsStored id payload error t (ok (some f), s) mode h held e =
    rw (fill-plain id f payload (with_buffer s t) mode)
      (filled-IsStored id f payload (with_buffer s t) h (held f refl))

write_payload-IsStored :
    (id : ℕ) (payload : List ℕ) (error : EngineError) (t : Tree)
    → t.mode ≡ plain
    → IsValid t.session.buffer
    → (write_payload id payload error t).0 ≡ ok tt
    → IsStored id payload (write_payload id payload error t).1
unfolding write_payload
write_payload-IsStored id payload error t mode h =
    fetched-IsStored id payload error t (fetch_page page_disk id t.session.buffer) mode
      (fetch_page-IsValid page_disk id t.session.buffer h)
      (λ f. fetch_page-IsPinned page_disk id f t.session.buffer h)

-- When a write of a node returns, outside of mutation capture and over a valid pool, the pool is
-- valid and has the node's page cached with the node's bytes.
pub write_node-IsStored :
    (id : ℕ) (n : Node) (t : Tree)
    → t.mode ≡ plain
    → IsValid t.session.buffer
    → (write_node id n t).0 ≡ ok tt
    → IsStored id (encode_node n) (write_node id n t).1
unfolding write_node
write_node-IsStored id n t mode h = elim (Bool-cases (is_writable t.config n)) [
  | inr bad ↦ rw (write_node, bad) (λ e. absurd (ground arith))
  | inl fine ↦
      rw (write_node, fine)
        (write_payload-IsStored id (encode_node n) cannot_fetch_node_for_write t mode h)
]

-- A read of a node whose page is allocated and is cached with the node's bytes in a valid pool,
-- with fewer than 2^32 - 1 pins, returns the node and leaves the disk as it is, for a node with
-- fields within their widths, vectors of the lengths that its kind wants and no more keys than the
-- configuration allows.
pub read_node-IsStored :
    (id : ℕ) (n : Node) (t : Tree)
    → IsNode t.config n
    → (r : IsStored id (encode_node n) t) → is_valid id ≡ true
    → is_page_allocated t.session.buffer.disk id ≡ true
    → (frame_at t.session.buffer.frames r.frame).pin_count < max_u32
    → ((read_node id t).0 ≡ ok n) × ((read_node id t).1.session.buffer.disk ≡ t.session.buffer.disk)
unfolding read_node read_payload
read_node-IsStored id n t node r valid allocated room =
    let old = t.session.buffer in
    let f = r.frame in
    let q = fetch_page page_disk id old in
    let s = with_buffer q.1 t in
    let (hit, pins, disk) =
      fetch_page-hit page_disk id f old r.valid valid allocated r.cached room in
    let page = fetch_page-page page_disk id f old r.valid valid allocated r.cached room in
    let (cached, named, pinned) = fetch_page-IsPinned page_disk id f old r.valid hit in
    let inside = ((fetch_page-IsValid page_disk id old r.valid).resident id f cached).0 in
    let (done, (_, kept, same, _)) = unpin_page-pinned id f false q.1 cached inside pinned in
    let payload : (frame_at q.1.frames f).page.payload ≡ encode_node n =
      ap (λ p. p.payload) page ∙ r.holds in
    rw
      (
        of_pool-ok t q (some f) hit,
        of_pool-ok s (unpin_page id false q.1) true done,
        payload,
        decode-encode_node t.config n node,
      )
      (refl, kept ∙ disk)
