-- ===== src/Index/Tree/Reads.antt =====
-- A read of a node that is cached, as one step.
use resume_project.Common.{ℕ, ◌<◌, ◌≡◌, refl, ap, ◌∙◌, true, false, some, ok}
use resume_project.Storage.Page.{is_valid}
use resume_project.Storage.PageManager.{is_page_allocated}
use resume_project.Buffer.Table.{lookup}
use resume_project.Buffer.Pool.Disk.{page_disk}
use resume_project.Buffer.Pool.Defs.{frame_at, unpin_page, max_u32}
use resume_project.Buffer.Pool.Io.{fetch_page}
use resume_project.Buffer.Pool.Invariant.{IsValid}
use resume_project.Buffer.Pool.Reads.{IsSame, read_pinned-IsSame}
use resume_project.Index.Node.{Node, encode_node}
use resume_project.Index.Node.RoundTrip.{IsNode, decode-encode_node}
use resume_project.Index.Tree.{Tree, read_payload, read_node}
use resume_project.Index.Tree.Stored.{of_pool-ok, with_buffer}

-- Page `id` can be pinned, and its cached bytes are the node `n`.
pub record IsReadable (id : ℕ) (n : Node) (t : Tree) : Type 0 where
  pub frame : ℕ
  pub node : IsNode t.config n
  pub named : is_valid id ≡ true
  pub allocated : is_page_allocated t.session.buffer.disk id ≡ true
  pub cached : lookup id t.session.buffer.page_table ≡ some frame
  pub holds : (frame_at t.session.buffer.frames frame).page.payload ≡ encode_node n
  pub room : (frame_at t.session.buffer.frames frame).pin_count < max_u32

-- A tree whose pool may have counted and reordered, but holds the same pages.
pub record IsUnmoved (t s : Tree) : Type 0 where
  pub same : IsSame t.session.buffer s.session.buffer
  pub valid : IsValid s.session.buffer
  pub root : s.root_page_id ≡ t.root_page_id
  pub config : s.config ≡ t.config

pub IsUnmoved-trans : (t s r : Tree) → IsUnmoved t s → IsUnmoved s r → IsUnmoved t r
IsUnmoved-trans t s r a b = record {
  same = (b.same.0 ∙ a.same.0, b.same.1 ∙ a.same.1, b.same.2 ∙ a.same.2);
  valid = b.valid;
  root = b.root ∙ a.root;
  config = b.config ∙ a.config;
}

pub IsReadable-moved :
    (id : ℕ) (n : Node) (t s : Tree) → IsUnmoved t s → IsReadable id n t → IsReadable id n s
IsReadable-moved id n t s u r = record {
  frame = r.frame;
  node = rw u.config r.node;
  named = r.named;
  allocated = rw u.same.2 r.allocated;
  cached = rw u.same.0 r.cached;
  holds = rw u.same.1 r.holds;
  room = rw u.same.1 r.room;
}

-- A read of a node that can be read returns it and moves nothing.
pub read_node-IsReadable :
    (id : ℕ) (n : Node) (t : Tree)
    → IsValid t.session.buffer
    → IsReadable id n t
    → (s : Tree) × (read_node id t ≡ (ok n, s)) × IsUnmoved t s
unfolding read_node read_payload
read_node-IsReadable id n t h r =
    let old = t.session.buffer in
    let q = fetch_page page_disk id old in
    let (hit, page, done, same, valid) =
      read_pinned-IsSame page_disk id r.frame old h r.named r.allocated r.cached r.room in
    let payload : (frame_at q.1.frames r.frame).page.payload ≡ encode_node n =
      ap (λ p. p.payload) page ∙ r.holds in
    (
      with_buffer (unpin_page id false q.1).1 t,
      rw
          (
            of_pool-ok t q (some r.frame) hit,
            of_pool-ok (with_buffer q.1 t) (unpin_page id false q.1) true done,
            payload,
            decode-encode_node t.config n r.node,
          )
          refl,
      record { same = same; valid = valid; root = refl; config = refl },
    )
