-- ===== src/Recovery/Idempotence.antt =====
-- Redo is repeatable: what a page already has is not put into it again.
use resume_project.Common.{
  ℕ, ◌-◌, ◌<◌, ◌≤◌, ◌≡◌, refl, ◌∙◌, Bool, true, false, ◌||◌, Option, none, some, List, length,
  length-set, get_or-set, get_or-set_self, arith, leb, le→leb, Result, ok, err, Bool-cases, inl,
  inr,
}
use resume_project.Common.Action.{next, rewrap, or_throw, ◌>>=◌}
use resume_project.Storage.Page.{PhysicalMutation, is_valid}
use resume_project.Storage.PageManager.{PageManager, is_page_allocated}
use resume_project.Buffer.Table.{lookup}
use resume_project.Buffer.Pool.Disk.{page_disk}
use resume_project.Buffer.Pool.Defs.{
  Pool, Frame, PoolError, frame_at, empty_frame, unpin_page, with_lsn, make_evictable, max_u32,
}
use resume_project.Buffer.Pool.Io.{fetch_page}
use resume_project.Buffer.Pool.Invariant.{IsValid}
use resume_project.Buffer.Pool.Fetch.{fetch_page-IsValid}
use resume_project.Buffer.Pool.Fetched.{
  IsPinned, fetch_page-IsPinned, fetch_page-hit, fetch_page-page,
}
use resume_project.Transactions.Errors.{
  EngineError, pool, cannot_pin_recovery_page, cannot_unpin_skipped_page,
  cannot_unpin_recovery_page,
}
use resume_project.Transactions.Capture.{with_payload}
use resume_project.Recovery.Replay.{
  ReplayContext, page_of, edit_frame, is_redoable, skip_page, put_image, redo_at,
  redo_physical_mutation,
}

-- What an unpin of a pinned page leaves.
abbrev pub IsUnpinned : {D : Type 0} → ℕ → Bool → Pool D → Pool D → Type 0
IsUnpinned f dirty s t =
    (t.page_table ≡ s.page_table)
    × (t.disk ≡ s.disk)
    × ((frame_at t.frames f).page ≡ (frame_at s.frames f).page)
    × ((frame_at t.frames f).dirty ≡ ((frame_at s.frames f).dirty || dirty))

pub unpin_page-pinned :
    {D : Type 0} (id f : ℕ) (dirty : Bool) (s : Pool D)
    → lookup id s.page_table ≡ some f
    → f < length s.frames
    → 0 < (frame_at s.frames f).pin_count
    → ((unpin_page id dirty s).0 ≡ ok true) × IsUnpinned f dirty s (unpin_page id dirty s).1
unfolding unpin_page make_evictable
unpin_page-pinned id f dirty s cached inside pinned =
    let v : Frame = record (frame_at s.frames f) {
      pin_count = (frame_at s.frames f).pin_count - 1;
      dirty = (frame_at s.frames f).dirty || dirty;
    } in
    ground (arith, cached, get_or-set s.frames f f v empty_frame inside)

-- The page is cached, and has all that the record `lsn` says, or more.
pub record IsRedone (lsn : ℕ) (id : ℕ) (s : ReplayContext) : Type 0 where
  pub frame : ℕ
  pub cached : lookup id s.buffer.page_table ≡ some frame
  pub covered : lsn ≤ (frame_at s.buffer.frames frame).page.lsn

-- The page is pinned in its frame.
abbrev IsHeld : ℕ → ℕ → ReplayContext → Type 0
IsHeld id f s = (f < length s.buffer.frames) × IsPinned id f s.buffer

-- A method of the pool that has returned.
abbrev of_pool :
    {A : Type 0}
    → ReplayContext
    → Result PoolError A × Pool PageManager
    → Result EngineError A × ReplayContext
of_pool s q = rewrap (λ t r. record r { buffer = t }) (λ e. e) s (rewrap (λ t r. t) pool s.buffer q)

of_pool-ok :
    {A : Type 0} (s : ReplayContext) (q : Result PoolError A × Pool PageManager) (a : A)
    → q.0 ≡ ok a
    → of_pool s q ≡ (ok a, record s { buffer = q.1 })
of_pool-ok s (ok b, t) a e = ground (arith, e)
of_pool-ok s (err x, t) a e = absurd (ground arith)

skip_page-lem :
    (id f : ℕ) (error : EngineError) (s : ReplayContext)
    → IsHeld id f s
    → skip_page id error s ≡ (ok false, record s { buffer = (unpin_page id false s.buffer).1 })
unfolding skip_page
skip_page-lem id f error s (inside, (cached, _, pinned)) =
    rw
      (of_pool-ok s (unpin_page id false s.buffer) true
        (unpin_page-pinned id f false s.buffer cached inside pinned).0)
      refl

put_image-lem :
    (id f lsn : ℕ) (payload : List ℕ) (error : EngineError) (s : ReplayContext)
    → IsHeld id f s
    → (t : Pool PageManager) × (put_image id f payload lsn error s
        ≡ (ok true, record s { buffer = t }))
      × (lookup id t.page_table ≡ some f)
      × ((frame_at t.frames f).page.payload ≡ payload)
      × ((frame_at t.frames f).page.lsn ≡ lsn)
      × ((frame_at t.frames f).dirty ≡ true)
unfolding put_image
put_image-lem id f lsn payload error s (inside, (cached, _, pinned)) =
    let v = with_lsn (with_payload payload (frame_at s.buffer.frames f)) lsn in
    let changed = edit_frame f (λ frame. with_lsn (with_payload payload frame) lsn) s in
    let at_f = get_or-set_self s.buffer.frames f v empty_frame inside in
    let (done, (table, _, page, dirty)) =
      unpin_page-pinned id f true changed.buffer cached (rw (length-set s.buffer.frames f v) inside)
        (rw at_f pinned) in
    (
      (unpin_page id true changed.buffer).1,
      rw (of_pool-ok changed (unpin_page id true changed.buffer) true done) refl,
      rw table cached,
      rw (page, at_f) refl,
      rw (page, at_f) refl,
      rw (dirty, at_f) (ground arith),
    )

-- What a redo that returned `b` has done to the page: when it applied the record, the page has its
-- image and its LSN, and is dirty.
abbrev pub IsApplied : ℕ → PhysicalMutation → Bool → Frame → Type 0
IsApplied lsn m b frame =
    b ≡ true → (frame.page.payload ≡ m.after_image) × (frame.page.lsn ≡ lsn) × (frame.dirty ≡ true)

abbrev pub Redone : ℕ → PhysicalMutation → Bool → ReplayContext → Type 0
Redone lsn m b s =
    (r : IsRedone lsn m.page_id s) × IsApplied lsn m b (frame_at s.buffer.frames r.frame)

-- What the redo of a record gave, when it returned: the page has the record.
abbrev Redoes : ℕ → PhysicalMutation → Result EngineError Bool × ReplayContext → Type 0
Redoes lsn m q = (b : Bool) → q.0 ≡ ok b → Redone lsn m b q.1

redo_at-Redoes :
    (lsn f : ℕ) (m : PhysicalMutation) (s : ReplayContext)
    → IsHeld m.page_id f s
    → Redoes lsn m (redo_at lsn m f s)
unfolding redo_at
redo_at-Redoes lsn f m s held = elim (Bool-cases (leb lsn (page_of f s).lsn)) [
  | inl covered ↦
      let (inside, (cached, _, pinned)) = held in
      let (_, (table, _, page, _)) =
        unpin_page-pinned m.page_id f false s.buffer cached inside pinned in
      rw (covered, redo_at, skip_page-lem m.page_id f cannot_unpin_skipped_page s held)
        (λ b e. (
          record { frame = f; cached = rw table cached; covered = rw page (ground arith) },
          λ applied. absurd (ground (arith, e, applied)),
        ))
  | inr behind ↦
      let (t, done, cached, at_payload, at_lsn, dirty) =
        put_image-lem m.page_id f lsn m.after_image cannot_unpin_recovery_page s held in
      rw (behind, redo_at, done)
        (λ b e. (
          record { frame = f; cached = cached; covered = omega (arith, at_lsn) },
          λ applied. (at_payload, at_lsn, dirty),
        ))
]

redo_physical_mutation-steps :
    (lsn : ℕ) (m : PhysicalMutation) (s : ReplayContext)
    → s.active ≡ true
    → is_redoable lsn m ≡ true
    → redo_physical_mutation lsn m s
      ≡ next
          (of_pool s (fetch_page page_disk m.page_id s.buffer))
          (λ fetched. or_throw fetched cannot_pin_recovery_page >>= λ f. redo_at lsn m f)
unfolding redo_physical_mutation
redo_physical_mutation-steps lsn m s active fine = simp (redo_physical_mutation, active, fine) refl

fetched-Redoes :
    (lsn : ℕ) (m : PhysicalMutation) (s : ReplayContext)
    (q : Result PoolError (Option ℕ) × Pool PageManager)
    → ((f : ℕ) → q.0 ≡ ok (some f) → (f < length q.1.frames) × IsPinned m.page_id f q.1)
    → Redoes lsn m (
        next
          (of_pool s q)
          (λ fetched. or_throw fetched cannot_pin_recovery_page >>= λ f. redo_at lsn m f))
fetched-Redoes lsn m s (err x, t) held = λ b e. absurd (ground arith)
fetched-Redoes lsn m s (ok none, t) held = λ b e. absurd (ground arith)
fetched-Redoes lsn m s (ok (some f), t) held =
    redo_at-Redoes lsn f m (record s { buffer = t }) (held f refl)

-- When the redo of a mutation over a valid pool returns, the page is cached, and its LSN is the
-- record's or a later one; when it returned true, the page has the after image and the record's
-- LSN, and is dirty.
pub redo_physical_mutation-IsRedone :
    (lsn : ℕ) (m : PhysicalMutation) (s : ReplayContext) (b : Bool)
    → IsValid s.buffer
    → (redo_physical_mutation lsn m s).0 ≡ ok b
    → Redone lsn m b (redo_physical_mutation lsn m s).1
unfolding redo_physical_mutation
redo_physical_mutation-IsRedone lsn m s b h = elim (Bool-cases s.active) [
  | inr off ↦ simp (redo_physical_mutation, off) (λ e. absurd (ground arith))
  | inl on ↦ elim (Bool-cases (is_redoable lsn m)) [
    | inr bad ↦ simp (redo_physical_mutation, on, bad) (λ e. absurd (ground arith))
    | inl fine ↦ rw (redo_physical_mutation-steps lsn m s on fine) (
        fetched-Redoes lsn m s (fetch_page page_disk m.page_id s.buffer)
          (λ f e.
            let pinned = fetch_page-IsPinned page_disk m.page_id f s.buffer h e in
            (
              ((fetch_page-IsValid page_disk m.page_id s.buffer h).resident m.page_id f pinned.0).0,
              pinned,
            ))
          b)
  ]
]

-- Over a valid pool in an active context, the redo of a well-formed mutation of an allocated page
-- that is cached with the record's LSN or a later one, with fewer than 2^32 - 1 pins, returns
-- false and leaves the page and the disk as they are.
pub redo_physical_mutation-again :
    (lsn : ℕ) (m : PhysicalMutation) (s : ReplayContext)
    → IsValid s.buffer
    → s.active ≡ true
    → is_redoable lsn m ≡ true
    → (r : IsRedone lsn m.page_id s) → is_page_allocated s.buffer.disk m.page_id ≡ true
    → (frame_at s.buffer.frames r.frame).pin_count < max_u32
    → ((redo_physical_mutation lsn m s).0 ≡ ok false)
      × (page_of r.frame (redo_physical_mutation lsn m s).1 ≡ page_of r.frame s)
      × ((redo_physical_mutation lsn m s).1.buffer.disk ≡ s.buffer.disk)
unfolding redo_at
redo_physical_mutation-again lsn m s h on fine r allocated room =
    let id = m.page_id in
    let f = r.frame in
    let valid : is_valid id ≡ true = unfold is_redoable in ground (arith, fine) in
    let q = fetch_page page_disk id s.buffer in
    let t : ReplayContext = record s { buffer = q.1 } in
    let (hit, pins, disk) =
      fetch_page-hit page_disk id f s.buffer h valid allocated r.cached room in
    let page = fetch_page-page page_disk id f s.buffer h valid allocated r.cached room in
    let (cached, named, pinned) = fetch_page-IsPinned page_disk id f s.buffer h hit in
    let inside = ((fetch_page-IsValid page_disk id s.buffer h).resident id f cached).0 in
    let held : IsHeld id f t = (inside, (cached, named, pinned)) in
    let covered : leb lsn (page_of f t).lsn ≡ true = rw page (le→leb lsn _ r.covered) in
    let (_, (_, kept, same, _)) = unpin_page-pinned id f false q.1 cached inside pinned in
    rw
      (
        redo_physical_mutation-steps lsn m s on fine,
        of_pool-ok s q (some f) hit,
        redo_at,
        covered,
        skip_page-lem id f cannot_unpin_skipped_page t held,
      )
      (refl, same ∙ page, kept ∙ disk)
