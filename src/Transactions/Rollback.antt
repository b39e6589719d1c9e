-- ===== src/Transactions/Rollback.antt =====
-- `rollback_for_abort`: when it returns, no mutation is left to undo.
use resume_project.Common.{
  ℕ, zero, suc, ◌<◌, ◌≤◌, ◌≡◌, refl, sym, ap, ◌∙◌, subst, Bool, true, false, some, List, [], ◌∷◌,
  arith, Result, ok, err, length, length-set, get_or, set, get_elem?, get_or-set_self, get_or-set,
  Bool-cases, Option-cases, ◌==◌, inl, inr,
}
use resume_project.Common.Action.{next, rewrap, next-keeps}
use resume_project.Storage.Page.{PhysicalMutation}
use resume_project.Storage.PageManager.{PageManager, deallocate_page, is_page_allocated}
use resume_project.Buffer.Pool.Defs.{Pool}
use resume_project.Buffer.Pool.Disk.{page_disk}
use resume_project.Transactions.Capture.{MutationContext, apply_before_image}
use resume_project.Storage.Errors.{StorageError}
use resume_project.Transactions.Errors.{EngineError, pages}
use resume_project.Transactions.Transaction.{
  Session, put_pages, resolve_mutation_for_undo, undo_mutation, rollback_from, release_pages,
  rollback_for_abort, has_open_capture, has_unresolved_from, has_unresolved_mutations_for_abort,
}

-- Everything of the transaction but the flag `index`, which is set.
abbrev IsResolved : ℕ → Session → Session → Type 0
IsResolved index s t =
    (t.transaction
      ≡ record s.transaction { undo_resolved = set s.transaction.undo_resolved index true })
    × (t.context ≡ s.context)

resolve_mutation_for_undo-IsResolved :
    (index lsn : ℕ) (s : Session)
    → (resolve_mutation_for_undo index lsn s).0 ≡ ok tt
    → IsResolved index s (resolve_mutation_for_undo index lsn s).1
unfolding resolve_mutation_for_undo
resolve_mutation_for_undo-IsResolved index lsn s e = ground arith

-- The pool's part of an undo, with what it gave.
applied-IsResolved :
    (index lsn : ℕ) (s : Session) (q : Result EngineError (Unit {0}) × Pool PageManager)
    → (next
        (rewrap (λ t r. record r { buffer = t }) (λ e. e) s q)
        (λ u. resolve_mutation_for_undo index lsn)).0
      ≡ ok tt
    → IsResolved index s
        (next
          (rewrap (λ t r. record r { buffer = t }) (λ e. e) s q)
          (λ u. resolve_mutation_for_undo index lsn)).1
applied-IsResolved index lsn s (ok u, pool) e =
    resolve_mutation_for_undo-IsResolved index lsn (record s { buffer = pool }) e
applied-IsResolved index lsn s (err x, pool) e = absurd (ground arith)

undo_mutation-steps :
    (index : ℕ) (s : Session) (c : MutationContext) (m : PhysicalMutation)
    → s.context ≡ some c
    → get_elem? s.transaction.pending_mutations index ≡ some m
    → undo_mutation index s
      ≡ next
          (rewrap
            (λ t r. record r { buffer = t })
            (λ e. e)
            s
            (apply_before_image page_disk m s.buffer))
          (λ u. resolve_mutation_for_undo index m.previous_page_lsn)
unfolding undo_mutation
undo_mutation-steps index s c m present here = simp (undo_mutation, present, here) refl

undo_mutation-IsResolved :
    (index : ℕ) (s : Session)
    → (undo_mutation index s).0 ≡ ok tt
    → IsResolved index s (undo_mutation index s).1
unfolding undo_mutation
undo_mutation-IsResolved index s = elim (Option-cases s.context) [
  | inl absent ↦ simp (absent, undo_mutation) (λ e. absurd (ground arith))
  | inr (c, present) ↦ elim (Option-cases (get_elem? s.transaction.pending_mutations index)) [
    | inl outside ↦ simp (present, outside, undo_mutation) (λ e. absurd (ground arith))
    | inr (m, here) ↦
        rw (undo_mutation-steps index s c m present here)
          (applied-IsResolved index m.previous_page_lsn s (apply_before_image page_disk m s.buffer))
  ]
]

-- After a return, the flags below `n` are set, those that were set still are, and the rest of the
-- transaction is as before.
record IsUndone (n : ℕ) (s t : Session) : Type 0 where
  same_mutations : t.transaction.pending_mutations ≡ s.transaction.pending_mutations
  same_context : t.context ≡ s.context
  same_length : length t.transaction.undo_resolved ≡ length s.transaction.undo_resolved
  undone : (i : ℕ) → i < n → get_or t.transaction.undo_resolved i false ≡ true
  kept :
      (i : ℕ)
      → get_or s.transaction.undo_resolved i false ≡ true
      → get_or t.transaction.undo_resolved i false ≡ true

-- One round, with what it gave, and the rounds after it.
round-IsUndone :
    (index : ℕ) (s : Session) (q : Result EngineError (Unit {0}) × Session)
    → index < length s.transaction.undo_resolved
    → (q.0 ≡ ok tt → (get_or q.1.transaction.undo_resolved index false ≡ true) × IsUndone 0 s q.1)
    → ((t : Session)
        → index ≤ length t.transaction.undo_resolved
        → (rollback_from index t).0 ≡ ok tt
        → IsUndone index t (rollback_from index t).1)
    → (next q (λ u. rollback_from index)).0 ≡ ok tt
    → IsUndone (suc index) s (next q (λ u. rollback_from index)).1
round-IsUndone index s (err x, t) inside one more e = absurd (ground arith)
round-IsUndone index s (ok u, t) inside one more e =
    let (here, first) = one refl in
    let rest = more t (omega (arith, first.same_length)) e in
    record {
      same_mutations = rest.same_mutations ∙ first.same_mutations;
      same_context = rest.same_context ∙ first.same_context;
      same_length = rest.same_length ∙ first.same_length;
      undone = λ i below. elim (Bool-cases (i == index)) [
        | inl same ↦ rest.kept i (ground (arith, here))
        | inr other ↦ rest.undone i (ground arith)
      ];
      kept = λ i set_before. rest.kept i (first.kept i set_before);
    }

resolved-IsUndone :
    (index : ℕ) (s t : Session)
    → index < length s.transaction.undo_resolved
    → IsResolved index s t
    → (get_or t.transaction.undo_resolved index false ≡ true) × IsUndone 0 s t
resolved-IsUndone index s t inside (transaction, context) =
    let flags = s.transaction.undo_resolved in
    (
      rw transaction (get_or-set_self flags index true false inside),
      record {
        same_mutations = ap (λ x. x.pending_mutations) transaction;
        same_context = context;
        same_length = rw transaction (length-set flags index true);
        undone = λ i below. absurd (omega arith);
        kept = λ i h. rw transaction (ground (arith, get_or-set flags index i true false inside));
      },
    )

rollback_from-IsUndone :
    (n : ℕ) (s : Session)
    → n ≤ length s.transaction.undo_resolved
    → (rollback_from n s).0 ≡ ok tt
    → IsUndone n s (rollback_from n s).1
unfolding rollback_from
rollback_from-IsUndone zero s inside = λ e. record {
  same_mutations = refl;
  same_context = refl;
  same_length = refl;
  undone = λ i below. absurd (omega arith);
  kept = λ i h. h;
}
rollback_from-IsUndone (suc index) s inside =
    elim (Bool-cases (get_or s.transaction.undo_resolved index false)) [
      | inl done ↦
          rw (done, rollback_from)
            (round-IsUndone index s (ok tt, s) inside
              (λ e. (
                done,
                record {
                  same_mutations = refl;
                  same_context = refl;
                  same_length = refl;
                  undone = λ i below. absurd (omega arith);
                  kept = λ i h. h;
                },
              ))
              (rollback_from-IsUndone index))
      | inr open_yet ↦
          rw (open_yet, rollback_from)
            (round-IsUndone index s (undo_mutation index s) inside
              (λ e. resolved-IsUndone index s _ inside (undo_mutation-IsResolved index s e))
              (rollback_from-IsUndone index))
    ]

has_unresolved_from-false :
    (ms : List PhysicalMutation) (bs : List Bool)
    → length bs ≡ length ms
    → ((i : ℕ) → i < length ms → get_or bs i false ≡ true)
    → has_unresolved_from ms bs ≡ false
unfolding has_unresolved_from
has_unresolved_from-false [] bs same all = refl
has_unresolved_from-false (m ∷ ms) [] same all = absurd (omega (arith, same))
has_unresolved_from-false (m ∷ ms) (b ∷ bs) same all = rw (all 0 (omega arith)) (
    has_unresolved_from-false ms bs (omega (arith, same))
      (λ i below. all (suc i) (omega (arith, below))))

-- The release of the pages touches neither the mutations nor the context.
abbrev SameMutations : Session → Session → Type 0
SameMutations s t = (t.transaction ≡ s.transaction) × (t.context ≡ s.context)

put_pages-SameMutations :
    (s t : Session) (r : Result StorageError (Unit {0}) × PageManager)
    → SameMutations s t
    → SameMutations s (rewrap {F = EngineError} put_pages pages t r).1
put_pages-SameMutations s t (ok u, pm) h = h
put_pages-SameMutations s t (err e, pm) h = h

release_pages-SameMutations : (ids : List ℕ) (s : Session) → SameMutations s (release_pages ids s).1
unfolding release_pages
release_pages-SameMutations [] s = (refl, refl)
release_pages-SameMutations (id ∷ ids) s =
    next-keeps (SameMutations s) (release_pages ids s) _ (release_pages-SameMutations ids s)
      (λ u t h. elim (Bool-cases (is_page_allocated t.buffer.disk id)) [
        | inl on ↦ rw on (put_pages-SameMutations s t (deallocate_page id t.buffer.disk) h)
        | inr off ↦ rw off h
      ])

rollback_for_abort-steps :
    (s : Session)
    → has_open_capture s ≡ false
    → rollback_for_abort s
      ≡ next
          (rollback_from (length s.transaction.pending_mutations) s)
          (λ u t. release_pages t.transaction.allocated_pages t)
unfolding rollback_for_abort
rollback_for_abort-steps s fine = rw (fine, rollback_for_abort) refl

same_capture : (s t : Session) → t.context ≡ s.context → has_open_capture t ≡ has_open_capture s
unfolding has_open_capture
same_capture s t e = rw e refl

released :
    (s : Session) (q : Result EngineError (Unit {0}) × Session)
    → has_open_capture s ≡ false
    → length s.transaction.undo_resolved ≡ length s.transaction.pending_mutations
    → (q.0 ≡ ok tt → IsUndone (length s.transaction.pending_mutations) s q.1)
    → (next q (λ u t. release_pages t.transaction.allocated_pages t)).0 ≡ ok tt
    → has_unresolved_mutations_for_abort
        (next q (λ u t. release_pages t.transaction.allocated_pages t)).1
      ≡ false
unfolding has_unresolved_mutations_for_abort
released s (err x, t) fine same undone e = absurd (ground arith)
released s (ok u, t) fine same undone e =
    let h = undone refl in
    let (transaction, context) = release_pages-SameMutations t.transaction.allocated_pages t in
    rw
      (
        transaction,
        same_capture t (release_pages t.transaction.allocated_pages t).1 context,
        same_capture s t h.same_context,
        fine,
      )
      (has_unresolved_from-false t.transaction.pending_mutations t.transaction.undo_resolved
        (h.same_length ∙ same ∙ ap length (sym h.same_mutations))
        (λ i below. h.undone i (subst (λ ms. i < length ms) h.same_mutations below)))

-- When the rollback of a transaction that has one flag for each mutation returns, it has no
-- mutation left to undo and no open capture.
pub rollback_for_abort-resolves :
    (s : Session)
    → length s.transaction.undo_resolved ≡ length s.transaction.pending_mutations
    → (rollback_for_abort s).0 ≡ ok tt
    → has_unresolved_mutations_for_abort (rollback_for_abort s).1 ≡ false
unfolding rollback_for_abort
rollback_for_abort-resolves s same = elim (Bool-cases (has_open_capture s)) [
  | inl bad ↦ rw (bad, rollback_for_abort) (λ e. absurd (ground arith))
  | inr fine ↦ rw (rollback_for_abort-steps s fine) (
      released s (rollback_from (length s.transaction.pending_mutations) s) fine same
        (rollback_from-IsUndone _ s (omega (arith, same))))
]
