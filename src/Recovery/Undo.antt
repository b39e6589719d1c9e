-- ===== src/Recovery/Undo.antt =====
-- UndoEngine of src/recovery/undo_engine.cpp: every page that a loser changed is built again from its
-- first image and the bytes that committed mutations changed; then the losers' pages are released.
-- `duration`, a time, is left out. `std::sort` and the ordered sets are insertions here: LSNs differ,
-- so any sort gives the same list.
use resume_project.Common.{
  ℕ, ◌+◌, Bool, true, false, not, Option, none, some, List, [], ◌∷◌, ◌++◌, length, get_elem?, ltb,
  ◌==◌, if◌then◌else◌,
}
use resume_project.Common.Action.{Action, pure, throw, gets, or_throw, throw_if, ◌>>=◌, ◌>>◌}
use resume_project.Transactions.Errors.{
  EngineError, undo_run_inactive, index_out_of_range, mutation_without_transaction,
}
use resume_project.Recovery.Analysis.{
  RecoveryState, AllocationRecord, MutationRecord, TransactionAnalysis, TransactionStatus,
  is_aborted, transaction, mutations_for_page,
}
use resume_project.Recovery.Replay.{ReplayContext, reconstruct_page, undo_page_allocate}
use resume_project.Recovery.Redo.{is_committed_status}

pub record UndoMetrics : Type 0 where
  pub records_considered : ℕ
  pub committed_transactions_skipped : ℕ
  pub aborted_transactions : ℕ
  pub incomplete_transactions : ℕ
  pub mutations_considered : ℕ
  pub mutations_undone : ℕ
  pub mutations_skipped : ℕ
  pub pages_touched : ℕ
  pub allocations_released : ℕ

abbrev pub no_undo : UndoMetrics
no_undo = record {
  records_considered = 0;
  committed_transactions_skipped = 0;
  aborted_transactions = 0;
  incomplete_transactions = 0;
  mutations_considered = 0;
  mutations_undone = 0;
  mutations_skipped = 0;
  pages_touched = 0;
  allocations_released = 0;
}

-- What the first loop collects.
pub record Losers : Type 0 where
  pub metrics : UndoMetrics
  pub mutations : List MutationRecord
  pub allocations : List AllocationRecord

-- `.at(index)` of every index
unfoldable pub pick : {A : Type 0} → List A → List ℕ → Action ReplayContext EngineError (List A)
pick xs [] = pure []
pick xs (i ∷ is) = do
  x ← or_throw (get_elem? xs i) index_out_of_range
  rest ← pick xs is
  pure (x ∷ rest)

abbrev count_loser : TransactionStatus → UndoMetrics → UndoMetrics
count_loser is_aborted m = record m { aborted_transactions = m.aborted_transactions + 1 }
count_loser status m = record m { incomplete_transactions = m.incomplete_transactions + 1 }

abbrev count_skipped : UndoMetrics → UndoMetrics
count_skipped m = record m { committed_transactions_skipped = m.committed_transactions_skipped + 1 }

unfoldable pub add_loser :
    RecoveryState → TransactionAnalysis → Losers → Action ReplayContext EngineError Losers
add_loser state t l = do
  ms ← pick state.mutations t.mutation_indexes
  allocated ← pick state.allocations t.allocation_indexes
  pure (record {
    metrics = count_loser t.status l.metrics;
    mutations = l.mutations ++ ms;
    allocations = l.allocations ++ allocated;
  })

unfoldable pub collect :
    RecoveryState
    → List (ℕ × TransactionAnalysis)
    → Losers
    → Action ReplayContext EngineError Losers
collect state [] l = pure l
collect state ((k, t) ∷ ts) l = do
  next_losers ←
      if is_committed_status t.status
      then pure (record l { metrics = count_skipped l.metrics })
      else add_loser state t l
  collect state ts next_losers

-- The history of a page, by LSN.
unfoldable pub insert_by_lsn : MutationRecord → List MutationRecord → List MutationRecord
insert_by_lsn m [] = m ∷ []
insert_by_lsn m (n ∷ ns) = if ltb n.lsn m.lsn then n ∷ insert_by_lsn m ns else m ∷ n ∷ ns

unfoldable pub sort_by_lsn : List MutationRecord → List MutationRecord
sort_by_lsn [] = []
sort_by_lsn (m ∷ ms) = insert_by_lsn m (sort_by_lsn ms)

-- `std::set::insert` of a page
unfoldable pub insert_page : ℕ → List ℕ → List ℕ
insert_page p [] = p ∷ []
insert_page p (q ∷ qs) =
    if p == q then q ∷ qs else if ltb p q then p ∷ q ∷ qs else q ∷ insert_page p qs

unfoldable pub affected : List MutationRecord → List ℕ
affected [] = []
affected (m ∷ ms) = insert_page m.mutation.page_id (affected ms)

-- The bytes that a mutation changed, put into `image`; the bytes that it left as they were are kept.
unfoldable pub apply_delta : List ℕ → List ℕ → List ℕ → List ℕ
apply_delta (b ∷ bs) (a ∷ more) (x ∷ image) = (if b == a then x else a) ∷ apply_delta bs more image
apply_delta before after image = image

-- The image and the LSN of the last committed mutation.
unfoldable pub survivors :
    RecoveryState → List MutationRecord → List ℕ × ℕ → Action ReplayContext EngineError (List ℕ × ℕ)
survivors state [] built = pure built
survivors state (m ∷ ms) built = do
  t ← or_throw (transaction state.transactions m.transaction_id) mutation_without_transaction
  survivors state ms (
      if is_committed_status t.status
      then (apply_delta m.mutation.before_image m.mutation.after_image built.0, m.lsn)
      else built)

abbrev is_loser : Option TransactionAnalysis → Bool
is_loser none = false
is_loser (some t) = not (is_committed_status t.status)

unfoldable pub count_losers : RecoveryState → List MutationRecord → ℕ
count_losers state [] = 0
count_losers state (m ∷ ms) =
    let rest = count_losers state ms in
    if is_loser (transaction state.transactions m.transaction_id) then rest + 1 else rest

abbrev count_page : Bool → ℕ → UndoMetrics → UndoMetrics
count_page true losers m = record m {
  mutations_undone = m.mutations_undone + losers;
  pages_touched = m.pages_touched + 1;
}
count_page false losers m = record m { mutations_skipped = m.mutations_skipped + losers }

unfoldable pub rebuild_page :
    RecoveryState
    → ℕ
    → List MutationRecord
    → UndoMetrics
    → Action ReplayContext EngineError UndoMetrics
rebuild_page state page [] m = throw index_out_of_range
rebuild_page state page (first ∷ rest) m = do
  built ← survivors state (first ∷ rest) (first.mutation.before_image, 0)
  rebuilt ← reconstruct_page page built.0 built.1
  pure (count_page rebuilt (count_losers state (first ∷ rest)) m)

unfoldable pub rebuild_pages :
    RecoveryState → List ℕ → UndoMetrics → Action ReplayContext EngineError UndoMetrics
rebuild_pages state [] m = pure m
rebuild_pages state (page ∷ rest) m = do
  counted ← rebuild_page state page (sort_by_lsn (mutations_for_page page state.mutations)) m
  rebuild_pages state rest counted

-- The last allocation first.
unfoldable pub insert_allocation : AllocationRecord → List AllocationRecord → List AllocationRecord
insert_allocation a [] = a ∷ []
insert_allocation a (b ∷ bs) = if ltb a.lsn b.lsn then b ∷ insert_allocation a bs else a ∷ b ∷ bs

unfoldable pub sort_allocations : List AllocationRecord → List AllocationRecord
sort_allocations [] = []
sort_allocations (a ∷ later) = insert_allocation a (sort_allocations later)

abbrev count_release : Bool → UndoMetrics → UndoMetrics
count_release released m = record m {
  allocations_released = if released then m.allocations_released + 1 else m.allocations_released;
}

unfoldable pub release_all :
    List AllocationRecord → UndoMetrics → Action ReplayContext EngineError UndoMetrics
release_all [] m = pure m
release_all (a ∷ later) m = do
  released ← undo_page_allocate a.page_id
  release_all later (count_release released m)

unfoldable pub run : RecoveryState → Action ReplayContext EngineError UndoMetrics
run state = do
  active ← gets (λ s. s.active)
  throw_if (not active) undo_run_inactive
  l ←
      collect state state.transactions
        (record { metrics = no_undo; mutations = []; allocations = [] })
  rebuilt ← rebuild_pages state (affected l.mutations) l.metrics
  released ← release_all (sort_allocations l.allocations) rebuilt
  pure (record released {
    records_considered = length l.mutations + length l.allocations;
    mutations_considered = length l.mutations;
  })
