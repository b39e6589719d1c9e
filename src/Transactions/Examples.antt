-- ===== src/Transactions/Examples.antt =====
-- A session on a new database and an empty log, by transaction 7.
use resume_project.Common.{
  ℕ, ◌≡◌, refl, ap, true, false, none, some, [], ◌∷◌, arith, ok, err, replicate, length-replicate,
  same_bytes, put64,
}
use resume_project.Storage.Page.{PhysicalMutation, page_payload_size}
use resume_project.Storage.Wal.Mutation.{IsImage}
use resume_project.Storage.Log.{Log}
use resume_project.Storage.Log.Append.{Holds, append-whole}
use resume_project.Storage.Log.Reopen.{opened, opened-Holds}
use resume_project.Storage.PageManager.{
  PageManager, is_page_allocated, reserve_page, write_block, activate_reserved_page,
  validate_allocated, offset_for, write_allocation_catalog,
}
use resume_project.Storage.Bitmap.{test_bit, set_bit}
use resume_project.Storage.Wal.{page_allocate}
use resume_project.Storage.Wal.RoundTrip.{IsEncodable}
use resume_project.Storage.Wal.Mutation.{encode_page_allocate}
use resume_project.Storage.Log.{append_page_allocate, flush}
use resume_project.Buffer.Table.{lookup}
use resume_project.Buffer.Pool.Defs.{
  unpin_page, restore_page_lsn_after_undo, remove_from_lru, make_evictable,
}
use resume_project.Buffer.Pool.Io.{fetch_page, pin_cached}
use resume_project.Storage.PageManager.Fresh.{created, created-IsConsistent}
use resume_project.Buffer.Pool.Defs.{Frame, create}
use resume_project.Concurrency.LockManager.{committed}
use resume_project.Concurrency.LockManager
use resume_project.Concurrency.Reachable.{new_manager}
use resume_project.Transactions.Errors.{unlogged_mutations}
use resume_project.Transactions.Transaction.{
  Session, Transaction, Journal, allocate_transactional_page, has_unfinalized_mutations,
  has_open_capture, finalize_mutation, rollback_for_abort, rollback_from, undo_mutation,
  resolve_mutation_for_undo, release_pages, has_unresolved_mutations_for_abort, all_resolved,
}
use resume_project.Transactions.Coordinator.{commit, log_participant, state, prepare_commit}
use resume_project.Transactions.Forced.{AllDurable}
use resume_project.Transactions.Commit.{
  commit_record, commit-AllDurable, commit-throws, commit-returns,
}
use resume_project.Transactions.Capture.{
  Capture, Pending, new_context, mutation_of, find_pending, apply, apply_before_image,
}
use resume_project.Transactions.Context.{finish_page, has_unfinished_capture}
use resume_project.Transactions.Finish.{change_at, IsLogged, finish_page-IsLogged}
use resume_project.Transactions.Rollback.{rollback_for_abort-resolves}
use resume_project.Transactions.Allocation.{
  allocation_record, allocate_transactional_page-AllDurable,
}

abbrev empty_log : Log
empty_log = opened [] []

empty_log-Holds : Holds empty_log []
empty_log-Holds = opened-Holds [] [] tt tt (omega arith)

abbrev transaction_7 : Transaction
transaction_7 = record {
  id = 7;
  logged = true;
  pending_mutations = [];
  undo_resolved = [];
  finalized_mutations = 0;
  allocated_pages = [];
}

abbrev session : Session
session = record {
  buffer = create (created []) 2 (some 0);
  log = empty_log;
  locks = new_manager;
  context = none;
  transaction = transaction_7;
}

session-open : LockManager.is_finished (state session) ≡ false
unfolding new_manager
session-open = refl

session-finalized : has_unfinalized_mutations session ≡ false
unfolding has_unfinalized_mutations has_open_capture
session-finalized = refl

commit-returns_example : (commit (some log_participant) session).0 ≡ ok tt
commit-returns_example =
    commit-returns session [] empty_log-Holds (omega arith) session-open session-finalized refl refl
      refl

abbrev ended : Session
ended = (commit (some log_participant) session).1

session-commits : commit (some log_participant) session ≡ (ok tt, ended)
session-commits =
    ap (λ r. (r, ended))
      (commit-returns session [] empty_log-Holds (omega arith) session-open session-finalized refl
        refl refl)

commit-AllDurable_example :
    AllDurable ended.log (commit_record session ∷ [])
    × (state ended ≡ committed)
    × (ended.locks ≡ LockManager.commit 7 new_manager)
commit-AllDurable_example =
    commit-AllDurable session ended [] empty_log-Holds (omega arith) (omega arith) session-open
      session-commits

-- The same session with a mutation that was never logged.
abbrev image_of : ℕ → PhysicalMutation
image_of byte = record {
  page_id = 0;
  sequence = 0;
  before_image = replicate page_payload_size byte;
  after_image = [];
  previous_page_lsn = 0;
}

abbrev unlogged : Session
unlogged = record session {
  transaction = record transaction_7 {
    pending_mutations = image_of 1 ∷ [];
    undo_resolved = false ∷ [];
  };
}

unlogged-throws : (commit (some log_participant) unlogged).0 ≡ err unlogged_mutations
unfolding commit prepare_commit has_unfinalized_mutations has_open_capture new_manager
unlogged-throws = refl

commit-throws_example :
    ((commit (some log_participant) unlogged).1.locks ≡ unlogged.locks)
    × ((commit (some log_participant) unlogged).1.transaction ≡ unlogged.transaction)
commit-throws_example = commit-throws unlogged (λ e. ground (arith, unlogged-throws))

created-off : is_page_allocated (created []) 0 ≡ false
unfolding is_page_allocated
created-off = refl

allocation-IsEncodable : IsEncodable (allocation_record 7 session)
allocation-IsEncodable = record {
  lsn_fits = omega arith;
  lsn_set = omega arith;
  transaction_fits = omega arith;
  payload_fits = unfold put64 in omega arith;
}

allocates : is_page_allocated (allocate_transactional_page 7 session).1.buffer.disk 0 ≡ true
unfolding allocate_transactional_page reserve_page write_block is_page_allocated
    activate_reserved_page validate_allocated offset_for write_allocation_catalog
    append_page_allocate encode_page_allocate flush test_bit set_bit replicate create
allocates = rw (append-whole page_allocate 7 (put64 0) empty_log allocation-IsEncodable refl) refl

-- Page 0 is in frame 0, all zeros; the transaction changed it from all ones.
abbrev cached : Frame
cached = record {
  page = record { id = 0; lsn = 3; payload = replicate page_payload_size 0 };
  pin_count = 1;
  dirty = false;
  occupied = true;
  pending_mutations = 0;
}

abbrev changed_capture : Capture PageManager Journal
changed_capture = record {
  buffer = record (create (created []) 1 (some 0)) {
    frames = cached ∷ [];
    page_table = (0, 0) ∷ [];
    free_frames = [];
  };
  context = record {
    pending = record { id = 0; before = replicate page_payload_size 1; previous_page_lsn = 3 } ∷ [];
    mutations = [];
    next_sequence = 0;
  };
  owner = record { log = empty_log; transaction = transaction_7 };
}

abbrev watched : Pending
watched = record { id = 0; before = replicate page_payload_size 1; previous_page_lsn = 3 }

differs : same_bytes (replicate page_payload_size 0) (replicate page_payload_size 1) ≡ false
unfolding same_bytes replicate
differs = refl

change_at-IsImage : IsImage (change_at changed_capture 0 watched)
unfolding mutation_of
change_at-IsImage = record {
  page_fits = omega arith;
  page_valid = refl;
  sequence_fits = omega arith;
  before_full = length-replicate page_payload_size 1;
  after_full = length-replicate page_payload_size 0;
}

finish_page-IsLogged_example :
    (c : Capture PageManager Journal) × (finish_page (some finalize_mutation) 0 0 changed_capture
      ≡ (ok tt, c))
    × IsLogged changed_capture c 0 (change_at changed_capture 0 watched) []
finish_page-IsLogged_example =
    finish_page-IsLogged changed_capture [] 0 0 watched (omega arith) refl
      (unfold find_pending in refl) differs change_at-IsImage empty_log-Holds (omega arith)
      (omega arith) refl refl

-- A transaction that changed the page and is rolled back.
abbrev changed_session : Session
changed_session = record {
  buffer = record changed_capture.buffer {
    disk = record (created []) { page_count = 1; allocation_bitmap = 1 ∷ [] };
  };
  log = empty_log;
  locks = new_manager;
  context = some new_context;
  transaction = record transaction_7 {
    pending_mutations = image_of 1 ∷ [];
    undo_resolved = false ∷ [];
    finalized_mutations = 1;
  };
}

rolls_back : (rollback_for_abort changed_session).0 ≡ ok tt
unfolding create rollback_for_abort rollback_from undo_mutation resolve_mutation_for_undo apply
    apply_before_image fetch_page pin_cached is_page_allocated test_bit unpin_page lookup
    restore_page_lsn_after_undo release_pages replicate has_open_capture has_unfinished_capture
    all_resolved remove_from_lru make_evictable
rolls_back = refl

rollback_for_abort-resolves_example :
    has_unresolved_mutations_for_abort (rollback_for_abort changed_session).1 ≡ false
rollback_for_abort-resolves_example = rollback_for_abort-resolves changed_session refl rolls_back

allocate_transactional_page-AllDurable_example :
    (0 ≡ (created []).page_count)
    × AllDurable (allocate_transactional_page 7 session).1.log (allocation_record 7 session ∷ [])
unfolding create
allocate_transactional_page-AllDurable_example =
    allocate_transactional_page-AllDurable 7 0 session [] (created-IsConsistent []) empty_log-Holds
      (omega arith) (omega arith) created-off allocates
