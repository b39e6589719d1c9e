-- ===== src/Recovery/ReplayExamples.antt =====
-- Replay over a database with one page, and the history of a page that two transactions changed.
use resume_project.Common.{
  ℕ, ◌<◌, ◌≡◌, refl, true, false, none, List, [], ◌∷◌, arith, ok, replicate, length, get_or, put16,
  put64, get16, get64, same_bytes, All,
}
use resume_project.Storage.Page.{PhysicalMutation, page_payload_size}
use resume_project.Storage.PageManager.{
  PageManager, raw_page, is_page_allocated, read_page, page_in, after_read, read_block,
  has_page_format, validate_logically_allocated, validate_allocated, offset_for,
}
use resume_project.Storage.Bitmap.{test_bit}
use resume_project.Buffer.Table.{lookup}
use resume_project.Buffer.Pool.Disk.{page_disk}
use resume_project.Buffer.Pool.Defs.{
  create, free_from, empty_frames, frame_at, max_u32, unpin_page, make_evictable,
}
use resume_project.Buffer.Pool.Io.{fetch_page, acquire_frame, load_acquired, load_page, place}
use resume_project.Buffer.Pool.Create.{create-IsValid}
use resume_project.Buffer.Pool.Fetch.{fetch_page-IsValid}
use resume_project.Recovery.Analysis.{
  RecoveryState, MutationRecord, TransactionAnalysis, TransactionStatus, is_committed,
  is_incomplete, no_metrics, transaction,
}
use resume_project.Recovery.Replay
use resume_project.Recovery.Replay.{
  ReplayContext, new_replay, redo_physical_mutation, redo_at, is_redoable, skip_page, put_image,
}
use resume_project.Recovery.Undo.{survivors}
use resume_project.Recovery.Survivors.{
  IsWhole, last_written, last_kept, value_or, survivors-last_written,
}
use resume_project.Recovery.Idempotence.{
  IsRedone, Redone, redo_physical_mutation-IsRedone, redo_physical_mutation-again,
}

-- Transaction 1 committed, transaction 2 did not.
abbrev analysis : ℕ → TransactionStatus → TransactionAnalysis
analysis id status = record {
  transaction_id = id;
  status = status;
  began = true;
  committed = false;
  aborted = false;
  allocation_indexes = [];
  mutation_indexes = [];
}

abbrev change_of : ℕ → ℕ → List ℕ → List ℕ → MutationRecord
change_of lsn id before after = record {
  lsn = lsn;
  transaction_id = id;
  mutation = record {
    page_id = 0;
    sequence = 0;
    before_image = before;
    after_image = after;
    previous_page_lsn = 0;
  };
}

abbrev history : List MutationRecord
history = change_of 4 2 (0 ∷ 0 ∷ []) (9 ∷ 0 ∷ []) ∷ change_of 5 1 (9 ∷ 0 ∷ []) (9 ∷ 7 ∷ []) ∷ []

abbrev two_transactions : RecoveryState
two_transactions = record {
  records = [];
  allocations = [];
  mutations = history;
  transactions = (1, analysis 1 is_committed) ∷ (2, analysis 2 is_incomplete) ∷ [];
  metrics = no_metrics 0;
}

-- Page 0 is allocated and empty, with this LSN.
abbrev disk : ℕ → PageManager
disk lsn = record {
  blocks = [] ∷ raw_page 0 lsn (replicate page_payload_size 0) ∷ [];
  page_count = 1;
  allocation_bitmap = 1 ∷ [];
  allocated_page_count = 1;
  failed = false;
  stream = [];
}

abbrev replay : ReplayContext
replay = record {
  buffer = create (disk 0) 2 none;
  active = true;
  undone_lsns = [];
  reconstructed_pages = [];
}

abbrev redo_4 : PhysicalMutation
redo_4 = record {
  page_id = 0;
  sequence = 0;
  before_image = replicate page_payload_size 0;
  after_image = replicate page_payload_size 1;
  previous_page_lsn = 0;
}

history-IsWhole : All (IsWhole two_transactions 2) history
unfolding transaction
history-IsWhole = (
  record { known = λ e. ground arith; before_full = refl; after_full = refl },
  (record { known = λ e. ground arith; before_full = refl; after_full = refl }, tt),
)

survivors-last_written_example :
    (built : List ℕ) × (survivors two_transactions history (0 ∷ 0 ∷ [], 0) replay
      ≡ (ok (built, last_kept two_transactions 0 history), replay))
    × (length built ≡ 2)
    × ((i : ℕ)
        → i < 2
        → get_or built i 0
          ≡ value_or (last_written two_transactions i history) (get_or (0 ∷ 0 ∷ []) i 0))
survivors-last_written_example =
    survivors-last_written two_transactions history (0 ∷ 0 ∷ []) 0 replay history-IsWhole

redoes : (redo_physical_mutation 4 redo_4 replay).0 ≡ ok true
unfolding redo_physical_mutation is_redoable redo_at put_image fetch_page acquire_frame create
    load_acquired load_page place free_from empty_frames lookup unpin_page make_evictable
    is_page_allocated test_bit read_page page_in after_read read_block has_page_format
    validate_logically_allocated validate_allocated offset_for raw_page put16 put64 get16 get64
    same_bytes replicate
redoes = refl

redo_physical_mutation-IsRedone_example :
    Redone 4 redo_4 true (redo_physical_mutation 4 redo_4 replay).1
redo_physical_mutation-IsRedone_example =
    redo_physical_mutation-IsRedone 4 redo_4 replay true (create-IsValid (disk 0) 2 none) redoes

-- Page 0 has LSN 6 and is cached.
abbrev ahead : ReplayContext
ahead = record replay { buffer = (fetch_page page_disk 0 (create (disk 6) 2 none)).1 }

ahead-IsRedone : IsRedone 4 0 ahead
unfolding fetch_page acquire_frame create load_acquired load_page place free_from empty_frames
    lookup is_page_allocated test_bit read_page page_in after_read read_block has_page_format
    validate_logically_allocated validate_allocated offset_for raw_page put16 put64 get16 get64
    same_bytes replicate
ahead-IsRedone = record { frame = 0; cached = refl; covered = omega arith }

ahead-redoable : is_redoable 4 redo_4 ≡ true
unfolding is_redoable replicate
ahead-redoable = refl

ahead-allocated : is_page_allocated ahead.buffer.disk 0 ≡ true
unfolding fetch_page acquire_frame create load_acquired load_page place free_from empty_frames
    lookup is_page_allocated test_bit read_page page_in after_read read_block has_page_format
    validate_logically_allocated validate_allocated offset_for raw_page put16 put64 get16 get64
    same_bytes replicate
ahead-allocated = refl

ahead-room : (frame_at ahead.buffer.frames ahead-IsRedone.frame).pin_count < max_u32
unfolding fetch_page acquire_frame create load_acquired load_page place free_from empty_frames
    lookup is_page_allocated test_bit read_page page_in after_read read_block has_page_format
    validate_logically_allocated validate_allocated offset_for raw_page put16 put64 get16 get64
    same_bytes replicate ahead-IsRedone
ahead-room = omega arith

redo_physical_mutation-again_example :
    ((redo_physical_mutation 4 redo_4 ahead).0 ≡ ok false)
    × (Replay.page_of ahead-IsRedone.frame (redo_physical_mutation 4 redo_4 ahead).1
        ≡ Replay.page_of ahead-IsRedone.frame ahead)
    × ((redo_physical_mutation 4 redo_4 ahead).1.buffer.disk ≡ ahead.buffer.disk)
redo_physical_mutation-again_example =
    redo_physical_mutation-again 4 redo_4 ahead
      (fetch_page-IsValid page_disk 0 (create (disk 6) 2 none) (create-IsValid (disk 6) 2 none))
      refl ahead-redoable ahead-IsRedone ahead-allocated ahead-room
