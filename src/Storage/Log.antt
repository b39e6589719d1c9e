-- ===== src/Storage/Log.antt =====
-- LogManager of src/storage/log_manager.cpp: the log file, the LSN counter and the durable LSN.
-- Its mutex makes each method one step.
pub mod Append
pub mod Flushed
pub mod Reopen
mod Examples
use resume_project.Common.{
  ℕ, ◌+◌, ◌-◌, ◌%◌, ◌^◌, Bool, true, false, Option, none, some, List, [], ◌∷◌, ◌++◌, length, take,
  ◌==◌, if◌then◌else◌, Result, ok, err, ◌>>=◌, Outcome, whole, torn, outcome, later,
}
use resume_project.Storage.Page.{PhysicalMutation}
use resume_project.Storage.Wal.{
  RecordType, begins, physical_mutation, commit, abort, page_allocate, WalRecord, WalError,
  append_failed, flush_failed, forced_flush_failure, encode,
}
use resume_project.Storage.Wal.Mutation.{encode_physical_mutation, encode_page_allocate}
use resume_project.Storage.Wal.Scan.{read_records}

-- `failed` is the fail bit of `file_`, and `stream` is what its next writes will meet.
pub record Log : Type 0 where
  pub file : List ℕ
  pub next_lsn : ℕ
  pub durable_lsn : ℕ
  pub fail_next_flush : Bool
  pub failed : Bool
  pub stream : List Outcome

-- A method may throw, and leaves a log either way.
abbrev pub Method : Type 0 → Type 0
Method A = Log → Result WalError A × Log

-- `records.back().lsn`, where `last` stands for what came before the list
abbrev pub last_from : Option ℕ → List WalRecord → Option ℕ
last_from last [] = last
last_from last (r ∷ rs) = last_from (some r.lsn) rs

abbrev pub last_lsn : List WalRecord → Option ℕ
last_lsn = last_from none

abbrev pub durable_after : Option ℕ → ℕ
durable_after none = 0
durable_after (some l) = l

abbrev pub next_after : Option ℕ → ℕ
next_after none = 1
next_after (some l) = (l + 1) % 2 ^ 64

-- The sum of `encode(record).size()`.
unfoldable pub valid_bytes : List WalRecord → Result WalError ℕ
valid_bytes [] = ok 0
valid_bytes (r ∷ rs) = do bytes ← encode r; rest ← valid_bytes rs; ok (length bytes + rest)

-- The constructor: `open_and_scan` on the bytes of the file (none, if it was just created). What
-- the file system itself may refuse (create, open, resize) is not modelled.
unfoldable pub open_and_scan : List ℕ → List Outcome → Result WalError Log
open_and_scan file stream = do
  records ← read_records file
  valid ← valid_bytes records
  ok (record {
    file = if length file == valid then file else take valid file;
    next_lsn = next_after (last_lsn records);
    durable_lsn = durable_after (last_lsn records);
    fail_next_flush = false;
    failed = false;
    stream = stream;
  })

-- `clear`, `seekp`, `write`, `flush` and the test of the stream
write_record : List ℕ → ℕ → Outcome → Method ℕ
write_record bytes lsn whole log =
    (ok lsn, record log { file = log.file ++ bytes; failed = false; stream = later log.stream })
write_record bytes lsn (torn k) log = (
  err append_failed,
  record log { file = log.file ++ take k bytes; failed = true; stream = later log.stream },
)

write_encoded : Result WalError (List ℕ) → ℕ → Method ℕ
unfolding write_record
write_encoded (err e) lsn log = (err e, log)
write_encoded (ok bytes) lsn log = write_record bytes lsn (outcome log.stream) log

-- The LSN is taken before the record is encoded, so a throw loses it.
unfoldable pub append : RecordType → ℕ → List ℕ → Method ℕ
unfolding write_encoded
append type transaction_id payload log =
    let r : WalRecord = record {
      lsn = log.next_lsn;
      transaction_id = transaction_id;
      type = type;
      payload = payload;
    } in
    write_encoded (encode r) log.next_lsn (record log { next_lsn = (log.next_lsn + 1) % 2 ^ 64 })

-- A payload that cannot be encoded throws before `append` is called.
abbrev pub with_payload : Result WalError (List ℕ) → (List ℕ → Method ℕ) → Method ℕ
with_payload (err e) f log = (err e, log)
with_payload (ok payload) f log = f payload log

unfoldable pub append_begin : ℕ → Method ℕ
append_begin id = append begins id []

unfoldable pub append_physical_mutation : ℕ → PhysicalMutation → Method ℕ
append_physical_mutation id m =
    with_payload (encode_physical_mutation m) (append physical_mutation id)

unfoldable pub append_commit : ℕ → Method ℕ
append_commit id = append commit id []

unfoldable pub append_abort : ℕ → Method ℕ
append_abort id = append abort id []

unfoldable pub append_page_allocate : ℕ → ℕ → Method ℕ
append_page_allocate id page = with_payload (encode_page_allocate page) (append page_allocate id)

sync : Outcome → Method (Unit {0})
sync whole log = (
  ok tt,
  record log { durable_lsn = (log.next_lsn + 2 ^ 64 - 1) % 2 ^ 64; stream = later log.stream },
)
sync (torn k) log = (err flush_failed, record log { failed = true; stream = later log.stream })

-- `failed` is not cleared here: a failed append makes the next flush fail too.
unfoldable pub flush : Method (Unit {0})
unfolding sync
flush log =
    if log.fail_next_flush
    then (err forced_flush_failure, record log { fail_next_flush = false })
    else if log.failed
    then (err flush_failed, log)
    else sync (outcome log.stream) log

-- What the destructor leaves: an exception of `flush` is dropped.
pub close : Log → Log
close log = (flush log).1

pub records : Log → Result WalError (List WalRecord)
records log = read_records log.file
