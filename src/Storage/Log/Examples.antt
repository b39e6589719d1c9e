-- ===== src/Storage/Log/Examples.antt =====
-- Runs of the log on concrete contents.
use resume_project.Common.{◌≡◌, refl, List, [], ◌∷◌, arith, ok, whole, torn, Outcome}
use resume_project.Storage.Wal.{commit}
use resume_project.Storage.Wal.RoundTrip.{length-frame}
use resume_project.Storage.Wal.Examples.{
  started, started-IsEncodable, committed, committed-IsEncodable,
}
use resume_project.Storage.Log.{Log, append, flush, open_and_scan}
use resume_project.Storage.Log.Append.{Holds, append-Holds}
use resume_project.Storage.Log.Flushed.{Entry, appended, IsSettled, flush-appended}
use resume_project.Storage.Log.Reopen.{opened, opened-Holds, open_and_scan-append_torn}

-- A log with one record, and what its next writes meet.
abbrev one_record : List Outcome → Log
one_record = opened (started ∷ [])

one_record-Holds : (stream : List Outcome) → Holds (one_record stream) (started ∷ [])
one_record-Holds stream =
    opened-Holds (started ∷ []) stream (started-IsEncodable, tt) (refl, omega arith, tt)
      (omega arith)

append-Holds_example :
    ((append commit 7 (5 ∷ 255 ∷ []) (one_record [])).0 ≡ ok 2)
    × Holds (append commit 7 (5 ∷ 255 ∷ []) (one_record [])).1 (started ∷ committed ∷ [])
append-Holds_example =
    append-Holds commit 7 (5 ∷ 255 ∷ []) (one_record []) committed-IsEncodable (started ∷ [])
      (one_record-Holds []) (omega arith) refl

-- The record reaches the file, and the sync fails.
abbrev unsynced : Log
unsynced = one_record (whole ∷ torn 0 ∷ [])

abbrev commits_seven : List Entry
commits_seven = record { type = commit; transaction_id = 7; payload = 5 ∷ 255 ∷ [] } ∷ []

flush-appended_example :
    IsSettled unsynced
      (started ∷ [])
      (started ∷ committed ∷ [])
      1
      (flush (appended commits_seven unsynced))
flush-appended_example =
    flush-appended commits_seven unsynced (started ∷ []) (one_record-Holds (whole ∷ torn 0 ∷ []))
      (committed-IsEncodable, tt) (omega arith)

open_and_scan-append_torn_example :
    open_and_scan (append commit 7 (5 ∷ 255 ∷ []) (one_record (torn 38 ∷ []))).1.file []
    ≡ ok (opened (started ∷ []) [])
open_and_scan-append_torn_example =
    open_and_scan-append_torn commit 7 (5 ∷ 255 ∷ []) (one_record (torn 38 ∷ [])) (started ∷ []) 38
      [] (one_record-Holds (torn 38 ∷ [])) committed-IsEncodable refl
      (omega (arith, length-frame committed))
