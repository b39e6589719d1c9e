-- ===== src/Storage/Log/Reopen.antt =====
-- Opening a log: after a clean shutdown, and after a crash in the middle of an append.
use resume_project.Common.{
  ℕ, ◌+◌, ◌^◌, ◌<◌, ◌≡◌, refl, true, false, Option, none, some, List, [], ◌∷◌, ◌++◌, length, take,
  length-append, take-append, append-nil, arith, ok, Outcome, torn, outcome, inl, ap, subst, ◌==◌,
  if◌then◌else◌, zero, suc, IsU64,
}
use resume_project.Storage.Wal.{RecordType, WalRecord}
use resume_project.Storage.Wal.RoundTrip.{IsEncodable, frame, encode-frame}
use resume_project.Storage.Wal.Scan.{follows, IsIncreasing}
use resume_project.Storage.Wal.Recover.{
  frames, AllEncodable, IsTorn, prefix-IsTorn, read_records-frames,
}
use resume_project.Storage.Log.{
  Log, last_lsn, durable_after, next_after, valid_bytes, open_and_scan, append,
}
use resume_project.Storage.Log.Append.{Holds, record_of, append-torn}

valid_bytes-frames :
    (rs : List WalRecord) → AllEncodable rs → valid_bytes rs ≡ ok (length (frames rs))
unfolding valid_bytes
valid_bytes-frames [] e = refl
valid_bytes-frames (r ∷ rs) e =
    rw (encode-frame r e.0, valid_bytes-frames rs e.1, length-append (frame r) (frames rs))

-- `resize_file` on the size of the complete records
cut_tail :
    (bytes tail : List ℕ)
    → (if length (bytes ++ tail) == length bytes
        then bytes ++ tail
        else take (length bytes) (bytes ++ tail))
      ≡ bytes
cut_tail bytes [] = rw append-nil (ground arith)
cut_tail bytes (x ∷ tail) =
    ground (arith, length-append bytes (x ∷ tail), take-append bytes (x ∷ tail))

-- The log that opening gives when the complete records are `rs`.
abbrev pub opened : List WalRecord → List Outcome → Log
opened rs stream = record {
  file = frames rs;
  next_lsn = next_after (last_lsn rs);
  durable_lsn = durable_after (last_lsn rs);
  fail_next_flush = false;
  failed = false;
  stream = stream;
}

-- Opening keeps the complete records and cuts a torn one off.
pub open_and_scan-torn :
    (rs : List WalRecord) (tail : List ℕ) (stream : List Outcome)
    → AllEncodable rs
    → IsIncreasing none rs
    → IsTorn tail
    → open_and_scan (frames rs ++ tail) stream ≡ ok (opened rs stream)
unfolding open_and_scan
open_and_scan-torn rs tail stream e i t = rw (
  read_records-frames rs tail e i t,
  open_and_scan,
  valid_bytes-frames rs e,
  cut_tail (frames rs) tail,
)

-- Opening the file of a log that holds the records `rs` gives a log with exactly `rs`.
pub open_and_scan-Holds :
    (log : Log) (rs : List WalRecord) (stream : List Outcome)
    → Holds log rs
    → open_and_scan log.file stream ≡ ok (opened rs stream)
open_and_scan-Holds log rs stream h = rw h.bytes (
    subst (λ bytes. open_and_scan bytes stream ≡ ok (opened rs stream)) (append-nil (frames rs))
      (open_and_scan-torn rs [] stream h.encodable h.increasing (inl (omega arith))))

take-split :
    (k : ℕ) (xs : List ℕ) → k < length xs → (x : ℕ) × (back : List ℕ) × (xs ≡ take k xs ++ x ∷ back)
take-split k [] h = absurd (omega arith)
take-split zero (x ∷ xs) h = (x, xs, refl)
take-split (suc k) (y ∷ xs) h =
    let (x, back, e) = take-split k xs (omega arith) in (x, back, ap (λ zs. y ∷ zs) e)

-- An append of an encodable record that stops short of the record's last byte leaves no trace:
-- reopening the file of a log that held the records `rs` gives a log with exactly `rs`.
pub open_and_scan-append_torn :
    (type : RecordType) (id : ℕ) (payload : List ℕ) (log : Log) (rs : List WalRecord) (k : ℕ)
    (stream : List Outcome)
    → Holds log rs
    → IsEncodable (record_of type id payload log)
    → outcome log.stream ≡ torn k
    → k < length (frame (record_of type id payload log))
    → open_and_scan (append type id payload log).1.file stream ≡ ok (opened rs stream)
open_and_scan-append_torn type id payload log rs k stream h e w short =
    let r = record_of type id payload log in
    let (x, back, split) = take-split k (frame r) short in
    rw (append-torn type id payload log e k w, h.bytes)
      (open_and_scan-torn rs (take k (frame r)) stream h.encodable h.increasing
        (prefix-IsTorn r (take k (frame r)) back x e split))

next_after_lem :
    (o : Option ℕ)
    → durable_after o + 1 < 2 ^ 64
    → (follows o (next_after o) ≡ true)
      × (0 < next_after o)
      × IsU64 (next_after o)
      × (durable_after o < next_after o)
next_after_lem none h = ground arith
next_after_lem (some l) h = ground arith

-- The log that opening gives for encodable records with rising LSNs, the last of them below 2^64 -
-- 1, is well formed and holds those records.
pub opened-Holds :
    (rs : List WalRecord) (stream : List Outcome)
    → AllEncodable rs
    → IsIncreasing none rs
    → durable_after (last_lsn rs) + 1 < 2 ^ 64
    → Holds (opened rs stream) rs
opened-Holds rs stream e i room =
    let (below, set, fits, durable) = next_after_lem (last_lsn rs) room in
    record {
      bytes = refl;
      encodable = e;
      increasing = i;
      below = below;
      next_set = set;
      next_fits = fits;
      durable_below = durable;
    }
