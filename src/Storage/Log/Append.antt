-- ===== src/Storage/Log/Append.antt =====
-- What an append and a flush do to the log.
use resume_project.Common.{
  ℕ, ◌+◌, ◌^◌, ◌%◌, ◌<◌, ◌≡◌, ◌≢◌, refl, true, false, ◌⊎◌, Option, none, some, List, [], ◌∷◌, ◌++◌,
  take, append_assoc, append-nil, arith, ok, err, whole, torn, outcome, later, IsU64,
}
use resume_project.Storage.Wal.{RecordType, WalRecord, append_failed}
use resume_project.Storage.Wal.RoundTrip.{IsEncodable, frame, encode-frame}
use resume_project.Storage.Wal.Scan.{follows, IsIncreasing}
use resume_project.Storage.Wal.Recover.{frames, AllEncodable}
use resume_project.Storage.Log.{Log, last_from, last_lsn, append, flush}

-- The record that an append makes.
abbrev pub record_of : RecordType → ℕ → List ℕ → Log → WalRecord
record_of type id payload log = record {
  lsn = log.next_lsn;
  transaction_id = id;
  type = type;
  payload = payload;
}

-- `log` holds the records `rs`, and every LSN that it has given out is below the next one.
pub record Holds (log : Log) (rs : List WalRecord) : Type 0 where
  pub bytes : log.file ≡ frames rs
  pub encodable : AllEncodable rs
  pub increasing : IsIncreasing none rs
  pub below : follows (last_lsn rs) log.next_lsn ≡ true
  pub next_set : 0 < log.next_lsn
  pub next_fits : IsU64 log.next_lsn
  pub durable_below : log.durable_lsn < log.next_lsn

pub frames-snoc :
    (rs : List WalRecord) (r : WalRecord) → frames (rs ++ r ∷ []) ≡ frames rs ++ frame r
frames-snoc [] r = append-nil (frame r)
frames-snoc (x ∷ rs) r = rw (frames-snoc rs r, append_assoc)

AllEncodable-snoc :
    (rs : List WalRecord) (r : WalRecord)
    → AllEncodable rs
    → IsEncodable r
    → AllEncodable (rs ++ r ∷ [])
AllEncodable-snoc [] r h e = (e, tt)
AllEncodable-snoc (x ∷ rs) r h e = (h.0, AllEncodable-snoc rs r h.1 e)

IsIncreasing-snoc :
    (rs : List WalRecord) (last : Option ℕ) (r : WalRecord)
    → IsIncreasing last rs
    → follows (last_from last rs) r.lsn ≡ true
    → 0 < r.lsn
    → IsIncreasing last (rs ++ r ∷ [])
IsIncreasing-snoc [] last r h above set = (above, set, tt)
IsIncreasing-snoc (x ∷ rs) last r h above set =
    (h.0, h.1, IsIncreasing-snoc rs (some x.lsn) r h.2 above set)

last_from-snoc :
    (rs : List WalRecord) (last : Option ℕ) (r : WalRecord)
    → last_from last (rs ++ r ∷ []) ≡ some r.lsn
last_from-snoc [] last r = refl
last_from-snoc (x ∷ rs) last r = last_from-snoc rs (some x.lsn) r

module _ (type : RecordType) (id : ℕ) (payload : List ℕ) (log : Log)
    (e : IsEncodable (record_of type id payload log)) where
  -- An append that reaches the file adds the bytes of one record, and returns its LSN.
  pub append-whole :
      outcome log.stream ≡ whole
      → append type id payload log ≡ (
        ok log.next_lsn,
        record log {
          file = log.file ++ frame (record_of type id payload log);
          next_lsn = (log.next_lsn + 1) % 2 ^ 64;
          failed = false;
          stream = later log.stream;
        },
      )
  unfolding append
  append-whole w = rw (encode-frame (record_of type id payload log) e, append, w)

  -- One that stops after `k` bytes throws, leaves those bytes in the file, and loses the LSN.
  pub append-torn :
      (k : ℕ)
      → outcome log.stream ≡ torn k
      → append type id payload log ≡ (
        err append_failed,
        record log {
          file = log.file ++ take k (frame (record_of type id payload log));
          next_lsn = (log.next_lsn + 1) % 2 ^ 64;
          failed = true;
          stream = later log.stream;
        },
      )
  unfolding append
  append-torn k w = rw (encode-frame (record_of type id payload log) e, append, w)

  -- On a log that holds the records `rs`, with an LSN left and a write that reaches the file, an
  -- append of an encodable record returns the next LSN and leaves a log that holds `rs` and the
  -- new record.
  pub append-Holds :
      (rs : List WalRecord)
      → Holds log rs
      → IsU64 (log.next_lsn + 1)
      → outcome log.stream ≡ whole
      → ((append type id payload log).0 ≡ ok log.next_lsn)
        × Holds (append type id payload log).1 (rs ++ record_of type id payload log ∷ [])
  append-Holds rs h room w = rw (append-whole w) (
    refl,
    record {
      bytes = rw (h.bytes, frames-snoc rs (record_of type id payload log));
      encodable = AllEncodable-snoc rs _ h.encodable e;
      increasing = IsIncreasing-snoc rs none _ h.increasing h.below h.next_set;
      below = rw (last_from-snoc rs none (record_of type id payload log)) (ground arith);
      next_set = omega arith;
      next_fits = omega arith;
      durable_below = omega (arith, h.durable_below);
    },
  )

-- A flush keeps the records of the log; if it returns, every LSN given out is durable, and if it
-- throws, the durable LSN is as before.
pub flush_lem :
    (log : Log) (rs : List WalRecord)
    → Holds log rs
    → Holds (flush log).1 rs
      × (((flush log).0 ≡ ok tt) × ((flush log).1.durable_lsn + 1 ≡ log.next_lsn)
          ⊎ ((flush log).0 ≢ ok tt) × ((flush log).1.durable_lsn ≡ log.durable_lsn))
unfolding flush
flush_lem log rs h = ground arith
