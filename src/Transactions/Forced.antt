-- ===== src/Transactions/Forced.antt =====
-- A record appended to the log, and the log flushed: what commit, abort and allocation share.
use resume_project.Common.{
  ℕ, ◌+◌, ◌≡◌, ◌≢◌, refl, sym, ◌∙◌, ◌⊎◌, inl, inr, List, [], ◌∷◌, ◌++◌, arith, Result, ok, err,
  Outcome, whole, torn, outcome, IsU64,
}
use resume_project.Common.Action.{next, rewrap}
use resume_project.Storage.Wal.{RecordType, WalRecord, WalError}
use resume_project.Storage.Wal.RoundTrip.{IsEncodable}
use resume_project.Storage.Log
use resume_project.Storage.Log.{Log, append}
use resume_project.Storage.Log.Append.{Holds, record_of, append-Holds, append-torn, flush_lem}
use resume_project.Transactions.Errors.{EngineError, wal}
use resume_project.Transactions.Transaction.{Session, put_log, on_log}

-- The log holds `rs`, all of them durable.
abbrev pub AllDurable : Log → List WalRecord → Type 0
AllDurable log rs = Holds log rs × (log.durable_lsn + 1 ≡ log.next_lsn)

-- `q` is what the append gave.
abbrev pub then_flush : Session → Result WalError ℕ × Log → Result EngineError (Unit {0}) × Session
then_flush s q = next (rewrap put_log wal s q) (λ lsn. on_log Log.flush)

-- Only the log and the durable LSN that the pool sees have changed.
abbrev pub SameButLog : Session → Session → Type 0
SameButLog s t =
    (t.locks ≡ s.locks)
    × (t.transaction ≡ s.transaction)
    × (t.context ≡ s.context)
    × (t.buffer.disk ≡ s.buffer.disk)
    × (t.buffer.frames ≡ s.buffer.frames)
    × (t.buffer.page_table ≡ s.buffer.page_table)

pub then_flush-SameButLog :
    (s : Session) (q : Result WalError ℕ × Log) → SameButLog s (then_flush s q).1
then_flush-SameButLog s (err e, log) = (refl, refl, refl, refl, refl, refl)
then_flush-SameButLog s (ok l, log) = flushed (Log.flush log)
  where
    flushed :
        (r : Result WalError (Unit {0}) × Log)
        → SameButLog s (rewrap {F = EngineError} put_log wal (put_log log s) r).1
    flushed (ok u, t) = (refl, refl, refl, refl, refl, refl)
    flushed (err e, t) = (refl, refl, refl, refl, refl, refl)

flush-next_lsn : (log : Log) → (Log.flush log).1.next_lsn ≡ log.next_lsn
unfolding Log.flush
flush-next_lsn log = ground arith

-- What an append gave, when it returned.
abbrev pub IsDone : Result WalError ℕ → Log → List WalRecord → Type 0
IsDone (ok l) log rs = Holds log rs
IsDone (err e) log rs = Unit {0}

pub then_flush-ok :
    (s : Session) (q : Result WalError ℕ × Log) (rs : List WalRecord)
    → IsDone q.0 q.1 rs
    → (then_flush s q).0 ≡ ok tt
    → AllDurable (then_flush s q).1.log rs
then_flush-ok s (err e, log) rs h r = absurd (ground arith)
then_flush-ok s (ok l, log) rs h r =
    flushed (Log.flush log) (flush_lem log rs h) (flush-next_lsn log) r
  where
    flushed :
        (f : Result WalError (Unit {0}) × Log)
        → Holds f.1 rs
          × ((f.0 ≡ ok tt) × (f.1.durable_lsn + 1 ≡ log.next_lsn)
              ⊎ (f.0 ≢ ok tt) × (f.1.durable_lsn ≡ log.durable_lsn))
        → f.1.next_lsn ≡ log.next_lsn
        → (rewrap {F = EngineError} put_log wal (put_log log s) f).0 ≡ ok tt
        → AllDurable (rewrap {F = EngineError} put_log wal (put_log log s) f).1.log rs
    flushed (ok u, t) (holds, inl (done, durable)) kept e = (holds, durable ∙ sym kept)
    flushed (ok u, t) (holds, inr (bad, _)) kept e = absurd (bad refl)
    flushed (err x, t) holds kept e = absurd (ground arith)

-- An append of an encodable record to a log with an LSN left, whatever the file takes of it.
pub append-IsDone :
    (type : RecordType) (id : ℕ) (payload : List ℕ) (log : Log) (rs : List WalRecord)
    → IsEncodable (record_of type id payload log)
    → Holds log rs
    → IsU64 (log.next_lsn + 1)
    → IsDone
        (append type id payload log).0
        (append type id payload log).1
        (rs ++ record_of type id payload log ∷ [])
append-IsDone type id payload log rs e h room = by_outcome (outcome log.stream) refl
  where
    by_outcome :
        (o : Outcome)
        → outcome log.stream ≡ o
        → IsDone
            (append type id payload log).0
            (append type id payload log).1
            (rs ++ record_of type id payload log ∷ [])
    by_outcome whole w =
        let (done, holds) = append-Holds type id payload log e rs h room w in rw done holds
    by_outcome (torn k) w = rw (append-torn type id payload log e k w) tt
