-- ===== src/Storage/Log/Flushed.antt =====
-- Appends and a flush behind them (append and flush of src/storage/log_manager.cpp).
use resume_project.Common.{
  ℕ, zero, suc, ◌+◌, ◌^◌, ◌<◌, ◌≡◌, ◌≢◌, refl, Bool, true, false, not, ◌&&◌, ◌||◌, ◌∙◌, sym, subst,
  Bool-cases, ◌⊎◌, inl, inr, List, [], ◌∷◌, ◌++◌, length, take, append_assoc, append-nil, arith,
  Result, ok, err, Outcome, whole, torn, outcome, later,
}
use resume_project.Storage.Wal.{RecordType, WalRecord, WalError}
use resume_project.Storage.Wal.RoundTrip.{IsEncodable, frame}
use resume_project.Storage.Wal.Recover.{frames, AllEncodable}
use resume_project.Storage.Log.{Log, append, flush}
use resume_project.Storage.Log.Append.{
  Holds, record_of, append-whole, append-torn, append-Holds, frames-snoc, flush_lem,
}

-- What an append is called with.
pub record Entry : Type 0 where
  pub type : RecordType
  pub transaction_id : ℕ
  pub payload : List ℕ

on_return : Result WalError ℕ × Log → (Log → Log) → Log
on_return (ok lsn, log) f = f log
on_return (err e, log) f = log

-- The log after the appends one after the other, up to the first that throws.
unfoldable pub appended : List Entry → Log → Log
unfolding on_return
appended [] log = log
appended (e ∷ es) log =
    on_return (append e.type e.transaction_id e.payload log) (λ l. appended es l)

-- The records of the appends, from an LSN on.
abbrev pub records_from : ℕ → List Entry → List WalRecord
records_from lsn [] = []
records_from lsn (e ∷ es) =
    record { lsn = lsn; transaction_id = e.transaction_id; type = e.type; payload = e.payload }
    ∷ records_from (lsn + 1) es

-- None of the next `n` writes is torn.
unfoldable pub all_whole : ℕ → List Outcome → Bool
all_whole zero s = true
all_whole (suc n) s =
    let rest = all_whole n (later s) in elim (outcome s) [ whole ↦ rest | torn k ↦ false ]

-- The flush `r` behind `n` appends to a log that holds `rs`: it returns, with everything written and
-- the last LSN durable, or it throws, with the durable LSN as before and `rs` in the file.
abbrev pub IsSettled :
    Log → List WalRecord → List WalRecord → ℕ → Result WalError (Unit {0}) × Log → Type 0
IsSettled log rs all n r =
    ((r.0 ≡ ok tt)
      × (all_whole (suc n) log.stream ≡ true)
      × (log.fail_next_flush ≡ false)
      × Holds r.1 all
      × (r.1.durable_lsn + 1 ≡ log.next_lsn + n))
    ⊎ ((r.0 ≢ ok tt)
        × ((all_whole (suc n) log.stream && not log.fail_next_flush && not log.failed) ≡ false)
        × (r.1.durable_lsn ≡ log.durable_lsn)
        × (tail : List ℕ) × (r.1.file ≡ frames rs ++ tail))

flush-file : (log : Log) → (flush log).1.file ≡ log.file
unfolding flush
flush-file log = ground arith

-- A log whose stream has failed does not flush.
flush-failed :
    (log : Log) (rs all : List WalRecord) (n : ℕ) (l : Log) (tail : List ℕ)
    → l.failed ≡ true
    → l.durable_lsn ≡ log.durable_lsn
    → l.file ≡ frames rs ++ tail
    → all_whole (suc n) log.stream ≡ false
    → IsSettled log rs all n (flush l)
unfolding flush
flush-failed log rs all n l tail broken same kept cut = inr (
  ground (arith, broken),
  ground (arith, cut),
  ground (arith, broken, same),
  tail,
  ground (arith, broken, kept),
)

Outcome-cases : (o : Outcome) → (o ≡ whole) ⊎ ((k : ℕ) × (o ≡ torn k))
Outcome-cases whole = inl refl
Outcome-cases (torn k) = inr (k, refl)

all_whole-torn : (n k : ℕ) (s : List Outcome) → outcome s ≡ torn k → all_whole (suc n) s ≡ false
unfolding all_whole
all_whole-torn n k s stops = ground (arith, stops)

flush-settles : (log : Log) (rs : List WalRecord) → Holds log rs → IsSettled log rs rs 0 (flush log)
unfolding flush all_whole
flush-settles log rs h = elim (Bool-cases (log.fail_next_flush || log.failed)) [
  | inl broken ↦ inr (
    ground (arith, broken),
    ground (arith, broken),
    ground (arith, broken),
    [],
    rw append-nil (flush-file log ∙ h.bytes),
  )
  | inr fine ↦ elim (Outcome-cases (outcome log.stream)) [
    | inl reaches ↦ inl (
      ground (arith, fine, reaches),
      ground (arith, fine, reaches),
      ground (arith, fine, reaches),
      (flush_lem log rs h).0,
      ground (arith, fine, reaches, h.next_set, h.next_fits),
    )
    | inr (k, stops) ↦ inr (
      ground (arith, fine, stops),
      ground (arith, fine, stops),
      ground (arith, fine, stops),
      [],
      rw append-nil (flush-file log ∙ h.bytes),
    )
  ]
]

-- Behind one more append that reached the file.
IsSettled-later :
    (log l : Log) (rs qs all : List WalRecord) (bytes : List ℕ) (n : ℕ)
    (r : Result WalError (Unit {0}) × Log)
    → outcome log.stream ≡ whole
    → l.stream ≡ later log.stream
    → l.fail_next_flush ≡ log.fail_next_flush
    → l.failed ≡ false
    → l.next_lsn ≡ log.next_lsn + 1
    → l.durable_lsn ≡ log.durable_lsn
    → frames qs ≡ frames rs ++ bytes
    → IsSettled l qs all n r
    → IsSettled log rs all (suc n) r
unfolding all_whole
IsSettled-later log l rs qs all bytes n r w stream forced clean lsn durable kept
      (inl (returned, reached, unforced, holds, last)) =
    inl (
      returned,
      ground (arith, w, stream, reached),
      sym forced ∙ unforced,
      holds,
      omega (arith, last, lsn),
    )
IsSettled-later log l rs qs all bytes n r w stream forced clean lsn durable kept
      (inr (thrown, cause, same, tail, file)) =
    inr (
      thrown,
      ground (arith, w, stream, forced, clean, cause),
      same ∙ durable,
      bytes ++ tail,
      file ∙ rw (kept, append_assoc) refl,
    )

module _ (e : Entry) (es : List Entry) (log : Log)
    (fits : IsEncodable (record_of e.type e.transaction_id e.payload log)) where
  appended-torn :
      (k : ℕ)
      → outcome log.stream ≡ torn k
      → appended (e ∷ es) log ≡ (append e.type e.transaction_id e.payload log).1
  unfolding appended on_return
  appended-torn k stops = rw (append-torn e.type e.transaction_id e.payload log fits k stops) refl

  appended-whole :
      outcome log.stream ≡ whole
      → appended (e ∷ es) log ≡ appended es (append e.type e.transaction_id e.payload log).1
  unfolding appended on_return
  appended-whole reaches = rw (append-whole e.type e.transaction_id e.payload log fits reaches) refl

-- Records are appended one after the other to a log that holds the records `rs`, up to the first
-- append that throws, and then the log is flushed; the records can be encoded and there are LSNs
-- left for them. The flush returns only if no write of the appends and not the sync was torn and
-- no failure was forced, and then the log holds `rs` and all the new records and the last LSN
-- given out is durable. Otherwise one of these writes or the sync was torn, a failure was forced,
-- or the stream had failed before; then the flush throws, the durable LSN is as before the
-- appends, and the records `rs` still stand at the front of the file.
pub flush-appended :
    (es : List Entry) (log : Log) (rs : List WalRecord)
    → Holds log rs
    → AllEncodable (records_from log.next_lsn es)
    → log.next_lsn + length es < 2 ^ 64
    → IsSettled log rs (rs ++ records_from log.next_lsn es) (length es) (flush (appended es log))
unfolding appended
flush-appended [] log rs h fine room = rw append-nil (flush-settles log rs h)
flush-appended (e ∷ es) log rs h (fits, more) room =
    let r = record_of e.type e.transaction_id e.payload log in
    let l = (append e.type e.transaction_id e.payload log).1 in
    let all = rs ++ records_from log.next_lsn (e ∷ es) in
    elim (Outcome-cases (outcome log.stream)) [
      | inr (k, stops) ↦
          let same = append-torn e.type e.transaction_id e.payload log fits k stops in
          subst (λ a. IsSettled log rs all (suc (length es)) (flush a))
            (sym (appended-torn e es log fits k stops))
            (flush-failed log rs all (suc (length es)) l (take k (frame r)) (rw same refl)
              (rw same refl) (rw (same, h.bytes) refl)
              (all_whole-torn (suc (length es)) k log.stream stops))
      | inl reaches ↦
          let same = append-whole e.type e.transaction_id e.payload log fits reaches in
          let (_, holds) =
            append-Holds e.type e.transaction_id e.payload log fits rs h (omega (arith, room))
              reaches in
          let next : l.next_lsn ≡ log.next_lsn + 1 = rw same (omega (arith, room)) in
          let joined : (rs ++ r ∷ []) ++ records_from l.next_lsn es ≡ all =
            rw (next, append_assoc) refl in
          let rest =
            flush-appended es l (rs ++ r ∷ []) holds (rw next more) (omega (arith, next, room)) in
          subst (λ a. IsSettled log rs all (suc (length es)) (flush a))
            (sym (appended-whole e es log fits reaches))
            (IsSettled-later log l rs (rs ++ r ∷ []) all (frame r) (length es)
              (flush (appended es l)) reaches (rw same refl) (rw same refl) (rw same refl) next
              (rw same refl) (frames-snoc rs r)
              (subst (λ a. IsSettled l (rs ++ r ∷ []) a (length es) (flush (appended es l))) joined
                rest))
    ]
