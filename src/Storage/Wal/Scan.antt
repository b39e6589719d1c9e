-- ===== src/Storage/Wal/Scan.antt =====
-- LogManager::read_records: the scan of a whole log file.
use resume_project.Common.{
  ℕ, zero, suc, ◌+◌, ◌≤◌, ◌<◌, ◌≡◌, ◌≢◌, Bool, true, ◌||◌, Option, none, some, List, [], ◌∷◌,
  length, take, drop, length-drop, length-take-le, arith, ltb, if◌then◌else◌, Result, ok, err,
  require, ◌>>=◌, ◌>>◌, get32, Result-cases, inl, inr,
}
use resume_project.Storage.Wal.{
  WalRecord, WalError, invalid_record_length, non_monotonic_lsn, out_of_fuel, header_size,
  minimum_record_size, max_record_size, decode,
}
use resume_project.Storage.Wal.RoundTrip.{decode-size}

-- `out.empty() || lsn > out.back().lsn`, where `last` is the LSN of `out.back()`
abbrev pub follows : Option ℕ → ℕ → Bool
follows none lsn = true
follows (some last) lsn = ltb last lsn

-- One round reads a header and the rest of a record. A short read of either ends the loop, which is
-- how a truncated tail is dropped; the round before the end of the file reads nothing.
unfoldable pub scan : ℕ → Option ℕ → List ℕ → Result WalError (List WalRecord)
scan zero last input = err out_of_fuel
scan (suc fuel) last input =
    let size = get32 input 8 in
    if ltb (length input) header_size
    then ok []
    else if ltb size minimum_record_size || ltb max_record_size size
    then err invalid_record_length
    else if ltb (length input) size
    then ok []
    else (do
      r ← decode (take size input)
      require (follows last r.lsn) non_monotonic_lsn
      rest ← scan fuel (some r.lsn) (drop size input)
      ok (r ∷ rest))

-- A record takes 40 bytes at least, so one round more than there are bytes is enough.
unfoldable pub read_records : List ℕ → Result WalError (List WalRecord)
read_records bytes = scan (suc (length bytes)) none bytes

decode-ne-out_of_fuel : (bytes : List ℕ) → decode bytes ≢ err out_of_fuel
unfolding decode
decode-ne-out_of_fuel bytes h = ground arith

scan-ne-out_of_fuel :
    (fuel : ℕ) (last : Option ℕ) (input : List ℕ)
    → length input < fuel
    → scan fuel last input ≢ err out_of_fuel
unfolding scan
scan-ne-out_of_fuel zero last input h e = absurd (omega arith)
scan-ne-out_of_fuel (suc fuel) last input h e =
    elim (Result-cases (decode (take (get32 input 8) input))) [
      | inl (r, d) ↦ ground (
        arith,
        length-drop (get32 input 8) input,
        scan-ne-out_of_fuel fuel (some r.lsn) (drop (get32 input 8) input),
      )
      | inr (x, d) ↦ ground (arith, decode-ne-out_of_fuel (take (get32 input 8) input))
    ]

-- The scan of a log file ends on every content: one round more than there are bytes is enough.
pub read_records-ne-out_of_fuel : (bytes : List ℕ) → read_records bytes ≢ err out_of_fuel
unfolding read_records
read_records-ne-out_of_fuel bytes =
    scan-ne-out_of_fuel (suc (length bytes)) none bytes (omega arith)

-- The bytes that the records of a list take in a file.
abbrev pub records_size : List WalRecord → ℕ
records_size [] = 0
records_size (r ∷ rs) = minimum_record_size + length r.payload + records_size rs

-- LSNs rise along the list, from above `last` on, and are set.
abbrev pub IsIncreasing : Option ℕ → List WalRecord → Type 0
IsIncreasing last [] = Unit {0}
IsIncreasing last (r ∷ rs) =
    (follows last r.lsn ≡ true) × (0 < r.lsn) × IsIncreasing (some r.lsn) rs

scan_sound :
    (fuel : ℕ) (last : Option ℕ) (input : List ℕ) (rs : List WalRecord)
    → scan fuel last input ≡ ok rs
    → IsIncreasing last rs × (records_size rs ≤ length input)
unfolding scan
scan_sound zero last input rs e = cc
scan_sound (suc fuel) last input [] e = (tt, omega arith)
scan_sound (suc fuel) last input (r ∷ rs) e = ground (
  arith,
  length-drop (get32 input 8) input,
  length-take-le (get32 input 8) input,
  decode-size (take (get32 input 8) input) r,
  scan_sound fuel (some r.lsn) (drop (get32 input 8) input) rs,
)

-- Whatever file the scan accepts, the records that it returns have set, rising LSNs, and together
-- take no more bytes than the file has.
pub read_records_sound :
    (bytes : List ℕ) (rs : List WalRecord)
    → read_records bytes ≡ ok rs
    → IsIncreasing none rs × (records_size rs ≤ length bytes)
unfolding read_records
read_records_sound bytes rs e = scan_sound (suc (length bytes)) none bytes rs e
