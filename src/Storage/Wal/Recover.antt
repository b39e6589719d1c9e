-- ===== src/Storage/Wal/Recover.antt =====
-- What a scan recovers from whole records with a torn record behind them.
use resume_project.Common.{
  ℕ, zero, suc, ◌+◌, ◌≤◌, ◌<◌, ◌≡◌, refl, ap, ◌∙◌, true, ◌⊎◌, inl, inr, Option, none, some, List,
  [], ◌∷◌, ◌++◌, length, take, drop, length-append, take-append, drop-append, arith, ok, get32,
  get32-append_left, Bool-cases, ltb, ltb→lt, ltb-false→le, append_assoc,
}
use resume_project.Storage.Wal.{WalRecord, header_size, minimum_record_size, max_record_size}
use resume_project.Storage.Wal.RoundTrip.{
  IsEncodable, frame, length-frame, size-frame, decode-frame,
}
use resume_project.Storage.Wal.Scan.{scan, read_records, follows, records_size, IsIncreasing}

-- The bytes of a whole log.
abbrev pub frames : List WalRecord → List ℕ
frames [] = []
frames (r ∷ rs) = frame r ++ frames rs

abbrev pub AllEncodable : List WalRecord → Type 0
AllEncodable [] = Unit {0}
AllEncodable (r ∷ rs) = IsEncodable r × AllEncodable rs

pub length-frames : (rs : List WalRecord) → length (frames rs) ≡ records_size rs
length-frames [] = refl
length-frames (r ∷ rs) =
    omega (arith, length-append (frame r) (frames rs), length-frame r, length-frames rs)

-- A record that stops before its end: in its header, or after it.
abbrev pub IsTorn : List ℕ → Type 0
IsTorn tail =
    (length tail < header_size)
    ⊎ ((minimum_record_size ≤ get32 tail 8)
        × (get32 tail 8 ≤ max_record_size)
        × (length tail < get32 tail 8))

pub prefix-IsTorn :
    (r : WalRecord) (front back : List ℕ) (x : ℕ)
    → IsEncodable r
    → frame r ≡ front ++ (x ∷ back)
    → IsTorn front
prefix-IsTorn r front back x e cut = elim (Bool-cases (ltb (length front) header_size)) [
  | inl short ↦ inl (ltb→lt _ _ short)
  | inr long ↦ inr (
      omega (
        arith,
        ltb-false→le (length front) header_size,
        get32-append_left front (x ∷ back) 8,
        ap (λ (bytes : List ℕ). get32 bytes 8) cut,
        ap (λ (bytes : List ℕ). length bytes) cut,
        length-append front (x ∷ back),
        size-frame r e,
        length-frame r,
      ))
]

scan-IsTorn :
    (fuel : ℕ) (last : Option ℕ) (tail : List ℕ) → IsTorn tail → scan (suc fuel) last tail ≡ ok []
unfolding scan
scan-IsTorn fuel last tail (inl h) = ground arith
scan-IsTorn fuel last tail (inr h) = ground arith

-- One round over a whole record.
scan-frame :
    (fuel : ℕ) (last : Option ℕ) (r : WalRecord) (rest : List ℕ) (rs : List WalRecord)
    → IsEncodable r
    → follows last r.lsn ≡ true
    → scan fuel (some r.lsn) rest ≡ ok rs
    → scan (suc fuel) last (frame r ++ rest) ≡ ok (r ∷ rs)
unfolding scan
scan-frame fuel last r rest rs e above more = ground (
  arith,
  e.payload_fits,
  whole,
  length-append (frame r) rest,
  length-frame r,
  size-frame r e,
  get32-append_left (frame r) rest 8,
  first,
  behind,
  decode-frame r e,
)
  where
    size : get32 (frame r ++ rest) 8 ≡ length (frame r)
    size = omega (arith, length-frame r, size-frame r e, get32-append_left (frame r) rest 8)

    whole : get32 (frame r ++ rest) 8 ≡ minimum_record_size + length r.payload
    whole = size ∙ length-frame r

    first : take (get32 (frame r ++ rest) 8) (frame r ++ rest) ≡ frame r
    first = rw size (take-append (frame r) rest)

    behind : drop (get32 (frame r ++ rest) 8) (frame r ++ rest) ≡ rest
    behind = rw size (drop-append (frame r) rest)

scan-frames :
    (rs : List WalRecord) (fuel : ℕ) (last : Option ℕ) (tail : List ℕ)
    → AllEncodable rs
    → IsIncreasing last rs
    → IsTorn tail
    → length (frames rs ++ tail) < fuel
    → scan fuel last (frames rs ++ tail) ≡ ok rs
scan-frames [] zero last tail e i t h = absurd (omega arith)
scan-frames [] (suc fuel) last tail e i t h = scan-IsTorn fuel last tail t
scan-frames (r ∷ rs) zero last tail e i t h = absurd (omega arith)
scan-frames (r ∷ rs) (suc fuel) last tail e i t h = rw append_assoc (
    scan-frame fuel last r (frames rs ++ tail) rs e.0 i.0 (
      scan-frames rs fuel (some r.lsn) tail e.1 i.2 t (
        omega (
          arith,
          length-append (frame r ++ frames rs) tail,
          length-append (frame r) (frames rs),
          length-append (frames rs) tail,
          length-frame r,
        ))))

-- Reading the bytes of encodable records with rising LSNs, followed by a torn record or by
-- nothing, gives those records.
pub read_records-frames :
    (rs : List WalRecord) (tail : List ℕ)
    → AllEncodable rs
    → IsIncreasing none rs
    → IsTorn tail
    → read_records (frames rs ++ tail) ≡ ok rs
unfolding read_records
read_records-frames rs tail e i t =
    scan-frames rs (suc (length (frames rs ++ tail))) none tail e i t (omega arith)
