-- ===== src/Storage/Wal/RoundTrip.antt =====
-- Decoding what was encoded.
use mathlib.Core.List.{foldl}
use resume_project.Common.{
  ℕ, ◌+◌, ◌-◌, ◌^◌, ◌≤◌, ◌<◌, ◌≡◌, refl, ◌∙◌, true, some, List, [], ◌∷◌, ◌++◌, length, take, drop,
  get_or, length-append, length-drop, length-take-le, take-append, arith, ok, put16, put32, put64,
  get16, get32, get64, same_bytes, get32-put32, get32-append_right, get64-put64, IsU64,
}
use resume_project.Storage.Wal.{
  RecordType, begins, physical_mutation, commit, abort, page_allocate, type_code, type_of_code,
  WalRecord, magic, version, header_size, minimum_record_size, max_record_size, checksum,
  encode_header, encode_body, encode, decode, checksum_step,
}

-- What the fields of a C++ `WalRecord` hold, and a payload that `encode` accepts.
pub record IsEncodable (r : WalRecord) : Type 0 where
  pub lsn_fits : IsU64 r.lsn
  pub lsn_set : 0 < r.lsn
  pub transaction_fits : IsU64 r.transaction_id
  pub payload_fits : length r.payload ≤ max_record_size - minimum_record_size

type_of_code-type_code : (t : RecordType) → type_of_code (type_code t) ≡ some t
unfolding type_of_code
type_of_code-type_code begins = refl
type_of_code-type_code physical_mutation = refl
type_of_code-type_code commit = refl
type_of_code-type_code abort = refl
type_of_code-type_code page_allocate = refl

-- The bytes of a whole record.
pub frame : WalRecord → List ℕ
frame r = encode_body r ++ put32 (checksum (encode_body r))

length-header : (r : WalRecord) → length (encode_header r) ≡ 36
unfolding encode_header put16 put32 put64
length-header r = refl

length-body : (r : WalRecord) → length (encode_body r) ≡ 36 + length r.payload
unfolding encode_body
length-body r = omega (arith, length-append (encode_header r) r.payload, length-header r)

pub length-frame : (r : WalRecord) → length (frame r) ≡ minimum_record_size + length r.payload
unfolding frame put32
length-frame r =
    omega (arith, length-append (encode_body r) (put32 (checksum (encode_body r))), length-body r)

module _ (r : WalRecord) where
  magic-frame : same_bytes (take 4 (frame r)) magic ≡ true
  unfolding frame encode_body encode_header same_bytes
  magic-frame = refl

  version-frame : get16 (frame r) 4 ≡ version
  unfolding frame encode_body encode_header get16 put16
  version-frame = refl

  header_size-frame : get16 (frame r) 6 ≡ header_size
  unfolding frame encode_body encode_header get16 put16
  header_size-frame = refl

  type-frame : get_or (frame r) 28 0 ≡ type_code r.type
  unfolding frame encode_body encode_header put16 put32 put64
  type-frame = refl

module _ (r : WalRecord) (e : IsEncodable r) where
  pub size-frame : get32 (frame r) 8 ≡ minimum_record_size + length r.payload
  unfolding frame encode_body encode_header put16 put32 put64 get32
  size-frame =
      get32-put32 (minimum_record_size + length r.payload) [] (omega (arith, e.payload_fits))

  payload_size-frame : get32 (frame r) 32 ≡ length r.payload
  unfolding frame encode_body encode_header put16 put32 put64 get32
  payload_size-frame = get32-put32 (length r.payload) [] (omega (arith, e.payload_fits))

  lsn-frame : get64 (frame r) 12 ≡ r.lsn
  unfolding frame encode_body encode_header put16 put32 put64 get64
  lsn-frame = get64-put64 r.lsn [] e.lsn_fits

  transaction-frame : get64 (frame r) 20 ≡ r.transaction_id
  unfolding frame encode_body encode_header put16 put32 put64 get64
  transaction-frame = get64-put64 r.transaction_id [] e.transaction_fits

checksum_from-lt : (bytes : List ℕ) (v : ℕ) → v < 2 ^ 32 → foldl checksum_step v bytes < 2 ^ 32
checksum_from-lt [] v h = h
checksum_from-lt (b ∷ bs) v h = checksum_from-lt bs (checksum_step v b) (omega arith)

checksum-lt : (bytes : List ℕ) → checksum bytes < 2 ^ 32
unfolding checksum
checksum-lt bytes = checksum_from-lt bytes 2166136261 (omega arith)

module _ (r : WalRecord) where
  body_size : length (frame r) - 4 ≡ length (encode_body r)
  body_size = omega (arith, length-frame r, length-body r)

  checked-frame : take (length (frame r) - 4) (frame r) ≡ encode_body r
  checked-frame = rw body_size (unfold frame in take-append (encode_body r) _)

  payload-body : drop 36 (encode_body r) ≡ r.payload
  unfolding encode_body encode_header put16 put32 put64
  payload-body = refl

  -- The last four bytes are the checksum.
  saved_checksum-frame : get32 (frame r) (length (frame r) - 4) ≡ checksum (encode_body r)
  saved_checksum-frame = rw body_size (
      unfold frame in
      get32-append_right (encode_body r) (put32 (checksum (encode_body r))) ∙ trailer)
    where
      trailer : get32 (put32 (checksum (encode_body r))) 0 ≡ checksum (encode_body r)
      trailer =
          unfold get32 put32 in
          get32-put32 (checksum (encode_body r)) [] (checksum-lt (encode_body r))

pub decode-frame : (r : WalRecord) → IsEncodable r → decode (frame r) ≡ ok r
unfolding decode
decode-frame r e = ground (
  arith,
  length-frame r,
  magic-frame r,
  version-frame r,
  header_size-frame r,
  size-frame r e,
  payload_size-frame r e,
  checked-frame r,
  payload-body r,
  saved_checksum-frame r,
  type-frame r,
  type_of_code-type_code r.type,
  lsn-frame r e,
  transaction-frame r e,
)

pub encode-frame : (r : WalRecord) → IsEncodable r → encode r ≡ ok (frame r)
unfolding encode frame
encode-frame r e = ground (arith, e.lsn_set, e.payload_fits)

-- Whatever `decode` accepts has the size that its length fields say, a set LSN and a legal payload.
pub decode-size :
    (bytes : List ℕ) (r : WalRecord)
    → decode bytes ≡ ok r
    → (length bytes ≡ minimum_record_size + length r.payload)
      × (0 < r.lsn)
      × (length bytes ≤ max_record_size)
unfolding decode
decode-size bytes r h = ground (
  arith,
  length-drop header_size (take (length bytes - 4) bytes),
  length-take-le (length bytes - 4) bytes,
)

-- `encode` accepts every encodable record (LSN set, fields of 64 bits, a payload within the
-- limit), and `decode` gives the record back from its bytes.
pub decode-encode :
    (r : WalRecord)
    → IsEncodable r
    → (bytes : List ℕ) × (encode r ≡ ok bytes) × (decode bytes ≡ ok r)
decode-encode r e = (frame r, encode-frame r e, decode-frame r e)
