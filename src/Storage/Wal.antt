-- ===== src/Storage/Wal.antt =====
-- The records of the write-ahead log and their bytes: the first part of src/storage/log_manager.cpp.
pub mod RoundTrip
pub mod Mutation
pub mod Scan
pub mod Recover
pub mod Examples
use mathlib.Core.List.{foldl}
use Prim.Native.Nat.{bit_xor}
use resume_project.Common.{
  ℕ, ◌+◌, ◌-◌, ◌*◌, ◌%◌, ◌^◌, Bool, not, ◌&&◌, Option, none, some, List, [], ◌∷◌, ◌++◌, length,
  take, drop, get_or, leb, ◌==◌, if◌then◌else◌, Result, ok, err, require, ◌>>=◌, ◌>>◌, put16, put32,
  put64, get16, get32, get64, same_bytes,
}

pub data RecordType : Type 0 where
  begins physical_mutation commit abort page_allocate : RecordType

-- the underlying values of `WalRecordType`
abbrev pub type_code : RecordType → ℕ
type_code begins = 1
type_code physical_mutation = 2
type_code commit = 3
type_code abort = 4
type_code page_allocate = 5

-- `Begin <= raw && raw <= PageAllocate`, with the cast of what passes
unfoldable pub type_of_code : ℕ → Option RecordType
type_of_code c =
    if c == 1
    then some begins
    else if c == 2
    then some physical_mutation
    else if c == 3
    then some commit
    else if c == 4
    then some abort
    else if c == 5
    then some page_allocate
    else none

pub record WalRecord : Type 0 where
  pub lsn : ℕ
  pub transaction_id : ℕ
  pub type : RecordType
  pub payload : List ℕ

-- One constructor for each message of a `WalError`. `out_of_fuel` is none of them: it marks a loop
-- of the model that ran out of fuel.
pub data WalError : Type 0 where
  zero_lsn invalid_lsn payload_too_large truncated_record invalid_magic unsupported_version :
      WalError
  invalid_header_length invalid_record_length invalid_payload_length : WalError
  invalid_checksum invalid_record_type : WalError
  invalid_mutation_page invalid_image_size truncated_mutation : WalError
  invalid_image_lengths invalid_mutation_kind : WalError
  invalid_allocation_page invalid_allocation_length : WalError
  non_monotonic_lsn append_failed flush_failed forced_flush_failure : WalError
  unlogged_mutations unresolved_mutations : WalError
  payload_on_terminal conflicting_terminals : WalError
  out_of_fuel : WalError

abbrev pub magic : List ℕ
magic = b'D' ∷ b'W' ∷ b'A' ∷ b'L' ∷ []

abbrev pub version : ℕ
version = 1

abbrev pub header_size : ℕ
header_size = 36

abbrev pub checksum_size : ℕ
checksum_size = 4

abbrev pub minimum_record_size : ℕ
minimum_record_size = header_size + checksum_size

abbrev pub max_record_size : ℕ
max_record_size = 32 * 1024 * 1024

-- One round of FNV-1a on a uint32_t.
abbrev pub checksum_step : ℕ → ℕ → ℕ
checksum_step value byte = bit_xor value byte * 16777619 % 2 ^ 32

pub checksum : List ℕ → ℕ
checksum = foldl checksum_step 2166136261

-- The 36 bytes before the payload.
pub encode_header : WalRecord → List ℕ
encode_header r =
    magic
    ++ (put16 version
        ++ (put16 header_size
            ++ (put32 (minimum_record_size + length r.payload)
                ++ (put64 r.lsn
                    ++ (put64 r.transaction_id
                        ++ (type_code r.type ∷ 0 ∷ 0 ∷ 0 ∷ put32 (length r.payload)))))))

-- Header and payload, the part under the checksum.
pub encode_body : WalRecord → List ℕ
encode_body r = encode_header r ++ r.payload

-- The test on the type is left out: every value of `RecordType` passes it.
pub encode : WalRecord → Result WalError (List ℕ)
encode r = do
  require (not (r.lsn == 0)) zero_lsn
  require (leb (length r.payload) (max_record_size - minimum_record_size)) payload_too_large
  ok (encode_body r ++ put32 (checksum (encode_body r)))

decode_type : ℕ → Result WalError RecordType
decode_type c = elim (type_of_code c) [ none ↦ err invalid_record_type | some t ↦ ok t ]

pub decode : List ℕ → Result WalError WalRecord
unfolding decode_type
decode bytes = do
  require (leb minimum_record_size (length bytes)) truncated_record
  require (same_bytes (take 4 bytes) magic) invalid_magic
  require (get16 bytes 4 == version) unsupported_version
  require (get16 bytes 6 == header_size) invalid_header_length
  let size = get32 bytes 8
  let payload_size = get32 bytes 32
  require (size == length bytes && leb minimum_record_size size && leb size max_record_size)
      invalid_record_length
  require (payload_size == size - minimum_record_size) invalid_payload_length
  let saved_checksum = get32 bytes (length bytes - checksum_size)
  let checked = take (length bytes - checksum_size) bytes
  require (checksum checked == saved_checksum) invalid_checksum
  type ← decode_type (get_or bytes 28 0)
  let lsn = get64 bytes 12
  require (not (lsn == 0)) invalid_lsn
  ok (record {
    lsn = lsn;
    transaction_id = get64 bytes 20;
    type = type;
    payload = drop header_size checked;
  })
