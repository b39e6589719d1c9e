-- ===== src/Storage/Wal/Examples.antt =====
-- Runs of the log format of src/storage/log_manager.cpp on concrete records.
use resume_project.Common.{
  ℕ, List, ◌≤◌, ◌≡◌, ◌≢◌, refl, none, [], ◌∷◌, ◌++◌, length, arith, ok, err, inl,
}
use resume_project.Storage.Page.{PhysicalMutation, zero_payload, length-zero_payload}
use resume_project.Storage.Wal.{WalRecord, out_of_fuel, begins, commit, encode, decode}
use resume_project.Storage.Wal.RoundTrip.{IsEncodable, decode-encode}
use resume_project.Storage.Wal.Mutation.{
  encode_physical_mutation, decode_physical_mutation, IsImage, decode-encode_physical_mutation,
}
use resume_project.Storage.Wal.Scan.{
  read_records, read_records-ne-out_of_fuel, records_size, IsIncreasing, read_records_sound,
}
use resume_project.Storage.Wal.Recover.{frames, read_records-frames}

abbrev pub started : WalRecord
started = record { lsn = 1; transaction_id = 7; type = begins; payload = [] }

abbrev pub committed : WalRecord
committed = record { lsn = 2; transaction_id = 7; type = commit; payload = 5 ∷ 255 ∷ [] }

pub started-IsEncodable : IsEncodable started
started-IsEncodable = record {
  lsn_fits = omega arith;
  lsn_set = omega arith;
  transaction_fits = omega arith;
  payload_fits = omega arith;
}

pub committed-IsEncodable : IsEncodable committed
committed-IsEncodable = record {
  lsn_fits = omega arith;
  lsn_set = omega arith;
  transaction_fits = omega arith;
  payload_fits = omega arith;
}

decode-encode_example :
    (bytes : List ℕ) × (encode committed ≡ ok bytes) × (decode bytes ≡ ok committed)
decode-encode_example = decode-encode committed committed-IsEncodable

read_records-frames_example :
    read_records (frames (started ∷ committed ∷ []) ++ (b'D' ∷ b'W' ∷ []))
    ≡ ok (started ∷ committed ∷ [])
read_records-frames_example =
    read_records-frames (started ∷ committed ∷ []) (b'D' ∷ b'W' ∷ [])
      (started-IsEncodable, (committed-IsEncodable, tt))
      (refl, omega arith, (refl, omega arith, tt)) (inl (omega arith))

read_records_sound_example :
    IsIncreasing none (started ∷ committed ∷ [])
    × (records_size (started ∷ committed ∷ []) ≤ length (frames (started ∷ committed ∷ []) ++ []))
read_records_sound_example =
    read_records_sound (frames (started ∷ committed ∷ []) ++ []) (started ∷ committed ∷ []) (
      read_records-frames (started ∷ committed ∷ []) []
        (started-IsEncodable, (committed-IsEncodable, tt))
        (refl, omega arith, (refl, omega arith, tt)) (inl (omega arith)))

read_records-ne-out_of_fuel_example :
    read_records (b'D' ∷ b'D' ∷ b'W' ∷ b'L' ∷ []) ≢ err out_of_fuel
read_records-ne-out_of_fuel_example = read_records-ne-out_of_fuel (b'D' ∷ b'D' ∷ b'W' ∷ b'L' ∷ [])

abbrev write : PhysicalMutation
write = record {
  page_id = 3;
  sequence = 1;
  before_image = zero_payload;
  after_image = zero_payload;
  previous_page_lsn = 9;
}

write-IsImage : IsImage write
write-IsImage = record {
  page_fits = omega arith;
  page_valid = refl;
  sequence_fits = omega arith;
  before_full = length-zero_payload;
  after_full = length-zero_payload;
}

decode-encode_physical_mutation_example :
    (bytes : List ℕ) × (encode_physical_mutation write ≡ ok bytes)
    × (decode_physical_mutation bytes ≡ ok (record write { previous_page_lsn = 0 }))
decode-encode_physical_mutation_example = decode-encode_physical_mutation write write-IsImage
