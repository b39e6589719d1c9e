-- ===== src/Storage/Wal/Mutation.antt =====
-- The payloads of the two record types that have one: page images and page allocations.
use resume_project.Common.{
  ℕ, ◌+◌, ◌≡◌, ◌≤◌, ◌-◌, refl, subst, true, List, [], ◌∷◌, ◌++◌, length, take, drop, get_or,
  length-append, take-append, drop-append, arith, ◌&&◌, leb, ◌==◌, Result, ok, require, ◌>>◌, put32,
  put64, get32, get64, get64-put64, IsU64,
}
use resume_project.Storage.Page.{page_payload_size, is_valid, PhysicalMutation}
use resume_project.Storage.Wal.{
  WalError, max_record_size, minimum_record_size, invalid_mutation_page, invalid_image_size,
  truncated_mutation, invalid_image_lengths, invalid_mutation_kind, invalid_allocation_page,
  invalid_allocation_length,
}

-- the code of `MutationKind::PayloadWrite`
abbrev pub payload_write : ℕ
payload_write = 0

-- page id, kind, sequence, and the sizes of the two images: 25 bytes
pub mutation_header : PhysicalMutation → List ℕ
mutation_header m =
    put64 m.page_id
    ++ (payload_write
        ∷ (put64 m.sequence ++ (put32 (length m.before_image) ++ put32 (length m.after_image))))

unfoldable pub encode_physical_mutation : PhysicalMutation → Result WalError (List ℕ)
encode_physical_mutation m = do
  require (is_valid m.page_id) invalid_mutation_page
  require (length m.before_image == page_payload_size && length m.after_image == page_payload_size)
      invalid_image_size
  ok (mutation_header m ++ (m.before_image ++ m.after_image))

-- The predecessor's LSN is not written; it comes back as 0.
pub decode_physical_mutation : List ℕ → Result WalError PhysicalMutation
decode_physical_mutation bytes = do
  require (leb 25 (length bytes)) truncated_mutation
  let before_length = get32 bytes 17
  let after_length = get32 bytes 21
  require
      (before_length == page_payload_size
        && after_length == page_payload_size
        && length bytes == 25 + before_length + after_length)
      invalid_image_lengths
  require (get_or bytes 8 0 == payload_write) invalid_mutation_kind
  let page = get64 bytes 0
  require (is_valid page) invalid_mutation_page
  ok (record {
    page_id = page;
    sequence = get64 bytes 9;
    before_image = take before_length (drop 25 bytes);
    after_image = drop before_length (drop 25 bytes);
    previous_page_lsn = 0;
  })

unfoldable pub encode_page_allocate : ℕ → Result WalError (List ℕ)
encode_page_allocate page = do require (is_valid page) invalid_allocation_page; ok (put64 page)

pub decode_page_allocate : List ℕ → Result WalError ℕ
decode_page_allocate bytes = do
  require (length bytes == 8) invalid_allocation_length
  let page = get64 bytes 0
  require (is_valid page) invalid_allocation_page
  ok page

-- A mutation that `MutationContext` captures: a valid page, and two whole payloads.
pub record IsImage (m : PhysicalMutation) : Type 0 where
  pub page_fits : IsU64 m.page_id
  pub page_valid : is_valid m.page_id ≡ true
  pub sequence_fits : IsU64 m.sequence
  pub before_full : length m.before_image ≡ page_payload_size
  pub after_full : length m.after_image ≡ page_payload_size

pub mutation_bytes : PhysicalMutation → List ℕ
mutation_bytes m = mutation_header m ++ (m.before_image ++ m.after_image)

module _ (m : PhysicalMutation) (h : IsImage m) where
  pub encode_physical_mutation-IsImage : encode_physical_mutation m ≡ ok (mutation_bytes m)
  unfolding encode_physical_mutation mutation_bytes
  encode_physical_mutation-IsImage = ground arith

  images : List ℕ
  images = m.before_image ++ m.after_image

  length-images : length images ≡ page_payload_size + page_payload_size
  unfolding images
  length-images =
      omega (arith, length-append m.before_image m.after_image, h.before_full, h.after_full)

  length-mutation_bytes : length (mutation_bytes m) ≡ 25 + length images
  unfolding mutation_bytes mutation_header put64 put32 images
  length-mutation_bytes = omega arith

  pub length-mutation_bytes_le : length (mutation_bytes m) ≤ max_record_size - minimum_record_size
  length-mutation_bytes_le = omega (arith, length-mutation_bytes, length-images)

  images-bytes : drop 25 (mutation_bytes m) ≡ images
  unfolding mutation_bytes mutation_header put64 put32 images
  images-bytes = refl

  before-bytes : get32 (mutation_bytes m) 17 ≡ page_payload_size
  unfolding mutation_bytes mutation_header put64 put32 get32
  before-bytes = rw h.before_full

  after-bytes : get32 (mutation_bytes m) 21 ≡ page_payload_size
  unfolding mutation_bytes mutation_header put64 put32 get32
  after-bytes = rw h.after_full

  kind-bytes : get_or (mutation_bytes m) 8 0 ≡ payload_write
  unfolding mutation_bytes mutation_header put64
  kind-bytes = refl

  page-bytes : get64 (mutation_bytes m) 0 ≡ m.page_id
  unfolding mutation_bytes mutation_header put64 get64
  page-bytes = get64-put64 m.page_id [] h.page_fits

  sequence-bytes : get64 (mutation_bytes m) 9 ≡ m.sequence
  unfolding mutation_bytes mutation_header put64 get64
  sequence-bytes = get64-put64 m.sequence [] h.sequence_fits

  before-images : take page_payload_size images ≡ m.before_image
  before-images =
      subst (λ n. take n images ≡ m.before_image) h.before_full
        (unfold images in take-append m.before_image m.after_image)

  after-images : drop page_payload_size images ≡ m.after_image
  after-images =
      subst (λ n. drop n images ≡ m.after_image) h.before_full
        (unfold images in drop-append m.before_image m.after_image)

  decode-mutation_bytes :
      decode_physical_mutation (mutation_bytes m) ≡ ok (record m { previous_page_lsn = 0 })
  unfolding decode_physical_mutation
  decode-mutation_bytes = simp (
    length-mutation_bytes, length-images, before-bytes, after-bytes, kind-bytes, page-bytes,
    sequence-bytes, images-bytes, before-images, after-images, h.page_valid,
  )

decode-put64 :
    (page : ℕ) → IsU64 page → is_valid page ≡ true → decode_page_allocate (put64 page) ≡ ok page
unfolding decode_page_allocate
decode-put64 page fits valid = ground (arith, same, size)
  where
    same : get64 (put64 page) 0 ≡ page
    same = unfold put64 get64 in get64-put64 page [] fits

    size : length (put64 page) ≡ 8
    size = unfold put64 in refl

-- The allocation of a valid page is encoded, and its page id comes back from the bytes.
pub decode-encode_page_allocate :
    (page : ℕ)
    → IsU64 page
    → is_valid page ≡ true
    → (bytes : List ℕ) × (encode_page_allocate page ≡ ok bytes)
      × (decode_page_allocate bytes ≡ ok page)
unfolding encode_page_allocate
decode-encode_page_allocate page fits valid =
    (put64 page, rw valid refl, decode-put64 page fits valid)

-- A page image of a valid page with two full payloads is encoded, and comes back from its bytes
-- but for the previous page LSN, which is 0.
pub decode-encode_physical_mutation :
    (m : PhysicalMutation)
    → IsImage m
    → (bytes : List ℕ) × (encode_physical_mutation m ≡ ok bytes)
      × (decode_physical_mutation bytes ≡ ok (record m { previous_page_lsn = 0 }))
decode-encode_physical_mutation m h =
    (mutation_bytes m, encode_physical_mutation-IsImage m h, decode-mutation_bytes m h)
