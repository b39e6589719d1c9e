-- ===== src/Storage/Page.antt =====
-- include/ddb/storage/page.h: page identifiers and pages, and the images of physical_mutation.h.
use resume_project.Common.{
  ℕ, ◌-◌, ◌^◌, ◌≡◌, Bool, not, List, length, replicate, length-replicate, ◌==◌,
}

abbrev pub page_size : ℕ
page_size = 4096

abbrev pub page_header_size : ℕ
page_header_size = 32

abbrev pub page_payload_size : ℕ
page_payload_size = page_size - page_header_size

abbrev pub page_format_version : ℕ
page_format_version = 1

-- `PageId` is its 64-bit value; UINT64_MAX marks the invalid one.
abbrev pub invalid_page : ℕ
invalid_page = 2 ^ 64 - 1

abbrev pub is_valid : ℕ → Bool
is_valid id = not (id == invalid_page)

-- `Page`: its identifier, the LSN of its last change, and its payload.
pub record Page : Type 0 where
  pub id : ℕ
  pub lsn : ℕ
  pub payload : List ℕ

-- `Page::clear` on the payload
pub zero_payload : List ℕ
zero_payload = replicate page_payload_size 0

pub length-zero_payload : length zero_payload ≡ page_payload_size
unfolding zero_payload
length-zero_payload = length-replicate page_payload_size 0

-- `Page{}`
pub empty_page : Page
empty_page = record { id = invalid_page; lsn = 0; payload = zero_payload }

-- The array of a page has a fixed size.
abbrev pub IsFull : Page → Type 0
IsFull p = length p.payload ≡ page_payload_size

pub empty_page-IsFull : IsFull empty_page
unfolding empty_page
empty_page-IsFull = length-zero_payload

-- `PhysicalMutation`; its only kind is PayloadWrite, whose code is 0.
pub record PhysicalMutation : Type 0 where
  pub page_id : ℕ
  pub sequence : ℕ
  pub before_image : List ℕ
  pub after_image : List ℕ
  pub previous_page_lsn : ℕ
