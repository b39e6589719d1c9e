-- ===== src/Execution/TableHeap.antt =====
-- TableHeap of src/execution/table_heap.cpp: a chain of data pages behind a metadata page.
pub mod Reach
pub mod Rows
pub mod Stored
mod Examples
use resume_project.Common.{
  ℕ, zero, suc, ◌+◌, ◌*◌, Bool, true, false, not, ◌&&◌, ◌||◌, Option, none, some, List, [], ◌∷◌,
  ◌++◌, length, drop, get_or, replicate, ltb, leb, ◌==◌, if◌then◌else◌, Result, ok, err, put16,
  put64, get16, get64,
}
use resume_project.Common.Action.{
  Action, pure, throw, gets, or_throw, throw_if, modify, ◌>>=◌, ◌>>◌, within,
}
use resume_project.Storage.Page.{page_payload_size, invalid_page, is_valid}
use resume_project.Buffer.Pool.Disk.{page_disk}
use resume_project.Buffer.Pool.Io.{fetch_page, flush_all_pages}
use resume_project.Transactions.Errors.{
  EngineError, empty_schema, cannot_pin_table_metadata, invalid_table_metadata, tuple_mismatch,
  cannot_pin_new_data, cannot_pin_previous_data, cannot_repin_new_data, out_of_fuel,
}
use resume_project.Transactions.Transaction.{mutation_context}
use resume_project.Index.Node.{RecordId}
use resume_project.Index.Tree.{Mode, plain, transactional}
use resume_project.Execution.Tuple.{Value, Column, serialize, deserialize}
use resume_project.Execution.SlotPage.{
  has_magic, meta_magic, data_magic, splice, empty_metadata, empty_data_page, with_ends, has_room,
  slot_header_size, slot_size, slot_count, slot_at, is_live, add_tuple, erase_slot, tuple_bytes,
}
use resume_project.Execution.TableHeap.Reach.{
  Access, AccessAction, in_session, on_pool, try_pin, pin, payload_of, release, edit_pinned,
  allocate_in,
}

-- `access` is what the heap reaches, with the modes of `active_mutations_` and
-- `active_transaction_`.
pub record Heap : Type 0 where
  pub access : Access
  pub metadata_page_id : ℕ
  pub schema : List Column
  pub first : ℕ
  pub last : ℕ

abbrev pub HeapAction : Type 0 → Type 0
HeapAction A = Action Heap EngineError A

abbrev pub on_access : {A : Type 0} → AccessAction A → HeapAction A
on_access = within (λ h. h.access) (λ a h. record h { access = a }) (λ e. e)

-- The two `create`s: `mode` tells the context of the caller's, or the transaction.
unfoldable pub create : Mode → List Column → AccessAction ℕ
create mode schema = do
  throw_if (elim schema [ [] ↦ true | c ∷ cs ↦ false ]) empty_schema
  modify (λ a. record a { mode = mode })
  id ← allocate_in mode
  f ← pin id cannot_pin_table_metadata
  edit_pinned id f (λ payload. empty_metadata)
  release id true
  pure id

-- The constructor.
unfoldable pub open_heap : ℕ → HeapAction (Unit {0})
open_heap id = do
  f ← on_access (pin id invalid_table_metadata)
  payload ← on_access (payload_of f)
  on_access (release id false)
  throw_if (not (has_magic payload meta_magic)) invalid_table_metadata
  modify (λ h. record h {
    access = record h.access { mode = plain };
    metadata_page_id = id;
    first = get64 payload 8;
    last = get64 payload 16;
  })

unfoldable pub write_metadata : HeapAction (Unit {0})
write_metadata = do
  id ← gets (λ h. h.metadata_page_id)
  first ← gets (λ h. h.first)
  last ← gets (λ h. h.last)
  f ← on_access (pin id cannot_pin_table_metadata)
  on_access (edit_pinned id f (with_ends first last))
  on_access (release id true)

-- The page that the new one follows, or the metadata's first page.
unfoldable pub link_page : ℕ → ℕ → HeapAction (Unit {0})
link_page last id = elim (is_valid last) [
  | false ↦ modify (λ h. record h { first = id })
  | true ↦ do
    f ← on_access (pin last cannot_pin_previous_data)
    on_access (edit_pinned last f (λ payload. splice payload 8 (put64 id)))
    on_access (release last true)
]

-- A new data page at the end of the chain, pinned: its id and its frame.
unfoldable pub extend : HeapAction (ℕ × ℕ)
extend = do
  mode ← gets (λ h. h.access.mode)
  id ← on_access (allocate_in mode)
  f ← on_access (pin id cannot_pin_new_data)
  on_access (edit_pinned id f (λ payload. empty_data_page))
  on_access (release id true)
  last ← gets (λ h. h.last)
  link_page last id
  modify (λ h. record h { last = id })
  write_metadata
  g ← on_access (pin id cannot_repin_new_data)
  pure (id, g)

-- The last page, pinned, if it can be and has room for so many bytes.
unfoldable pub last_with_room : ℕ → HeapAction (Option (ℕ × ℕ))
last_with_room size = do
  last ← gets (λ h. h.last)
  fetched ← elim (is_valid last) [ true ↦ on_access (try_pin last) | false ↦ pure none ]
  elim fetched [
    | none ↦ pure none
    | some f ↦ do
      payload ← on_access (payload_of f)
      elim (has_room payload size) [
        | true ↦ pure (some (last, f))
        | false ↦ do on_access (release last false); pure none
      ]
  ]

-- The tuple into the pinned page; the slot's number.
unfoldable pub put_tuple : ℕ → ℕ → List ℕ → HeapAction ℕ
put_tuple id f bytes = do
  payload ← on_access (payload_of f)
  on_access (edit_pinned id f (λ old. add_tuple old bytes))
  on_access (release id true)
  pure (slot_count payload)

unfoldable pub insert_bytes : List ℕ → HeapAction RecordId
insert_bytes bytes = do
  found ← last_with_room (length bytes)
  place ← elim found [ some p ↦ pure p | none ↦ extend ]
  slot ← put_tuple place.0 place.1 bytes
  pure (record { page_id = place.0; slot_id = slot })

-- `none` is a tuple that no page has room for.
unfoldable pub insert_impl : List Value → HeapAction (Option RecordId)
insert_impl t = do
  schema ← gets (λ h. h.schema)
  bytes ← or_throw (serialize schema t) tuple_mismatch
  elim (ltb page_payload_size (length bytes + slot_header_size + slot_size)) [
    | true ↦ pure none
    | false ↦ do r ← insert_bytes bytes; pure (some r)
  ]

unfoldable pub with_mode : {A : Type 0} → Mode → HeapAction A → HeapAction A
with_mode mode m h =
    let (result, g) = m (record h { access = record h.access { mode = mode } }) in
    (result, record g { access = record g.access { mode = h.access.mode } })

unfoldable pub insert : Mode → List Value → HeapAction (Option RecordId)
insert mode t = with_mode mode (insert_impl t)

abbrev pub open_context : HeapAction (Unit {0})
open_context = on_access (in_session (mutation_context (pure tt)))

unfoldable pub insert_in_transaction : List Value → HeapAction (Option RecordId)
insert_in_transaction t = with_mode transactional (open_context >> insert_impl t)

-- The tuple of a slot of a page.
unfoldable pub tuple_at : List Column → List ℕ → ℕ → Option (List Value)
tuple_at schema payload i = elim (tuple_bytes payload i) [
  | none ↦ none
  | some b ↦ deserialize schema b.0 b.1
]

unfoldable pub get : RecordId → HeapAction (Option (List Value))
unfolding tuple_at
get r = elim (is_valid r.page_id) [
  | false ↦ pure none
  | true ↦ do
    fetched ← on_access (try_pin r.page_id)
    elim fetched [
      | none ↦ pure none
      | some f ↦ do
        payload ← on_access (payload_of f)
        on_access (release r.page_id false)
        schema ← gets (λ h. h.schema)
        pure (tuple_at schema payload r.slot_id)
    ]
]

-- The slot is one of a data page and holds a tuple.
unfoldable pub is_erasable : List ℕ → ℕ → Bool
is_erasable payload i =
    has_magic payload data_magic && not (leb (slot_count payload) i) && is_live payload i

unfoldable pub erase_impl : RecordId → HeapAction Bool
erase_impl r = do
  fetched ← on_access (try_pin r.page_id)
  elim fetched [
    | none ↦ pure false
    | some f ↦ do
      payload ← on_access (payload_of f)
      elim (is_erasable payload r.slot_id) [
        | false ↦ do on_access (release r.page_id false); pure false
        | true ↦ do
          on_access (edit_pinned r.page_id f (λ old. erase_slot old r.slot_id))
          on_access (release r.page_id true)
          pure true
      ]
  ]

unfoldable pub erase : Mode → RecordId → HeapAction Bool
erase mode r = with_mode mode (erase_impl r)

unfoldable pub erase_in_transaction : RecordId → HeapAction Bool
erase_in_transaction r = with_mode transactional (open_context >> erase_impl r)

pub flush : HeapAction (Unit {0})
flush = on_access (on_pool (flush_all_pages page_disk))
