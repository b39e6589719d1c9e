-- ===== src/Execution/TableHeap/Rows.antt =====
-- The loops of src/execution/table_heap.cpp over the chain of data pages: `scan` and
-- `validate_invariants`. Their fuel is a bound on the length of the chain; a chain that is a cycle
-- keeps the source busy for ever.
use resume_project.Common.{
  ℕ, zero, suc, ◌+◌, Bool, true, false, not, ◌&&◌, ◌||◌, Option, none, some, List, [], ◌∷◌, ◌++◌,
  drop, leb, ◌==◌, Result, ok, err,
}
use resume_project.Common.Action.{pure, throw, gets, throw_if, ◌>>=◌, ◌>>◌}
use resume_project.Storage.Page.{page_payload_size, is_valid}
use resume_project.Transactions.Errors.{
  EngineError, cannot_pin_data_page, invalid_data_page, corrupt_tuple, out_of_fuel,
}
use resume_project.Index.Node.{RecordId}
use resume_project.Execution.Tuple.{Value, Column, deserialize}
use resume_project.Execution.SlotPage.{
  has_magic, data_magic, slot_count, slot_at, slot_offset, slot_length, is_live, next_page,
  directory_end, tuples_start,
}
use resume_project.Execution.TableHeap.Reach.{try_pin, pin, payload_of, release}
use resume_project.Execution.TableHeap.{Heap, HeapAction, on_access}

-- The bytes of slot `i`, as its fields say. Bytes behind the page read as 0.
abbrev pub slot_values : List Column → List ℕ → ℕ → Option (List Value)
slot_values schema payload i =
    deserialize schema (drop (slot_offset payload i) payload) (slot_length payload i)

-- The live tuples of `n` slots from slot `i` on; `none` is a corrupt one.
unfoldable pub rows_of : List Column → List ℕ → ℕ → ℕ → ℕ → Option (List (RecordId × List Value))
rows_of schema payload id zero i = some []
rows_of schema payload id (suc n) i =
    let rest = rows_of schema payload id n (i + 1) in
    elim (is_live payload i) [
      | false ↦ rest
      | true ↦ elim (slot_values schema payload i) [
        | none ↦ none
        | some vs ↦ elim rest [
          | none ↦ none
          | some rows ↦ some ((record { page_id = id; slot_id = i }, vs) ∷ rows)
        ]
      ]
    ]

-- A page is unpinned before an exception about it is thrown.
unfoldable pub scan_pages :
    ℕ → ℕ → List (RecordId × List Value) → HeapAction (List (RecordId × List Value))
scan_pages zero id out = throw out_of_fuel
scan_pages (suc fuel) id out = elim (is_valid id) [
  | false ↦ pure out
  | true ↦ do
    f ← on_access (pin id cannot_pin_data_page)
    payload ← on_access (payload_of f)
    on_access (release id false)
    throw_if (not (has_magic payload data_magic)) invalid_data_page
    schema ← gets (λ h. h.schema)
    elim (rows_of schema payload id (slot_count payload) 0) [
      | none ↦ throw corrupt_tuple
      | some rows ↦ scan_pages fuel (next_page payload) (out ++ rows)
    ]
]

unfoldable pub scan : ℕ → HeapAction (List (RecordId × List Value))
scan fuel = do first ← gets (λ h. h.first); scan_pages fuel first []

-- The tests on a slot.
unfoldable pub is_sound_slot : List Column → List ℕ → ℕ → Bool
is_sound_slot schema payload i =
    not (is_live payload i)
    || (leb (tuples_start payload) (slot_offset payload i)
        && leb (slot_offset payload i + slot_length payload i) page_payload_size
        && elim (slot_values schema payload i) [ none ↦ false | some vs ↦ true ])

unfoldable pub are_sound_slots : List Column → List ℕ → ℕ → ℕ → Bool
are_sound_slots schema payload zero i = true
are_sound_slots schema payload (suc n) i =
    is_sound_slot schema payload i && are_sound_slots schema payload n (i + 1)

-- The tests on a page.
unfoldable pub is_sound_page : List Column → List ℕ → Bool
is_sound_page schema payload =
    directory_end payload == slot_at (slot_count payload)
    && leb (tuples_start payload) page_payload_size
    && leb (directory_end payload) (tuples_start payload)
    && are_sound_slots schema payload (slot_count payload) 0

unfoldable pub check_pages : ℕ → ℕ → HeapAction Bool
check_pages zero id = throw out_of_fuel
check_pages (suc fuel) id = elim (is_valid id) [
  | false ↦ pure true
  | true ↦ do
    fetched ← on_access (try_pin id)
    elim fetched [
      | none ↦ pure false
      | some f ↦ do
        payload ← on_access (payload_of f)
        on_access (release id false)
        schema ← gets (λ h. h.schema)
        elim (has_magic payload data_magic && is_sound_page schema payload) [
          | false ↦ pure false
          | true ↦ check_pages fuel (next_page payload)
        ]
    ]
]

-- `catch (...) { return false; }`, but for the end of the fuel.
unfoldable pub caught : Result EngineError Bool × Heap → Result EngineError Bool × Heap
caught (ok b, h) = (ok b, h)
caught (err out_of_fuel, h) = (err out_of_fuel, h)
caught (err e, h) = (ok false, h)

unfoldable pub validate_invariants : ℕ → HeapAction Bool
unfolding caught
validate_invariants fuel h = caught ((gets (λ heap. heap.first) >>= check_pages fuel) h)
