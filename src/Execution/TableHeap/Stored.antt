-- ===== src/Execution/TableHeap/Stored.antt =====
-- A tuple in a data page, from its values to its bytes and back.
use resume_project.Common.{
  ℕ, ◌<◌, ◌≡◌, refl, subst, true, some, List, ◌++◌, length, All, arith, drop,
}
use resume_project.Execution.Tuple.{Value, Column, validates, serialize, deserialize}
use resume_project.Execution.Tuple.RoundTrip.{IsValue, deserialize-serialize}
use resume_project.Execution.SlotPage.{has_room, add_tuple, slot_count, tuples_start}
use resume_project.Execution.SlotPage.Slots.{
  IsDataPage, tuple_bytes-add_tuple, tuple_bytes-add_tuple_before, add_tuple-IsDataPage,
}
use resume_project.Execution.TableHeap.{tuple_at}

-- When a tuple that the schema validates, of values of their types' ranges, is serialized and put
-- into a data page that has room for its bytes, the new slot reads back as the tuple, every slot
-- before reads as it did, and the page is a data page again.
pub tuple_at-add_tuple :
    (schema : List Column) (t : List Value) (payload bytes : List ℕ)
    → IsDataPage payload
    → validates schema t ≡ true
    → All IsValue t
    → serialize schema t ≡ some bytes
    → has_room payload (length bytes) ≡ true
    → (tuple_at schema (add_tuple payload bytes) (slot_count payload) ≡ some t)
      × ((i : ℕ)
          → i < slot_count payload
          → tuple_at schema (add_tuple payload bytes) i ≡ tuple_at schema payload i)
      × IsDataPage (add_tuple payload bytes)
unfolding tuple_at
tuple_at-add_tuple schema t payload bytes page fits values stored room =
    let (same, put, back) =
      deserialize-serialize schema t (drop (tuples_start payload) payload) fits values in
    let e : same ≡ bytes = ground (arith, put, stored) in
    let new = tuple_bytes-add_tuple payload bytes page room in
    let read : deserialize schema (bytes ++ drop (tuples_start payload) payload) (length bytes)
        ≡ some t =
      subst (λ b. deserialize schema (b ++ drop (tuples_start payload) payload) (length b) ≡ some t)
        e back in
    (
      simp (tuple_at, new, read) refl,
      (λ i h. simp (tuple_at, tuple_bytes-add_tuple_before payload bytes page room i h) refl),
      add_tuple-IsDataPage payload bytes page room,
    )
