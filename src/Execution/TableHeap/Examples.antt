-- ===== src/Execution/TableHeap/Examples.antt =====
-- A row put into an empty data page.
use resume_project.Common.{
  ℕ, ◌<◌, ◌≡◌, refl, some, true, List, [], ◌∷◌, length, put16, put32, put64, get16,
}
use resume_project.Execution.Tuple.{serialize, validates, value_bytes, values_bytes}
use resume_project.Execution.Tuple.Examples.{schema, row, row-validates, row-IsValue}
use resume_project.Execution.SlotPage.{empty_data_page, has_room, slot_count, add_tuple}
use resume_project.Execution.SlotPage.Slots.{IsDataPage}
use resume_project.Execution.SlotPage.Examples.{empty_data_page-IsDataPage}
use resume_project.Execution.TableHeap.{tuple_at}
use resume_project.Execution.TableHeap.Stored.{tuple_at-add_tuple}

abbrev row_bytes : List ℕ
row_bytes = 112 ∷ 17 ∷ 1 ∷ 0 ∷ 0 ∷ 0 ∷ 0 ∷ 0 ∷ 2 ∷ 0 ∷ 0 ∷ 0 ∷ b'x' ∷ b'y' ∷ 1 ∷ []

row_serialized : serialize schema row ≡ some row_bytes
unfolding serialize validates value_bytes values_bytes put32 put64
row_serialized = refl

has_room_here : has_room empty_data_page (length row_bytes) ≡ true
unfolding empty_data_page has_room put16 put64 get16
has_room_here = refl

tuple_at-add_tuple_example :
    (tuple_at schema (add_tuple empty_data_page row_bytes) (slot_count empty_data_page) ≡ some row)
    × ((i : ℕ)
        → i < slot_count empty_data_page
        → tuple_at schema (add_tuple empty_data_page row_bytes) i
          ≡ tuple_at schema empty_data_page i)
    × IsDataPage (add_tuple empty_data_page row_bytes)
tuple_at-add_tuple_example =
    tuple_at-add_tuple schema row empty_data_page row_bytes empty_data_page-IsDataPage row-validates
      row-IsValue row_serialized has_room_here
