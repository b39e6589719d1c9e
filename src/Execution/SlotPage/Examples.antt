-- ===== src/Execution/SlotPage/Examples.antt =====
-- A page with one tuple of three bytes.
use resume_project.Common.{
  ℕ, ◌<◌, ◌≡◌, ◌-◌, ◌≢◌, refl, true, none, List, [], ◌∷◌, replicate, length-replicate, arith, put16,
  put64, get16, same_bytes,
}
use resume_project.Storage.Page.{page_payload_size}
use resume_project.Execution.SlotPage.{
  splice, has_magic, empty_data_page, has_room, slot_count, add_tuple, store_tuple, erase_slot,
  tuple_bytes,
}
use resume_project.Execution.SlotPage.Slots.{IsDataPage, add_tuple-IsDataPage}
use resume_project.Execution.SlotPage.Erase.{tuple_bytes-erase_slot}

pub empty_data_page-IsDataPage : IsDataPage empty_data_page
unfolding empty_data_page has_magic same_bytes put16 put64 get16
empty_data_page-IsDataPage = record {
  full = omega (arith, length-replicate {A = ℕ} (page_payload_size - 22) 0);
  magic = refl;
  directory = refl;
  ordered = omega arith;
  inside = omega arith;
  tuples = λ i h. absurd (omega (arith, h));
}

pub empty_data_page-has_room : has_room empty_data_page 3 ≡ true
unfolding empty_data_page has_room put16 put64 get16
empty_data_page-has_room = refl

abbrev page : List ℕ
page = add_tuple empty_data_page (1 ∷ 2 ∷ 3 ∷ [])

page-IsDataPage : IsDataPage page
page-IsDataPage =
    add_tuple-IsDataPage empty_data_page (1 ∷ 2 ∷ 3 ∷ []) empty_data_page-IsDataPage
      empty_data_page-has_room

one_slot : slot_count page ≡ 1
unfolding add_tuple store_tuple splice empty_data_page put16 put64 get16 replicate
one_slot = refl

tuple_bytes-erase_slot_example :
    (tuple_bytes (erase_slot page 0) 0 ≡ none)
    × ((j : ℕ)
        → j ≢ 0
        → j < slot_count page
        → tuple_bytes (erase_slot page 0) j ≡ tuple_bytes page j)
tuple_bytes-erase_slot_example =
    tuple_bytes-erase_slot page 0 page-IsDataPage (rw one_slot (omega arith))
