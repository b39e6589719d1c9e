-- ===== src/Index/Tree/EntryExamples.antt =====
-- An entry put into a leaf of the stored tree, and one taken out of it.
use resume_project.Common.{ℕ, ◌≡◌, refl, some, none, arith, ◌==◌, if◌then◌else◌}
use resume_project.Index.Key.{rank, lower_bound}
use resume_project.Index.Key.Bounds.{IsAscending}
use resume_project.Index.Node.{RecordId}
use resume_project.Index.Shape.{pairs, assoc}
use resume_project.Index.Tree.Search.{position}
use resume_project.Index.Tree.Insert.{with_entry}
use resume_project.Index.Tree.Remove.{without_entry}
use resume_project.Index.Tree.Entries.{with_entry_lem}
use resume_project.Index.Tree.Removed.{without_entry_lem}
use resume_project.Index.Tree.LookupExamples.{high}

abbrev record_id : RecordId
record_id = record { page_id = 9; slot_id = 1 }

ascending : IsAscending high.keys
unfolding rank
ascending = ((omega arith, tt), (tt, tt))

with_entry_lem_example :
    IsAscending (with_entry high 60 record_id).keys
    × ((q : ℕ)
        → assoc q (pairs (with_entry high 60 record_id).keys (with_entry high 60 record_id).values)
          ≡ (if 60 == q then some record_id else assoc q (pairs high.keys high.values)))
with_entry_lem_example =
    with_entry_lem high 60 record_id refl (omega arith) (omega arith, (omega arith, tt)) ascending
      (omega arith, (omega arith, tt))

second : position high.keys 70 ≡ some 1
unfolding position lower_bound rank
second = refl

without_entry_lem_example :
    IsAscending (without_entry high 1).keys
    × ((q : ℕ)
        → assoc q (pairs (without_entry high 1).keys (without_entry high 1).values)
          ≡ (if 70 == q then none else assoc q (pairs high.keys high.values)))
without_entry_lem_example = without_entry_lem high 70 1 refl ascending second
