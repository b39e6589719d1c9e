-- ===== src/Buffer/Pool/Examples.antt =====
-- A pool of two frames over a disk that only remembers what was written.
use resume_project.Common.{ℕ, ◌≡◌, ◌↔◌, refl, true, some, List, [], ◌∷◌, All, arith, ok, Result}
use resume_project.Storage.Page.{Page, empty_page}
use resume_project.Storage.Errors.{StorageError}
use resume_project.Buffer.Pool.Disk.{Disk}
use resume_project.Buffer.Pool.Defs.{
  Pool, create, is_wal_durable, unpin_page, mark_mutation_pending, finalize_pending_mutation,
}
use resume_project.Buffer.Pool.Io.{fetch_page, flush_page}
use resume_project.Buffer.Pool.Invariant.{IsValid}
use resume_project.Buffer.Pool.Create.{create-IsValid}
use resume_project.Buffer.Pool.Fetch.{fetch_page-IsValid}
use resume_project.Buffer.Pool.Methods.{
  unpin_page-IsValid, mark_mutation_pending-IsValid, finalize_pending_mutation-IsValid,
}
use resume_project.Buffer.Pool.Reachable.{
  IsReachable, made, after, fetches, marks, finalizes, unpins, flushes, IsReachable-IsValid,
}
use resume_project.Buffer.Pool.Check.{validate_invariants, validate_invariants-IsValid}
use resume_project.Buffer.Pool.Fetched.{IsPinned, fetch_page-IsPinned}
use resume_project.Buffer.Table.{lookup}
use resume_project.Buffer.Pool.Io.{acquire_frame, load_acquired, load_page, place}
use resume_project.Buffer.Pool.Defs.{free_from, empty_frames}
use resume_project.Buffer.Pool.Durability.{IsKept, Keeps, fetch_page-Keeps}

history_id :
    (d : List ℕ) (id : ℕ) (p : Page)
    → ◌≡◌ {A = Result StorageError Page} (ok (record empty_page { id = id; lsn = 3 })) (ok p)
    → p.id ≡ id
history_id d id p e = ground arith

-- The disk: the LSNs of the pages written, the last one first. Every page reads as written with LSN 3.
abbrev history : Disk (List ℕ)
history = record {
  is_allocated = λ d id. true;
  read = λ id d. (ok (record empty_page { id = id; lsn = 3 }), d);
  write = λ id page d. (ok tt, page.lsn ∷ d);
  sync = λ d. (ok tt, d);
  read_id = history_id;
}

abbrev Pools : Type 0
Pools = Pool (List ℕ)

-- Page 5 is fetched, changed, logged at LSN 4, and unpinned.
abbrev fetched : Pools
fetched = (fetch_page history 5 (create [] 2 (some 4))).1

abbrev marked : Pools
marked = (mark_mutation_pending 5 fetched).1

abbrev finalized : Pools
finalized = (finalize_pending_mutation 5 4 marked).1

abbrev unpinned : Pools
unpinned = (unpin_page 5 true finalized).1

fetched-IsValid : IsValid fetched
fetched-IsValid = fetch_page-IsValid history 5 (create [] 2 (some 4)) (create-IsValid [] 2 (some 4))

marked-IsValid : IsValid marked
marked-IsValid = mark_mutation_pending-IsValid 5 fetched fetched-IsValid

finalized-IsValid : IsValid finalized
finalized-IsValid = finalize_pending_mutation-IsValid 5 4 marked marked-IsValid

unpinned-IsValid : IsValid unpinned
unpinned-IsValid = unpin_page-IsValid 5 true finalized finalized-IsValid

fetch_page-IsValid_example : IsValid fetched
fetch_page-IsValid_example =
    fetch_page-IsValid history 5 (create [] 2 (some 4)) (create-IsValid [] 2 (some 4))

validate_invariants-IsValid_example : (validate_invariants unpinned ≡ true) ↔ IsValid unpinned
validate_invariants-IsValid_example =
    validate_invariants-IsValid unpinned unpinned-IsValid.is_map unpinned-IsValid.free_distinct

loaded : (fetch_page history 5 (create [] 2 (some 4))).0 ≡ ok (some 0)
unfolding fetch_page create acquire_frame load_acquired load_page place lookup free_from
    empty_frames
loaded = refl

fetch_page-IsPinned_example : IsPinned 5 0 (fetch_page history 5 (create [] 2 (some 4))).1
fetch_page-IsPinned_example =
    fetch_page-IsPinned history 5 0 (create [] 2 (some 4)) (create-IsValid [] 2 (some 4)) loaded

-- Every LSN written is durable.
abbrev AllDurable : List ℕ → Type 0
AllDurable = All (λ lsn. is_wal_durable (some 4) lsn ≡ true)

history-IsKept : IsKept history (some 4) AllDurable
history-IsKept = record {
  read_keeps = λ id d p. p;
  sync_keeps = λ d p. p;
  write_keeps = λ page d w p. (w, p);
}

-- One frame, with the changed page 5 in it.
abbrev full : Pools
full = record {
  disk = [];
  frames =
      record {
        page = record empty_page { id = 5; lsn = 4 };
        pin_count = 0;
        dirty = true;
        occupied = true;
        pending_mutations = 0;
      }
      ∷ [];
  page_table = (5, 0) ∷ [];
  free_frames = [];
  lru = 0 ∷ [];
  stats = record { fetches = 0; cache_hits = 0; disk_reads = 0; disk_writes = 0 };
  durable = some 4;
}

fetch_page-Keeps_example :
    Keeps history (some 4) AllDurable history-IsKept (fetch_page history 6 full).1
fetch_page-Keeps_example =
    fetch_page-Keeps history (some 4) AllDurable history-IsKept 6 full (refl, tt)

-- The same calls as steps.
after_fetch : IsReachable history 2 fetched
after_fetch = after (made [] (some 4)) (fetches 5 (create [] 2 (some 4)))

after_unpin : IsReachable history 2 unpinned
after_unpin =
    after (after (after after_fetch (marks 5 fetched)) (finalizes 5 4 marked))
      (unpins 5 true finalized)

IsReachable-IsValid_example : IsValid (flush_page history 5 unpinned).1
IsReachable-IsValid_example =
    IsReachable-IsValid history 2 (flush_page history 5 unpinned).1
      (after after_unpin (flushes 5 unpinned))
