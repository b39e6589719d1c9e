-- ===== src/Buffer/Pool/Create.antt =====
-- The pool that the constructor makes.
use resume_project.Common.{ℕ, zero, suc, ◌+◌, ◌≡◌, refl, ap, ◌&&◌, Option, length, ltb, leb, arith}
use resume_project.Buffer.Table.{lookup, mem, IsDistinct}
use resume_project.Buffer.Pool.Defs.{
  create, empty_frame, empty_frame-free, empty_frames, free_from, frame_at,
}
use resume_project.Buffer.Pool.Invariant.{IsValid}

length-empty_frames : (n : ℕ) → length (empty_frames n) ≡ n
unfolding empty_frames
length-empty_frames zero = refl
length-empty_frames (suc n) = ap suc (length-empty_frames n)

empty_frames-at : (n f : ℕ) → frame_at (empty_frames n) f ≡ empty_frame
unfolding empty_frames
empty_frames-at zero f = refl
empty_frames-at (suc n) zero = refl
empty_frames-at (suc n) (suc f) = empty_frames-at n f

length-free_from : (n i : ℕ) → length (free_from n i) ≡ n
unfolding free_from
length-free_from zero i = refl
length-free_from (suc n) i = ap suc (length-free_from n (i + 1))

mem-free_from : (n i g : ℕ) → mem g (free_from n i) ≡ (leb i g && ltb g (i + n))
unfolding free_from mem
mem-free_from zero i g = ground arith
mem-free_from (suc n) i g = ground (arith, mem-free_from n (i + 1) g)

IsDistinct-free_from : (n i : ℕ) → IsDistinct (free_from n i)
unfolding free_from
IsDistinct-free_from zero i = tt
IsDistinct-free_from (suc n) i =
    (ground (arith, mem-free_from n (i + 1) i), IsDistinct-free_from n (i + 1))

-- A new pool of any capacity is valid.
pub create-IsValid :
    {D : Type 0} (disk : D) (capacity : ℕ) (durable : Option ℕ)
    → IsValid (create disk capacity durable)
unfolding create lookup mem
create-IsValid disk capacity durable = record {
  resident = λ p f e. cc;
  owned = λ f e. ground (arith, empty_frames-at capacity f, empty_frame-free);
  free = λ f. ground (
    arith,
    mem-free_from capacity 0 f,
    length-empty_frames capacity,
    empty_frames-at capacity f,
    empty_frame-free,
  );
  evictable = λ f. ground (arith, empty_frames-at capacity f, empty_frame-free);
  is_map = tt;
  free_distinct = IsDistinct-free_from capacity 0;
  lru_distinct = tt;
  sizes = omega (arith, length-empty_frames capacity, length-free_from capacity 0);
}
