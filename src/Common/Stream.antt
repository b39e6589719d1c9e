-- ===== src/Common/Stream.antt =====
-- What the operating system does with the writes of an fstream: a schedule of outcomes.
use Prim.Native.Nat.{ℕ}
use mathlib.Core.List.{List, [], ◌∷◌}

-- A write reaches the file whole, or stops after some bytes and leaves the stream failed.
pub data Outcome : Type 0 where
  whole : Outcome
  torn : ℕ → Outcome

-- The outcome of the next write. A schedule that has run out reports no more failures.
abbrev pub outcome : List Outcome → Outcome
outcome [] = whole
outcome (o ∷ s) = o

abbrev pub later : List Outcome → List Outcome
later [] = []
later (o ∷ s) = s
