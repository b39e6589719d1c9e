-- ===== src/Recovery/Survivors.antt =====
-- What the undo of a page leaves in it: of each byte, the last value that a committed mutation gave it.
use resume_project.Common.{
  ℕ, zero, suc, ◌≡◌, ◌≢◌, refl, ap, ◌∙◌, Bool, false, ◌&&◌, not, Option, none, some, List, [], ◌∷◌,
  length, get_or, arith, ◌==◌, if◌then◌else◌, ok, All, Bool-cases, Option-cases, inl, inr, ◌<◌,
}
use resume_project.Recovery.Analysis.{
  RecoveryState, MutationRecord, TransactionAnalysis, transaction,
}
use resume_project.Recovery.Replay.{ReplayContext}
use resume_project.Recovery.Redo.{is_committed_status}
use resume_project.Recovery.Undo.{survivors, apply_delta}

-- The record is of a committed transaction.
abbrev is_of_committed : Option TransactionAnalysis → Bool
is_of_committed none = false
is_of_committed (some t) = is_committed_status t.status

abbrev pub is_kept : RecoveryState → MutationRecord → Bool
is_kept state m = is_of_committed (transaction state.transactions m.transaction_id)

-- The record is kept, and it changed byte `i`.
abbrev pub writes : RecoveryState → ℕ → MutationRecord → Bool
writes state i m =
    is_kept state m && not (get_or m.mutation.before_image i 0 == get_or m.mutation.after_image i 0)

-- The value of the last such record of a history, if there is one.
pub last_written : RecoveryState → ℕ → List MutationRecord → Option ℕ
last_written state i [] = none
last_written state i (m ∷ ms) = elim (last_written state i ms) [
  | some v ↦ some v
  | none ↦ if writes state i m then some (get_or m.mutation.after_image i 0) else none
]

-- The LSN of the last kept record, or `lsn`.
pub last_kept : RecoveryState → ℕ → List MutationRecord → ℕ
last_kept state lsn [] = lsn
last_kept state lsn (m ∷ ms) = last_kept state (if is_kept state m then m.lsn else lsn) ms

abbrev pub value_or : Option ℕ → ℕ → ℕ
value_or none d = d
value_or (some v) d = v

-- A record of a known transaction, with two whole images.
pub record IsWhole (state : RecoveryState) (size : ℕ) (m : MutationRecord) : Type 0 where
  pub known : transaction state.transactions m.transaction_id ≢ none
  pub before_full : length m.mutation.before_image ≡ size
  pub after_full : length m.mutation.after_image ≡ size

get_or-apply_delta :
    (bs more image : List ℕ) (i : ℕ)
    → length bs ≡ length image
    → length more ≡ length image
    → i < length image
    → get_or (apply_delta bs more image) i 0
      ≡ (if get_or bs i 0 == get_or more i 0 then get_or image i 0 else get_or more i 0)
unfolding apply_delta
get_or-apply_delta bs more [] i hb ha h = absurd (omega arith)
get_or-apply_delta [] more (x ∷ image) i hb ha h = absurd (omega (arith, hb))
get_or-apply_delta (b ∷ bs) [] (x ∷ image) i hb ha h = absurd (omega (arith, ha))
get_or-apply_delta (b ∷ bs) (a ∷ more) (x ∷ image) zero hb ha h = refl
get_or-apply_delta (b ∷ bs) (a ∷ more) (x ∷ image) (suc i) hb ha h =
    get_or-apply_delta bs more image i (omega (arith, hb)) (omega (arith, ha)) (omega arith)

length-apply_delta : (bs more image : List ℕ) → length (apply_delta bs more image) ≡ length image
unfolding apply_delta
length-apply_delta [] more image = refl
length-apply_delta (b ∷ bs) [] image = refl
length-apply_delta (b ∷ bs) (a ∷ more) [] = refl
length-apply_delta (b ∷ bs) (a ∷ more) (x ∷ image) = ap suc (length-apply_delta bs more image)

-- The image after one record.
abbrev step : RecoveryState → MutationRecord → List ℕ → List ℕ
step state m image =
    if is_kept state m
    then apply_delta m.mutation.before_image m.mutation.after_image image
    else image

step-byte :
    (state : RecoveryState) (m : MutationRecord) (image : List ℕ) (i : ℕ)
    → IsWhole state (length image) m
    → i < length image
    → (get_or (step state m image) i 0
        ≡ (if writes state i m then get_or m.mutation.after_image i 0 else get_or image i 0))
      × (length (step state m image) ≡ length image)
step-byte state m image i w h = ground (
  arith,
  w.before_full,
  w.after_full,
  get_or-apply_delta m.mutation.before_image m.mutation.after_image image i w.before_full
      w.after_full h,
  length-apply_delta m.mutation.before_image m.mutation.after_image image,
)

step-size :
    (state : RecoveryState) (m : MutationRecord) (image : List ℕ)
    → length (step state m image) ≡ length image
step-size state m image =
    ground (arith, length-apply_delta m.mutation.before_image m.mutation.after_image image)

survivors-step :
    (state : RecoveryState) (m : MutationRecord) (ms : List MutationRecord) (image : List ℕ)
    (lsn : ℕ) (s : ReplayContext)
    → transaction state.transactions m.transaction_id ≢ none
    → survivors state (m ∷ ms) (image, lsn) s
      ≡ survivors state ms (step state m image, if is_kept state m then m.lsn else lsn) s
unfolding survivors
survivors-step state m ms image lsn s known =
    elim (Option-cases (transaction state.transactions m.transaction_id)) [
      | inl absent ↦ absurd (known absent)
      | inr (t, present) ↦ elim (Bool-cases (is_committed_status t.status)) [
        | inl kept ↦ rw (present, survivors, kept) refl
        | inr lost ↦ rw (present, survivors, lost) refl
      ]
    ]

-- On a history of records of known transactions with whole images, the undo of a page returns an
-- image in which every byte has the value that the last committed mutation gave it, or the one it
-- had in the first image when no committed mutation changed it, and the LSN of the last committed
-- mutation, or the one given.
pub survivors-last_written :
    (state : RecoveryState) (ms : List MutationRecord) (image : List ℕ) (lsn : ℕ)
    (s : ReplayContext)
    → All (IsWhole state (length image)) ms
    → (built : List ℕ) × (survivors state ms (image, lsn) s
        ≡ (ok (built, last_kept state lsn ms), s))
      × (length built ≡ length image)
      × ((i : ℕ)
          → i < length image
          → get_or built i 0 ≡ value_or (last_written state i ms) (get_or image i 0))
unfolding survivors last_kept last_written
survivors-last_written state [] image lsn s h = (image, refl, refl, λ i below. refl)
survivors-last_written state (m ∷ ms) image lsn s h =
    let size = step-size state m image in
    let (built, steps, same, bytes) =
      survivors-last_written state ms (step state m image) (if is_kept state m then m.lsn else lsn)
        s (rw size h.1) in
    (
      built,
      survivors-step state m ms image lsn s h.0.known ∙ steps,
      same ∙ size,
      λ i below. ground (arith, bytes i (rw size below), step-byte state m image i h.0 below),
    )
