-- ===== src/Transactions/Finish.antt =====
-- A finished change of a logged transaction: the record in the log comes before the PageLSN.
use resume_project.Common.{
  ℕ, ◌+◌, ◌%◌, ◌^◌, ◌<◌, ◌≡◌, refl, true, false, some, List, [], ◌∷◌, ◌++◌, arith, ok, IsU64,
  outcome, whole, length, get_or-set_self, same_bytes, ◌==◌,
}
use resume_project.Storage.Page.{PhysicalMutation}
use resume_project.Storage.Wal.{WalRecord}
use resume_project.Storage.Wal
use resume_project.Storage.Wal.RoundTrip.{IsEncodable}
use resume_project.Storage.Wal.Mutation.{
  IsImage, mutation_bytes, encode_physical_mutation-IsImage, length-mutation_bytes_le,
}
use resume_project.Storage.Log.{Log, append, append_physical_mutation}
use resume_project.Storage.Log.Append.{Holds, record_of, append-Holds, append-whole}
use resume_project.Buffer.Pool.Defs.{frame_at, empty_frame, with_lsn, is_wal_durable, set_frame}
use resume_project.Transactions.Capture.{
  Pending, Capture, find_pending, erase_pending, take_before, mutation_of,
}
use resume_project.Transactions.Context.{
  finish_page, capture, record_change, hand_over, settle, take_mutation,
}
use resume_project.Transactions.Transaction.{Journal, Transaction, finalize_mutation, log_mutation}

abbrev pub mutation_record : PhysicalMutation → Journal → WalRecord
mutation_record m j = record_of Wal.physical_mutation j.transaction.id (mutation_bytes m) j.log

-- The transaction with one more mutation, which has its LSN.
abbrev pub with_mutation : PhysicalMutation → Transaction → Transaction
with_mutation m t = record t {
  pending_mutations = t.pending_mutations ++ m ∷ [];
  undo_resolved = t.undo_resolved ++ false ∷ [];
  finalized_mutations = t.finalized_mutations + 1;
}

set_lsn : (n : ℕ) → 0 < n → (n == 0) ≡ false
set_lsn n positive = ground arith

mutation_record-IsEncodable :
    (m : PhysicalMutation) (j : Journal) (rs : List WalRecord)
    → IsImage m
    → Holds j.log rs
    → IsU64 j.transaction.id
    → IsEncodable (mutation_record m j)
mutation_record-IsEncodable m j rs image h fits = record {
  lsn_fits = h.next_fits;
  lsn_set = h.next_set;
  transaction_fits = fits;
  payload_fits = length-mutation_bytes_le m image;
}

finalize_mutation-logged :
    (m : PhysicalMutation) (j : Journal) (rs : List WalRecord)
    → IsImage m
    → Holds j.log rs
    → IsU64 (j.log.next_lsn + 1)
    → IsU64 j.transaction.id
    → outcome j.log.stream ≡ whole
    → j.transaction.logged ≡ true
    → (log : Log) × Holds log (rs ++ mutation_record m j ∷ [])
      × (log.durable_lsn ≡ j.log.durable_lsn)
      × (finalize_mutation m j ≡ (
        ok (some j.log.next_lsn),
        record { log = log; transaction = with_mutation m j.transaction },
      ))
unfolding finalize_mutation log_mutation append_physical_mutation
finalize_mutation-logged m j rs image h room fits first logged =
    let e = mutation_record-IsEncodable m j rs image h fits in
    let type = Wal.physical_mutation in
    let bytes = mutation_bytes m in
    let whole_append = append-whole type j.transaction.id bytes j.log e first in
    (
      (append type j.transaction.id bytes j.log).1,
      (append-Holds type j.transaction.id bytes j.log e rs h room first).1,
      rw whole_append refl,
      rw
          (
            logged,
            append_physical_mutation,
            encode_physical_mutation-IsImage m image,
            whole_append,
            set_lsn j.log.next_lsn h.next_set,
          )
          refl,
    )

-- The mutation of a watched page, as it is in frame `f`.
abbrev pub change_at : {D : Type 0} → Capture D Journal → ℕ → Pending → PhysicalMutation
change_at c f p = mutation_of (frame_at c.buffer.frames f).page.payload c.context.next_sequence p

-- What a finished change leaves: the log has its record, the page the record's LSN, and the page
-- may not be written before a flush of the log.
pub record IsLogged {D : Type 0} (c c' : Capture D Journal) (f : ℕ) (m : PhysicalMutation)
    (rs : List WalRecord) : Type 0 where
  pub records : Holds c'.owner.log (rs ++ mutation_record m c.owner ∷ [])
  pub page_lsn : (frame_at c'.buffer.frames f).page.lsn ≡ c.owner.log.next_lsn
  pub same_payload :
      (frame_at c'.buffer.frames f).page.payload ≡ (frame_at c.buffer.frames f).page.payload
  pub blocked :
      is_wal_durable (some c'.owner.log.durable_lsn) (frame_at c'.buffer.frames f).page.lsn ≡ false
  pub in_transaction : c'.owner.transaction ≡ with_mutation m c.owner.transaction

-- On a log that holds the records `rs`, with an LSN left and a write that reaches the file,
-- finishing a watched page whose payload changed, in a logged transaction, returns and leaves a
-- log that holds `rs` and the record of the mutation, the page with that record's LSN and its new
-- payload, the mutation in the transaction, and a page that may not be written before a flush of
-- the log.
pub finish_page-IsLogged :
    {D : Type 0} (c : Capture D Journal) (rs : List WalRecord) (id f : ℕ) (p : Pending)
    → f < length c.buffer.frames
    → (frame_at c.buffer.frames f).page.id ≡ id
    → find_pending id c.context.pending ≡ some p
    → same_bytes (frame_at c.buffer.frames f).page.payload p.before ≡ false
    → IsImage (change_at c f p)
    → Holds c.owner.log rs
    → IsU64 (c.owner.log.next_lsn + 1)
    → IsU64 c.owner.transaction.id
    → outcome c.owner.log.stream ≡ whole
    → c.owner.transaction.logged ≡ true
    → (c' : Capture D Journal) × (finish_page (some finalize_mutation) id f c ≡ (ok tt, c'))
      × IsLogged c c' f (change_at c f p) rs
unfolding finish_page capture record_change hand_over settle take_mutation is_wal_durable
finish_page-IsLogged c rs id f p inside here found changed image h room fits first logged =
    let (log, holds, durable, logs) =
      finalize_mutation-logged (change_at c f p) c.owner rs image h room fits first logged in
    let named : ((frame_at c.buffer.frames f).page.id == id) ≡ true = ground (arith, here) in
    let at_f =
      get_or-set_self c.buffer.frames f (with_lsn (frame_at c.buffer.frames f) c.owner.log.next_lsn)
        empty_frame inside in
    (
      record {
        buffer = set_frame f (with_lsn (frame_at c.buffer.frames f) c.owner.log.next_lsn) c.buffer;
        context = record c.context {
          pending = erase_pending id (take_before p.id c.context.pending);
          next_sequence = (c.context.next_sequence + 1) % 2 ^ 64;
        };
        owner = record {
          log = log;
          transaction = with_mutation (change_at c f p) c.owner.transaction;
        };
      },
      rw (named, found, changed, logs, set_lsn c.owner.log.next_lsn h.next_set) refl,
      record {
        records = holds;
        page_lsn = rw at_f refl;
        same_payload = rw at_f refl;
        blocked = rw (at_f, durable) (ground (arith, h.durable_below, h.next_set));
        in_transaction = refl;
      },
    )
