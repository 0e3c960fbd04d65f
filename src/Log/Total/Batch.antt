-- ===== src/Log/Total/Batch.antt =====
-- A batch that passes the checks is appended, if no call fails and the numbers last.
use lutra.Prelude.{
  ℕ, ◌+◌, ◌^◌, ◌<◌, ◌≤◌, true, List, ◌≡◌, refl, ap, ◌∙◌, arith, length, Option-cases, inl, inr,
  if_ind,
}
use lutra.Prelude.Bytes.{Bytes, is_empty}
use lutra.Prelude.Results.{Result, guard, Succeeds, bind-Succeeds}
use lutra.Log.Types.{
  Service, Entry, Tables, Outside, lock_stream, create_stream, relock_stream, update_next_seq,
  insert_append, notify, invalid,
}
use lutra.Log.Tables.{seqs, lock_log_stream}
use lutra.Log.Append.{
  open_stream, last_seq_of, in_sequence, record_append, close_batch, write_batch,
}
use lutra.Log.Sequence.Rows.{countdown}
use lutra.Log.Sequence.Streams.{create-lock}
use lutra.Log.Total.Insert.{Quiet, attempt-Succeeds, insert_entries-Succeeds}

pub open_stream-Succeeds :
    (x : Outside) (run : ℕ) (stream : Bytes) (db : Tables)
    → Quiet x
    → Succeeds (open_stream x run stream db)
unfolding open_stream
open_stream-Succeeds x run stream db quiet =
    attempt-Succeeds x lock_stream _ quiet
      (elim (Option-cases (lock_log_stream run stream db.streams)) [
        | inl absent ↦ rw absent (
            attempt-Succeeds x create_stream _ quiet (
              attempt-Succeeds x relock_stream _ quiet
                (rw (create-lock run stream db.streams absent) (_, refl))))
        | inr (row, found) ↦ rw found ((row, db), refl)
      ])

in_sequence-fits :
    (n : ℕ) (entries : List Entry)
    → n + length entries + 1 < 2 ^ 63
    → 1 ≤ length entries
    → in_sequence (n + 1) entries ≡ true
unfolding last_seq_of
in_sequence-fits n entries bound many = ground arith

record_append-Succeeds :
    (x : Outside) (run : ℕ) (stream append_id : Bytes) (entries : List Entry) (first : ℕ)
    (db : Tables)
    → Quiet x
    → Succeeds (record_append x run stream append_id entries first db)
unfolding record_append
record_append-Succeeds x run stream append_id entries first db quiet =
    if_ind (λ (r : Result Tables). Succeeds r) (is_empty append_id) (λ _. (_, refl))
      (λ _. attempt-Succeeds x insert_append _ quiet (_, refl))

close_batch-Succeeds :
    (x : Outside) (run : ℕ) (stream append_id : Bytes) (entries : List Entry) (first : ℕ)
    (db : Tables)
    → Quiet x
    → Succeeds (close_batch x run stream append_id entries first db)
unfolding close_batch
close_batch-Succeeds x run stream append_id entries first db quiet =
    attempt-Succeeds x update_next_seq _ quiet (
      bind-Succeeds _ _ (record_append-Succeeds x run stream append_id entries first _ quiet)
        (λ db' e. attempt-Succeeds x notify _ quiet (_, refl)))

pub write_batch-Succeeds :
    (x : Outside) (s : Service) (run : ℕ) (stream append_id : Bytes) (entries : List Entry) (n : ℕ)
    (db : Tables)
    → Quiet x
    → n + length entries + 1 < 2 ^ 63
    → 1 ≤ length entries
    → seqs run stream db.records ≡ countdown n
    → Succeeds (write_batch x s run stream append_id entries (n + 1) db)
unfolding write_batch
write_batch-Succeeds x s run stream append_id entries n db quiet bound many numbered =
    bind-Succeeds _ _ (passes (in_sequence-fits n entries bound many)) (λ _ e.
      bind-Succeeds _ _
        (insert_entries-Succeeds x s run stream n 0 entries db quiet (omega arith)
          (numbered ∙ at_zero))
        (λ mid h. close_batch-Succeeds x run stream append_id entries (n + 1) mid quiet))
  where
    passes :
        in_sequence (n + 1) entries ≡ true
        → Succeeds (guard (in_sequence (n + 1) entries) (invalid "sequence exhausted"))
    passes h = (tt, rw h)

    plus_zero : n ≡ n + 0
    plus_zero = omega arith

    at_zero : countdown n ≡ countdown (n + 0)
    at_zero = ap countdown plus_zero
