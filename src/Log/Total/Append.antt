-- ===== src/Log/Total/Append.antt =====
-- `AppendTx` appends every batch that passes its checks under a new identifier.
use lutra.Prelude.{
  ℕ, ◌+◌, ◌^◌, ◌<◌, ◌≤◌, Bool, true, List, none, if◌then◌else◌, ◌≡◌, refl, sym, ap, subst, ◌∙◌,
  arith, length, inl, inr, ◌⊎◌, if_ind,
}
use lutra.Prelude.Bytes.{Bytes, is_empty}
use lutra.Prelude.Results.{Result, ok, ◌>>=◌, ◌>>◌}
use lutra.Log.Types.{Service, Entry, StreamRow, AppendRow, Tables, Outside, get_append}
use lutra.Log.Tables.{seqs, get_log_append}
use lutra.Log.Check.{check_batch}
use lutra.Log.Append.{Range, write_batch, append_locked, append_tx}
use lutra.Log.Sequence.Rows.{countdown, block, at_self}
use lutra.Log.Sequence.Batch.{
  NumberedAt, open_stream-Opened, write_batch-Written, last_seq_of-exact,
}
use lutra.Log.Sequence.Numbered.{locked_next, from_start}
use lutra.Log.Total.Insert.{Quiet, attempt-Quiet}
use lutra.Log.Total.Batch.{open_stream-Succeeds, write_batch-Succeeds}

-- The identifier has no batch yet.
abbrev pub Unused : ℕ → Bytes → Bytes → Tables → Type 0
Unused run stream append_id db =
    (is_empty append_id ≡ true) ⊎ (get_log_append run stream append_id db.appends ≡ none)

check_batch-many :
    (x : Outside) (s : Service) (stream append_id : Bytes) (entries : List Entry)
    → check_batch x s stream append_id entries ≡ ok tt
    → 1 ≤ length entries
unfolding check_batch
check_batch-many x s stream append_id entries h = ground arith

append_locked-fresh :
    (x : Outside) (s : Service) (run : ℕ) (stream append_id : Bytes) (entries : List Entry)
    (row : StreamRow) (db : Tables)
    → Quiet x
    → Unused run stream append_id db
    → append_locked x s run stream append_id entries (row, db)
      ≡ write_batch x s run stream append_id entries row.next_seq db
unfolding append_locked
append_locked-fresh x s run stream append_id entries row db quiet (inl unnamed) = rw unnamed refl
append_locked-fresh x s run stream append_id entries row db quiet (inr absent) =
    if_ind
      (λ (r : Result (Tables × Range)).
        r ≡ write_batch x s run stream append_id entries row.next_seq db)
      (is_empty append_id) (λ _. refl)
      (λ _. rw (attempt-Quiet x get_append quiet, absent, ◌>>=◌, ◌>>◌) refl)

-- A batch that passes the checks, on a stream whose records are numbered 1, ..., n, with an unused
-- identifier or none, is appended as n + 1, ..., if no call fails and the numbers stay below
-- 2 ^ 63 - 1.
pub append_tx-Succeeds :
    (x : Outside) (s : Service) (run : ℕ) (stream append_id : Bytes) (entries : List Entry)
    (db : Tables) (numbered : NumberedAt run stream db)
    → Quiet x
    → check_batch x s stream append_id entries ≡ ok tt
    → numbered.0 + length entries + 1 < 2 ^ 63
    → Unused run stream append_id db
    → (db' : Tables) × (range : Range) × (append_tx x s run stream append_id entries db
        ≡ ok (db', range))
      × (range.first_seq ≡ numbered.0 + 1)
      × (range.last_seq ≡ numbered.0 + length entries)
      × (seqs run stream db'.records ≡ countdown (numbered.0 + length entries))
unfolding append_tx
append_tx-Succeeds x s run stream append_id entries db (n, small, next, seqs_n) quiet checked bound
      unused =
    let ((row, mid), opened) = open_stream-Succeeds x run stream db quiet in
    let (appends_same, records_same, found, next_same) =
      open_stream-Opened x run stream db opened in
    let start = sym (locked_next run stream row mid found) ∙ next_same run stream ∙ next in
    let numbered = ap (seqs run stream) records_same ∙ seqs_n in
    let many = check_batch-many x s stream append_id entries checked in
    let ((db', range), written) =
      write_batch-Succeeds x s run stream append_id entries n mid quiet bound many numbered in
    let fresh = append_locked-fresh x s run stream append_id entries row mid quiet (
      subst
        (λ (l : List AppendRow).
          (is_empty append_id ≡ true) ⊎ (get_log_append run stream append_id l ≡ none))
        (sym appends_same) unused) in
    let moved = ap (λ (k : ℕ). write_batch x s run stream append_id entries k mid) start in
    let (first, last, good, _, grown) =
      write_batch-Written x s run stream append_id entries (n + 1) mid written in
    let (exact, _, _) = last_seq_of-exact n entries small (omega arith) good in
    (
      db',
      range,
      rw (checked, opened, fresh, moved, written) refl,
      first,
      last ∙ exact,
      grown run stream
          ∙ ap
              (λ (b : Bool).
                if b
                then block (n + 1) 0 (length entries) (seqs run stream mid.records)
                else seqs run stream mid.records)
              (at_self run stream)
          ∙ ap (block (n + 1) 0 (length entries)) numbered
          ∙ from_start n (length entries) bound,
    )
