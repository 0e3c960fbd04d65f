-- ===== src/Log/Sequence/Numbered.antt =====
-- `AppendTx` keeps the numbering of every stream's records.
use lutra.Prelude.{
  ℕ, ◌+◌, ◌^◌, ◌<◌, true, List, none, some, ◌≡◌, sym, ap, subst, ◌∙◌, arith, length, Bool-cases,
  Option-cases, inl, inr, ◌⊎◌,
}
use lutra.Prelude.Bytes.{Bytes, is_empty, equal-eq}
use lutra.Prelude.Results.{ok, ◌>>=◌, bind-ok}
use lutra.Log.Types.{Service, Entry, StreamRow, AppendRow, Tables, Outside}
use lutra.Log.Tables.{at, seqs, lock_log_stream, get_log_append}
use lutra.Log.Check.{check_batch, batch_digest}
use lutra.Log.Append.{
  Range, open_stream, in_sequence, write_batch, repeat_batch, append_locked, append_tx,
}
use lutra.Log.Sequence.Rows.{countdown, block, block-countdown, at_self, at-eq}
use lutra.Log.Sequence.Streams.{next_of}
use lutra.Log.Sequence.Batch.{
  NumberedAt, Numbered, Opened, open_stream-Opened, last_seq_of-exact, Written, write_batch-Written,
}

-- The answer of an earlier batch, which changes nothing.
abbrev pub Repeated : Outside → ℕ → Bytes → Bytes → List Entry → Tables → Range → Tables → Type 0
Repeated x run stream append_id entries db range db' =
    (made : AppendRow) × (get_log_append run stream append_id db.appends ≡ some made)
    × (made.digest ≡ batch_digest x entries)
    × (range.first_seq ≡ made.first_seq)
    × (range.last_seq ≡ made.last_seq)
    × (db' ≡ db)

repeat_batch-same :
    (x : Outside) (entries : List Entry) (made : AppendRow) (db : Tables) {db' : Tables}
    {range : Range}
    → repeat_batch x entries made db ≡ ok (db', range)
    → (made.digest ≡ batch_digest x entries)
      × (range.first_seq ≡ made.first_seq)
      × (range.last_seq ≡ made.last_seq)
      × (db' ≡ db)
unfolding repeat_batch
repeat_batch-same x entries made db h = (
  equal-eq made.digest (batch_digest x entries) (ground arith),
  ground arith,
  ground arith,
  ground arith,
)

pub append_locked-cases :
    (x : Outside) (s : Service) (run : ℕ) (stream append_id : Bytes) (entries : List Entry)
    (row : StreamRow) (db : Tables) {db' : Tables} {range : Range}
    → append_locked x s run stream append_id entries (row, db) ≡ ok (db', range)
    → Repeated x run stream append_id entries db range db'
      ⊎ (((is_empty append_id ≡ true) ⊎ (get_log_append run stream append_id db.appends ≡ none))
          × (write_batch x s run stream append_id entries row.next_seq db ≡ ok (db', range)))
unfolding append_locked
append_locked-cases x s run stream append_id entries row db h =
    elim (Option-cases (get_log_append run stream append_id db.appends)) [
      | inl absent ↦ inr (inr absent, ground arith)
      | inr (made, found) ↦ elim (Bool-cases (is_empty append_id)) [
        | inl unnamed ↦ inr (inl unnamed, ground arith)
        | inr named ↦
            let (a, b, c, d) = repeat_batch-same x entries made db (ground arith) in
            inl (made, found, a, b, c, d)
      ]
    ]

pub locked_next :
    (run : ℕ) (stream : Bytes) (row : StreamRow) (db : Tables)
    → lock_log_stream run stream db.streams ≡ some row
    → next_of run stream db.streams ≡ row.next_seq
unfolding next_of
locked_next run stream row db h = ground arith

pub from_start :
    (n k : ℕ) → n + k + 1 < 2 ^ 63 → block (n + 1) 0 k (countdown n) ≡ countdown (n + k)
from_start n k h =
    subst (λ (m : ℕ). block (n + 1) 0 k (countdown m) ≡ countdown (m + k)) (at_zero n)
      (block-countdown n 0 k (omega arith))
  where
    at_zero : (n : ℕ) → n + 0 ≡ n
    at_zero n = omega arith

-- The stream that is written to.
Written-NumberedAt :
    (run : ℕ) (stream : Bytes) (entries : List Entry) (row : StreamRow) (db : Tables)
    (range : Range) (db' : Tables)
    → length entries < 2 ^ 63
    → lock_log_stream run stream db.streams ≡ some row
    → NumberedAt run stream db
    → Written run stream entries row.next_seq db range db'
    → NumberedAt run stream db'
Written-NumberedAt run stream entries row db range db' short found (n, bound, next, numbered)
      (_, _, good, w1, w2) =
    let start = sym (locked_next run stream row db found) ∙ next in
    let (exact, fits, many) =
      last_seq_of-exact n entries bound short
        (subst (λ (k : ℕ). in_sequence k entries ≡ true) start good) in
    (
      n + length entries,
      fits,
      ground (arith, w1 run stream, at_self run stream),
      w2 run stream
          ∙ ground (arith, at_self run stream)
          ∙ ap (block row.next_seq 0 (length entries)) numbered
          ∙ subst
              (λ (k : ℕ). block k 0 (length entries) (countdown n) ≡ countdown (n + length entries))
              (sym start) (from_start n (length entries) fits),
    )

-- Every stream.
Written-Numbered :
    (run : ℕ) (stream : Bytes) (entries : List Entry) (row : StreamRow) (db : Tables)
    (range : Range) (db' : Tables)
    → length entries < 2 ^ 63
    → lock_log_stream run stream db.streams ≡ some row
    → Numbered db
    → Written run stream entries row.next_seq db range db'
    → Numbered db'
Written-Numbered run stream entries row db range db' short found numbered w r t =
    elim (Bool-cases (at r t run stream)) [
      | inl same ↦
          let (er, et) = at-eq r t run stream same in
          subst (λ (k : ℕ). NumberedAt k t db') (sym er)
            (subst (λ (u : Bytes). NumberedAt run u db') (sym et)
              (Written-NumberedAt run stream entries row db range db' short found
                (numbered run stream) w))
      | inr other ↦
          let (n, bound, next, seqs_n) = numbered r t in
          let (_, _, _, w1, w2) = w in (n, bound, ground (arith, w1 r t), ground (arith, w2 r t))
    ]

Opened-Numbered :
    (run : ℕ) (stream : Bytes) (db : Tables) (row : StreamRow) (db' : Tables)
    → Opened run stream db row db'
    → Numbered db
    → Numbered db'
Opened-Numbered run stream db row db' (_, e2, _, e4) numbered r t =
    let (n, bound, next, seqs_n) = numbered r t in
    (n, bound, e4 r t ∙ next, ap (seqs r t) e2 ∙ seqs_n)

-- A successful call locks the stream, and then repeats an answer or writes the batch.
pub append_tx-parts :
    (x : Outside) (s : Service) (run : ℕ) (stream append_id : Bytes) (entries : List Entry)
    (db : Tables) {db' : Tables} {range : Range}
    → append_tx x s run stream append_id entries db ≡ ok (db', range)
    → (row : StreamRow) × (mid : Tables) × (open_stream x run stream db ≡ ok (row, mid))
      × (append_locked x s run stream append_id entries (row, mid) ≡ ok (db', range))
unfolding append_tx
append_tx-parts x s run stream append_id entries db h =
    let (_, checked, rest) =
      bind-ok (check_batch x s stream append_id entries)
        (λ _. open_stream x run stream db >>= append_locked x s run stream append_id entries) h in
    let ((row, mid), opened, locked) =
      bind-ok (open_stream x run stream db) (append_locked x s run stream append_id entries) rest in
    (row, mid, opened, locked)

-- `AppendTx` keeps the numbering of the records of every stream without a gap or a repetition from
-- 1 on, up to the next number of its row, which stays positive as an int64. The batch has fewer
-- than 2 ^ 63 entries, as every Go slice.
pub append_tx-Numbered :
    (x : Outside) (s : Service) (run : ℕ) (stream append_id : Bytes) (entries : List Entry)
    (db : Tables) {db' : Tables} {range : Range}
    → length entries < 2 ^ 63
    → Numbered db
    → append_tx x s run stream append_id entries db ≡ ok (db', range)
    → Numbered db'
append_tx-Numbered x s run stream append_id entries db {db'} {range} short numbered h =
    let (row, mid, made, locked) = append_tx-parts x s run stream append_id entries db h in
    let opened = open_stream-Opened x run stream db made in
    let before = Opened-Numbered run stream db row mid opened numbered in
    elim (append_locked-cases x s run stream append_id entries row mid locked) [
      | inl (_, _, _, _, _, e) ↦ subst Numbered (sym e) before
      | inr (_, written) ↦
          Written-Numbered run stream entries row mid range db' short opened.2 before
            (write_batch-Written x s run stream append_id entries row.next_seq mid written)
    ]
