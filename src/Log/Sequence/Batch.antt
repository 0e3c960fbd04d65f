-- ===== src/Log/Sequence/Batch.antt =====
-- The numbering of a stream's records, and that `AppendTx` keeps it.
use lutra.Prelude.{
  ℕ, ◌+◌, ◌^◌, ◌<◌, ◌≤◌, true, ◌&&◌, List, some, if◌then◌else◌, ◌≡◌, ap, ◌∙◌, arith, length,
  is_some,
}
use lutra.Prelude.Bytes.{Bytes}
use lutra.Prelude.Int64.{add64}
use lutra.Prelude.Results.{ok, ◌>>=◌, bind-ok, guard-ok}
use lutra.Log.Types.{Service, Entry, StreamRow, Tables, Outside, invalid}
use lutra.Log.Tables.{at, seqs, lock_log_stream, update_log_stream_next_seq}
use lutra.Log.Append.{
  insert_entries, Range, open_stream, last_seq_of, in_sequence, record_append, close_batch,
  write_batch,
}
use lutra.Log.Sequence.Rows.{countdown, block}
use lutra.Log.Sequence.Streams.{next_of, create-lock, create-next_of, update-next_of}
use lutra.Log.Sequence.Insert.{insert_entries-seqs}

-- The stream's records are numbered 1, 2, ... without a gap up to the number before the next one.
abbrev pub NumberedAt : ℕ → Bytes → Tables → Type 0
NumberedAt run stream db =
    (n : ℕ) × (n + 1 < 2 ^ 63)
    × (next_of run stream db.streams ≡ n + 1)
    × (seqs run stream db.records ≡ countdown n)

abbrev pub Numbered : Tables → Type 0
Numbered db = (run : ℕ) (stream : Bytes) → NumberedAt run stream db

-- What holds of the tables when the stream's row is locked.
abbrev pub Opened : ℕ → Bytes → Tables → StreamRow → Tables → Type 0
Opened run stream db row db' =
    (db'.appends ≡ db.appends)
    × (db'.records ≡ db.records)
    × (lock_log_stream run stream db'.streams ≡ some row)
    × ((r : ℕ) (s : Bytes) → next_of r s db'.streams ≡ next_of r s db.streams)

pub open_stream-Opened :
    (x : Outside) (run : ℕ) (stream : Bytes) (db : Tables) {row : StreamRow} {db' : Tables}
    → open_stream x run stream db ≡ ok (row, db')
    → Opened run stream db row db'
unfolding open_stream
open_stream-Opened x run stream db {row} {db'} h = (
  ground (arith),
  ground arith,
  ground (arith, create-lock run stream db.streams),
  λ r s. ground (arith, create-next_of r s run stream db.streams),
)

pub last_seq_of-exact :
    (n : ℕ) (entries : List Entry)
    → n + 1 < 2 ^ 63
    → length entries < 2 ^ 63
    → in_sequence (n + 1) entries ≡ true
    → (last_seq_of (n + 1) entries ≡ n + length entries)
      × (n + length entries + 1 < 2 ^ 63)
      × (1 ≤ length entries)
unfolding last_seq_of
last_seq_of-exact n entries bound short h = (ground arith, ground arith, ground arith)

-- What writing a batch does: `first` is the number that the stream's row has.
abbrev pub Written : ℕ → Bytes → List Entry → ℕ → Tables → Range → Tables → Type 0
Written run stream entries first db range db' =
    (range.first_seq ≡ first)
    × (range.last_seq ≡ last_seq_of first entries)
    × (in_sequence first entries ≡ true)
    × ((r : ℕ) (s : Bytes)
        → next_of r s db'.streams ≡ (
            if at r s run stream && is_some (lock_log_stream run stream db.streams)
            then add64 (last_seq_of first entries) 1
            else next_of r s db.streams))
    × ((r : ℕ) (s : Bytes)
        → seqs r s db'.records ≡ (
            if at r s run stream
            then block first 0 (length entries) (seqs r s db.records)
            else seqs r s db.records))

close_batch-same :
    (x : Outside) (run : ℕ) (stream append_id : Bytes) (entries : List Entry) (first : ℕ)
    (db : Tables) {db' : Tables} {range : Range}
    → close_batch x run stream append_id entries first db ≡ ok (db', range)
    → (range.first_seq ≡ first)
      × (range.last_seq ≡ last_seq_of first entries)
      × (db'.streams
          ≡ update_log_stream_next_seq run stream (add64 (last_seq_of first entries) 1) db.streams)
      × (db'.records ≡ db.records)
unfolding close_batch record_append
close_batch-same x run stream append_id entries first db h =
    (ground arith, ground arith, ground arith, ground arith)

pub write_batch-Written :
    (x : Outside) (s : Service) (run : ℕ) (stream append_id : Bytes) (entries : List Entry)
    (first : ℕ) (db : Tables) {db' : Tables} {range : Range}
    → write_batch x s run stream append_id entries first db ≡ ok (db', range)
    → Written run stream entries first db range db'
unfolding write_batch
write_batch-Written x s run stream append_id entries first db {db'} {range} h =
    let (sound, rest) =
      guard-ok (in_sequence first entries) (invalid "sequence exhausted")
        (insert_entries x s run stream first 0 entries db
          >>= close_batch x run stream append_id entries first)
        h in
    let (mid, inserted, closed) =
      bind-ok (insert_entries x s run stream first 0 entries db)
        (close_batch x run stream append_id entries first) rest in
    let (e1, e2, e3, e4) = close_batch-same x run stream append_id entries first mid closed in
    let (f1, f2, f3) = insert_entries-seqs x s run stream first 0 entries db inserted in
    (
      e1,
      e2,
      sound,
      λ r t.
          ap (next_of r t) (
            e3
            ∙ ap (update_log_stream_next_seq run stream (add64 (last_seq_of first entries) 1)) f1)
          ∙ update-next_of r t run stream (add64 (last_seq_of first entries) 1) db.streams,
      λ r t. ap (seqs r t) e4 ∙ f3 r t,
    )
