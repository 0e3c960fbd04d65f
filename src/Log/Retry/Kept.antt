-- ===== src/Log/Retry/Kept.antt =====
-- What a successful `AppendTx` keeps of the streams and of the appends.
use lutra.Prelude.{ℕ, true, List, [], ◌∷◌, if◌then◌else◌, ◌≡◌, refl, ap, arith, is_some}
use lutra.Prelude.Bytes.{Bytes, is_empty}
use lutra.Prelude.Int64.{add64}
use lutra.Prelude.Results.{ok, ◌>>=◌, bind-ok, guard-ok}
use lutra.Log.Types.{Service, Entry, StreamRow, Tables, Outside, invalid}
use lutra.Log.Tables.{lock_log_stream, create_log_stream, update_log_stream_next_seq}
use lutra.Log.Append.{
  Range, open_stream, last_seq_of, in_sequence, append_row, record_append, insert_entries,
  close_batch, write_batch,
}
use lutra.Log.Sequence.Streams.{create-lock}
use lutra.Log.Sequence.Insert.{insert_entries-seqs}

-- The stream has a row.
abbrev pub HasStream : ℕ → Bytes → Tables → Type 0
HasStream run stream db = is_some (lock_log_stream run stream db.streams) ≡ true

pub update-is_some :
    (r : ℕ) (t : Bytes) (run : ℕ) (stream : Bytes) (next : ℕ) (rows : List StreamRow)
    → is_some (lock_log_stream r t (update_log_stream_next_seq run stream next rows))
      ≡ is_some (lock_log_stream r t rows)
unfolding update_log_stream_next_seq lock_log_stream
update-is_some r t run stream next [] = refl
update-is_some r t run stream next (row ∷ rows) =
    ground (arith, update-is_some r t run stream next rows)

pub open_stream-HasStream :
    (x : Outside) (run : ℕ) (stream : Bytes) (db : Tables) {row : StreamRow} {db' : Tables}
    → open_stream x run stream db ≡ ok (row, db')
    → HasStream run stream db' × ((r : ℕ) (t : Bytes) → HasStream r t db → HasStream r t db')
unfolding open_stream create_log_stream lock_log_stream
open_stream-HasStream x run stream db h =
    (ground (arith, create-lock run stream db.streams), λ r t held. ground arith)

close_batch-appends :
    (x : Outside) (run : ℕ) (stream append_id : Bytes) (entries : List Entry) (first : ℕ)
    (db : Tables) {db' : Tables} {range : Range}
    → close_batch x run stream append_id entries first db ≡ ok (db', range)
    → (db'.appends ≡ (
        if is_empty append_id
        then db.appends
        else append_row x run stream append_id entries first ∷ db.appends))
      × ((r : ℕ) (t : Bytes)
          → is_some (lock_log_stream r t db'.streams) ≡ is_some (lock_log_stream r t db.streams))
      × (range.first_seq ≡ first)
      × (range.last_seq ≡ last_seq_of first entries)
unfolding close_batch record_append
close_batch-appends x run stream append_id entries first db h = (
  ground arith,
  λ r t.
      ground
        (arith, update-is_some r t run stream (add64 (last_seq_of first entries) 1) db.streams),
  ground arith,
  ground arith,
)

pub write_batch-appends :
    (x : Outside) (s : Service) (run : ℕ) (stream append_id : Bytes) (entries : List Entry)
    (first : ℕ) (db : Tables) {db' : Tables} {range : Range}
    → write_batch x s run stream append_id entries first db ≡ ok (db', range)
    → (db'.appends ≡ (
        if is_empty append_id
        then db.appends
        else append_row x run stream append_id entries first ∷ db.appends))
      × ((r : ℕ) (t : Bytes) → HasStream r t db → HasStream r t db')
      × (range.first_seq ≡ first)
      × (range.last_seq ≡ last_seq_of first entries)
unfolding write_batch
write_batch-appends x s run stream append_id entries first db {db'} {range} h =
    let (sound, rest) =
      guard-ok (in_sequence first entries) (invalid "sequence exhausted")
        (insert_entries x s run stream first 0 entries db
          >>= close_batch x run stream append_id entries first)
        h in
    let (mid, inserted, closed) =
      bind-ok (insert_entries x s run stream first 0 entries db)
        (close_batch x run stream append_id entries first) rest in
    let (f1, f2, _) = insert_entries-seqs x s run stream first 0 entries db inserted in
    let (c1, c2, c3, c4) = close_batch-appends x run stream append_id entries first mid closed in
    (
      ground (arith, c1, f2),
      λ r t held. ground (arith, c2 r t, ap (lock_log_stream r t) f1),
      c3,
      c4,
    )
