-- ===== src/Log/Append.antt =====
-- `AppendTx`, `AppendEntries` and `Append` of internal/runlog/service.go. A batch that fails leaves
-- the tables alone (its transaction is rolled back), so an error carries none. An object that such
-- a batch has put into the bucket has a fresh name that no row holds, and is forgotten here.
use lutra.Prelude.{
  ℕ, ◌+◌, Bool, false, not, ◌&&◌, ◌||◌, List, [], ◌∷◌, ◌++◌, none, some, if◌then◌else◌, length, ltb,
  ◌==◌,
}
use lutra.Prelude.Bytes.{Bytes, is_empty, equal}
use lutra.Prelude.Int64.{add64, sub64, less64, max_int64}
use lutra.Prelude.Map.{insert}
use lutra.Prelude.Results.{
  Error, new_error, Result, ok, err, ◌>>=◌, ◌>>◌, guard, already_exists, internal,
}
use lutra.Log.Types.{
  Service, limits, Entry, StreamRow, AppendRow, LogRow, Tables, Call, Outside, lock_stream,
  create_stream, relock_stream, get_append, insert_record, update_next_seq, insert_append, notify,
  get_blob, put_object, insert_blob, invalid,
}
use lutra.Log.Tables.{
  lock_log_stream, create_log_stream, update_log_stream_next_seq, get_log_append,
  get_blob_by_sha256, seqs,
}
use lutra.Log.Check.{check_batch, batch_digest}

-- `if err := ...; err != nil { return nil, ... }`
abbrev pub attempt : Outside → Call → Result (Unit {0})
attempt x c = elim (x.fault c) [ none ↦ ok tt | some e ↦ err e ]

-- "blob:application/cbor," and the digest.
unfoldable pub blob_uri : Outside → Bytes → Bytes
blob_uri x digest =
    (98 ∷ 108 ∷ 111 ∷ 98 ∷ 58 ∷ [])
    ++ (97 ∷ 112 ∷ 112 ∷ 108 ∷ 105 ∷ 99 ∷ 97 ∷ 116 ∷ 105 ∷ 111 ∷ 110 ∷ 47 ∷ 99 ∷ 98 ∷ 111 ∷ 114 ∷ 44
        ∷ [])
    ++ x.base64 digest

-- `storeValue` where the blob is not known yet.
unfoldable pub add_blob : Outside → ℕ → Bytes → Bytes → Tables → Result Tables
add_blob x i value digest db = do
  attempt x (put_object i)
  attempt x (insert_blob i)
  ok (record db {
    blobs = record { digest = digest; object = db.fresh } ∷ db.blobs;
    objects = insert db.fresh value db.objects;
    fresh = db.fresh + 1;
  })

unfoldable pub store_value : Outside → ℕ → Bytes → Tables → Result (Bytes × Tables)
unfolding add_blob blob_uri
store_value x i value db = do
  let digest = x.sha256 value
  attempt x (get_blob i)
  db' ← elim (get_blob_by_sha256 digest db.blobs) [
    | some row ↦ ok db
    | none ↦ add_blob x i value digest db
  ]
  ok (blob_uri x digest, db')

abbrev duplicate_key : Error
duplicate_key = new_error internal "duplicate key value violates unique constraint"

unfoldable pub has_seq : ℕ → List ℕ → Bool
has_seq n [] = false
has_seq n (m ∷ ms) = m == n || has_seq n ms

-- The query, with the table's primary key.
unfoldable pub insert_log_record : LogRow → Tables → Result Tables
unfolding has_seq
insert_log_record row db =
    if has_seq row.seq (seqs row.run row.stream db.records)
    then err duplicate_key
    else ok (record db { records = row ∷ db.records })

-- The row of an entry whose value stays in the table.
unfoldable pub inline_row : ℕ → Bytes → (first i : ℕ) → Entry → LogRow
inline_row run stream first i entry = record {
  run = run;
  stream = stream;
  seq = add64 first i;
  key = entry.key;
  value = some entry.value;
  uri = none;
  payload_size = length entry.value;
}

abbrev with_uri : LogRow → Bytes × Tables → LogRow × Tables
with_uri row (uri, db) = (record row { value = none; uri = some uri }, db)

-- The row of an entry, with the tables that `storeValue` leaves if the value is large.
unfoldable pub row_of :
    Outside → Service → ℕ → Bytes → (first i : ℕ) → Entry → Tables → Result (LogRow × Tables)
unfolding store_value inline_row
row_of x s run stream first i entry db =
    let row = inline_row run stream first i entry in
    if ltb (limits s).inline (length entry.value) && s.has_store
    then (store_value x i entry.value db >>= λ stored. ok (with_uri row stored))
    else ok (row, db)

-- A round of the loop that inserts the records.
unfoldable pub insert_entry :
    Outside → Service → ℕ → Bytes → (first i : ℕ) → Entry → Tables → Result Tables
unfolding row_of insert_log_record
insert_entry x s run stream first i entry db = do
  (row, db') ← row_of x s run stream first i entry db
  attempt x (insert_record i)
  insert_log_record row db'

unfoldable pub insert_entries :
    Outside → Service → ℕ → Bytes → (first i : ℕ) → List Entry → Tables → Result Tables
unfolding insert_entry
insert_entries x s run stream first i [] db = ok db
insert_entries x s run stream first i (entry ∷ entries) db = do
  db' ← insert_entry x s run stream first i entry db
  insert_entries x s run stream first (i + 1) entries db'

-- `AppendResponse`
pub record Range : Type 0 where
  pub first_seq : ℕ
  pub last_seq : ℕ

abbrev no_rows : Error
no_rows = new_error internal "no rows in result set"

-- The stream's row, which is made if there is none, and locked.
unfoldable pub open_stream : Outside → ℕ → Bytes → Tables → Result (StreamRow × Tables)
unfolding lock_log_stream create_log_stream
open_stream x run stream db = do
  attempt x lock_stream
  elim (lock_log_stream run stream db.streams) [
    | some row ↦ ok (row, db)
    | none ↦ do
      attempt x create_stream
      attempt x relock_stream
      let db' = record db { streams = create_log_stream run stream 1 db.streams }
      elim (lock_log_stream run stream db'.streams) [
        | some row ↦ ok (row, db')
        | none ↦ err no_rows
      ]
  ]

-- The last sequence number of a batch.
unfoldable pub last_seq_of : ℕ → List Entry → ℕ
last_seq_of first entries = sub64 (add64 first (length entries)) 1

unfoldable pub append_row : Outside → ℕ → Bytes → Bytes → List Entry → ℕ → AppendRow
unfolding batch_digest last_seq_of
append_row x run stream append_id entries first = record {
  run = run;
  stream = stream;
  append_id = append_id;
  digest = batch_digest x entries;
  first_seq = first;
  last_seq = last_seq_of first entries;
}

unfoldable pub record_append : Outside → ℕ → Bytes → Bytes → List Entry → ℕ → Tables → Result Tables
unfolding append_row
record_append x run stream append_id entries first db =
    if is_empty append_id
    then ok db
    else (attempt x insert_append
        >> ok
            (record db { appends = append_row x run stream append_id entries first ∷ db.appends }))

-- With the records inserted.
unfoldable pub close_batch :
    Outside → ℕ → Bytes → Bytes → List Entry → ℕ → Tables → Result (Tables × Range)
unfolding update_log_stream_next_seq last_seq_of record_append
close_batch x run stream append_id entries first db = do
  let last = last_seq_of first entries
  attempt x update_next_seq
  db' ←
      record_append x run stream append_id entries first
        (record db { streams = update_log_stream_next_seq run stream (add64 last 1) db.streams })
  attempt x notify
  ok (
    record db' { notified = (run, stream) ∷ db'.notified },
    record { first_seq = first; last_seq = last },
  )

abbrev pub in_sequence : ℕ → List Entry → Bool
in_sequence first entries =
    not (less64 (last_seq_of first entries) first || last_seq_of first entries == max_int64)

-- From the choice of the sequence numbers on.
unfoldable pub write_batch :
    Outside → Service → ℕ → Bytes → Bytes → List Entry → ℕ → Tables → Result (Tables × Range)
unfolding insert_entries close_batch last_seq_of
write_batch x s run stream append_id entries first db = do
  guard (in_sequence first entries) (invalid "sequence exhausted")
  db' ← insert_entries x s run stream first 0 entries db
  close_batch x run stream append_id entries first db'

-- What an earlier batch with the same identifier answers.
unfoldable pub repeat_batch : Outside → List Entry → AppendRow → Tables → Result (Tables × Range)
unfolding batch_digest
repeat_batch x entries row db = do
  guard (equal row.digest (batch_digest x entries))
      (new_error already_exists "append id already belongs to different values")
  ok (db, record { first_seq = row.first_seq; last_seq = row.last_seq })

-- With the stream's row locked.
unfoldable pub append_locked :
    Outside
    → Service
    → ℕ
    → Bytes
    → Bytes
    → List Entry
    → StreamRow × Tables
    → Result (Tables × Range)
unfolding write_batch repeat_batch get_log_append
append_locked x s run stream append_id entries (row, db) =
    if is_empty append_id
    then write_batch x s run stream append_id entries row.next_seq db
    else (attempt x get_append >> (elim (get_log_append run stream append_id db.appends) [
      | some made ↦ repeat_batch x entries made db
      | none ↦ write_batch x s run stream append_id entries row.next_seq db
    ]))

unfoldable pub append_tx :
    Outside → Service → ℕ → Bytes → Bytes → List Entry → Tables → Result (Tables × Range)
unfolding check_batch open_stream append_locked
append_tx x s run stream append_id entries db = do
  check_batch x s stream append_id entries
  opened ← open_stream x run stream db
  append_locked x s run stream append_id entries opened
