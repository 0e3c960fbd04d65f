-- ===== src/Log/Sequence/Insert.antt =====
-- What the loop of `AppendTx` that inserts the records does to the tables.
use lutra.Prelude.{ℕ, ◌+◌, List, [], ◌∷◌, if◌then◌else◌, ◌≡◌, ap, subst, ◌∙◌, arith, length}
use lutra.Prelude.Bytes.{Bytes}
use lutra.Prelude.Int64.{add64}
use lutra.Prelude.Results.{Result, ok, ◌>>◌, bind-ok}
use lutra.Log.Types.{Service, Entry, LogRow, Tables, Outside, Call, insert_record}
use lutra.Log.Tables.{at, seqs}
use lutra.Log.Append.{
  add_blob, store_value, insert_log_record, inline_row, row_of, insert_entry, insert_entries,
  attempt,
}
use lutra.Log.Sequence.Rows.{block}

-- The streams, the appends and the records are as before.
abbrev pub SameLogs : Tables → Tables → Type 0
SameLogs db db' =
    (db'.streams ≡ db.streams) × (db'.appends ≡ db.appends) × (db'.records ≡ db.records)

-- One record of the stream has been added.
abbrev pub Added : ℕ → Bytes → ℕ → Tables → Tables → Type 0
Added run stream seq db db' =
    (row : LogRow) × (row.run ≡ run)
    × (row.stream ≡ stream)
    × (row.seq ≡ seq)
    × (db'.streams ≡ db.streams)
    × (db'.appends ≡ db.appends)
    × (db'.records ≡ row ∷ db.records)

-- A call that is followed by a result has not failed.
pub attempt-ok {ℓ} :
    {B : Type ℓ} (x : Outside) (c : Call) (k : Result B) {b : B}
    → (attempt x c >> k) ≡ ok b
    → k ≡ ok b
attempt-ok x c k h = ground arith

add_blob-SameLogs :
    (x : Outside) (i : ℕ) (value digest : Bytes) (db : Tables) {db' : Tables}
    → add_blob x i value digest db ≡ ok db'
    → SameLogs db db'
unfolding add_blob
add_blob-SameLogs x i value digest db h = ground arith

store_value-SameLogs :
    (x : Outside) (i : ℕ) (value : Bytes) (db : Tables) {uri : Bytes} {db' : Tables}
    → store_value x i value db ≡ ok (uri, db')
    → SameLogs db db'
unfolding store_value
store_value-SameLogs x i value db h =
    ground (arith, add_blob-SameLogs x i value (x.sha256 value) db)

insert_log_record-Added :
    (row : LogRow) (db : Tables) {db' : Tables}
    → insert_log_record row db ≡ ok db'
    → (db'.streams ≡ db.streams) × (db'.appends ≡ db.appends) × (db'.records ≡ row ∷ db.records)
unfolding insert_log_record
insert_log_record-Added row db h = ground arith

-- The row that is inserted stands for the entry, and no log has changed yet.
pub row_of-SameLogs :
    (x : Outside) (s : Service) (run : ℕ) (stream : Bytes) (first i : ℕ) (entry : Entry)
    (db : Tables) {row : LogRow} {db' : Tables}
    → row_of x s run stream first i entry db ≡ ok (row, db')
    → SameLogs db db' × (row.run ≡ run) × (row.stream ≡ stream) × (row.seq ≡ add64 first i)
unfolding row_of inline_row
row_of-SameLogs x s run stream first i entry db h =
    ground (arith, store_value-SameLogs x i entry.value db)

pub insert_entry-Added :
    (x : Outside) (s : Service) (run : ℕ) (stream : Bytes) (first i : ℕ) (entry : Entry)
    (db : Tables) {db' : Tables}
    → insert_entry x s run stream first i entry db ≡ ok db'
    → Added run stream (add64 first i) db db'
unfolding insert_entry
insert_entry-Added x s run stream first i entry db {db'} h =
    let ((row, mid), made, rest) =
      bind-ok (row_of x s run stream first i entry db)
        (λ (p : LogRow × Tables). attempt x (insert_record i) >> insert_log_record p.0 p.1) h in
    let ((e1, e2, e3), a, b, c) = row_of-SameLogs x s run stream first i entry db made in
    let (f1, f2, f3) =
      insert_log_record-Added row mid
        (attempt-ok x (insert_record i) (insert_log_record row mid) rest) in
    (row, a, b, c, f1 ∙ e1, f2 ∙ e2, f3 ∙ ap (λ (l : List LogRow). row ∷ l) e3)

pub Added-seqs :
    (run : ℕ) (stream : Bytes) (seq : ℕ) (db db' : Tables)
    → Added run stream seq db db'
    → (r : ℕ) (s : Bytes)
    → seqs r s db'.records
      ≡ (if at r s run stream then seq ∷ seqs r s db.records else seqs r s db.records)
unfolding seqs
Added-seqs run stream seq db db' (row, a, b, c, _, _, grown) r s =
    ap (seqs r s) grown
    ∙ subst
        (λ (k : ℕ).
          seqs r s (row ∷ db.records)
          ≡ (if at r s k stream then seq ∷ seqs r s db.records else seqs r s db.records))
        a
        (subst
          (λ (t : Bytes).
            seqs r s (row ∷ db.records)
            ≡ (if at r s row.run t then seq ∷ seqs r s db.records else seqs r s db.records))
          b
          (ap
            (λ (n : ℕ).
              if at r s row.run row.stream then n ∷ seqs r s db.records else seqs r s db.records)
            c))

pub insert_entries-seqs :
    (x : Outside) (s : Service) (run : ℕ) (stream : Bytes) (first i : ℕ) (entries : List Entry)
    (db : Tables) {db' : Tables}
    → insert_entries x s run stream first i entries db ≡ ok db'
    → (db'.streams ≡ db.streams)
      × (db'.appends ≡ db.appends)
      × ((r : ℕ) (t : Bytes)
          → seqs r t db'.records ≡ (
              if at r t run stream
              then block first i (length entries) (seqs r t db.records)
              else seqs r t db.records))
unfolding insert_entries block
insert_entries-seqs x s run stream first i [] db h =
    (ground arith, ground arith, λ r t. ground arith)
insert_entries-seqs x s run stream first i (entry ∷ entries) db h =
    let (mid, one, rest) =
      bind-ok (insert_entry x s run stream first i entry db)
        (insert_entries x s run stream first (i + 1) entries) h in
    let (e1, e2, more) = insert_entries-seqs x s run stream first (i + 1) entries mid rest in
    let added = insert_entry-Added x s run stream first i entry db one in
    let (_, _, _, _, f1, f2, _) = added in
    (
      e1 ∙ f1,
      e2 ∙ f2,
      λ r t. ground (arith, more r t, Added-seqs run stream (add64 first i) db mid added r t),
    )
