-- ===== src/Log/Retry/Answer.antt =====
-- A batch that `AppendTx` has appended under an identifier is answered again, and not repeated.
use lutra.Prelude.{
  ℕ, Bool, true, false, ◌&&◌, List, ◌∷◌, none, some, if◌then◌else◌, ◌≡◌, refl, sym, ap, subst, ◌∙◌,
  arith, Bool-cases, inl, inr, ◌⊎◌, if_ind,
}
use lutra.Prelude.Bytes.{Bytes, is_empty, equal, equal_self, equal-eq}
use lutra.Prelude.Results.{ok}
use lutra.Log.Types.{Service, Entry, AppendRow, Tables, Outside}
use lutra.Log.Tables.{at, get_log_append}
use lutra.Log.Check.{batch_digest}
use lutra.Log.Append.{Range, append_row, write_batch, append_tx}
use lutra.Log.Sequence.Rows.{at_self, at-eq}
use lutra.Log.Sequence.Batch.{open_stream-Opened}
use lutra.Log.Sequence.Numbered.{append_locked-cases, append_tx-parts}
use lutra.Log.Retry.Kept.{HasStream, open_stream-HasStream, write_batch-appends}

-- The tables hold the answer of a batch.
abbrev pub Answered : Outside → ℕ → Bytes → Bytes → List Entry → Range → Tables → Type 0
Answered x run stream append_id entries range db =
    (made : AppendRow) × (get_log_append run stream append_id db.appends ≡ some made)
    × (made.digest ≡ batch_digest x entries)
    × (range.first_seq ≡ made.first_seq)
    × (range.last_seq ≡ made.last_seq)
    × HasStream run stream db

-- A new row does not hide another one.
get-cons :
    (run : ℕ) (stream id : Bytes) (row made : AppendRow) (rows : List AppendRow)
    → get_log_append run stream id rows ≡ some made
    → get_log_append row.run row.stream row.append_id rows ≡ none
    → get_log_append run stream id (row ∷ rows) ≡ some made
unfolding get_log_append
get-cons run stream id row made rows found absent =
    elim (Bool-cases (at run stream row.run row.stream && equal row.append_id id)) [
      | inl same ↦ ground (arith, clash same)
      | inr other ↦ ground arith
    ]
  where
    clash :
        (at run stream row.run row.stream && equal row.append_id id) ≡ true
        → get_log_append run stream id rows ≡ none
    clash same =
        let (er, es) = at-eq run stream row.run row.stream (ground arith) in
        ap (λ (k : ℕ). get_log_append k stream id rows) er
        ∙ ap (λ (t : Bytes). get_log_append row.run t id rows) es
        ∙ ap (λ (i : Bytes). get_log_append row.run row.stream i rows)
            (sym (equal-eq row.append_id id (ground arith)))
        ∙ absent

get-head :
    (x : Outside) (run : ℕ) (stream id : Bytes) (entries : List Entry) (first : ℕ)
    (rows : List AppendRow)
    → get_log_append run stream id (append_row x run stream id entries first ∷ rows)
      ≡ some (append_row x run stream id entries first)
unfolding get_log_append append_row
get-head x run stream id entries first rows = ground (arith, at_self run stream, equal_self id)

write_batch-Answered :
    (x : Outside) (s : Service) (run : ℕ) (stream id : Bytes) (entries : List Entry) (first : ℕ)
    (db : Tables) {db' : Tables} {range : Range}
    → is_empty id ≡ false
    → HasStream run stream db
    → write_batch x s run stream id entries first db ≡ ok (db', range)
    → Answered x run stream id entries range db'
unfolding append_row
write_batch-Answered x s run stream id entries first db {db'} {range} named has h =
    let (grown, held, e1, e2) = write_batch-appends x s run stream id entries first db h in
    (
      append_row x run stream id entries first,
      ap (get_log_append run stream id) grown
          ∙ ap
              (λ (b : Bool).
                get_log_append run stream id
                  (if b then db.appends else append_row x run stream id entries first ∷ db.appends))
              named
          ∙ get-head x run stream id entries first db.appends,
      refl,
      e1,
      e2,
      held run stream has,
    )

pub append_tx-Answered :
    (x : Outside) (s : Service) (run : ℕ) (stream id : Bytes) (entries : List Entry) (db : Tables)
    {db' : Tables} {range : Range}
    → is_empty id ≡ false
    → append_tx x s run stream id entries db ≡ ok (db', range)
    → Answered x run stream id entries range db'
append_tx-Answered x s run stream id entries db {db'} {range} named h =
    let (row, mid, opened, locked) = append_tx-parts x s run stream id entries db h in
    let (has, _) = open_stream-HasStream x run stream db opened in
    elim (append_locked-cases x s run stream id entries row mid locked) [
      | inl (made, found, a, b, c, e) ↦
          subst (λ (d : Tables). Answered x run stream id entries range d) (sym e)
            (made, found, a, b, c, has)
      | inr (_, written) ↦
          write_batch-Answered x s run stream id entries row.next_seq mid named has written
    ]

-- A later batch, under any identifier, keeps the answer.
write_batch-keeps :
    (y : Outside) (s : Service) (run : ℕ) (stream id : Bytes) (entries : List Entry) (first : ℕ)
    (db : Tables) {db' : Tables} {range : Range}
    → (is_empty id ≡ true) ⊎ (get_log_append run stream id db.appends ≡ none)
    → write_batch y s run stream id entries first db ≡ ok (db', range)
    → (r : ℕ) (t i : Bytes) (made : AppendRow) → get_log_append r t i db.appends ≡ some made
    → get_log_append r t i db'.appends ≡ some made
unfolding append_row
write_batch-keeps y s run stream id entries first db {db'} {range} fresh h r t i made found =
    let (grown, _, _, _) = write_batch-appends y s run stream id entries first db h in
    ap (get_log_append r t i) grown
    ∙ if_ind (λ (rows : List AppendRow). get_log_append r t i rows ≡ some made) (is_empty id)
        (λ _. found)
        (λ named. elim fresh [
          | inl unnamed ↦ absurd unnamed named
          | inr absent ↦
              get-cons r t i (append_row y run stream id entries first) made db.appends found absent
        ])
  where
    absurd :
        is_empty id ≡ true
        → is_empty id ≡ false
        → get_log_append r t i (append_row y run stream id entries first ∷ db.appends) ≡ some made
    absurd a b = ground arith

pub append_tx-keeps :
    (x : Outside) (run : ℕ) (stream id : Bytes) (entries : List Entry) (range : Range) (db : Tables)
    → Answered x run stream id entries range db
    → (y : Outside) (s : Service) (run' : ℕ) (stream' id' : Bytes) (entries' : List Entry)
      {db' : Tables} {range' : Range}
    → append_tx y s run' stream' id' entries' db ≡ ok (db', range')
    → Answered x run stream id entries range db'
append_tx-keeps x run stream id entries range db (made, found, a, b, c, has) y s run' stream' id'
      entries' {db'} {range'} h =
    let (row, mid, made_open, locked) = append_tx-parts y s run' stream' id' entries' db h in
    let (_, keep) = open_stream-HasStream y run' stream' db made_open in
    let (same, _, _, _) = open_stream-Opened y run' stream' db made_open in
    let found_mid = ap (get_log_append run stream id) same ∙ found in
    elim (append_locked-cases y s run' stream' id' entries' row mid locked) [
      | inl (_, _, _, _, _, e) ↦
          subst (λ (d : Tables). Answered x run stream id entries range d) (sym e)
            (made, found_mid, a, b, c, keep run stream has)
      | inr (fresh, written) ↦ (
        made,
        write_batch-keeps y s run' stream' id' entries' row.next_seq mid fresh written run stream id
            made found_mid,
        a,
        b,
        c,
        (write_batch-appends y s run' stream' id' entries' row.next_seq mid written).1 run stream
            (keep run stream has),
      )
    ]
