-- ===== src/Log/Retry/Repeat.antt =====
-- What `AppendTx` answers to an identifier that it knows.
use lutra.Prelude.{
  ℕ, true, false, List, if◌then◌else◌, ◌≡◌, arith, Option-cases, inl, inr, is_some, if_ind,
}
use lutra.Prelude.Bytes.{Bytes, is_empty, equal}
use lutra.Prelude.Results.{Result, ok, err, ◌>>=◌, ◌>>◌, new_error, already_exists}
use lutra.Log.Types.{Service, Entry, StreamRow, AppendRow, Tables, Outside, lock_stream, get_append}
use lutra.Log.Tables.{lock_log_stream}
use lutra.Log.Check.{check_batch, batch_digest}
use lutra.Log.Append.{Range, open_stream, repeat_batch, append_locked, append_tx}
use lutra.Log.Total.Insert.{Quiet, attempt-Quiet}
use lutra.Log.Retry.Answer.{Answered, append_tx-Answered, append_tx-keeps}

-- The tables after any number of batches, on any streams and under any identifiers.
pub data Later (db : Tables) : Tables → Type 0 where
  here : Later db db
  after :
      {mid db' : Tables} (x : Outside) (s : Service) (run : ℕ) (stream id : Bytes)
      (entries : List Entry) (range : Range)
      → Later db mid
      → append_tx x s run stream id entries mid ≡ ok (db', range)
      → Later db db'

Later-Answered :
    (x : Outside) (run : ℕ) (stream id : Bytes) (entries : List Entry) (range : Range)
    {db db' : Tables}
    → Later db db'
    → Answered x run stream id entries range db
    → Answered x run stream id entries range db'
Later-Answered x run stream id entries range here held = held
Later-Answered x run stream id entries range
      (after {mid} y s run' stream' id' entries' range' before h) held =
    append_tx-keeps x run stream id entries range mid
      (Later-Answered x run stream id entries range before held) y s run' stream' id' entries' h

-- The answer to a batch under an identifier that holds the digest `digest`.
unfoldable pub answer : Outside → List Entry → Bytes → Range → Tables → Result (Tables × Range)
answer y entries digest range db =
    if equal digest (batch_digest y entries)
    then ok (db, range)
    else err (new_error already_exists "append id already belongs to different values")

open_stream-held :
    (y : Outside) (run : ℕ) (stream : Bytes) (db : Tables)
    → Quiet y
    → is_some (lock_log_stream run stream db.streams) ≡ true
    → (row : StreamRow) × (open_stream y run stream db ≡ ok (row, db))
unfolding open_stream
open_stream-held y run stream db quiet has =
    elim (Option-cases (lock_log_stream run stream db.streams)) [
      | inl absent ↦ (record { run = run; stream = stream; next_seq = 0 }, ground arith)
      | inr (row, found) ↦ (row, rw (quiet lock_stream, found, ◌>>=◌, ◌>>◌))
    ]

repeat_batch-answer :
    (y : Outside) (retry : List Entry) (made : AppendRow) (digest : Bytes) (range : Range)
    (db : Tables)
    → made.digest ≡ digest
    → range.first_seq ≡ made.first_seq
    → range.last_seq ≡ made.last_seq
    → repeat_batch y retry made db ≡ answer y retry digest range db
unfolding repeat_batch answer
repeat_batch-answer y retry made digest range db a b c =
    if_ind (λ (k : Result (Tables × Range)). repeat_batch y retry made db ≡ k)
      (equal digest (batch_digest y retry)) (λ same. ground arith) (λ other. ground arith)

Answered-answer :
    (x : Outside) (run : ℕ) (stream id : Bytes) (entries : List Entry) (range : Range) (db : Tables)
    → is_empty id ≡ false
    → Answered x run stream id entries range db
    → (y : Outside) (s : Service) (retry : List Entry) → Quiet y
    → check_batch y s stream id retry ≡ ok tt
    → append_tx y s run stream id retry db ≡ answer y retry (batch_digest x entries) range db
unfolding append_tx append_locked
Answered-answer x run stream id entries range db named (made, found, a, b, c, has) y s retry quiet
      checked =
    let (row, opened) = open_stream-held y run stream db quiet has in
    let again = repeat_batch-answer y retry made (batch_digest x entries) range db a b c in
    rw (checked, opened, named, attempt-Quiet y get_append quiet, found, again)

-- Once a batch is appended under a non-empty identifier, a call of `AppendTx` with this identifier
-- that passes the checks and whose queries do not fail changes nothing, whatever batches came in
-- between: with entries of the same digest it answers the same range, with others it is refused.
pub append_tx-answer :
    (x : Outside) (s : Service) (run : ℕ) (stream id : Bytes) (entries : List Entry)
    (db db1 db2 : Tables) (range : Range)
    → is_empty id ≡ false
    → append_tx x s run stream id entries db ≡ ok (db1, range)
    → Later db1 db2
    → (y : Outside) (s' : Service) (retry : List Entry) → Quiet y
    → check_batch y s' stream id retry ≡ ok tt
    → append_tx y s' run stream id retry db2 ≡ answer y retry (batch_digest x entries) range db2
append_tx-answer x s run stream id entries db db1 db2 range named h later y s' retry quiet checked =
    Answered-answer x run stream id entries range db2 named
      (Later-Answered x run stream id entries range later
        (append_tx-Answered x s run stream id entries db named h))
      y s' retry quiet checked
