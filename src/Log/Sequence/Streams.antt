-- ===== src/Log/Sequence/Streams.antt =====
-- The table of streams under the queries of `AppendTx`.
use lutra.Prelude.{
  ℕ, true, ◌&&◌, List, [], ◌∷◌, Option, none, some, if◌then◌else◌, ◌≡◌, ap, ◌∙◌, arith, Bool-cases,
  inl, inr, is_some,
}
use lutra.Prelude.Bytes.{Bytes}
use lutra.Log.Types.{StreamRow}
use lutra.Log.Tables.{at, lock_log_stream, create_log_stream, update_log_stream_next_seq}
use lutra.Log.Sequence.Rows.{at_self, at-eq, at-same, at-other}

abbrev pub next_of_row : Option StreamRow → ℕ
next_of_row none = 1
next_of_row (some row) = row.next_seq

-- The sequence number that the stream's next record gets.
unfoldable pub next_of : ℕ → Bytes → List StreamRow → ℕ
unfolding lock_log_stream
next_of run stream rows = next_of_row (lock_log_stream run stream rows)

pub create-lock :
    (run : ℕ) (stream : Bytes) (rows : List StreamRow)
    → lock_log_stream run stream rows ≡ none
    → lock_log_stream run stream (create_log_stream run stream 1 rows)
      ≡ some (record { run = run; stream = stream; next_seq = 1 })
unfolding create_log_stream lock_log_stream
create-lock run stream rows h = ground (arith, at_self run stream)

pub create-next_of :
    (r : ℕ) (s : Bytes) (run : ℕ) (stream : Bytes) (rows : List StreamRow)
    → lock_log_stream run stream rows ≡ none
    → next_of r s (create_log_stream run stream 1 rows) ≡ next_of r s rows
unfolding create_log_stream lock_log_stream next_of
create-next_of r s run stream rows h = elim (Bool-cases (at r s run stream)) [
  | inl same ↦ ground (arith, absent same)
  | inr other ↦ ground arith
]
  where
    absent : at r s run stream ≡ true → lock_log_stream r s rows ≡ none
    absent same =
        let (er, es) = at-eq r s run stream same in
        ap (λ (k : ℕ). lock_log_stream k s rows) er
        ∙ ap (λ (t : Bytes). lock_log_stream run t rows) es
        ∙ h

pub update-next_of :
    (r : ℕ) (s : Bytes) (run : ℕ) (stream : Bytes) (next : ℕ) (rows : List StreamRow)
    → next_of r s (update_log_stream_next_seq run stream next rows) ≡ (
        if at r s run stream && is_some (lock_log_stream run stream rows)
        then next
        else next_of r s rows)
unfolding update_log_stream_next_seq lock_log_stream next_of
update-next_of r s run stream next [] = ground arith
update-next_of r s run stream next (row ∷ rows) = ground (
  arith,
  update-next_of r s run stream next rows,
  at-same r s run stream row.run row.stream,
  at-other r s run stream row.run row.stream,
)
