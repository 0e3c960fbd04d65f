-- ===== src/Log/Tables.antt =====
-- The queries of db/queries/log.sql on the tables.
use lutra.Prelude.{ℕ, Bool, ◌&&◌, List, [], ◌∷◌, Option, none, some, if◌then◌else◌, ◌==◌, is_some}
use lutra.Prelude.Bytes.{Bytes, equal}
use lutra.Log.Types.{StreamRow, AppendRow, LogRow, BlobRow}

-- `run_id = $1 AND stream = $2`
unfoldable pub at : ℕ → Bytes → ℕ → Bytes → Bool
at run stream run' stream' = run' == run && equal stream' stream

unfoldable pub lock_log_stream : ℕ → Bytes → List StreamRow → Option StreamRow
unfolding at
lock_log_stream run stream [] = none
lock_log_stream run stream (row ∷ rows) =
    if at run stream row.run row.stream then some row else lock_log_stream run stream rows

-- ON CONFLICT DO NOTHING
unfoldable pub create_log_stream : ℕ → Bytes → ℕ → List StreamRow → List StreamRow
unfolding lock_log_stream
create_log_stream run stream next rows =
    if is_some (lock_log_stream run stream rows)
    then rows
    else record { run = run; stream = stream; next_seq = next } ∷ rows

unfoldable pub update_log_stream_next_seq : ℕ → Bytes → ℕ → List StreamRow → List StreamRow
unfolding at
update_log_stream_next_seq run stream next [] = []
update_log_stream_next_seq run stream next (row ∷ rows) =
    (if at run stream row.run row.stream then record row { next_seq = next } else row)
    ∷ update_log_stream_next_seq run stream next rows

unfoldable pub get_log_append : ℕ → Bytes → Bytes → List AppendRow → Option AppendRow
unfolding at
get_log_append run stream id [] = none
get_log_append run stream id (row ∷ rows) =
    if at run stream row.run row.stream && equal row.append_id id
    then some row
    else get_log_append run stream id rows

unfoldable pub get_blob_by_sha256 : Bytes → List BlobRow → Option BlobRow
unfolding equal
get_blob_by_sha256 digest [] = none
get_blob_by_sha256 digest (row ∷ rows) =
    if equal row.digest digest then some row else get_blob_by_sha256 digest rows

-- The sequence numbers of a stream's records, the newest first.
unfoldable pub seqs : ℕ → Bytes → List LogRow → List ℕ
unfolding at
seqs run stream [] = []
seqs run stream (row ∷ rows) =
    if at run stream row.run row.stream
    then row.seq ∷ seqs run stream rows
    else seqs run stream rows
