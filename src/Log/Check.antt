-- ===== src/Log/Check.antt =====
-- The checks of internal/runlog/service.go before a batch is written, and its digest.
use lutra.Prelude.{
  ℕ, ◌+◌, ◌/◌, ◌%◌, ◌^◌, Bool, true, false, not, ◌&&◌, ◌||◌, List, [], ◌∷◌, ◌++◌, Option, none,
  some, length, leb, ◌==◌,
}
use lutra.Prelude.Bytes.{Bytes, is_empty, has_prefix, equal}
use lutra.Prelude.Results.{Result, ok, ◌>>=◌, ◌>>◌, guard, new_error, permission_denied}
use lutra.Log.Types.{Limits, Entry, Outside, Service, invalid, exhausted, limits, max_key_size}

-- A value of `checkpointScope`; the prefix is the action's identifier with a slash.
pub record CheckpointScope : Type 0 where
  pub run : ℕ
  pub prefix : Bytes

-- "checkpoint"
abbrev pub checkpoint : Bytes
checkpoint = 99 ∷ 104 ∷ 101 ∷ 99 ∷ 107 ∷ 112 ∷ 111 ∷ 105 ∷ 110 ∷ 116 ∷ []

unfoldable pub check_keys : Bytes → List Bytes → Result (Unit {0})
unfolding has_prefix
check_keys prefix [] = ok tt
check_keys prefix (key ∷ keys) = do
  guard (has_prefix key prefix)
      (new_error permission_denied "checkpoint belongs to a different action")
  check_keys prefix keys

unfoldable pub check_checkpoint_scope :
    Option CheckpointScope → ℕ → Bytes → List Bytes → Result (Unit {0})
unfolding check_keys equal
check_checkpoint_scope none run stream keys = ok tt
check_checkpoint_scope (some scope) run stream keys = do
  guard (run == scope.run && equal stream checkpoint)
      (new_error permission_denied "log is unavailable to task")
  check_keys scope.prefix keys

-- [a-zA-Z_]
abbrev starts_name : ℕ → Bool
starts_name c = leb 97 c && leb c 122 || leb 65 c && leb c 90 || c == 95

-- [a-zA-Z0-9_.-]
abbrev continues_name : ℕ → Bool
continues_name c = starts_name c || leb 48 c && leb c 57 || c == 46 || c == 45

abbrev all_continue : Bytes → Bool
all_continue [] = true
all_continue (c ∷ cs) = continues_name c && all_continue cs

-- `streamPattern.MatchString`
unfoldable pub stream_pattern : Bytes → Bool
stream_pattern [] = false
stream_pattern (c ∷ cs) = starts_name c && all_continue cs && leb (length cs) 127

unfoldable pub validate_stream : Bytes → Result (Unit {0})
unfolding stream_pattern
validate_stream stream = guard (stream_pattern stream) (invalid "invalid stream")

-- A round of the loop of `AppendTx` over the entries, with the total so far.
unfoldable pub check_entry : Outside → Limits → ℕ → Entry → Result ℕ
check_entry x l total entry = do
  guard (leb (length entry.key) max_key_size) (exhausted "key exceeds 1024 bytes")
  guard
      (not
        (is_empty entry.value || not (leb (length entry.value + length entry.key) l.record_size)))
      (exhausted "record size exceeded")
  guard (not (x.malformed entry.value)) (invalid "value is not valid CBOR")
  let total' = total + (length entry.value + length entry.key)
  guard (leb total' l.batch) (exhausted "batch size exceeded")
  ok total'

unfoldable pub check_entries : Outside → Limits → ℕ → List Entry → Result ℕ
unfolding check_entry
check_entries x l total [] = ok total
check_entries x l total (entry ∷ entries) = do
  total' ← check_entry x l total entry
  check_entries x l total' entries

-- All that `AppendTx` checks before it asks the database.
unfoldable pub check_batch : Outside → Service → Bytes → Bytes → List Entry → Result (Unit {0})
unfolding validate_stream check_entries
check_batch x s stream append_id entries = do
  validate_stream stream
  guard (leb 1 (length entries)) (invalid "append batch is empty")
  total ← check_entries x (limits s) 0 entries
  guard (leb (length append_id) 200) (invalid "append id is too long")

-- `binary.BigEndian.PutUint64`
abbrev pub put_uint64 : ℕ → Bytes
put_uint64 n =
    n / 256 ^ 7 % 256
    ∷ n / 256 ^ 6 % 256
    ∷ n / 256 ^ 5 % 256
    ∷ n / 256 ^ 4 % 256
    ∷ n / 256 ^ 3 % 256
    ∷ n / 256 ^ 2 % 256
    ∷ n / 256 % 256
    ∷ n % 256
    ∷ []

-- What `batchDigest` writes into the hash.
unfoldable pub batch_text : List Entry → Bytes
batch_text [] = []
batch_text (entry ∷ entries) =
    put_uint64 (length entry.key)
    ++ entry.key
    ++ put_uint64 (length entry.value)
    ++ entry.value
    ++ batch_text entries

unfoldable pub batch_digest : Outside → List Entry → Bytes
unfolding batch_text
batch_digest x entries = x.sha256 (batch_text entries)
