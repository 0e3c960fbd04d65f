-- ===== src/Tail/Prefix.antt =====
-- `PrefixSuccessor` of internal/runlog/tail.go, and the bounds on a key that `Run` makes of it in the
-- query ReadFilteredLogRecords of db/queries/log.sql.
use lutra.Prelude.{
  ℕ, zero, suc, ◌+◌, ◌%◌, Bool, true, false, not, ◌&&◌, [], ◌∷◌, Option, none, some, if◌then◌else◌,
  ◌==◌, ltb, length, get_elem?, modify,
}
use lutra.Prelude.Bytes.{Bytes, is_empty, before}

-- `result[:n]`
unfoldable pub first_bytes : ℕ → Bytes → Bytes
first_bytes zero bs = []
first_bytes (suc n) [] = []
first_bytes (suc n) (b ∷ bs) = b ∷ first_bytes n bs

abbrev pub is_byte : ℕ → Option ℕ → Bool
is_byte n none = false
is_byte n (some b) = b == n

-- The loop, from the index `i - 1` down.
unfoldable pub scan_back : ℕ → Bytes → Option Bytes
unfolding first_bytes
scan_back zero result = none
scan_back (suc i) result =
    if is_byte 255 (get_elem? result i)
    then scan_back i result
    else some (first_bytes (suc i) (modify i (λ b. (b + 1) % 256) result))

unfoldable pub prefix_successor : Bytes → Option Bytes
unfolding scan_back
prefix_successor prefix = scan_back (length prefix) prefix

-- `lower` in `Run`.
abbrev pub lower_key : Bytes → Option Bytes
lower_key prefix = if is_empty prefix then none else some prefix

-- The three branches of the query, as conditions on a record's key.
unfoldable pub in_bounds : Option Bytes → Option Bytes → Bytes → Bool
unfolding before
in_bounds none upper key = true
in_bounds (some lower) none key = not (before key lower)
in_bounds (some lower) (some upper) key = not (before key lower) && before key upper

-- Whether the query of a cursor with this prefix selects the key.
unfoldable pub selects : Bytes → Bytes → Bool
unfolding in_bounds prefix_successor
selects prefix key = in_bounds (lower_key prefix) (prefix_successor prefix) key

-- `batchSize`, with a size that is not positive as 0.
unfoldable pub batch_size : (tail_batch_size max_response_buffer : ℕ) → ℕ
batch_size tail_batch_size max_response_buffer =
    let size = if tail_batch_size == 0 then 256 else tail_batch_size in
    let buffer = if max_response_buffer == 0 then 256 else max_response_buffer in
    let size' = if ltb buffer size then buffer else size in if ltb 10000 size' then 10000 else size'
