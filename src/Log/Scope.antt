-- ===== src/Log/Scope.antt =====
-- What a task may write: the checkpoint scope of internal/runlog/service.go.
use lutra.Prelude.{ℕ, true, false, List, [], ◌∷◌, some, ◌≡◌, ap, ◌∙◌, arith, inl, inr}
use lutra.Prelude.Bytes.{Bytes, equal-eq, has_prefix}
use lutra.Prelude.Results.{ok, ◌>>=◌, bind-ok}
use lutra.Log.Types.{Service, Entry, Tables, Outside}
use lutra.Log.Tables.{at, seqs}
use lutra.Log.Check.{CheckpointScope, check_keys, check_checkpoint_scope, checkpoint}
use lutra.Log.Append.{Range, append_tx}
use lutra.Log.Service.{validate_run, append_entries, keys_of, append}
use lutra.Log.Sequence.Batch.{open_stream-Opened, write_batch-Written}
use lutra.Log.Sequence.Numbered.{append_tx-parts, append_locked-cases}

-- Every entry's key has the prefix.
abbrev pub AllHavePrefix : Bytes → List Entry → Type 0
AllHavePrefix prefix [] = Unit
AllHavePrefix prefix (entry ∷ entries) =
    (has_prefix entry.key prefix ≡ true) × AllHavePrefix prefix entries

check_keys-AllHavePrefix :
    (prefix : Bytes) (entries : List Entry)
    → check_keys prefix (keys_of entries) ≡ ok tt
    → AllHavePrefix prefix entries
unfolding check_keys
check_keys-AllHavePrefix prefix [] h = tt
check_keys-AllHavePrefix prefix (entry ∷ entries) h =
    (ground arith, check_keys-AllHavePrefix prefix entries (ground arith))

-- A batch numbers the records of its own stream only.
append_tx-others :
    (x : Outside) (s : Service) (run : ℕ) (stream append_id : Bytes) (entries : List Entry)
    (db : Tables) {db' : Tables} {range : Range}
    → append_tx x s run stream append_id entries db ≡ ok (db', range)
    → (r : ℕ) (t : Bytes) → at r t run stream ≡ false
    → seqs r t db'.records ≡ seqs r t db.records
append_tx-others x s run stream append_id entries db {db'} {range} h r t other =
    let (row, mid, made, locked) = append_tx-parts x s run stream append_id entries db h in
    let (_, same, _, _) = open_stream-Opened x run stream db made in
    elim (append_locked-cases x s run stream append_id entries row mid locked) [
      | inl (_, _, _, _, _, e) ↦ ap (λ (d : Tables). seqs r t d.records) e ∙ ap (seqs r t) same
      | inr (_, written) ↦
          let (_, _, _, _, w) =
            write_batch-Written x s run stream append_id entries row.next_seq mid written in
          ground (arith, w r t, ap (seqs r t) same)
    ]

append_entries-tx :
    (x : Outside) (s : Service) (run : ℕ) (stream append_id : Bytes) (entries : List Entry)
    (db : Tables) {db' : Tables} {range : Range}
    → append_entries x s run stream append_id entries db ≡ ok (db', range)
    → append_tx x s run stream append_id entries db ≡ ok (db', range)
unfolding append_entries
append_entries-tx x s run stream append_id entries db h = ground arith

validate_run-scope :
    (x : Outside) (s : Service) (scope : CheckpointScope) (id : Bytes) {run : ℕ}
    → validate_run x s (some scope) id ≡ ok run
    → (run ≡ scope.run) × (x.parse_uuid id ≡ some run)
unfolding validate_run
validate_run-scope x s scope id h = (ground arith, ground arith)

check_checkpoint_scope-scope :
    (scope : CheckpointScope) (run : ℕ) (stream : Bytes) (entries : List Entry)
    → check_checkpoint_scope (some scope) run stream (keys_of entries) ≡ ok tt
    → (run ≡ scope.run) × (stream ≡ checkpoint) × AllHavePrefix scope.prefix entries
unfolding check_checkpoint_scope
check_checkpoint_scope-scope scope run stream entries h = (
  ground arith,
  equal-eq stream checkpoint (ground arith),
  check_keys-AllHavePrefix scope.prefix entries (ground arith),
)

-- What a task may touch by a batch: keys with its action's prefix in its own run's checkpoints.
abbrev pub Confined :
    Outside → CheckpointScope → Bytes → Bytes → List Entry → Tables → Tables → Type 0
Confined x scope run_id stream entries db db' =
    (x.parse_uuid run_id ≡ some scope.run)
    × (stream ≡ checkpoint)
    × AllHavePrefix scope.prefix entries
    × ((r : ℕ) (t : Bytes)
        → at r t scope.run checkpoint ≡ false
        → seqs r t db'.records ≡ seqs r t db.records)

-- A call of `Append` by a task that succeeds is one on the checkpoints of the task's run, with keys
-- of the task's action only, and adds no record to another stream.
pub append-Confined :
    (x : Outside) (s : Service) (scope : CheckpointScope) (run_id stream append_id : Bytes)
    (entries : List Entry) (db : Tables) {db' : Tables} {range : Range}
    → append x s (some scope) run_id stream append_id entries db ≡ ok (db', range)
    → Confined x scope run_id stream entries db db'
unfolding append
append-Confined x s scope run_id stream append_id entries db {db'} {range} h =
    let (run, valid, rest) =
      bind-ok (validate_run x s (some scope) run_id)
        (λ (run : ℕ). check_checkpoint_scope (some scope) run stream (keys_of entries) >>= λ _.
          append_entries x s run stream append_id entries db)
        h in
    let (e, parsed) = validate_run-scope x s scope run_id valid in
    let (_, checked, written) =
      bind-ok (check_checkpoint_scope (some scope) run stream (keys_of entries))
        (λ _. append_entries x s run stream append_id entries db) rest in
    let (_, named, prefixed) = check_checkpoint_scope-scope scope run stream entries checked in
    (
      parsed ∙ ap (λ (r : ℕ). some r) e,
      named,
      prefixed,
      λ r t other.
          append_tx-others x s run stream append_id entries db
            (append_entries-tx x s run stream append_id entries db written) r t
            (ap (λ (k : ℕ). at r t k stream) e ∙ ap (at r t scope.run) named ∙ other),
    )
