-- ===== src/Log/Service.antt =====
-- `Append` and `Read` of internal/runlog/service.go, around `AppendTx`.
use lutra.Prelude.{ℕ, Bool, true, List, [], ◌∷◌, Option, none, some, ◌==◌}
use lutra.Prelude.Bytes.{Bytes}
use lutra.Prelude.Results.{
  Error, new_error, Result, ok, err, ◌>>=◌, ◌>>◌, guard, permission_denied, unavailable, not_found,
}
use lutra.Log.Types.{Service, Entry, Tables, Outside, invalid, select_run, begin_tx, commit_tx}
use lutra.Log.Check.{CheckpointScope, check_checkpoint_scope}
use lutra.Log.Append.{Range, append_tx, attempt}

abbrev unavailable_to_task : Error
unavailable_to_task = new_error permission_denied "log is unavailable to task"

unfoldable pub validate_run : Outside → Service → Option CheckpointScope → Bytes → Result ℕ
validate_run x s scope id = elim (x.parse_uuid id) [
  | none ↦ err (invalid "invalid run id")
  | some run ↦ do
    guard (in_scope scope run) unavailable_to_task
    guard s.has_db (new_error unavailable "log database unavailable")
    attempt x select_run
    guard (x.run_exists run) (new_error not_found "run not found")
    ok run
]
  where
    in_scope : Option CheckpointScope → ℕ → Bool
    in_scope none run = true
    in_scope (some scope) run = run == scope.run

-- The new tables are those of the transaction; on an error they are the old ones.
unfoldable pub append_entries :
    Outside → Service → ℕ → Bytes → Bytes → List Entry → Tables → Result (Tables × Range)
unfolding append_tx
append_entries x s run stream append_id entries db = do
  attempt x begin_tx
  result ← append_tx x s run stream append_id entries db
  attempt x commit_tx
  ok result

abbrev pub keys_of : List Entry → List Bytes
keys_of [] = []
keys_of (entry ∷ entries) = entry.key ∷ keys_of entries

unfoldable pub append :
    Outside
    → Service
    → Option CheckpointScope
    → (run_id stream append_id : Bytes) (entries : List Entry) → Tables
    → Result (Tables × Range)
unfolding validate_run check_checkpoint_scope append_entries
append x s scope run_id stream append_id entries db = do
  run ← validate_run x s scope run_id
  checked ← check_checkpoint_scope scope run stream (keys_of entries)
  append_entries x s run stream append_id entries db
