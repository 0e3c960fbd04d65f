-- ===== src/Graph/Run.antt =====
-- `Run` of internal/graphexec/executor.go: what it checks before it starts, and one turn of its loop.
use lutra.Prelude.{
  ℕ, true, not, ◌&&◌, List, [], ◌∷◌, Option, none, some, if◌then◌else◌, ltb, length, ◌==◌,
}
use lutra.Prelude.Map.{Map, lookup}
use lutra.Graph.Types.{Failure, errors_new, Node, Options, Executor, terminal, is_done, is_pending}
use lutra.Graph.Commit.{start_timer}
use lutra.Graph.Close.{Visits, uuid_nil, close}
use lutra.Graph.Dispatch.{dispatch}
use lutra.Graph.Validate.{valid, invalid, out_of_fuel, validate}

-- The loop that looks for the root; `none` is the error "graph has multiple roots".
unfoldable pub find_root : Map Node → List ℕ → ℕ → Option ℕ
find_root nodes [] root = some root
find_root nodes (id ∷ order) root = elim (lookup id nodes) [
  | none ↦ find_root nodes order root
  | some n ↦ elim n.parent_id [
    | some p ↦ find_root nodes order root
    | none ↦ if root == uuid_nil then find_root nodes order id else none
  ]
]

-- The timer of a pending node that is not due yet.
unfoldable pub start_timer_of : (now id : ℕ) → Executor → Executor
unfolding start_timer
start_timer_of now id e = elim (lookup id e.nodes) [
  | none ↦ e
  | some n ↦
      if is_pending n.state && ltb now n.next_attempt_at
      then start_timer id n.attempt n.next_attempt_at e
      else e
]

unfoldable pub start_timers : (now : ℕ) → List ℕ → Executor → Executor
unfolding start_timer_of
start_timers now [] e = e
start_timers now (id ∷ order) e = start_timers now order (start_timer_of now id e)

pub data Started : Type 0 where
  refused : Failure → Started
  -- the loop begins, with the root that was found
  looping : (root : ℕ) → Started

abbrev canceled_run : Executor → Executor
canceled_run e = record e { stopped = true }

-- `Run` up to its loop. `order` is the order of each of the three loops over the graph.
unfoldable pub start_run : (now : ℕ) → List ℕ → Executor → Executor × Started
unfolding validate find_root start_timers
start_run now order e =
    let e' = record e { started = true } in
    if e.started
    then (e, refused (errors_new "executor already started"))
    else elim (validate order e') [
      | invalid x ↦ (canceled_run e', refused x)
      | out_of_fuel ↦ (canceled_run e', refused (errors_new "out of fuel"))
      | valid ↦ elim (find_root e'.nodes order uuid_nil) [
        | none ↦ (canceled_run e', refused (errors_new "graph has multiple roots"))
        | some root ↦
            if ltb 0 (length e'.nodes) && root == uuid_nil
            then (canceled_run e', refused (errors_new "graph has no root"))
            else (start_timers now order e', looping root)
      ]
    ]

pub data Turn : Type 0 where
  -- the loop's function returns this error
  ends : Option Failure → Turn
  -- the goroutines of these nodes start, and the loop waits for `wake` or the context
  waits : (spawned : List ℕ) → Turn

-- `root == uuid.Nil || e.nodes[root].State.Terminal()`, and the error that the loop then returns.
unfoldable pub root_outcome : Map Node → ℕ → Option (Option Failure)
root_outcome nodes root = if root == uuid_nil then some none else elim (lookup root nodes) [
  | none ↦ none
  | some n ↦
      if not (terminal n.state)
      then none
      else if is_done n.state
      then some none
      else some (some (errors_new n.error))
]

abbrev or_else : Option Failure → Option Failure → Option Failure
or_else (some x) y = some x
or_else none y = y

-- The end of the loop: the nodes that have not ended are canceled, and the error of that comes first.
unfoldable pub end_run : Options → ℕ → Visits → Option Failure → Executor → Executor × Turn
unfolding close
end_run o now v err e =
    let (e', x) = close o now v uuid_nil "root action completed" e in (e', ends (or_else x err))

unfoldable pub dispatch_turn : Options → ℕ → (ℕ → List ℕ) → Executor → Executor × Turn
unfolding dispatch
dispatch_turn o now order e = let r = dispatch o now order e in (r.exec, waits r.spawned)

-- One turn of the loop, up to its `select`. `context_error` is `e.ctx.Err()` when it is not nil.
unfoldable pub run_turn :
    Options → ℕ → Visits → (ℕ → List ℕ) → (context_error : Failure) → ℕ → Executor → Executor × Turn
unfolding root_outcome end_run dispatch_turn
run_turn o now v order context_error root e = elim e.err [
  | some x ↦ (e, ends (some x))
  | none ↦ if e.stopped then (e, ends (some context_error)) else elim (root_outcome e.nodes root) [
    | some err ↦ end_run o now v err e
    | none ↦ dispatch_turn o now order e
  ]
]
