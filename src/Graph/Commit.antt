-- ===== src/Graph/Commit.antt =====
-- `notifyLocked`, `commitLocked` and `timerLocked` of internal/graphexec/executor.go. `clone` copies
-- a node, which a value needs no code for.
use lutra.Prelude.{ℕ, ◌+◌, true, ◌||◌, ◌∷◌, Option, none, some, if◌then◌else◌, modify, ◌&&◌, ◌==◌}
use lutra.Prelude.Map.{lookup, insert}
use lutra.Graph.Types.{Failure, errors_new, Node, Transition, Options, Timer, Executor, is_pending}

unfoldable pub notify : Executor → Executor
notify e = record e { changed = e.changed + 1; wake = true }

-- What `commitLocked` hands to the store, `old` being the node as it is in the graph.
unfoldable pub transition : Options → ℕ → Node → Node → Transition
transition o now old next = record {
  run_id = o.run_id;
  claim_token = o.claim_token;
  node_id = next.id;
  from = old.state;
  state = next.state;
  waiting_on = next.waiting_on;
  attempt = next.attempt;
  failures = next.failures;
  expected_attempt = old.attempt;
  output = next.output;
  error = next.error;
  at = now;
  next_attempt_at = next.next_attempt_at;
  cache_hit = next.cache_hit;
}

-- The panic of `old.State` where the graph has no node of this identifier.
abbrev pub nil_dereference : Failure
nil_dereference = errors_new "invalid memory address or nil pointer dereference"

-- `e.cancel` is set when `Run` starts.
unfoldable pub refuse : Failure → Executor → Executor
unfolding notify
refuse x e = notify (record e { err = some x; stopped = e.stopped || e.started })

unfoldable pub put : Node → Executor → Executor
unfolding notify
put next e = notify (record e { nodes = insert next.id next e.nodes })

-- The part of `commitLocked` behind the test of `e.err`.
unfoldable pub submit : Options → ℕ → Node → Executor → Executor × Option Failure
unfolding transition refuse put
submit o now next e = elim o.store [
  | none ↦ (put next e, none)
  | some store ↦ elim (lookup next.id e.nodes) [
    | none ↦ (e, some nil_dereference)
    | some old ↦
        let t = transition o now old next in
        elim (store e.accepted t) [
          | some x ↦ (refuse x e, some x)
          | none ↦ (put next (record e { accepted = t ∷ e.accepted }), none)
        ]
  ]
]

unfoldable pub commit : Options → ℕ → Node → Executor → Executor × Option Failure
unfolding submit
commit o now next e = elim e.err [ some x ↦ (e, some x) | none ↦ submit o now next e ]

-- `a.cancel()` for the attempt that `e.active` holds for the node, if it holds one.
unfoldable pub cancel_object : ℕ → Executor → Executor
cancel_object h e = record e { objects = modify h (λ a. record a { canceled = true }) e.objects }

unfoldable pub cancel_active : ℕ → Executor → Executor
unfolding cancel_object
cancel_active id e = elim (lookup id e.active) [ none ↦ e | some h ↦ cancel_object h e ]

unfoldable pub start_timer : ℕ → ℕ → ℕ → Executor → Executor
start_timer id attempt at e = record e {
  timers = record { id = id; attempt = attempt; at = at } ∷ e.timers;
}

-- What a timer's goroutine does when its time has come.
unfoldable pub fire : Timer → Executor → Executor
unfolding notify
fire t e = elim (lookup t.id e.nodes) [
  | none ↦ e
  | some n ↦ if n.attempt == t.attempt && is_pending n.state then notify e else e
]
