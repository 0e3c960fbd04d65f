-- ===== src/Graph/Examples.antt =====
-- Runs of the executor on small graphs.
use lutra.Prelude.{ℕ, List, [], ◌∷◌, Option, none, some, false, ◌≡◌, refl, arith}
use lutra.Prelude.Map.{lookup, insert, delete}
use lutra.Graph.Types.{
  State, pending, done, failed, canceled, nothing, Failure, errors_new, Node, Transition, Options,
  Executor, default_backoff,
}
use lutra.Graph.Close.{Visits}
use lutra.Graph.Calls.{new}
use lutra.Graph.Sections.{Entry, starts, turns, begins, acquired, finishes, run_schedule}
use lutra.Graph.Evolve.Sections.{new-KeysMatch}
use lutra.Graph.Safety.Final.{Remains, Frozen, run_schedule-Remains, run_schedule-Frozen}
use lutra.Graph.Safety.Durable.{Durable, new-Durable, run_schedule-Durable}
use lutra.Graph.Execute.{begin, start_attempt, finish}
use lutra.Graph.Dispatch.{dispatch}
use lutra.Graph.Run.{start_run, run_turn}
use lutra.Graph.System.{
  System, Reach, fresh, here, later, executing, spawned, running, exited, acquired as acquired_slot,
}
use lutra.Graph.System
use lutra.Graph.Slots.Invariant.{Slotted}
use lutra.Graph.Slots.Safety.{new-Reach-Slotted, AllExited-used}

abbrev node : ℕ → Option ℕ → List ℕ → Node
node id parent prerequisites = record {
  id = id;
  parent_id = parent;
  attempt = 0;
  failures = 0;
  max_attempts = 2;
  state = pending;
  waiting_on = nothing;
  image_key = [];
  output = [];
  cache_key = [];
  cache_hit = false;
  error = "";
  next_attempt_at = 0;
  prerequisites = prerequisites;
}

-- A store that accepts everything, and two slots.
abbrev accept : List Transition → Transition → Option Failure
accept log t = none

abbrev options : Options
options = record {
  run_id = 7;
  claim_token = 8;
  slots = 2;
  store = some accept;
  has_images = false;
  has_cache = false;
  retry_backoff = default_backoff;
}

-- A root, and a child that waits for no other.
abbrev family : List Node
family = node 1 none [] ∷ node 2 (some 1) [] ∷ []

abbrev visits : Visits
visits = record { children = λ id. 1 ∷ 2 ∷ []; closing = λ ids. ids }

-- The root starts, runs its first attempt and ends with an output.
abbrev plan : List Entry
plan =
    (0, visits, starts (1 ∷ 2 ∷ []))
    ∷ (1, visits, turns (λ k. 1 ∷ []) (errors_new "context canceled") 1)
    ∷ (2, visits, begins 1)
    ∷ (3, visits, acquired 1)
    ∷ (4, visits, finishes 1 0 1 (9 ∷ []) none)
    ∷ []

abbrev state_of : ℕ → Executor → Option State
state_of id e = elim (lookup id e.nodes) [ none ↦ none | some n ↦ some n.state ]

root_ends : state_of 1 (run_schedule options plan (new family)) ≡ some done
unfolding run_schedule new lookup insert delete
root_ends = refl

-- Its child, which has not run, is canceled with it.
child_ends : state_of 2 (run_schedule options plan (new family)) ≡ some canceled
unfolding run_schedule new lookup insert delete
child_ends = refl

-- A graph whose child has been done by an earlier owner of the run.
abbrev finished : Node
finished = record (node 2 (some 1) []) { state = done }

abbrev resumed : List Node
resumed = node 1 none [] ∷ finished ∷ []

run_schedule-Remains_example :
    Remains (new resumed) (run_schedule options plan (new resumed)) 2 finished
unfolding new lookup insert
run_schedule-Remains_example =
    run_schedule-Remains options plan (new resumed) 2 finished (new-KeysMatch resumed) refl

-- A snapshot that names a node twice gives the executor an error from the start.
abbrev doubled : List Node
doubled = node 1 none [] ∷ node 1 none [] ∷ []

run_schedule-Frozen_example : Frozen (new doubled) (run_schedule options plan (new doubled))
unfolding new lookup insert
run_schedule-Frozen_example =
    run_schedule-Frozen options plan (new doubled) (errors_new "graph has duplicate node IDs")
      (new-KeysMatch doubled) refl

run_schedule-Durable_example : Durable (run_schedule options plan (new family))
run_schedule-Durable_example =
    run_schedule-Durable options accept refl plan (new family) (new-KeysMatch family)
      (new-Durable family)

-- The graph with one node, whose goroutine is started by the first turn of the loop.
abbrev single : List Node
single = node 1 none [] ∷ []

abbrev begun : System
begun = record { exec = (start_run 0 (1 ∷ []) (new single)).0; used = 0; threads = [] }

-- A pool of size 0, which has one slot.
abbrev tight : Options
tight = record options { slots = 0 }

abbrev idle : System
idle = record {
  exec = (run_turn tight 1 visits (λ k. 1 ∷ []) (errors_new "stop") 1 begun.exec).0;
  used = 0;
  threads = executing 1 spawned ∷ [];
}

-- The goroutine takes the slot,
abbrev slot_taken : System
slot_taken = record {
  exec = (begin tight 2 1 idle.exec).0;
  used = 1;
  threads = executing 1 acquired_slot ∷ [];
}

-- starts an attempt, whose object holds it,
abbrev attempting : System
attempting = record {
  exec = (start_attempt tight 3 1 slot_taken.exec).0;
  used = 1;
  threads = executing 1 (running 0 1) ∷ [];
}

attempting-Reach : Reach tight (fresh (new single)) attempting
unfolding begin start_attempt run_turn start_run new lookup insert
attempting-Reach =
    later
      (later
        (later
          (later (later here (System.starts 0 (1 ∷ [])))
            (System.turns 1 visits (λ k. 1 ∷ []) (errors_new "stop") 1))
          (System.begins 2 0 1 refl))
        (System.acquires_slot 0 1 refl (omega arith)))
      (System.starts_attempt 3 0 1 refl)

new-Reach-Slotted_example : Slotted tight attempting
new-Reach-Slotted_example = new-Reach-Slotted tight single attempting attempting-Reach

-- and gives it back when the attempt has ended.
abbrev over : System
over = record {
  exec = finish tight 4 visits 1 0 1 (9 ∷ []) none attempting.exec;
  used = 0;
  threads = exited ∷ [];
}

over-Reach : Reach tight (fresh (new single)) over
unfolding begin start_attempt finish run_turn start_run new lookup insert delete
over-Reach = later attempting-Reach (System.finishes 4 visits 0 1 0 1 (9 ∷ []) none refl refl)

AllExited-used_example : over.used ≡ 0
AllExited-used_example = AllExited-used tight single over over-Reach (refl, tt)

-- A node with two failed prerequisites.
abbrev failed_node : ℕ → Node
failed_node id = record (node id none []) { state = failed }

abbrev blocked : List Node
blocked = node 1 none (2 ∷ 3 ∷ []) ∷ failed_node 2 ∷ failed_node 3 ∷ []

-- The states from which the transitions of one dispatch start, the newest first: the second starts
-- from a node that has ended.
abbrev froms : List Transition → List State
froms [] = []
froms (t ∷ ts) = t.from ∷ froms ts

fails_twice :
    froms (dispatch options 0 (λ k. 1 ∷ 2 ∷ 3 ∷ []) (new blocked)).exec.accepted
    ≡ failed ∷ pending ∷ []
unfolding dispatch new lookup insert
fails_twice = refl
