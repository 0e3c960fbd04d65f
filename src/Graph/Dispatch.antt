-- ===== src/Graph/Dispatch.antt =====
-- `dispatchLocked` of internal/graphexec/executor.go.
use lutra.Prelude.{
  ℕ, zero, suc, Bool, true, false, not, ◌||◌, List, [], ◌∷◌, ◌++◌, Option, none, some,
  if◌then◌else◌, ltb, length,
}
use lutra.Prelude.Map.{lookup}
use lutra.Graph.Types.{
  ready, failed, terminal, is_done, is_pending, nothing, Failure, Node, Options, Executor,
}
use lutra.Graph.Commit.{commit}

-- The variables of the loops: `propagated` and `ready` of the source, the goroutines started so
-- far, and whether a refused commit has made the function return.
pub record Round : Type 0 where
  pub exec : Executor
  pub ready : Bool
  pub propagated : Bool
  pub spawned : List ℕ
  pub returned : Bool

abbrev pub not_done : Option Node → Bool
not_done none = true
not_done (some n) = not (is_done n.state)

-- A prerequisite that is missing, or has ended: with `not_done`, one that can never be done.
abbrev pub ended : Option Node → Bool
ended none = true
ended (some n) = terminal n.state

abbrev pub prerequisite_failed : Node → Node
prerequisite_failed n = record n { state = failed; error = "prerequisite failed" }

-- After a commit in the loops: go on with `r`, or return.
abbrev pub after_commit : Round → Executor × Option Failure → Round → Round
after_commit r (e, none) s = record s { exec = e }
after_commit r (e, some x) s = record r { exec = e; returned = true }

-- One prerequisite of `current`, which is the node as the outer loop has read it.
unfoldable pub check_prerequisite : Options → ℕ → Node → ℕ → Round → Round
unfolding commit
check_prerequisite o now current p r =
    let prereq = lookup p r.exec.nodes in
    let waits = record r { ready = false } in
    if not (not_done prereq)
    then r
    else if not (ended prereq)
    then waits
    else after_commit waits (commit o now (prerequisite_failed current) r.exec)
        (record waits { propagated = true })

unfoldable pub check_prerequisites : Options → ℕ → Node → List ℕ → Round → Round
unfolding check_prerequisite
check_prerequisites o now current [] r = r
check_prerequisites o now current (p ∷ ps) r =
    check_prerequisites o now current ps
      (if r.returned then r else check_prerequisite o now current p r)

-- The end of the loop's body.
unfoldable pub make_ready : Options → ℕ → Node → ℕ → Round → Round
unfolding commit
make_ready o now current id r =
    if r.returned || not r.ready
    then r
    else after_commit r
        (commit o now (record current { state = ready; waiting_on = nothing }) r.exec)
        (record r { spawned = r.spawned ++ id ∷ [] })

-- The loop's body for one node. `now` is the time that the clock gives throughout.
unfoldable pub visit : Options → ℕ → ℕ → Round → Round
unfolding check_prerequisites make_ready
visit o now id r = elim (lookup id r.exec.nodes) [
  | none ↦ r
  | some current ↦
      if not (is_pending current.state) || ltb now current.next_attempt_at
      then r
      else make_ready o now current id
          (check_prerequisites o now current current.prerequisites (record r { ready = true }))
]

-- One range over the graph, in the order given.
unfoldable pub sweep : Options → ℕ → List ℕ → Round → Round
unfolding visit
sweep o now [] r = r
sweep o now (id ∷ order) r = sweep o now order (if r.returned then r else visit o now id r)

-- The outer `for`, with fuel: the last sweep has propagated nothing, or the function has returned,
-- if `propagated` is false or `returned` is true at the end.
unfoldable pub rounds : Options → ℕ → (ℕ → List ℕ) → ℕ → Round → Round
unfolding sweep
rounds o now order zero r = r
rounds o now order (suc fuel) r =
    let r' = sweep o now (order fuel) (record r { propagated = false }) in
    let rest = rounds o now order fuel r' in if r'.returned || not r'.propagated then r' else rest

abbrev pub first_round : Executor → Round
first_round e = record {
  exec = e;
  ready = false;
  propagated = true;
  spawned = [];
  returned = false;
}

unfoldable pub dispatch : Options → ℕ → (ℕ → List ℕ) → Executor → Round
unfolding rounds
dispatch o now order e = rounds o now order (suc (length e.nodes)) (first_round e)
