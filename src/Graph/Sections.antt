-- ===== src/Graph/Sections.antt =====
-- The critical sections of internal/graphexec/executor.go under one name: what any goroutine can do
-- to the executor while it holds `e.mu`. A schedule is a list of them. What a service answers
-- between two sections is an argument of the second.
use lutra.Prelude.{ℕ, List, [], ◌∷◌, Option}
use lutra.Graph.Types.{Failure, Node, Options, Timer, Executor}
use lutra.Graph.Commit.{fire}
use lutra.Graph.Close.{Visits, cancel_run, cancel_subtree}
use lutra.Graph.Execute.{Answer, begin, after_lookup, after_ensure, start_attempt, finish}
use lutra.Graph.Calls.{add, enter_wait, leave_wait, end_resume}
use lutra.Graph.Run.{start_run, run_turn}

pub data Section : Type 0 where
  starts : (order : List ℕ) → Section
  turns : (order : ℕ → List ℕ) (context_error : Failure) (root : ℕ) → Section
  begins : (id : ℕ) → Section
  looked_up : (id : ℕ) → Answer → Section
  ensured : (id : ℕ) → Option Failure → Section
  acquired : (id : ℕ) → Section
  finishes : (id object attempt : ℕ) (out : List ℕ) (err : Option Failure) → Section
  fires : Timer → Section
  adds : (ctx : Option Failure) (parent attempt : ℕ) → Node → Section
  enters_wait : (parent attempt child : ℕ) → Section
  leaves_wait : (object : ℕ) → Section
  resumes : (parent object : ℕ) → Section
  cancels : Section
  cancels_subtree : (id : ℕ) → Section

-- `now` is the time that the clock gives, `v` the orders of the loops of `closeLocked`.
unfoldable pub apply : Options → ℕ → Visits → Section → Executor → Executor
unfolding start_run run_turn begin after_lookup after_ensure start_attempt finish fire add
    enter_wait leave_wait end_resume cancel_run cancel_subtree
apply o now v (starts order) e = (start_run now order e).0
apply o now v (turns order x root) e = (run_turn o now v order x root e).0
apply o now v (begins id) e = (begin o now id e).0
apply o now v (looked_up id a) e = (after_lookup o now v id a e).0
apply o now v (ensured id x) e = (after_ensure o now v id x e).0
apply o now v (acquired id) e = (start_attempt o now id e).0
apply o now v (finishes id h attempt out err) e = finish o now v id h attempt out err e
apply o now v (fires t) e = fire t e
apply o now v (adds ctx parent attempt node) e = (add now ctx parent attempt node e).0
apply o now v (enters_wait parent attempt child) e = (enter_wait o now parent attempt child e).0
apply o now v (leaves_wait h) e = leave_wait h e
apply o now v (resumes parent h) e = (end_resume o now parent h e).0
apply o now v cancels e = cancel_run o now v e
apply o now v (cancels_subtree id) e = (cancel_subtree o now v id e).0

-- One entry of a schedule: the time, the orders, the section.
abbrev pub Entry : Type 0
Entry = ℕ × Visits × Section

unfoldable pub run_schedule : Options → List Entry → Executor → Executor
unfolding apply
run_schedule o [] e = e
run_schedule o ((now, v, s) ∷ rest) e = run_schedule o rest (apply o now v s e)
