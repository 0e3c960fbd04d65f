-- ===== src/Graph/Evolve/Sections.antt =====
-- Every section, and every schedule, is a sequence of steps.
use lutra.Prelude.{ℕ, List, [], ◌∷◌, refl}
use lutra.Prelude.Map.{lookup}
use lutra.Graph.Types.{Node, Options, Executor}
use lutra.Graph.Close.{Visits}
use lutra.Graph.Calls.{restored, restore_node, restore, empty_executor, new}
use lutra.Graph.Sections.{
  Section, starts, turns, begins, looked_up, ensured, acquired, finishes, fires, adds, enters_wait,
  leaves_wait, resumes, cancels, cancels_subtree, apply, Entry, run_schedule,
}
use lutra.Graph.Evolve.Defs.{Evolves, quiet, joins, KeysMatch, Evolves-KeysMatch, insert-KeysMatch}
use lutra.Graph.Evolve.Close.{cancel_run-Evolves, cancel_subtree-Evolves}
use lutra.Graph.Evolve.Execute.{
  begin-Evolves, after_lookup-Evolves, after_ensure-Evolves, start_attempt-Evolves, finish-Evolves,
}
use lutra.Graph.Evolve.Calls.{
  fire-Evolves, leave_wait-Evolves, add-Evolves, enter_wait-Evolves, end_resume-Evolves,
  start_run-Evolves, run_turn-Evolves,
}

module _ (o : Options) where
  pub apply-Evolves :
      (now : ℕ) (v : Visits) (s : Section) (e : Executor)
      → KeysMatch e.nodes
      → Evolves o e (apply o now v s e)
  unfolding apply
  apply-Evolves now v (starts order) e k = start_run-Evolves o now order e
  apply-Evolves now v (turns order x root) e k = run_turn-Evolves o now v order x root e k
  apply-Evolves now v (begins id) e k = begin-Evolves o now id e k
  apply-Evolves now v (looked_up id a) e k = after_lookup-Evolves o now v id a e k
  apply-Evolves now v (ensured id x) e k = after_ensure-Evolves o now v id x e k
  apply-Evolves now v (acquired id) e k = start_attempt-Evolves o now id e k
  apply-Evolves now v (finishes id h attempt out err) e k =
      finish-Evolves o now v id h attempt out err e k
  apply-Evolves now v (fires t) e k = fire-Evolves o now t e
  apply-Evolves now v (adds ctx parent attempt node) e k =
      add-Evolves o now ctx parent attempt node e
  apply-Evolves now v (enters_wait parent attempt child) e k =
      enter_wait-Evolves o now parent attempt child e k
  apply-Evolves now v (leaves_wait h) e k = leave_wait-Evolves o now h e
  apply-Evolves now v (resumes parent h) e k = end_resume-Evolves o now parent h e k
  apply-Evolves now v cancels e k = cancel_run-Evolves o now v e k
  apply-Evolves now v (cancels_subtree id) e k = cancel_subtree-Evolves o now v id e k

  pub run_schedule-Evolves :
      (es : List Entry) (e : Executor) → KeysMatch e.nodes → Evolves o e (run_schedule o es e)
  unfolding run_schedule
  run_schedule-Evolves [] e k = quiet refl refl refl
  run_schedule-Evolves ((now, v, s) ∷ rest) e k =
      let first = apply-Evolves now v s e k in
      joins first (run_schedule-Evolves rest (apply o now v s e) (Evolves-KeysMatch first k))

restore-KeysMatch :
    (snapshot : List Node) (e : Executor) → KeysMatch e.nodes → KeysMatch (restore snapshot e).nodes
unfolding restore
restore-KeysMatch [] e k = k
restore-KeysMatch (n ∷ snapshot) e k =
    restore-KeysMatch snapshot (restore_node n e) (insert-KeysMatch (restored n) e.nodes k)

pub new-KeysMatch : (snapshot : List Node) → KeysMatch (new snapshot).nodes
unfolding new lookup
new-KeysMatch snapshot = restore-KeysMatch snapshot empty_executor (λ id n h. cc)
