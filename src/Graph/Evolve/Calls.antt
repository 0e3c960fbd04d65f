-- ===== src/Graph/Evolve/Calls.antt =====
-- `Add`, `Wait`, `resume`, `Run` and the timers as sequences of steps.
use lutra.Prelude.{
  ℕ, Bool, true, false, not, ◌||◌, List, [], ◌∷◌, Option, none, some, ◌≡◌, refl, arith, ◌⊎◌, inl,
  inr, Option-cases, if_ind,
}
use lutra.Prelude.Map.{lookup}
use lutra.Graph.Types.{running, nothing, terminal, Failure, Node, Options, Active, Timer, Executor}
use lutra.Graph.Commit.{fire}
use lutra.Graph.Close.{Visits, uuid_nil, close}
use lutra.Graph.Dispatch.{dispatch}
use lutra.Graph.Calls.{
  adopt, add, has_parent, Waiting, park_end, park, admitted, enter_wait, leave_wait, set_held,
  is_active_object, object_gone, end_resume,
}
use lutra.Graph.Run.{
  start_timer_of, start_timers, start_run, run_turn, end_run, dispatch_turn, root_outcome,
}
use lutra.Graph.Evolve.Defs.{Evolves, quiet, adopts, joins, KeysMatch}
use lutra.Graph.Evolve.Close.{commit-Evolves, close-Evolves}
use lutra.Graph.Evolve.Dispatch.{dispatch-Evolves}

module _ (o : Options) (now : ℕ) where
  pub fire-Evolves : (t : Timer) (e : Executor) → Evolves o e (fire t e)
  unfolding fire
  fire-Evolves t e = quiet (ground arith) (ground arith) (ground arith)

  pub leave_wait-Evolves : (h : ℕ) (e : Executor) → Evolves o e (leave_wait h e)
  unfolding leave_wait
  leave_wait-Evolves h e = quiet refl refl refl

  add_cases :
      (ctx : Option Failure) (parent attempt : ℕ) (node : Node) (e : Executor)
      → ((add now ctx parent attempt node e).0 ≡ e)
        ⊎ (((add now ctx parent attempt node e).0 ≡ adopt now parent node e)
            × (e.err ≡ none)
            × (lookup node.id e.nodes ≡ none))
  unfolding add
  add_cases ctx parent attempt node e = ground arith

  pub add-Evolves :
      (ctx : Option Failure) (parent attempt : ℕ) (node : Node) (e : Executor)
      → Evolves o e (add now ctx parent attempt node e).0
  add-Evolves ctx parent attempt node e = elim (add_cases ctx parent attempt node e) [
    | inl same ↦ rw same (quiet refl refl refl)
    | inr (joined, accepting, fresh) ↦ rw joined (adopts now parent node fresh accepting)
  ]

  park_end-Evolves :
      (h : ℕ) (e : Executor) (x : Executor × Option Failure)
      → Evolves o e x.0
      → Evolves o e (park_end h x).0
  unfolding park_end
  park_end-Evolves h e (f, none) first = joins first (quiet refl refl refl)
  park_end-Evolves h e (f, some x) first = first

  park-Evolves :
      (parent : ℕ) (p : Node) (h : ℕ) (a : Active) (e : Executor)
      → KeysMatch e.nodes
      → lookup parent e.nodes ≡ some p
      → terminal p.state ≡ false
      → Evolves o e (park o now p h a e).0
  unfolding park
  park-Evolves parent p h a e k l live =
      if_ind (λ (r : Executor × Waiting). Evolves o e r.0) (not a.held) (λ _. quiet refl refl refl)
        λ held. park_end-Evolves h e _ (commit-Evolves o now e parent p _ k l (ground arith))

  -- The parent of an admitted call is in the graph and has not ended.
  admitted_parent :
      (parent attempt : ℕ) (e : Executor) (p : Node) (h : ℕ) (a : Active)
      → admitted parent attempt e ≡ some (p, h, a)
      → (lookup parent e.nodes ≡ some p) × (terminal p.state ≡ false)
  unfolding admitted
  admitted_parent parent attempt e p h a q = ground arith

  pub enter_wait-Evolves :
      (parent attempt child : ℕ) (e : Executor)
      → KeysMatch e.nodes
      → Evolves o e (enter_wait o now parent attempt child e).0
  unfolding enter_wait
  enter_wait-Evolves parent attempt child e k = elim (Option-cases (admitted parent attempt e)) [
    | inl no_call ↦ rw (no_call, enter_wait) (quiet refl refl refl)
    | inr ((p, h, a), q) ↦ elim (Option-cases (lookup child e.nodes)) [
      | inl absent ↦ rw (q, absent, enter_wait) (quiet refl refl refl)
      | inr (n, r) ↦
          let (l, live) = admitted_parent parent attempt e p h a q in
          rw (q, r, enter_wait)
            (if_ind (λ (r : Executor × Waiting). Evolves o e r.0) (not (has_parent n parent))
              (λ _. quiet refl refl refl)
              λ mine.
                if_ind (λ (r : Executor × Waiting). Evolves o e r.0) (terminal n.state)
                  (λ _. quiet refl refl refl) (λ _. park-Evolves parent p h a e k l live))
    ]
  ]

  pub end_resume-Evolves :
      (parent h : ℕ) (e : Executor)
      → KeysMatch e.nodes
      → Evolves o e (end_resume o now parent h e).0
  unfolding end_resume set_held
  end_resume-Evolves parent h e k = elim (Option-cases (lookup parent e.nodes)) [
    | inl absent ↦ rw (absent, end_resume) (quiet refl refl refl)
    | inr (p, q) ↦
        rw (q, end_resume)
          (if_ind (λ (r : Executor × Bool × Option Failure). Evolves o e r.0)
            (not (is_active_object parent h e) || terminal p.state || object_gone h e)
            (λ _. quiet refl refl refl)
            λ go.
              let taken : Evolves o e (set_held h true e) = quiet refl refl refl in
              joins taken (
                commit-Evolves o now (set_held h true e) parent p
                  (record p { state = running; waiting_on = nothing }) k q (ground arith)))
  ]

  start_timer-Evolves : (id : ℕ) (e : Executor) → Evolves o e (start_timer_of now id e)
  unfolding start_timer_of
  start_timer-Evolves id e = quiet (ground arith) (ground arith) (ground arith)

  start_timers-Evolves : (order : List ℕ) (e : Executor) → Evolves o e (start_timers now order e)
  unfolding start_timers
  start_timers-Evolves [] e = quiet refl refl refl
  start_timers-Evolves (id ∷ order) e =
      joins (start_timer-Evolves id e) (start_timers-Evolves order (start_timer_of now id e))

  pub start_cases :
      (order : List ℕ) (e : Executor)
      → let e' = record e { started = true } in
        let r = (start_run now order e).0 in
        (r ≡ e') ⊎ (r ≡ record e' { stopped = true }) ⊎ (r ≡ start_timers now order e') ⊎ (r ≡ e)
  unfolding start_run
  start_cases order e = ground arith

  pub start_run-Evolves : (order : List ℕ) (e : Executor) → Evolves o e (start_run now order e).0
  start_run-Evolves order e = elim (start_cases order e) [
    | inl p ↦ rw p (quiet refl refl refl)
    | inr (inl p) ↦ rw p (quiet refl refl refl)
    | inr (inr (inl p)) ↦
        rw p
          (joins (quiet refl refl refl) (start_timers-Evolves order (record e { started = true })))
    | inr (inr (inr p)) ↦ rw p (quiet refl refl refl)
  ]

  pub run_turn_cases :
      (v : Visits) (order : ℕ → List ℕ) (x : Failure) (root : ℕ) (e : Executor)
      → let r = (run_turn o now v order x root e).0 in
        (r ≡ e)
        ⊎ (r ≡ (close o now v uuid_nil "root action completed" e).0)
        ⊎ (r ≡ (dispatch o now order e).exec)
  unfolding run_turn end_run dispatch_turn
  run_turn_cases v order x root e = elim (Option-cases e.err) [
    | inr (y, bad) ↦ inl (ground arith)
    | inl ok ↦ elim (Option-cases (root_outcome e.nodes root)) [
      | inl going ↦ ground arith
      | inr (err, over) ↦ ground arith
    ]
  ]

  pub run_turn-Evolves :
      (v : Visits) (order : ℕ → List ℕ) (x : Failure) (root : ℕ) (e : Executor)
      → KeysMatch e.nodes
      → Evolves o e (run_turn o now v order x root e).0
  run_turn-Evolves v order x root e k = elim (run_turn_cases v order x root e) [
    | inl p ↦ rw p (quiet refl refl refl)
    | inr (inl p) ↦ rw p (close-Evolves o now v uuid_nil "root action completed" e k)
    | inr (inr p) ↦ rw p (dispatch-Evolves o now order e k)
  ]
