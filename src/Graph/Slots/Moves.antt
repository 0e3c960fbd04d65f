-- ===== src/Graph/Slots/Moves.antt =====
-- What each section does to the slots of the objects and to the map of the active attempts.
use lutra.Prelude.{
  ℕ, true, not, ◌||◌, ◌&&◌, String, List, [], ◌∷◌, Option, none, some, refl, arith, inl, inr,
  Option-cases, if_ind,
}
use lutra.Prelude.Map.{lookup}
use lutra.Graph.Types.{terminal, is_ready, Failure, Node, Options, Timer, Executor}
use lutra.Graph.Commit.{fire}
use lutra.Graph.Close.{Visits, uuid_nil}
use lutra.Graph.Execute.{
  Next, if_accepted, then_close, is_empty, request_image, begin, Answer, after_lookup, after_ensure,
}
use lutra.Graph.Calls.{add}
use lutra.Graph.Run.{start_run, run_turn, start_timers, start_timer_of}
use lutra.Graph.Evolve.Calls.{start_cases, run_turn_cases}
use lutra.Graph.Slots.Frame.{
  Keeps, Keeps-refl, Keeps-trans, commit-Keeps, close-Keeps, dispatch-Keeps,
}

module _ (o : Options) (now : ℕ) where
  then_close-Keeps :
      (v : Visits) (id : ℕ) (reason : String) (e : Executor) (x : Executor × Option Failure)
      → Keeps e x.0
      → Keeps e (then_close o now v id reason x)
  unfolding then_close
  then_close-Keeps v id reason e (f, none) first =
      Keeps-trans first (close-Keeps o now v id reason f)
  then_close-Keeps v id reason e (f, some x) first = first

  if_accepted-Keeps :
      (e : Executor) (x : Executor × Option Failure) (next : Next)
      → Keeps e x.0
      → Keeps e (if_accepted x next).0
  unfolding if_accepted
  if_accepted-Keeps e (f, none) next first = first
  if_accepted-Keeps e (f, some x) next first = first

  request_image-Keeps : (n : Node) (e : Executor) → Keeps e (request_image o now n e).0
  unfolding request_image
  request_image-Keeps n e =
      if_ind (λ (r : Executor × Next). Keeps e r.0) (not (is_empty n.image_key) && o.has_images)
        (λ _. if_accepted-Keeps e _ _ (commit-Keeps o now _ e)) (λ _. Keeps-refl e)

  pub begin-Keeps : (id : ℕ) (e : Executor) → Keeps e (begin o now id e).0
  unfolding begin
  begin-Keeps id e = elim (Option-cases (lookup id e.nodes)) [
    | inl absent ↦ rw (absent, begin) (Keeps-refl e)
    | inr (n, h) ↦
        let P = λ (r : Executor × Next). Keeps e r.0 in
        rw (h, begin)
          (if_ind P (not (is_ready n.state) || e.stopped) (λ _. Keeps-refl e)
            λ _.
              if_ind P (not (is_empty n.cache_key) && o.has_cache) (λ _. Keeps-refl e)
                (λ _. request_image-Keeps n e))
  ]

  pub after_lookup-Keeps :
      (v : Visits) (id : ℕ) (a : Answer) (e : Executor) → Keeps e (after_lookup o now v id a e).0
  unfolding after_lookup
  after_lookup-Keeps v id a e = elim (Option-cases (lookup id e.nodes)) [
    | inl absent ↦ rw (absent, after_lookup) (Keeps-refl e)
    | inr (n, h) ↦
        let P = λ (r : Executor × Next). Keeps e r.0 in
        rw (h, after_lookup)
          (if_ind P (terminal n.state || e.stopped) (λ _. Keeps-refl e)
            λ _.
              if_ind P a.hit
                (λ _. then_close-Keeps v id "parent action completed" e _ (commit-Keeps o now _ e))
                (λ _. request_image-Keeps n e))
  ]

  pub after_ensure-Keeps :
      (v : Visits) (id : ℕ) (x : Option Failure) (e : Executor)
      → Keeps e (after_ensure o now v id x e).0
  unfolding after_ensure
  after_ensure-Keeps v id x e = elim (Option-cases (lookup id e.nodes)) [
    | inl absent ↦ rw (absent, after_ensure) (Keeps-refl e)
    | inr (n, h) ↦
        let P = λ (r : Executor × Next). Keeps e r.0 in
        rw (h, after_ensure)
          (if_ind P (terminal n.state || e.stopped) (λ _. Keeps-refl e)
            λ _. elim (Option-cases x) [
              | inl ok ↦ rw ok (if_accepted-Keeps e _ _ (commit-Keeps o now _ e))
              | inr (y, bad) ↦
                  rw bad (then_close-Keeps v id "parent action failed" e _ (commit-Keeps o now _ e))
            ])
  ]

  pub fire-Keeps : (t : Timer) (e : Executor) → Keeps e (fire t e)
  unfolding fire
  fire-Keeps t e = record { same_helds = ground arith; same_active = ground arith }

  pub add-Keeps :
      (ctx : Option Failure) (parent attempt : ℕ) (node : Node) (e : Executor)
      → Keeps e (add now ctx parent attempt node e).0
  unfolding add
  add-Keeps ctx parent attempt node e = record {
    same_helds = ground arith;
    same_active = ground arith;
  }

  start_timers-Keeps : (order : List ℕ) (e : Executor) → Keeps e (start_timers now order e)
  unfolding start_timers start_timer_of
  start_timers-Keeps [] e = Keeps-refl e
  start_timers-Keeps (id ∷ order) e =
      Keeps-trans (record { same_helds = ground arith; same_active = ground arith })
        (start_timers-Keeps order (start_timer_of now id e))

  pub start_run-Keeps : (order : List ℕ) (e : Executor) → Keeps e (start_run now order e).0
  start_run-Keeps order e = elim (start_cases o now order e) [
    | inl p ↦ rw p (record { same_helds = refl; same_active = refl })
    | inr (inl p) ↦ rw p (record { same_helds = refl; same_active = refl })
    | inr (inr (inl p)) ↦
        let e' = record e { started = true } in
        rw p (
          Keeps-trans (record { same_helds = refl; same_active = refl })
            (start_timers-Keeps order e'))
    | inr (inr (inr p)) ↦ rw p (Keeps-refl e)
  ]

  pub run_turn-Keeps :
      (v : Visits) (order : ℕ → List ℕ) (x : Failure) (root : ℕ) (e : Executor)
      → Keeps e (run_turn o now v order x root e).0
  run_turn-Keeps v order x root e = elim (run_turn_cases o now v order x root e) [
    | inl p ↦ rw p (Keeps-refl e)
    | inr (inl p) ↦ rw p (close-Keeps o now v uuid_nil "root action completed" e)
    | inr (inr p) ↦ rw p (dispatch-Keeps o now order e)
  ]
