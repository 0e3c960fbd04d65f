-- ===== src/Graph/Slots/Frame.antt =====
-- The sections that leave the slots of the objects, and the map of the active attempts, alone.
use lutra.Prelude.{
  ℕ, zero, suc, true, false, not, ◌||◌, String, List, [], ◌∷◌, Option, none, some, ◌≡◌, refl, ◌∙◌,
  map, modify, arith, inl, inr, Option-cases, if_ind, ltb, length,
}
use lutra.Prelude.Map.{lookup}
use lutra.Graph.Types.{terminal, is_pending, Failure, Node, Options, Active, Executor}
use lutra.Graph.Commit.{commit, cancel_active}
use lutra.Graph.Close.{
  Visits, close_node, close_nodes, close, cancel_run, cancel_node, then_descendants, cancel_subtree,
}
use lutra.Graph.Dispatch.{
  Round, after_commit, prerequisite_failed, check_prerequisite, check_prerequisites, make_ready,
  visit, sweep, rounds, not_done, ended, first_round, dispatch,
}
use lutra.Graph.System.{helds}

pub record Keeps (e e' : Executor) : Type 0 where
  pub same_helds : helds e' ≡ helds e
  pub same_active : e'.active ≡ e.active

pub Keeps-refl : (e : Executor) → Keeps e e
Keeps-refl e = record { same_helds = refl; same_active = refl }

pub Keeps-trans : {a b c : Executor} → Keeps a b → Keeps b c → Keeps a c
Keeps-trans p q = record {
  same_helds = q.same_helds ∙ p.same_helds;
  same_active = q.same_active ∙ p.same_active;
}

pub helds-modify_cancel :
    (h : ℕ) (xs : List Active)
    → map (λ a. a.held) (modify h (λ a. record a { canceled = true }) xs) ≡ map (λ a. a.held) xs
helds-modify_cancel h [] = refl
helds-modify_cancel zero (x ∷ xs) = refl
helds-modify_cancel (suc h) (x ∷ xs) = ground (arith, helds-modify_cancel h xs)

pub cancel_active-Keeps : (id : ℕ) (e : Executor) → Keeps e (cancel_active id e)
unfolding cancel_active
cancel_active-Keeps id e = elim (Option-cases (lookup id e.active)) [
  | inl absent ↦ rw (absent, cancel_active) (Keeps-refl e)
  | inr (h, p) ↦
      rw (p, cancel_active)
        (record { same_helds = helds-modify_cancel h e.objects; same_active = refl })
]

module _ (o : Options) (now : ℕ) where
  pub commit-Keeps : (next : Node) (e : Executor) → Keeps e (commit o now next e).0
  unfolding commit
  commit-Keeps next e = record { same_helds = ground arith; same_active = ground arith }

  close_node-Keeps :
      (reason : String) (id : ℕ) (e : Executor) → Keeps e (close_node o now reason id e).0
  unfolding close_node
  close_node-Keeps reason id e = elim (Option-cases (lookup id e.nodes)) [
    | inl absent ↦ rw (absent, close_node) (Keeps-refl e)
    | inr (n, h) ↦
        rw (h, close_node)
          (if_ind (λ (r : Executor × Option Failure). Keeps e r.0) (terminal n.state)
            (λ _. Keeps-refl e)
            (λ _. Keeps-trans (cancel_active-Keeps id e) (commit-Keeps _ (cancel_active id e))))
  ]

  close_nodes-Keeps :
      (reason : String) (ids : List ℕ) (e : Executor) → Keeps e (close_nodes o now reason ids e).0
  unfolding close_nodes
  close_nodes-Keeps reason [] e = Keeps-refl e
  close_nodes-Keeps reason (id ∷ ids) e = elim (Option-cases (close_node o now reason id e).1) [
    | inl ok ↦
        rw (ok, close_nodes)
          (Keeps-trans (close_node-Keeps reason id e)
            (close_nodes-Keeps reason ids (close_node o now reason id e).0))
    | inr (x, bad) ↦ rw (bad, close_nodes) (close_node-Keeps reason id e)
  ]

  pub close-Keeps :
      (v : Visits) (parent : ℕ) (reason : String) (e : Executor)
      → Keeps e (close o now v parent reason e).0
  unfolding close
  close-Keeps v parent reason e = close_nodes-Keeps reason _ e

  pub cancel_run-Keeps : (v : Visits) (e : Executor) → Keeps e (cancel_run o now v e)
  unfolding cancel_run
  cancel_run-Keeps v e =
      Keeps-trans (close-Keeps v 0 "run canceled" e)
        (record { same_helds = ground arith; same_active = ground arith })

  cancel_node-Keeps : (n : Node) (id : ℕ) (e : Executor) → Keeps e (cancel_node o now n id e).0
  unfolding cancel_node
  cancel_node-Keeps n id e =
      if_ind (λ (r : Executor × Option Failure). Keeps e r.0) (terminal n.state) (λ _. Keeps-refl e)
        (λ _. Keeps-trans (cancel_active-Keeps id e) (commit-Keeps _ (cancel_active id e)))

  then_descendants-Keeps :
      (v : Visits) (id : ℕ) (e : Executor) (x : Executor × Option Failure)
      → Keeps e x.0
      → Keeps e (then_descendants o now v id x).0
  unfolding then_descendants
  then_descendants-Keeps v id e (f, none) first =
      Keeps-trans first (close-Keeps v id "ancestor canceled" f)
  then_descendants-Keeps v id e (f, some x) first = first

  pub cancel_subtree-Keeps :
      (v : Visits) (id : ℕ) (e : Executor) → Keeps e (cancel_subtree o now v id e).0
  unfolding cancel_subtree
  cancel_subtree-Keeps v id e = elim (Option-cases (lookup id e.nodes)) [
    | inl absent ↦ rw (absent, cancel_subtree) (Keeps-refl e)
    | inr (n, h) ↦
        rw (h, cancel_subtree) (then_descendants-Keeps v id e _ (cancel_node-Keeps n id e))
  ]

  after_commit-Keeps :
      (e : Executor) (r s : Round) (x : Executor × Option Failure)
      → Keeps e x.0
      → Keeps e (after_commit r x s).exec
  after_commit-Keeps e r s (f, none) k = k
  after_commit-Keeps e r s (f, some x) k = k

  check_prerequisites-Keeps :
      (current : Node) (ps : List ℕ) (r : Round)
      → Keeps r.exec (check_prerequisites o now current ps r).exec
  unfolding check_prerequisites check_prerequisite
  check_prerequisites-Keeps current [] r = Keeps-refl r.exec
  check_prerequisites-Keeps current (p ∷ ps) r =
      let P = λ (s : Round). Keeps r.exec s.exec in
      Keeps-trans
        (if_ind P r.returned (λ _. Keeps-refl r.exec)
          λ _.
            if_ind P (not (not_done (lookup p r.exec.nodes))) (λ _. Keeps-refl r.exec)
              λ _.
                if_ind P (not (ended (lookup p r.exec.nodes))) (λ _. Keeps-refl r.exec)
                  λ _.
                    after_commit-Keeps r.exec (record r { ready = false })
                      (record r { ready = false; propagated = true })
                      (commit o now (prerequisite_failed current) r.exec)
                      (commit-Keeps (prerequisite_failed current) r.exec))
        (check_prerequisites-Keeps current ps _)

  visit-Keeps : (id : ℕ) (r : Round) → Keeps r.exec (visit o now id r).exec
  unfolding visit make_ready
  visit-Keeps id r = elim (Option-cases (lookup id r.exec.nodes)) [
    | inl absent ↦ rw (absent, visit) (Keeps-refl r.exec)
    | inr (n, h) ↦
        let P = λ (s : Round). Keeps r.exec s.exec in
        rw (h, visit)
          (if_ind P (not (is_pending n.state) || ltb now n.next_attempt_at) (λ _. Keeps-refl r.exec)
            λ _.
              let s = check_prerequisites o now n n.prerequisites (record r { ready = true }) in
              let first : Keeps r.exec s.exec = check_prerequisites-Keeps n n.prerequisites _ in
              if_ind P (s.returned || not s.ready) (λ _. first)
                (λ _. after_commit-Keeps r.exec s _ _ (Keeps-trans first (commit-Keeps _ s.exec))))
  ]

  sweep-Keeps : (order : List ℕ) (r : Round) → Keeps r.exec (sweep o now order r).exec
  unfolding sweep
  sweep-Keeps [] r = Keeps-refl r.exec
  sweep-Keeps (id ∷ order) r =
      Keeps-trans
        (if_ind (λ (s : Round). Keeps r.exec s.exec) r.returned (λ _. Keeps-refl r.exec)
          (λ _. visit-Keeps id r))
        (sweep-Keeps order _)

  rounds-Keeps :
      (order : ℕ → List ℕ) (fuel : ℕ) (r : Round) → Keeps r.exec (rounds o now order fuel r).exec
  unfolding rounds
  rounds-Keeps order zero r = Keeps-refl r.exec
  rounds-Keeps order (suc fuel) r =
      let s = sweep o now (order fuel) (record r { propagated = false }) in
      let first : Keeps r.exec s.exec = sweep-Keeps (order fuel) _ in
      if_ind (λ (t : Round). Keeps r.exec t.exec) (s.returned || not s.propagated) (λ _. first)
        (λ _. Keeps-trans first (rounds-Keeps order fuel s))

  pub dispatch-Keeps : (order : ℕ → List ℕ) (e : Executor) → Keeps e (dispatch o now order e).exec
  unfolding dispatch
  dispatch-Keeps order e = rounds-Keeps order (suc (length e.nodes)) (first_round e)
