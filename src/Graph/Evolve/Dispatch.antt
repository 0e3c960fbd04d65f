-- ===== src/Graph/Evolve/Dispatch.antt =====
-- `dispatchLocked` as a sequence of steps.
use lutra.Prelude.{
  ℕ, zero, suc, true, false, not, ◌||◌, List, [], ◌∷◌, Option, none, some, ◌≡◌, refl, sym, ◌⊎◌, inl,
  inr, arith, Option-cases, if_ind, ltb, subst, length,
}
use lutra.Prelude.Map.{lookup, lookup-insert}
use lutra.Graph.Types.{is_pending, Failure, Node, Options, Executor}
use lutra.Graph.Commit.{commit}
use lutra.Graph.Dispatch.{
  Round, after_commit, not_done, ended, prerequisite_failed, check_prerequisite,
  check_prerequisites, make_ready, visit, sweep, rounds, first_round, dispatch,
}
use lutra.Graph.Evolve.Defs.{
  Evolves, quiet, commits, joins, KeysMatch, Evolves-KeysMatch, commit_nodes,
}

-- While the prerequisites of `current` are checked, the graph has it as it was read, or failed; and
-- as it was read, if it still counts as ready.
record Current (current : Node) (r : Round) : Type 0 where
  stands :
      (lookup current.id r.exec.nodes ≡ some current)
      ⊎ ((lookup current.id r.exec.nodes ≡ some (prerequisite_failed current)) × (r.ready ≡ false))

module _ (o : Options) (now : ℕ) (current : Node) (live : is_pending current.state ≡ true) where
  fail-Evolves :
      (r : Round)
      → Current current r
      → Evolves o r.exec (commit o now (prerequisite_failed current) r.exec).0
  fail-Evolves r c = elim c.stands [
    | inl p ↦ commits now current.id current _ p refl (ground arith)
    | inr p ↦ commits now current.id (prerequisite_failed current) _ p.0 refl (ground arith)
  ]

  fail-stands :
      (r s : Round)
      → Current current r
      → s.exec ≡ (commit o now (prerequisite_failed current) r.exec).0
      → s.ready ≡ false
      → Current current s
  fail-stands r s c e f = record {
    stands = elim (commit_nodes o now (prerequisite_failed current) r.exec) [
      | inl same ↦ ground (arith, c.stands)
      | inr p ↦ inr (
        ground
            (arith, lookup-insert current.id current.id (prerequisite_failed current) r.exec.nodes),
        f,
      )
    ];
  }

  abbrev Checked : Round → Round → Type 0
  Checked r s = Evolves o r.exec s.exec × Current current s

  after_commit-Checked :
      (r s : Round) (x : Executor × Option Failure)
      → Evolves o r.exec x.0
      → Current current (record s { exec = x.0 })
      → Current current (record r { exec = x.0 })
      → Checked r (after_commit r x s)
  after_commit-Checked r s (e, none) v c d = (v, c)
  after_commit-Checked r s (e, some x) v c d = (v, record { stands = d.stands })

  check_prerequisite-Checked :
      (p : ℕ) (r : Round) → Current current r → Checked r (check_prerequisite o now current p r)
  unfolding check_prerequisite
  check_prerequisite-Checked p r c =
      if_ind (Checked r) (not (not_done (lookup p r.exec.nodes))) (λ _. (quiet refl refl refl, c))
        λ _.
          if_ind (Checked r) (not (ended (lookup p r.exec.nodes)))
            (λ _. (quiet refl refl refl, record { stands = ground (arith, c.stands) }))
            λ _.
              let x = commit o now (prerequisite_failed current) r.exec in
              after_commit-Checked (record r { ready = false }) _ x (fail-Evolves r c)
                (fail-stands r _ c refl refl) (fail-stands r _ c refl refl)

  check_prerequisites-Checked :
      (ps : List ℕ) (r : Round)
      → Current current r
      → Checked r (check_prerequisites o now current ps r)
  unfolding check_prerequisites
  check_prerequisites-Checked [] r c = (quiet refl refl refl, c)
  check_prerequisites-Checked (p ∷ ps) r c =
      let (first, c') =
        if_ind (Checked r) r.returned (λ _. (quiet refl refl refl, c))
          (λ _. check_prerequisite-Checked p r c) in
      let (rest, c'') = check_prerequisites-Checked ps _ c' in (joins first rest, c'')

  after_commit-exec :
      (r s : Round) (x : Executor × Option Failure) → (after_commit r x s).exec ≡ x.0
  after_commit-exec r s (e, none) = refl
  after_commit-exec r s (e, some x) = refl

  make_ready-Evolves :
      (id : ℕ) (r : Round)
      → Current current r
      → Evolves o r.exec (make_ready o now current id r).exec
  unfolding make_ready
  make_ready-Evolves id r c =
      if_ind (λ (s : Round). Evolves o r.exec s.exec) (r.returned || not r.ready)
        (λ _. quiet refl refl refl)
        λ go. rw (after_commit-exec r _ _) (elim c.stands [
          | inl p ↦ commits now current.id current _ p refl (ground arith)
          | inr p ↦ absurd (ground arith)
        ])

module _ (o : Options) (now : ℕ) where
  visit-Evolves :
      (id : ℕ) (r : Round) → KeysMatch r.exec.nodes → Evolves o r.exec (visit o now id r).exec
  unfolding visit
  visit-Evolves id r k = elim (Option-cases (lookup id r.exec.nodes)) [
    | inl absent ↦ rw (absent, visit) (quiet refl refl refl)
    | inr (n, h) ↦
        rw (h, visit)
          (if_ind (λ (s : Round). Evolves o r.exec s.exec)
            (not (is_pending n.state) || ltb now n.next_attempt_at) (λ _. quiet refl refl refl)
            λ due.
              let live : is_pending n.state ≡ true = ground arith in
              let c : Current n (record r { ready = true }) = record {
                stands = inl (subst (λ j. lookup j r.exec.nodes ≡ some n) (sym (k id n h)) h);
              } in
              let (first, c') = check_prerequisites-Checked o now n live n.prerequisites _ c in
              joins first (make_ready-Evolves o now n live id _ c'))
  ]

  sweep-Evolves :
      (order : List ℕ) (r : Round)
      → KeysMatch r.exec.nodes
      → Evolves o r.exec (sweep o now order r).exec
  unfolding sweep
  sweep-Evolves [] r k = quiet refl refl refl
  sweep-Evolves (id ∷ order) r k =
      let first =
        if_ind (λ (s : Round). Evolves o r.exec s.exec) r.returned (λ _. quiet refl refl refl)
          (λ _. visit-Evolves id r k) in
      joins first (sweep-Evolves order _ (Evolves-KeysMatch first k))

  rounds-Evolves :
      (order : ℕ → List ℕ) (fuel : ℕ) (r : Round)
      → KeysMatch r.exec.nodes
      → Evolves o r.exec (rounds o now order fuel r).exec
  unfolding rounds
  rounds-Evolves order zero r k = quiet refl refl refl
  rounds-Evolves order (suc fuel) r k =
      let s = sweep o now (order fuel) (record r { propagated = false }) in
      let first = sweep-Evolves (order fuel) (record r { propagated = false }) k in
      if_ind (λ (t : Round). Evolves o r.exec t.exec) (s.returned || not s.propagated) (λ _. first)
        (λ _. joins first (rounds-Evolves order fuel s (Evolves-KeysMatch first k)))

  pub dispatch-Evolves :
      (order : ℕ → List ℕ) (e : Executor)
      → KeysMatch e.nodes
      → Evolves o e (dispatch o now order e).exec
  unfolding dispatch
  dispatch-Evolves order e k = rounds-Evolves order (suc (length e.nodes)) (first_round e) k
