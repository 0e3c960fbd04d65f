-- ===== src/Graph/Evolve/Close.antt =====
-- `closeLocked`, `Cancel` and `CancelSubtree` as sequences of steps.
use lutra.Prelude.{
  ℕ, String, List, [], ◌∷◌, Option, none, some, ◌≡◌, refl, inl, inr, arith, Option-cases,
  Bool-cases,
}
use lutra.Prelude.Map.{lookup}
use lutra.Graph.Types.{terminal, Failure, Node, Options, Executor}
use lutra.Graph.Commit.{commit, cancel_active}
use lutra.Graph.Close.{
  Visits, close_node, close_nodes, close, cancel_run, cancel_node, then_descendants, cancel_subtree,
  uuid_nil,
}
use lutra.Graph.Evolve.Defs.{Allowed, Evolves, quiet, commits, joins, KeysMatch, Evolves-KeysMatch}

module _ (o : Options) (now : ℕ) where
  -- A commit of an allowed change of the node that stands under `id`.
  pub commit-Evolves :
      (e : Executor) (id : ℕ) (n next : Node)
      → KeysMatch e.nodes
      → lookup id e.nodes ≡ some n
      → Allowed n next
      → Evolves o e (commit o now next e).0
  commit-Evolves e id n next k h a = commits now id n next h (k id n h) a

  pub cancel_active-Evolves : (e : Executor) (id : ℕ) → Evolves o e (cancel_active id e)
  unfolding cancel_active
  cancel_active-Evolves e id = quiet (ground arith) (ground arith) (ground arith)

  pub cancel_active-nodes : (e : Executor) (id : ℕ) → (cancel_active id e).nodes ≡ e.nodes
  unfolding cancel_active
  cancel_active-nodes e id = ground arith

  -- The commit of a canceled node, its attempt's context canceled first.
  pub cancel-Evolves :
      (e : Executor) (id : ℕ) (n next : Node)
      → KeysMatch e.nodes
      → lookup id e.nodes ≡ some n
      → Allowed n next
      → Evolves o e (commit o now next (cancel_active id e)).0
  cancel-Evolves e id n next k h a = joins (cancel_active-Evolves e id) (
      commit-Evolves (cancel_active id e) id n next (rw (cancel_active-nodes e id) k)
        (rw (cancel_active-nodes e id) h) a)

  close_node-Evolves :
      (reason : String) (id : ℕ) (e : Executor)
      → KeysMatch e.nodes
      → Evolves o e (close_node o now reason id e).0
  unfolding close_node
  close_node-Evolves reason id e k = elim (Option-cases (lookup id e.nodes)) [
    | inl absent ↦ rw (absent, close_node) (quiet refl refl refl)
    | inr (n, h) ↦ elim (Bool-cases (terminal n.state)) [
      | inl ended ↦ rw (h, ended, close_node) (quiet refl refl refl)
      | inr live ↦ rw (h, live, close_node) (cancel-Evolves e id n _ k h (ground arith))
    ]
  ]

  close_nodes-Evolves :
      (reason : String) (ids : List ℕ) (e : Executor)
      → KeysMatch e.nodes
      → Evolves o e (close_nodes o now reason ids e).0
  unfolding close_nodes
  close_nodes-Evolves reason [] e k = quiet refl refl refl
  close_nodes-Evolves reason (id ∷ ids) e k =
      let first = close_node-Evolves reason id e k in
      elim (Option-cases (close_node o now reason id e).1) [
        | inl ok ↦
            rw (ok, close_nodes)
              (joins first (close_nodes-Evolves reason ids _ (Evolves-KeysMatch first k)))
        | inr (x, bad) ↦ rw (bad, close_nodes) first
      ]

  pub close-Evolves :
      (v : Visits) (parent : ℕ) (reason : String) (e : Executor)
      → KeysMatch e.nodes
      → Evolves o e (close o now v parent reason e).0
  unfolding close
  close-Evolves v parent reason e k = close_nodes-Evolves reason _ e k

  pub cancel_run-Evolves :
      (v : Visits) (e : Executor) → KeysMatch e.nodes → Evolves o e (cancel_run o now v e)
  unfolding cancel_run
  cancel_run-Evolves v e k =
      joins (close-Evolves v uuid_nil "run canceled" e k)
        (quiet (ground arith) (ground arith) (ground arith))

  cancel_node-Evolves :
      (id : ℕ) (n : Node) (e : Executor)
      → KeysMatch e.nodes
      → lookup id e.nodes ≡ some n
      → Evolves o e (cancel_node o now n id e).0
  unfolding cancel_node
  cancel_node-Evolves id n e k h = elim (Bool-cases (terminal n.state)) [
    | inl ended ↦ rw ended (quiet refl refl refl)
    | inr live ↦ rw live (cancel-Evolves e id n _ k h (ground arith))
  ]

  then_descendants-Evolves :
      (v : Visits) (id : ℕ) (e : Executor) (r : Executor × Option Failure)
      → KeysMatch e.nodes
      → Evolves o e r.0
      → Evolves o e (then_descendants o now v id r).0
  unfolding then_descendants
  then_descendants-Evolves v id e (f, none) k first =
      joins first (close-Evolves v id "ancestor canceled" f (Evolves-KeysMatch first k))
  then_descendants-Evolves v id e (f, some x) k first = first

  pub cancel_subtree-Evolves :
      (v : Visits) (id : ℕ) (e : Executor)
      → KeysMatch e.nodes
      → Evolves o e (cancel_subtree o now v id e).0
  unfolding cancel_subtree
  cancel_subtree-Evolves v id e k = elim (Option-cases (lookup id e.nodes)) [
    | inl absent ↦ rw (absent, cancel_subtree) (quiet refl refl refl)
    | inr (n, h) ↦
        rw (h, cancel_subtree)
          (then_descendants-Evolves v id e _ k (cancel_node-Evolves id n e k h))
  ]
