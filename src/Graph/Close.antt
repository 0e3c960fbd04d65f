-- ===== src/Graph/Close.antt =====
-- `closeLocked`, `Cancel` and `CancelSubtree` of internal/graphexec/executor.go.
use lutra.Prelude.{
  ℕ, zero, suc, Bool, true, false, not, ◌&&◌, String, List, [], ◌∷◌, ◌++◌, map, Option, none, some,
  if◌then◌else◌, ◌==◌, elem, length,
}
use lutra.Prelude.Map.{Map, lookup}
use lutra.Graph.Types.{canceled, terminal, nothing, Failure, errors_new, Node, Options, Executor}
use lutra.Graph.Commit.{commit, cancel_active, nil_dereference}

-- The orders in which the loops of `closeLocked` visit: the nodes of the graph, when the queue has
-- come to a node, and the identifiers collected.
pub record Visits : Type 0 where
  pub children : ℕ → List ℕ
  pub closing : List ℕ → List ℕ

abbrev pub is_child : Option Node → ℕ → Bool
is_child none id = false
is_child (some n) id = elim n.parent_id [ none ↦ false | some p ↦ p == id ]

-- One range over the graph: the identifiers collected, and the queue.
unfoldable pub scan_children : Map Node → ℕ → List ℕ → List ℕ → List ℕ → List ℕ × List ℕ
scan_children nodes id [] ids queue = (ids, queue)
scan_children nodes id (child ∷ order) ids queue =
    let new = is_child (lookup child nodes) id && not (elem child ids) in
    scan_children nodes id order (if new then child ∷ ids else ids)
      (if new then queue ++ child ∷ [] else queue)

-- The `for` loop over the queue. What is left of the queue when the fuel is used up is returned too.
unfoldable pub collect :
    (nodes : Map Node) (order : ℕ → List ℕ) (fuel : ℕ) (queue ids : List ℕ) → List ℕ × List ℕ
unfolding scan_children
collect nodes order zero queue ids = (ids, queue)
collect nodes order (suc fuel) [] ids = (ids, [])
collect nodes order (suc fuel) (id ∷ queue) ids =
    let (ids', queue') = scan_children nodes id (order id) ids queue in
    collect nodes order fuel queue' ids'

-- Each node joins the queue once, and the parent stands there at the start.
unfoldable pub descendants : Map Node → (ℕ → List ℕ) → ℕ → List ℕ
unfolding collect
descendants nodes order parent = (collect nodes order (suc (length nodes)) (parent ∷ []) []).0

abbrev pub keys : Map Node → List ℕ
keys = map (λ (k, n). k)

-- The body of the loop over the identifiers.
unfoldable pub close_node : Options → ℕ → String → ℕ → Executor → Executor × Option Failure
unfolding commit cancel_active
close_node o now reason id e = elim (lookup id e.nodes) [
  | none ↦ (e, some nil_dereference)
  | some n ↦
      if terminal n.state
      then (e, none)
      else commit o now (record n { state = canceled; waiting_on = nothing; error = reason })
          (cancel_active id e)
]

unfoldable pub close_nodes : Options → ℕ → String → List ℕ → Executor → Executor × Option Failure
unfolding close_node
close_nodes o now reason [] e = (e, none)
close_nodes o now reason (id ∷ ids) e =
    let (e', x) = close_node o now reason id e in
    elim x [ none ↦ close_nodes o now reason ids e' | some y ↦ (e', some y) ]

abbrev pub uuid_nil : ℕ
uuid_nil = 0

unfoldable pub close :
    Options → ℕ → Visits → (parent : ℕ) (reason : String) → Executor → Executor × Option Failure
unfolding descendants close_nodes
close o now v parent reason e =
    let ids = if parent == uuid_nil then keys e.nodes else descendants e.nodes v.children parent in
    close_nodes o now reason (v.closing ids) e

unfoldable pub cancel_run : Options → ℕ → Visits → Executor → Executor
unfolding close
cancel_run o now v e =
    let e' = (close o now v uuid_nil "run canceled" e).0 in
    if e'.started then record e' { stopped = true } else e'

-- The first commit of `CancelSubtree`, of the node itself.
unfoldable pub cancel_node : Options → ℕ → Node → ℕ → Executor → Executor × Option Failure
unfolding commit cancel_active
cancel_node o now n id e =
    if terminal n.state
    then (e, none)
    else commit o now (record n { state = canceled; error = "action canceled" })
        (cancel_active id e)

unfoldable pub then_descendants :
    Options → ℕ → Visits → ℕ → Executor × Option Failure → Executor × Option Failure
unfolding close
then_descendants o now v id (e, none) = close o now v id "ancestor canceled" e
then_descendants o now v id (e, some x) = (e, some x)

-- The text of the error has the identifier in place of `%s`.
unfoldable pub cancel_subtree : Options → ℕ → Visits → ℕ → Executor → Executor × Option Failure
unfolding cancel_node then_descendants
cancel_subtree o now v id e = elim (lookup id e.nodes) [
  | none ↦ (e, some (errors_new "node %s not found"))
  | some n ↦ then_descendants o now v id (cancel_node o now n id e)
]
