-- ===== src/Graph/Safety/Final.antt =====
-- Nodes that have ended, and executors whose store has refused a transition, stay as they are.
use lutra.Prelude.{ℕ, true, List, Option, none, some, ◌≡◌, sym, ap, ◌∙◌, inl, inr, arith, subst}
use native.Mathlib.Decide.{ℕ_discrete}
use lutra.Prelude.Map.{lookup, lookup-insert_eq, lookup-insert_ne}
use lutra.Graph.Types.{Failure, Node, Options, Executor, terminal}
use lutra.Graph.Commit.{commit}
use lutra.Graph.Calls.{adopt, child_of}
use lutra.Graph.Sections.{Entry, run_schedule}
use lutra.Graph.Evolve.Defs.{
  Allowed, Evolves, quiet, commits, adopts, joins, KeysMatch, commit_nodes, adopt_nodes,
}
use lutra.Graph.Evolve.Sections.{run_schedule-Evolves}

-- What a node keeps for good: its place in the graph, and once it has ended, all of it.
pub record Persists (n n' : Node) : Type 0 where
  pub same_id : n'.id ≡ n.id
  pub same_parent : n'.parent_id ≡ n.parent_id
  pub same_prerequisites : n'.prerequisites ≡ n.prerequisites
  pub same_limit : n'.max_attempts ≡ n.max_attempts
  pub final : terminal n.state ≡ true → n' ≡ n

abbrev pub Remains : Executor → Executor → ℕ → Node → Type 0
Remains e e' id n = (n' : Node) × (lookup id e'.nodes ≡ some n') × Persists n n'

Persists-refl : (n : Node) → Persists n n
Persists-refl n = ground arith

Persists-trans : {a b c : Node} → Persists a b → Persists b c → Persists a c
Persists-trans p q = record {
  same_id = q.same_id ∙ p.same_id;
  same_parent = q.same_parent ∙ p.same_parent;
  same_prerequisites = q.same_prerequisites ∙ p.same_prerequisites;
  same_limit = q.same_limit ∙ p.same_limit;
  final = λ t. q.final (ap (λ n. terminal n.state) (p.final t) ∙ t) ∙ p.final t;
}

Allowed-Persists : {n n' : Node} → Allowed n n' → Persists n n'
Allowed-Persists a = record {
  same_id = a.same_id;
  same_parent = a.same_parent;
  same_prerequisites = a.same_prerequisites;
  same_limit = a.same_limit;
  final = a.final;
}

-- A node that a commit of `next` meets.
commit-Remains :
    (o : Options) (now id : ℕ) (old next : Node) (e : Executor) (j : ℕ) (n : Node)
    → lookup id e.nodes ≡ some old
    → old.id ≡ id
    → Allowed old next
    → lookup j e.nodes ≡ some n
    → Remains e (commit o now next e).0 j n
commit-Remains o now id old next e j n p q a h = elim (commit_nodes o now next e) [
  | inl same ↦ (n, rw same h, Persists-refl n)
  | inr put ↦ elim (ℕ_discrete next.id j) [
    | yes here ↦ (
      next,
      rw put (lookup-insert_eq next e.nodes here),
      subst (λ m. Persists m next) (some_eq p h (q' here)) (Allowed-Persists a),
    )
    | no elsewhere ↦ (n, rw put (lookup-insert_ne next e.nodes elsewhere ∙ h), Persists-refl n)
  ]
]
  where
    q' : next.id ≡ j → id ≡ j
    q' here = sym q ∙ sym a.same_id ∙ here

    some_eq : lookup id e.nodes ≡ some old → lookup j e.nodes ≡ some n → id ≡ j → old ≡ n
    some_eq x y z = cc

adopt-Remains :
    (now parent : ℕ) (node : Node) (e : Executor) (j : ℕ) (n : Node)
    → lookup node.id e.nodes ≡ none
    → lookup j e.nodes ≡ some n
    → Remains e (adopt now parent node e) j n
adopt-Remains now parent node e j n fresh h = elim (ℕ_discrete node.id j) [
  | yes here ↦ absurd (clash here)
  | no elsewhere ↦ (
    n,
    rw (adopt_nodes now parent node e)
        (lookup-insert_ne (child_of parent node) e.nodes elsewhere ∙ h),
    Persists-refl n,
  )
]
  where
    clash : node.id ≡ j → ⊥
    clash here = cc

Evolves-Remains :
    {o : Options} {e e' : Executor}
    → Evolves o e e'
    → (j : ℕ) (n : Node) → lookup j e.nodes ≡ some n
    → Remains e e' j n
Evolves-Remains (quiet same x a) j n h = (n, rw same h, Persists-refl n)
Evolves-Remains {o} (commits {e = e} now id old next p q a) j n h =
    commit-Remains o now id old next e j n p q a h
Evolves-Remains (adopts {e = e} now parent node fresh x) j n h =
    adopt-Remains now parent node e j n fresh h
Evolves-Remains (joins p q) j n h =
    let (m, found, kept) = Evolves-Remains p j n h in
    let (m', found', kept') = Evolves-Remains q j m found in (m', found', Persists-trans kept kept')

-- Under any schedule of critical sections from an executor whose map has each node under its own
-- identifier, a node that is in the graph stays in it, keeps its identifier, its parent, its
-- prerequisites and its limit of attempts, and does not change at all once it is done, failed or
-- canceled.
pub run_schedule-Remains :
    (o : Options) (es : List Entry) (e : Executor) (id : ℕ) (n : Node)
    → KeysMatch e.nodes
    → lookup id e.nodes ≡ some n
    → Remains e (run_schedule o es e) id n
run_schedule-Remains o es e id n k h = Evolves-Remains (run_schedule-Evolves o es e k) id n h

-- What stays after a refused transition.
pub record Frozen (e e' : Executor) : Type 0 where
  pub same_nodes : e'.nodes ≡ e.nodes
  pub same_accepted : e'.accepted ≡ e.accepted
  pub same_err : e'.err ≡ e.err

commit-Frozen :
    (o : Options) (now : ℕ) (next : Node) (e : Executor) (x : Failure)
    → e.err ≡ some x
    → Frozen e (commit o now next e).0
unfolding commit
commit-Frozen o now next e x h = ground arith

Evolves-Frozen :
    {o : Options} {e e' : Executor} → Evolves o e e' → (x : Failure) → e.err ≡ some x → Frozen e e'
Evolves-Frozen (quiet n x a) y h = record { same_nodes = n; same_accepted = a; same_err = x }
Evolves-Frozen {o} (commits {e = e} now id old next p q a) y h = commit-Frozen o now next e y h
Evolves-Frozen (adopts now parent node fresh ok) y h = absurd (clash _ ok h)
  where
    clash : (r : Option Failure) → r ≡ none → r ≡ some y → ⊥
    clash r p q = cc
Evolves-Frozen (joins p q) y h =
    let first = Evolves-Frozen p y h in
    let rest = Evolves-Frozen q y (first.same_err ∙ h) in
    record {
      same_nodes = rest.same_nodes ∙ first.same_nodes;
      same_accepted = rest.same_accepted ∙ first.same_accepted;
      same_err = rest.same_err ∙ first.same_err;
    }

-- Once the executor has an error, no schedule of critical sections changes a node, hands the store a
-- transition that it accepts, or replaces the error.
pub run_schedule-Frozen :
    (o : Options) (es : List Entry) (e : Executor) (x : Failure)
    → KeysMatch e.nodes
    → e.err ≡ some x
    → Frozen e (run_schedule o es e)
run_schedule-Frozen o es e x k h = Evolves-Frozen (run_schedule-Evolves o es e k) x h
