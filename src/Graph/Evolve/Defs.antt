-- ===== src/Graph/Evolve/Defs.antt =====
-- The relation between an executor and a later one.
use lutra.Prelude.{ℕ, true, none, some, ◌≡◌, ◌⊎◌, inl, inr, arith}
use lutra.Prelude.Map.{Map, lookup, insert, lookup-insert}
use lutra.Prelude.Int32.{increment}
use lutra.Graph.Types.{Node, Options, Executor, terminal}
use lutra.Graph.Commit.{commit}
use lutra.Graph.Calls.{adopt, child_of}

-- The change of a node that a commit may make.
pub record Allowed (old next : Node) : Type 0 where
  pub same_id : next.id ≡ old.id
  pub same_parent : next.parent_id ≡ old.parent_id
  pub same_prerequisites : next.prerequisites ≡ old.prerequisites
  pub same_limit : next.max_attempts ≡ old.max_attempts
  pub final : terminal old.state ≡ true → next ≡ old
  pub attempts : (next.attempt ≡ old.attempt) ⊎ (next.attempt ≡ increment old.attempt)

module _ (o : Options) where
  pub data Evolves : Executor → Executor → Type 0 where
    quiet :
        {e e' : Executor}
        → e'.nodes ≡ e.nodes
        → e'.err ≡ e.err
        → e'.accepted ≡ e.accepted
        → Evolves e e'
    commits :
        {e : Executor} (now id : ℕ) (old next : Node)
        → lookup id e.nodes ≡ some old
        → old.id ≡ id
        → Allowed old next
        → Evolves e (commit o now next e).0
    adopts :
        {e : Executor} (now parent : ℕ) (node : Node)
        → lookup node.id e.nodes ≡ none
        → e.err ≡ none
        → Evolves e (adopt now parent node e)
    joins : {e f g : Executor} → Evolves e f → Evolves f g → Evolves e g

abbrev pub KeysMatch : Map Node → Type 0
KeysMatch nodes = (id : ℕ) (n : Node) → lookup id nodes ≡ some n → n.id ≡ id

-- What a commit does to the graph.
pub commit_nodes :
    (o : Options) (now : ℕ) (next : Node) (e : Executor)
    → ((commit o now next e).0.nodes ≡ e.nodes)
      ⊎ ((commit o now next e).0.nodes ≡ insert next.id next e.nodes)
unfolding commit
commit_nodes o now next e = ground arith

pub insert-KeysMatch :
    (next : Node) (m : Map Node) → KeysMatch m → KeysMatch (insert next.id next m)
insert-KeysMatch next m k id n h = ground (arith, lookup-insert next.id id next m, k id n)

pub commit-KeysMatch :
    (o : Options) (now : ℕ) (next : Node) (e : Executor)
    → KeysMatch e.nodes
    → KeysMatch (commit o now next e).0.nodes
commit-KeysMatch o now next e k = elim (commit_nodes o now next e) [
  | inl same ↦ rw same k
  | inr p ↦ rw p (insert-KeysMatch next e.nodes k)
]

pub adopt_nodes :
    (now parent : ℕ) (node : Node) (e : Executor)
    → (adopt now parent node e).nodes ≡ insert node.id (child_of parent node) e.nodes
unfolding adopt
adopt_nodes now parent node e = ground arith

pub Evolves-KeysMatch :
    {o : Options} {e e' : Executor} → Evolves o e e' → KeysMatch e.nodes → KeysMatch e'.nodes
Evolves-KeysMatch (quiet {e = e} n x a) k = rw n k
Evolves-KeysMatch {o} (commits {e = e} now id old next h i a) k = commit-KeysMatch o now next e k
Evolves-KeysMatch (adopts {e = e} now parent node h x) k =
    rw (adopt_nodes now parent node e) (insert-KeysMatch (child_of parent node) e.nodes k)
Evolves-KeysMatch (joins p q) k = Evolves-KeysMatch q (Evolves-KeysMatch p k)
