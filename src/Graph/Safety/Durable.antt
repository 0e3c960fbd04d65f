-- ===== src/Graph/Safety/Durable.antt =====
-- The graph in memory and what the store has accepted.
use lutra.Prelude.{
  ℕ, true, List, [], ◌∷◌, Option, none, some, ◌≡◌, refl, sym, ap, ◌∙◌, ◌⊎◌, inl, inr, ◌≢◌, arith,
  ◌==◌, if◌then◌else◌, subst,
}
use native.Mathlib.Decide.{ℕ_discrete}
use mathlib.Core.Option.{some_inj}
use lutra.Prelude.Map.{lookup, insert, lookup-insert_eq, lookup-insert_ne}
use lutra.Prelude.Int32.{increment}
use lutra.Graph.Types.{Node, Transition, Store, Options, Executor, terminal}
use lutra.Graph.Commit.{commit, transition}
use lutra.Graph.Calls.{adopt, child_of, restore_node, restore, empty_executor, new}
use lutra.Graph.Sections.{Entry, run_schedule}
use lutra.Graph.Evolve.Defs.{
  Allowed, Evolves, quiet, commits, adopts, joins, KeysMatch, adopt_nodes,
}
use lutra.Graph.Evolve.Sections.{run_schedule-Evolves}

-- The transition of a node that the store has accepted last.
unfoldable pub newest : ℕ → List Transition → Option Transition
newest id [] = none
newest id (t ∷ log) = if t.node_id == id then some t else newest id log

-- What a row of the store holds after the transition, and the node in memory.
pub record Agrees (n : Node) (t : Transition) : Type 0 where
  pub same_state : n.state ≡ t.state
  pub same_reason : n.waiting_on ≡ t.waiting_on
  pub same_attempt : n.attempt ≡ t.attempt
  pub same_failures : n.failures ≡ t.failures
  pub same_output : n.output ≡ t.output
  pub same_error : n.error ≡ t.error
  pub same_next : n.next_attempt_at ≡ t.next_attempt_at
  pub same_hit : n.cache_hit ≡ t.cache_hit

-- What a transition says of the one before it of the same node.
pub record Follows (u t : Transition) : Type 0 where
  pub from_state : t.from ≡ u.state
  pub from_attempt : t.expected_attempt ≡ u.attempt
  pub attempts : (t.attempt ≡ u.attempt) ⊎ (t.attempt ≡ increment u.attempt)
  pub final :
      terminal u.state ≡ true → (t.state ≡ u.state) × (t.output ≡ u.output) × (t.error ≡ u.error)

abbrev pub Chained : List Transition → Type 0
Chained [] = Unit {0}
Chained (t ∷ log) = ((u : Transition) → newest t.node_id log ≡ some u → Follows u t) × Chained log

pub record Durable (e : Executor) : Type 0 where
  pub agree :
      (id : ℕ) (n : Node) (t : Transition)
      → lookup id e.nodes ≡ some n
      → newest id e.accepted ≡ some t
      → Agrees n t
  -- a node that the graph has not is not in the log
  pub known : (id : ℕ) → lookup id e.nodes ≡ none → newest id e.accepted ≡ none
  pub chained : Chained e.accepted

module _ (o : Options) (store : Store) (stored : o.store ≡ some store) where
  commit_cases :
      (now : ℕ) (old next : Node) (e : Executor)
      → lookup next.id e.nodes ≡ some old
      → let r = (commit o now next e).0 in
        ((r.nodes ≡ e.nodes) × (r.accepted ≡ e.accepted))
        ⊎ ((r.nodes ≡ insert next.id next e.nodes)
            × (r.accepted ≡ transition o now old next ∷ e.accepted))
  unfolding commit
  commit_cases now old next e h = ground arith

module _ (o : Options) where
  Agrees-transition : (now : ℕ) (old next : Node) → Agrees next (transition o now old next)
  unfolding transition
  Agrees-transition now old next = ground arith

  Follows-transition :
      (now : ℕ) (old next : Node) (u : Transition)
      → Allowed old next
      → Agrees old u
      → Follows u (transition o now old next)
  unfolding transition
  Follows-transition now old next u a g = ground arith

-- The newest transition of a node, when one more is accepted.
newest-cons_eq :
    (id : ℕ) (t : Transition) (log : List Transition)
    → t.node_id ≡ id
    → newest id (t ∷ log) ≡ some t
unfolding newest
newest-cons_eq id t log e = ground arith

newest-cons_ne :
    (id : ℕ) (t : Transition) (log : List Transition)
    → t.node_id ≢ id
    → newest id (t ∷ log) ≡ newest id log
unfolding newest
newest-cons_ne id t log ne = ground arith

-- A commit that the store has accepted, on the graph and on the log.
module _ (o : Options) (now : ℕ) (e e' : Executor) (old next : Node)
    (there : lookup next.id e.nodes ≡ some old) (a : Allowed old next)
    (put : e'.nodes ≡ insert next.id next e.nodes)
    (said : e'.accepted ≡ transition o now old next ∷ e.accepted) (d : Durable e) where
  abbrev t : Transition
  t = transition o now old next

  accepted_agree :
      (id : ℕ) (n : Node) (u : Transition)
      → lookup id e'.nodes ≡ some n
      → newest id e'.accepted ≡ some u
      → Agrees n u
  unfolding transition
  accepted_agree id n u p q = elim (ℕ_discrete next.id id) [
    | yes here ↦
        let m : n ≡ next =
          some_inj.0 (sym p ∙ ap (lookup id) put ∙ lookup-insert_eq next e.nodes here) in
        let v : u ≡ t =
          some_inj.0 (sym q ∙ ap (newest id) said ∙ newest-cons_eq id t e.accepted here) in
        subst (λ m'. Agrees m' u) (sym m)
          (subst (Agrees next) (sym v) (Agrees-transition o now old next))
    | no elsewhere ↦
        d.agree id n u
          (sym (lookup-insert_ne next e.nodes elsewhere) ∙ sym (ap (lookup id) put) ∙ p)
          (sym (newest-cons_ne id t e.accepted elsewhere) ∙ sym (ap (newest id) said) ∙ q)
  ]

  accepted_known : (id : ℕ) → lookup id e'.nodes ≡ none → newest id e'.accepted ≡ none
  unfolding transition
  accepted_known id p = elim (ℕ_discrete next.id id) [
    | yes here ↦ absurd (clash (sym p ∙ ap (lookup id) put ∙ lookup-insert_eq next e.nodes here))
    | no elsewhere ↦
        ap (newest id) said
        ∙ newest-cons_ne id t e.accepted elsewhere
        ∙ d.known id (sym (lookup-insert_ne next e.nodes elsewhere) ∙ sym (ap (lookup id) put) ∙ p)
  ]
    where
      clash : none ≡ some next → ⊥
      clash q = cc

  accepted-Chained : Chained e'.accepted
  unfolding transition
  accepted-Chained =
      rw said
        (λ u q. Follows-transition o now old next u a (d.agree next.id old u there q), d.chained)

  accepted-Durable : Durable e'
  accepted-Durable = record {
    agree = accepted_agree;
    known = accepted_known;
    chained = accepted-Chained;
  }

same-Durable :
    (e e' : Executor) → e'.nodes ≡ e.nodes → e'.accepted ≡ e.accepted → Durable e → Durable e'
same-Durable e e' n a d = record {
  agree = λ id m t p q. d.agree id m t (sym (ap (lookup id) n) ∙ p) (sym (ap (newest id) a) ∙ q);
  known = λ id p. ap (newest id) a ∙ d.known id (sym (ap (lookup id) n) ∙ p);
  chained = rw a d.chained;
}

adopt_accepted :
    (now parent : ℕ) (node : Node) (e : Executor) → (adopt now parent node e).accepted ≡ e.accepted
unfolding adopt
adopt_accepted now parent node e = ground arith

-- A node that joins has no transition yet.
adopt-Durable :
    (now parent : ℕ) (node : Node) (e : Executor)
    → lookup node.id e.nodes ≡ none
    → Durable e
    → Durable (adopt now parent node e)
adopt-Durable now parent node e fresh d = record {
  agree = λ id n t p q. elim (ℕ_discrete node.id id) [
    | yes here ↦ absurd (clash t (sym (same_log id q) ∙ none_at id here))
    | no elsewhere ↦ d.agree id n t (sym (other id elsewhere) ∙ p) (same_log id q)
  ];
  known = λ id p. ap (newest id) log ∙ elim (ℕ_discrete node.id id) [
    | yes here ↦ none_at id here
    | no elsewhere ↦ d.known id (sym (other id elsewhere) ∙ p)
  ];
  chained = rw log d.chained;
}
  where
    e' : Executor
    e' = adopt now parent node e

    log : e'.accepted ≡ e.accepted
    log = adopt_accepted now parent node e

    same_log :
        (id : ℕ) {t : Transition} → newest id e'.accepted ≡ some t → newest id e.accepted ≡ some t
    same_log id q = sym (ap (newest id) log) ∙ q

    other : (id : ℕ) → node.id ≢ id → lookup id e'.nodes ≡ lookup id e.nodes
    other id elsewhere =
        ap (lookup id) (adopt_nodes now parent node e)
        ∙ lookup-insert_ne (child_of parent node) e.nodes elsewhere

    none_at : (id : ℕ) → node.id ≡ id → newest id e.accepted ≡ none
    none_at id here = subst (λ j. newest j e.accepted ≡ none) here (d.known node.id fresh)

    clash : (t : Transition) → some t ≡ none → ⊥
    clash t q = cc

module _ (o : Options) (store : Store) (stored : o.store ≡ some store) where
  Evolves-Durable : {e e' : Executor} → Evolves o e e' → Durable e → Durable e'
  Evolves-Durable (quiet {e = e} {e' = e'} n x a) d = same-Durable e e' n a d
  Evolves-Durable (commits {e = e} now id old next p q a) d =
      let there : lookup next.id e.nodes ≡ some old =
        subst (λ j. lookup j e.nodes ≡ some old) (sym q ∙ sym a.same_id) p in
      elim (commit_cases o store stored now old next e there) [
        | inl (n, l) ↦ same-Durable e (commit o now next e).0 n l d
        | inr (n, l) ↦ accepted-Durable o now e (commit o now next e).0 old next there a n l d
      ]
  Evolves-Durable (adopts {e = e} now parent node fresh x) d =
      adopt-Durable now parent node e fresh d
  Evolves-Durable (joins p q) d = Evolves-Durable q (Evolves-Durable p d)

  -- With a store, and from an executor whose map has each node under its own identifier and that
  -- agrees with what the store has accepted, every schedule of critical sections leads to one that
  -- agrees with it again: a node with an accepted transition has the state, the reason, the numbers
  -- of attempts and failures, the output, the error, the time and the cache mark of the last one, a
  -- node that has none is in no transition, and each accepted transition names the state and the
  -- attempt of the one before it of the same node and keeps the state of one that has ended.
  pub run_schedule-Durable :
      (es : List Entry) (e : Executor)
      → KeysMatch e.nodes
      → Durable e
      → Durable (run_schedule o es e)
  run_schedule-Durable es e k d = Evolves-Durable (run_schedule-Evolves o es e k) d

restore-accepted :
    (snapshot : List Node) (e : Executor) → (restore snapshot e).accepted ≡ e.accepted
unfolding restore
restore-accepted [] e = refl
restore-accepted (n ∷ snapshot) e = restore-accepted snapshot (restore_node n e)

-- A new executor has handed no transition to its store.
pub new-Durable : (snapshot : List Node) → Durable (new snapshot)
unfolding new newest
new-Durable snapshot =
    let empty = restore-accepted snapshot empty_executor in
    record {
      agree = λ id n t p q. absurd (clash t (sym q ∙ ap (newest id) empty));
      known = λ id p. ap (newest id) empty;
      chained = rw empty tt;
    }
  where
    clash : (t : Transition) → some t ≡ none → ⊥
    clash t q = cc
