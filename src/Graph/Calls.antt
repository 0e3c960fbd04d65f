-- ===== src/Graph/Calls.antt =====
-- `New`, `Add`, `Get`, `Wait`, `resume` and `result` of internal/graphexec/executor.go. `Wait` and
-- `resume` are cut where they give up `e.mu`.
use lutra.Prelude.{
  ℕ, ◌+◌, ◌-◌, Bool, true, false, not, ◌&&◌, ◌||◌, List, [], ◌∷◌, Option, none, some, if◌then◌else◌,
  ltb, get_elem?, modify, ◌==◌, is_some,
}
use lutra.Prelude.Map.{lookup, insert}
use lutra.Graph.Types.{
  State, unset, pending, running, waiting, terminal, is_done, is_pending, nothing, for_children,
  Failure, errors_new, Node, Options, Active, Executor,
}
use lutra.Graph.Commit.{notify, commit, start_timer}

abbrev or_pending : State → State
or_pending unset = pending
or_pending s = s

abbrev pub restored : Node → Node
restored n = record n { state = or_pending n.state }

unfoldable pub restore_node : Node → Executor → Executor
restore_node n e = record e {
  err =
      (if is_some (lookup n.id e.nodes)
        then some (errors_new "graph has duplicate node IDs")
        else e.err);
  nodes = insert n.id (restored n) e.nodes;
}

-- The loop of `New`.
unfoldable pub restore : List Node → Executor → Executor
unfolding restore_node
restore [] e = e
restore (n ∷ snapshot) e = restore snapshot (restore_node n e)

abbrev pub empty_executor : Executor
empty_executor = record {
  nodes = [];
  active = [];
  objects = [];
  timers = [];
  changed = 0;
  wake = false;
  started = false;
  stopped = false;
  err = none;
  accepted = [];
}

unfoldable pub new : List Node → Executor
unfolding restore
new snapshot = restore snapshot empty_executor

abbrev pub not_active : Failure
not_active = errors_new "parent attempt is not active"

-- `n.ParentID != nil && *n.ParentID == parent`
abbrev pub has_parent : Node → ℕ → Bool
has_parent n parent = elim n.parent_id [ none ↦ false | some p ↦ p == parent ]

-- The node that joins: with its parent, and with a state.
abbrev pub child_of : ℕ → Node → Node
child_of parent node = record node { parent_id = some parent; state = or_pending node.state }

-- The end of `Add`: the child joins the graph, and a timer starts if it is not due yet.
unfoldable pub adopt : (now parent : ℕ) → Node → Executor → Executor
unfolding notify start_timer
adopt now parent node e =
    let child = child_of parent node in
    let e' = record e { nodes = insert child.id child e.nodes } in
    notify (
      if is_pending child.state && ltb now child.next_attempt_at
      then start_timer child.id child.attempt child.next_attempt_at e'
      else e')

-- Whether `parent` has the attempt `attempt`, is running it and has not ended.
unfoldable pub attempt_is_active : (parent attempt : ℕ) → Executor → Bool
attempt_is_active parent attempt e = elim (lookup parent e.nodes) [
  | none ↦ false
  | some p ↦ p.attempt == attempt && is_some (lookup parent e.active) && not (terminal p.state)
]

-- `ctx` is the error of the caller's context.
unfoldable pub add :
    (now : ℕ) (ctx : Option Failure) (parent attempt : ℕ)
    → Node
    → Executor
    → Executor × Option Failure
unfolding attempt_is_active adopt
add now ctx parent attempt node e = elim ctx [
  | some x ↦ (e, some x)
  | none ↦ elim e.err [
    | some x ↦ (e, some x)
    | none ↦
        if not (attempt_is_active parent attempt e)
        then (e, some not_active)
        else elim (lookup node.id e.nodes) [
          | some old ↦
              if has_parent old parent
              then (e, none)
              else (e, some (errors_new "node belongs to another parent"))
          | none ↦
              if node.id == parent
              then (e, some (errors_new "node cannot parent itself"))
              else (adopt now parent node e, none)
        ]
  ]
]

-- The node and, beside it, the error of the caller's context.
unfoldable pub get : Option Failure → ℕ → Executor → Option Node × Option Failure
get ctx id e = elim (lookup id e.nodes) [
  | none ↦ (none, some (errors_new "node not found"))
  | some n ↦ (some n, ctx)
]

unfoldable pub result : Node → Node × Option Failure
result n = if is_done n.state then (n, none) else (n, some (errors_new n.error))

-- What `Wait` does after its first section.
pub data Waiting : Type 0 where
  refused : Failure → Waiting
  -- the child has ended: on to `resume`, with the attempt's object
  ready_with : (object : ℕ) → Node → Waiting
  -- a waiter of the object; `released` says that its slot was released
  parked : (object : ℕ) (released : Bool) → Waiting

unfoldable pub add_waiter : ℕ → Executor → Executor
add_waiter h e = record e {
  objects = modify h (λ a. record a { waiters = a.waiters + 1 }) e.objects;
}

unfoldable pub set_held : ℕ → Bool → Executor → Executor
set_held h b e = record e { objects = modify h (λ a. record a { held = b }) e.objects }

-- With the commit of the waiting parent made: its slot is given up.
unfoldable pub park_end : ℕ → Executor × Option Failure → Executor × Waiting
unfolding add_waiter set_held
park_end h (e, some y) = (e, refused y)
park_end h (e, none) = (add_waiter h (set_held h false e), parked h true)

-- From the test of `a.held` on, `p` being the parent and `a` its attempt's object.
unfoldable pub park : Options → ℕ → Node → ℕ → Active → Executor → Executor × Waiting
unfolding commit add_waiter park_end
park o now p h a e =
    if not a.held
    then (add_waiter h e, parked h false)
    else park_end h (commit o now (record p { state = waiting; waiting_on = for_children }) e)

-- The object of the parent's attempt, if the call of `Wait` is let in.
unfoldable pub admitted : (parent attempt : ℕ) → Executor → Option (Node × ℕ × Active)
admitted parent attempt e = elim (lookup parent e.nodes) [
  | none ↦ none
  | some p ↦ elim (lookup parent e.active) [
    | none ↦ none
    | some h ↦ elim (get_elem? e.objects h) [
      | none ↦ none
      | some a ↦ if p.attempt == attempt && not (terminal p.state) then some (p, h, a) else none
    ]
  ]
]

unfoldable pub enter_wait : Options → ℕ → (parent attempt child : ℕ) → Executor → Executor × Waiting
unfolding admitted park
enter_wait o now parent attempt child e = elim (admitted parent attempt e) [
  | none ↦ (e, refused not_active)
  | some (p, h, a) ↦ elim (lookup child e.nodes) [
    | none ↦ (e, refused (errors_new "node is not a child of this parent"))
    | some n ↦
        if not (has_parent n parent)
        then (e, refused (errors_new "node is not a child of this parent"))
        else if terminal n.state
        then (e, ready_with h n)
        else park o now p h a e
  ]
]

-- `a.waiters--` and the notification, when the child has ended or the context is done. There is a
-- waiter, so `-` does not stop at 0 (an int in the source).
unfoldable pub leave_wait : ℕ → Executor → Executor
unfolding notify
leave_wait h e =
    notify (record e { objects = modify h (λ a. record a { waiters = a.waiters - 1 }) e.objects })

-- `a.ctx.Err() != nil`
unfoldable pub object_gone : ℕ → Executor → Bool
object_gone h e = e.stopped || elim (get_elem? e.objects h) [ none ↦ false | some a ↦ a.canceled ]

-- `e.active[parent] == a`
unfoldable pub is_active_object : (parent h : ℕ) → Executor → Bool
is_active_object parent h e = elim (lookup parent e.active) [ none ↦ false | some j ↦ j == h ]

-- What `resume` does after its second section; its first one waits until no waiter is left.
pub data Resumed : Type 0 where
  returns : Option Failure → Resumed
  acquires : Resumed

unfoldable pub check_resume : (parent attempt h : ℕ) → Executor → Resumed
unfolding is_active_object object_gone
check_resume parent attempt h e = elim e.err [
  | some x ↦ returns (some x)
  | none ↦ elim (lookup parent e.nodes) [
    | none ↦ returns (some not_active)
    | some p ↦
        if not (is_active_object parent h e)
          || not (p.attempt == attempt)
          || terminal p.state
          || object_gone h e
        then returns (some not_active)
        else elim (get_elem? e.objects h) [
          | none ↦ returns (some not_active)
          | some a ↦ if a.held then returns none else acquires
        ]
  ]
]

-- The last section, with a slot acquired. The Boolean says that the slot is released again.
unfoldable pub end_resume :
    Options → ℕ → (parent h : ℕ) → Executor → Executor × Bool × Option Failure
unfolding is_active_object object_gone set_held commit
end_resume o now parent h e = elim (lookup parent e.nodes) [
  | none ↦ (e, true, some not_active)
  | some p ↦
      if not (is_active_object parent h e) || terminal p.state || object_gone h e
      then (e, true, some not_active)
      else let (e', x) =
          commit o now (record p { state = running; waiting_on = nothing }) (set_held h true e) in
        (e', false, x)
]
