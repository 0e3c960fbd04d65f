-- ===== src/Graph/Execute.antt =====
-- `execute` of internal/graphexec/executor.go, cut at the places where it gives up `e.mu`. Each
-- function is one critical section; `Next` says what the goroutine does before the next one.
use lutra.Prelude.{
  ℕ, ◌+◌, Bool, true, false, not, ◌&&◌, ◌||◌, String, List, [], ◌∷◌, ◌++◌, Option, none, some,
  if◌then◌else◌, length, get_elem?, modify, ◌==◌,
}
use lutra.Prelude.Map.{lookup, insert, delete}
use lutra.Prelude.Int32.{increment, less, larger}
use lutra.Graph.Types.{
  pending, ready, running, waiting, done, failed, terminal, is_ready, is_pending, nothing,
  for_image, for_retry, Failure, Node, Options, Active, Executor,
}
use lutra.Graph.Commit.{commit, start_timer}
use lutra.Graph.Close.{Visits, close}

pub data Next : Type 0 where
  stop lookup_cache ensure_image acquire_slot : Next
  -- `Runner.Run`, with the object's index and the attempt's number
  run_task : (object attempt : ℕ) → Next

abbrev pub is_empty : List ℕ → Bool
is_empty [] = true
is_empty (_ ∷ _) = false

-- The goroutine goes on only if its commit was accepted.
unfoldable pub if_accepted : Executor × Option Failure → Next → Executor × Next
if_accepted (e, none) next = (e, next)
if_accepted (e, some x) next = (e, stop)

-- `if e.commitLocked(...) == nil { _ = e.closeLocked(e.ctx, id, reason) }`
unfoldable pub then_close : Options → ℕ → Visits → ℕ → String → Executor × Option Failure → Executor
unfolding close
then_close o now v id reason (e, none) = (close o now v id reason e).0
then_close o now v id reason (e, some x) = e

-- From the test of `n.ImageKey` on.
unfoldable pub request_image : Options → ℕ → Node → Executor → Executor × Next
unfolding commit if_accepted
request_image o now n e =
    if not (is_empty n.image_key) && o.has_images
    then if_accepted (commit o now (record n { state = waiting; waiting_on = for_image }) e)
        ensure_image
    else (e, acquire_slot)

unfoldable pub begin : Options → ℕ → ℕ → Executor → Executor × Next
unfolding request_image
begin o now id e = elim (lookup id e.nodes) [
  | none ↦ (e, stop)
  | some n ↦
      if not (is_ready n.state) || e.stopped
      then (e, stop)
      else if not (is_empty n.cache_key) && o.has_cache
      then (e, lookup_cache)
      else request_image o now n e
]

-- What `Cache.Lookup` has returned.
pub record Answer : Type 0 where
  pub output : List ℕ
  pub err : Option Failure
  pub hit : Bool

abbrev pub is_cacheable : Option Failure → Bool
is_cacheable none = false
is_cacheable (some x) = x.cacheable

unfoldable pub from_cache : Answer → Node → Node
from_cache a n = elim a.err [
  | none ↦ record n { cache_hit = true; state = done; output = a.output; error = "" }
  | some x ↦ record n { cache_hit = x.cacheable; state = failed; output = a.output; error = x.text }
]

unfoldable pub after_lookup : Options → ℕ → Visits → ℕ → Answer → Executor → Executor × Next
unfolding from_cache request_image commit then_close
after_lookup o now v id a e = elim (lookup id e.nodes) [
  | none ↦ (e, stop)
  | some n ↦
      if terminal n.state || e.stopped
      then (e, stop)
      else if a.hit
      then (then_close o now v id "parent action completed" (commit o now (from_cache a n) e), stop)
      else request_image o now n e
]

-- What `Images.Ensure` has returned.
unfoldable pub after_ensure : Options → ℕ → Visits → ℕ → Option Failure → Executor → Executor × Next
unfolding commit if_accepted then_close
after_ensure o now v id err e = elim (lookup id e.nodes) [
  | none ↦ (e, stop)
  | some n ↦ if terminal n.state || e.stopped then (e, stop) else elim err [
    | some x ↦ (
      then_close o now v id "parent action failed"
          (commit o now (record n { waiting_on = nothing; state = failed; error = x.text }) e),
      stop,
    )
    | none ↦
        if_accepted (commit o now (record n { waiting_on = nothing; state = ready }) e) acquire_slot
  ]
]

-- The node of a new attempt.
unfoldable pub attempt_of : Node → Node
attempt_of n = record n { state = running; attempt = increment n.attempt; next_attempt_at = 0 }

abbrev new_object : Active
new_object = record { canceled = false; held = true; waiters = 0 }

-- `e.active[id] = a`, for an object that is made here: on the other paths nothing refers to it.
unfoldable pub activate : ℕ → Executor → Executor
activate id e = record e {
  active = insert id (length e.objects) e.active;
  objects = e.objects ++ new_object ∷ [];
}

-- With the commit of the new attempt made.
unfoldable pub start_end : ℕ → ℕ → Executor × Option Failure → Executor × Next
unfolding activate
start_end id attempt (e, some x) = (e, stop)
start_end id attempt (e, none) = (activate id e, run_task (length e.objects) attempt)

-- With a slot acquired. On `stop` the slot is released.
unfoldable pub start_attempt : Options → ℕ → ℕ → Executor → Executor × Next
unfolding commit attempt_of start_end
start_attempt o now id e = elim (lookup id e.nodes) [
  | none ↦ (e, stop)
  | some n ↦
      if not (is_ready n.state) || e.stopped
      then (e, stop)
      else start_end id (attempt_of n).attempt (commit o now (attempt_of n) e)
]

-- The error of an attempt: the runner's, unless the cache then refuses to store it. `gone` is
-- `taskCtx.Err() != nil`, and `stored` is what `Cache.Store` returns, if it is called.
unfoldable pub attempt_error :
    Options → Node → Bool → Option Failure → Option Failure → Option Failure
attempt_error o n gone err stored =
    if not (is_empty n.cache_key) && o.has_cache && not gone
    then elim stored [ none ↦ err | some x ↦ some x ]
    else err

-- The node after an attempt.
unfoldable pub settle : Options → ℕ → List ℕ → Option Failure → Node → Node
settle o now out err n = elim err [
  | none ↦ record n { output = out; waiting_on = nothing; state = done; error = "" }
  | some x ↦
      let n' = record n {
        output = out;
        waiting_on = nothing;
        failures = increment n.failures;
        error = x.text;
      } in
      if not x.cacheable && less n'.failures (larger n'.max_attempts 1)
      then record n' {
        state = pending;
        waiting_on = for_retry;
        next_attempt_at = now + o.retry_backoff n'.failures;
      }
      else record n' { state = failed }
]

abbrev pub held_by : ℕ → Executor → Bool
held_by h e = elim (get_elem? e.objects h) [ none ↦ false | some a ↦ a.held ]

-- `delete(e.active, id)` and `cancel()`, after the object's slot is released if it was held.
unfoldable pub retire : ℕ → ℕ → Executor → Executor
retire id h e = record e {
  active = delete id e.active;
  objects = modify h (λ a. record a { held = false; canceled = true }) e.objects;
}

-- With the commit of `next` made.
unfoldable pub finish_end : Options → ℕ → Visits → ℕ → Node → Executor × Option Failure → Executor
unfolding start_timer close
finish_end o now v id next (e, some x) = e
finish_end o now v id next (e, none) =
    if is_pending next.state
    then start_timer id next.attempt next.next_attempt_at e
    else (close o now v id "parent action completed" e).0

-- The last section. With it the caller releases a slot if `held_by h e`. The context of the task
-- is canceled by `retire`, so the test on both contexts is one on the executor's.
unfoldable pub finish :
    Options
    → ℕ
    → Visits
    → (id h attempt : ℕ) (out : List ℕ) (err : Option Failure) → Executor
    → Executor
unfolding retire settle commit finish_end
finish o now v id h attempt out err e =
    let e' = retire id h e in
    if e'.stopped then e' else elim (lookup id e'.nodes) [
      | none ↦ e'
      | some n ↦
          if terminal n.state || not (n.attempt == attempt)
          then e'
          else let next = settle o now out err n in
            finish_end o now v id next (commit o now next e')
    ]
