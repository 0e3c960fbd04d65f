-- ===== src/Graph/System.antt =====
-- The goroutines around the executor of internal/graphexec/executor.go, interleaved in any order.
-- A step is one critical section of `e.mu`, an acquisition of a slot or of an object's `resumeMu`, or a
-- release of a slot outside a section; what the services answer and which goroutine moves is left open.
use lutra.Prelude.{
  ℕ, ◌+◌, ◌-◌, ◌<◌, Bool, true, false, List, [], ◌∷◌, ◌++◌, Option, some, ◌≡◌, map, total,
  get_elem?, set, ◌==◌, if◌then◌else◌, ltb, ◌⊎◌,
}
use lutra.Graph.Types.{Failure, Node, Options, Active, Timer, Executor}
use lutra.Graph.Commit.{fire}
use lutra.Graph.Close.{Visits, cancel_run, cancel_subtree}
use lutra.Graph.Execute.{
  Next, stop, lookup_cache, ensure_image, acquire_slot, run_task, Answer, begin, after_lookup,
  after_ensure, start_attempt, held_by, finish,
}
use lutra.Graph.Calls.{
  add, Waiting, refused, ready_with, parked, enter_wait, leave_wait, object_gone, Resumed, returns,
  acquires, check_resume, end_resume,
}
use lutra.Graph.Run.{Turn, ends, waits, start_run, run_turn}

-- Where a goroutine of `execute` stands, between two sections; `releasing` is where it has a slot and
-- starts no attempt.
pub data Stage : Type 0 where
  spawned looking ensuring acquiring acquired releasing : Stage
  running : (object attempt : ℕ) → Stage

-- Where a call of `Wait` stands in `resume`: before `resumeMu`, with it, behind the loop that waits for
-- the other calls, waiting for a slot, with one.
pub data Resuming : Type 0 where
  before locked cleared slotless slotted : Resuming

pub data Thread : Type 0 where
  exited : Thread
  executing : (id : ℕ) → Stage → Thread
  -- the loop of `Wait`
  waiting : (parent attempt object : ℕ) → Thread
  resuming : (parent attempt object : ℕ) → Resuming → Thread

-- The slots of the pool that `NewSlots` makes.
abbrev pub capacity : Options → ℕ
capacity o = if ltb o.slots 1 then 1 else o.slots

pub record System : Type 0 where
  pub exec : Executor
  -- the slots in use: the length of the channel of `slotPool`
  pub used : ℕ
  pub threads : List Thread

-- What the goroutine does next; a slot that it holds is not part of it.
abbrev pub after : ℕ → Next → Thread
after id stop = exited
after id lookup_cache = executing id looking
after id ensure_image = executing id ensuring
after id acquire_slot = executing id acquiring
after id (run_task h attempt) = executing id (running h attempt)

-- The same behind the section that starts an attempt, where one that stops has the slot.
abbrev pub launched : ℕ → Next → Thread
launched id stop = executing id releasing
launched id lookup_cache = after id lookup_cache
launched id ensure_image = after id ensure_image
launched id acquire_slot = after id acquire_slot
launched id (run_task h attempt) = after id (run_task h attempt)

-- The slots that a goroutine holds by itself, and those that the objects hold.
abbrev pub holds : Thread → ℕ
holds (executing id acquired) = 1
holds (executing id releasing) = 1
holds (resuming parent attempt h slotted) = 1
holds _ = 0

abbrev pub bit : Bool → ℕ
bit true = 1
bit false = 0

abbrev pub helds : Executor → List Bool
helds e = map (λ a. a.held) e.objects

-- Whether a goroutine has an object's `resumeMu`.
abbrev pub locks : ℕ → Thread → ℕ
locks h (resuming parent attempt j locked) = bit (j == h)
locks h (resuming parent attempt j cleared) = bit (j == h)
locks h (resuming parent attempt j slotless) = bit (j == h)
locks h (resuming parent attempt j slotted) = bit (j == h)
locks h _ = 0

abbrev pub release : Bool → ℕ → ℕ
release true used = used - 1
release false used = used

abbrev pub join_wait : (parent attempt : ℕ) → Waiting → List Thread
join_wait parent attempt (refused x) = []
join_wait parent attempt (ready_with h n) = resuming parent attempt h before ∷ []
join_wait parent attempt (parked h released) = waiting parent attempt h ∷ []

abbrev pub gave_up : Waiting → Bool
gave_up (parked h released) = released
gave_up _ = false

abbrev pub after_check : (parent attempt object : ℕ) → Resumed → Thread
after_check parent attempt h (returns x) = exited
after_check parent attempt h acquires = resuming parent attempt h slotless

abbrev pub started : Turn → List Thread
started (ends x) = []
started (waits ids) = map (λ id. executing id spawned) ids

-- A new executor before `Run`, with no goroutine.
abbrev pub fresh : Executor → System
fresh e = record { exec = e; used = 0; threads = [] }

module _ (o : Options) where
  pub data Step (s : System) : System → Type 0 where
    starts :
        (now : ℕ) (order : List ℕ) → Step s (record s { exec = (start_run now order s.exec).0 })
    turns :
        (now : ℕ) (v : Visits) (order : ℕ → List ℕ) (x : Failure) (root : ℕ)
        → Step s (record s {
          exec = (run_turn o now v order x root s.exec).0;
          threads = s.threads ++ started (run_turn o now v order x root s.exec).1;
        })
    -- the context of the caller of `Run` is done
    stops : Step s (record s { exec = record (s.exec) { stopped = true } })
    begins :
        (now i id : ℕ)
        → get_elem? s.threads i ≡ some (executing id spawned)
        → Step s (record s {
          exec = (begin o now id s.exec).0;
          threads = set s.threads i (after id (begin o now id s.exec).1);
        })
    looks_up :
        (now : ℕ) (v : Visits) (i id : ℕ) (a : Answer)
        → get_elem? s.threads i ≡ some (executing id looking)
        → Step s (record s {
          exec = (after_lookup o now v id a s.exec).0;
          threads = set s.threads i (after id (after_lookup o now v id a s.exec).1);
        })
    ensures :
        (now : ℕ) (v : Visits) (i id : ℕ) (x : Option Failure)
        → get_elem? s.threads i ≡ some (executing id ensuring)
        → Step s (record s {
          exec = (after_ensure o now v id x s.exec).0;
          threads = set s.threads i (after id (after_ensure o now v id x s.exec).1);
        })
    acquires_slot :
        (i id : ℕ)
        → get_elem? s.threads i ≡ some (executing id acquiring)
        → s.used < capacity o
        → Step s (record s { used = s.used + 1; threads = set s.threads i (executing id acquired) })
    -- `Acquire` returns the context's error
    gives_up :
        (i id : ℕ)
        → get_elem? s.threads i ≡ some (executing id acquiring)
        → s.exec.stopped ≡ true
        → Step s (record s { threads = set s.threads i exited })
    starts_attempt :
        (now i id : ℕ)
        → get_elem? s.threads i ≡ some (executing id acquired)
        → Step s (record s {
          exec = (start_attempt o now id s.exec).0;
          threads = set s.threads i (launched id (start_attempt o now id s.exec).1);
        })
    -- behind the section that has refused the attempt
    releases_slot :
        (i id : ℕ)
        → get_elem? s.threads i ≡ some (executing id releasing)
        → Step s (record s { used = s.used - 1; threads = set s.threads i exited })
    finishes :
        (now : ℕ) (v : Visits) (i id h attempt : ℕ) (out : List ℕ) (err : Option Failure)
        → get_elem? s.threads i ≡ some (executing id (running h attempt))
        → total (locks h) s.threads ≡ 0
        → Step s (record s {
          exec = finish o now v id h attempt out err s.exec;
          used = release (held_by h s.exec) s.used;
          threads = set s.threads i exited;
        })
    fires : (t : Timer) → Step s (record s { exec = fire t s.exec })
    adds :
        (now : ℕ) (ctx : Option Failure) (parent attempt : ℕ) (node : Node)
        → Step s (record s { exec = (add now ctx parent attempt node s.exec).0 })
    enters_wait :
        (now parent attempt child : ℕ)
        → Step s (record s {
          exec = (enter_wait o now parent attempt child s.exec).0;
          used = release (gave_up (enter_wait o now parent attempt child s.exec).1) s.used;
          threads =
              s.threads
              ++ join_wait parent attempt (enter_wait o now parent attempt child s.exec).1;
        })
    leaves_wait :
        (i parent attempt h : ℕ)
        → get_elem? s.threads i ≡ some (waiting parent attempt h)
        → Step s (record s {
          exec = leave_wait h s.exec;
          threads = set s.threads i (resuming parent attempt h before);
        })
    locks_resume :
        (i parent attempt h : ℕ)
        → get_elem? s.threads i ≡ some (resuming parent attempt h before)
        → total (locks h) s.threads ≡ 0
        → Step s (record s { threads = set s.threads i (resuming parent attempt h locked) })
    -- the section that ends the loop; the mutex is released behind it
    stops_looping :
        (i parent attempt h : ℕ) (a : Active)
        → get_elem? s.threads i ≡ some (resuming parent attempt h locked)
        → get_elem? s.exec.objects h ≡ some a
        → (a.waiters ≡ 0) ⊎ (object_gone h s.exec ≡ true)
        → Step s (record s { threads = set s.threads i (resuming parent attempt h cleared) })
    checks_resume :
        (i parent attempt h : ℕ) (a : Active)
        → get_elem? s.threads i ≡ some (resuming parent attempt h cleared)
        → get_elem? s.exec.objects h ≡ some a
        → Step s (record s {
          threads =
              set s.threads i (after_check parent attempt h (check_resume parent attempt h s.exec));
        })
    resumes_slot :
        (i parent attempt h : ℕ)
        → get_elem? s.threads i ≡ some (resuming parent attempt h slotless)
        → s.used < capacity o
        → Step s (record s {
          used = s.used + 1;
          threads = set s.threads i (resuming parent attempt h slotted);
        })
    gives_up_resume :
        (i parent attempt h : ℕ)
        → get_elem? s.threads i ≡ some (resuming parent attempt h slotless)
        → object_gone h s.exec ≡ true
        → Step s (record s { threads = set s.threads i exited })
    ends_resume :
        (now i parent attempt h : ℕ)
        → get_elem? s.threads i ≡ some (resuming parent attempt h slotted)
        → Step s (record s {
          exec = (end_resume o now parent h s.exec).0;
          used = release (end_resume o now parent h s.exec).1 s.used;
          threads = set s.threads i exited;
        })
    cancels : (now : ℕ) (v : Visits) → Step s (record s { exec = cancel_run o now v s.exec })
    cancels_subtree :
        (now : ℕ) (v : Visits) (id : ℕ)
        → Step s (record s { exec = (cancel_subtree o now v id s.exec).0 })

  pub data Reach (s : System) : System → Type 0 where
    here : Reach s s
    later : {t u : System} → Reach s t → Step t u → Reach s u
