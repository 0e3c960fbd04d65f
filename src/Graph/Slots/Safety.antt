-- ===== src/Graph/Slots/Safety.antt =====
-- Every interleaving keeps the slots accounted for.
use lutra.Prelude.{
  ℕ, suc, List, [], ◌∷◌, some, ◌≡◌, refl, ap, get_elem?, total, arith, true, false, Bool, ◌≢◌,
}
use lutra.Prelude.Map.{lookup}
use lutra.Graph.Types.{Options, Node, Executor}
use lutra.Graph.Calls.{new, restore, restore_node, empty_executor}
use lutra.Graph.Run.{run_turn}
use lutra.Graph.System.{
  Thread, exited, executing, waiting, resuming, spawned, looking, ensuring, acquiring, acquired,
  before, slotless, slotted, System, bit, helds, fresh, Step, Reach, here, later, starts, turns,
  stops, begins, looks_up, ensures, acquires_slot, gives_up, starts_attempt, releases_slot,
  finishes, fires, adds, enters_wait, leaves_wait, locks_resume, stops_looping, checks_resume,
  resumes_slot, gives_up_resume, ends_resume, cancels, cancels_subtree,
}
use lutra.Graph.Slots.Frame.{Keeps, Keeps-refl, Keeps-trans, cancel_run-Keeps, cancel_subtree-Keeps}
use lutra.Graph.Slots.Moves.{
  begin-Keeps, after_lookup-Keeps, after_ensure-Keeps, fire-Keeps, add-Keeps, start_run-Keeps,
  run_turn-Keeps,
}
use lutra.Graph.Slots.Attempts.{start_attempt-Began, leave_wait-Keeps}
use lutra.Graph.Slots.Waits.{enter_wait-Entered, end_resume-Resumes}
use lutra.Graph.Slots.Invariant.{
  Weight, holding, running_any, weigh, count, swap_idle, append_idle, Slotted, same-Slotted,
}
use lutra.Graph.Slots.Steps.{take_slot-Slotted, leave-Slotted, lock-Slotted, clear-Slotted}
use lutra.Graph.Slots.Idle.{
  exited-IsIdle, after-IsIdle, begin-Modest, after_lookup-Modest, after_ensure-Modest, started-idle,
  stopped-Keeps,
}
use lutra.Graph.Slots.Account.{
  begun-Slotted, released-Slotted, Entered-Slotted, resumed-Slotted, finished-Slotted,
  checked-Slotted,
}

-- Every step of the goroutines keeps the account of the slots.
Step-Slotted : {o : Options} {s t : System} → Step o s t → Slotted o s → Slotted o t
Step-Slotted {o} {s} (starts now order) v =
    same-Slotted o s _ s.threads (start_run-Keeps o now order s.exec) (λ w. refl) v
Step-Slotted {o} {s} (turns now w order x root) v =
    same-Slotted o s _ _ (run_turn-Keeps o now w order x root s.exec)
      (append_idle s.threads _ (started-idle (run_turn o now w order x root s.exec).1)) v
Step-Slotted {o} {s} stops v = same-Slotted o s _ s.threads (stopped-Keeps s.exec) (λ w. refl) v
Step-Slotted {o} {s} (begins now i id at) v =
    same-Slotted o s _ _ (begin-Keeps o now id s.exec)
      (swap_idle s.threads i (executing id spawned) _ at (λ w. ground arith)
        (after-IsIdle id _ (begin-Modest o now id s.exec)))
      v
Step-Slotted {o} {s} (looks_up now w i id a at) v =
    same-Slotted o s _ _ (after_lookup-Keeps o now w id a s.exec)
      (swap_idle s.threads i (executing id looking) _ at (λ w. ground arith)
        (after-IsIdle id _ (after_lookup-Modest o now id s.exec w a)))
      v
Step-Slotted {o} {s} (ensures now w i id x at) v =
    same-Slotted o s _ _ (after_ensure-Keeps o now w id x s.exec)
      (swap_idle s.threads i (executing id ensuring) _ at (λ w. ground arith)
        (after-IsIdle id _ (after_ensure-Modest o now id s.exec w x)))
      v
Step-Slotted {o} {s} (acquires_slot i id at room) v =
    take_slot-Slotted o s v i (executing id acquiring) (executing id acquired) at room refl refl
      (λ h. refl) (λ h. refl) (λ p h. refl) (λ h. refl)
Step-Slotted {o} {s} (gives_up i id at gone) v =
    same-Slotted o s s.exec _ (Keeps-refl s.exec)
      (swap_idle s.threads i (executing id acquiring) exited at (λ w. ground arith) exited-IsIdle) v
Step-Slotted {o} {s} (starts_attempt now i id at) v =
    begun-Slotted o s v i id _ at (start_attempt-Began o now id s.exec)
Step-Slotted {o} {s} (releases_slot i id at) v = released-Slotted o s v i id at
Step-Slotted {o} {s} (finishes now w i id h attempt out err at free) v =
    finished-Slotted o s v now w i id h attempt out err at free
Step-Slotted {o} {s} (fires t) v =
    same-Slotted o s _ s.threads (fire-Keeps o 0 t s.exec) (λ w. refl) v
Step-Slotted {o} {s} (adds now ctx parent attempt node) v =
    same-Slotted o s _ s.threads (add-Keeps o now ctx parent attempt node s.exec) (λ w. refl) v
Step-Slotted {o} {s} (enters_wait now parent attempt child) v =
    Entered-Slotted o s v parent attempt _ (enter_wait-Entered o now parent attempt child s.exec)
Step-Slotted {o} {s} (leaves_wait i parent attempt h at) v =
    same-Slotted o s _ _ (leave_wait-Keeps h s.exec)
      (swap_idle s.threads i (waiting parent attempt h) (resuming parent attempt h before) at
        (λ w. ground arith) (λ w. ground arith))
      v
Step-Slotted {o} {s} (locks_resume i parent attempt h at free) v =
    lock-Slotted o s v i parent attempt h at free
Step-Slotted {o} {s} (stops_looping i parent attempt h a at found alone) v =
    clear-Slotted o s v i parent attempt h at
Step-Slotted {o} {s} (checks_resume i parent attempt h a at found) v =
    checked-Slotted o s v i parent attempt h a at found _ refl
Step-Slotted {o} {s} (resumes_slot i parent attempt h at room) v =
    take_slot-Slotted o s v i (resuming parent attempt h slotless)
      (resuming parent attempt h slotted) at room refl refl (λ h. refl) (λ h. refl) (λ p h. refl)
      (λ h. refl)
Step-Slotted {o} {s} (gives_up_resume i parent attempt h at gone) v =
    leave-Slotted o s v s.exec i (resuming parent attempt h slotless) s.used at (Keeps-refl s.exec)
      (omega arith) (λ p h. refl) (λ h. refl)
Step-Slotted {o} {s} (ends_resume now i parent attempt h at) v =
    resumed-Slotted o s v i parent attempt h _ at (end_resume-Resumes o now parent h s.exec)
Step-Slotted {o} {s} (cancels now w) v =
    same-Slotted o s _ s.threads (cancel_run-Keeps o now w s.exec) (λ w. refl) v
Step-Slotted {o} {s} (cancels_subtree now w id) v =
    same-Slotted o s _ s.threads (cancel_subtree-Keeps o now w id s.exec) (λ w. refl) v

Reach-Slotted : {o : Options} {s t : System} → Reach o s t → Slotted o s → Slotted o t
Reach-Slotted here v = v
Reach-Slotted (later r st) v = Step-Slotted st (Reach-Slotted r v)

restore-Keeps : (snapshot : List Node) (e : Executor) → Keeps e (restore snapshot e)
unfolding restore
restore-Keeps [] e = Keeps-refl e
restore-Keeps (n ∷ snapshot) e =
    Keeps-trans (record { same_helds = refl; same_active = refl })
      (restore-Keeps snapshot (restore_node n e))

-- A new executor has no object and no active attempt.
new-Slotted : (o : Options) (snapshot : List Node) → Slotted o (fresh (new snapshot))
unfolding new lookup
new-Slotted o snapshot =
    let k = restore-Keeps snapshot empty_executor in
    same-Slotted o (fresh empty_executor) (new snapshot) [] k (λ w. refl)
      (record {
        exact = omega arith;
        capped = omega arith;
        locked_once = λ h. omega arith;
        sought_free = λ h q. absurd (omega arith);
        owned = λ p h q. cc;
        run_once = λ h. omega arith;
        run_known = λ h q. refl;
        held_runs = λ h q. cc;
      })

-- In every state that the goroutines of a new executor can reach, in any interleaving and with any
-- answers of the services, the slots in use are those held by the goroutines between an acquisition
-- and what becomes of it and those of the objects of running attempts, they are no more than the pool
-- has, which is one at least, at most one goroutine has an object's `resumeMu` and at most one runs
-- its attempt, an object for which `resume` acquires a slot holds none, and an object that holds a slot
-- is run by a goroutine.
pub new-Reach-Slotted :
    (o : Options) (snapshot : List Node) (s : System)
    → Reach o (fresh (new snapshot)) s
    → Slotted o s
new-Reach-Slotted o snapshot s r = Reach-Slotted r (new-Slotted o snapshot)

abbrev pub AllExited : List Thread → Type 0
AllExited [] = Unit {0}
AllExited (t ∷ ts) = (t ≡ exited) × AllExited ts

count-exited : (w : Weight) (ts : List Thread) → AllExited ts → count w ts ≡ 0
count-exited w [] a = refl
count-exited w (t ∷ ts) a = omega (arith, count-exited w ts a.1, ap (weigh w) a.0, exited-IsIdle w)

total-bit_zero : (bs : List Bool) → ((h : ℕ) → get_elem? bs h ≢ some true) → total bit bs ≡ 0
total-bit_zero [] q = refl
total-bit_zero (true ∷ bs) q = absurd (q 0 refl)
total-bit_zero (false ∷ bs) q = omega (arith, total-bit_zero bs (λ h. q (suc h)))

-- When all the goroutines of a new executor have exited, no slot is in use: none leaks.
pub AllExited-used :
    (o : Options) (snapshot : List Node) (s : System)
    → Reach o (fresh (new snapshot)) s
    → AllExited s.threads
    → s.used ≡ 0
AllExited-used o snapshot s r a =
    let v = new-Reach-Slotted o snapshot s r in
    omega (
      arith,
      v.exact,
      count-exited holding s.threads a,
      total-bit_zero (helds s.exec) (λ h p.
          absurd (omega (arith, v.held_runs h p, count-exited (running_any h) s.threads a))),
    )
