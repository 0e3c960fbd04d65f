-- ===== src/Graph/Slots/Steps.antt =====
-- The steps that take or give a slot, start or end an attempt, or move a goroutine into `resumeMu`.
use lutra.Prelude.{ℕ, ◌+◌, ◌<◌, some, ◌≡◌, get_elem?, set, arith, false}
use native.Mathlib.Decide.{ℕ_discrete}
use lutra.Graph.Types.{Options, Executor}
use lutra.Graph.System.{
  Thread, exited, resuming, before, locked, cleared, slotless, System, capacity, helds,
}
use lutra.Graph.Slots.Frame.{Keeps, Keeps-refl}
use lutra.Graph.Slots.Invariant.{
  Weight, holding, locking, seeking, running_as, running_any, weigh, count, moves, swap_same,
  same-Slotted, Slotted,
}

-- A goroutine that waits for a slot takes one.
module _ (o : Options) (s : System) (v : Slotted o s) where
  pub take_slot-Slotted :
      (i : ℕ) (t t' : Thread)
      → get_elem? s.threads i ≡ some t
      → s.used < capacity o
      → weigh holding t ≡ 0
      → weigh holding t' ≡ 1
      → ((h : ℕ) → weigh (locking h) t' ≡ weigh (locking h) t)
      → ((h : ℕ) → weigh (seeking h) t' ≡ weigh (seeking h) t)
      → ((p h : ℕ) → weigh (running_as p h) t' ≡ weigh (running_as p h) t)
      → ((h : ℕ) → weigh (running_any h) t' ≡ weigh (running_any h) t)
      → Slotted o (record s { used = s.used + 1; threads = set s.threads i t' })
  take_slot-Slotted i t t' at room a b l k r n = record {
    exact = omega (arith, v.exact, m holding);
    capped = omega arith;
    locked_once = λ h. omega (arith, v.locked_once h, m (locking h), l h);
    sought_free = λ h p. v.sought_free h (omega (arith, m (seeking h), k h));
    owned = λ p h q. omega (arith, v.owned p h q, m (running_as p h), r p h);
    run_once = λ h. omega (arith, v.run_once h, m (running_any h), n h);
    run_known = λ h q. omega (arith, v.run_known h q, m (running_any h), n h);
    held_runs = λ h q. omega (arith, v.held_runs h q, m (running_any h), n h);
  }
    where
      m : (w : Weight) → count w (set s.threads i t') + weigh w t ≡ count w s.threads + weigh w t'
      m = moves s.threads i t t' at

  -- A goroutine that runs no attempt exits, with the slot that it may hold.
  pub leave-Slotted :
      (e' : Executor) (i : ℕ) (t : Thread) (used' : ℕ)
      → get_elem? s.threads i ≡ some t
      → Keeps s.exec e'
      → used' + weigh holding t ≡ s.used
      → ((p h : ℕ) → weigh (running_as p h) t ≡ 0)
      → ((h : ℕ) → weigh (running_any h) t ≡ 0)
      → Slotted o (record { exec = e'; used = used'; threads = set s.threads i exited })
  leave-Slotted e' i t used' at k u r n = record {
    exact = rw k.same_helds (omega (arith, v.exact, m holding, u));
    capped = omega (arith, v.capped, u);
    locked_once = λ h. omega (arith, v.locked_once h, m (locking h));
    sought_free = λ h p. rw k.same_helds (v.sought_free h (omega (arith, m (seeking h))));
    owned = λ p h q. omega (arith, v.owned p h (rw (← k.same_active) q), m (running_as p h), r p h);
    run_once = λ h. omega (arith, v.run_once h, m (running_any h), n h);
    run_known = λ h q. omega (arith, v.run_known h (rw (← k.same_helds) q), m (running_any h), n h);
    held_runs = λ h q. omega (arith, v.held_runs h (rw (← k.same_helds) q), m (running_any h), n h);
  }
    where
      m :
          (w : Weight)
          → count w (set s.threads i exited) + weigh w t ≡ count w s.threads + weigh w exited
      m = moves s.threads i t exited at

  -- `resume` takes an object's `resumeMu` that no goroutine has.
  pub lock-Slotted :
      (i p a h : ℕ)
      → get_elem? s.threads i ≡ some (resuming p a h before)
      → count (locking h) s.threads ≡ 0
      → Slotted o (record s { threads = set s.threads i (resuming p a h locked) })
  lock-Slotted i p a h at free = record {
    exact = omega (arith, v.exact, m holding);
    capped = v.capped;
    locked_once = λ j. ground (arith, v.locked_once j, m (locking j), free);
    sought_free = λ j q. v.sought_free j (omega (arith, m (seeking j)));
    owned = λ q j r. omega (arith, v.owned q j r, m (running_as q j));
    run_once = λ j. omega (arith, v.run_once j, m (running_any j));
    run_known = λ j q. omega (arith, v.run_known j q, m (running_any j));
    held_runs = λ j q. omega (arith, v.held_runs j q, m (running_any j));
  }
    where
      t' : Thread
      t' = resuming p a h locked

      m :
          (w : Weight)
          → count w (set s.threads i t') + weigh w (resuming p a h before)
            ≡ count w s.threads + weigh w t'
      m = moves s.threads i (resuming p a h before) t' at

  -- It goes on with `resumeMu` when no other call waits.
  pub clear-Slotted :
      (i p a h : ℕ)
      → get_elem? s.threads i ≡ some (resuming p a h locked)
      → Slotted o (record s { threads = set s.threads i (resuming p a h cleared) })
  clear-Slotted i p a h at =
      same-Slotted o s s.exec _ (Keeps-refl s.exec)
        (swap_same s.threads i (resuming p a h locked) (resuming p a h cleared) at
          (λ w. ground arith))
        v

  -- With `resumeMu`, it goes for a slot only if the object holds none.
  pub seek-Slotted :
      (i p a h : ℕ)
      → get_elem? s.threads i ≡ some (resuming p a h cleared)
      → get_elem? (helds s.exec) h ≡ some false
      → Slotted o (record s { threads = set s.threads i (resuming p a h slotless) })
  seek-Slotted i p a h at free = record {
    exact = omega (arith, v.exact, m holding);
    capped = v.capped;
    locked_once = λ j. omega (arith, v.locked_once j, m (locking j));
    sought_free = λ j q. elim (ℕ_discrete h j) [
      | yes here ↦ rw (← here) free
      | no elsewhere ↦ v.sought_free j (ground (arith, m (seeking j)))
    ];
    owned = λ q j r. omega (arith, v.owned q j r, m (running_as q j));
    run_once = λ j. omega (arith, v.run_once j, m (running_any j));
    run_known = λ j q. omega (arith, v.run_known j q, m (running_any j));
    held_runs = λ j q. omega (arith, v.held_runs j q, m (running_any j));
  }
    where
      t' : Thread
      t' = resuming p a h slotless

      m :
          (w : Weight)
          → count w (set s.threads i t') + weigh w (resuming p a h cleared)
            ≡ count w s.threads + weigh w t'
      m = moves s.threads i (resuming p a h cleared) t' at
