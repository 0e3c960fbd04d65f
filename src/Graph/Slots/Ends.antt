-- ===== src/Graph/Slots/Ends.antt =====
-- The start and the end of an attempt, and the moves of its slot, keep the invariant.
use native.Mathlib.Decide.{ℕ_discrete}
use lutra.Prelude.{
  ℕ, ◌+◌, ◌-◌, ◌≤◌, List, [], ◌∷◌, ◌++◌, some, ◌≡◌, ◌∙◌, sym, ap, get_elem?, set, length,
  length-append, total-append, arith, true, false, Bool, inl, inr,
}
use lutra.Prelude.Map.{lookup, insert, delete, lookup-insert, lookup-delete}
use lutra.Graph.Types.{Options, Executor}
use lutra.Graph.System.{
  Thread, exited, executing, resuming, acquired, running, slotted, System, bit, helds, release,
}
use lutra.Graph.Slots.Invariant.{
  Weight, holding, locking, seeking, running_as, running_any, weigh, count, moves, append_idle,
  Slotted,
}
use lutra.Graph.Slots.Bits.{
  total-set-bit, length-set, get_elem?-set-true, get_elem?-set-false, get_elem?-set_ne,
  get_elem?-set_self, get_elem?-snoc, get_elem?-append,
}

module _ (o : Options) (s : System) (v : Slotted o s) (e' : Executor) (i : ℕ) where
  -- A new attempt: its object takes over the slot of the goroutine.
  pub open-Slotted :
      (id attempt : ℕ)
      → get_elem? s.threads i ≡ some (executing id acquired)
      → helds e' ≡ helds s.exec ++ true ∷ []
      → e'.active ≡ insert id (length (helds s.exec)) s.exec.active
      → Slotted o (record {
        exec = e';
        used = s.used;
        threads = set s.threads i (executing id (running (length (helds s.exec)) attempt));
      })
  open-Slotted id attempt at hs act = record {
    exact = rw hs (omega (arith, v.exact, m holding, total-append bit (helds s.exec) (true ∷ [])));
    capped = v.capped;
    locked_once = λ h. omega (arith, v.locked_once h, m (locking h));
    sought_free = λ h q. rw hs (
        get_elem?-append (helds s.exec) _ h false (v.sought_free h (omega (arith, m (seeking h)))));
    owned = λ p h q.
        let old = v.owned p h in
        let step = lookup-insert id p new s.exec.active in
        ground (arith, step, ap (lookup p) act, old, m (running_as p h));
    run_once = λ h. ground (arith, v.run_once h, v.run_known h, m (running_any h));
    run_known = λ h q.
        let n : length (helds e') ≡ new + 1 =
          ap length hs ∙ length-append (helds s.exec) (true ∷ []) in
        ground (arith, v.run_known h, m (running_any h), n);
    held_runs = λ h q. elim (get_elem?-snoc (helds s.exec) h (rw (← hs) q)) [
      | inl old ↦ omega (arith, v.held_runs h old, m (running_any h))
      | inr here ↦ ground (arith, m (running_any h))
    ];
  }
    where
      new : ℕ
      new = length (helds s.exec)

      t' : Thread
      t' = executing id (running new attempt)

      m :
          (w : Weight)
          → count w (set s.threads i t') + weigh w (executing id acquired)
            ≡ count w s.threads + weigh w t'
      m = moves s.threads i (executing id acquired) t' at

-- Who seeks a slot for an object has its `resumeMu`; who runs it for a node runs it.
seeks-locks : (h : ℕ) (ts : List Thread) → count (seeking h) ts ≤ count (locking h) ts
seeks-locks h [] = omega arith
seeks-locks h (t ∷ ts) = omega (arith, seek t, seeks-locks h ts)
  where
    seek : (t : Thread) → weigh (seeking h) t ≤ weigh (locking h) t
    seek t = ground arith

runs-le : (p h : ℕ) (ts : List Thread) → count (running_as p h) ts ≤ count (running_any h) ts
runs-le p h [] = omega arith
runs-le p h (t ∷ ts) = omega (arith, run t, runs-le p h ts)
  where
    run : (t : Thread) → weigh (running_as p h) t ≤ weigh (running_any h) t
    run t = ground arith

-- What an attempt's end takes from the counts: one of the node and of the object.
module _ (o : Options) (s : System) (v : Slotted o s) (e' : Executor) (i : ℕ) where
  -- A goroutine of `execute` exits, and its object holds no slot any more.
  pub finish-Slotted :
      (id h attempt : ℕ) (b : Bool)
      → get_elem? s.threads i ≡ some (executing id (running h attempt))
      → get_elem? (helds s.exec) h ≡ some b
      → count (locking h) s.threads ≡ 0
      → helds e' ≡ set (helds s.exec) h false
      → e'.active ≡ delete id s.exec.active
      → Slotted o (record { exec = e'; used = release b s.used; threads = set s.threads i exited })
  finish-Slotted id h attempt b at has free hs act = record {
    exact = rw hs (ground (arith, v.exact, m holding, total-set-bit (helds s.exec) h b false has));
    capped = ground (arith, v.capped);
    locked_once = λ j. omega (arith, v.locked_once j, m (locking j));
    sought_free = λ j q.
        rw hs
          (get_elem?-set-false (helds s.exec) h j (v.sought_free j (omega (arith, m (seeking j)))));
    owned = λ p j q.
        let step = lookup-delete id p s.exec.active in
        ground (arith, step, ap (lookup p) act, v.owned p j, m (running_as p j));
    run_once = λ j. omega (arith, v.run_once j, m (running_any j));
    run_known = λ j q.
        let n : length (helds e') ≡ length (helds s.exec) =
          ap length hs ∙ length-set (helds s.exec) h false in
        omega (arith, v.run_known j (omega arith), m (running_any j));
    held_runs = λ j q.
        let q' = get_elem?-set-true (helds s.exec) h j (rw (← hs) q) in
        let self = get_elem?-set_self (helds s.exec) h b false has in
        ground (arith, v.held_runs j q', m (running_any j), self, ap (λ l. get_elem? l h) hs);
  }
    where
      m :
          (w : Weight)
          → count w (set s.threads i exited) + weigh w (executing id (running h attempt))
            ≡ count w s.threads + weigh w exited
      m = moves s.threads i (executing id (running h attempt)) exited at

  -- `Wait` gives the slot of the parent's attempt back, and a goroutine that holds none joins.
  pub yield-Slotted :
      (h : ℕ) (us : List Thread)
      → get_elem? (helds s.exec) h ≡ some true
      → helds e' ≡ set (helds s.exec) h false
      → e'.active ≡ s.exec.active
      → ((w : Weight) → count w us ≡ 0)
      → Slotted o (record { exec = e'; used = s.used - 1; threads = s.threads ++ us })
  yield-Slotted h us has hs act idle = record {
    exact =
        rw hs (omega (arith, v.exact, m holding, total-set-bit (helds s.exec) h true false has));
    capped = omega (arith, v.capped);
    locked_once = λ j. omega (arith, v.locked_once j, m (locking j));
    sought_free = λ j q.
        rw hs
          (get_elem?-set-false (helds s.exec) h j (v.sought_free j (omega (arith, m (seeking j)))));
    owned = λ p j q. omega (arith, v.owned p j (rw (← act) q), m (running_as p j));
    run_once = λ j. omega (arith, v.run_once j, m (running_any j));
    run_known = λ j q.
        let n : length (helds e') ≡ length (helds s.exec) =
          ap length hs ∙ length-set (helds s.exec) h false in
        omega (arith, v.run_known j (omega arith), m (running_any j));
    held_runs = λ j q.
        let q' = get_elem?-set-true (helds s.exec) h j (rw (← hs) q) in
        omega (arith, v.held_runs j q', m (running_any j));
  }
    where
      m : (w : Weight) → count w (s.threads ++ us) ≡ count w s.threads
      m = append_idle s.threads us idle

  -- The end of `resume` hands the slot of the goroutine to the object.
  pub resume-Slotted :
      (p a h : ℕ)
      → get_elem? s.threads i ≡ some (resuming p a h slotted)
      → lookup p s.exec.active ≡ some h
      → helds e' ≡ set (helds s.exec) h true
      → e'.active ≡ s.exec.active
      → Slotted o (record { exec = e'; used = s.used; threads = set s.threads i exited })
  resume-Slotted p a h at mine hs act = record {
    exact =
        rw hs (omega (arith, v.exact, m holding, total-set-bit (helds s.exec) h false true was));
    capped = v.capped;
    locked_once = λ j. omega (arith, v.locked_once j, m (locking j));
    sought_free = λ j q. elim (ℕ_discrete h j) [
      | yes here ↦ absurd (
          ground (arith, m (seeking j), m (locking j), v.locked_once j, seeks-locks j s.threads, q))
      | no elsewhere ↦ rw hs (
          get_elem?-set_ne (helds s.exec) h j true elsewhere
          ∙ v.sought_free j (omega (arith, m (seeking j))))
    ];
    owned = λ r j q. omega (arith, v.owned r j (rw (← act) q), m (running_as r j));
    run_once = λ j. omega (arith, v.run_once j, m (running_any j));
    run_known = λ j q.
        let n : length (helds e') ≡ length (helds s.exec) =
          ap length hs ∙ length-set (helds s.exec) h true in
        omega (arith, v.run_known j (omega arith), m (running_any j));
    held_runs = λ j q. elim (ℕ_discrete h j) [
      | yes here ↦ ground (arith, v.owned p h mine, runs-le p h s.threads, m (running_any j), here)
      | no elsewhere ↦
          let q' : get_elem? (helds s.exec) j ≡ some true =
            sym (get_elem?-set_ne (helds s.exec) h j true elsewhere) ∙ rw (← hs) q in
          omega (arith, v.held_runs j q', m (running_any j))
    ];
  }
    where
      t : Thread
      t = resuming p a h slotted

      m :
          (w : Weight)
          → count w (set s.threads i exited) + weigh w t ≡ count w s.threads + weigh w exited
      m = moves s.threads i t exited at

      here : weigh (seeking h) t ≡ 1
      here = ground arith

      was : get_elem? (helds s.exec) h ≡ some false
      was = v.sought_free h (omega (arith, m (seeking h), here))
