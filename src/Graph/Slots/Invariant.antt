-- ===== src/Graph/Slots/Invariant.antt =====
-- The invariant on the slots, and the steps that change no count of it.
use lutra.Prelude.{
  ℕ, ◌+◌, ◌≤◌, ◌==◌, List, [], ◌∷◌, ◌++◌, some, ◌≡◌, refl, get_elem?, set, length, total,
  total-append, total-set, arith, true, false, if◌then◌else◌, map,
}
use lutra.Prelude.Map.{lookup}
use lutra.Graph.Types.{Options, Executor}
use lutra.Graph.System.{
  Thread, executing, resuming, spawned, running, slotless, slotted, System, capacity, bit, helds,
  holds, locks,
}
use lutra.Graph.Slots.Frame.{Keeps}

-- What is counted over the goroutines.
pub data Weight : Type 0 where
  holding : Weight
  -- they have the `resumeMu` of the object, and they are about to take a slot for it
  locking seeking : (object : ℕ) → Weight
  -- they run the object's attempt, for the node or for any
  running_as : (id object : ℕ) → Weight
  running_any : (object : ℕ) → Weight

abbrev pub seeks : ℕ → Thread → ℕ
seeks h (resuming parent attempt j slotless) = bit (j == h)
seeks h (resuming parent attempt j slotted) = bit (j == h)
seeks h _ = 0

abbrev pub runs : ℕ → ℕ → Thread → ℕ
runs id h (executing j (running k attempt)) = if j == id then bit (k == h) else 0
runs id h _ = 0

abbrev pub runs_any : ℕ → Thread → ℕ
runs_any h (executing j (running k attempt)) = bit (k == h)
runs_any h _ = 0

abbrev pub weigh : Weight → Thread → ℕ
weigh holding = holds
weigh (locking h) = locks h
weigh (seeking h) = seeks h
weigh (running_as id h) = runs id h
weigh (running_any h) = runs_any h

abbrev pub count : Weight → List Thread → ℕ
count w = total (weigh w)

-- One goroutine moves, from `t` to `t'`.
pub moves :
    (ts : List Thread) (i : ℕ) (t t' : Thread)
    → get_elem? ts i ≡ some t
    → (w : Weight) → count w (set ts i t') + weigh w t ≡ count w ts + weigh w t'
moves ts i t t' at w = total-set (weigh w) ts i t' t at

pub record Slotted (o : Options) (s : System) : Type 0 where
  -- each slot in use is held by one goroutine or by one object
  pub exact : s.used ≡ count holding s.threads + total bit (helds s.exec)
  pub capped : s.used ≤ capacity o
  pub locked_once : (h : ℕ) → count (locking h) s.threads ≤ 1
  pub sought_free :
      (h : ℕ) → 1 ≤ count (seeking h) s.threads → get_elem? (helds s.exec) h ≡ some false
  pub owned : (p h : ℕ) → lookup p s.exec.active ≡ some h → 1 ≤ count (running_as p h) s.threads
  pub run_once : (h : ℕ) → count (running_any h) s.threads ≤ 1
  pub run_known : (h : ℕ) → length (helds s.exec) ≤ h → count (running_any h) s.threads ≡ 0
  pub held_runs :
      (h : ℕ) → get_elem? (helds s.exec) h ≡ some true → 1 ≤ count (running_any h) s.threads

abbrev pub SameCounts : List Thread → List Thread → Type 0
SameCounts ts ts' = (w : Weight) → count w ts' ≡ count w ts

abbrev pub IsIdle : Thread → Type 0
IsIdle t = (w : Weight) → weigh w t ≡ 0

pub swap_idle :
    (ts : List Thread) (i : ℕ) (t t' : Thread)
    → get_elem? ts i ≡ some t
    → IsIdle t
    → IsIdle t'
    → SameCounts ts (set ts i t')
swap_idle ts i t t' at p q w = omega (arith, total-set (weigh w) ts i t' t at, p w, q w)

pub swap_same :
    (ts : List Thread) (i : ℕ) (t t' : Thread)
    → get_elem? ts i ≡ some t
    → ((w : Weight) → weigh w t' ≡ weigh w t)
    → SameCounts ts (set ts i t')
swap_same ts i t t' at p w = omega (arith, total-set (weigh w) ts i t' t at, p w)

pub append_idle : (ts us : List Thread) → ((w : Weight) → count w us ≡ 0) → SameCounts ts (ts ++ us)
append_idle ts us p w = omega (arith, total-append (weigh w) ts us, p w)

pub spawned-idle : (ids : List ℕ) (w : Weight) → count w (map (λ id. executing id spawned) ids) ≡ 0
spawned-idle [] w = refl
spawned-idle (id ∷ ids) holding = omega (arith, spawned-idle ids holding)
spawned-idle (id ∷ ids) (locking h) = omega (arith, spawned-idle ids (locking h))
spawned-idle (id ∷ ids) (seeking h) = omega (arith, spawned-idle ids (seeking h))
spawned-idle (id ∷ ids) (running_as p h) = omega (arith, spawned-idle ids (running_as p h))
spawned-idle (id ∷ ids) (running_any h) = omega (arith, spawned-idle ids (running_any h))

-- A step that moves no slot and no attempt.
pub same-Slotted :
    (o : Options) (s : System) (e' : Executor) (ts' : List Thread)
    → Keeps s.exec e'
    → SameCounts s.threads ts'
    → Slotted o s
    → Slotted o (record { exec = e'; used = s.used; threads = ts' })
same-Slotted o s e' ts' k c v = record {
  exact = rw (k.same_helds, c holding) v.exact;
  capped = v.capped;
  locked_once = λ h. rw (c (locking h)) (v.locked_once h);
  sought_free = λ h p. rw k.same_helds (v.sought_free h (rw (← c (seeking h)) p));
  owned = λ p h q. rw (c (running_as p h)) (v.owned p h (rw (← k.same_active) q));
  run_once = λ h. rw (c (running_any h)) (v.run_once h);
  run_known = λ h q. rw (c (running_any h)) (v.run_known h (rw (← k.same_helds) q));
  held_runs = λ h q. rw (c (running_any h)) (v.held_runs h (rw (← k.same_helds) q));
}
