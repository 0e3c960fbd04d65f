-- ===== src/Graph/Slots/Account.antt =====
-- The account of the slots over the sections that take or give one.
use lutra.Prelude.{
  ℕ, zero, suc, ◌-◌, ◌<◌, List, [], ◌∷◌, ◌++◌, Option, some, none, ◌≡◌, refl, ◌∙◌, ap, get_elem?,
  set, length, arith, true, false, Bool, map,
}
use native.Mathlib.Decide.{dec_lt}
use lutra.Graph.Types.{Options, Active, Executor, Failure}
use lutra.Graph.Close.{Visits}
use lutra.Graph.Execute.{Next, held_by, finish}
use lutra.Graph.Calls.{Waiting, parked, Resumed, returns, acquires, check_resume}
use lutra.Graph.System.{
  exited, executing, resuming, acquired, running, cleared, slotted, System, helds, release,
  join_wait, gave_up, releasing, launched, after_check,
}
use lutra.Graph.Slots.Frame.{Keeps-refl}
use lutra.Graph.Slots.Attempts.{Began, refuses, opens, finish-retire, retire_slots}
use lutra.Graph.Slots.Waits.{
  get_elem?-helds, Entered, keeps, yields, Resumes, returns_slot, takes_slot,
}
use lutra.Graph.Slots.Invariant.{
  holding, locking, running_any, count, moves, append_idle, swap_same, Slotted, same-Slotted,
}
use lutra.Graph.Slots.Steps.{leave-Slotted, seek-Slotted}
use lutra.Graph.Slots.Ends.{open-Slotted, finish-Slotted, yield-Slotted, resume-Slotted}
use lutra.Graph.Slots.Idle.{join_wait-idle}

-- The object of a running attempt is in place.
pub held_by-get_elem? :
    (xs : List Active) (h : ℕ)
    → h < length (map (λ a. a.held) xs)
    → get_elem? (map (λ a. a.held) xs) h
      ≡ some (elim (get_elem? xs h) as (λ _. Bool) [ none ↦ false | some a ↦ a.held ])
held_by-get_elem? [] h p = absurd (omega arith)
held_by-get_elem? (x ∷ xs) zero p = refl
held_by-get_elem? (x ∷ xs) (suc h) p = held_by-get_elem? xs h (omega arith)

module _ (o : Options) (s : System) (v : Slotted o s) where
  pub begun-Slotted :
      (i id : ℕ) (r : Executor × Next)
      → get_elem? s.threads i ≡ some (executing id acquired)
      → Began id s.exec r
      → Slotted o
          (record { exec = r.0; used = s.used; threads = set s.threads i (launched id r.1) })
  begun-Slotted i id (e', x) at (refuses k p) = rw p (
      same-Slotted o s e' _ k
        (swap_same s.threads i (executing id acquired) (executing id releasing) at
          (λ w. ground arith))
        v)
  begun-Slotted i id (e', x) at (opens attempt hs act p) =
      rw p (open-Slotted o s v e' i id attempt at hs act)

  pub released-Slotted :
      (i id : ℕ)
      → get_elem? s.threads i ≡ some (executing id releasing)
      → Slotted o (record s { used = s.used - 1; threads = set s.threads i exited })
  released-Slotted i id at =
      leave-Slotted o s v s.exec i (executing id releasing) (s.used - 1) at (Keeps-refl s.exec)
        (ground (arith, v.exact, moves s.threads i (executing id releasing) exited at holding))
        (λ p h. refl) (λ h. refl)

  pub Entered-Slotted :
      (parent attempt : ℕ) (r : Executor × Waiting)
      → Entered s.exec r
      → Slotted o (record {
        exec = r.0;
        used = release (gave_up r.1) s.used;
        threads = s.threads ++ join_wait parent attempt r.1;
      })
  Entered-Slotted parent attempt (e', x) (keeps k p) =
      rw p (same-Slotted o s e' _ k (append_idle s.threads _ (join_wait-idle parent attempt x)) v)
  Entered-Slotted parent attempt (e', x) (yields h has hs act p) =
      rw p (yield-Slotted o s v e' 0 h _ has hs act (join_wait-idle parent attempt (parked h true)))

  pub resumed-Slotted :
      (i parent attempt h : ℕ) (r : Executor × Bool × Option Failure)
      → get_elem? s.threads i ≡ some (resuming parent attempt h slotted)
      → Resumes parent h s.exec r
      → Slotted o
          (record { exec = r.0; used = release r.1 s.used; threads = set s.threads i exited })
  resumed-Slotted i parent attempt h (e', b, x) at (returns_slot k p) = rw p (
      leave-Slotted o s v e' i (resuming parent attempt h slotted) (s.used - 1) at k
        (ground
          (arith, v.exact, moves s.threads i (resuming parent attempt h slotted) exited at holding))
        (λ p h. refl) (λ h. refl))
  resumed-Slotted i parent attempt h (e', b, x) at (takes_slot mine hs act p) =
      rw p (resume-Slotted o s v e' i parent attempt h at mine hs act)

  pub finished-Slotted :
      (now : ℕ) (w : Visits) (i id h attempt : ℕ) (out : List ℕ) (err : Option Failure)
      → get_elem? s.threads i ≡ some (executing id (running h attempt))
      → count (locking h) s.threads ≡ 0
      → Slotted o (record {
        exec = finish o now w id h attempt out err s.exec;
        used = release (held_by h s.exec) s.used;
        threads = set s.threads i exited;
      })
  finished-Slotted now w i id h attempt out err at free =
      let k = finish-retire o now w id h attempt out err s.exec in
      let (hs, act) = retire_slots id h s.exec in
      finish-Slotted o s v _ i id h attempt (held_by h s.exec) at
        (held_by-get_elem? s.exec.objects h there) free (k.same_helds ∙ hs) (k.same_active ∙ act)
    where
      there : h < length (helds s.exec)
      there = elim (dec_lt h (length (helds s.exec))) [
        | yes p ↦ p
        | no p ↦ absurd (
            ground (
              arith,
              v.run_known h,
              moves s.threads i (executing id (running h attempt)) exited at (running_any h),
            ))
      ]

-- `resume` goes for a slot only where the object holds none.
pub check_resume-acquires :
    (parent attempt h : ℕ) (a : Active) (e : Executor)
    → get_elem? e.objects h ≡ some a
    → check_resume parent attempt h e ≡ acquires
    → a.held ≡ false
unfolding check_resume
check_resume-acquires parent attempt h a e found q = ground arith

module _ (o : Options) (s : System) (v : Slotted o s) where
  pub checked-Slotted :
      (i parent attempt h : ℕ) (a : Active)
      → get_elem? s.threads i ≡ some (resuming parent attempt h cleared)
      → get_elem? s.exec.objects h ≡ some a
      → (r : Resumed) → check_resume parent attempt h s.exec ≡ r
      → Slotted o (record s { threads = set s.threads i (after_check parent attempt h r) })
  checked-Slotted i parent attempt h a at found (returns x) q =
      leave-Slotted o s v s.exec i (resuming parent attempt h cleared) s.used at (Keeps-refl s.exec)
        (omega arith) (λ p h. refl) (λ h. refl)
  checked-Slotted i parent attempt h a at found acquires q =
      seek-Slotted o s v i parent attempt h at (
        get_elem?-helds s.exec.objects h a found
        ∙ ap some (check_resume-acquires parent attempt h a s.exec found q))
