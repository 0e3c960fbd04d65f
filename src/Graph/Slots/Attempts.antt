-- ===== src/Graph/Slots/Attempts.antt =====
-- The start and the end of an attempt, on the slots and on the map of the active attempts.
use lutra.Prelude.{
  ℕ, zero, suc, Bool, true, false, not, ◌||◌, List, [], ◌∷◌, ◌++◌, Option, none, some, ◌≡◌, refl,
  ◌∙◌, map, modify, arith, inl, inr, Option-cases, if_ind, length, ◌==◌, set, ap, sym,
}
use lutra.Prelude.Map.{lookup, insert, delete}
use lutra.Graph.Types.{terminal, is_ready, is_pending, Failure, Node, Options, Active, Executor}
use lutra.Graph.Commit.{start_timer}
use lutra.Graph.Close.{Visits}
use lutra.Graph.Execute.{
  Next, stop, run_task, attempt_of, activate, start_end, start_attempt, retire, settle, finish_end,
  finish,
}
use lutra.Graph.Calls.{leave_wait}
use lutra.Graph.System.{helds}
use lutra.Graph.Slots.Frame.{Keeps, Keeps-refl, Keeps-trans, commit-Keeps, close-Keeps}

-- A write of a field that is no slot, and a write of the slot.
pub helds-modify_same :
    (f : Active → Active) (h : ℕ) (xs : List Active)
    → ((a : Active) → (f a).held ≡ a.held)
    → map (λ a. a.held) (modify h f xs) ≡ map (λ a. a.held) xs
helds-modify_same f h [] q = refl
helds-modify_same f zero (x ∷ xs) q = ground (arith, q x)
helds-modify_same f (suc h) (x ∷ xs) q = ground (arith, helds-modify_same f h xs q)

pub helds-modify_to :
    (f : Active → Active) (b : Bool) (h : ℕ) (xs : List Active)
    → ((a : Active) → (f a).held ≡ b)
    → map (λ a. a.held) (modify h f xs) ≡ set (map (λ a. a.held) xs) h b
helds-modify_to f b h [] q = refl
helds-modify_to f b zero (x ∷ xs) q = ground (arith, q x)
helds-modify_to f b (suc h) (x ∷ xs) q = ground (arith, helds-modify_to f b h xs q)

pub leave_wait-Keeps : (h : ℕ) (e : Executor) → Keeps e (leave_wait h e)
unfolding leave_wait
leave_wait-Keeps h e = record {
  same_helds = helds-modify_same _ h e.objects (λ a. refl);
  same_active = refl;
}

helds-append :
    (xs ys : List Active)
    → map (λ a. a.held) (xs ++ ys) ≡ map (λ a. a.held) xs ++ map (λ a. a.held) ys
helds-append [] ys = refl
helds-append (x ∷ xs) ys = ap (◌∷◌ x.held) (helds-append xs ys)

length-helds : (xs : List Active) → length (map (λ a. a.held) xs) ≡ length xs
length-helds [] = refl
length-helds (x ∷ xs) = ap suc (length-helds xs)

-- The start of an attempt: refused, or with a new object that holds the slot.
pub data Began (id : ℕ) (e : Executor) (r : Executor × Next) : Type 0 where
  refuses : Keeps e r.0 → r.1 ≡ stop → Began id e r
  opens :
      (attempt : ℕ)
      → helds r.0 ≡ helds e ++ true ∷ []
      → r.0.active ≡ insert id (length (helds e)) e.active
      → r.1 ≡ run_task (length (helds e)) attempt
      → Began id e r

module _ (o : Options) (now : ℕ) where
  start_end-Began :
      (id attempt : ℕ) (e : Executor) (x : Executor × Option Failure)
      → Keeps e x.0
      → Began id e (start_end id attempt x)
  unfolding start_end activate
  start_end-Began id attempt e (f, some x) k = refuses k refl
  start_end-Began id attempt e (f, none) k =
      let n : length f.objects ≡ length (helds e) =
        sym (length-helds f.objects) ∙ ap length k.same_helds in
      opens attempt (helds-append f.objects _ ∙ ap (λ l. l ++ true ∷ []) k.same_helds)
        (rw (n, k.same_active)) (rw n)

  pub start_attempt-Began : (id : ℕ) (e : Executor) → Began id e (start_attempt o now id e)
  unfolding start_attempt
  start_attempt-Began id e = elim (Option-cases (lookup id e.nodes)) [
    | inl absent ↦ rw (absent, start_attempt) (refuses (Keeps-refl e) refl)
    | inr (n, h) ↦
        rw (h, start_attempt)
          (if_ind (λ (r : Executor × Next). Began id e r) (not (is_ready n.state) || e.stopped)
            (λ _. refuses (Keeps-refl e) refl)
            (λ _. start_end-Began id _ e _ (commit-Keeps o now (attempt_of n) e)))
  ]

  finish_end-Keeps :
      (v : Visits) (id : ℕ) (next : Node) (e : Executor) (x : Executor × Option Failure)
      → Keeps e x.0
      → Keeps e (finish_end o now v id next x)
  unfolding finish_end start_timer
  finish_end-Keeps v id next e (f, some x) k = k
  finish_end-Keeps v id next e (f, none) k =
      if_ind (Keeps e) (is_pending next.state)
        (λ _. record { same_helds = k.same_helds; same_active = k.same_active })
        (λ _. Keeps-trans k (close-Keeps o now v id _ f))

  pub finish-retire :
      (v : Visits) (id h attempt : ℕ) (out : List ℕ) (err : Option Failure) (e : Executor)
      → Keeps (retire id h e) (finish o now v id h attempt out err e)
  unfolding finish retire
  finish-retire v id h attempt out err e =
      let e' = retire id h e in
      if_ind (Keeps e') e.stopped (λ _. Keeps-refl e')
        λ _. elim (Option-cases (lookup id e.nodes)) [
          | inl absent ↦ rw absent (Keeps-refl e')
          | inr (n, p) ↦ rw p (
              if_ind (Keeps e') (terminal n.state || not (n.attempt == attempt))
                (λ _. Keeps-refl e')
                (λ _.
                  finish_end-Keeps v id (settle o now out err n) e' _ (commit-Keeps o now _ e')))
        ]

pub retire_slots :
    (id h : ℕ) (e : Executor)
    → (helds (retire id h e) ≡ set (helds e) h false)
      × ((retire id h e).active ≡ delete id e.active)
unfolding retire
retire_slots id h e = (helds-modify_to _ false h e.objects (λ a. refl), refl)
