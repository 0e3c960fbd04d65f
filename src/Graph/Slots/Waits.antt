-- ===== src/Graph/Slots/Waits.antt =====
-- The calls of `Wait` and `resume`, on the slots and on the map of the active attempts.
use mathlib.Core.Option.{some_inj}
use lutra.Prelude.{
  ℕ, zero, suc, Bool, true, false, not, ◌||◌, List, [], ◌∷◌, Option, none, some, ◌≡◌, refl, ◌∙◌,
  map, arith, inl, inr, Option-cases, if_ind, get_elem?, set, ap,
}
use lutra.Prelude.Map.{lookup}
use lutra.Graph.Types.{running, nothing, terminal, Failure, Node, Options, Active, Executor}
use lutra.Graph.Calls.{
  Waiting, parked, admitted, park, park_end, has_parent, enter_wait, add_waiter, end_resume,
  is_active_object, object_gone, set_held,
}
use lutra.Graph.System.{helds, gave_up}
use lutra.Graph.Slots.Attempts.{helds-modify_same, helds-modify_to}
use lutra.Graph.Slots.Frame.{Keeps, Keeps-refl, commit-Keeps}

pub get_elem?-helds :
    (xs : List Active) (h : ℕ) (a : Active)
    → get_elem? xs h ≡ some a
    → get_elem? (map (λ a. a.held) xs) h ≡ some a.held
get_elem?-helds [] h a p = cc
get_elem?-helds (x ∷ xs) zero a p = ap (λ (b : Active). some b.held) (some_inj.0 p)
get_elem?-helds (x ∷ xs) (suc h) a p = get_elem?-helds xs h a p

-- The object of an admitted call is in place.
admitted_object :
    (parent attempt : ℕ) (e : Executor) (p : Node) (h : ℕ) (a : Active)
    → admitted parent attempt e ≡ some (p, h, a)
    → get_elem? e.objects h ≡ some a
unfolding admitted
admitted_object parent attempt e p h a q = ground arith

helds-add_waiter : (h : ℕ) (e : Executor) → helds (add_waiter h e) ≡ helds e
unfolding add_waiter
helds-add_waiter h e = helds-modify_same _ h e.objects (λ a. refl)

pub helds-set_held : (h : ℕ) (b : Bool) (e : Executor) → helds (set_held h b e) ≡ set (helds e) h b
unfolding set_held
helds-set_held h b e = helds-modify_to _ b h e.objects (λ a. refl)

-- A call of `Wait`: it changes no slot, or gives up the one of the parent's attempt.
pub data Entered (e : Executor) (r : Executor × Waiting) : Type 0 where
  keeps : Keeps e r.0 → gave_up r.1 ≡ false → Entered e r
  yields :
      (h : ℕ)
      → get_elem? (helds e) h ≡ some true
      → helds r.0 ≡ set (helds e) h false
      → r.0.active ≡ e.active
      → r.1 ≡ parked h true
      → Entered e r

-- The end of `resume`: the slot goes back to the pool, or to the object.
pub data Resumes (parent h : ℕ) (e : Executor) (r : Executor × Bool × Option Failure) : Type 0 where
  returns_slot : Keeps e r.0 → r.1 ≡ true → Resumes parent h e r
  takes_slot :
      lookup parent e.active ≡ some h
      → helds r.0 ≡ set (helds e) h true
      → r.0.active ≡ e.active
      → r.1 ≡ false
      → Resumes parent h e r

-- What the test of `end_resume` lets through.
active_object :
    (parent h : ℕ) (e : Executor)
    → is_active_object parent h e ≡ true
    → lookup parent e.active ≡ some h
unfolding is_active_object
active_object parent h e p = ground arith

passes : (b c d : Bool) → not b || c || d ≡ false → b ≡ true
passes b c d p = ground arith

set_held-active : (h : ℕ) (b : Bool) (e : Executor) → (set_held h b e).active ≡ e.active
unfolding set_held
set_held-active h b e = refl

module _ (o : Options) (now : ℕ) where
  park_end-Entered :
      (h : ℕ) (e : Executor) (x : Executor × Option Failure)
      → get_elem? (helds e) h ≡ some true
      → Keeps e x.0
      → Entered e (park_end h x)
  unfolding park_end add_waiter set_held
  park_end-Entered h e (f, some x) p k = keeps k refl
  park_end-Entered h e (f, none) p k =
      yields h p
        (helds-add_waiter h (set_held h false f)
          ∙ helds-set_held h false f
          ∙ ap (λ l. set l h false) k.same_helds)
        k.same_active refl

  park-Entered :
      (p : Node) (h : ℕ) (a : Active) (e : Executor)
      → get_elem? e.objects h ≡ some a
      → Entered e (park o now p h a e)
  unfolding park add_waiter
  park-Entered p h a e q =
      if_ind (λ (r : Executor × Waiting). Entered e r) (not a.held)
        (λ _. keeps (record { same_helds = helds-add_waiter h e; same_active = refl }) refl)
        λ held.
          let is_held : a.held ≡ true = ground arith in
          park_end-Entered h e _ (get_elem?-helds e.objects h a q ∙ ap some is_held)
            (commit-Keeps o now _ e)

  pub enter_wait-Entered :
      (parent attempt child : ℕ) (e : Executor)
      → Entered e (enter_wait o now parent attempt child e)
  unfolding enter_wait
  enter_wait-Entered parent attempt child e = elim (Option-cases (admitted parent attempt e)) [
    | inl no_call ↦ rw (no_call, enter_wait) (keeps (Keeps-refl e) refl)
    | inr ((p, h, a), q) ↦ elim (Option-cases (lookup child e.nodes)) [
      | inl absent ↦ rw (q, absent, enter_wait) (keeps (Keeps-refl e) refl)
      | inr (n, r) ↦
          let P = λ (r : Executor × Waiting). Entered e r in
          rw (q, r, enter_wait)
            (if_ind P (not (has_parent n parent)) (λ _. keeps (Keeps-refl e) refl)
              λ _.
                if_ind P (terminal n.state) (λ _. keeps (Keeps-refl e) refl)
                  (λ _. park-Entered p h a e (admitted_object parent attempt e p h a q)))
    ]
  ]

  pub end_resume-Resumes :
      (parent h : ℕ) (e : Executor) → Resumes parent h e (end_resume o now parent h e)
  unfolding end_resume
  end_resume-Resumes parent h e = elim (Option-cases (lookup parent e.nodes)) [
    | inl absent ↦ rw (absent, end_resume) (returns_slot (Keeps-refl e) refl)
    | inr (p, q) ↦
        rw (q, end_resume)
          (if_ind (λ (r : Executor × Bool × Option Failure). Resumes parent h e r)
            (not (is_active_object parent h e) || terminal p.state || object_gone h e)
            (λ _. returns_slot (Keeps-refl e) refl)
            λ go.
              let k =
                commit-Keeps o now (record p { state = running; waiting_on = nothing })
                  (set_held h true e) in
              takes_slot (active_object parent h e (passes _ _ _ go))
                (k.same_helds ∙ helds-set_held h true e) (k.same_active ∙ set_held-active h true e)
                refl)
  ]
