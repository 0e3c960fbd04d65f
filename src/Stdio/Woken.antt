-- ===== src/Stdio/Woken.antt =====
-- No call of a `Transport` of internal/taskstdio is forgotten: what `close`, `push` and `pop` do to
-- the objects.
use lutra.Prelude.{
  ℕ, Bool, true, false, [], ◌∷◌, Option, none, some, if◌then◌else◌, ◌==◌, is_some, ◌≡◌, refl, sym,
  ap, ◌∙◌, arith, Bool-cases, inl, inr,
}
use lutra.Prelude.Map.{Map, lookup, insert, lookup-insert}
use lutra.Stdio.Receive.{Frame}
use lutra.Stdio.Calls.{
  CallObject, close_object, close_call, push, push_found, pop_object, close_all,
}

abbrev pub done_by : Option CallObject → Option Bool
done_by none = none
done_by (some c) = some c.is_done

-- Whether there is an object of the number, and whether it is closed.
abbrev pub done_of : ℕ → Map CallObject → Option Bool
done_of o objects = done_by (lookup o objects)

abbrev pub marked : Option Bool → Option Bool
marked none = none
marked (some b) = some true

-- An object that is written back with another flag.
pub insert-done_of :
    (o p : ℕ) (c : CallObject) (objects : Map CallObject)
    → done_of o (insert p c objects) ≡ (if p == o then some c.is_done else done_of o objects)
insert-done_of o p c objects = ap done_by (lookup-insert p o c objects) ∙ if_done (p == o)
  where
    if_done :
        (b : Bool)
        → done_by (if b then some c else lookup o objects)
          ≡ (if b then some c.is_done else done_of o objects)
    if_done true = refl
    if_done false = refl

eq_done :
    (o p : ℕ) (objects : Map CallObject) → (p == o) ≡ true → done_of p objects ≡ done_of o objects
eq_done o p objects e = ap (λ n. done_of n objects) (ground arith)

close_object-done_of :
    (o p : ℕ) (objects : Map CallObject) (held : Option CallObject)
    → lookup p objects ≡ held
    → done_of o (close_object held p objects)
      ≡ (if p == o then marked (done_of o objects) else done_of o objects)
close_object-done_of o p objects none e = by_number (p == o) refl
  where
    by_number :
        (b : Bool)
        → (p == o) ≡ b
        → done_of o objects ≡ (if b then marked (done_of o objects) else done_of o objects)
    by_number true q =
        let absent = sym (eq_done o p objects q) ∙ ap done_by e in absent ∙ sym (ap marked absent)
    by_number false q = refl
close_object-done_of o p objects (some c) e =
    insert-done_of o p (record c { is_done = true }) objects ∙ by_number (p == o) refl
  where
    by_number :
        (b : Bool)
        → (p == o) ≡ b
        → (if b then some true else done_of o objects)
          ≡ (if b then marked (done_of o objects) else done_of o objects)
    by_number true q = sym (ap marked (sym (eq_done o p objects q) ∙ ap done_by e))
    by_number false q = refl

pub close_call-done_of :
    (o p : ℕ) (objects : Map CallObject)
    → done_of o (close_call p objects)
      ≡ (if p == o then marked (done_of o objects) else done_of o objects)
close_call-done_of o p objects = close_object-done_of o p objects (lookup p objects) refl

-- Writing an object back with another queue.
keep-done_of :
    (o p : ℕ) (c c' : CallObject) (objects : Map CallObject)
    → lookup p objects ≡ some c
    → c'.is_done ≡ c.is_done
    → done_of o (insert p c' objects) ≡ done_of o objects
keep-done_of o p c c' objects e same = insert-done_of o p c' objects ∙ by_number (p == o) refl
  where
    by_number :
        (b : Bool)
        → (p == o) ≡ b
        → (if b then some c'.is_done else done_of o objects) ≡ done_of o objects
    by_number true q = ap some same ∙ sym (ap done_by e) ∙ eq_done o p objects q
    by_number false q = refl

push-done_of :
    (o p : ℕ) (f : Frame) (objects : Map CallObject) (held : Option CallObject)
    → lookup p objects ≡ held
    → done_of o (push f held p objects) ≡ done_of o objects
push-done_of o p f objects none e = refl
push-done_of o p f objects (some c) e = keep-done_of o p c _ objects e refl

pub push_found-done_of :
    (o : ℕ) (f : Frame) (found : Option ℕ) (objects : Map CallObject)
    → done_of o (push_found f found objects) ≡ done_of o objects
push_found-done_of o f none objects = refl
push_found-done_of o f (some p) objects = push-done_of o p f objects (lookup p objects) refl

pub pop_object-done_of :
    (o p : ℕ) (objects : Map CallObject) (held : Option CallObject)
    → lookup p objects ≡ held
    → done_of o (pop_object held p objects) ≡ done_of o objects
pop_object-done_of o p objects none e = refl
pop_object-done_of o p objects (some c) e = keep-done_of o p c _ objects e refl

-- `close_all` closes what is in the table and opens nothing.
pub close_all-kept :
    (o : ℕ) (calls : Map ℕ) (objects : Map CallObject)
    → done_of o objects ≡ some true
    → done_of o (close_all calls objects) ≡ some true
unfolding close_all
close_all-kept o [] objects h = h
close_all-kept o ((id, p) ∷ rest) objects h =
    close_all-kept o rest (close_call p objects) (ground (arith, close_call-done_of o p objects))

close_call-is_some :
    (o p : ℕ) (objects : Map CallObject)
    → is_some (done_of o objects) ≡ true
    → is_some (done_of o (close_call p objects)) ≡ true
close_call-is_some o p objects h = ground (arith, close_call-done_of o p objects)

pub close_all-closes :
    (o id : ℕ) (calls : Map ℕ) (objects : Map CallObject)
    → lookup id calls ≡ some o
    → is_some (done_of o objects) ≡ true
    → done_of o (close_all calls objects) ≡ some true
unfolding close_all lookup
close_all-closes o id [] objects found h = absurd (ground arith)
close_all-closes o id ((key, p) ∷ rest) objects found h = elim (Bool-cases (key == id)) [
  | inl same ↦
      close_all-kept o rest (close_call p objects) (ground (arith, close_call-done_of o p objects))
  | inr other ↦
      close_all-closes o id rest (close_call p objects) (ground arith)
        (close_call-is_some o p objects h)
]
