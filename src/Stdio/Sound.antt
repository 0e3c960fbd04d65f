-- ===== src/Stdio/Sound.antt =====
-- What the sections of a `Transport` of internal/taskstdio do to the calls it holds.
use lutra.Prelude.{
  ℕ, suc, ◌^◌, ◌<◌, ◌≤◌, ◌⊎◌, Bool, true, false, Option, none, some, ◌==◌, is_some, ◌≡◌, refl, sym,
  ap, subst, ◌∙◌, arith, Bool-cases, inl, inr,
}
use lutra.Prelude.Map.{Map, lookup, delete, lookup-insert, lookup-delete}
use lutra.Prelude.Results.{Error}
use lutra.Stdio.Calls.{
  CallObject, Transport, new_call, cancel_all, next_of, add_call, registered, close_found, remove,
  close_all, fail, new_transport,
}
use lutra.Stdio.Woken.{
  done_of, insert-done_of, close_call-done_of, close_all-kept, close_all-closes,
}

-- The call is closed, or an identifier leads to it.
abbrev pub Held : ℕ → Transport → Type 0
Held o t =
    (done_of o t.objects ≡ some true)
    ⊎ ((is_some (done_of o t.objects) ≡ true) × (id : ℕ) × (lookup id t.calls ≡ some o))

-- `few` and `ids` are about the identifiers: no more than `bound` have been given out, so none twice.
pub record Sound (bound : ℕ) (t : Transport) : Type 0 where
  pub few : t.next ≤ bound
  pub ids : (id o : ℕ) → lookup id t.calls ≡ some o → id ≤ t.next
  pub held : (o : ℕ) → o < t.created → Held o t
  pub woken :
      (e : Error) → t.failure ≡ some e → (o : ℕ) → o < t.created → done_of o t.objects ≡ some true

pub new_transport-Sound : Sound 0 new_transport
unfolding lookup
new_transport-Sound = record {
  few = omega arith;
  ids = λ id o e. absurd (ground arith);
  held = λ o less. absurd (omega arith);
  woken = λ e f o less. absurd (omega arith);
}

-- A section that leaves every call as it is.
pub same-Sound :
    (bound : ℕ) (t u : Transport)
    → u.next ≡ t.next
    → u.calls ≡ t.calls
    → u.created ≡ t.created
    → u.failure ≡ t.failure
    → ((o : ℕ) → done_of o u.objects ≡ done_of o t.objects)
    → Sound bound t
    → Sound bound u
same-Sound bound t u n c k f d s = record {
  few = ground arith;
  ids = λ id o e. subst (λ m. id ≤ m) (sym n) (s.ids id o (ap (lookup id) (sym c) ∙ e));
  held = λ o less. elim (s.held o (subst (λ m. o < m) k less)) [
    | inl h ↦ inl (d o ∙ h)
    | inr (h, id, e) ↦ inr (ap is_some (d o) ∙ h, id, ap (lookup id) c ∙ e)
  ];
  woken = λ e q o less. d o ∙ s.woken e (sym f ∙ q) o (subst (λ m. o < m) k less);
}

next_of-suc : (t : Transport) → suc t.next < 2 ^ 64 → next_of t ≡ suc t.next
next_of-suc t h = omega arith

-- The new identifier is in no entry.
add_call-ids :
    (t : Transport)
    → next_of t ≡ suc t.next
    → ((id o : ℕ) → lookup id t.calls ≡ some o → id ≤ t.next)
    → (id o : ℕ) → lookup id (add_call t).calls ≡ some o
    → id ≤ next_of t
add_call-ids t next ids id o e = elim (Bool-cases (next_of t == id)) [
  | inl same ↦ ground arith
  | inr other_id ↦
      let old = ids id o (ground (arith, lookup-insert (next_of t) id t.created t.calls)) in
      ground arith
]

add_call-Held :
    (t : Transport) (o : ℕ)
    → next_of t ≡ suc t.next
    → ((id o : ℕ) → lookup id t.calls ≡ some o → id ≤ t.next)
    → ((t.created == o) ≡ false → Held o t)
    → Held o (add_call t)
add_call-Held t o next ids h = elim (Bool-cases (t.created == o)) [
  | inl same ↦ inr (
    ground (arith, insert-done_of o t.created new_call t.objects),
    next_of t,
    ground (arith, lookup-insert (next_of t) (next_of t) t.created t.calls),
  )
  | inr old ↦ elim (h old) [
    | inl closed ↦ inl (ground (arith, insert-done_of o t.created new_call t.objects))
    | inr (known, id, e) ↦
        let below = ids id o e in
        inr (
          ground (arith, insert-done_of o t.created new_call t.objects),
          id,
          ground (arith, lookup-insert (next_of t) id t.created t.calls),
        )
  ]
]

add_call-Sound :
    (bound : ℕ) (t : Transport)
    → suc bound < 2 ^ 64
    → t.failure ≡ none
    → Sound bound t
    → Sound (suc bound) (add_call t)
add_call-Sound bound t small live s =
    let few = s.few in
    let next = next_of-suc t (omega arith) in
    record {
      few = ground arith;
      ids = add_call-ids t next s.ids;
      held = λ o less. add_call-Held t o next s.ids (λ old. s.held o (ground arith));
      woken = λ e q o less. absurd (ground arith);
    }

remove-Held :
    (t : Transport) (id o : ℕ) (found : Option ℕ)
    → lookup id t.calls ≡ found
    → Held o t
    → Held o (record t { objects = close_found found t.objects; calls = delete id t.calls })
remove-Held t id o none e (inl closed) = inl closed
remove-Held t id o none e (inr (known, key, h)) =
    inr (known, key, ground (arith, lookup-delete id key t.calls))
remove-Held t id o (some p) e (inl closed) = inl (ground (arith, close_call-done_of o p t.objects))
remove-Held t id o (some p) e (inr (known, key, h)) = elim (Bool-cases (p == o)) [
  | inl same ↦ inl (ground (arith, close_call-done_of o p t.objects))
  | inr other_object ↦ inr (
    ground (arith, close_call-done_of o p t.objects),
    key,
    grind (arith, lookup-delete id key t.calls),
  )
]

close_found-done_of :
    (o : ℕ) (found : Option ℕ) (objects : Map CallObject)
    → done_of o objects ≡ some true
    → done_of o (close_found found objects) ≡ some true
close_found-done_of o none objects h = h
close_found-done_of o (some p) objects h = ground (arith, close_call-done_of o p objects)

pub remove-Sound : (bound id : ℕ) (t : Transport) → Sound bound t → Sound bound (remove id t)
unfolding remove
remove-Sound bound id t s = record {
  few = s.few;
  ids = λ key o e. s.ids key o (ground (arith, lookup-delete id key t.calls));
  held = λ o less. remove-Held t id o (lookup id t.calls) refl (s.held o less);
  woken = λ e q o less. close_found-done_of o (lookup id t.calls) t.objects (s.woken e q o less);
}

-- `fail` on a transport that works.
abbrev failed : Error → Transport → Transport
failed e t = record t { objects = close_all t.calls t.objects; failure = some e }

failed-closed :
    (t : Transport) (o : ℕ) → Held o t → done_of o (close_all t.calls t.objects) ≡ some true
failed-closed t o (inl closed) = close_all-kept o t.calls t.objects closed
failed-closed t o (inr (known, id, e)) = close_all-closes o id t.calls t.objects e known

failed-Sound : (bound : ℕ) (e : Error) (t : Transport) → Sound bound t → Sound bound (failed e t)
failed-Sound bound e t s = record {
  few = s.few;
  ids = s.ids;
  held = λ o less. inl (failed-closed t o (s.held o less));
  woken = λ f q o less. failed-closed t o (s.held o less);
}

-- The incoming calls are of no matter.
pub incoming-Sound :
    (bound : ℕ) (incoming : Map Bool) (t : Transport)
    → Sound bound t
    → Sound bound (record t { incoming = incoming })
incoming-Sound bound incoming t s = record {
  few = s.few;
  ids = s.ids;
  held = s.held;
  woken = s.woken;
}

pub more-Sound : (bound : ℕ) (t : Transport) → Sound bound t → Sound (suc bound) t
more-Sound bound t s =
    let few = s.few in record { few = omega arith; ids = s.ids; held = s.held; woken = s.woken }

pub register-Sound :
    (bound : ℕ) (t : Transport) (o : Option Error)
    → t.failure ≡ o
    → suc bound < 2 ^ 64
    → Sound bound t
    → Sound (suc bound) (registered o t).0
register-Sound bound t none live small s = add_call-Sound bound t small live s
register-Sound bound t (some e) q small s = more-Sound bound t s

pub fail-Sound : (bound : ℕ) (e : Error) (t : Transport) → Sound bound t → Sound bound (fail e t)
unfolding fail
fail-Sound bound e t s =
    elim t.failure
      as (λ o. Sound bound (elim o [
        | none ↦ record t {
          objects = close_all t.calls t.objects;
          incoming = cancel_all t.incoming;
          failure = some e;
        }
        | some first ↦ t
      ])) [
        | none ↦
            incoming-Sound bound (cancel_all t.incoming) (failed e t) (failed-Sound bound e t s)
        | some first ↦ s
      ]
