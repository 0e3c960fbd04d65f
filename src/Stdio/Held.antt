-- ===== src/Stdio/Held.antt =====
-- No call of a `Transport` of internal/taskstdio is forgotten.
use lutra.Prelude.{
  ℕ, suc, ◌+◌, ◌^◌, ◌<◌, false, List, [], ◌∷◌, none, some, is_some, length, refl, subst, arith,
  if_ind,
}
use lutra.Prelude.Map.{lookup, insert, delete}
use lutra.Stdio.Calls.{
  Transport, register, deliver, pop, PeerKind, request, cancel, other, on_peer_frame,
  handle_incoming_frame, end_incoming, Section, registers, removes, delivers, pops, fails,
  peer_sends, peer_served, apply, run_sections, new_transport,
}
use lutra.Stdio.Woken.{push_found-done_of, pop_object-done_of}
use lutra.Stdio.Sound.{
  Sound, new_transport-Sound, same-Sound, remove-Sound, incoming-Sound, more-Sound, register-Sound,
  fail-Sound,
}

on_peer_frame-Sound :
    (bound : ℕ) (k : PeerKind) (id : ℕ) (t : Transport)
    → Sound bound t
    → Sound bound (on_peer_frame k id t)
on_peer_frame-Sound bound request id t s =
    if_ind (Sound bound) (is_some (lookup id t.incoming)) (λ _. s)
      (λ _. incoming-Sound bound (insert id false t.incoming) t s)
on_peer_frame-Sound bound cancel id t s = incoming-Sound bound (delete id t.incoming) t s
on_peer_frame-Sound bound other id t s = s

handle_incoming_frame-Sound :
    (bound : ℕ) (k : PeerKind) (id : ℕ) (t : Transport)
    → Sound bound t
    → Sound bound (handle_incoming_frame k id t)
unfolding handle_incoming_frame
handle_incoming_frame-Sound bound k id t s =
    elim t.failure as (λ o. Sound bound (elim o [ none ↦ on_peer_frame k id t | some e ↦ t ])) [
      | none ↦ on_peer_frame-Sound bound k id t s
      | some e ↦ s
    ]

apply-Sound :
    (bound : ℕ) (x : Section) (t : Transport)
    → suc bound < 2 ^ 64
    → Sound bound t
    → Sound (suc bound) (apply x t)
unfolding apply register deliver pop end_incoming
apply-Sound bound registers t small s = register-Sound bound t t.failure refl small s
apply-Sound bound (removes id) t small s = more-Sound bound _ (remove-Sound bound id t s)
apply-Sound bound (delivers id f) t small s = more-Sound bound _ (
    same-Sound bound t _ refl refl refl refl
      (λ o. push_found-done_of o f (lookup id t.calls) t.objects) s)
apply-Sound bound (pops p) t small s = more-Sound bound _ (
    same-Sound bound t _ refl refl refl refl
      (λ o. pop_object-done_of o p t.objects (lookup p t.objects) refl) s)
apply-Sound bound (fails e) t small s = more-Sound bound _ (fail-Sound bound e t s)
apply-Sound bound (peer_sends k id) t small s =
    more-Sound bound _ (handle_incoming_frame-Sound bound k id t s)
apply-Sound bound (peer_served id) t small s =
    more-Sound bound _ (incoming-Sound bound (delete id t.incoming) t s)

run_sections-from :
    (bound : ℕ) (xs : List Section) (t : Transport)
    → bound + length xs < 2 ^ 64
    → Sound bound t
    → Sound (bound + length xs) (run_sections xs t)
unfolding run_sections
run_sections-from bound [] t small s = subst (λ n. Sound n t) (omega arith) s
run_sections-from bound (x ∷ xs) t small s =
    subst (λ n. Sound n (run_sections xs (apply x t))) (omega arith)
      (run_sections-from (suc bound) xs (apply x t) (omega arith)
        (apply-Sound bound x t (omega arith) s))

-- However the critical sections of a transport's goroutines follow one another, as long as there are
-- fewer than 2 ^ 64 of them, every call that was made is closed or found under an identifier, and once
-- the transport has an error every call is closed.
pub run_sections-Sound :
    (xs : List Section) → length xs < 2 ^ 64 → Sound (length xs) (run_sections xs new_transport)
run_sections-Sound xs small =
    subst (λ n. Sound n (run_sections xs new_transport)) (omega arith)
      (run_sections-from 0 xs new_transport (omega arith) new_transport-Sound)
