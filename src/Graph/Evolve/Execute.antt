-- ===== src/Graph/Evolve/Execute.antt =====
-- The critical sections of `execute` as sequences of steps.
use lutra.Prelude.{
  ℕ, false, not, ◌||◌, ◌&&◌, String, List, Option, none, some, ◌≡◌, refl, inl, inr, arith,
  Option-cases, if_ind, ◌==◌,
}
use lutra.Prelude.Map.{lookup}
use lutra.Graph.Types.{terminal, is_ready, is_pending, Failure, Node, Options, Executor}
use lutra.Graph.Commit.{commit, start_timer}
use lutra.Graph.Close.{Visits}
use lutra.Graph.Execute.{
  Next, if_accepted, then_close, is_empty, request_image, begin, Answer, from_cache, after_lookup,
  after_ensure, attempt_of, activate, start_end, start_attempt, settle, retire, finish_end, finish,
}
use lutra.Graph.Evolve.Defs.{Allowed, Evolves, quiet, joins, KeysMatch, Evolves-KeysMatch}
use lutra.Graph.Evolve.Close.{commit-Evolves, close-Evolves}

module _ (o : Options) (now : ℕ) where
  if_accepted-exec : (x : Executor × Option Failure) (next : Next) → (if_accepted x next).0 ≡ x.0
  unfolding if_accepted
  if_accepted-exec (e, none) next = refl
  if_accepted-exec (e, some x) next = refl

  pub then_close-Evolves :
      (v : Visits) (id : ℕ) (reason : String) (e : Executor) (x : Executor × Option Failure)
      → KeysMatch e.nodes
      → Evolves o e x.0
      → Evolves o e (then_close o now v id reason x)
  unfolding then_close
  then_close-Evolves v id reason e (f, none) k first =
      joins first (close-Evolves o now v id reason f (Evolves-KeysMatch first k))
  then_close-Evolves v id reason e (f, some x) k first = first

  request_image-Evolves :
      (id : ℕ) (n : Node) (e : Executor)
      → KeysMatch e.nodes
      → lookup id e.nodes ≡ some n
      → terminal n.state ≡ false
      → Evolves o e (request_image o now n e).0
  unfolding request_image
  request_image-Evolves id n e k h live =
      if_ind (λ (r : Executor × Next). Evolves o e r.0) (not (is_empty n.image_key) && o.has_images)
        (λ _. rw (if_accepted-exec _ _) (commit-Evolves o now e id n _ k h (ground arith)))
        (λ _. quiet refl refl refl)

  pub begin-Evolves : (id : ℕ) (e : Executor) → KeysMatch e.nodes → Evolves o e (begin o now id e).0
  unfolding begin
  begin-Evolves id e k = elim (Option-cases (lookup id e.nodes)) [
    | inl absent ↦ rw (absent, begin) (quiet refl refl refl)
    | inr (n, h) ↦
        rw (h, begin)
          (if_ind (λ (r : Executor × Next). Evolves o e r.0) (not (is_ready n.state) || e.stopped)
            (λ _. quiet refl refl refl)
            λ go.
              if_ind (λ (r : Executor × Next). Evolves o e r.0)
                (not (is_empty n.cache_key) && o.has_cache) (λ _. quiet refl refl refl)
                (λ _. request_image-Evolves id n e k h (ground arith)))
  ]

  from_cache-Allowed :
      (a : Answer) (n : Node) → terminal n.state ≡ false → Allowed n (from_cache a n)
  unfolding from_cache
  from_cache-Allowed a n live = ground arith

  pub after_lookup-Evolves :
      (v : Visits) (id : ℕ) (a : Answer) (e : Executor)
      → KeysMatch e.nodes
      → Evolves o e (after_lookup o now v id a e).0
  unfolding after_lookup
  after_lookup-Evolves v id a e k = elim (Option-cases (lookup id e.nodes)) [
    | inl absent ↦ rw (absent, after_lookup) (quiet refl refl refl)
    | inr (n, h) ↦
        rw (h, after_lookup)
          (if_ind (λ (r : Executor × Next). Evolves o e r.0) (terminal n.state || e.stopped)
            (λ _. quiet refl refl refl)
            λ go.
              let live : terminal n.state ≡ false = ground arith in
              if_ind (λ (r : Executor × Next). Evolves o e r.0) a.hit
                (λ _.
                  then_close-Evolves v id "parent action completed" e _ k
                    (commit-Evolves o now e id n _ k h (from_cache-Allowed a n live)))
                (λ _. request_image-Evolves id n e k h live))
  ]

  pub after_ensure-Evolves :
      (v : Visits) (id : ℕ) (err : Option Failure) (e : Executor)
      → KeysMatch e.nodes
      → Evolves o e (after_ensure o now v id err e).0
  unfolding after_ensure
  after_ensure-Evolves v id err e k = elim (Option-cases (lookup id e.nodes)) [
    | inl absent ↦ rw (absent, after_ensure) (quiet refl refl refl)
    | inr (n, h) ↦
        rw (h, after_ensure)
          (if_ind (λ (r : Executor × Next). Evolves o e r.0) (terminal n.state || e.stopped)
            (λ _. quiet refl refl refl)
            λ go. elim (Option-cases err) [
              | inl ok ↦
                  rw ok
                    (rw (if_accepted-exec _ _) (commit-Evolves o now e id n _ k h (ground arith)))
              | inr (x, bad) ↦ rw bad (
                  then_close-Evolves v id "parent action failed" e _ k
                    (commit-Evolves o now e id n _ k h (ground arith)))
            ])
  ]

  started-exec :
      (id : ℕ) (attempt : ℕ) (x : Executor × Option Failure)
      → Evolves o x.0 (start_end id attempt x).0
  unfolding start_end activate
  started-exec id attempt (e, none) = quiet refl refl refl
  started-exec id attempt (e, some x) = quiet refl refl refl

  pub start_attempt-Evolves :
      (id : ℕ) (e : Executor) → KeysMatch e.nodes → Evolves o e (start_attempt o now id e).0
  unfolding start_attempt
  start_attempt-Evolves id e k = elim (Option-cases (lookup id e.nodes)) [
    | inl absent ↦ rw (absent, start_attempt) (quiet refl refl refl)
    | inr (n, h) ↦
        rw (h, start_attempt)
          (if_ind (λ (r : Executor × Next). Evolves o e r.0) (not (is_ready n.state) || e.stopped)
            (λ _. quiet refl refl refl)
            λ go.
              joins (commit-Evolves o now e id n (attempt_of n) k h (ground arith))
                (started-exec id (attempt_of n).attempt _))
  ]

  settle-Allowed :
      (out : List ℕ) (err : Option Failure) (n : Node)
      → terminal n.state ≡ false
      → Allowed n (settle o now out err n)
  unfolding settle
  settle-Allowed out err n live = ground arith

  finish_end-Evolves :
      (v : Visits) (id : ℕ) (next : Node) (e : Executor) (x : Executor × Option Failure)
      → KeysMatch e.nodes
      → Evolves o e x.0
      → Evolves o e (finish_end o now v id next x)
  unfolding finish_end start_timer
  finish_end-Evolves v id next e (f, some x) k first = first
  finish_end-Evolves v id next e (f, none) k first =
      if_ind (λ (r : Executor). Evolves o e r) (is_pending next.state)
        (λ _. joins first (quiet refl refl refl))
        (λ _. joins first (close-Evolves o now v id _ f (Evolves-KeysMatch first k)))

  pub finish-Evolves :
      (v : Visits) (id h attempt : ℕ) (out : List ℕ) (err : Option Failure) (e : Executor)
      → KeysMatch e.nodes
      → Evolves o e (finish o now v id h attempt out err e)
  unfolding finish retire
  finish-Evolves v id h attempt out err e k =
      if_ind (λ (r : Executor). Evolves o e r) e.stopped (λ _. quiet refl refl refl)
        λ go. elim (Option-cases (lookup id e.nodes)) [
          | inl absent ↦ rw absent (quiet refl refl refl)
          | inr (n, p) ↦ rw p (
              if_ind (λ (r : Executor). Evolves o e r)
                (terminal n.state || not (n.attempt == attempt)) (λ _. quiet refl refl refl)
                λ on.
                  let retired : Evolves o e (retire id h e) = quiet refl refl refl in
                  joins retired (
                    finish_end-Evolves v id (settle o now out err n) (retire id h e)
                      (commit o now (settle o now out err n) (retire id h e)) k
                      (commit-Evolves o now (retire id h e) id n _ k p
                        (settle-Allowed out err n (ground arith)))))
        ]
