-- ===== src/Graph/Slots/Idle.antt =====
-- Goroutines of `execute` that hold no slot, between their sections.
use lutra.Prelude.{
  ℕ, Option, some, none, ◌≡◌, refl, arith, true, inl, inr, Option-cases, if_ind, ◌≢◌, not, ◌&&◌,
}
use lutra.Prelude.Map.{lookup}
use lutra.Graph.Types.{Options, Node, Executor, Failure}
use lutra.Graph.Close.{Visits}
use lutra.Graph.Execute.{
  Next, stop, lookup_cache, ensure_image, acquire_slot, run_task, is_empty, if_accepted,
  request_image, Answer, begin, after_lookup, after_ensure,
}
use lutra.Graph.Calls.{Waiting}
use lutra.Graph.Run.{Turn, ends, waits}
use lutra.Graph.System.{exited, after, join_wait, started}
use lutra.Graph.Slots.Frame.{Keeps}
use lutra.Graph.Slots.Invariant.{Weight, count, IsIdle, spawned-idle}

-- Goroutines with no weight.
pub exited-IsIdle : IsIdle exited
exited-IsIdle w = ground arith

-- A section of `execute` that starts no attempt is followed by no attempt.
abbrev pub Modest : Next → Type 0
Modest x = (h a : ℕ) → x ≢ run_task h a

pub after-IsIdle : (id : ℕ) (x : Next) → Modest x → IsIdle (after id x)
after-IsIdle id stop m w = ground arith
after-IsIdle id lookup_cache m w = ground arith
after-IsIdle id ensure_image m w = ground arith
after-IsIdle id acquire_slot m w = ground arith
after-IsIdle id (run_task h a) m w = absurd (m h a refl)

module _ (o : Options) (now id : ℕ) (e : Executor) where
  pub if_accepted-Modest :
      (x : Executor × Option Failure) (next : Next) → Modest next → Modest (if_accepted x next).1
  unfolding if_accepted
  if_accepted-Modest (f, none) next m = m
  if_accepted-Modest (f, some x) next m = λ h a p. cc

  pub request_image-Modest : (n : Node) → Modest (request_image o now n e).1
  unfolding request_image
  request_image-Modest n =
      if_ind (λ (r : Executor × Next). Modest r.1) (not (is_empty n.image_key) && o.has_images)
        (λ _. if_accepted-Modest _ ensure_image (λ h a p. cc)) (λ _ h a p. cc)

  pub begin-Modest : Modest (begin o now id e).1
  unfolding begin
  begin-Modest h a = elim (Option-cases (lookup id e.nodes)) [
    | inl absent ↦ ground arith
    | inr (n, q) ↦ ground (arith, request_image-Modest n h a)
  ]

  pub after_lookup-Modest : (v : Visits) (x : Answer) → Modest (after_lookup o now v id x e).1
  unfolding after_lookup
  after_lookup-Modest v x h a = elim (Option-cases (lookup id e.nodes)) [
    | inl absent ↦ ground arith
    | inr (n, q) ↦ ground (arith, request_image-Modest n h a)
  ]

  pub after_ensure-Modest :
      (v : Visits) (x : Option Failure) → Modest (after_ensure o now v id x e).1
  unfolding after_ensure if_accepted
  after_ensure-Modest v x h a = ground arith

pub join_wait-idle : (p a : ℕ) (x : Waiting) (w : Weight) → count w (join_wait p a x) ≡ 0
join_wait-idle p a x w = ground arith

pub started-idle : (x : Turn) (w : Weight) → count w (started x) ≡ 0
started-idle (ends x) w = refl
started-idle (waits ids) w = spawned-idle ids w

pub stopped-Keeps : (e : Executor) → Keeps e (record e { stopped = true })
stopped-Keeps e = record { same_helds = refl; same_active = refl }
