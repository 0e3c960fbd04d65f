-- ===== src/Blob/Rules.antt =====
-- What holds after a call: of its value and the world if it succeeds, of the world if it fails.
use lutra.Prelude.{Bool, true, false, Option, none, some, ◌≡◌, refl, subst}
use lutra.Prelude.Results.{Error, Result, ok, err, Code}
use lutra.Blob.Types.{
  World, Call, Outside, M, ◌>>=◌, ◌>>◌, resume, done, fail, require, ignore_ok, recode, attempt,
  get, update, roll_back, close_tx, in_tx, begin_tx, commit_tx,
}
use lutra.Blob.Create.{or_fail}

abbrev pub Outcome {ℓ} :
    {A : Type ℓ} → (A → World → Type 0) → (World → Type 0) → World × Result A → Type 0
Outcome P Q (w, ok a) = P a w
Outcome P Q (w, err e) = Q w

-- What is so after an action that starts in the world.
pub record Runs {ℓ} {A : Type ℓ} (R : A → World → Type 0) (Q : World → Type 0) (act : M A)
    (w : World) : Type 0 where
  pub holds : Outcome R Q (act w)

module _ {ℓ κ} {A : Type ℓ} {B : Type κ} where
  pub Runs-bind :
      {R : A → World → Type 0} {Q : World → Type 0} {S : B → World → Type 0} {act : M A}
      {next : A → M B} {w : World}
      → Runs R Q act w
      → ((a : A) (w : World) → R a w → Runs S Q (next a) w)
      → Runs S Q (act >>= next) w
  unfolding ◌>>=◌
  Runs-bind {R} {Q} {S} {act} {next} {w} h f = record { holds = by_result (act w) h.holds }
    where
      by_result : (r : World × Result A) → Outcome R Q r → Outcome S Q (resume next r)
      by_result (w, ok a) g = (f a w g).holds
      by_result (w, err e) g = g

module _ {ℓ} {A : Type ℓ} {R : A → World → Type 0} {Q : World → Type 0} where
  pub Runs-done : (a : A) {w : World} → R a w → Runs R Q (done a) w
  unfolding done
  Runs-done a h = record { holds = h }

  pub Runs-fail : (e : Error) {w : World} → Q w → Runs R Q (fail e) w
  unfolding fail
  Runs-fail e h = record { holds = h }

  pub Runs-seq :
      {S : World → Type 0} {act : M (Unit {0})} {next : M A} {w : World}
      → Runs (λ _. S) Q act w
      → ((w : World) → S w → Runs R Q next w)
      → Runs R Q (act >> next) w
  unfolding ◌>>◌
  Runs-seq h f = Runs-bind h (λ _. f)

  pub Runs-get : (act : World → M A) {w : World} → Runs R Q (act w) w → Runs R Q (get act) w
  unfolding get
  Runs-get act h = record { holds = h.holds }

  pub Runs-or_fail :
      (o : Option A) (e : Error) {w : World}
      → ((a : A) → o ≡ some a → R a w)
      → Q w
      → Runs R Q (or_fail o e) w
  unfolding or_fail done fail
  Runs-or_fail none e f q = record { holds = q }
  Runs-or_fail (some a) e f q = record { holds = f a refl }

  -- A transaction whose body leaves a world that is right as it is and when it is rolled back.
  pub Runs-tx :
      (x : Outside) (k : Code) {body : M A} {w : World}
      → Q w
      → Runs (λ a w'. R a w' × Q (roll_back w w')) (λ w'. Q (roll_back w w')) body w
      → Runs R Q (in_tx x k body) w
  unfolding in_tx ◌>>◌ ◌>>=◌ attempt done fail
  Runs-tx x k {body} {w} q h = record { holds = begun (recode k (x.fault begin_tx)) }
    where
      closed :
          (o : Option Error) (r : World × Result A)
          → Outcome (λ a w'. R a w' × Q (roll_back w w')) (λ w'. Q (roll_back w w')) r
          → Outcome R Q (close_tx o w r)
      closed none (w', ok a) g = g.0
      closed none (w', err e) g = g
      closed (some f) (w', ok a) g = g.1
      closed (some f) (w', err e) g = g

      begun :
          (o : Option Error)
          → Outcome R Q
              (resume (λ _ v. close_tx (recode k (x.fault commit_tx)) v (body v)) (ignore_ok o w))
      begun none = closed (recode k (x.fault commit_tx)) (body w) h.holds
      begun (some e) = q

module _ {S Q : World → Type 0} where
  pub Runs-require :
      (b : Bool) (e : Error) {w : World} → (b ≡ true → S w) → Q w → Runs (λ _. S) Q (require b e) w
  unfolding require done fail
  Runs-require true e f q = record { holds = f refl }
  Runs-require false e f q = record { holds = q }

  pub Runs-attempt :
      (x : Outside) (c : Call) (k : Code) {w : World}
      → S w
      → Q w
      → Runs (λ _. S) Q (attempt x c k) w
  unfolding attempt done fail
  Runs-attempt x c k {w} f q = record { holds = by_fault (recode k (x.fault c)) }
    where
      by_fault : (o : Option Error) → Outcome (λ _. S) Q (ignore_ok o w)
      by_fault none = f
      by_fault (some e) = q

  pub Runs-update : (f : World → World) {w : World} → S (f w) → Runs (λ _. S) Q (update f) w
  unfolding update
  Runs-update f h = record { holds = h }

pub Runs-weaken {ℓ} :
    {A : Type ℓ} {R : A → World → Type 0} {Q Q' : World → Type 0} {act : M A} {w : World}
    → Runs R Q act w
    → ((w : World) → Q w → Q' w)
    → Runs R Q' act w
Runs-weaken {A = A} {R} {Q} {Q'} {act} {w} h f = record { holds = by_result (act w) h.holds }
  where
    by_result : (r : World × Result A) → Outcome R Q r → Outcome R Q' r
    by_result (w, ok a) g = g
    by_result (w, err e) g = f w g

pub Runs-weaken_value {ℓ} :
    {A : Type ℓ} {R S : A → World → Type 0} {Q : World → Type 0} {act : M A} {w : World}
    → Runs R Q act w
    → ((a : A) (w : World) → R a w → S a w)
    → Runs S Q act w
Runs-weaken_value {A = A} {R} {S} {Q} {act} {w} h f = record { holds = by_result (act w) h.holds }
  where
    by_result : (r : World × Result A) → Outcome R Q r → Outcome S Q r
    by_result (w, ok a) g = f a w g
    by_result (w, err e) g = g

-- The same rules in front of the action that follows, which starts in the world they leave.
module _ {ℓ} {A : Type ℓ} {R : A → World → Type 0} {Q : World → Type 0} {next : M A}
    {w : World} where
  pub checks :
      (b : Bool) (e : Error) → (b ≡ true → Runs R Q next w) → Q w → Runs R Q (require b e >> next) w
  unfolding require ◌>>◌ ◌>>=◌ done fail
  checks true e f q = record { holds = (f refl).holds }
  checks false e f q = record { holds = q }

  pub calls :
      (x : Outside) (c : Call) (k : Code)
      → Runs R Q next w
      → Q w
      → Runs R Q (attempt x c k >> next) w
  unfolding attempt ◌>>◌ ◌>>=◌ done fail
  calls x c k f q = record { holds = by_fault (recode k (x.fault c)) }
    where
      by_fault : (o : Option Error) → Outcome R Q (resume (λ _. next) (ignore_ok o w))
      by_fault none = f.holds
      by_fault (some e) = q

  pub changes : (f : World → World) → Runs R Q next (f w) → Runs R Q (update f >> next) w
  unfolding update ◌>>◌ ◌>>=◌
  changes f h = record { holds = h.holds }

module _ {ℓ} {A : Type ℓ} {R : A → World → Type 0} {Q : World → Type 0} (act : M A)
    (w : World) where
  -- Of the world, either way.
  pub Runs-world : Runs R Q act w → ((a : A) (w : World) → R a w → Q w) → Q (act w).0
  Runs-world h f = either (act w) h.holds
    where
      either : (r : World × Result A) → Outcome R Q r → Q r.0
      either (w, ok a) g = f a w g
      either (w, err e) g = g

  pub Runs-ok : (w' : World) (a : A) → Runs R Q act w → act w ≡ (w', ok a) → R a w'
  Runs-ok w' a h e = subst (Outcome R Q) e h.holds
