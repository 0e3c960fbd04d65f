-- ===== src/Blob/Backed/Check.antt =====
-- The checks of `CompleteUpload` of internal/blob/service.go: they only add an object to the bucket.
use lutra.Prelude.{ℕ, true, List, Option, none, some, is_some, ◌≡◌, refl, sym, ap, subst, if_ind}
use lutra.Prelude.Map.{Map, lookup, insert}
use lutra.Prelude.Results.{Error, Result, ok, err}
use lutra.Log.Types.{BlobRow}
use lutra.Blob.Types.{Upload, Object, Part, World, Outside}
use lutra.Blob.Complete.{
  stat_object, check_single, materialize, gone, first_error, complete_parts, check_multipart,
  check_upload,
}
use lutra.Blob.Rules.{Outcome, Runs, Runs-bind, Runs-require, Runs-get, Runs-or_fail, checks, calls}
use lutra.Blob.Backed.Invariant.{Has, Has-insert}

abbrev pub Holds : ℕ → World → Type 0
Holds object w = is_some (lookup object w.objects) ≡ true

-- Nothing has gone, and only the bucket has changed.
pub record Grew (before w : World) : Type 0 where
  pub now : Map Object
  pub same : w ≡ record before { objects = now }
  pub more : (b : BlobRow) → Has before.objects b → Has now b

pub Grew-refl : (w : World) → Grew w w
Grew-refl w = record { now = w.objects; same = refl; more = λ b h. h }

module _ (before : World) where
  stat_object-Grew :
      (x : Outside) (object : ℕ) (e : Error) (w : World)
      → Grew before w
      → Runs (λ _ w'. Grew before w' × Holds object w') (Grew before) (stat_object x object e) w
  unfolding stat_object
  stat_object-Grew x object e w g =
      calls _ _ _ (Runs-get _ (Runs-or_fail _ _ (λ a q. (g, ap is_some q)) g)) g

  check_single-Grew :
      (x : Outside) (u : Upload) (parts : List Part) (w : World)
      → Grew before w
      → Runs (λ _ w'. Grew before w' × Holds u.object w') (Grew before) (check_single x u parts) w
  unfolding check_single
  check_single-Grew x u parts w g =
      checks _ _
        (λ _.
          Runs-bind (stat_object-Grew x u.object _ w g)
            (λ found w1 h. checks _ _ (λ _. Runs-require _ _ (λ _. h) h.0) h.0))
        g

  materialize-Grew :
      (object : ℕ) (o : Option Object) (w : World)
      → Grew before w
      → Grew before (materialize object o w)
  materialize-Grew object none w g = g
  materialize-Grew object (some made) w g =
      if_ind (λ (w' : World). Grew before w') (is_some (lookup object w.objects)) (λ _. g)
        (λ _. record {
          now = insert object made w.objects;
          same = ap (λ (z : World). record z { objects = insert object made w.objects }) g.same;
          more = λ b h.
              Has-insert object made w.objects b
                (subst (λ (z : World). Has z.objects b) (sym g.same) (g.more b h));
        })

  first_error-lem :
      (R : Object → World → Type 0) (Q : World → Type 0) (o : Option Error)
      (r : World × Result Object)
      → Outcome R Q r
      → Outcome R Q (first_error o r)
  first_error-lem R Q none r h = h
  first_error-lem R Q (some e) (w, ok a) h = h
  first_error-lem R Q (some e) (w, err f) h = h

  complete_parts-Grew :
      (x : Outside) (u : Upload) (id : ℕ) (parts : List Part) (w : World)
      → Grew before w
      → Runs
          (λ _ w'. Grew before w' × Holds u.object w')
          (Grew before)
          (complete_parts x u id parts)
          w
  unfolding complete_parts
  complete_parts-Grew x u id parts w g =
      let made = x.assemble id parts in
      record {
        holds =
            first_error-lem (λ _ w'. Grew before w' × Holds u.object w') (Grew before) made.1 _
              (stat_object-Grew x u.object gone (materialize u.object made.0 w)
                (materialize-Grew u.object made.0 w g)).holds;
      }

  check_multipart-Grew :
      (x : Outside) (u : Upload) (id : ℕ) (parts : List Part) (w : World)
      → Grew before w
      → Runs
          (λ _ w'. Grew before w' × Holds u.object w')
          (Grew before)
          (check_multipart x u id parts)
          w
  unfolding check_multipart
  check_multipart-Grew x u id parts w g =
      checks _ _
        (λ _.
          checks _ _
            (λ _.
              Runs-bind (complete_parts-Grew x u id parts w g)
                (λ found w1 h. Runs-require _ _ (λ _. h) h.0))
            g)
        g

  pub check_upload-Grew :
      (x : Outside) (u : Upload) (parts : List Part) (w : World)
      → Grew before w
      → Runs (λ _ w'. Grew before w' × Holds u.object w') (Grew before) (check_upload x u parts) w
  unfolding check_upload
  check_upload-Grew x u parts w g =
      elim u.multipart_id
        as (λ o.
          Runs (λ _ w'. Grew before w' × Holds u.object w') (Grew before)
            (elim o [ none ↦ check_single x u parts | some id ↦ check_multipart x u id parts ]) w) [
              | none ↦ check_single-Grew x u parts w g
              | some id ↦ check_multipart-Grew x u id parts w g
            ]
