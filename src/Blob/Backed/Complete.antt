-- ===== src/Blob/Backed/Complete.antt =====
-- `CompleteUpload` of internal/blob/service.go keeps the tables and the bucket in order.
use lutra.Prelude.{
  ℕ, Bool, true, false, List, ◌∷◌, Option, none, some, if◌then◌else◌, is_some, ◌≡◌, refl, sym, ap,
  subst, ◌∙◌, arith,
}
use lutra.Prelude.Bytes.{Bytes}
use lutra.Prelude.Results.{Error, internal}
use lutra.Log.Types.{BlobRow}
use lutra.Log.Tables.{get_blob_by_sha256}
use lutra.Blob.Types.{Upload, Part, World, Outside, M, roll_back, in_tx, remove}
use lutra.Blob.Create.{find_upload}
use lutra.Blob.Complete.{
  add_blob, forget, record_blob, settle, remove_by, drop_duplicate, complete_upload,
}
use lutra.Blob.Rules.{
  Runs-weaken, Runs, Runs-bind, Runs-seq, Runs-world, Runs-done, Runs-get, Runs-or_fail, Runs-tx,
  checks, calls, changes,
}
use lutra.Blob.Backed.Invariant.{Known, Known-self, Backed, find_upload-session_id}
use lutra.Blob.Uri.{uri}
use lutra.Blob.Backed.Worlds.{
  Grew-Backed, Kept, roll_back-Backed, add_blob-Kept, Grew-Kept, own-Backed, forget-Backed,
  forget-Loose, unlink-Backed, Loose,
}
use lutra.Blob.Backed.Check.{Holds, Grew, Grew-refl, check_upload-Grew}

-- After the transaction's last step: what `drop_duplicate` needs.
abbrev Settled : List BlobRow → Upload × Bool → World → Type 0
Settled base (u, present) w =
    (Backed base w × Known u.digest w.blobs) × (present ≡ true → Loose u.object w)

add_blob-Settled :
    {base : List BlobRow}
    → (u : Upload) (w : World) → find_upload u.session_id w.uploads ≡ some u
    → Holds u.object w
    → Backed base w
    → Settled base
        (u, is_some (get_blob_by_sha256 u.digest w.blobs))
        (forget u.session_id (add_blob u w))
add_blob-Settled {base} u w e h v = by_present (is_some (get_blob_by_sha256 u.digest w.blobs)) refl
  where
    by_present :
        (b : Bool)
        → is_some (get_blob_by_sha256 u.digest w.blobs) ≡ b
        → Settled base
            (u, b)
            (forget u.session_id (
              if b
              then w
              else record w { blobs = record { digest = u.digest; object = u.object } ∷ w.blobs }))
    by_present true there = ((forget-Backed u.session_id w v, there), λ _. forget-Loose u w e v)
    by_present false new =
        ((own-Backed u w e h v, Known-self u.digest u.object w.blobs), λ q. absurd (ground arith))

record_blob-Settled :
    {base : List BlobRow}
    → (x : Outside) (u : Upload) (before w : World) → find_upload u.session_id w.uploads ≡ some u
    → Holds u.object w
    → Backed base before
    → Backed base w
    → Kept before w
    → Runs
        (λ b w'. Settled base (u, b) w' × Backed base (roll_back before w'))
        (λ w'. Backed base (roll_back before w'))
        (record_blob x u)
        w
unfolding record_blob
record_blob-Settled {base} x u before w e h b v k =
    let after = roll_back-Backed before (add_blob u w) (add_blob-Kept before u w k) b in
    Runs-get _ (
      calls _ _ _
        (changes _
          (calls _ _ _ (changes _ (Runs-done _ (add_blob-Settled u w e h v, after))) after))
        (roll_back-Backed before w k b))

settle-Settled :
    {base : List BlobRow}
    → (x : Outside) (id : ℕ) (parts : List Part) (w : World) → Backed base w
    → Runs
        (λ r w'.
          (Settled base r w' × (find_upload r.0.session_id w.uploads ≡ some r.0))
          × Backed base (roll_back w w'))
        (λ w'. Backed base (roll_back w w'))
        (settle x id parts)
        w
unfolding settle
settle-Settled {base} x id parts w v =
    calls _ _ _
      (Runs-bind
        (Runs-get _ (
          Runs-or_fail {R = λ u w'. (find_upload id w.uploads ≡ some u) × (w' ≡ w)} _ _
            (λ u e. (e, refl)) v))
        (λ u w1 (e, same).
          Runs-seq {S = λ w2. Grew w w2 × Holds u.object w2}
            (weak (check_upload-Grew w x u parts w1 (subst (Grew w) (sym same) (Grew-refl w))))
            (λ w2 (g, h).
              Runs-bind
                (record_blob-Settled x u w w2 (found u w2 e g) h v (Grew-Backed w w2 g v)
                  (Grew-Kept w w2 g))
                (λ present w3 r. Runs-done _ ((r.0, found u w e (Grew-refl w)), r.1)))))
      v
  where
    found :
        (u : Upload) (w2 : World)
        → find_upload id w.uploads ≡ some u
        → Grew w w2
        → find_upload u.session_id w2.uploads ≡ some u
    found u w2 e g =
        ap (λ i. find_upload i w2.uploads) (find_upload-session_id id w.uploads u e)
        ∙ ap (λ (z : World). find_upload id z.uploads) g.same
        ∙ e

    weak :
        {R : Unit {0} → World → Type 0} {act : M (Unit {0})} {w1 : World}
        → Runs R (Grew w) act w1
        → Runs R (λ w'. Backed base (roll_back w w')) act w1
    weak r = Runs-weaken r (λ w' g. roll_back-Backed w w' (Grew-Kept w w' g) v)

-- What `CompleteUpload` returns is the URI of a session that it has found, whose digest is recorded.
pub record Completed (base : List BlobRow) (x : Outside) (before : World) (link : Bytes) (w : World)
    : Type 0 where
  pub backed : Backed base w
  pub session : Upload
  pub found : find_upload session.session_id before.uploads ≡ some session
  pub known : Known session.digest w.blobs
  pub same : link ≡ uri x.codec session.mime_type session.digest

drop_duplicate-Completed :
    {base : List BlobRow}
    → (x : Outside) (before : World) (r : Upload × Bool) (w : World) → Settled base r w
    → find_upload r.0.session_id before.uploads ≡ some r.0
    → Runs (Completed base x before) (Backed base) (drop_duplicate x r) w
unfolding drop_duplicate
drop_duplicate-Completed {base} x before (u, false) w ((v, known), loose) e = record {
  holds = record { backed = v; session = u; found = e; known = known; same = refl };
}
drop_duplicate-Completed {base} x before (u, true) w ((v, known), loose) e = record {
  holds = by_fault (x.fault remove);
}
  where
    by_fault :
        (o : Option Error)
        → Completed base x before (uri x.codec u.mime_type u.digest) (remove_by o u.object w)
    by_fault none = record {
      backed = unlink-Backed u.object w (loose refl).0 v;
      session = u;
      found = e;
      known = known;
      same = refl;
    }
    by_fault (some f) = record { backed = v; session = u; found = e; known = known; same = refl }

pub complete_upload-Runs :
    {base : List BlobRow}
    → (x : Outside) (id : Bytes) (parts : List Part) (w : World) → Backed base w
    → Runs (Completed base x w) (Backed base) (complete_upload x id parts) w
unfolding complete_upload
complete_upload-Runs {base} x id parts w v =
    checks _ _
      (λ _. Runs-bind (Runs-or_fail {R = λ _ w'. w' ≡ w} _ _ (λ _ _. refl) v) (λ session_id w1 same.
        Runs-bind
          (subst
            (λ (z : World).
              Runs (λ r w'. Settled base r w' × (find_upload r.0.session_id w.uploads ≡ some r.0))
                (Backed base) (in_tx x internal (settle x session_id parts)) z)
            (sym same) (Runs-tx _ _ v (settle-Settled x session_id parts w v)))
          (λ r w2 (h, e). drop_duplicate-Completed x w r w2 h e)))
      v

-- On every way out.
pub complete_upload-Backed :
    {base : List BlobRow}
    → (x : Outside) (id : Bytes) (parts : List Part) (w : World) → Backed base w
    → Backed base (complete_upload x id parts w).0
complete_upload-Backed {base} x id parts w v =
    Runs-world (complete_upload x id parts) w (complete_upload-Runs x id parts w v)
      (λ _ _ h. h.backed)
