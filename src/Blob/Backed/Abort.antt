-- ===== src/Blob/Backed/Abort.antt =====
-- `AbortUpload` and `CleanupExpiredUploads` of internal/blob/service.go keep the tables and the
-- bucket in order.
use lutra.Prelude.{ℕ, ◌≢◌, List, [], ◌∷◌, Option, none, some, ◌≡◌, refl, arith}
use lutra.Prelude.Bytes.{Bytes}
use lutra.Prelude.Results.{Error, Result, ok, err}
use lutra.Log.Types.{BlobRow}
use lutra.Blob.Types.{Upload, World, Outside, roll_back, list_expired}
use lutra.Blob.Create.{find_upload, get_session, drop_part, close_part}
use lutra.Blob.Complete.{forget}
use lutra.Blob.Rules.{
  Outcome, Runs, Runs-bind, Runs-world, Runs-done, Runs-get, Runs-update, Runs-or_fail, Runs-tx,
  checks, calls, changes,
}
use lutra.Blob.Backed.Invariant.{AllBlobs, Staged, Backed, AllUploads-find}
use lutra.Blob.Types.{abort_multipart}
use lutra.Blob.Complete.{
  abort_locked, abort_session, as_unavailable, abort_upload, abort_all, cleanup_expired_uploads,
  expired, first,
}
use lutra.Blob.Backed.Create.{Backed-fresh}
use lutra.Blob.Backed.Worlds.{forget-Backed, unlink, unlink-Backed}

-- Of a world in which only the multipart uploads may differ.
drop_part_ind :
    (C : World → Type 0) (x : Outside) (o : Option ℕ) (w : World)
    → ((parts : List ℕ) → C (record w { open_parts = parts }))
    → C (drop_part x o w)
drop_part_ind C x none w f = f w.open_parts
drop_part_ind C x (some id) w f = by_fault (x.fault abort_multipart)
  where
    by_fault : (e : Option Error) → C (close_part e id w)
    by_fault none = f _
    by_fault (some e) = f w.open_parts

Opened-Backed :
    {base : List BlobRow}
    → (w : World) (parts : List ℕ) → Backed base w
    → Backed base (record w { open_parts = parts })
Opened-Backed {base} w parts v = Backed-fresh w w.fresh parts (omega arith) v

abort_found-Backed :
    {base : List BlobRow}
    → (x : Outside) (u : Upload) (w : World) → AllBlobs (λ b. b.object ≢ u.object) w.blobs
    → Backed base w
    → Runs
        (λ _ w'. Backed base w' × Backed base (roll_back w w'))
        (λ w'. Backed base (roll_back w w'))
        (abort_locked x (some u))
        w
unfolding abort_locked
abort_found-Backed {base} x u w a v =
    let ind = λ (C : World → Type 0). drop_part_ind C x u.multipart_id w in
    let gone =
      ind (λ w'. Backed base (roll_back w (unlink u.object w')))
        (λ parts. unlink-Backed u.object _ a (Opened-Backed w parts v)) in
    changes _ (
      calls _ _ _
        (changes _ (
          calls _ _ _
            (Runs-update _ (
              ind (λ w'. Backed base (forget u.session_id (unlink u.object w')))
                  (λ parts.
                    forget-Backed u.session_id _
                      (unlink-Backed u.object _ a (Opened-Backed w parts v))),
              gone,
            ))
            gone))
        (ind (λ w'. Backed base (roll_back w w')) (λ parts. Opened-Backed w parts v)))

abort_none-Backed :
    {base : List BlobRow}
    → (x : Outside) (w : World) → Backed base w
    → Runs
        (λ _ w'. Backed base w' × Backed base (roll_back w w'))
        (λ w'. Backed base (roll_back w w'))
        (abort_locked x none)
        w
unfolding abort_locked
abort_none-Backed {base} x w v = Runs-done _ (v, v)

abort_locked-Backed :
    {base : List BlobRow}
    → (x : Outside) (id : ℕ) (w : World) → Backed base w
    → Runs
        (λ _ w'. Backed base w' × Backed base (roll_back w w'))
        (λ w'. Backed base (roll_back w w'))
        (abort_locked x (find_upload id w.uploads))
        w
abort_locked-Backed {base} x id w v = by_row (find_upload id w.uploads) refl
  where
    by_row :
        (o : Option Upload)
        → find_upload id w.uploads ≡ o
        → Runs
            (λ _ w'. Backed base w' × Backed base (roll_back w w'))
            (λ w'. Backed base (roll_back w w'))
            (abort_locked x o)
            w
    by_row none e = abort_none-Backed x w v
    by_row (some u) e =
        abort_found-Backed x u w
          (AllUploads-find (Staged w.fresh w.blobs) id w.uploads u e v.staged).1 v

abort_session-Runs :
    {base : List BlobRow}
    → (x : Outside) (id : ℕ) (w : World) → Backed base w
    → Runs (λ _. Backed base) (Backed base) (abort_session x id) w
unfolding abort_session
abort_session-Runs {base} x id w v =
    Runs-tx _ _ v (calls _ _ _ (Runs-get _ (abort_locked-Backed x id w v)) v)

as_unavailable-Outcome :
    (base : List BlobRow)
    → (r : World × Result (Unit {0})) → Outcome (λ _. Backed base) (Backed base) r
    → Outcome (λ _. Backed base) (Backed base) (as_unavailable r)
as_unavailable-Outcome base (w, ok a) h = h
as_unavailable-Outcome base (w, err e) h = h

get_session-same :
    {base : List BlobRow}
    → (x : Outside) (now : ℕ) (id : Bytes) (w : World) → Backed base w
    → Runs (λ _. Backed base) (Backed base) (get_session x now id) w
unfolding get_session
get_session-same {base} x now id w v =
    Runs-bind (Runs-or_fail {R = λ _. Backed base} _ _ (λ _ _. v) v)
      (λ session_id w1 v1. calls _ _ _ (Runs-get _ (Runs-or_fail _ _ (λ _ _. v1) v1)) v1)

pub abort_upload-Backed :
    {base : List BlobRow}
    → (x : Outside) (now : ℕ) (id : Bytes) (w : World) → Backed base w
    → Backed base (abort_upload x now id w).0
unfolding abort_upload
abort_upload-Backed {base} x now id w v =
    Runs-world {R = λ _. Backed base} (abort_upload x now id) w
      (checks _ _
        (λ _. Runs-bind (get_session-same x now id w v) (λ u w1 v1. record {
          holds = as_unavailable-Outcome base _ (abort_session-Runs x u.session_id w1 v1).holds;
        }))
        v)
      (λ _ _ h. h)

abort_all-Backed :
    {base : List BlobRow}
    → (x : Outside) (ids : List ℕ) (w : World) → Backed base w
    → Backed base (abort_all x ids w)
unfolding abort_all
abort_all-Backed {base} x [] w v = v
abort_all-Backed {base} x (id ∷ ids) w v =
    abort_all-Backed x ids _
      (Runs-world (abort_session x id) w (abort_session-Runs x id w v) (λ _ _ h. h))

pub cleanup_expired_uploads-Backed :
    {base : List BlobRow}
    → (x : Outside) (now : ℕ) (order : List ℕ) (w : World) → Backed base w
    → Backed base (cleanup_expired_uploads x now order w)
unfolding cleanup_expired_uploads
cleanup_expired_uploads-Backed {base} x now order w v = by_fault (x.fault list_expired)
  where
    by_fault :
        (o : Option Error)
        → Backed base
            (elim o [ some e ↦ w | none ↦ abort_all x (first 100 (expired now order w.uploads)) w ])
    by_fault none = abort_all-Backed x (first 100 (expired now order w.uploads)) w v
    by_fault (some e) = v
