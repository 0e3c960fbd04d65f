-- ===== src/Blob/Backed/Put.antt =====
-- `Put` of internal/blob/service.go keeps the tables and the bucket in order.
use lutra.Prelude.{ℕ, List, Option, none, some, is_some, ◌≡◌, refl, ap, arith, if_ind}
use lutra.Prelude.Bytes.{Bytes}
use lutra.Prelude.Map.{insert, lookup-insert_self}
use lutra.Prelude.Results.{Error}
use lutra.Log.Types.{BlobRow}
use lutra.Log.Tables.{get_blob_by_sha256}
use lutra.Blob.Uri.{uri}
use lutra.Blob.Types.{Object, World, Outside, done, remove}
use lutra.Blob.Transfer.{put_object, drop_by, own_or_drop, put_unknown, put_blob}
use lutra.Blob.Rules.{Runs, Runs-world, Runs-done, Runs-get, calls, changes}
use lutra.Blob.Backed.Invariant.{
  Known, Known-add, Known-self, Backed, AllBlobs-map, AllUploads-map, Has-delete, Has-insert,
}

-- The new object's number is no blob's and no session's.
put_object-Backed :
    {base : List BlobRow}
    → (digest : Bytes) (made : Object) (w : World) → Backed base w
    → Backed base (put_object digest made w)
put_object-Backed {base} digest made w v = record {
  kept = v.kept;
  has = AllBlobs-map w.blobs (Has-insert w.fresh made w.objects) v.has;
  old = AllBlobs-map w.blobs (λ b h. omega arith) v.old;
  staged = AllUploads-map w.uploads (λ u (h, r). (omega arith, r)) v.staged;
  unique = v.unique;
}

own_or_drop-Backed :
    {base : List BlobRow}
    → (x : Outside) (digest : Bytes) (made : Object) (w : World) → Backed base w
    → Backed base (own_or_drop x digest w.fresh (put_object digest made w))
own_or_drop-Backed {base} x digest made w v =
    if_ind (Backed base) (is_some (get_blob_by_sha256 digest w.blobs))
      (λ _. dropped (x.fault remove))
      (λ _. record {
        kept = λ other h. Known-add other _ w.blobs (v.kept other h);
        has = (ap is_some (lookup-insert_self w.fresh made w.objects), put.has);
        old = (omega arith, put.old);
        staged =
            AllUploads-map w.uploads (λ u (h, r). (omega arith, ((λ e. omega arith), r))) v.staged;
        unique = v.unique;
      })
  where
    put : Backed base (put_object digest made w)
    put = put_object-Backed digest made w v

    dropped : (o : Option Error) → Backed base (drop_by o w.fresh (put_object digest made w))
    dropped (some e) = put
    dropped none = record {
      kept = v.kept;
      has =
          Has-delete w.fresh (insert w.fresh made w.objects) w.blobs
            (AllBlobs-map w.blobs (λ b h e. omega arith) v.old) put.has;
      old = put.old;
      staged = put.staged;
      unique = v.unique;
    }

-- What `Put` returns is the URI of a digest that is recorded.
abbrev pub Linked : List BlobRow → Outside → (mime digest : Bytes) → Bytes → World → Type 0
Linked base x mime digest link w =
    Backed base w × (Known digest w.blobs × (link ≡ uri x.codec mime digest))

own_or_drop-Known :
    (x : Outside) (digest : Bytes) (object : ℕ) (w : World)
    → Known digest (own_or_drop x digest object w).blobs
own_or_drop-Known x digest object w =
    if_ind (λ (w' : World). Known digest w'.blobs) (is_some (get_blob_by_sha256 digest w.blobs))
      (λ there. dropped (x.fault remove) there) (λ _. Known-self digest object w.blobs)
  where
    dropped : (o : Option Error) → Known digest w.blobs → Known digest (drop_by o object w).blobs
    dropped none h = h
    dropped (some e) h = h

pub put_unknown-Runs :
    {base : List BlobRow}
    → (x : Outside) (mime text : Bytes) (w : World) → Backed base w
    → Runs (Linked base x mime (x.sha256 text)) (Backed base) (put_unknown x mime text) w
unfolding put_unknown
put_unknown-Runs {base} x mime text w v = Runs-get _ (
    calls _ _ _
      (changes _ (
        calls _ _ _
          (changes _ (
            Runs-done _ (
              own_or_drop-Backed x (x.sha256 text) _ w v,
              (own_or_drop-Known x (x.sha256 text) w.fresh _, refl),
            )))
          (put_object-Backed (x.sha256 text) _ w v)))
      v)

pub put_blob-Runs :
    {base : List BlobRow}
    → (x : Outside) (mime text : Bytes) (w : World) → Backed base w
    → Runs (Linked base x mime (x.sha256 text)) (Backed base) (put_blob x mime text) w
unfolding put_blob
put_blob-Runs {base} x mime text w v =
    calls _ _ _ (Runs-get _ (by_row (get_blob_by_sha256 (x.sha256 text) w.blobs) refl)) v
  where
    by_row :
        (o : Option BlobRow)
        → get_blob_by_sha256 (x.sha256 text) w.blobs ≡ o
        → Runs
            (Linked base x mime (x.sha256 text))
            (Backed base)
            (elim o [
              | some row ↦ done (uri x.codec mime (x.sha256 text))
              | none ↦ put_unknown x mime text
            ])
            w
    by_row none e = put_unknown-Runs x mime text w v
    by_row (some row) e = Runs-done _ (v, (ap is_some e, refl))

pub put_unknown-Backed :
    {base : List BlobRow}
    → (x : Outside) (mime text : Bytes) (w : World) → Backed base w
    → Backed base (put_unknown x mime text w).0
put_unknown-Backed {base} x mime text w v =
    Runs-world (put_unknown x mime text) w (put_unknown-Runs x mime text w v) (λ _ _ h. h.0)

pub put_blob-Backed :
    {base : List BlobRow}
    → (x : Outside) (mime text : Bytes) (w : World) → Backed base w
    → Backed base (put_blob x mime text w).0
put_blob-Backed {base} x mime text w v =
    Runs-world (put_blob x mime text) w (put_blob-Runs x mime text w v) (λ _ _ h. h.0)
