-- ===== src/Blob/Backed/Worlds.antt =====
-- How the steps of `CompleteUpload` of internal/blob/service.go change the tables and the bucket.
use lutra.Prelude.{ℕ, ◌≤◌, ◌≢◌, List, ◌∷◌, some, is_some, ◌≡◌, sym, subst, arith, if_ind}
use lutra.Prelude.Map.{delete}
use lutra.Log.Types.{BlobRow}
use lutra.Log.Tables.{get_blob_by_sha256}
use lutra.Blob.Types.{Upload, World, roll_back}
use lutra.Blob.Create.{find_upload}
use lutra.Blob.Complete.{delete_upload, add_blob, forget}
use lutra.Blob.Backed.Invariant.{
  AllUploads, AllBlobs, Known-add, Has, Staged, Backed, AllBlobs-map, AllUploads-map,
  AllUploads-zip, AllUploads-delete, AllUploads-find, Unique-delete, Unique-find, Has-delete,
}
use lutra.Blob.Backed.Check.{Holds, Grew}

pub Grew-Backed :
    {base : List BlobRow} → (before w : World) → Grew before w → Backed base before → Backed base w
Grew-Backed {base} before w g v = subst (Backed base) (sym g.same) (record {
  kept = v.kept;
  has = AllBlobs-map before.blobs g.more v.has;
  old = v.old;
  staged = v.staged;
  unique = v.unique;
})

-- The bucket has all that it had.
abbrev pub Kept : World → World → Type 0
Kept before w = (before.fresh ≤ w.fresh) × ((b : BlobRow) → Has before.objects b → Has w.objects b)

pub roll_back-Backed :
    {base : List BlobRow}
    → (before w : World) → Kept before w
    → Backed base before
    → Backed base (roll_back before w)
roll_back-Backed {base} before w (le, more) v = record {
  kept = v.kept;
  has = AllBlobs-map before.blobs more v.has;
  old = AllBlobs-map before.blobs (λ b h. omega arith) v.old;
  staged = AllUploads-map before.uploads (λ u (h, r). (omega arith, r)) v.staged;
  unique = v.unique;
}

pub Grew-Kept : (before w : World) → Grew before w → Kept before w
Grew-Kept before w g = subst (Kept before) (sym g.same) (omega arith, g.more)

pub add_blob-Kept :
    (before : World) (u : Upload) (w : World) → Kept before w → Kept before (add_blob u w)
add_blob-Kept before u w k =
    if_ind (λ (w' : World). Kept before w') (is_some (get_blob_by_sha256 u.digest w.blobs)) (λ _. k)
      (λ _. k)

-- Nothing in the tables names the object.
abbrev pub Loose : ℕ → World → Type 0
Loose object w =
    AllBlobs (λ b. b.object ≢ object) w.blobs × AllUploads (λ u. u.object ≢ object) w.uploads

-- A session becomes a blob.
pub own-Backed :
    {base : List BlobRow}
    → (u : Upload) (w : World) → find_upload u.session_id w.uploads ≡ some u
    → Holds u.object w
    → Backed base w
    → Backed base (
        forget u.session_id
          (record w { blobs = record { digest = u.digest; object = u.object } ∷ w.blobs }))
own-Backed {base} u w e h v =
    let mine = AllUploads-find (Staged w.fresh w.blobs) u.session_id w.uploads u e v.staged in
    record {
      kept = λ digest known. Known-add digest _ w.blobs (v.kept digest known);
      has = (h, v.has);
      old = (mine.0, v.old);
      staged =
          AllUploads-zip (delete_upload u.session_id w.uploads)
            (λ s a (l, r). (l, ((λ q. a (sym q)), r)))
            (Unique-find u.session_id w.uploads u e v.unique)
            (AllUploads-delete (Staged w.fresh w.blobs) u.session_id w.uploads v.staged);
      unique = Unique-delete u.session_id w.uploads v.unique;
    }

-- A session goes.
pub forget-Backed :
    {base : List BlobRow} → (id : ℕ) (w : World) → Backed base w → Backed base (forget id w)
forget-Backed {base} id w v = record {
  kept = v.kept;
  has = v.has;
  old = v.old;
  staged = AllUploads-delete (Staged w.fresh w.blobs) id w.uploads v.staged;
  unique = Unique-delete id w.uploads v.unique;
}

pub forget-Loose :
    {base : List BlobRow}
    → (u : Upload) (w : World) → find_upload u.session_id w.uploads ≡ some u
    → Backed base w
    → Loose u.object (forget u.session_id w)
forget-Loose {base} u w e v = (
  (AllUploads-find (Staged w.fresh w.blobs) u.session_id w.uploads u e v.staged).1,
  Unique-find u.session_id w.uploads u e v.unique,
)

-- An object that is no blob's is deleted.
abbrev pub unlink : ℕ → World → World
unlink object w = record w { objects = delete object w.objects }

pub unlink-Backed :
    {base : List BlobRow}
    → (object : ℕ) (w : World) → AllBlobs (λ b. b.object ≢ object) w.blobs
    → Backed base w
    → Backed base (unlink object w)
unlink-Backed {base} object w a v = record {
  kept = v.kept;
  has = Has-delete object w.objects w.blobs a v.has;
  old = v.old;
  staged = v.staged;
  unique = v.unique;
}
