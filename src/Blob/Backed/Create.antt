-- ===== src/Blob/Backed/Create.antt =====
-- `CreateUpload` of internal/blob/service.go keeps the tables and the bucket in order.
use lutra.Prelude.{ℕ, ◌+◌, ◌≤◌, ◌<◌, ◌≢◌, List, ◌∷◌, Option, none, some, arith, if_ind}
use lutra.Prelude.Bytes.{Bytes}
use lutra.Prelude.Int64.{less64}
use lutra.Prelude.Results.{Error}
use lutra.Log.Types.{BlobRow}
use lutra.Log.Tables.{get_blob_by_sha256}
use lutra.Blob.Types.{Upload, World, Outside, part_size, M, done, create_row, abort_multipart}
use lutra.Blob.Create.{
  CreateRequest, already_exists, close_part, drop_part, insert_upload, open_multipart, take_ids,
  upload_of, start_multipart, new_session, create_upload, check_request, upload_metadata,
}
use lutra.Blob.Rules.{
  Runs, Runs-bind, Runs-seq, Runs-require, Runs-world, Runs-done, Runs-get, checks, calls, changes,
}
use lutra.Blob.Backed.Invariant.{AllUploads, AllBlobs, Backed, AllBlobs-map, AllUploads-map}

-- The object's number is taken, and nothing holds it.
abbrev Free : ℕ → World → Type 0
Free k w =
    (k < w.fresh) × AllBlobs (λ b. b.object ≢ k) w.blobs × AllUploads (λ u. u.object ≢ k) w.uploads

abbrev Ready : List BlobRow → ℕ → World → Type 0
Ready base k w = Backed base w × Free k w

-- More identifiers are taken.
pub Backed-fresh :
    {base : List BlobRow}
    → (w : World) (n : ℕ) (parts : List ℕ) → w.fresh ≤ n
    → Backed base w
    → Backed base (record w { open_parts = parts; fresh = n })
Backed-fresh {base} w n parts le v = record {
  kept = v.kept;
  has = v.has;
  old = AllBlobs-map w.blobs (λ b h. omega arith) v.old;
  staged = AllUploads-map w.uploads (λ u (h, r). (omega arith, r)) v.staged;
  unique = v.unique;
}

take_ids-Ready :
    {base : List BlobRow} → (w : World) → Backed base w → Ready base (w.fresh + 1) (take_ids w)
take_ids-Ready {base} w v = (
  Backed-fresh w (w.fresh + 2) w.open_parts (omega arith) v,
  (
    omega arith,
    AllBlobs-map w.blobs (λ b h e. omega arith) v.old,
    AllUploads-map w.uploads (λ u (h, r) e. omega arith) v.staged,
  ),
)

open_multipart-Ready :
    {base : List BlobRow} → (k : ℕ) (w : World) → Ready base k w → Ready base k (open_multipart w)
open_multipart-Ready {base} k w (v, (h, a, b)) =
    (Backed-fresh w (w.fresh + 1) (w.fresh ∷ w.open_parts) (omega arith) v, (omega arith, a, b))

pub drop_part-Backed :
    {base : List BlobRow}
    → (x : Outside) (id : Option ℕ) (w : World) → Backed base w
    → Backed base (drop_part x id w)
drop_part-Backed {base} x none w v = v
drop_part-Backed {base} x (some id) w v = by_fault (x.fault abort_multipart)
  where
    by_fault : (o : Option Error) → Backed base (close_part o id w)
    by_fault none = Backed-fresh w w.fresh _ (omega arith) v
    by_fault (some e) = v

insert_upload-Backed :
    {base : List BlobRow}
    → (x : Outside) (o : Option Error) (u : Upload) (w : World) → Ready base u.object w
    → Runs (λ _. Backed base) (Backed base) (insert_upload x o u) w
insert_upload-Backed {base} x (some e) u w (v, free) = record {
  holds = drop_part-Backed x u.multipart_id w v;
}
insert_upload-Backed {base} x none u w (v, (h, a, b)) = record {
  holds = record {
    kept = v.kept;
    has = v.has;
    old = v.old;
    staged = ((h, a), v.staged);
    unique = (b, v.unique);
  };
}

start_multipart-Ready :
    {base : List BlobRow}
    → (x : Outside) (size k : ℕ) (w : World) → Ready base k w
    → Runs (λ _. Ready base k) (Backed base) (start_multipart x size) w
unfolding start_multipart
start_multipart-Ready {base} x size k w r =
    if_ind (λ (act : M (Option ℕ)). Runs (λ _. Ready base k) (Backed base) act w)
      (less64 part_size size)
      (λ large. calls _ _ _ (Runs-get _ (changes _ (Runs-done _ (open_multipart-Ready k w r)))) r.0)
      (λ small. Runs-done _ r)

new_session-Backed :
    {base : List BlobRow}
    → (x : Outside) (now : ℕ) (m : CreateRequest) (w : World) → Backed base w
    → Runs (λ _. Backed base) (Backed base) (new_session x now m) w
unfolding new_session
new_session-Backed {base} x now m w v = Runs-get _ (
    calls _ _ _
      (calls _ _ _
        (changes _ (
          Runs-bind
            (start_multipart-Ready x m.request_size (w.fresh + 1) (take_ids w) (take_ids-Ready w v))
            (λ multipart w1 r.
              Runs-seq {S = Backed base}
                (insert_upload-Backed x (x.fault create_row) (upload_of m now w.fresh multipart) w1
                  r)
                (λ w2 v2. Runs-done _ v2))))
        v)
      v)

upload_metadata-same :
    (x : Outside) (values : List (Bytes × Bytes)) (w : World) (P : World → Type 0)
    → P w
    → Runs (λ _. P) P (upload_metadata x values) w
unfolding upload_metadata
upload_metadata-same x values w P h =
    checks _ _ (λ _. checks _ _ (λ _. Runs-require _ _ (λ _. h) h) h) h

check_request-same :
    (x : Outside) (m : CreateRequest) (w : World) (P : World → Type 0)
    → P w
    → Runs (λ _. P) P (check_request x m) w
unfolding check_request
check_request-same x m w P h =
    checks _ _ (λ _. checks _ _ (λ _. upload_metadata-same x m.entries w P h) h) h

create_upload-Runs :
    {base : List BlobRow}
    → (x : Outside) (now : ℕ) (m : CreateRequest) (w : World) → Backed base w
    → Runs (λ _. Backed base) (Backed base) (create_upload x now m) w
unfolding create_upload
create_upload-Runs {base} x now m w v =
    checks _ _
      (λ _. Runs-seq {S = Backed base} (check_request-same x m w (Backed base) v) (λ w1 v1.
        calls _ _ _ (Runs-get _ (found (get_blob_by_sha256 m.content_sha256 w1.blobs) w1 v1)) v1))
      v
  where
    found :
        (o : Option BlobRow) (w : World)
        → Backed base w
        → Runs
            (λ _. Backed base)
            (Backed base)
            (elim o [ some row ↦ done already_exists | none ↦ new_session x now m ])
            w
    found none w v = new_session-Backed x now m w v
    found (some row) w v = Runs-done _ v

-- On every way out.
pub create_upload-Backed :
    {base : List BlobRow}
    → (x : Outside) (now : ℕ) (m : CreateRequest) (w : World) → Backed base w
    → Backed base (create_upload x now m w).0
create_upload-Backed {base} x now m w v =
    Runs-world (create_upload x now m) w (create_upload-Runs x now m w v) (λ _ _ h. h)
