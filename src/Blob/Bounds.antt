-- ===== src/Blob/Bounds.antt =====
-- The number of parts that `CreateUpload` of internal/blob/service.go gives out.
use lutra.Prelude.{
  ℕ, ◌-◌, ◌*◌, ◌^◌, ◌≤◌, ◌<◌, Bool, true, false, not, ◌&&◌, List, Option, none, some, ◌≡◌, arith,
  if_ind,
}
use lutra.Prelude.Bytes.{Bytes}
use lutra.Prelude.Int64.{less64}
use lutra.Prelude.Results.{Error, ok}
use lutra.Log.Types.{BlobRow}
use lutra.Log.Tables.{get_blob_by_sha256}
use lutra.Blob.Types.{part_size, part_count, World, Outside, Upload, M, done, create_row}
use lutra.Blob.Create.{
  CreateRequest, Created, already_exists, session, parts_of, start_multipart, insert_upload,
  upload_of, new_session, check_request, upload_metadata, create_upload,
}
use lutra.Blob.Rules.{
  Runs, Runs-bind, Runs-seq, Runs-weaken_value, Runs-require, Runs-done, Runs-get, Runs-ok, checks,
  calls, changes,
}

-- Parts of `part_size` bytes, only the last of which may be smaller.
abbrev pub Sized : (size parts : ℕ) → Type 0
Sized size parts =
    (1 ≤ parts)
    × (parts ≤ 10000)
    × (size ≤ parts * part_size)
    × (1 < parts → (parts - 1) * part_size < size)

abbrev Any : World → Type 0
Any w = Unit

-- A size that the code takes.
abbrev Fits : ℕ → Type 0
Fits size = size ≤ 83886080000

part_count-Sized : (size : ℕ) → part_size < size → Fits size → Sized size (part_count size)
unfolding part_count
part_count-Sized size large fits = (omega arith, omega arith, omega arith, λ many. omega arith)

fits :
    (size : ℕ) → size < 2 ^ 64 → less64 size 0 ≡ false → less64 83886080000 size ≡ false → Fits size
fits size word a b = ground arith

large : (size : ℕ) → Fits size → less64 part_size size ≡ true → part_size < size
large size f e = ground arith

small : (size : ℕ) → Fits size → less64 part_size size ≡ false → Sized size 1
small size f e = (ground arith, ground arith, ground arith, λ many. absurd (ground arith))

conjuncts : (a b c d e : Bool) → (a && not b && not c && d && e) ≡ true → (b ≡ false) × (c ≡ false)
conjuncts a b c d e h = (ground arith, ground arith)

start_multipart-Sized :
    (x : Outside) (size : ℕ) (w : World)
    → Fits size
    → Runs (λ multipart _. Sized size (parts_of multipart size)) Any (start_multipart x size) w
unfolding start_multipart
start_multipart-Sized x size w f =
    if_ind
      (λ (act : M (Option ℕ)). Runs (λ multipart _. Sized size (parts_of multipart size)) Any act w)
      (less64 part_size size)
      (λ over.
        calls _ _ _
          (Runs-get _ (changes _ (Runs-done _ (part_count-Sized size (large size f over) f)))) tt)
      (λ under. Runs-done _ (small size f under))

-- Of the sessions that are made.
abbrev Counted : ℕ → Created → World → Type 0
Counted size already_exists w = Unit
Counted size (session id parts) w = Sized size parts

insert_upload_lem :
    (x : Outside) (o : Option Error) (u : Upload) (w : World)
    → Runs (λ _. Any) Any (insert_upload x o u) w
insert_upload_lem x none u w = record { holds = tt }
insert_upload_lem x (some e) u w = record { holds = tt }

new_session-Counted :
    (x : Outside) (now : ℕ) (m : CreateRequest) (w : World)
    → Fits m.request_size
    → Runs (Counted m.request_size) Any (new_session x now m) w
unfolding new_session
new_session-Counted x now m w f = Runs-get _ (
    calls _ _ _
      (calls _ _ _
        (changes _ (
          Runs-bind (start_multipart-Sized x m.request_size _ f) (λ multipart w1 sized.
            Runs-seq {S = Any}
              (insert_upload_lem x (x.fault create_row) (upload_of m now w.fresh multipart) w1)
              (λ w2 _. Runs-done _ sized))))
        tt)
      tt)

upload_metadata_lem :
    (x : Outside) (values : List (Bytes × Bytes)) (w : World)
    → Runs (λ _. Any) Any (upload_metadata x values) w
unfolding upload_metadata
upload_metadata_lem x values w =
    checks _ _ (λ _. checks _ _ (λ _. Runs-require _ _ (λ _. tt) tt) tt) tt

check_request-Fits :
    (x : Outside) (m : CreateRequest) (w : World)
    → m.request_size < 2 ^ 64
    → Runs (λ _ _. Fits m.request_size) Any (check_request x m) w
unfolding check_request
check_request-Fits x m w word =
    checks _ _
      (λ good.
        let sized = conjuncts _ _ _ _ _ good in
        checks _ _
          (λ _.
            Runs-weaken_value (upload_metadata_lem x m.entries w)
              (λ _ _ _. fits m.request_size word sized.0 sized.1))
          tt)
      tt

create_upload-Counted :
    (x : Outside) (now : ℕ) (m : CreateRequest) (w : World)
    → m.request_size < 2 ^ 64
    → Runs (Counted m.request_size) Any (create_upload x now m) w
unfolding create_upload
create_upload-Counted x now m w word =
    checks _ _
      (λ _. Runs-seq {S = λ _. Fits m.request_size} (check_request-Fits x m w word) (λ w1 f.
        calls _ _ _ (Runs-get _ (found (get_blob_by_sha256 m.content_sha256 w1.blobs) w1 f)) tt))
      tt
  where
    found :
        (o : Option BlobRow) (w : World)
        → Fits m.request_size
        → Runs
            (Counted m.request_size)
            Any
            (elim o [ some row ↦ done already_exists | none ↦ new_session x now m ])
            w
    found none w f = new_session-Counted x now m w f
    found (some row) w f = Runs-done _ tt

-- A session that `CreateUpload` makes has between 1 and 10,000 parts, which together hold the object's
-- bytes and are all needed, although the count is computed in an int64 and an int32.
pub create_upload-Sized :
    (x : Outside) (now : ℕ) (m : CreateRequest) (w w' : World) (id parts : ℕ)
    → m.request_size < 2 ^ 64
    → create_upload x now m w ≡ (w', ok (session id parts))
    → Sized m.request_size parts
create_upload-Sized x now m w w' id parts word e =
    Runs-ok (create_upload x now m) w w' (session id parts) (create_upload-Counted x now m w word) e
