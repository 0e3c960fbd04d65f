-- ===== src/Blob/Lasting.antt =====
-- The runs of internal/blob/service.go: any sequence of calls, each with its own failures.
use lutra.Prelude.{
  ℕ, true, false, List, [], ◌∷◌, none, some, ◌≡◌, refl, ap, subst, ◌∙◌, arith, Option-cases,
  Bool-cases, inl, inr,
}
use lutra.Prelude.Bytes.{Bytes, equal}
use lutra.Prelude.Map.{lookup, insert}
use lutra.Prelude.Results.{ok}
use lutra.Log.Types.{BlobRow}
use lutra.Log.Tables.{get_blob_by_sha256}
use lutra.Blob.Uri.{uri, parse_uri}
use lutra.Blob.Types.{
  Upload, Object, Part, World, Call, Outside, ◌>>=◌, ◌>>◌, done, fail, require, attempt, get,
  get_blob, stat, presign,
}
use lutra.Blob.Create.{CreateRequest, create_upload, or_fail, find_upload}
use lutra.Blob.Complete.{stat_object, complete_upload, abort_upload, cleanup_expired_uploads}
use lutra.Blob.Transfer.{put_unknown, put_blob, get_download}
use lutra.Blob.Rules.{Runs-ok}
use lutra.Blob.Backed.Invariant.{AllBlobs, Has, Known, Backed, AllBlobs-map, Has-insert}
use lutra.Blob.Backed.Create.{create_upload-Backed}
use lutra.Blob.Backed.Complete.{complete_upload-Runs, complete_upload-Backed}
use lutra.Blob.Backed.Abort.{abort_upload-Backed, cleanup_expired_uploads-Backed}
use lutra.Blob.Backed.Put.{put_blob-Runs, put_blob-Backed, put_unknown-Backed}

-- A client writes an object under an address that was signed for it.
abbrev pub write_object : ℕ → Object → World → World
write_object object made w = record w { objects = insert object made w.objects }

-- One call. `put_late` is a `Put` whose query came before the steps of others.
pub data Step (w : World) : World → Type 0 where
  creates : (x : Outside) (now : ℕ) (m : CreateRequest) → Step w (create_upload x now m w).0
  writes : (object : ℕ) (made : Object) → Step w (write_object object made w)
  completes :
      (x : Outside) (id : Bytes) (parts : List Part) → Step w (complete_upload x id parts w).0
  aborts : (x : Outside) (now : ℕ) (id : Bytes) → Step w (abort_upload x now id w).0
  cleans : (x : Outside) (now : ℕ) (order : List ℕ) → Step w (cleanup_expired_uploads x now order w)
  puts : (x : Outside) (mime text : Bytes) → Step w (put_blob x mime text w).0
  put_late : (x : Outside) (mime text : Bytes) → Step w (put_unknown x mime text w).0

pub data Later (w : World) : World → Type 0 where
  here : Later w w
  after : {u v : World} → Later w u → Step u v → Later w v

abbrev pub nothing : World
nothing = record { blobs = []; uploads = []; objects = []; open_parts = []; fresh = 0 }

pub Step-Backed : {base : List BlobRow} (w v : World) → Step w v → Backed base w → Backed base v
Step-Backed w _ (creates x now m) b = create_upload-Backed x now m w b
Step-Backed w _ (writes object made) b = record {
  kept = b.kept;
  has = AllBlobs-map w.blobs (Has-insert object made w.objects) b.has;
  old = b.old;
  staged = b.staged;
  unique = b.unique;
}
Step-Backed w _ (completes x id parts) b = complete_upload-Backed x id parts w b
Step-Backed w _ (aborts x now id) b = abort_upload-Backed x now id w b
Step-Backed w _ (cleans x now order) b = cleanup_expired_uploads-Backed x now order w b
Step-Backed w _ (puts x mime text) b = put_blob-Backed x mime text w b
Step-Backed w _ (put_late x mime text) b = put_unknown-Backed x mime text w b

-- Whatever fails in them, the calls keep every recorded blob with its object in the bucket, every
-- session with an object of its own that is no blob's, and every digest that was recorded before.
pub Later-Backed : {base : List BlobRow} (w v : World) → Later w v → Backed base w → Backed base v
Later-Backed w _ here b = b
Later-Backed w v (after {u = u} run step) b = Step-Backed u v step (Later-Backed w u run b)

pub nothing-Backed : Backed [] nothing
nothing-Backed = record { kept = λ digest h. h; has = tt; old = tt; staged = tt; unique = tt }

rebase : {base : List BlobRow} (w : World) → Backed base w → Backed w.blobs w
rebase w b = record {
  kept = λ digest h. h;
  has = b.has;
  old = b.old;
  staged = b.staged;
  unique = b.unique;
}

found_head :
    (digest : Bytes) (b : BlobRow) (bs : List BlobRow) (row : BlobRow)
    → equal b.digest digest ≡ true
    → get_blob_by_sha256 digest (b ∷ bs) ≡ some row
    → b ≡ row
unfolding get_blob_by_sha256
found_head digest b bs row same e = ground arith

found_tail :
    (digest : Bytes) (b : BlobRow) (bs : List BlobRow) (row : BlobRow)
    → equal b.digest digest ≡ false
    → get_blob_by_sha256 digest (b ∷ bs) ≡ some row
    → get_blob_by_sha256 digest bs ≡ some row
unfolding get_blob_by_sha256
found_tail digest b bs row other e = ground arith

AllBlobs-found :
    (P : BlobRow → Type 0) (digest : Bytes) (bs : List BlobRow) (row : BlobRow)
    → get_blob_by_sha256 digest bs ≡ some row
    → AllBlobs P bs
    → P row
unfolding get_blob_by_sha256
AllBlobs-found P digest [] row e h = absurd (ground arith)
AllBlobs-found P digest (b ∷ bs) row e (h, r) = elim (Bool-cases (equal b.digest digest)) [
  | inl same ↦ subst P (found_head digest b bs row same e) h
  | inr other ↦ AllBlobs-found P digest bs row (found_tail digest b bs row other e) r
]

get_download-found :
    (y : Outside) (link digest mime : Bytes) (w : World) (row : BlobRow) (held : Object)
    → y.ready ≡ true
    → ((c : Call) → y.fault c ≡ none)
    → parse_uri y.codec link ≡ ok (digest, mime)
    → get_blob_by_sha256 digest w.blobs ≡ some row
    → lookup row.object w.objects ≡ some held
    → get_download y link w ≡ (w, ok row.object)
unfolding get_download stat_object or_fail ◌>>=◌ ◌>>◌ require attempt get done fail
get_download-found y link digest mime w row held r f p e h =
    rw (r, p, f get_blob, e, f stat, h, f presign) refl

-- The URI is answered with the address of an object that is in the bucket, and nothing changes.
pub record Served (y : Outside) (link digest : Bytes) (w : World) : Type 0 where
  pub row : BlobRow
  pub recorded : get_blob_by_sha256 digest w.blobs ≡ some row
  pub present : Has w.objects row
  pub answer : get_download y link w ≡ (w, ok row.object)

get_download-Known :
    {base : List BlobRow}
    → (y : Outside) (link digest mime : Bytes) (w : World) → Backed base w
    → Known digest w.blobs
    → parse_uri y.codec link ≡ ok (digest, mime)
    → y.ready ≡ true
    → ((c : Call) → y.fault c ≡ none)
    → Served y link digest w
get_download-Known y link digest mime w b known p r f =
    elim (Option-cases (get_blob_by_sha256 digest w.blobs)) [
      | inl none_found ↦ absurd (ground arith)
      | inr (row, e) ↦
          let has = AllBlobs-found (Has w.objects) digest w.blobs row e b.has in
          elim (Option-cases (lookup row.object w.objects)) [
            | inl lost ↦ absurd (ground arith)
            | inr (held, h) ↦ record {
              row = row;
              recorded = e;
              present = has;
              answer = get_download-found y link digest mime w row held r f p e h;
            }
          ]
    ]

-- The URI that `Put` has returned in a state that the calls reach from the empty one can be downloaded
-- after any further calls, if it is one that can be read, the service is ready and no call that the
-- download makes fails: the address is that of an object in the bucket.
pub put_blob-Served :
    (x y : Outside) (mime text link : Bytes) (v w u : World)
    → Later nothing v
    → put_blob x mime text v ≡ (w, ok link)
    → Later w u
    → parse_uri y.codec link ≡ ok (x.sha256 text, mime)
    → y.ready ≡ true
    → ((c : Call) → y.fault c ≡ none)
    → Served y link (x.sha256 text) u
put_blob-Served x y mime text link v w u before put later p r f =
    let got =
      Runs-ok (put_blob x mime text) v w link
        (put_blob-Runs x mime text v (Later-Backed nothing v before nothing-Backed)) put in
    let still = Later-Backed w u later (rebase w got.0) in
    get_download-Known y link (x.sha256 text) mime u still (still.kept (x.sha256 text) got.1.0) p r
      f

-- The URI that `CompleteUpload` has returned in a state that the calls reach from the empty one is that
-- of a session there was, and it can be downloaded after any further calls, if the URIs of the sessions
-- there were can be read, the service is ready and no call that the download makes fails.
pub complete_upload-Served :
    (x y : Outside) (id link : Bytes) (parts : List Part) (v w u : World)
    → Later nothing v
    → complete_upload x id parts v ≡ (w, ok link)
    → Later w u
    → ((s : Upload)
        → find_upload s.session_id v.uploads ≡ some s
        → parse_uri y.codec (uri x.codec s.mime_type s.digest) ≡ ok (s.digest, s.mime_type))
    → y.ready ≡ true
    → ((c : Call) → y.fault c ≡ none)
    → (s : Upload) × (find_upload s.session_id v.uploads ≡ some s)
      × ((link ≡ uri x.codec s.mime_type s.digest) × Served y link s.digest u)
complete_upload-Served x y id link parts v w u before complete later p r f =
    let got =
      Runs-ok (complete_upload x id parts) v w link
        (complete_upload-Runs x id parts v (Later-Backed nothing v before nothing-Backed))
        complete in
    let s = got.session in
    let still = Later-Backed w u later (rebase w got.backed) in
    (
      s,
      got.found,
      (
        got.same,
        get_download-Known y link s.digest s.mime_type u still (still.kept s.digest got.known)
            (ap (parse_uri y.codec) got.same ∙ p s got.found) r f,
      ),
    )
