-- ===== src/Blob/Complete.antt =====
-- `CompleteUpload`, `AbortUpload` and `CleanupExpiredUploads` of internal/blob/service.go.
use lutra.Prelude.{
  zero, suc, ℕ, ◌+◌, ◌%◌, ◌^◌, Bool, true, false, not, ◌&&◌, List, [], ◌∷◌, Option, none, some,
  if◌then◌else◌, ◌==◌, leb, length, is_some,
}
use lutra.Prelude.Bytes.{Bytes, equal}
use lutra.Prelude.Map.{lookup, insert, delete}
use lutra.Prelude.Results.{
  Error, Result, ok, err, new_error, unknown, invalid_argument, failed_precondition, unavailable,
  internal,
}
use lutra.Log.Tables.{get_blob_by_sha256}
use lutra.Blob.Text.{is_blank}
use lutra.Blob.Uri.{uri}
use lutra.Blob.Types.{
  part_count, Upload, Object, Part, World, Outside, M, ◌>>=◌, ◌>>◌, done, require, attempt, get,
  update, in_tx, lock_upload, insert_blob, delete_row, stat, remove, list_expired,
}
use lutra.Blob.Create.{unready, missing_session, find_upload, get_session, or_fail, drop_part}

abbrev size_mismatch : Error
size_mismatch = new_error invalid_argument "blob size mismatch"

-- `StatObject`, with the error of `objectMissing`.
unfoldable pub stat_object : Outside → ℕ → Error → M Object
stat_object x object gone = do
  attempt x stat unavailable
  get λ w. or_fail (lookup object w.objects) gone

abbrev pub not_uploaded : Error
not_uploaded = new_error failed_precondition "blob was not uploaded"

-- The object of one PUT is there, with the size and the checksum of the session.
unfoldable pub check_single : Outside → Upload → List Part → M (Unit {0})
unfolding stat_object
check_single x u parts = do
  require (length parts == 0) (new_error invalid_argument "single PUT requires no parts")
  found ← stat_object x u.object not_uploaded
  require (found.length == u.size) size_mismatch
  require (equal found.checksum (x.codec.encode u.digest))
      (new_error failed_precondition "blob checksum unavailable or mismatched")

-- The loop over the parts, from the index on.
unfoldable pub in_order : ℕ → List Part → Bool
in_order index [] = true
in_order index (p ∷ ps) =
    p.number == (index + 1) % 2 ^ 32 && not (is_blank p.etag) && in_order (index + 1) ps

-- What the bucket has after `CompleteMultipartUpload`: an object that is there is not written over.
abbrev pub materialize : ℕ → Option Object → World → World
materialize object none w = w
materialize object (some made) w =
    if is_some (lookup object w.objects)
    then w
    else record w { objects = insert object made w.objects }

abbrev pub gone : Error
gone = new_error unavailable "The specified key does not exist."

-- If both calls fail, the first one's error is returned.
abbrev pub first_error {ℓ} : {A : Type ℓ} → Option Error → World × Result A → World × Result A
first_error none r = r
first_error (some e) (w, ok a) = (w, ok a)
first_error (some e) (w, err f) = (w, err (new_error unavailable e.text))

unfoldable pub complete_parts : Outside → Upload → ℕ → List Part → M Object
unfolding stat_object
complete_parts x u id parts w =
    let (made, failure) = x.assemble id parts in
    first_error failure (stat_object x u.object gone (materialize u.object made w))

unfoldable pub check_multipart : Outside → Upload → ℕ → List Part → M (Unit {0})
unfolding in_order complete_parts part_count
check_multipart x u id parts = do
  require (length parts == part_count u.size) (new_error invalid_argument "incorrect part count")
  require (in_order 0 parts) (new_error invalid_argument "invalid part list")
  found ← complete_parts x u id parts
  require (found.length == u.size) size_mismatch

unfoldable pub check_upload : Outside → Upload → List Part → M (Unit {0})
unfolding check_single check_multipart
check_upload x u parts = elim u.multipart_id [
  | none ↦ check_single x u parts
  | some id ↦ check_multipart x u id parts
]

unfoldable pub delete_upload : ℕ → List Upload → List Upload
delete_upload id [] = []
delete_upload id (u ∷ us) =
    if u.session_id == id then delete_upload id us else u ∷ delete_upload id us

abbrev pub add_blob : Upload → World → World
add_blob u w =
    if is_some (get_blob_by_sha256 u.digest w.blobs)
    then w
    else record w { blobs = record { digest = u.digest; object = u.object } ∷ w.blobs }

abbrev pub forget : ℕ → World → World
forget id w = record w { uploads = delete_upload id w.uploads }

-- `InsertBlobIfAbsent` and `DeleteBlobUpload`; the result says whether the blob was there before.
unfoldable pub record_blob : Outside → Upload → M Bool
unfolding delete_upload
record_blob x u = get λ w. do
  attempt x insert_blob internal
  update (add_blob u)
  attempt x delete_row internal
  update (forget u.session_id)
  done (is_some (get_blob_by_sha256 u.digest w.blobs))

-- The part of `CompleteUpload` inside the transaction.
unfoldable pub settle : Outside → ℕ → List Part → M (Upload × Bool)
unfolding check_upload record_blob find_upload
settle x id parts = do
  attempt x lock_upload internal
  u ← get λ w. or_fail (find_upload id w.uploads) missing_session
  check_upload x u parts
  present ← record_blob x u
  done (u, present)

abbrev pub remove_by : Option Error → ℕ → World → World
remove_by none object w = record w { objects = delete object w.objects }
remove_by (some e) object w = w

-- `RemoveObject`, whose error is not looked at, if another upload owns the content.
unfoldable pub drop_duplicate : Outside → Upload × Bool → M Bytes
unfolding uri
drop_duplicate x (u, false) w = (w, ok (uri x.codec u.mime_type u.digest))
drop_duplicate x (u, true) w =
    (remove_by (x.fault remove) u.object w, ok (uri x.codec u.mime_type u.digest))

unfoldable pub complete_upload : Outside → Bytes → List Part → M Bytes
unfolding settle drop_duplicate
complete_upload x id parts = do
  require x.ready unready
  session_id ← or_fail (x.parse_uuid id) (new_error invalid_argument "invalid session ID")
  settled ← in_tx x internal (settle x session_id parts)
  drop_duplicate x settled

-- With the session's row locked, if it is still there.
unfoldable pub abort_locked : Outside → Option Upload → M (Unit {0})
unfolding delete_upload
abort_locked x none = done tt
abort_locked x (some u) = do
  update (drop_part x u.multipart_id)
  attempt x remove unknown
  update (λ w. record w { objects = delete u.object w.objects })
  attempt x delete_row unknown
  update (forget u.session_id)

-- `abortSession`; where the row is gone the code returns without a commit, which has nothing to write.
unfoldable pub abort_session : Outside → ℕ → M (Unit {0})
unfolding abort_locked find_upload
abort_session x id =
    in_tx x unknown
      (attempt x lock_upload unknown >> get (λ w. abort_locked x (find_upload id w.uploads)))

abbrev pub as_unavailable {ℓ} : {A : Type ℓ} → World × Result A → World × Result A
as_unavailable (w, ok a) = (w, ok a)
as_unavailable (w, err e) = (w, err (new_error unavailable e.text))

unfoldable pub abort_upload : Outside → ℕ → Bytes → M (Unit {0})
unfolding abort_session
abort_upload x now id = do
  require x.ready unready
  u ← get_session x now id
  λ w. as_unavailable (abort_session x u.session_id w)

abbrev is_expired : ℕ → Option Upload → Bool
is_expired now none = false
is_expired now (some u) = leb u.expires_at now

-- The query has no order: the database looks at the rows in one that it chooses.
abbrev pub expired : ℕ → (order : List ℕ) → List Upload → List ℕ
expired now [] us = []
expired now (id ∷ order) us =
    if is_expired now (find_upload id us) then id ∷ expired now order us else expired now order us

abbrev pub first : ℕ → List ℕ → List ℕ
first zero ids = []
first (suc n) [] = []
first (suc n) (id ∷ ids) = id ∷ first n ids

-- The loop over the sessions, which goes on after an error.
unfoldable pub abort_all : Outside → List ℕ → World → World
unfolding abort_session
abort_all x [] w = w
abort_all x (id ∷ ids) w = abort_all x ids (abort_session x id w).0

unfoldable pub cleanup_expired_uploads : Outside → (now : ℕ) → (order : List ℕ) → World → World
unfolding abort_all find_upload
cleanup_expired_uploads x now order w = elim (x.fault list_expired) [
  | some e ↦ w
  | none ↦ abort_all x (first 100 (expired now order w.uploads)) w
]
