-- ===== src/Blob/Create.antt =====
-- `CreateUpload`, `session` and `PresignPart` of internal/blob/service.go.
use lutra.Prelude.{
  ℕ, ◌+◌, Bool, true, false, not, ◌&&◌, List, [], ◌∷◌, Option, none, some, if◌then◌else◌, ◌==◌, leb,
  ltb, length,
}
use lutra.Prelude.Bytes.{Bytes, is_empty}
use lutra.Prelude.Int64.{less64}
use lutra.Prelude.Int32.{less}
use lutra.Prelude.Results.{
  Error, ok, err, new_error, invalid_argument, unavailable, internal, not_found,
}
use lutra.Log.Tables.{get_blob_by_sha256}
use lutra.Blob.Text.{is_blank}
use lutra.Blob.Types.{
  part_size, part_count, Upload, World, Outside, M, ◌>>=◌, ◌>>◌, done, fail, require, attempt, get,
  update, get_blob, new_v7, new_random, create_row, get_upload, new_multipart, abort_multipart,
  presign,
}

abbrev all_ascii : Bytes → Bool
all_ascii [] = true
all_ascii (c ∷ cs) = ltb c 128 && all_ascii cs

abbrev no_upper : Bytes → Bool
no_upper [] = true
no_upper (c ∷ cs) = not (leb 65 c && leb c 90) && no_upper cs

-- `strings.ToLower(key) == key`
abbrev is_lower : Outside → Bytes → Bool
is_lower x key = if all_ascii key then no_upper key else x.lower key

unfoldable pub valid_entries : Outside → List (Bytes × Bytes) → Bool
valid_entries x [] = true
valid_entries x ((key, value) ∷ entries) =
    not (is_empty key)
    && leb (length key) 64
    && leb (length value) 1024
    && is_lower x key
    && valid_entries x entries

abbrev small_json : Option ℕ → Bool
small_json none = false
small_json (some n) = leb n 16384

abbrev invalid : Error
invalid = new_error invalid_argument "invalid blob metadata"

-- `uploadMetadata`, of a map with different keys. It copies the map.
unfoldable pub upload_metadata : Outside → List (Bytes × Bytes) → M (Unit {0})
unfolding valid_entries
upload_metadata x values = do
  require (leb (length values) 32) (new_error invalid_argument "too many blob metadata entries")
  require (valid_entries x values) invalid
  require (small_json (x.json_size values)) invalid

pub record CreateRequest : Type 0 where
  pub content_sha256 : Bytes
  pub request_size : ℕ  -- int64
  pub mime : Bytes
  pub entries : List (Bytes × Bytes)

pub data Created : Type 0 where
  already_exists : Created
  session : (id parts : ℕ) → Created

abbrev pub unready : Error
unready = new_error unavailable "blob store unavailable"

unfoldable pub check_request : Outside → CreateRequest → M (Unit {0})
unfolding upload_metadata
check_request x m = do
  require
      (length m.content_sha256 == 32
        && not (less64 m.request_size 0)
        && not (less64 83886080000 m.request_size)
        && not (is_blank m.mime)
        && leb (length m.mime) 255)
      (new_error invalid_argument "invalid upload metadata")
  require (x.codec.media_type m.mime) (new_error invalid_argument "invalid MIME type")
  upload_metadata x m.entries

abbrev pub without : ℕ → List ℕ → List ℕ
without id [] = []
without id (n ∷ ns) = if n == id then without id ns else n ∷ without id ns

abbrev pub close_part : Option Error → ℕ → World → World
close_part none id w = record w { open_parts = without id w.open_parts }
close_part (some e) id w = w

-- `AbortMultipartUpload`, whose error is not looked at, for a session that has one.
abbrev pub drop_part : Outside → Option ℕ → World → World
drop_part x none w = w
drop_part x (some id) w = close_part (x.fault abort_multipart) id w

-- `queries.CreateBlobUpload`.
abbrev pub insert_upload : Outside → Option Error → Upload → M (Unit {0})
insert_upload x none u w = (record w { uploads = u ∷ w.uploads }, ok tt)
insert_upload x (some e) u w = (drop_part x u.multipart_id w, err (new_error internal e.text))

abbrev pub open_multipart : World → World
open_multipart w = record w { open_parts = w.fresh ∷ w.open_parts; fresh = w.fresh + 1 }

-- The multipart upload of a large blob, whose identifier is not used yet.
unfoldable pub start_multipart : Outside → ℕ → M (Option ℕ)
start_multipart x size =
    if less64 part_size size
    then (attempt x new_multipart unavailable
        >> get (λ w. update open_multipart >> done (some w.fresh)))
    else done none

abbrev pub take_ids : World → World
take_ids w = record w { fresh = w.fresh + 2 }

abbrev lifetime : ℕ
lifetime = 86_400_000_000_000

abbrev pub upload_of : CreateRequest → (now id : ℕ) → Option ℕ → Upload
upload_of m now id multipart = record {
  session_id = id;
  digest = m.content_sha256;
  object = id + 1;
  size = m.request_size;
  mime_type = m.mime;
  metadata = m.entries;
  multipart_id = multipart;
  expires_at = now + lifetime;
}

abbrev pub parts_of : Option ℕ → ℕ → ℕ
parts_of none size = 1
parts_of (some _) size = part_count size

-- With the digest not known yet.
unfoldable pub new_session : Outside → ℕ → CreateRequest → M Created
unfolding start_multipart part_count
new_session x now m = get λ w. do
  attempt x new_v7 internal
  attempt x new_random internal
  update take_ids
  multipart ← start_multipart x m.request_size
  insert_upload x (x.fault create_row) (upload_of m now w.fresh multipart)
  done (session w.fresh (parts_of multipart m.request_size))

unfoldable pub create_upload : Outside → ℕ → CreateRequest → M Created
unfolding check_request new_session
create_upload x now m = do
  require x.ready unready
  check_request x m
  attempt x get_blob internal
  get λ w. elim (get_blob_by_sha256 m.content_sha256 w.blobs) [
    | some row ↦ done already_exists
    | none ↦ new_session x now m
  ]

unfoldable pub find_upload : ℕ → List Upload → Option Upload
find_upload id [] = none
find_upload id (u ∷ us) = if u.session_id == id then some u else find_upload id us

abbrev pub live : ℕ → Option Upload → Option Upload
live now none = none
live now (some u) = if ltb now u.expires_at then some u else none

abbrev pub missing_session : Error
missing_session = new_error not_found "upload session not found"

unfoldable pub or_fail {ℓ} : {A : Type ℓ} → Option A → Error → M A
or_fail none e = fail e
or_fail (some a) e = done a

-- `session`
unfoldable pub get_session : Outside → ℕ → Bytes → M Upload
unfolding find_upload
get_session x now id = do
  session_id ← or_fail (x.parse_uuid id) (new_error invalid_argument "invalid session ID")
  attempt x get_upload internal
  get λ w. or_fail (live now (find_upload session_id w.uploads)) missing_session

-- `PresignPart`, up to the signature: the object and, for a part, the multipart upload.
unfoldable pub presign_part : Outside → ℕ → Bytes → (number : ℕ) → M (ℕ × Option ℕ)
unfolding get_session part_count
presign_part x now id number = do
  require x.ready unready
  u ← get_session x now id
  require (not (less number 1) && not (less (parts_of u.multipart_id u.size) number))
      (new_error invalid_argument "invalid part number")
  attempt x presign unavailable
  done (u.object, u.multipart_id)
