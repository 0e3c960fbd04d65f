-- ===== src/Blob/Types.antt =====
-- The state behind internal/blob/service.go: the tables of db/queries/blobs.sql and the bucket.
use lutra.Prelude.{ℕ, ◌-◌, ◌/◌, ◌%◌, ◌^◌, Bool, true, false, List, Option, none, some}
use lutra.Prelude.Bytes.{Bytes}
use lutra.Prelude.Map.{Map}
use lutra.Prelude.Results.{Error, Result, ok, err, Code, new_error}
use lutra.Prelude.Int64.{add64}
use lutra.Log.Types.{BlobRow}
use lutra.Blob.Uri.{Codec}

-- 8 << 20
abbrev pub part_size : ℕ
part_size = 8388608

-- On an int64 that is not negative, as the sessions' sizes are.
unfoldable pub part_count : ℕ → ℕ
part_count size = (add64 size (part_size - 1) / part_size) % 2 ^ 32

-- A row of blob_uploads. Its object's name is `ObjectKey` of the number.
pub record Upload : Type 0 where
  pub session_id : ℕ
  pub digest : Bytes
  pub object : ℕ
  pub size : ℕ
  pub mime_type : Bytes
  pub metadata : List (Bytes × Bytes)
  pub multipart_id : Option ℕ
  pub expires_at : ℕ

-- What `StatObject` tells of an object.
pub record Object : Type 0 where
  pub length : ℕ
  pub checksum : Bytes

pub record Part : Type 0 where
  pub number : ℕ
  pub etag : Bytes

-- The tables, the bucket's objects, its multipart uploads that were started and not aborted, and the
-- next identifier that is not used yet.
pub record World : Type 0 where
  pub blobs : List BlobRow
  pub uploads : List Upload
  pub objects : Map Object
  pub open_parts : List ℕ
  pub fresh : ℕ

-- The calls that may fail.
pub data Call : Type 0 where
  get_blob get_upload lock_upload list_expired new_v7 new_random create_row insert_blob : Call
  delete_row begin_tx commit_tx stat remove new_multipart abort_multipart put presign : Call

-- What the code takes from elsewhere. `lower` is `strings.ToLower(key) == key`, `json_size` the
-- length of the JSON text if there is one. `assemble` is what completing a multipart upload leaves in
-- the bucket, if anything, and whether the call fails: a call that fails may still leave an object.
pub record Outside : Type 0 where
  pub codec : Codec
  pub sha256 : Bytes → Bytes
  pub parse_uuid : Bytes → Option ℕ
  pub lower : Bytes → Bool
  pub json_size : List (Bytes × Bytes) → Option ℕ
  pub assemble : ℕ → List Part → Option Object × Option Error
  pub fault : Call → Option Error
  pub ready : Bool

-- A call changes the world also when it returns an error.
abbrev pub M {ℓ} : Type ℓ → Type ℓ
M A = World → World × Result A

abbrev pub resume {ℓ κ} :
    {A : Type ℓ} {B : Type κ} → (A → M B) → World × Result A → World × Result B
resume next (w, ok a) = next a w
resume next (w, err e) = (w, err e)

infixl 5 ◌>>=◌ ◌>>◌
unfoldable pub ◌>>=◌ {ℓ κ} : {A : Type ℓ} {B : Type κ} → M A → (A → M B) → M B
◌>>=◌ act next w = resume next (act w)

unfoldable pub ◌>>◌ {κ} : {B : Type κ} → M (Unit {0}) → M B → M B
act >> next = act >>= λ _. next

unfoldable pub done {ℓ} : {A : Type ℓ} → A → M A
done a w = (w, ok a)

unfoldable pub fail {ℓ} : {A : Type ℓ} → Error → M A
fail e w = (w, err e)

unfoldable pub require : Bool → Error → M (Unit {0})
require true e = done tt
require false e = fail e

abbrev pub ignore_ok : Option Error → M (Unit {0})
ignore_ok none = done tt
ignore_ok (some e) = fail e

-- A call that returns an error under the code.
abbrev pub recode : Code → Option Error → Option Error
recode c none = none
recode c (some e) = some (new_error c e.text)

unfoldable pub attempt : Outside → Call → Code → M (Unit {0})
attempt x call c = ignore_ok (recode c (x.fault call))

unfoldable pub get {ℓ} : {A : Type ℓ} → (World → M A) → M A
get act w = act w w

unfoldable pub update : (World → World) → M (Unit {0})
update f w = (f w, ok tt)

-- The tables as they were; what has happened in the bucket stays.
abbrev pub roll_back : World → World → World
roll_back before w = record w { blobs = before.blobs; uploads = before.uploads }

abbrev pub close_tx {ℓ} : {A : Type ℓ} → Option Error → World → World × Result A → World × Result A
close_tx none before (w, ok a) = (w, ok a)
close_tx (some e) before (w, ok a) = (roll_back before w, err e)
close_tx fault before (w, err e) = (roll_back before w, err e)

-- `DB.Begin`, the body, `tx.Commit`, and `tx.Rollback` on every other way out.
unfoldable pub in_tx {ℓ} : {A : Type ℓ} → Outside → Code → M A → M A
in_tx x c body = attempt x begin_tx c >> λ w. close_tx (recode c (x.fault commit_tx)) w (body w)
