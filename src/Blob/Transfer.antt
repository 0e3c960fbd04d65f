-- ===== src/Blob/Transfer.antt =====
-- `Put` and `GetDownload` of internal/blob/service.go.
use lutra.Prelude.{ℕ, ◌+◌, ◌∷◌, Option, none, some, if◌then◌else◌, length, is_some}
use lutra.Prelude.Bytes.{Bytes}
use lutra.Prelude.Map.{insert, delete}
use lutra.Prelude.Results.{
  Error, Result, ok, err, new_error, unknown, invalid_argument, unavailable, internal, not_found,
}
use lutra.Log.Tables.{get_blob_by_sha256}
use lutra.Blob.Uri.{uri, parse_uri}
use lutra.Blob.Types.{
  World, Object, Outside, M, ◌>>=◌, ◌>>◌, done, fail, require, attempt, get, update, get_blob,
  insert_blob, put, presign, remove,
}
use lutra.Blob.Create.{unready, or_fail}
use lutra.Blob.Complete.{stat_object}

abbrev pub put_object : Bytes → Object → World → World
put_object digest made w = record w { objects = insert w.fresh made w.objects; fresh = w.fresh + 1 }

abbrev pub own_blob : Bytes → ℕ → World → World
own_blob digest object w = record w {
  blobs = record { digest = digest; object = object } ∷ w.blobs;
}

abbrev pub drop_by : Option Error → ℕ → World → World
drop_by none object w = record w { objects = delete object w.objects }
drop_by (some e) object w = w

-- `InsertBlobIfAbsent`, and `RemoveObject` where another upload owns the content by now.
abbrev pub own_or_drop : Outside → Bytes → ℕ → World → World
own_or_drop x digest object w =
    if is_some (get_blob_by_sha256 digest w.blobs)
    then drop_by (x.fault remove) object w
    else own_blob digest object w

-- The part of `Put` behind the query that has not found the digest. Others may act in between.
unfoldable pub put_unknown : Outside → Bytes → Bytes → M Bytes
unfolding uri
put_unknown x mime text = get λ w. do
  attempt x put unknown
  update (
      put_object (x.sha256 text)
        (record { length = length text; checksum = x.codec.encode (x.sha256 text) }))
  attempt x insert_blob unknown
  update (own_or_drop x (x.sha256 text) w.fresh)
  done (uri x.codec mime (x.sha256 text))

unfoldable pub put_blob : Outside → Bytes → Bytes → M Bytes
unfolding put_unknown uri
put_blob x mime text = do
  attempt x get_blob unknown
  get λ w. elim (get_blob_by_sha256 (x.sha256 text) w.blobs) [
    | some row ↦ done (uri x.codec mime (x.sha256 text))
    | none ↦ put_unknown x mime text
  ]

abbrev not_there : Error
not_there = new_error not_found "blob not found"

abbrev parsed : Result (Bytes × Bytes) → M Bytes
parsed (ok (digest, mime)) = done digest
parsed (err e) = fail (new_error invalid_argument e.text)

-- `GetDownload`, up to the signature of the object's address.
unfoldable pub get_download : Outside → Bytes → M ℕ
unfolding stat_object
get_download x text = do
  require x.ready unready
  digest ← parsed (parse_uri x.codec text)
  attempt x get_blob internal
  row ← get λ w. or_fail (get_blob_by_sha256 digest w.blobs) not_there
  found ← stat_object x row.object not_there
  attempt x presign unavailable
  done row.object
