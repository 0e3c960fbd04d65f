-- ===== src/Blob/Examples.antt =====
-- The theorems on blobs at concrete inputs: one upload in a single PUT, one `Put`.
use lutra.Prelude.{
  ℕ, Bool, true, false, not, [], ◌∷◌, ◌++◌, none, some, if◌then◌else◌, ◌==◌, ◌≡◌, ◌≢◌, refl, ap,
  arith, length,
}
use lutra.Prelude.Bytes.{Bytes, equal}
use lutra.Prelude.Results.{ok}
use lutra.Log.Tables.{get_blob_by_sha256}
use lutra.Blob.Uri.{Codec, uri, parse_uri, media_part}
use lutra.Blob.RoundTrip.{parse_uri-uri, parse_uri-comma}
use lutra.Blob.Text.{is_blank}
use lutra.Blob.Types.{
  Upload, World, Outside, ◌>>=◌, ◌>>◌, done, fail, require, attempt, get, update, in_tx,
}
use lutra.Blob.Create.{
  CreateRequest, create_upload, or_fail, find_upload, session, check_request, new_session,
  upload_metadata, valid_entries, start_multipart,
}
use lutra.Blob.Complete.{
  complete_upload, settle, check_upload, check_single, stat_object, record_blob, delete_upload,
  drop_duplicate,
}
use lutra.Blob.Transfer.{put_unknown, put_blob}
use lutra.Blob.Lasting.{
  creates, writes, completes, Later-Backed, nothing-Backed, here, after, nothing, write_object,
  Served, put_blob-Served, complete_upload-Served,
}
use lutra.Prelude.Map.{lookup, insert}
use lutra.Blob.Backed.Invariant.{Backed, AllUploads-find}
use lutra.Blob.Bounds.{Sized, create_upload-Sized}

-- Texts without a comma are encoded as they are.
abbrev has_comma : Bytes → Bool
has_comma [] = false
has_comma (c ∷ cs) = if c == 44 then true else has_comma cs

abbrev verbatim : Codec
verbatim = record {
  encode = λ digest. digest;
  decode = λ name. if has_comma name then none else some name;
  media_type = λ name. not (length name == 0);
}

has_comma-append : (xs ys : Bytes) → has_comma (xs ++ 44 ∷ ys) ≡ true
has_comma-append [] ys = refl
has_comma-append (x ∷ xs) ys = ground (arith, has_comma-append xs ys)

abbrev eight : ℕ → Bytes
eight n = n ∷ n ∷ n ∷ n ∷ n ∷ n ∷ n ∷ n ∷ []

abbrev digest : Bytes
digest = eight 1 ++ eight 2 ++ eight 3 ++ eight 4

-- "a/b"
abbrev mime : Bytes
mime = 97 ∷ 47 ∷ 98 ∷ []

abbrev outside : Outside
outside = record {
  codec = verbatim;
  sha256 = λ text. digest;
  parse_uuid = λ id. some (length id);
  lower = λ key. true;
  json_size = λ entries. some 2;
  assemble = λ id parts. (none, none);
  fault = λ call. none;
  ready = true;
}

parse_uri-uri_example : parse_uri verbatim (uri verbatim mime digest) ≡ ok (digest, mime)
unfolding is_blank media_part
parse_uri-uri_example =
    parse_uri-uri verbatim mime digest (refl, (refl, (refl, tt))) refl refl refl refl refl

-- The MIME type a/b,c
parse_uri-comma_example :
    parse_uri verbatim (uri verbatim (mime ++ 44 ∷ 99 ∷ []) digest) ≢ ok (digest, mime)
parse_uri-comma_example =
    parse_uri-comma verbatim mime (99 ∷ []) digest (refl, (refl, (refl, tt)))
      (λ xs ys. ap (λ b. if b then none else some (xs ++ 44 ∷ ys)) (has_comma-append xs ys))
      (digest, mime)

abbrev put_link : Bytes
put_link = uri verbatim mime digest

-- `Put` in the empty state, and a cleanup behind it.
abbrev after_put : World
after_put = (put_blob outside mime (9 ∷ []) nothing).0

put_run : put_blob outside mime (9 ∷ []) nothing ≡ (after_put, ok put_link)
unfolding put_blob put_unknown ◌>>=◌ ◌>>◌ require attempt get update done fail get_blob_by_sha256
put_run = refl

put_blob-Served_example : Served outside put_link digest after_put
put_blob-Served_example =
    put_blob-Served outside outside mime (9 ∷ []) put_link nothing after_put after_put here put_run
      here parse_uri-uri_example refl (λ c. refl)

abbrev request : CreateRequest
request = record { content_sha256 = digest; request_size = 3; mime = mime; entries = [] }

abbrev created : World
created = (create_upload outside 5 request nothing).0

create_run : create_upload outside 5 request nothing ≡ (created, ok (session 0 1))
unfolding create_upload check_request new_session upload_metadata valid_entries start_multipart
    is_blank ◌>>=◌ ◌>>◌ require attempt get update done fail get_blob_by_sha256
create_run = refl

create_upload-Sized_example : Sized 3 1
create_upload-Sized_example =
    create_upload-Sized outside 5 request nothing created 0 1 (omega arith) create_run

-- The client has put the object.
abbrev written : World
written = write_object 1 (record { length = 3; checksum = digest }) created

abbrev completed : World
completed = (complete_upload outside [] [] written).0

complete_run : complete_upload outside [] [] written ≡ (completed, ok put_link)
unfolding create_upload check_request new_session upload_metadata valid_entries start_multipart
    is_blank complete_upload settle check_upload check_single stat_object record_blob delete_upload
    drop_duplicate or_fail find_upload in_tx uri equal ◌>>=◌ ◌>>◌ require attempt get update done
    fail get_blob_by_sha256 lookup insert
complete_run = refl

only_session :
    (s : Upload)
    → find_upload s.session_id written.uploads ≡ some s
    → parse_uri verbatim (uri verbatim s.mime_type s.digest) ≡ ok (s.digest, s.mime_type)
unfolding create_upload check_request new_session upload_metadata valid_entries start_multipart
    is_blank find_upload ◌>>=◌ ◌>>◌ require attempt get update done fail get_blob_by_sha256
only_session s e =
    AllUploads-find
      (λ u. parse_uri verbatim (uri verbatim u.mime_type u.digest) ≡ ok (u.digest, u.mime_type))
      s.session_id written.uploads s e (parse_uri-uri_example, tt)

complete_upload-Served_example :
    (s : Upload) × (find_upload s.session_id written.uploads ≡ some s)
    × ((put_link ≡ uri verbatim s.mime_type s.digest) × Served outside put_link s.digest completed)
complete_upload-Served_example =
    complete_upload-Served outside outside [] put_link [] written completed completed
      (after (after here (creates outside 5 request))
        (writes 1 (record { length = 3; checksum = digest })))
      complete_run here only_session refl (λ c. refl)

Later-Backed_example : Backed [] completed
Later-Backed_example =
    Later-Backed nothing completed
      (after
        (after (after here (creates outside 5 request))
          (writes 1 (record { length = 3; checksum = digest })))
        (completes outside [] []))
      nothing-Backed
