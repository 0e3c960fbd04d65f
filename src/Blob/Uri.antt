-- ===== src/Blob/Uri.antt =====
-- `URI` and `ParseURI` of internal/blob/service.go.
use lutra.Prelude.{Bool, not, ◌&&◌, String, [], ◌∷◌, ◌++◌, Option, none, some, ◌==◌, length}
use lutra.Prelude.Bytes.{Bytes, equal, has_prefix}
use lutra.Prelude.Results.{Error, Result, ok, err, ◌>>=◌, ◌>>◌, guard, new_error, unknown}
use lutra.Blob.Text.{is_blank, cut_comma, trim_suffix}

-- `base64.StdEncoding`, and whether `mime.ParseMediaType` takes a text.
pub record Codec : Type 0 where
  pub encode : Bytes → Bytes
  pub decode : Bytes → Option Bytes
  pub media_type : Bytes → Bool

-- "blob:"
abbrev pub scheme : Bytes
scheme = 98 ∷ 108 ∷ 111 ∷ 98 ∷ 58 ∷ []

-- ";resolve"
abbrev pub resolve : Bytes
resolve = 59 ∷ 114 ∷ 101 ∷ 115 ∷ 111 ∷ 108 ∷ 118 ∷ 101 ∷ []

-- ";resolve=true"
abbrev pub resolve_true : Bytes
resolve_true = resolve ++ 61 ∷ 116 ∷ 114 ∷ 117 ∷ 101 ∷ []

unfoldable pub uri : Codec → Bytes → Bytes → Bytes
uri x mime digest = scheme ++ mime ++ 44 ∷ x.encode digest

abbrev pub plain : String → Error
plain text = new_error unknown text

-- `uri[5:]`
abbrev pub without_scheme : Bytes → Bytes
without_scheme (_ ∷ _ ∷ _ ∷ _ ∷ _ ∷ rest) = rest
without_scheme _ = []

unfoldable pub checked_digest : Codec → Bytes → Result Bytes
unfolding equal
checked_digest x name = elim (x.decode name) [
  | none ↦ err (plain "invalid blob URI digest")
  | some digest ↦ do
    guard (length digest == 32 && equal (x.encode digest) name) (plain "invalid blob URI digest")
    ok digest
]

-- `TrimSuffix(TrimSuffix(head, ";resolve"), ";resolve=true")`
unfoldable pub media_part : Bytes → Bytes
unfolding trim_suffix
media_part head = trim_suffix resolve_true (trim_suffix resolve head)

-- Behind the cut at the comma.
unfoldable pub parse_parts : Codec → Bytes × Bytes → Result (Bytes × Bytes)
unfolding checked_digest media_part is_blank
parse_parts x (head, name) = do
  guard (not (is_blank head)) (plain "invalid blob URI")
  digest ← checked_digest x name
  guard (x.media_type (media_part head)) (plain "invalid blob URI MIME type")
  ok (digest, media_part head)

unfoldable pub parse_uri : Codec → Bytes → Result (Bytes × Bytes)
unfolding parse_parts cut_comma has_prefix
parse_uri x text = do
  guard (has_prefix text scheme) (plain "blob URI must start with blob")
  elim (cut_comma (without_scheme text)) [
    | none ↦ err (plain "invalid blob URI")
    | some parts ↦ parse_parts x parts
  ]
