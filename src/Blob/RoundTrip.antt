-- ===== src/Blob/RoundTrip.antt =====
-- Which URIs of internal/blob/service.go can be read again.
use mathlib.Core.List.{append_assoc}
use lutra.Prelude.{
  true, false, ◌≢◌, [], ◌∷◌, ◌++◌, none, some, ◌==◌, ◌≡◌, refl, sym, ap, ◌∙◌, arith, length,
}
use lutra.Prelude.Bytes.{Bytes, equal_self, has_prefix}
use lutra.Prelude.Results.{ok, ◌>>=◌, ◌>>◌}
use lutra.Blob.Text.{is_blank, cut_comma}
use lutra.Blob.Uri.{Codec, scheme, uri, checked_digest, media_part, parse_parts, parse_uri}

abbrev pub NoComma : Bytes → Type 0
NoComma [] = Unit
NoComma (c ∷ cs) = ((c == 44) ≡ false) × NoComma cs

cut_comma-append :
    (head tail : Bytes) → NoComma head → cut_comma (head ++ 44 ∷ tail) ≡ some (head, tail)
unfolding cut_comma
cut_comma-append [] tail h = refl
cut_comma-append (c ∷ cs) tail (h, r) = rw (h, cut_comma-append cs tail r)

scheme_prefix : (rest : Bytes) → has_prefix (scheme ++ rest) scheme ≡ true
unfolding has_prefix
scheme_prefix rest = refl

checked_digest-encode :
    (x : Codec) (digest : Bytes)
    → length digest ≡ 32
    → x.decode (x.encode digest) ≡ some digest
    → checked_digest x (x.encode digest) ≡ ok digest
unfolding checked_digest
checked_digest-encode x digest size back =
    rw (back, checked_digest) (ground (arith, equal_self (x.encode digest)))

-- The parts of a URI that has been cut at the comma.
parse_uri-parts :
    (x : Codec) (head name : Bytes)
    → NoComma head
    → parse_uri x (scheme ++ head ++ 44 ∷ name) ≡ parse_parts x (head, name)
unfolding parse_uri has_prefix
parse_uri-parts x head name h = rw (cut_comma-append head name h) refl

-- A URI is read as the digest and the MIME type that it was made of, if the MIME type has no comma, is
-- not blank, is one that Go parses and does not end in a resolve parameter, the digest has 32 bytes and
-- base64 decodes what it has encoded.
pub parse_uri-uri :
    (x : Codec) (mime digest : Bytes)
    → NoComma mime
    → is_blank mime ≡ false
    → media_part mime ≡ mime
    → x.media_type mime ≡ true
    → length digest ≡ 32
    → x.decode (x.encode digest) ≡ some digest
    → parse_uri x (uri x mime digest) ≡ ok (digest, mime)
unfolding uri parse_parts
parse_uri-uri x mime digest plain_head visible whole known size back =
    parse_uri-parts x mime (x.encode digest) plain_head
    ∙ rw (visible, checked_digest-encode x digest size back, whole, known, ◌>>=◌, ◌>>◌) refl

parse_parts-comma :
    (x : Codec) (head name : Bytes)
    → x.decode name ≡ none
    → (read : Bytes × Bytes) → parse_parts x (head, name) ≢ ok read
unfolding parse_parts checked_digest
parse_parts-comma x head name bad read e = ground arith

-- A URI whose MIME type has a comma is not read at all, if base64 decodes no text with a comma.
pub parse_uri-comma :
    (x : Codec) (head rest digest : Bytes)
    → NoComma head
    → ((xs ys : Bytes) → x.decode (xs ++ 44 ∷ ys) ≡ none)
    → (read : Bytes × Bytes) → parse_uri x (uri x (head ++ 44 ∷ rest) digest) ≢ ok read
unfolding uri
parse_uri-comma x head rest digest h strict read e =
    parse_parts-comma x head (rest ++ 44 ∷ x.encode digest) (strict rest (x.encode digest)) read (
      sym (parse_uri-parts x head (rest ++ 44 ∷ x.encode digest) h)
      ∙ sym (
          ap (λ (t : Bytes). parse_uri x (scheme ++ t))
            (append_assoc head (44 ∷ rest) (44 ∷ x.encode digest)))
      ∙ e)
