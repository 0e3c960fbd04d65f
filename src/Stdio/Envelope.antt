-- ===== src/Stdio/Envelope.antt =====
-- `envelope` of internal/taskstdio/transport.go and the prefixes that `sendRequest` reads.
use lutra.Prelude.{
  ℕ, zero, suc, ◌+◌, ◌*◌, ◌/◌, ◌%◌, ◌^◌, ◌<◌, ◌≤◌, [], ◌∷◌, ◌++◌, Option, none, some, ◌≡◌, refl,
  sym, ap, ◌∙◌, length, arith, Option-cases, inl, inr,
}
use lutra.Prelude.Bytes.{Bytes}

-- 32 << 20
abbrev pub max_line : ℕ
max_line = 33554432

-- `binary.BigEndian.PutUint32`
abbrev pub put_uint32 : ℕ → Bytes → Bytes
put_uint32 n rest = n / 16777216 % 256 ∷ n / 65536 % 256 ∷ n / 256 % 256 ∷ n % 256 ∷ rest

-- `binary.BigEndian.Uint32`
abbrev pub uint32 : (a b c d : ℕ) → ℕ
uint32 a b c d = a * 16777216 + b * 65536 + c * 256 + d

unfoldable pub envelope : ℕ → Bytes → Bytes
envelope flags payload = flags ∷ put_uint32 (length payload % 2 ^ 32) payload

-- `io.ReadFull` of the five bytes of a prefix, in front of the rest.
pub data Prefix : Type 0 where
  at_end : Prefix
  cut_off : Prefix
  prefix : (flags size : ℕ) (rest : Bytes) → Prefix

unfoldable pub read_prefix : Bytes → Prefix
read_prefix [] = at_end
read_prefix (flags ∷ a ∷ b ∷ c ∷ d ∷ rest) = prefix flags (uint32 a b c d) rest
read_prefix _ = cut_off

abbrev add_byte : ℕ → Option (Bytes × Bytes) → Option (Bytes × Bytes)
add_byte c none = none
add_byte c (some (body, rest)) = some (c ∷ body, rest)

-- `io.ReadFull` of a body of the size.
unfoldable pub read_full : ℕ → Bytes → Option (Bytes × Bytes)
read_full zero text = some ([], text)
read_full (suc n) [] = none
read_full (suc n) (c ∷ cs) = add_byte c (read_full n cs)

uint32-put :
    (n : ℕ)
    → n < 2 ^ 32
    → uint32
        (n % 2 ^ 32 / 16777216 % 256)
        (n % 2 ^ 32 / 65536 % 256)
        (n % 2 ^ 32 / 256 % 256)
        (n % 2 ^ 32 % 256)
      ≡ n
uint32-put n small = omega arith

pub read_prefix-envelope :
    (flags : ℕ) (payload rest : Bytes)
    → length payload < 2 ^ 32
    → read_prefix (envelope flags payload ++ rest) ≡ prefix flags (length payload) (payload ++ rest)
unfolding read_prefix envelope
read_prefix-envelope flags payload rest small =
    ap (λ n. prefix flags n (payload ++ rest)) (uint32-put (length payload) small)

pub read_full-append :
    (body rest : Bytes) → read_full (length body) (body ++ rest) ≡ some (body, rest)
unfolding read_full
read_full-append [] rest = refl
read_full-append (c ∷ cs) rest = rw (read_full-append cs rest) refl

-- What is left behind a body is shorter than the text.
pub read_full-length :
    (size : ℕ) (text body rest : Bytes)
    → read_full size text ≡ some (body, rest)
    → length rest ≤ length text
unfolding read_full
read_full-length zero text body rest e = ground arith
read_full-length (suc n) [] body rest e = absurd (ground arith)
read_full-length (suc n) (c ∷ cs) body rest e = elim (Option-cases (read_full n cs)) [
  | inl q ↦ absurd (ground arith)
  | inr ((body', rest'), q) ↦
      let shorter = read_full-length n cs body' rest' q in
      let same = ap (add_byte c) (sym q) ∙ e in ground arith
]

-- And what is left behind a prefix.
pub read_prefix-length :
    (text : Bytes) (flags size : ℕ) (rest : Bytes)
    → read_prefix text ≡ prefix flags size rest
    → length rest < length text
unfolding read_prefix
read_prefix-length [] flags size rest e = absurd (ground arith)
read_prefix-length (f ∷ []) flags size rest e = absurd (ground arith)
read_prefix-length (f ∷ a ∷ []) flags size rest e = absurd (ground arith)
read_prefix-length (f ∷ a ∷ b ∷ []) flags size rest e = absurd (ground arith)
read_prefix-length (f ∷ a ∷ b ∷ c ∷ []) flags size rest e = absurd (ground arith)
read_prefix-length (f ∷ a ∷ b ∷ c ∷ d ∷ text) flags size rest e = ground arith
