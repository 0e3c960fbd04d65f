-- ===== src/Blob/Text.antt =====
-- What internal/blob/service.go uses of Go's text functions, on the bytes of a string.
use lutra.Prelude.{
  ℕ, Bool, true, false, ◌&&◌, ◌||◌, [], ◌∷◌, Option, none, some, if◌then◌else◌, ◌==◌, leb,
}
use lutra.Prelude.Bytes.{Bytes, equal}

-- Where the bytes of a rune that is white space stand: at its start, or behind the bytes named.
pub data Blank : Type 0 where
  start after_c2 after_e1 after_e1_9a after_e2 after_e2_80 after_e2_81 after_e3 after_e3_80 : Blank

abbrev ascii_space : ℕ → Bool
ascii_space c = leb 9 c && leb c 13 || c == 32

abbrev to : Bool → Blank → Option Blank
to true next = some next
to false next = none

-- The runes of `unicode.IsSpace`: the ASCII ones, U+0085, U+00A0, U+1680, U+2000 to U+200A, U+2028,
-- U+2029, U+202F, U+205F and U+3000.
abbrev blank_step : Blank → ℕ → Option Blank
blank_step start c =
    if ascii_space c
    then some start
    else if c == 0xc2
    then some after_c2
    else if c == 0xe1
    then some after_e1
    else if c == 0xe2
    then some after_e2
    else to (c == 0xe3) after_e3
blank_step after_c2 c = to (c == 0x85 || c == 0xa0) start
blank_step after_e1 c = to (c == 0x9a) after_e1_9a
blank_step after_e1_9a c = to (c == 0x80) start
blank_step after_e2 c = if c == 0x80 then some after_e2_80 else to (c == 0x81) after_e2_81
blank_step after_e2_80 c =
    to (leb 0x80 c && leb c 0x8a || c == 0xa8 || c == 0xa9 || c == 0xaf) start
blank_step after_e2_81 c = to (c == 0x9f) start
blank_step after_e3 c = to (c == 0x80) after_e3_80
blank_step after_e3_80 c = to (c == 0x80) start

abbrev ends_blank : Blank → Bool
ends_blank start = true
ends_blank _ = false

unfoldable pub blank_from : Blank → Bytes → Bool
blank_from s [] = ends_blank s
blank_from s (c ∷ cs) = elim (blank_step s c) [ none ↦ false | some next ↦ blank_from next cs ]

-- `strings.TrimSpace(text) == ""`
unfoldable pub is_blank : Bytes → Bool
unfolding blank_from
is_blank text = blank_from start text

-- `strings.Cut(text, ",")`: before and after the first comma, if there is one.
unfoldable pub cut_comma : Bytes → Option (Bytes × Bytes)
cut_comma [] = none
cut_comma (c ∷ cs) =
    if c == 44
    then some ([], cs)
    else elim (cut_comma cs) [ none ↦ none | some (head, tail) ↦ some (c ∷ head, tail) ]

-- `strings.TrimSuffix`
unfoldable pub trim_suffix : Bytes → Bytes → Bytes
unfolding equal
trim_suffix suffix [] = []
trim_suffix suffix (c ∷ cs) = if equal (c ∷ cs) suffix then [] else c ∷ trim_suffix suffix cs
