-- ===== src/Settings/Segments.antt =====
-- The paths that `pathPattern` of internal/settings/service.go takes.
use lutra.Prelude.{
  ℕ, ◌-◌, Bool, true, false, ◌&&◌, List, [], ◌∷◌, Option, none, some, if◌then◌else◌, ◌==◌, leb, ltb,
  length, ◌≡◌, refl, ap, ◌∙◌, arith, Bool-cases, inl, inr,
}
use lutra.Prelude.Bytes.{Bytes}
use lutra.Settings.Patterns.{is_lower, is_word, path_from, path_pattern}

-- The first part of a text cut at every slash, and the others.
unfoldable pub split : Bytes → Bytes × List Bytes
split [] = ([], [])
split (c ∷ cs) =
    let (first, others) = split cs in if c == 47 then ([], first ∷ others) else (c ∷ first, others)

unfoldable pub all_word : Bytes → Bool
all_word [] = true
all_word (c ∷ cs) = is_word c && all_word cs

-- A lower-case letter and at most 63 other bytes.
abbrev pub is_segment : Bytes → Bool
is_segment [] = false
is_segment (c ∷ cs) = is_lower c && leb (length cs) 63 && all_word cs

unfoldable pub all_segments : List Bytes → Bool
all_segments [] = true
all_segments (s ∷ ss) = is_segment s && all_segments ss

-- What is asked of a text cut at its slashes, by whether a segment has begun.
abbrev expected : Option ℕ → Bytes × List Bytes → Bool
expected none (first, others) = is_segment first && all_segments others
expected (some room) (first, others) =
    leb (length first) room && all_word first && all_segments others

-- One byte more in front.
abbrev in_front : ℕ → Bytes × List Bytes → Bytes × List Bytes
in_front c (first, others) = if c == 47 then ([], first ∷ others) else (c ∷ first, others)

front-none :
    (c : ℕ) (parts : Bytes × List Bytes)
    → (is_lower c && expected (some 63) parts) ≡ expected none (in_front c parts)
unfolding all_word all_segments
front-none c (first, others) = elim (Bool-cases (c == 47)) [
  | inl slash ↦ ground arith
  | inr letter ↦ ground arith
]

front-some :
    (c room : ℕ) (parts : Bytes × List Bytes)
    → (if c == 47
        then expected none parts
        else is_word c && ltb 0 room && expected (some (room - 1)) parts)
      ≡ expected (some room) (in_front c parts)
unfolding all_word all_segments
front-some c room (first, others) = elim (Bool-cases (c == 47)) [
  | inl slash ↦ ground arith
  | inr letter ↦ ground arith
]

path_from-split : (o : Option ℕ) (cs : Bytes) → path_from o cs ≡ expected o (split cs)
unfolding path_from split all_word all_segments
path_from-split none [] = refl
path_from-split (some room) [] = ground arith
path_from-split none (c ∷ cs) =
    ap (λ b. is_lower c && b) (path_from-split (some 63) cs) ∙ front-none c (split cs)
path_from-split (some room) (c ∷ cs) =
    ap (λ b. if c == 47 then path_from none cs else is_word c && ltb 0 room && b)
      (path_from-split (some (room - 1)) cs)
    ∙ ap
        (λ b.
          if c == 47 then b else is_word c && ltb 0 room && expected (some (room - 1)) (split cs))
        (path_from-split none cs)
    ∙ front-some c room (split cs)

-- A text is a path for the pattern exactly if every part between its slashes is a segment: a lower-case
-- letter and at most 63 letters, digits, underscores and dashes.
pub path_pattern-segments :
    (text : Bytes) → path_pattern text ≡ all_segments ((split text).0 ∷ (split text).1)
unfolding path_pattern all_segments
path_pattern-segments text = path_from-split none text
