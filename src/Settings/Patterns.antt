-- ===== src/Settings/Patterns.antt =====
-- `slugPattern` and `pathPattern` of internal/settings/service.go.
use lutra.Prelude.{
  ℕ, ◌-◌, Bool, true, false, ◌&&◌, ◌||◌, [], ◌∷◌, Option, none, some, if◌then◌else◌, ◌==◌, leb, ltb,
  length,
}
use lutra.Prelude.Bytes.{Bytes}

-- [a-z]
abbrev pub is_lower : ℕ → Bool
is_lower c = leb 97 c && leb c 122

-- [a-z0-9-]
abbrev pub is_slug : ℕ → Bool
is_slug c = is_lower c || (leb 48 c && leb c 57) || c == 45

-- [a-z0-9_-]
abbrev pub is_word : ℕ → Bool
is_word c = is_slug c || c == 95

unfoldable pub all_slug : Bytes → Bool
all_slug [] = true
all_slug (c ∷ cs) = is_slug c && all_slug cs

-- ^[a-z][a-z0-9-]{0,62}$
unfoldable pub slug_pattern : Bytes → Bool
unfolding all_slug
slug_pattern [] = false
slug_pattern (c ∷ cs) = is_lower c && leb (length cs) 62 && all_slug cs

-- Before a segment, or in one that may have so many more bytes.
unfoldable pub path_from : Option ℕ → Bytes → Bool
path_from none [] = false
path_from (some room) [] = true
path_from none (c ∷ cs) = let rest = path_from (some 63) cs in is_lower c && rest
path_from (some room) (c ∷ cs) =
    let rest = path_from (some (room - 1)) cs in
    let segment = path_from none cs in if c == 47 then segment else is_word c && ltb 0 room && rest

-- ^[a-z][a-z0-9_-]{0,63}(/[a-z][a-z0-9_-]{0,63})*$
unfoldable pub path_pattern : Bytes → Bool
unfolding path_from
path_pattern text = path_from none text
