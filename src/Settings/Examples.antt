-- ===== src/Settings/Examples.antt =====
-- The theorems on settings at concrete inputs.
use lutra.Prelude.{true, [], ◌∷◌, none, some, ◌≡◌, refl, length}
use lutra.Prelude.Bytes.{Bytes}
use lutra.Settings.Patterns.{path_pattern}
use lutra.Settings.Segments.{split, all_segments, path_pattern-segments}
use lutra.Settings.Service.{Tables, Outside, upsert_setting, delete_setting}
use lutra.Settings.Keys.{UniqueKeys}
use lutra.Settings.Stored.{Listed, Unlisted, upsert_setting-Listed, delete_setting-Unlisted}

-- "a/b", and "a//b"
abbrev path : Bytes
path = 97 ∷ 47 ∷ 98 ∷ []

path_pattern-segments_example :
    path_pattern (97 ∷ 47 ∷ 47 ∷ 98 ∷ []) ≡ all_segments ((97 ∷ []) ∷ [] ∷ (98 ∷ []) ∷ [])
unfolding split
path_pattern-segments_example = path_pattern-segments (97 ∷ 47 ∷ 47 ∷ 98 ∷ [])

abbrev outside : Outside
outside = record {
  parse_uuid = λ text. some (length text);
  trim_space = length;
  characters = length;
  cbor_valid = λ text. true;
  before = λ p q. true;
  fault = λ call. none;
}

abbrev tables : Tables
tables = record {
  namespaces = record { id = 1; slug = 100 ∷ []; name = 68 ∷ [] } ∷ [];
  settings =
      record { namespace = 1; path = path; value = 1 ∷ [] }
      ∷ record { namespace = 2; path = path; value = 2 ∷ [] }
      ∷ [];
}

tables-UniqueKeys : UniqueKeys tables.settings
tables-UniqueKeys = ((refl, tt), (tt, tt))

upsert_setting-Listed_example :
    Listed outside
      (0 ∷ [])
      path
      (246 ∷ [])
      tables
      (upsert_setting outside (0 ∷ []) path (246 ∷ []) tables)
upsert_setting-Listed_example =
    upsert_setting-Listed outside (0 ∷ []) path (246 ∷ []) tables tables-UniqueKeys refl

delete_setting-Unlisted_example :
    Unlisted outside (0 ∷ []) path tables (delete_setting outside (0 ∷ []) path tables)
delete_setting-Unlisted_example = delete_setting-Unlisted outside (0 ∷ []) path tables refl
