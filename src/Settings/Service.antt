-- ===== src/Settings/Service.antt =====
-- The operations of internal/settings/service.go on the tables of db/queries/settings.sql.
use lutra.Prelude.{
  ℕ, Bool, true, false, not, ◌&&◌, ◌||◌, List, [], ◌∷◌, Option, none, some, if◌then◌else◌, ◌==◌,
  leb, ltb, length, String,
}
use lutra.Prelude.Bytes.{Bytes, equal, is_empty}
use lutra.Prelude.Results.{
  Error, Result, ok, err, ◌>>=◌, ◌>>◌, guard, Code, new_error, invalid_argument, not_found,
  already_exists, internal, failed_precondition,
}
use lutra.Settings.Patterns.{slug_pattern, path_pattern}

pub record Namespace : Type 0 where
  pub id : ℕ
  pub slug : Bytes
  pub name : Bytes

pub record Setting : Type 0 where
  pub namespace : ℕ
  pub path : Bytes
  pub value : Bytes

pub record Tables : Type 0 where
  pub namespaces : List Namespace
  pub settings : List Setting

-- The calls of the database, each with its error.
pub data Call : Type 0 where
  get_namespace upsert delete list new_v7 create_row : Call

-- `trim_space` is the length of a text that `strings.TrimSpace` has trimmed, `characters` the length of
-- a text in characters, `cbor_valid` whether `cbor.Unmarshal` takes a value, `before` the order of two
-- paths in the collation of the database.
pub record Outside : Type 0 where
  pub parse_uuid : Bytes → Option ℕ
  pub trim_space : Bytes → ℕ
  pub characters : Bytes → ℕ
  pub cbor_valid : Bytes → Bool
  pub before : Bytes → Bytes → Bool
  pub fault : Call → Option Error

abbrev pub invalid : String → Error
invalid text = new_error invalid_argument text

abbrev pub or_error {ℓ} : {A : Type ℓ} → Option A → Error → Result A
or_error none e = err e
or_error (some a) e = ok a

abbrev pub recoded : Code → Option Error → Option Error
recoded c none = none
recoded c (some e) = some (new_error c e.text)

abbrev pub no_fault : Option Error → Result (Unit {0})
no_fault none = ok tt
no_fault (some e) = err e

unfoldable pub find_namespace : ℕ → List Namespace → Option Namespace
find_namespace id [] = none
find_namespace id (n ∷ ns) = if n.id == id then some n else find_namespace id ns

-- `namespaceID`
unfoldable pub namespace_id : Outside → Bytes → Tables → Result ℕ
unfolding find_namespace
namespace_id x value t = do
  id ← or_error (x.parse_uuid value) (invalid "invalid namespace ID")
  guard (not (id == 0)) (invalid "invalid namespace ID")
  no_fault (x.fault get_namespace)
  row ← or_error (find_namespace id t.namespaces) (new_error not_found "namespace not found")
  ok row.id

unfoldable pub validate_path : Bytes → Result (Unit {0})
validate_path value =
    guard (path_pattern value && leb (length value) 512) (invalid "invalid setting path")

unfoldable pub validate_cbor : Outside → Bytes → Result (Unit {0})
validate_cbor x value = do
  guard (not (is_empty value) && leb (length value) 65536) (invalid "invalid CBOR value size")
  guard (x.cbor_valid value) (invalid "invalid CBOR value")

abbrev pub has_key : ℕ → Bytes → Setting → Bool
has_key namespace path s = s.namespace == namespace && equal s.path path

abbrev pub row : ℕ → Bytes → Bytes → Setting
row namespace path value = record { namespace = namespace; path = path; value = value }

-- The query: a row with the key keeps its place.
unfoldable pub write_row : ℕ → Bytes → Bytes → List Setting → List Setting
unfolding equal
write_row namespace path value [] = row namespace path value ∷ []
write_row namespace path value (s ∷ ss) =
    if has_key namespace path s
    then row namespace path value ∷ ss
    else s ∷ write_row namespace path value ss

unfoldable pub delete_row : ℕ → Bytes → List Setting → List Setting
unfolding equal
delete_row namespace path [] = []
delete_row namespace path (s ∷ ss) =
    if has_key namespace path s
    then delete_row namespace path ss
    else s ∷ delete_row namespace path ss

-- A call of the database that changes the settings, with the code of its error.
abbrev pub change {ℓ} :
    {A : Type ℓ}
    → Option Error
    → Code
    → (List Setting → List Setting)
    → A
    → Tables
    → Tables × Result A
change none c f a t = (record t { settings = f t.settings }, ok a)
change (some e) c f a t = (t, err (new_error c e.text))

abbrev pub with_checked {ℓ κ} :
    {A : Type ℓ} {B : Type κ} → Result A → (A → Tables × Result B) → Tables → Tables × Result B
with_checked (ok a) next t = next a
with_checked (err e) next t = (t, err e)

unfoldable pub check_upsert : Outside → (id path value : Bytes) → Tables → Result ℕ
unfolding namespace_id validate_path validate_cbor
check_upsert x id path value t = do
  namespace ← namespace_id x id t
  validate_path path
  validate_cbor x value
  ok namespace

unfoldable pub upsert_setting : Outside → (id path value : Bytes) → Tables → Tables × Result Setting
unfolding check_upsert write_row
upsert_setting x id path value t =
    with_checked (check_upsert x id path value t)
      (λ namespace.
        change (x.fault upsert) failed_precondition (write_row namespace path value)
          (row namespace path value) t)
      t

unfoldable pub check_delete : Outside → (id path : Bytes) → Tables → Result ℕ
unfolding namespace_id validate_path
check_delete x id path t = do namespace ← namespace_id x id t; validate_path path; ok namespace

unfoldable pub delete_setting : Outside → (id path : Bytes) → Tables → Tables × Result (Unit {0})
unfolding check_delete delete_row
delete_setting x id path t =
    with_checked (check_delete x id path t)
      (λ namespace. change (x.fault delete) internal (delete_row namespace path) tt t) t

unfoldable pub validate_paths : List Bytes → Result (Unit {0})
unfolding validate_path
validate_paths [] = ok tt
validate_paths (p ∷ ps) = validate_path p >> validate_paths ps

unfoldable pub is_asked : Bytes → List Bytes → Bool
unfolding equal
is_asked path [] = false
is_asked path (p ∷ ps) = equal path p || is_asked path ps

abbrev pub has_none : List Bytes → Bool
has_none [] = true
has_none (p ∷ ps) = false

unfoldable pub select_rows : ℕ → List Bytes → List Setting → List Setting
unfolding is_asked
select_rows namespace paths [] = []
select_rows namespace paths (s ∷ ss) =
    if s.namespace == namespace && (has_none paths || is_asked s.path paths)
    then s ∷ select_rows namespace paths ss
    else select_rows namespace paths ss

-- ORDER BY path
unfoldable pub place : (Bytes → Bytes → Bool) → Setting → List Setting → List Setting
place before s [] = s ∷ []
place before s (r ∷ rs) = if before r.path s.path then r ∷ place before s rs else s ∷ r ∷ rs

unfoldable pub by_path : (Bytes → Bytes → Bool) → List Setting → List Setting
unfolding place
by_path before [] = []
by_path before (s ∷ ss) = place before s (by_path before ss)

-- Reading changes no table.
unfoldable pub list_settings : Outside → (id : Bytes) → List Bytes → Tables → Result (List Setting)
unfolding namespace_id validate_paths select_rows by_path
list_settings x id paths t = do
  namespace ← namespace_id x id t
  validate_paths paths
  no_fault (recoded internal (x.fault list))
  ok (by_path x.before (select_rows namespace paths t.settings))

unfoldable pub validate_name : Outside → Bytes → Result (Unit {0})
validate_name x value =
    guard (not (x.trim_space value == 0 || ltb 200 (x.trim_space value))) (invalid "invalid name")

unfoldable pub has_slug : Bytes → List Namespace → Bool
unfolding equal
has_slug slug [] = false
has_slug slug (n ∷ ns) = equal n.slug slug || has_slug slug ns

abbrev pub name_fits : ℕ → Bool
name_fits size = leb 1 size && leb size 200

abbrev broken : Error
broken = new_error internal "violates check constraint"

-- The query, with the constraints of the table; the slug's pattern holds by now.
abbrev pub insert_namespace :
    Outside → Option Error → Namespace → Tables → Tables × Result Namespace
insert_namespace x (some e) n t = (t, err (new_error internal e.text))
insert_namespace x none n t =
    if has_slug n.slug t.namespaces
    then (t, err (new_error already_exists "duplicate key value"))
    else if name_fits (x.characters n.name)
    then (record t { namespaces = n ∷ t.namespaces }, ok n)
    else (t, err broken)

unfoldable pub check_namespace : Outside → (slug name : Bytes) → Result (Unit {0})
unfolding slug_pattern validate_name
check_namespace x slug name = do
  guard (slug_pattern slug) (invalid "invalid namespace slug")
  validate_name x name
  no_fault (x.fault new_v7)

-- `fresh` is the new identifier.
unfoldable pub create_namespace :
    Outside → (fresh : ℕ) → (slug name : Bytes) → Tables → Tables × Result Namespace
unfolding check_namespace has_slug
create_namespace x fresh slug name t =
    with_checked (check_namespace x slug name)
      (λ _.
        insert_namespace x (x.fault create_row) (record { id = fresh; slug = slug; name = name }) t)
      t
