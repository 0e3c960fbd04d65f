-- ===== src/Settings/Stored.antt =====
-- What `UpsertSetting` and `DeleteSetting` of internal/settings/service.go leave to be listed.
use lutra.Prelude.{
  Bool, true, false, ◌&&◌, leb, length, ◌⊎◌, inl, inr, is_some, ap, ℕ, List, [], ◌∷◌, Option, none,
  some, ◌≡◌, refl, arith,
}
use lutra.Prelude.Bytes.{Bytes}
use lutra.Prelude.Results.{Error, Result, ok, err, failed_precondition, internal}
use lutra.Settings.Service.{
  Setting, Tables, Outside, upsert, delete, list, row, write_row, delete_row, change, with_checked,
  namespace_id, validate_path, by_path, place, validate_cbor, check_upsert, upsert_setting,
  check_delete, delete_setting, validate_paths, list_settings,
}
use lutra.Settings.Patterns.{path_pattern}
use lutra.Settings.Keys.{UniqueKeys, select_rows-write_row, delete_row-Absent, select-Absent}

abbrev succeeds : Result ℕ → Bool
succeeds (ok n) = true
succeeds (err e) = false

-- What is asked of the identifier and the path, and of a value.
abbrev pub is_addressed : Outside → (id path : Bytes) → Tables → Bool
is_addressed x id path t =
    succeeds (namespace_id x id t) && path_pattern path && leb (length path) 512

abbrev pub is_value : Outside → Bytes → Bool
is_value x value = leb 1 (length value) && leb (length value) 65536 && x.cbor_valid value

-- After a success a list of the path has the setting with the value that was sent, which is also what
-- was answered, and no other.
abbrev pub Listed : Outside → (id path value : Bytes) → Tables → Tables × Result Setting → Type 0
Listed x id path value t (u, ok s) =
    (n : ℕ) × (namespace_id x id t ≡ ok n)
    × (s ≡ record { namespace = n; path = path; value = value })
    × (list_settings x id (path ∷ []) u
        ≡ ok (record { namespace = n; path = path; value = value } ∷ []))
Listed x id path value t (u, err e) =
    (u ≡ t)
    × (((is_addressed x id path t && is_value x value) ≡ false) ⊎ (is_some (x.fault upsert) ≡ true))

written-Listed :
    (x : Outside) (id path value : Bytes) (n : ℕ) (t : Tables)
    → UniqueKeys t.settings
    → x.fault list ≡ none
    → check_upsert x id path value t ≡ ok n
    → list_settings x id (path ∷ []) (record t { settings = write_row n path value t.settings })
      ≡ ok (row n path value ∷ [])
unfolding list_settings namespace_id validate_paths validate_path validate_cbor check_upsert by_path
    place
written-Listed x id path value n t unique live checked =
    ground (arith, select_rows-write_row n path value t.settings unique)

checked-namespace_id :
    (x : Outside) (id path value : Bytes) (n : ℕ) (t : Tables) (settings : List Setting)
    → check_upsert x id path value t ≡ ok n
    → namespace_id x id (record t { settings = settings }) ≡ ok n
unfolding namespace_id validate_path validate_cbor check_upsert
checked-namespace_id x id path value n t settings checked = ground arith

check_upsert-bad :
    (x : Outside) (id path value : Bytes) (t : Tables) (e : Error)
    → check_upsert x id path value t ≡ err e
    → (is_addressed x id path t && is_value x value) ≡ false
unfolding validate_path validate_cbor check_upsert
check_upsert-bad x id path value t e q = ground arith

check_delete-bad :
    (x : Outside) (id path : Bytes) (t : Tables) (e : Error)
    → check_delete x id path t ≡ err e
    → is_addressed x id path t ≡ false
unfolding validate_path check_delete
check_delete-bad x id path t e q = ground arith

-- After a successful `UpsertSetting` a `ListSettings` of its path has the setting with the value that
-- was sent, and no other, if the table has its primary key and the query of the list does not fail.
-- One that does not succeed changes nothing, and only a bad argument or a failed query makes it so.
pub upsert_setting-Listed :
    (x : Outside) (id path value : Bytes) (t : Tables)
    → UniqueKeys t.settings
    → x.fault list ≡ none
    → Listed x id path value t (upsert_setting x id path value t)
unfolding upsert_setting
upsert_setting-Listed x id path value t unique live =
    by_check (check_upsert x id path value t) refl (x.fault upsert) refl
  where
    by_check :
        (c : Result ℕ)
        → check_upsert x id path value t ≡ c
        → (o : Option Error) → x.fault upsert ≡ o
        → Listed x id path value t (
            with_checked c
              (λ n. change o failed_precondition (write_row n path value) (row n path value) t)
              t)
    by_check (err e) q o f = (refl, inl (check_upsert-bad x id path value t e q))
    by_check (ok n) q none f = (
      n,
      checked-namespace_id x id path value n t t.settings q,
      refl,
      written-Listed x id path value n t unique live q,
    )
    by_check (ok n) q (some e) f = (refl, inr (ap is_some f))

-- After an answer: a list of the path has nothing.
abbrev pub Unlisted : Outside → (id path : Bytes) → Tables → Tables × Result (Unit {0}) → Type 0
Unlisted x id path t (u, ok done) = list_settings x id (path ∷ []) u ≡ ok []
Unlisted x id path t (u, err e) =
    (u ≡ t) × ((is_addressed x id path t ≡ false) ⊎ (is_some (x.fault delete) ≡ true))

deleted-Unlisted :
    (x : Outside) (id path : Bytes) (n : ℕ) (t : Tables)
    → x.fault list ≡ none
    → check_delete x id path t ≡ ok n
    → list_settings x id (path ∷ []) (record t { settings = delete_row n path t.settings }) ≡ ok []
unfolding list_settings namespace_id validate_paths validate_path check_delete by_path place
deleted-Unlisted x id path n t live checked = ground (
  arith,
  select-Absent n path (delete_row n path t.settings) (delete_row-Absent n path t.settings),
)

-- After a successful `DeleteSetting` a `ListSettings` of its path has no setting, if the query of the
-- list does not fail. One that does not succeed changes nothing, and only a bad argument or a failed
-- query makes it so.
pub delete_setting-Unlisted :
    (x : Outside) (id path : Bytes) (t : Tables)
    → x.fault list ≡ none
    → Unlisted x id path t (delete_setting x id path t)
unfolding delete_setting
delete_setting-Unlisted x id path t live =
    by_check (check_delete x id path t) refl (x.fault delete) refl
  where
    by_check :
        (c : Result ℕ)
        → check_delete x id path t ≡ c
        → (o : Option Error) → x.fault delete ≡ o
        → Unlisted x id path t (with_checked c (λ n. change o internal (delete_row n path) tt t) t)
    by_check (err e) q o f = (refl, inl (check_delete-bad x id path t e q))
    by_check (ok n) q none f = deleted-Unlisted x id path n t live q
    by_check (ok n) q (some e) f = (refl, inr (ap is_some f))
