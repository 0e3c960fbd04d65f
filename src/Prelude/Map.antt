-- ===== src/Prelude/Map.antt =====
-- A Go map with numeric keys, as an association list. Go leaves the order of a `range` over a map
-- open, so a loop over a map takes the order of its visits as an argument.
use Prim.Native.Nat.{ℕ}
use mathlib.Core.Path.{◌≡◌, refl}
use mathlib.Core.Logic.{◌≢◌}
use mathlib.Core.List.{List, [], ◌∷◌}
use mathlib.Core.Option.{Option, none, some}
use native.Mathlib.Omega.{arith}
use lutra.Prelude.Tests.{◌==◌, if◌then◌else◌}

abbrev pub Map {ℓ} : Type ℓ → Type ℓ
Map V = List (ℕ × V)

module _ {ℓ} {V : Type ℓ} where
  unfoldable pub lookup : ℕ → Map V → Option V
  lookup key [] = none
  lookup key ((held, value) ∷ rest) = if held == key then some value else lookup key rest

  -- A key keeps the place that it has.
  unfoldable pub insert : ℕ → V → Map V → Map V
  insert key fresh [] = (key, fresh) ∷ []
  insert key fresh ((held, value) ∷ rest) =
      if held == key then (held, fresh) ∷ rest else (held, value) ∷ insert key fresh rest

  unfoldable pub delete : ℕ → Map V → Map V
  delete key [] = []
  delete key ((held, value) ∷ rest) =
      if held == key then delete key rest else (held, value) ∷ delete key rest

  pub lookup-insert :
      (key other : ℕ) (fresh : V) (entries : Map V)
      → lookup other (insert key fresh entries)
        ≡ (if key == other then some fresh else lookup other entries)
  unfolding lookup insert
  lookup-insert key other fresh [] = refl
  lookup-insert key other fresh ((held, value) ∷ rest) =
      ground (arith, lookup-insert key other fresh rest)

  pub lookup-delete :
      (key other : ℕ) (entries : Map V)
      → lookup other (delete key entries) ≡ (if key == other then none else lookup other entries)
  unfolding lookup delete
  lookup-delete key other [] = ground arith
  lookup-delete key other ((held, value) ∷ rest) = ground (arith, lookup-delete key other rest)

  pub lookup-insert_self : (k : ℕ) (v : V) (m : Map V) → lookup k (insert k v m) ≡ some v
  lookup-insert_self k v m = ground (arith, lookup-insert k k v m)

  pub lookup-insert_eq : {k j : ℕ} (v : V) (m : Map V) → k ≡ j → lookup j (insert k v m) ≡ some v
  lookup-insert_eq {k} {j} v m e = ground (arith, lookup-insert k j v m)

  pub lookup-insert_ne :
      {k j : ℕ} (v : V) (m : Map V) → k ≢ j → lookup j (insert k v m) ≡ lookup j m
  lookup-insert_ne {k} {j} v m ne = ground (arith, lookup-insert k j v m)
