-- ===== src/Prelude/Results.antt =====
-- A Go call that returns a value and an error, the errors being connect's: a code and a text.
use Prim.Native.String.{String}
use mathlib.Core.Path.{◌≡◌, refl, sym, subst}
use mathlib.Core.Bool.{Bool, true, false}
use native.Mathlib.Omega.{arith}

pub data Code : Type 0 where
  unknown invalid_argument not_found already_exists permission_denied : Code
  resource_exhausted failed_precondition internal unavailable : Code

pub record Error : Type 0 where
  pub code : Code
  pub text : String

abbrev pub new_error : Code → String → Error
new_error c s = record { code = c; text = s }

pub data Result {ℓ} (A : Type ℓ) : Type ℓ where
  ok : A → Result A
  err : Error → Result A

infixl 5 ◌>>=◌ ◌>>◌
abbrev pub ◌>>=◌ {ℓ κ} : {X : Type ℓ} {Y : Type κ} → Result X → (X → Result Y) → Result Y
err problem >>= next = err problem
ok value >>= next = next value

abbrev pub ◌>>◌ {κ} : {Y : Type κ} → Result (Unit {0}) → Result Y → Result Y
call >> next = call >>= λ _. next

-- `if !test { return problem }`
abbrev pub guard : Bool → Error → Result (Unit {0})
guard false problem = err problem
guard true problem = ok tt

-- A successful bind has two successful parts.
pub bind-ok {ℓ κ} :
    {X : Type ℓ} {Y : Type κ} (call : Result X) (next : X → Result Y) {result : Y}
    → (call >>= next) ≡ ok result
    → (value : X) × (call ≡ ok value) × (next value ≡ ok result)
bind-ok (err problem) next h = ground arith
bind-ok (ok value) next h = (value, refl, h)

pub guard-ok {κ} :
    {Y : Type κ} (test : Bool) (problem : Error) (next : Result Y) {result : Y}
    → (guard test problem >> next) ≡ ok result
    → (test ≡ true) × (next ≡ ok result)
guard-ok false problem next h = ground arith
guard-ok true problem next h = (refl, h)

abbrev pub Succeeds {ℓ} : {X : Type ℓ} → Result X → Type ℓ
Succeeds {X = X} call = (value : X) × (call ≡ ok value)

pub bind-Succeeds {ℓ κ} :
    {X : Type ℓ} {Y : Type κ} (call : Result X) (next : X → Result Y)
    → Succeeds call
    → ((value : X) → call ≡ ok value → Succeeds (next value))
    → Succeeds (call >>= next)
bind-Succeeds {X = X} call next (value, h) rest =
    subst (λ (r : Result X). Succeeds (r >>= next)) (sym h) (rest value h)
