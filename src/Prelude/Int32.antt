-- ===== src/Prelude/Int32.antt =====
-- Go's int32, as the bit pattern of the number: a value below 2 ^ 32, negative from 2 ^ 31 on.
use Prim.Native.Nat.{ℕ, ◌+◌, ◌-◌, ◌%◌, ◌^◌}
use mathlib.Core.Bool.{Bool}
use lutra.Prelude.Tests.{ltb, if◌then◌else◌}

abbrev pub wrap : ℕ → ℕ
wrap n = n % 2 ^ 32

-- The order of the signed values is that of the patterns with the sign bit flipped.
abbrev pub bias : ℕ → ℕ
bias n = (n + 2 ^ 31) % 2 ^ 32

-- `a < b`, `max(a, b)` and `min(a, b)` on int32.
abbrev pub less : ℕ → ℕ → Bool
less a b = ltb (bias a) (bias b)

abbrev pub larger : ℕ → ℕ → ℕ
larger a b = if less a b then b else a

abbrev pub smaller : ℕ → ℕ → ℕ
smaller a b = if less a b then a else b

abbrev pub increment : ℕ → ℕ
increment n = wrap (n + 1)

abbrev pub decrement : ℕ → ℕ
decrement n = wrap (n + 2 ^ 32 - 1)
