-- ===== src/Prelude/Int64.antt =====
-- Go's int64, as the bit pattern of the number: a value below 2 ^ 64, negative from 2 ^ 63 on.
use Prim.Native.Nat.{ℕ, ◌+◌, ◌-◌, ◌%◌, ◌^◌}
use mathlib.Core.Bool.{Bool}
use lutra.Prelude.Tests.{ltb}

abbrev pub add64 : ℕ → ℕ → ℕ
add64 a b = (a + b) % 2 ^ 64

abbrev pub sub64 : ℕ → ℕ → ℕ
sub64 a b = (a + (2 ^ 64 - b)) % 2 ^ 64

-- `a < b`: the order of the patterns with the sign bit flipped.
abbrev pub less64 : ℕ → ℕ → Bool
less64 a b = ltb ((a + 2 ^ 63) % 2 ^ 64) ((b + 2 ^ 63) % 2 ^ 64)

abbrev pub max_int64 : ℕ
max_int64 = 2 ^ 63 - 1
