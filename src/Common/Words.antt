-- ===== src/Common/Words.antt =====
-- Machine words: a value is its bit pattern below 2 ^ w, and every wrap is written out.
use Prim.Native.Nat.{ℕ, ◌+◌, ◌-◌, ◌%◌, ◌^◌, ◌<◌}
use mathlib.Core.Path.{◌≡◌}
use mathlib.Core.Bool.{Bool}
use native.Mathlib.Omega.{arith}
use rvos.Common.Tests.{ltb, if◌then◌else◌}

-- (int)x of a 64-bit register, kept as a 32-bit pattern.
abbrev pub int_of : ℕ → ℕ
int_of x = x % 2 ^ 32

-- An int written to a 64-bit register is sign-extended.
abbrev pub sext32 : ℕ → ℕ
sext32 v = if ltb v (2 ^ 31) then v else v + (2 ^ 64 - 2 ^ 32)

-- `a < b` of two ints.
abbrev pub slt : ℕ → ℕ → Bool
slt a b = ltb ((a + 2 ^ 31) % 2 ^ 32) ((b + 2 ^ 31) % 2 ^ 32)

-- (uint64)-1, (uint64)-2, (uint64)-3.
abbrev pub minus_one : ℕ
minus_one = 2 ^ 64 - 1

abbrev pub add64 : ℕ → ℕ → ℕ
add64 a b = (a + b) % 2 ^ 64

abbrev pub sub64 : ℕ → ℕ → ℕ
sub64 a b = (a + 2 ^ 64 - b) % 2 ^ 64

pub int_of-sext32 : (v : ℕ) → v < 2 ^ 32 → int_of (sext32 v) ≡ v
int_of-sext32 v h = ground arith
