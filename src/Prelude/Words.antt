-- ===== src/Prelude/Words.antt =====
-- Go's `int64`, as its two's complement bit pattern: a number below 2 ^ 64. Sums and differences
-- wrap around, and an order is the order of the patterns with the sign bit flipped.
use Prim.Native.Nat.{ℕ, ◌+◌, ◌-◌, ◌*◌, ◌/◌, ◌%◌, ◌^◌, ◌<◌}
use mathlib.Core.Path.{◌≡◌}
use mathlib.Core.Bool.{Bool, true}
use native.Mathlib.Omega.{arith}
use pbft_2pc.Prelude.Tests.{ltb, leb, if◌then◌else◌}

abbrev pub Int64 : Type 0
Int64 = ℕ

abbrev pub IsInt64 : ℕ → Type 0
IsInt64 a = a < 2 ^ 64

abbrev pub add64 : Int64 → Int64 → Int64
add64 a b = (a + b) % 2 ^ 64

abbrev pub sub64 : Int64 → Int64 → Int64
sub64 a b = (a + 2 ^ 64 - b) % 2 ^ 64

-- The pattern with the sign bit flipped.
abbrev pub bias : Int64 → ℕ
bias a = (a + 2 ^ 63) % 2 ^ 64

abbrev pub lt64 : Int64 → Int64 → Bool
lt64 a b = ltb (bias a) (bias b)

abbrev pub le64 : Int64 → Int64 → Bool
le64 a b = leb (bias a) (bias b)

-- Go's built-in `max`
abbrev pub max64 : Int64 → Int64 → Int64
max64 a b = elim (lt64 a b) [ true ↦ b | _ ↦ a ]

pub sub64-add64 : (a b : ℕ) → IsInt64 a → IsInt64 b → sub64 (add64 a b) b ≡ a
sub64-add64 a b ha hb = omega arith

pub add64-sub64 : (a b : ℕ) → IsInt64 a → IsInt64 b → add64 (sub64 a b) b ≡ a
add64-sub64 a b ha hb = omega arith

-- On the numbers that are not negative the signed order is the order of the naturals.
pub lt64-nonneg : (a b : ℕ) → a < 2 ^ 63 → b < 2 ^ 63 → lt64 a b ≡ true → a < b
lt64-nonneg a b ha hb h = ground arith

abbrev pub mul64 : Int64 → Int64 → Int64
mul64 a b = (a * b) % 2 ^ 64

-- Go's `/` and `%` by a positive constant round towards zero: the remainder has the sign of `a`.
abbrev pub div64 : Int64 → Int64 → Int64
div64 a m = if ltb a (2 ^ 63) then a / m else (2 ^ 64 - (2 ^ 64 - a) / m) % 2 ^ 64

abbrev pub rem64 : Int64 → Int64 → Int64
rem64 a m = if ltb a (2 ^ 63) then a % m else (2 ^ 64 - (2 ^ 64 - a) % m) % 2 ^ 64
