-- ===== src/Base/Int.antt =====
-- Go's `int` and `int64` values that can be negative: `negsuc n` is -(n + 1).
use Prim.Native.Nat.{ℕ, ◌-◌, ◌^◌, ◌<◌}
use mathlib.Core.Path.{◌≡◌}
use mathlib.Core.Bool.{Bool, true, false}
use native.Mathlib.Omega.{arith}
use marchiq.Base.Tests.{ltb, leb, ◌==◌, if◌then◌else◌}

pub data ℤ : Type 0 where
  pos : ℕ → ℤ
  negsuc : ℕ → ℤ

-- The largest `int64`, `math.MaxInt64`.
abbrev pub max_int64 : ℕ
max_int64 = 2 ^ 63 - 1

abbrev pub IsInt64 : ℤ → Type 0
IsInt64 (pos n) = n < 2 ^ 63
IsInt64 (negsuc n) = n < 2 ^ 63

-- `uint64(i)` and `int64(u)`, which keep the bits.
abbrev pub uint64_of : ℤ → ℕ
uint64_of (pos n) = n
uint64_of (negsuc n) = 2 ^ 64 - 1 - n

abbrev pub int64_of : ℕ → ℤ
int64_of u = if ltb u (2 ^ 63) then pos u else negsuc (2 ^ 64 - 1 - u)

pub int64_of-uint64_of : (i : ℤ) → IsInt64 i → int64_of (uint64_of i) ≡ i
int64_of-uint64_of (pos n) h = ground arith
int64_of-uint64_of (negsuc n) h = ground arith

pub uint64_of-int64_of : (u : ℕ) → u < 2 ^ 64 → uint64_of (int64_of u) ≡ u
uint64_of-int64_of u h = ground arith

pub int64_of-IsInt64 : (u : ℕ) → u < 2 ^ 64 → IsInt64 (int64_of u)
int64_of-IsInt64 u h = ground arith

pub uint64_of_lt : (i : ℤ) → IsInt64 i → uint64_of i < 2 ^ 64
uint64_of_lt (pos n) h = omega arith
uint64_of_lt (negsuc n) h = omega arith

-- `n <= 0`
abbrev pub is_positive : ℤ → Bool
is_positive (pos n) = ltb 0 n
is_positive (negsuc n) = false

abbrev pub eq_int : ℤ → ℤ → Bool
eq_int (pos a) (pos b) = a == b
eq_int (negsuc a) (negsuc b) = a == b
eq_int _ _ = false

-- The value of an integer that is not negative.
abbrev pub pos_part : ℤ → ℕ
pos_part (pos n) = n
pos_part (negsuc n) = 0

-- `a - b`
abbrev pub sub_nat : ℕ → ℕ → ℤ
sub_nat a b = if leb b a then pos (a - b) else negsuc (b - a - 1)

-- `a < b`
abbrev pub ltb_int : ℤ → ℤ → Bool
ltb_int (pos a) (pos b) = ltb a b
ltb_int (pos a) (negsuc b) = false
ltb_int (negsuc a) (pos b) = true
ltb_int (negsuc a) (negsuc b) = ltb b a
