-- ===== src/Base/Int.antt =====
-- C integers: a signed value is an ℤ, a size_t is an ℕ that wraps at 2 ^ 64.
use Prim.Native.Nat.{ℕ, zero, suc, ◌+◌, ◌-◌, ◌%◌, ◌^◌, ◌<◌}
use mathlib.Core.Path.{◌≡◌}
use mathlib.Core.Logic.{◌↔◌}
use mathlib.Core.Bool.{Bool, true, false}
use native.Mathlib.Omega.{arith}
use so_project.Base.Tests.{ltb, ◌==◌, if◌then◌else◌}

-- `negsuc n` is -(n + 1).
pub data ℤ : Type 0 where
  pos : ℕ → ℤ
  negsuc : ℕ → ℤ

-- The value -1 that the C functions return for a failure.
abbrev pub minus_one : ℤ
minus_one = negsuc 0

abbrev pub pos_part : ℤ → ℕ
pos_part (pos n) = n
pos_part (negsuc n) = 0

infix 50 ◌==ℤ◌
abbrev pub ◌==ℤ◌ : ℤ → ℤ → Bool
pos m ==ℤ pos n = m == n
pos m ==ℤ negsuc n = false
negsuc m ==ℤ pos n = false
negsuc m ==ℤ negsuc n = m == n

-- `0 <= z && z < n`
abbrev pub in_range : ℕ → ℤ → Bool
in_range n (pos m) = ltb m n
in_range n (negsuc m) = false

-- `z >= 0`
abbrev pub is_nonneg : ℤ → Bool
is_nonneg (pos m) = true
is_nonneg (negsuc m) = false

-- `z++` and `z--`
abbrev pub succ_ℤ : ℤ → ℤ
succ_ℤ (pos n) = pos (n + 1)
succ_ℤ (negsuc zero) = pos 0
succ_ℤ (negsuc (suc n)) = negsuc n

abbrev pub pred_ℤ : ℤ → ℤ
pred_ℤ (pos zero) = negsuc 0
pred_ℤ (pos (suc n)) = pos n
pred_ℤ (negsuc n) = negsuc (suc n)

-- size_t arithmetic.
abbrev pub size_mod : ℕ
size_mod = 2 ^ 64

abbrev pub add64 : ℕ → ℕ → ℕ
add64 a b = (a + b) % size_mod

abbrev pub sub64 : ℕ → ℕ → ℕ
sub64 a b = (a + size_mod - b) % size_mod

-- The conversions of a bit pattern to `ssize_t` and to `int`, and of an `int` to its bit pattern.
abbrev pub signed64 : ℕ → ℤ
signed64 w = if ltb w (2 ^ 63) then pos w else negsuc (size_mod - w - 1)

abbrev pub signed32 : ℕ → ℤ
signed32 w = if ltb w (2 ^ 31) then pos w else negsuc (2 ^ 32 - w - 1)

abbrev pub pattern32 : ℤ → ℕ
pattern32 (pos n) = n % 2 ^ 32
pattern32 (negsuc n) = 2 ^ 32 - 1 - n % 2 ^ 32

-- The values of an `int`.
abbrev pub IsInt : ℤ → Type 0
IsInt (pos n) = n < 2 ^ 31
IsInt (negsuc n) = n < 2 ^ 31

pub signed32-pattern32 : (z : ℤ) → IsInt z → signed32 (pattern32 z) ≡ z
signed32-pattern32 (pos n) h = ground arith
signed32-pattern32 (negsuc n) h = ground arith

pub ==ℤ_iff : (a b : ℤ) → ((a ==ℤ b) ≡ true) ↔ (a ≡ b)
==ℤ_iff (pos m) (pos n) = ground arith
==ℤ_iff (pos m) (negsuc n) = ground arith
==ℤ_iff (negsuc m) (pos n) = ground arith
==ℤ_iff (negsuc m) (negsuc n) = ground arith
