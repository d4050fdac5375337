-- ===== src/Base/Int.antt =====
-- `int` over the native numbers, under the library's names (its ℤ stands on the unary ℕ).
use Prim.Native.Nat.{ℕ, suc, ◌+◌, ◌-◌, ◌%◌, ◌<◌, ◌≤◌}
use mathlib.Core.Path.{◌≡◌}
use mathlib.Core.Bool.{Bool}
use native.Mathlib.Omega.{arith}
use simple_kernel.Base.Tests.{ltb, leb, if◌then◌else◌}

-- `negsuc n` is -(n + 1).
pub data ℤ : Type 0 where
  pos : ℕ → ℤ
  negsuc : ℕ → ℤ

abbrev pub pos_part : ℤ → ℕ
pos_part (pos n) = n
pos_part (negsuc n) = 0

abbrev pub neg_part : ℤ → ℕ
neg_part (pos n) = 0
neg_part (negsuc n) = suc n

-- a - b, as an integer.
abbrev pub sub_ℕ : ℕ → ℕ → ℤ
sub_ℕ a b = if leb b a then pos (a - b) else negsuc (b - a - 1)

infixl 65 ◌+ℤ◌
abbrev pub ◌+ℤ◌ : ℤ → ℤ → ℤ
a +ℤ b = sub_ℕ (pos_part a + pos_part b) (neg_part a + neg_part b)

abbrev pub ltb_ℤ : ℤ → ℤ → Bool
ltb_ℤ a b = ltb (pos_part a + neg_part b) (pos_part b + neg_part a)

pub sub_ℕ-zero : (a b : ℕ) → sub_ℕ a b ≡ pos 0 → a ≡ b
sub_ℕ-zero a b h = ground arith

-- The bits of a conversion to `i32`, read as two's complement.
abbrev signed_32 : ℕ → ℤ
signed_32 bits = if ltb bits 0x80000000 then pos bits else negsuc (0xFFFFFFFF - bits)

-- A conversion to `i32`. A sum of two of them that does not fit is undefined in C; here it wraps.
pub i32 : ℤ → ℤ
i32 (pos n) = signed_32 (n % 0x100000000)
i32 (negsuc n) = signed_32 (0xFFFFFFFF - n % 0x100000000)

pub i32-fits : (z : ℤ) → pos_part z < 0x80000000 → neg_part z ≤ 0x80000000 → i32 z ≡ z
unfolding i32
i32-fits (pos n) h l = ground arith
i32-fits (negsuc n) h l = ground arith
