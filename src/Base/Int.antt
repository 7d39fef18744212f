-- ===== src/Base/Int.antt =====
-- Signed integers over the native numbers, and the signed reading of two's complement words.
use Prim.Native.Nat.{ℕ, suc, ◌+◌, ◌-◌, ◌%◌, ◌^◌, ◌≤◌}
use mathlib.Core.Path.{◌≡◌}
use mathlib.Core.Bool.{Bool, true, false}
use native.Mathlib.Omega.{arith}
use zzdds_examples.Base.Test.{ltb, ◌==◌, if◌then◌else◌}

-- `negsuc n` is -(n + 1).
pub data ℤ : Type 0 where
  pos : ℕ → ℤ
  negsuc : ℕ → ℤ

abbrev pub pos_part : ℤ → ℕ
pos_part (pos n) = n
pos_part (negsuc n) = 0

abbrev pub neg_part : ℤ → ℕ
neg_part (pos n) = 0
neg_part (negsuc n) = suc n

infix 50 ◌≤ℤ◌
abbrev pub ◌≤ℤ◌ : ℤ → ℤ → Type 0
a ≤ℤ b = pos_part a + neg_part b ≤ pos_part b + neg_part a

abbrev pub ltb_ℤ : ℤ → ℤ → Bool
ltb_ℤ a b = ltb (pos_part a + neg_part b) (pos_part b + neg_part a)

-- `a < 0`
abbrev pub is_negative : ℤ → Bool
is_negative (pos n) = false
is_negative (negsuc n) = true

-- `(-n)` for a count `n`
abbrev pub negate : ℕ → ℤ
negate n = if n == 0 then pos 0 else negsuc (n - 1)

-- static_cast<uint32_t> of an unsigned 64-bit value.
abbrev pub to_u32 : ℕ → ℕ
to_u32 n = n % 2 ^ 32

-- static_cast<uint16_t>
abbrev pub to_u16 : ℕ → ℕ
to_u16 n = n % 2 ^ 16

-- The int32_t that a 32-bit pattern stands for.
abbrev pub signed32 : ℕ → ℤ
signed32 w = if ltb w (2 ^ 31) then pos w else negsuc (2 ^ 32 - w - 1)

-- static_cast<int32_t> of a 64-bit signed value.
abbrev pub to_i32 : ℤ → ℤ
to_i32 (pos n) = signed32 (n % 2 ^ 32)
to_i32 (negsuc n) = signed32 (2 ^ 32 - 1 - n % 2 ^ 32)

abbrev pub IsI32 : ℤ → Type 0
IsI32 z = (negsuc (2 ^ 31 - 1) ≤ℤ z) × (z ≤ℤ pos (2 ^ 31 - 1))

abbrev pub IsI64 : ℤ → Type 0
IsI64 z = (negsuc (2 ^ 63 - 1) ≤ℤ z) × (z ≤ℤ pos (2 ^ 63 - 1))

pub to_i32-IsI32 : (z : ℤ) → IsI32 (to_i32 z)
to_i32-IsI32 (pos n) = ground arith
to_i32-IsI32 (negsuc n) = ground arith

pub to_i32_self : (z : ℤ) → IsI32 z → to_i32 z ≡ z
to_i32_self (pos n) h = ground arith
to_i32_self (negsuc n) h = ground arith

infix 50 ◌==ℤ◌
abbrev pub ◌==ℤ◌ : ℤ → ℤ → Bool
pos m ==ℤ pos n = m == n
pos m ==ℤ negsuc n = false
negsuc m ==ℤ pos n = false
negsuc m ==ℤ negsuc n = m == n

pub ==ℤ→eq : (a b : ℤ) → (a ==ℤ b) ≡ true → a ≡ b
==ℤ→eq (pos m) (pos n) h = ground arith
==ℤ→eq (pos m) (negsuc n) h = cc
==ℤ→eq (negsuc m) (pos n) h = cc
==ℤ→eq (negsuc m) (negsuc n) h = ground arith
