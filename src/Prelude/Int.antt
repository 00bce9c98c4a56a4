-- ===== src/Prelude/Int.antt =====
-- The value of an int: `negsuc n` stands for -(n + 1).
use Prim.Native.Nat.{ℕ, zero, suc, ◌+◌, ◌-◌, ◌*◌, ◌/◌, ◌^◌}
use kunlun.Prelude.Tests.{leb, ltb, if◌then◌else◌}
use native.Mathlib.Omega.{arith}
use kunlun.Prelude.Run.{Run, ret, fault, div_by_zero, Ends}
use mathlib.Core.Bool.{Bool, true, false}

pub data ℤ : Type 0 where
  pos : ℕ → ℤ
  negsuc : ℕ → ℤ

-- The int of a 32-bit pattern.
abbrev pub to_int : ℕ → ℤ
to_int w = if ltb w (2 ^ 31) then pos w else negsuc (2 ^ 32 - w - 1)

-- The number a - b, and the number -a.
abbrev pub sub_ℕ : ℕ → ℕ → ℤ
sub_ℕ a b = if leb b a then pos (a - b) else negsuc (b - a - 1)

abbrev pub neg_ℕ : ℕ → ℤ
neg_ℕ zero = pos 0
neg_ℕ (suc n) = negsuc n

infixl 65 ◌+ℤ◌ ◌-ℤ◌
infixl 70 ◌*ℤ◌
abbrev pub ◌+ℤ◌ : ℤ → ℤ → ℤ
pos a +ℤ pos b = pos (a + b)
pos a +ℤ negsuc b = sub_ℕ a (b + 1)
negsuc a +ℤ pos b = sub_ℕ b (a + 1)
negsuc a +ℤ negsuc b = negsuc (a + b + 1)

abbrev pub ◌*ℤ◌ : ℤ → ℤ → ℤ
pos a *ℤ pos b = pos (a * b)
pos a *ℤ negsuc b = neg_ℕ (a * (b + 1))
negsuc a *ℤ pos b = neg_ℕ ((a + 1) * b)
negsuc a *ℤ negsuc b = pos ((a + 1) * (b + 1))

abbrev pub ◌-ℤ◌ : ℤ → ℤ → ℤ
a -ℤ pos b = a +ℤ neg_ℕ b
a -ℤ negsuc b = a +ℤ pos (b + 1)

-- Division of a natural number by an int, towards zero.
pub div_int : ℕ → ℤ → Run ℤ
div_int a (pos zero) = fault div_by_zero
div_int a (pos (suc b)) = ret (pos (a / suc b))
div_int a (negsuc b) = ret (neg_ℕ (a / (b + 1)))

pub is_positive : ℤ → Bool
is_positive (pos zero) = false
is_positive (pos (suc n)) = true
is_positive (negsuc n) = false

pub div_int-Ends : (a : ℕ) (z : ℤ) → Ends (div_int a z)
unfolding div_int
div_int-Ends a (pos zero) e = ground arith
div_int-Ends a (pos (suc b)) e = ground arith
div_int-Ends a (negsuc b) e = ground arith
