-- ===== src/Base/Int.antt =====
-- Signed integers over the native numbers, and the values of the C type int.
use Prim.Native.Nat.{ℕ, zero, suc, ◌+◌, ◌-◌}
use mathlib.Core.Bool.{Bool, true, false}
use ucli.Base.Tests.{ltb, leb, if◌then◌else◌}

-- `negsuc n` is -(n + 1).
pub data ℤ : Type 0 where
  pos : ℕ → ℤ
  negsuc : ℕ → ℤ

abbrev pos_part : ℤ → ℕ
pos_part (pos n) = n
pos_part (negsuc n) = 0

abbrev neg_part : ℤ → ℕ
neg_part (pos n) = 0
neg_part (negsuc n) = suc n

-- a - b, as an integer.
abbrev pub sub_ℕ : ℕ → ℕ → ℤ
sub_ℕ a b = if leb b a then pos (a - b) else negsuc (b - a - 1)

abbrev pub ltb_ℤ : ℤ → ℤ → Bool
ltb_ℤ a b = ltb (pos_part a + neg_part b) (pos_part b + neg_part a)

-- The outcome of a comparison function, by the sign of its int.
pub data Sign : Type 0 where
  neg nil plus : Sign

abbrev pub sign : ℤ → Sign
sign (pos zero) = nil
sign (pos (suc n)) = plus
sign (negsuc n) = neg

-- The opposite sign.
abbrev pub flip : Sign → Sign
flip neg = plus
flip nil = nil
flip plus = neg

abbrev pub is_zero : ℤ → Bool
is_zero (pos zero) = true
is_zero _ = false
