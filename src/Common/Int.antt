-- ===== src/Common/Int.antt =====
-- C's signed integers, over the native numbers.
use wallyd.Common.Tests.{leb, if◌then◌else◌}
use wallyd.Common.Partial.{overflow, Outcome, done, fault}
use Prim.Native.Nat.{ℕ, zero, suc, ◌+◌, ◌-◌, ◌*◌, ◌/◌, ◌%◌, ◌≤◌}
use mathlib.Core.Path.{◌≡◌}
use mathlib.Core.Bool.{Bool, true}
use native.Mathlib.Omega.{arith}

-- `negsuc n` is -(n + 1).
pub data ℤ : Type 0 where
  pos : ℕ → ℤ
  negsuc : ℕ → ℤ

abbrev pub pos_part : ℤ → ℕ
pos_part (pos n) = n
pos_part (negsuc n) = 0

abbrev pub neg_part : ℤ → ℕ
neg_part (pos n) = 0
neg_part (negsuc n) = suc n

-- a - b, as an integer.
abbrev pub sub_ℕ : ℕ → ℕ → ℤ
sub_ℕ a b = if leb b a then pos (a - b) else negsuc (b - a - 1)

abbrev pub neg : ℕ → ℤ
neg zero = pos zero
neg (suc n) = negsuc n

infixl 65 ◌+ℤ◌ ◌-ℤ◌
infixl 70 ◌*ℤ◌
abbrev pub ◌+ℤ◌ : ℤ → ℤ → ℤ
a +ℤ b = sub_ℕ (pos_part a + pos_part b) (neg_part a + neg_part b)

abbrev pub ◌-ℤ◌ : ℤ → ℤ → ℤ
a -ℤ b = sub_ℕ (pos_part a + neg_part b) (neg_part a + pos_part b)

abbrev pub ◌*ℤ◌ : ℤ → ℤ → ℤ
pos a *ℤ pos b = pos (a * b)
pos a *ℤ negsuc b = neg (a * suc b)
negsuc a *ℤ pos b = neg (suc a * b)
negsuc a *ℤ negsuc b = pos (suc a * suc b)

-- C's division by a positive number truncates towards zero.
abbrev pub div_trunc : ℤ → ℕ → ℤ
div_trunc (pos a) d = pos (a / d)
div_trunc (negsuc a) d = neg (suc a / d)

abbrev pub int_max : ℕ
int_max = 2147483647

-- The values of `int`, which has 32 bits.
abbrev pub IsInt : ℤ → Type 0
IsInt a = (pos_part a ≤ int_max) × (neg_part a ≤ int_max + 1)

abbrev pub is_int : ℤ → Bool
is_int (pos n) = leb n int_max
is_int (negsuc n) = leb n int_max

-- A result that is no `int` is undefined.
abbrev pub checked : ℤ → Outcome ℤ
checked n = if is_int n then done n else fault overflow

-- The conversion `(int)` of a wider value keeps its low 32 bits.
abbrev pub of_word : ℕ → ℤ
of_word w = if leb w int_max then pos w else negsuc (4294967295 - w)

abbrev pub to_int : ℤ → ℤ
to_int (pos n) = of_word (n % 4294967296)
to_int (negsuc n) = of_word (4294967295 - n % 4294967296)

pub to_int-IsInt : (a : ℤ) → IsInt (to_int a)
to_int-IsInt a = ground arith

-- A value of `int` is not changed by the conversion.
pub to_int_self : (a : ℤ) → IsInt a → to_int a ≡ a
to_int_self a h = ground arith

pub is_int-IsInt : (a : ℤ) → is_int a ≡ true → IsInt a
is_int-IsInt a h = ground arith

pub IsInt-is_int : (a : ℤ) → IsInt a → is_int a ≡ true
IsInt-is_int a h = ground arith

pub checked_add : (a b : ℕ) → a + b ≤ int_max → checked (pos a +ℤ pos b) ≡ done (pos (a + b))
checked_add a b h = ground arith

pub checked_sub : (a b : ℕ) → b ≤ a → a ≤ int_max → checked (pos a -ℤ pos b) ≡ done (pos (a - b))
checked_sub a b h k = ground arith
