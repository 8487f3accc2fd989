-- ===== src/Common/Strtol.antt =====
-- strtol of <stdlib.h> where `long` has 64 bits, and atoi as `(int) strtol(s, NULL, 10)`.
use wallyd.Common.Tests.{ltb, leb, ◌==◌, if◌then◌else◌}
use wallyd.Common.Lists.{All}
use wallyd.Common.Int.{ℤ, pos, negsuc, neg, to_int}
use wallyd.Common.Str.{Bytes}
use Prim.Native.Nat.{ℕ, ◌+◌, ◌-◌, ◌*◌, ◌≤◌, ◌<◌}
use mathlib.Core.Path.{◌≡◌, refl}
use mathlib.Core.Bool.{Bool, true, false, ◌&&◌, ◌||◌}
use mathlib.Core.List.{[], ◌∷◌, ◌++◌}
use native.Mathlib.Omega.{arith}

-- The value of a digit; what is no digit in any base has 36.
abbrev pub digit : ℕ → ℕ
digit c =
    if leb b'0' c && leb c b'9'
    then c - b'0'
    else if leb b'a' c && leb c b'z'
    then c - b'a' + 10
    else if leb b'A' c && leb c b'Z'
    then c - b'A' + 10
    else 36

-- The number that the digits at the front spell, behind those that were read.
unfoldable pub digits_value : ℕ → ℕ → Bytes → ℕ
digits_value base n [] = n
digits_value base n (c ∷ s) = elim (ltb (digit c) base) [
  | true ↦ digits_value base (n * base + digit c) s
  | false ↦ n
]

abbrev pub is_space : ℕ → Bool
is_space c = c == 32 || (leb 9 c && leb c 13)

-- An optional 0x, which base 16 allows where a digit follows it.
abbrev pub skip_prefix : ℕ → Bytes → Bytes
skip_prefix base (z ∷ x ∷ d ∷ s) =
    if base == 16 && (z == b'0') && (x == b'x' || x == b'X') && ltb (digit d) 16
    then d ∷ s
    else z ∷ x ∷ d ∷ s
skip_prefix base s = s

abbrev pub long_max : ℕ
long_max = 9223372036854775807

-- The value, and whether `errno` is set to ERANGE.
abbrev pub signed_value : Bool → ℕ → ℤ × Bool
signed_value minus n =
    if minus
    then (if ltb (long_max + 1) n then (negsuc long_max, true) else (neg n, false))
    else (if ltb long_max n then (pos long_max, true) else (pos n, false))

abbrev pub magnitude : ℕ → Bytes → ℕ
magnitude base s = digits_value base 0 (skip_prefix base s)

unfoldable pub strtol : Bytes → ℕ → ℤ × Bool
strtol [] base = (pos 0, false)
strtol (c ∷ s) base = elim (is_space c) [
  | true ↦ strtol s base
  | false ↦
      if c == b'-'
      then signed_value true (magnitude base s)
      else if c == b'+'
      then signed_value false (magnitude base s)
      else signed_value false (magnitude base (c ∷ s))
]

unfoldable pub atoi : Bytes → ℤ
unfolding strtol
atoi s = to_int (strtol s 10).0

-- A digit of a base up to 36.
abbrev pub IsDigit : ℕ → ℕ → Type 0
IsDigit base c = digit c < base

-- What a text of digits stands for, in the usual notation.
abbrev pub numeral : ℕ → ℕ → Bytes → ℕ
numeral base n [] = n
numeral base n (c ∷ s) = numeral base (n * base + digit c) s

pub digits_value-append :
    (base n : ℕ) (ds rest : Bytes)
    → All (IsDigit base) ds
    → digits_value base n (ds ++ rest) ≡ digits_value base (numeral base n ds) rest
unfolding digits_value
digits_value-append base n [] rest h = refl
digits_value-append base n (d ∷ ds) rest (hd, h) =
    ground (arith, digits_value-append base (n * base + digit d) ds rest h)

pub digits_value-numeral :
    (base n : ℕ) (ds : Bytes) → All (IsDigit base) ds → digits_value base n ds ≡ numeral base n ds
unfolding digits_value
digits_value-numeral base n [] h = refl
digits_value-numeral base n (d ∷ ds) (hd, h) =
    ground (arith, digits_value-numeral base (n * base + digit d) ds h)

-- Decimal digits with no sign.
pub strtol_decimal :
    (d : ℕ) (ds : Bytes)
    → All (IsDigit 10) (d ∷ ds)
    → numeral 10 0 (d ∷ ds) ≤ long_max
    → strtol (d ∷ ds) 10 ≡ (pos (numeral 10 0 (d ∷ ds)), false)
unfolding strtol
strtol_decimal d [] h fits = ground (arith, digits_value-numeral 10 0 (d ∷ []) h)
strtol_decimal d (e ∷ []) h fits = ground (arith, digits_value-numeral 10 0 (d ∷ e ∷ []) h)
strtol_decimal d (e ∷ f ∷ ds) h fits = ground (arith, digits_value-numeral 10 0 (d ∷ e ∷ f ∷ ds) h)

pub strtol_minus :
    (d : ℕ) (ds : Bytes)
    → All (IsDigit 10) (d ∷ ds)
    → numeral 10 0 (d ∷ ds) ≤ long_max
    → strtol (b'-' ∷ d ∷ ds) 10 ≡ (neg (numeral 10 0 (d ∷ ds)), false)
unfolding strtol
strtol_minus d [] h fits = ground (arith, digits_value-numeral 10 0 (d ∷ []) h)
strtol_minus d (e ∷ []) h fits = ground (arith, digits_value-numeral 10 0 (d ∷ e ∷ []) h)
strtol_minus d (e ∷ f ∷ ds) h fits = ground (arith, digits_value-numeral 10 0 (d ∷ e ∷ f ∷ ds) h)
