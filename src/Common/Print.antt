-- ===== src/Common/Print.antt =====
-- The conversions %d and %x of printf for an `int`, and strtol and atoi of what they print.
use wallyd.Common.Tests.{ltb, ◌==◌, if◌then◌else◌, Bool-cases}
use wallyd.Common.Lists.{All}
use wallyd.Common.Int.{ℤ, pos, negsuc, neg, to_int, to_int_self, IsInt}
use wallyd.Common.Str.{Bytes}
use wallyd.Common.Strtol.{
  digit, is_space, digits_value, magnitude, skip_prefix, signed_value, long_max, strtol, atoi,
  IsDigit, numeral, digits_value-numeral, strtol_decimal, strtol_minus,
}
use Prim.Native.Nat.{ℕ, zero, suc, ◌+◌, ◌-◌, ◌*◌, ◌/◌, ◌%◌, ◌≤◌, ◌<◌}
use mathlib.Core.Path.{◌≡◌, refl, ap, sym, ◌∙◌}
use mathlib.Core.Logic.{inl, inr}
use mathlib.Core.Bool.{Bool, true, false, ◌||◌, ◌&&◌}
use mathlib.Core.List.{[], ◌∷◌}
use native.Mathlib.Omega.{arith}
use native.Mathlib.Nat.{div-add-mod, mod-lt, mul_comm, mul-le-mul_left}

-- The digit of a value below 16.
abbrev pub glyph : ℕ → ℕ
glyph n = if ltb n 10 then b'0' + n else b'a' + (n - 10)

-- The digits of `n`, in front of those that were printed; `n` rounds are more than enough.
unfoldable pub print_digits : ℕ → ℕ → ℕ → Bytes → Bytes
print_digits base zero n acc = acc
print_digits base (suc k) n acc = elim (ltb n base) [
  | true ↦ glyph n ∷ acc
  | false ↦ print_digits base k (n / base) (glyph (n % base) ∷ acc)
]

abbrev pub print_nat : ℕ → ℕ → Bytes
print_nat base n = print_digits base (n + 1) n []

-- %d
abbrev pub print_int : ℤ → Bytes
print_int (pos n) = print_nat 10 n
print_int (negsuc n) = b'-' ∷ print_nat 10 (suc n)

-- The low 32 bits of an `int`.
abbrev pub low_word : ℤ → ℕ
low_word (pos n) = n % 4294967296
low_word (negsuc n) = 4294967295 - n % 4294967296

-- %x
abbrev pub print_hex : ℤ → Bytes
print_hex a = print_nat 16 (low_word a)

digit-glyph : (n : ℕ) → n < 16 → digit (glyph n) ≡ n
digit-glyph n h = ground arith

division :
    (base n : ℕ)
    → 2 ≤ base
    → (n / base * base + n % base ≡ n) × (n % base < base) × (n / base + n / base ≤ n)
division base n two =
    let whole : n / base * base + n % base ≡ n =
      omega (arith, div-add-mod n base, mul_comm base (n / base)) in
    let rest : n % base < base = mod-lt n (omega arith) in
    let half : n / base * 2 ≤ n / base * base = mul-le-mul_left (n / base) two in
    (whole, rest, omega arith)

print_digits_small :
    (base k n : ℕ) (acc : Bytes)
    → ltb n base ≡ true
    → print_digits base (suc k) n acc ≡ glyph n ∷ acc
unfolding print_digits
print_digits_small base k n acc small = ground arith

print_digits_large :
    (base k n : ℕ) (acc : Bytes)
    → ltb n base ≡ false
    → print_digits base (suc k) n acc ≡ print_digits base k (n / base) (glyph (n % base) ∷ acc)
unfolding print_digits
print_digits_large base k n acc large = ground arith

module _ (base : ℕ) (two : 2 ≤ base) (sixteen : base ≤ 16) where
  numeral-print_digits :
      (k n : ℕ) (acc : Bytes)
      → n < k
      → numeral base 0 (print_digits base k n acc) ≡ numeral base n acc
  numeral-print_digits zero n acc h = absurd (omega arith)
  numeral-print_digits (suc k) n acc h = elim (Bool-cases (ltb n base)) [
    | inl small ↦
        ap (numeral base 0) (print_digits_small base k n acc small)
        ∙ ap (λ m. numeral base m acc) (omega (arith, digit-glyph n (ground arith)))
    | inr large ↦
        let (whole, rest, half) = division base n two in
        ap (numeral base 0) (print_digits_large base k n acc large)
        ∙ numeral-print_digits k (n / base) (glyph (n % base) ∷ acc) (ground arith)
        ∙ ap (λ m. numeral base m acc) (omega (arith, digit-glyph (n % base) (omega arith)))
  ]

  -- What is printed has a first digit.
  print_digits-cons :
      (k n : ℕ) (acc : Bytes)
      → n < k
      → All (IsDigit base) acc
      → (d : ℕ) × (ds : Bytes) × (print_digits base k n acc ≡ d ∷ ds) × All (IsDigit base) (d ∷ ds)
  print_digits-cons zero n acc h all = absurd (omega arith)
  print_digits-cons (suc k) n acc h all = elim (Bool-cases (ltb n base)) [
    | inl small ↦ (
      glyph n,
      acc,
      print_digits_small base k n acc small,
      (ground (arith, digit-glyph n (ground arith)), all),
    )
    | inr large ↦
        let (whole, rest, half) = division base n two in
        let (d, ds, e, digits) =
          print_digits-cons k (n / base) (glyph (n % base) ∷ acc) (ground arith)
            (omega (arith, digit-glyph (n % base) (omega arith)), all) in
        (d, ds, print_digits_large base k n acc large ∙ e, digits)
  ]

  pub print_nat-cons :
      (n : ℕ)
      → (d : ℕ) × (ds : Bytes) × (print_nat base n ≡ d ∷ ds)
        × All (IsDigit base) (d ∷ ds)
        × (numeral base 0 (d ∷ ds) ≡ n)
  print_nat-cons n =
      let (d, ds, e, digits) = print_digits-cons (n + 1) n [] (omega arith) tt in
      (
        d,
        ds,
        e,
        digits,
        sym (ap (numeral base 0) e) ∙ numeral-print_digits (n + 1) n [] (omega arith),
      )

-- What is printed with %d is read back.
pub atoi-print_int : (a : ℤ) → IsInt a → atoi (print_int a) ≡ a
unfolding atoi
atoi-print_int (pos n) (p, q) =
    let (d, ds, e, digits, v) = print_nat-cons 10 (omega arith) (omega arith) n in
    ap (λ s. to_int (strtol s 10).0) e
    ∙ ap (λ r. to_int r.0) (strtol_decimal d ds digits (omega (arith, v)))
    ∙ ap (λ m. to_int (pos m)) v
    ∙ to_int_self (pos n) (p, q)
atoi-print_int (negsuc n) (p, q) =
    let (d, ds, e, digits, v) = print_nat-cons 10 (omega arith) (omega arith) (suc n) in
    ap (λ s. to_int (strtol (b'-' ∷ s) 10).0) e
    ∙ ap (λ r. to_int r.0) (strtol_minus d ds digits (omega (arith, v)))
    ∙ ap (λ m. to_int (neg m)) v
    ∙ to_int_self (negsuc n) (p, q)

no_sign :
    (d : ℕ) → digit d < 16 → (is_space d ≡ false) × ((d == b'-') ≡ false) × ((d == b'+') ≡ false)
no_sign d h = (ground arith, ground arith, ground arith)

no_x : (d : ℕ) → digit d < 16 → (d == b'x' || d == b'X') ≡ false
no_x d h = ground arith

left_out : (b c : Bool) (s t : Bytes) → (if b && false && c then s else t) ≡ t
left_out true c s t = refl
left_out false c s t = refl

prefix_without_x :
    (d e f : ℕ) (ds : Bytes)
    → (e == b'x' || e == b'X') ≡ false
    → skip_prefix 16 (d ∷ e ∷ f ∷ ds) ≡ d ∷ e ∷ f ∷ ds
prefix_without_x d e f ds h =
    rw h (left_out (d == b'0') (ltb (digit f) 16) (f ∷ ds) (d ∷ e ∷ f ∷ ds))

in_range : (n : ℕ) → n ≤ long_max → signed_value false n ≡ (pos n, false)
in_range n h = ground arith

no_prefix : (ds : Bytes) → All (IsDigit 16) ds → skip_prefix 16 ds ≡ ds
no_prefix [] h = refl
no_prefix (d ∷ []) h = refl
no_prefix (d ∷ e ∷ []) h = refl
no_prefix (d ∷ e ∷ f ∷ ds) (hd, (he, h)) = prefix_without_x d e f ds (no_x e he)

strtol_unsigned :
    (d : ℕ) (ds : Bytes)
    → digit d < 16
    → strtol (d ∷ ds) 16 ≡ signed_value false (magnitude 16 (d ∷ ds))
unfolding strtol
strtol_unsigned d ds h = let (a, b, c) = no_sign d h in ground (arith, a, b, c)

-- Hexadecimal digits with no sign and no prefix.
strtol_hex :
    (d : ℕ) (ds : Bytes)
    → All (IsDigit 16) (d ∷ ds)
    → numeral 16 0 (d ∷ ds) ≤ long_max
    → strtol (d ∷ ds) 16 ≡ (pos (numeral 16 0 (d ∷ ds)), false)
strtol_hex d ds (hd, h) fits =
    strtol_unsigned d ds hd
    ∙ ap (λ t. signed_value false (digits_value 16 0 t)) (no_prefix (d ∷ ds) (hd, h))
    ∙ ap (signed_value false) (digits_value-numeral 16 0 (d ∷ ds) (hd, h))
    ∙ in_range (numeral 16 0 (d ∷ ds)) fits

low_word_fits : (a : ℤ) → low_word a < 4294967296
low_word_fits a = ground arith

-- What is printed with %x is read back as the low 32 bits.
pub strtol-print_hex : (a : ℤ) → (strtol (print_hex a) 16).0 ≡ pos (low_word a)
strtol-print_hex a =
    let (d, ds, e, digits, v) = print_nat-cons 16 (omega arith) (omega arith) (low_word a) in
    let small = low_word_fits a in
    ap (λ s. (strtol s 16).0) e
    ∙ ap (λ r. r.0) (strtol_hex d ds digits (omega (arith, v)))
    ∙ ap pos v
