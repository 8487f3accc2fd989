-- ===== src/Number/Laws.antt =====
-- lib/util.c: what `getNumOrPercentEx` accepts, and what it stores.
use wallyd.Common.{
  ℕ, zero, suc, ◌*◌, ◌/◌, ◌≤◌, ◌<◌, ◌≡◌, refl, ap, ◌≢◌, Bool, true, false, Option, none, some, [],
  ◌∷◌, ◌++◌, arith, ◌==◌, All, out_of_bounds, done, fault, ◌>>=◌,
}
use wallyd.Common.Str.{Bytes}
use wallyd.Common.Int.{
  ℤ, pos, negsuc, sub_ℕ, neg, ◌*ℤ◌, div_trunc, int_max, IsInt, checked, to_int, to_int-IsInt,
  to_int_self,
}
use wallyd.Common.Strtol.{strtol, IsDigit, numeral, strtol_decimal, strtol_minus}
use wallyd.Number.{
  by_last, split_last, read_int, plain, percent, get_num_or_percent_ex, get_num_or_percent,
}

pub split_last-append : (s : Bytes) (c : ℕ) → split_last (s ++ c ∷ []) ≡ some (s, c)
split_last-append [] c = refl
split_last-append (a ∷ []) c = refl
split_last-append (a ∷ b ∷ s) c = rw (split_last-append (b ∷ s) c)

pub split_last_cons : (c : ℕ) (s : Bytes) → (r : Bytes × ℕ) × (split_last (c ∷ s) ≡ some r)
split_last_cons c [] = (([], c), refl)
split_last_cons c (d ∷ s) = let ((t, e), h) = split_last_cons d s in ((c ∷ t, e), rw h)

read_int-IsInt : (s : Bytes) (base : ℕ) (x : ℤ) → read_int s base ≡ some x → IsInt x
unfolding read_int
read_int-IsInt s base x h = ground (arith, to_int-IsInt (strtol s base).0)

plain-IsInt :
    (r : Option ℤ) (relative_to v : ℤ)
    → ((x : ℤ) → r ≡ some x → IsInt x)
    → plain r relative_to ≡ done (some v)
    → IsInt v
unfolding plain
plain-IsInt none relative_to v i h = cc
plain-IsInt (some x) relative_to v i h = ground (arith, i x refl)

scaled-IsInt :
    (a v : ℤ) → (checked a >>= λ w. done (some (div_trunc w 100))) ≡ done (some v) → IsInt v
scaled-IsInt (pos n) v h = ground arith
scaled-IsInt (negsuc n) v h = ground arith

percent-IsInt : (r : Option ℤ) (relative_to v : ℤ) → percent r relative_to ≡ done (some v) → IsInt v
unfolding percent
percent-IsInt none relative_to v h = cc
percent-IsInt (some x) relative_to v h = scaled-IsInt (relative_to *ℤ x) v h

-- Whatever `getNumOrPercentEx` stores is a value of `int`.
pub get_num_or_percent_ex-IsInt :
    (s : Option Bytes) (relative_to : ℤ) (base : ℕ) (v : ℤ)
    → get_num_or_percent_ex s relative_to base ≡ done (some v)
    → IsInt v
unfolding get_num_or_percent_ex
get_num_or_percent_ex-IsInt none relative_to base v h = cc
get_num_or_percent_ex-IsInt (some s) relative_to base v h = go (split_last s) h
  where
    go : (l : Option (Bytes × ℕ)) → by_last l s relative_to base ≡ done (some v) → IsInt v
    go none k = cc
    go (some (t, c)) k = grind (
      arith,
      percent-IsInt (read_int t 10) relative_to v,
      plain-IsInt (read_int s base) relative_to v (read_int-IsInt s base),
    )

plain_zero :
    (r : Option ℤ) → ((x : ℤ) → r ≡ some x → IsInt x) → (o : Option ℤ) × (plain r (pos 0) ≡ done o)
unfolding plain
plain_zero none i = (none, refl)
plain_zero (some x) i = (some x, ground (arith, i x refl))

percent_zero : (r : Option ℤ) → (o : Option ℤ) × (percent r (pos 0) ≡ done o)
unfolding percent
percent_zero none = (none, refl)
percent_zero (some (pos n)) = (some (pos 0), let e : 0 * n ≡ 0 = omega arith in rw e)
percent_zero (some (negsuc n)) = (some (pos 0), let e : 0 * suc n ≡ 0 = omega arith in rw e)

-- With the base 0, as `getNum` and `getNumHex` pass it, every text but the empty one is read without
-- a fault, and the empty one always makes the code read the byte before the text.
pub get_num_or_percent_ex_zero :
    (s : Bytes) (base : ℕ)
    → (s ≢ [] → (r : Option ℤ) × (get_num_or_percent_ex (some s) (pos 0) base ≡ done r))
      × (s ≡ [] → get_num_or_percent_ex (some s) (pos 0) base ≡ fault out_of_bounds)
unfolding get_num_or_percent_ex
get_num_or_percent_ex_zero [] base = (λ h. absurd (h refl), λ h. refl)
get_num_or_percent_ex_zero (c ∷ s) base =
    let (r, e) = split_last_cons c s in (λ h. go r e (r.1 == b'%') refl, λ h. cc)
  where
    go :
        (r : Bytes × ℕ)
        → split_last (c ∷ s) ≡ some r
        → (b : Bool) → (r.1 == b'%') ≡ b
        → (o : Option ℤ) × (get_num_or_percent_ex (some (c ∷ s)) (pos 0) base ≡ done o)
    go r e true k = let (o, h) = percent_zero (read_int r.0 10) in (o, ground (arith, e, h))
    go r e false k =
        let (o, h) = plain_zero (read_int (c ∷ s) base) (read_int-IsInt (c ∷ s) base) in
        (o, ground (arith, e, h))

read_int_decimal :
    (d : ℕ) (ds : Bytes)
    → All (IsDigit 10) (d ∷ ds)
    → numeral 10 0 (d ∷ ds) ≤ int_max
    → (read_int (d ∷ ds) 10 ≡ some (pos (numeral 10 0 (d ∷ ds))))
      × (read_int (b'-' ∷ d ∷ ds) 10 ≡ some (neg (numeral 10 0 (d ∷ ds))))
unfolding read_int
read_int_decimal d ds h fits = (
  rw (strtol_decimal d ds h (omega arith)) (small (numeral 10 0 (d ∷ ds)) fits),
  rw (strtol_minus d ds h (omega arith)) (small_neg (numeral 10 0 (d ∷ ds)) fits),
)
  where
    small : (n : ℕ) → n ≤ int_max → some (to_int (pos n)) ≡ some (pos n)
    small n h = ap {B = Option ℤ} some (to_int_self (pos n) (omega arith))

    small_neg : (n : ℕ) → n ≤ int_max → some (to_int (neg n)) ≡ some (neg n)
    small_neg zero h = refl
    small_neg (suc n) h = ap {B = Option ℤ} some (to_int_self (negsuc n) (omega arith))

-- The last byte of a text of digits is a digit.
last_digit :
    (s : Bytes) (r : Bytes × ℕ) → All (IsDigit 10) s → split_last s ≡ some r → (r.1 == b'%') ≡ false
last_digit s r h e = not_percent r.1 (digit_of s r h e)
  where
    digit_of :
        (s : Bytes) (r : Bytes × ℕ) → All (IsDigit 10) s → split_last s ≡ some r → IsDigit 10 r.1
    digit_of [] r h e = cc
    digit_of (c ∷ []) r h e = ground arith
    digit_of (c ∷ d ∷ s) r (hc, h) e =
        let (q, k) = split_last_cons d s in let ih = digit_of (d ∷ s) q h k in ground (arith, ih, k)

    not_percent : (c : ℕ) → IsDigit 10 c → (c == b'%') ≡ false
    not_percent c h = ground arith

-- The decimal notation of a number that is not 0, and the same with a minus sign, and followed
-- by a percent sign: the number itself, the base less the number, and that many hundredths of
-- the base, rounded towards zero, where the numbers and their product fit an `int`.
pub get_num_or_percent_decimal :
    (d : ℕ) (ds : Bytes) (width : ℕ)
    → let n = numeral 10 0 (d ∷ ds) in
      All (IsDigit 10) (d ∷ ds)
      → width * n ≤ int_max
      → width ≤ int_max
      → n ≤ int_max
      → 0 < n
      → (get_num_or_percent (some (d ∷ ds)) (pos width) ≡ done (some (pos n)))
        × (get_num_or_percent (some (b'-' ∷ d ∷ ds)) (pos width) ≡ done (some (sub_ℕ width n)))
        × (get_num_or_percent (some ((d ∷ ds) ++ b'%' ∷ [])) (pos width)
            ≡ done (some (pos (width * n / 100))))
unfolding get_num_or_percent_ex plain percent
get_num_or_percent_decimal d ds width digits fits w n p =
    let (r, e) = split_last_cons d ds in
    let (plus, minus) = read_int_decimal d ds digits n in
    let c = last_digit (d ∷ ds) r digits e in
    (
      ground (arith, e, c, plus),
      ground (arith, e, c, minus),
      rw (split_last-append (d ∷ ds) b'%') (rw plus (ground arith)),
    )
