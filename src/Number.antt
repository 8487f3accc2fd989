-- ===== src/Number.antt =====
-- lib/util.c: `getNumOrPercentEx`, which reads a number or a percentage. The last byte of the text is
-- replaced by a zero while a percentage is read and put back behind it, so the text is not changed.
-- `none` as a result is `false`: then `*value` is not written.
pub mod Laws
use wallyd.Common.{
  ℕ, Bool, true, false, Option, none, some, [], ◌∷◌, ◌==◌, if◌then◌else◌, out_of_bounds, Outcome,
  done, fault, ◌>>=◌,
}
use wallyd.Common.Str.{Bytes}
use wallyd.Common.Int.{ℤ, pos, negsuc, ◌+ℤ◌, ◌*ℤ◌, div_trunc, checked, to_int}
use wallyd.Common.Strtol.{strtol}

-- The text without its last byte, and that byte.
abbrev pub split_last : Bytes → Option (Bytes × ℕ)
split_last [] = none
split_last (c ∷ []) = some ([], c)
split_last (c ∷ d ∷ s) = elim (split_last (d ∷ s)) [ none ↦ none | some (t, e) ↦ some (c ∷ t, e) ]

abbrev pub is_negative : ℤ → Bool
is_negative (pos n) = false
is_negative (negsuc n) = true

-- strtol(str, NULL, base) converted to an `int`, unless `errno` is set.
unfoldable pub read_int : Bytes → ℕ → Option ℤ
read_int s base = let r = strtol s base in if r.1 then none else some (to_int r.0)

-- What is stored for a number that was read; a negative one is subtracted from the base.
unfoldable pub plain : Option ℤ → ℤ → Outcome (Option ℤ)
plain none relative_to = done none
plain (some x) relative_to =
    if is_negative x then checked (relative_to +ℤ x) >>= (λ v. done (some v)) else done (some x)

unfoldable pub percent : Option ℤ → ℤ → Outcome (Option ℤ)
percent none relative_to = done none
percent (some x) relative_to = checked (relative_to *ℤ x) >>= λ v. done (some (div_trunc v 100))

-- The last byte chooses. An empty text has none: what is read is the byte before the text.
unfoldable pub by_last : Option (Bytes × ℕ) → Bytes → ℤ → ℕ → Outcome (Option ℤ)
by_last none s relative_to base = fault out_of_bounds
by_last (some (t, c)) s relative_to base =
    if c == b'%' then percent (read_int t 10) relative_to else plain (read_int s base) relative_to

unfoldable pub get_num_or_percent_ex : Option Bytes → ℤ → ℕ → Outcome (Option ℤ)
unfolding by_last
get_num_or_percent_ex none relative_to base = done none
get_num_or_percent_ex (some s) relative_to base = by_last (split_last s) s relative_to base

abbrev pub get_num_or_percent : Option Bytes → ℤ → Outcome (Option ℤ)
get_num_or_percent s relative_to = get_num_or_percent_ex s relative_to 10

abbrev pub get_num_hex : Option Bytes → Outcome (Option ℤ)
get_num_hex s = get_num_or_percent_ex s (pos 0) 16

abbrev pub get_num : Option Bytes → Outcome (Option ℤ)
get_num s = get_num_or_percent_ex s (pos 0) 10
