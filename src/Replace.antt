-- ===== src/Replace.antt =====
-- lib/util.c: `replace`, which copies a text with every occurrence of another one replaced. `alloc`
-- says whether `malloc` and `realloc` have room for a size; `out` is what was written to the buffer of
-- `size` bytes. The loop has as many rounds as `rounds` allows, and none is one more.
pub mod Spec
use wallyd.Common.{
  ℕ, zero, suc, ◌+◌, ◌-◌, Bool, true, false, Option, none, some, [], ◌∷◌, ◌++◌, leb, ◌==◌,
  if◌then◌else◌, length, null_pointer, out_of_bounds, Outcome, done, fault,
}
use wallyd.Common.Str.{Bytes}

-- What follows a text at the front of another.
abbrev pub strip : Bytes → Bytes → Option Bytes
strip [] s = some s
strip (c ∷ from) [] = none
strip (c ∷ from) (d ∷ s) = if c == d then strip from s else none

-- strstr(src, from): what stands before the first occurrence, and behind it.
abbrev pub find : Bytes → Bytes → Option (Bytes × Bytes)
find from [] = elim (strip from []) [ none ↦ none | some r ↦ some ([], r) ]
find from (c ∷ s) = elim (strip from (c ∷ s)) [
  | some r ↦ some ([], r)
  | none ↦ elim (find from s) [ none ↦ none | some (p, r) ↦ some (c ∷ p, r) ]
]

module _ (alloc : ℕ → Bool) (from to : Bytes) where
  unfoldable pub replace_loop : ℕ → Bytes → ℕ → Bytes → Option (Outcome (Option Bytes))
  replace_loop zero src size out = none
  replace_loop (suc rounds) src size out = elim (find from src) [
    | none ↦ some (
        if leb (length out + length src + 1) size
        then done (some (out ++ src))
        else fault out_of_bounds)
    | some (p, rest) ↦ elim (alloc (size + length to - length from)) [
      | false ↦ some (done none)
      | true ↦ elim (leb (length out + length p + length to) (size + length to - length from)) [
        | false ↦ some (fault out_of_bounds)
        | true ↦ replace_loop rounds rest (size + length to - length from) (out ++ p ++ to)
      ]
    ]
  ]

unfoldable pub replace :
    (ℕ → Bool) → ℕ → Option Bytes → Option Bytes → Option Bytes → Option (Outcome (Option Bytes))
replace alloc rounds none from to = some (done none)
replace alloc rounds (some src) none to = some (done none)
replace alloc rounds (some src) (some from) none = some (fault null_pointer)
replace alloc rounds (some src) (some from) (some to) =
    if alloc (length src + 1)
    then replace_loop alloc from to rounds src (length src + 1) []
    else some (done none)
