-- ===== src/Starter/ReplStr/Same.antt =====
-- src/wallystart.c and lib/util.c: the two routines that replace a text by another, `repl_str` and
-- `replace`, agree.
use wallyd.Common.{
  ℕ, ◌+◌, ◌*◌, ◌≤◌, ◌<◌, ◌≡◌, refl, sym, Bool, true, some, [], ◌∷◌, ◌++◌, append_assoc, arith,
  length, done,
}
use wallyd.Common.Str.{Bytes}
use mathlib.Core.Path.{subst}
use wallyd.Replace.{replace}
use wallyd.Replace.Spec.{Replaced, kept, replaced, replace-Replaced}
use wallyd.Starter.ReplStr.{size_values, repl_str}
use wallyd.Starter.ReplStr.Spec.{repl_str-Replaced}

append_injective :
    (p p' r r' : Bytes) → length p ≡ length p' → p ++ r ≡ p' ++ r' → (p ≡ p') × (r ≡ r')
append_injective [] [] r r' l e = (refl, e)
append_injective [] (c ∷ p') r r' l e = absurd (omega arith)
append_injective (c ∷ p) [] r r' l e = absurd (omega arith)
append_injective (c ∷ p) (d ∷ p') r r' l e =
    let (same, rest) = append_injective p p' r r' (omega arith) (ground arith) in
    (ground arith, rest)

same_split :
    (from src p r p' r' : Bytes)
    → src ≡ p ++ from ++ r
    → src ≡ p' ++ from ++ r'
    → ((q t : Bytes) → src ≡ q ++ from ++ t → length p ≤ length q)
    → ((q t : Bytes) → src ≡ q ++ from ++ t → length p' ≤ length q)
    → (p ≡ p') × (r ≡ r')
same_split from src p r p' r' whole whole' first first' =
    let a = first p' r' whole' in
    let b = first' p r whole in
    let (same, rest) =
      append_injective p p' (from ++ r) (from ++ r') (omega (arith, a, b))
        (ground (arith, whole, whole', append_assoc p from r, append_assoc p' from r')) in
    (same, (append_injective from from r r' refl rest).1)

-- The result of the replacement is determined.
pub Replaced-unique :
    (from to src out out' : Bytes)
    → Replaced from to src out
    → Replaced from to src out'
    → out ≡ out'
Replaced-unique from to src out out' (kept s never) (kept s' never') = refl
Replaced-unique from to src out out' (kept s never) (replaced s' p r o whole first rel) =
    absurd (never p r whole)
Replaced-unique from to src out out' (replaced s p r o whole first rel) (kept s' never) =
    absurd (never p r whole)
Replaced-unique from to src out out' (replaced s p r o whole first rel)
      (replaced s' p' r' o' whole' first' rel') =
    let (same, rest) = same_split from src p r p' r' whole whole' first first' in
    ground (
      arith,
      same,
      Replaced-unique from to r o o' rel (subst (λ t. Replaced from to t o') (sym rest) rel'),
    )

-- `repl_str` and `replace` return the same text, for a text to replace that is not empty, where memory
-- does not run out and no result can reach the values of `size_t`.
pub repl_str-replace :
    (alloc : ℕ → Bool) (str from to : Bytes) (rounds : ℕ)
    → ((n : ℕ) → alloc n ≡ true)
    → 0 < length from
    → length str < rounds
    → length str + length to * length str < size_values
    → (r : Bytes) × (repl_str alloc rounds str from to ≡ done (some r))
      × (replace alloc rounds (some str) (some from) (some to) ≡ some (done (some r)))
repl_str-replace alloc str from to rounds room some_from fuel small =
    let (r, e, is_r) = repl_str-Replaced alloc str from to rounds room some_from fuel small in
    let (t, e', is_t) = replace-Replaced alloc str from to rounds room some_from fuel in
    (r, e, ground (arith, e', Replaced-unique from to str r t is_r is_t))
