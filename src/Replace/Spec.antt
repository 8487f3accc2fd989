-- ===== src/Replace/Spec.antt =====
-- lib/util.c: what `replace` returns, and that it ends.
use wallyd.Common.{
  ℕ, zero, suc, ◌+◌, ◌-◌, ◌≤◌, ◌<◌, ◌≡◌, refl, sym, ◌≢◌, inl, inr, Bool, true, none, some, [], ◌∷◌,
  ◌++◌, append_assoc, append-nil, arith, Option-cases, length, length-append, done,
}
use wallyd.Common.Str.{Bytes}
use mathlib.Core.Path.{subst}
use wallyd.Replace.{strip, find, replace_loop, replace}

-- A text with the occurrences of another one replaced, from the left.
pub data Replaced (from to : Bytes) : Bytes → Bytes → Type 0 where
  kept : (src : Bytes) → ((p r : Bytes) → src ≢ p ++ from ++ r) → Replaced from to src src
  replaced :
      (src p r out : Bytes)
      → src ≡ p ++ from ++ r
      → ((p' r' : Bytes) → src ≡ p' ++ from ++ r' → length p ≤ length p')
      → Replaced from to r out
      → Replaced from to src (p ++ to ++ out)

strip-append : (from r : Bytes) → strip from (from ++ r) ≡ some r
strip-append [] r = refl
strip-append (c ∷ from) r = ground (arith, strip-append from r)

strip-some : (from s r : Bytes) → strip from s ≡ some r → s ≡ from ++ r
strip-some [] s r h = ground arith
strip-some (c ∷ from) [] r h = absurd (ground arith)
strip-some (c ∷ from) (d ∷ s) r h = ground (arith, strip-some from s r)

abbrev pub IsFirst : Bytes → Bytes → Bytes → Type 0
IsFirst from src p = (p' r' : Bytes) → src ≡ p' ++ from ++ r' → length p ≤ length p'

pub find-none : (from src p r : Bytes) → find from src ≡ none → src ≢ p ++ from ++ r
find-none from [] [] r h e = ground (arith, strip-append from r, h, e)
find-none from [] (x ∷ p) r h e = cc
find-none from (c ∷ s) [] r h e = ground (arith, strip-append from r, h, e)
find-none from (c ∷ s) (x ∷ p) r h e = ground (arith, find-none from s p r)

IsFirst-cons :
    (from : Bytes) (c : ℕ) (s p : Bytes)
    → strip from (c ∷ s) ≡ none
    → IsFirst from s p
    → IsFirst from (c ∷ s) (c ∷ p)
IsFirst-cons from c s p h first [] r e = absurd (ground (arith, strip-append from r, h, e))
IsFirst-cons from c s p h first (x ∷ q) r e = ground (arith, first q r)

find_here :
    (from src p r t : Bytes)
    → strip from src ≡ some t
    → find from src ≡ some (p, r)
    → (p ≡ []) × (r ≡ t)
find_here from [] p r t e h = (ground arith, ground arith)
find_here from (c ∷ s) p r t e h = (ground arith, ground arith)

find_here-IsFirst :
    (from src p r t : Bytes)
    → strip from src ≡ some t
    → find from src ≡ some (p, r)
    → (src ≡ p ++ from ++ r) × IsFirst from src p
find_here-IsFirst from src p r t e h =
    let (a, b) = find_here from src p r t e h in
    (ground (arith, a, b, strip-some from src t e), λ p' r' k. ground (arith, a))

pub find-some :
    (from src p r : Bytes)
    → find from src ≡ some (p, r)
    → (src ≡ p ++ from ++ r) × IsFirst from src p
find-some from [] p r h = elim (Option-cases (strip from [])) [
  | inl missing ↦ absurd (ground arith)
  | inr (t, e) ↦ find_here-IsFirst from [] p r t e h
]
find-some from (c ∷ s) p r h = elim (Option-cases (strip from (c ∷ s))) [
  | inl missing ↦ elim (Option-cases (find from s)) [
    | inl none_left ↦ absurd (ground arith)
    | inr ((q, t), e) ↦
        let (whole, first) = find-some from s q t e in
        let a : p ≡ c ∷ q = ground arith in
        let b : r ≡ t = ground arith in
        (
          ground (arith, a, b, whole),
          subst (IsFirst from (c ∷ s)) (sym a) (IsFirst-cons from c s q missing first),
        )
  ]
  | inr (t, e) ↦ find_here-IsFirst from (c ∷ s) p r t e h
]

-- Whatever room there is, the loop ends within one round for each byte of the text and one more,
-- writes nothing outside its buffer, and what it writes is the text with each occurrence replaced.
replace_loop_ends :
    (alloc : ℕ → Bool) (from to : Bytes) (rounds : ℕ) (src : Bytes) (size : ℕ) (out : Bytes)
    → ((n : ℕ) → alloc n ≡ true)
    → 0 < length from
    → length src < rounds
    → size ≡ length out + length src + 1
    → (r : Bytes) × (replace_loop alloc from to rounds src size out ≡ some (done (some (out ++ r))))
      × Replaced from to src r
unfolding replace_loop
replace_loop_ends alloc from to zero src size out room some_from fuel fits = absurd (omega arith)
replace_loop_ends alloc from to (suc rounds) src size out room some_from fuel fits =
    elim (Option-cases (find from src)) [
      | inl missing ↦ (src, ground arith, kept src (λ p r. find-none from src p r missing))
      | inr ((p, rest), e) ↦
          let (whole, first) = find-some from src p rest e in
          let l : length src ≡ length p + (length from + length rest) =
            ground (arith, whole, length-append (p ++ from) rest, length-append p from) in
          let (r, ends, rel) =
            replace_loop_ends alloc from to rounds rest (size + length to - length from)
              (out ++ p ++ to) room some_from (omega arith)
              (ground (arith, length-append (out ++ p) to, length-append out p)) in
          (
            p ++ to ++ r,
            ground (
              arith,
              e,
              ends,
              room (size + length to - length from),
              append_assoc out p to,
              append_assoc out (p ++ to) r,
            ),
            replaced src p rest r whole first rel,
          )
    ]

-- `replace` of a text that is not empty, where memory does not run out: it ends within one round for
-- each byte of the text and one more, writes nothing outside its buffer, and returns the text with
-- the occurrences replaced from the left, the next one always looked for behind the last.
pub replace-Replaced :
    (alloc : ℕ → Bool) (src from to : Bytes) (rounds : ℕ)
    → ((n : ℕ) → alloc n ≡ true)
    → 0 < length from
    → length src < rounds
    → (r : Bytes) × (replace alloc rounds (some src) (some from) (some to) ≡ some (done (some r)))
      × Replaced from to src r
unfolding replace
replace-Replaced alloc src from to rounds room some_from fuel =
    let (r, ends, rel) =
      replace_loop_ends alloc from to rounds src (length src + 1) [] room some_from fuel
        (omega arith) in
    (r, ground (arith, ends, room (length src + 1)), rel)

replace_loop_empty :
    (alloc : ℕ → Bool) (to : Bytes) (rounds : ℕ) (src : Bytes) (size : ℕ) (out : Bytes)
    → ((n : ℕ) → alloc n ≡ true)
    → length out ≤ size
    → replace_loop alloc [] to rounds src size out ≡ none
unfolding replace_loop
replace_loop_empty alloc to zero src size out room fits = refl
replace_loop_empty alloc to (suc rounds) [] size out room fits = ground (
  arith,
  room (size + length to - 0),
  replace_loop_empty alloc to rounds [] (size + length to - 0) (out ++ [] ++ to) room
      (ground (arith, length-append (out ++ []) to, append-nil out)),
)
replace_loop_empty alloc to (suc rounds) (c ∷ s) size out room fits = ground (
  arith,
  room (size + length to - 0),
  replace_loop_empty alloc to rounds (c ∷ s) (size + length to - 0) (out ++ [] ++ to) room
      (ground (arith, length-append (out ++ []) to, append-nil out)),
)

-- The empty text is found at the front again and again: `replace` never ends, whatever the rounds.
pub replace_empty :
    (alloc : ℕ → Bool) (src to : Bytes) (rounds : ℕ)
    → ((n : ℕ) → alloc n ≡ true)
    → replace alloc rounds (some src) (some []) (some to) ≡ none
unfolding replace
replace_empty alloc src to rounds room = ground (
  arith,
  room (length src + 1),
  replace_loop_empty alloc to rounds src (length src + 1) [] room (omega arith),
)
