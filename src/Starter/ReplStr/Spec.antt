-- ===== src/Starter/ReplStr/Spec.antt =====
-- src/wallystart.c: `repl_str` returns the text with the matches replaced.
use wallyd.Common.{
  ℕ, zero, suc, ◌+◌, ◌-◌, ◌*◌, ◌%◌, ◌≤◌, ◌<◌, ◌≡◌, refl, inl, inr, Bool, true, some, List, [], ◌∷◌,
  ◌++◌, append_assoc, append-nil, arith, ltb, Bool-cases, Option-cases, length, length-append, done,
}
use wallyd.Common.Str.{Bytes}
use native.Mathlib.Nat.{mul-le-mul_left}
use wallyd.Replace.{find}
use wallyd.Starter.ReplStr.Copy.{
  Matches, no_match, match_at, find-length, Matches-length, Matches-none, copy_text-fits,
  copy_parts-Replaced,
}
use wallyd.Replace.Spec.{Replaced, kept, find-none}
use wallyd.Starter.ReplStr.{
  size_values, Cache, grown, make_room, find_positions, copy_parts, terminated, result_length,
  copy_all, build_result, repl_str,
}

make_room-some :
    (alloc : ℕ → Bool) (found : List ℕ) (c : Cache)
    → ((n : ℕ) → alloc n ≡ true)
    → length found ≤ c.sz
    → 0 < c.inc
    → (c' : Cache) × (make_room alloc (length found + 1) c ≡ some c')
      × (length found < c'.sz)
      × (0 < c'.inc)
unfolding make_room
make_room-some alloc found c room fits grows = elim (Bool-cases (ltb c.sz (length found + 1))) [
  | inl full ↦ (grown c, ground (arith, room (8 * (c.sz + c.inc))), ground arith, ground arith)
  | inr free ↦ (c, ground arith, ground arith, ground arith)
]

-- The first pass ends within one round for each byte and one more, with the positions of the matches,
-- and never writes outside the cache.
find_positions-Matches :
    (alloc : ℕ → Bool) (from : Bytes) (rounds offset : ℕ) (s : Bytes) (found : List ℕ) (c : Cache)
    → ((n : ℕ) → alloc n ≡ true)
    → 0 < length from
    → length s < rounds
    → length found ≤ c.sz
    → 0 < c.inc
    → (more : List ℕ) × (find_positions alloc from rounds offset s found c
        ≡ done (some (found ++ more, offset + length s)))
      × Matches from offset s more
unfolding find_positions
find_positions-Matches alloc from zero offset s found c room some_from fuel fits grows =
    absurd (omega arith)
find_positions-Matches alloc from (suc rounds) offset s found c room some_from fuel fits grows =
    elim (Option-cases (find from s)) [
      | inl missing ↦ ([], ground (arith, append-nil found), no_match offset s missing)
      | inr ((p, r), e) ↦
          let (c', has_room, fits', grows') = make_room-some alloc found c room fits grows in
          let l = find-length from s p r e in
          let (more, ends, rel) =
            find_positions-Matches alloc from rounds (offset + length p + length from) r
              (found ++ (offset + length p) ∷ []) c' room some_from (omega arith)
              (ground (arith, length-append found ((offset + length p) ∷ []))) grows' in
          (
            (offset + length p) ∷ more,
            ground
                (arith, e, has_room, ends, append_assoc found ((offset + length p) ∷ []) more, l),
            match_at offset s p r more e rel,
          )
    ]

terminated_whole : (n : ℕ) (out : Bytes) → n ≡ length out → terminated n out ≡ done (some out)
unfolding terminated
terminated_whole n out e = ground arith

result_fits :
    (s f t n r : ℕ)
    → r + f * n ≡ s + t * n
    → t * n ≤ t * s
    → s + t * s < size_values
    → (s + t * n - f * n) % size_values ≡ r
result_fits s f t n r sizes most small =
    let d : s + t * n - f * n ≡ r = omega arith in
    let b : r < size_values = omega arith in ground (arith, d)

-- The length that is allocated is that of the result, where no such length reaches the values of
-- `size_t`.
result_length-length :
    (s from to r : Bytes) (found : List ℕ) (offset : ℕ)
    → Matches from offset s found
    → 0 < length from
    → length r + length from * length found ≡ length s + length to * length found
    → length s + length to * length s < size_values
    → result_length from to found (length s) ≡ length r
result_length-length s from to r [] offset rel some_from sizes small = ground arith
result_length-length s from to r (q ∷ more) offset rel some_from sizes small =
    result_fits (length s) (length from) (length to) (suc (length more)) (length r) sizes
      (mul-le-mul_left (length to) (Matches-length from offset s (q ∷ more) some_from rel)) small

copy_all-Replaced :
    (str from to : Bytes) (found : List ℕ)
    → Matches from 0 str found
    → 0 < length from
    → length str + length to * length str < size_values
    → (r : Bytes) × (copy_all str from to found
          (length str)
          (result_length from to found (length str))
        ≡ done (some r))
      × Replaced from to str r
unfolding copy_all copy_parts
copy_all-Replaced str from to [] rel some_from small = (
  str,
  ground (
    arith,
    copy_text-fits (length str + 1) str [] (omega arith),
    terminated_whole (length str) str refl,
  ),
  kept str (λ p r. find-none from str p r (Matches-none from 0 str [] rel refl)),
)
copy_all-Replaced str from to (q ∷ found) rel some_from small =
    let (r, is_r, sizes, copies) =
      copy_parts-Replaced (result_length from to (q ∷ found) (length str) + 1) str from to 0 str
        (q ∷ found) [] rel refl refl in
    let l = result_length-length str from to r (q ∷ found) 0 rel some_from sizes small in
    (r, ground (arith, copies [] (omega (arith, l)), terminated_whole _ r l), is_r)

-- `repl_str` of a text that is not empty, where memory does not run out and no result can reach the
-- values of `size_t`: it ends within one round for each byte of the text and one more, reads and writes
-- nothing outside the text, the cache and its buffer, and returns the text with the occurrences
-- replaced from the left, the next one always looked for behind the last.
pub repl_str-Replaced :
    (alloc : ℕ → Bool) (str from to : Bytes) (rounds : ℕ)
    → ((n : ℕ) → alloc n ≡ true)
    → 0 < length from
    → length str < rounds
    → length str + length to * length str < size_values
    → (r : Bytes) × (repl_str alloc rounds str from to ≡ done (some r)) × Replaced from to str r
unfolding repl_str build_result
repl_str-Replaced alloc str from to rounds room some_from fuel small =
    let (found, ends, rel) =
      find_positions-Matches alloc from rounds 0 str [] (record { sz = 0; inc = 16 }) room some_from
        fuel (omega arith) (omega arith) in
    let (r, copied, is_r) = copy_all-Replaced str from to found rel some_from small in
    (r, ground (arith, ends, copied, room (result_length from to found (length str) + 1)), is_r)
