-- ===== src/Starter/ReplStr.antt =====
-- src/wallystart.c: `repl_str`, a second routine that replaces each occurrence of a text by another: it
-- first finds the positions of them all, in a cache that grows, and then copies the parts between them
-- into a buffer of the size that this gives. `alloc` says whether `malloc` and `realloc` have room for
-- a size. A position is an offset from the start of the text, as it is in the cache; the cache is the
-- list of those that were written to it. The loop over the matches has as many rounds as `rounds`
-- allows, and one that is out of rounds is `blocked`.
pub mod Copy
pub mod Same
pub mod Spec
use wallyd.Common.{
  ℕ, zero, suc, ◌+◌, ◌-◌, ◌*◌, ◌%◌, Bool, true, false, ◌&&◌, Option, none, some, List, [], ◌∷◌,
  ◌++◌, ltb, leb, ◌==◌, if◌then◌else◌, length, drop, take, out_of_bounds, uninitialised, Outcome,
  done, fault, blocked, ◌>>=◌,
}
use wallyd.Common.Str.{Bytes}
use wallyd.Replace.{find}

abbrev pub cache_sz_inc_factor : ℕ
cache_sz_inc_factor = 3

abbrev pub cache_sz_inc_max : ℕ
cache_sz_inc_max = 1048576

-- The values of `size_t`, which has 64 bits.
abbrev pub size_values : ℕ
size_values = 18446744073709551616

-- The room in the cache, and by how much it grows the next time.
pub record Cache : Type 0 where
  pub sz : ℕ
  pub inc : ℕ

abbrev pub grown : Cache → Cache
grown c = record {
  sz = c.sz + c.inc;
  inc =
      if ltb cache_sz_inc_max (c.inc * cache_sz_inc_factor)
      then cache_sz_inc_max
      else c.inc * cache_sz_inc_factor;
}

-- The cache with room for `count` positions, or NULL.
unfoldable pub make_room : (ℕ → Bool) → ℕ → Cache → Option Cache
make_room alloc count c =
    if ltb c.sz count then (if alloc (8 * (grown c).sz) then some (grown c) else none) else some c

-- From `pstr`, which is `offset` bytes behind the start: the positions that are found, and `orglen`.
module _ (alloc : ℕ → Bool) (from : Bytes) where
  unfoldable pub find_positions : ℕ → ℕ → Bytes → List ℕ → Cache → Outcome (Option (List ℕ × ℕ))
  find_positions zero offset pstr found c = blocked
  find_positions (suc rounds) offset pstr found c = elim (find from pstr) [
    | none ↦ done (some (found, offset + length pstr))
    | some (p, rest) ↦ elim (make_room alloc (length found + 1) c) [
      | none ↦ done none
      | some c' ↦ elim (ltb (length found) c'.sz) [
        | false ↦ fault out_of_bounds
        | true ↦
            find_positions rounds (offset + length p + length from) rest
              (found ++ (offset + length p) ∷ []) c'
      ]
    ]
  ]

-- memcpy of a part of `str` and of a text, to the end of what is in the buffer of `size` bytes.
unfoldable pub copy_text : ℕ → Bytes → Bytes → Outcome Bytes
copy_text size text out =
    if leb (length out + length text) size then done (out ++ text) else fault out_of_bounds

unfoldable pub copy_part : ℕ → Bytes → ℕ → ℕ → Bytes → Outcome Bytes
copy_part size str first last out =
    if leb first last && leb last (length str)
    then copy_text size (take (last - first) (drop first str)) out
    else fault out_of_bounds

-- Where the part behind a match ends.
abbrev pub next_position : List ℕ → ℕ → ℕ
next_position [] orglen = orglen
next_position (q ∷ found) orglen = q

unfoldable pub copy_parts : ℕ → Bytes → Bytes → Bytes → ℕ → List ℕ → Bytes → Outcome Bytes
copy_parts size str from to orglen [] out = done out
copy_parts size str from to orglen (q ∷ found) out = copy_text size to out >>= (λ out1.
    copy_part size str (q + length from) (next_position found orglen) out1
    >>= (λ out2. copy_parts size str from to orglen found out2))

-- The bytes before `ret[retlen]`, which becomes the terminating zero, are those that were written.
unfoldable pub terminated : ℕ → Bytes → Outcome (Option Bytes)
terminated retlen out = if length out == retlen then done (some out) else fault uninitialised

-- The length of the result, in the arithmetic of `size_t`: the matches do not overlap, so that what
-- they take away is at most `orglen`.
abbrev pub result_length : Bytes → Bytes → List ℕ → ℕ → ℕ
result_length from to [] orglen = orglen
result_length from to (q ∷ found) orglen =
    (orglen + length to * length (q ∷ found) - length from * length (q ∷ found)) % size_values

-- The copy with replacements, where there are matches, and of the text as it is, where there are none.
unfoldable pub copy_all : Bytes → Bytes → Bytes → List ℕ → ℕ → ℕ → Outcome (Option Bytes)
copy_all str from to [] orglen retlen = copy_text (retlen + 1) str [] >>= terminated retlen
copy_all str from to (q ∷ found) orglen retlen =
    copy_part (retlen + 1) str 0 q []
    >>= copy_parts (retlen + 1) str from to orglen (q ∷ found)
    >>= terminated retlen

unfoldable pub build_result :
    (ℕ → Bool) → Bytes → Bytes → Bytes → Option (List ℕ × ℕ) → Outcome (Option Bytes)
build_result alloc str from to none = done none
build_result alloc str from to (some (found, orglen)) =
    if alloc (result_length from to found orglen + 1)
    then copy_all str from to found orglen (result_length from to found orglen)
    else done none

unfoldable pub repl_str : (ℕ → Bool) → ℕ → Bytes → Bytes → Bytes → Outcome (Option Bytes)
repl_str alloc rounds str from to =
    find_positions alloc from rounds 0 str [] (record { sz = 0; inc = 16 })
    >>= build_result alloc str from to
