-- ===== src/Starter/ReplStr/Copy.antt =====
-- src/wallystart.c: the second pass of `repl_str` copies the parts between the matches.
use wallyd.Common.{
  ℕ, suc, ◌+◌, ◌-◌, ◌*◌, ◌≤◌, ◌<◌, ◌≡◌, none, some, List, [], ◌∷◌, ◌++◌, append_assoc, append-nil,
  arith, length, length-append, take-append, drop-append, done, ◌>>=◌,
}
use wallyd.Common.Str.{Bytes}
use wallyd.Replace.{find}
use wallyd.Replace.Spec.{Replaced, kept, replaced, find-none, find-some}
use wallyd.Starter.ReplStr.{copy_text, copy_part, next_position, copy_parts}

-- The positions of the matches in what follows the first `offset` bytes.
pub data Matches (from : Bytes) : ℕ → Bytes → List ℕ → Type 0 where
  no_match : (offset : ℕ) (s : Bytes) → find from s ≡ none → Matches from offset s []
  match_at :
      (offset : ℕ) (s p r : Bytes) (found : List ℕ)
      → find from s ≡ some (p, r)
      → Matches from (offset + length p + length from) r found
      → Matches from offset s ((offset + length p) ∷ found)

pub find-length :
    (from s p r : Bytes) → find from s ≡ some (p, r) → length s ≡ length p + length from + length r
find-length from s p r e =
    ground (arith, (find-some from s p r e).0, length-append (p ++ from) r, length-append p from)

pub Matches-none :
    (from : Bytes) (offset : ℕ) (s : Bytes) (found : List ℕ)
    → Matches from offset s found
    → found ≡ []
    → find from s ≡ none
Matches-none from offset s found (no_match o t missing) h = missing
Matches-none from offset s found (match_at o t p r more e rel) h = cc

-- Each match takes at least one byte.
pub Matches-length :
    (from : Bytes) (offset : ℕ) (s : Bytes) (found : List ℕ)
    → 0 < length from
    → Matches from offset s found
    → length found ≤ length s
Matches-length from offset s found some_from (no_match o t missing) = omega arith
Matches-length from offset s found some_from (match_at o t p r more e rel) =
    omega (arith, find-length from s p r e, Matches-length from _ r more some_from rel)

-- What `copy_part` does with a part that stands between two others.
copy_part-middle :
    (size first last : ℕ) (str pre p t out : Bytes)
    → str ≡ pre ++ p ++ t
    → first ≡ length pre
    → last ≡ length pre + length p
    → length out + length p ≤ size
    → copy_part size str first last out ≡ done (out ++ p)
unfolding copy_part copy_text
copy_part-middle size first last str pre p t out whole is_first is_last fits =
    let d : last - first ≡ length p = omega arith in
    let l : length str ≡ length pre + length p + length t =
      ground (arith, whole, length-append (pre ++ p) t, length-append pre p) in
    ground (
      arith,
      whole,
      is_first,
      d,
      l,
      append_assoc pre p t,
      drop-append pre (p ++ t),
      take-append p t,
    )

pub copy_text-fits :
    (size : ℕ) (text out : Bytes)
    → length out + length text ≤ size
    → copy_text size text out ≡ done (out ++ text)
unfolding copy_text
copy_text-fits size text out fits = ground arith

grow_by_match :
    (f t p r n o s all : ℕ)
    → o + f * n ≡ r + t * n
    → s ≡ p + f + r
    → all ≡ p + t + o
    → all + f * suc n ≡ s + t * suc n
grow_by_match f t p r n o s all h is_s is_all = ground arith

-- The second pass, from behind the first `offset` bytes on: it copies the text with each match
-- replaced, and the sizes add up.
pub copy_parts-Replaced :
    (size : ℕ) (str from to : Bytes) (offset : ℕ) (s : Bytes) (found : List ℕ) (pre : Bytes)
    → Matches from offset s found
    → str ≡ pre ++ s
    → offset ≡ length pre
    → (r : Bytes) × Replaced from to s r
      × (length r + length from * length found ≡ length s + length to * length found)
      × ((out : Bytes)
          → length out + length r ≤ size
          → (copy_part size str offset (next_position found (length str)) out
              >>= copy_parts size str from to (length str) found)
            ≡ done (out ++ r))
unfolding copy_parts
copy_parts-Replaced size str from to offset s found pre (no_match o t missing) whole at = (
  s,
  kept s (λ p r. find-none from s p r missing),
  ground arith,
  λ out fits. ground (
    arith,
    copy_part-middle size offset (length str) str pre s [] out
        (ground (arith, whole, append-nil (pre ++ s))) at
        (ground (arith, whole, at, length-append pre s)) fits,
  ),
)
copy_parts-Replaced size str from to offset s found pre (match_at o t p r more e rel) whole at =
    let (split, first) = find-some from s p r e in
    let l = find-length from s p r e in
    let whole' : str ≡ pre ++ p ++ from ++ r =
      ground (arith, whole, split, append_assoc pre p from, append_assoc pre (p ++ from) r) in
    let (out', rel', sizes, copies) =
      copy_parts-Replaced size str from to (offset + length p + length from) r more
        (pre ++ p ++ from) rel whole'
        (ground (arith, at, length-append (pre ++ p) from, length-append pre p)) in
    let ls = length-append (p ++ to) out' in
    let lp = length-append p to in
    (
      p ++ to ++ out',
      replaced s p r out' split first rel',
      grow_by_match (length from) (length to) (length p) (length r) (length more) (length out')
          (length s) (length (p ++ to ++ out')) sizes l (ground (arith, ls, lp)),
      λ out fits. ground (
        arith,
        copy_part-middle size offset (offset + length p) str pre p (from ++ r) out
            (ground (arith, whole', append_assoc (pre ++ p) from r)) at (omega (arith, at))
            (omega (arith, ls, lp)),
        copy_text-fits size to (out ++ p) (omega (arith, ls, lp, length-append out p)),
        copies (out ++ p ++ to)
            (omega (arith, ls, lp, length-append (out ++ p) to, length-append out p)),
        append_assoc out p to,
        append_assoc out (p ++ to) out',
      ),
    )
