-- ===== src/Config/Entries.antt =====
-- lib/util.c: what `getConfig` makes of a file.
use wallyd.Common.{
  ℕ, zero, suc, ◌+◌, ◌-◌, ◌≤◌, ◌<◌, ◌≡◌, refl, sym, inl, inr, ◌||◌, Option, none, some, List, [],
  ◌∷◌, ◌++◌, arith, leb, ◌==◌, if◌then◌else◌, Bool-cases, length, take, All, Outcome, done, fault,
  blocked,
}
use wallyd.Common.Str.{Bytes, str_eq}
use mathlib.Core.Path.{subst}
use wallyd.External.{HashTable}
use wallyd.Registry.Laws.{or_else}
use wallyd.Config.{fgets_lines, prepend, line_size, max_conf, parse_line, read_entries, get_config}

abbrev pub joined : List Bytes → Bytes
joined [] = []
joined (l ∷ ls) = l ++ joined ls

joined-prepend : (c : ℕ) (ls : List Bytes) → joined (prepend c ls) ≡ c ∷ joined ls
joined-prepend c [] = refl
joined-prepend c (l ∷ ls) = refl

abbrev pub IsLine : ℕ → Bytes → Type 0
IsLine room l = (0 < length l) × (length l ≤ room)

-- The first line fits what is left, and every other one the buffer.
abbrev Fits : ℕ → List Bytes → Type 0
Fits room [] = Unit
Fits room (l ∷ ls) = IsLine room l × All (IsLine line_size) ls

Fits-prepend :
    (room c : ℕ) (ls : List Bytes) → 1 < room → Fits (room - 1) ls → Fits room (prepend c ls)
Fits-prepend room c [] h f = ((omega arith, omega arith), tt)
Fits-prepend room c (l ∷ ls) h (f, g) = ((omega (arith, f), omega (arith, f)), g)

Fits-All : (ls : List Bytes) → Fits line_size ls → All (IsLine line_size) ls
Fits-All [] f = tt
Fits-All (l ∷ ls) f = f

fgets_lines_fit : (room : ℕ) (s : Bytes) → 0 < room → Fits room (fgets_lines room s)
unfolding fgets_lines
fgets_lines_fit room [] h = tt
fgets_lines_fit room (c ∷ s) h = elim (Bool-cases (c == 10 || leb room 1)) [
  | inl ends ↦
      let e : fgets_lines room (c ∷ s) ≡ (c ∷ []) ∷ fgets_lines line_size s = ground arith in
      subst (Fits room) (sym e) (
        (omega arith, omega arith),
        Fits-All (fgets_lines line_size s) (fgets_lines_fit line_size s (omega arith)),
      )
  | inr goes_on ↦
      let e : fgets_lines room (c ∷ s) ≡ prepend c (fgets_lines (room - 1) s) = ground arith in
      subst (Fits room) (sym e) (
        Fits-prepend room c (fgets_lines (room - 1) s) (ground arith)
          (fgets_lines_fit (room - 1) s (ground arith)))
]

joined-fgets_lines' : (room : ℕ) (s : Bytes) → joined (fgets_lines room s) ≡ s
unfolding fgets_lines
joined-fgets_lines' room [] = refl
joined-fgets_lines' room (c ∷ s) = ground (
  arith,
  joined-fgets_lines' line_size s,
  joined-fgets_lines' (room - 1) s,
  joined-prepend c (fgets_lines (room - 1) s),
)

-- The lines that a file is read in are the file cut into pieces of 1 to 511 bytes.
pub joined-fgets_lines :
    (file : Bytes)
    → (joined (fgets_lines line_size file) ≡ file)
      × All (IsLine line_size) (fgets_lines line_size file)
joined-fgets_lines file = (
  joined-fgets_lines' line_size file,
  Fits-All (fgets_lines line_size file) (fgets_lines_fit line_size file (omega arith)),
)

-- A line that `getConfig` gets over.
abbrev pub IsReadable : Bytes → Type 0
IsReadable line = (e : Option (Bytes × Bytes)) × (parse_line line ≡ done e)

-- The assignments among the lines, in order.
abbrev pub entry : Outcome (Option (Bytes × Bytes)) → List (Bytes × Bytes) → List (Bytes × Bytes)
entry (done (some e)) es = e ∷ es
entry (done none) es = es
entry (fault f) es = es
entry blocked es = es

abbrev pub assignments : List Bytes → List (Bytes × Bytes)
assignments [] = []
assignments (l ∷ ls) = entry (parse_line l) (assignments ls)

-- The value that a key was given last.
abbrev pub last_value : Bytes → List (Bytes × Bytes) → Option Bytes
last_value j [] = none
last_value j ((k, v) ∷ es) = elim (last_value j es) [
  | some w ↦ some w
  | none ↦ if str_eq k j then some v else none
]

module _ (H : HashTable) where
  abbrev put_all : List (Bytes × Bytes) → H.Table Bytes → H.Table Bytes
  put_all [] table = table
  put_all ((k, v) ∷ es) table = put_all es (H.insert table k (some v))

  put_all_get :
      (es : List (Bytes × Bytes)) (table : H.Table Bytes) (j : Bytes)
      → H.get (put_all es table) j ≡ or_else (last_value j es) (H.get table j)
  put_all_get [] table j = refl
  put_all_get ((k, v) ∷ es) table j =
      ground (arith, put_all_get es (H.insert table k (some v)) j, H.get-insert table k (some v) j)

  read_entries-All :
      (lines : List Bytes) (count n : ℕ) (table : H.Table Bytes)
      → count + suc n ≡ max_conf
      → All IsReadable lines
      → let es = take (suc n) (assignments lines) in
        read_entries H count lines table ≡ done (count + length es, put_all es table)
  unfolding read_entries
  read_entries-All [] count n table room h = ground arith
  read_entries-All (line ∷ lines) count n table room ((none, e), h) =
      rw e (read_entries-All lines count n table room h)
  read_entries-All (line ∷ lines) count zero table room ((some (k, v), e), h) = ground (arith, e)
  read_entries-All (line ∷ lines) count (suc n) table room ((some (k, v), e), h) =
      ground
        (arith, e, read_entries-All lines (count + 1) n (H.insert table k (some v)) (omega arith) h)

  read_entries_first :
      (n : ℕ) (lines : List Bytes) (table : H.Table Bytes)
      → suc n ≡ max_conf
      → All IsReadable lines
      → let es = take (suc n) (assignments lines) in
        read_entries H 0 lines table ≡ done (length es, put_all es table)
  read_entries_first n lines table full h =
      let es = take (suc n) (assignments lines) in
      let e : 0 + length es ≡ length es = omega arith in
      rw e at (read_entries-All lines 0 n table (omega arith) h)

  -- Where every line of a file can be got over, `getConfig` enters the first 1024 assignments and
  -- returns their number: then a key has the value that it was given last among them, and a key
  -- that none of them names has what it had before.
  pub get_config-last_value :
      (file : Bytes) (table : H.Table Bytes)
      → All IsReadable (fgets_lines line_size file)
      → let es = take max_conf (assignments (fgets_lines line_size file)) in
        (t : H.Table Bytes) × (get_config H (some file) table ≡ done (length es, t))
        × ((j : Bytes) → H.get t j ≡ or_else (last_value j es) (H.get table j))
  unfolding get_config
  get_config-last_value file table h =
      let es = take max_conf (assignments (fgets_lines line_size file)) in
      (
        put_all es table,
        read_entries_first 1023 (fgets_lines line_size file) table refl h,
        put_all_get es table,
      )
