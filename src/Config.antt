-- ===== src/Config.antt =====
-- lib/util.c: `getConfig`, which reads a file of assignments `key=value` into a table, and
-- `getConfigEntry`. A file is its bytes, none of them zero, and none where it cannot be opened.
pub mod Lines
pub mod Entries
pub mod Appended
use wallyd.Common.{
  ℕ, zero, suc, ◌+◌, ◌-◌, Bool, true, false, ◌&&◌, ◌||◌, Option, none, some, List, [], ◌∷◌, ltb,
  leb, ◌==◌, if◌then◌else◌, length, null_pointer, out_of_bounds, Outcome, done, fault, ◌>>=◌,
}
use wallyd.Common.Str.{token, Bytes}
use wallyd.External.{HashTable}
use wallyd.Number.{split_last}

abbrev pub newline : ℕ
newline = 10

abbrev pub return : ℕ
return = 13

abbrev pub quote : ℕ
quote = 34

abbrev pub max_conf : ℕ
max_conf = 1024

-- The size of the buffer for a line, less the zero behind it.
abbrev pub line_size : ℕ
line_size = 511

abbrev pub prepend : ℕ → List Bytes → List Bytes
prepend c [] = (c ∷ []) ∷ []
prepend c (l ∷ ls) = (c ∷ l) ∷ ls

-- What `fgets` gives, call by call: up to a newline, or what fits, with `room` left for the first.
unfoldable pub fgets_lines : ℕ → Bytes → List Bytes
fgets_lines room [] = []
fgets_lines room (c ∷ s) = elim (c == newline || leb room 1) [
  | true ↦ (c ∷ []) ∷ fgets_lines line_size s
  | false ↦ prepend c (fgets_lines (room - 1) s)
]

abbrev pub is_comment : Bytes → Bool
is_comment [] = false
is_comment (c ∷ []) = c == b'#' || c == b';'
is_comment (c ∷ d ∷ s) = c == b'#' || c == b';' || (c == b'/' && d == b'/')

-- The text without its last byte, and without a second one that is a return or a newline.
abbrev pub without_end : Bytes → Bytes
without_end s = elim (split_last s) [
  | none ↦ []
  | some (t, c) ↦ elim (split_last t) [
    | none ↦ t
    | some (u, d) ↦ if d == return || d == newline then u else t
  ]
]

-- A value in quotes without them. Of a quote alone `vlen - 2` bytes are copied, which is a number
-- below zero.
abbrev pub unquoted : Bytes → Outcome Bytes
unquoted [] = done []
unquoted (c ∷ s) =
    if c == quote
    then elim (split_last s) [
      | none ↦ fault out_of_bounds
      | some (t, d) ↦ if d == quote then done t else done (c ∷ s)
    ]
    else done (c ∷ s)

-- What a line that is read does: none is `continue`.
unfoldable pub parse_line : Bytes → Outcome (Option (Bytes × Bytes))
parse_line line =
    if is_comment line || ltb (length line) 3
    then done none
    else (let (k, rest) = token b'=' (without_end line) in
        elim k [
          | none ↦ done none
          | some key ↦ elim (token b'=' rest).0 [
            | none ↦ done none
            | some v ↦ unquoted v >>= λ value. done (some (key, value))
          ]
        ])

module _ (H : HashTable) where
  -- The loop over the lines, with the number of entries so far.
  unfoldable pub read_entries : ℕ → List Bytes → H.Table Bytes → Outcome (ℕ × H.Table Bytes)
  read_entries count [] table = done (count, table)
  read_entries count (line ∷ lines) table = parse_line line >>= λ e. elim e [
    | none ↦ read_entries count lines table
    | some (k, v) ↦
        if ltb max_conf (count + 2)
        then done (count + 1, H.insert table k (some v))
        else read_entries (count + 1) lines (H.insert table k (some v))
  ]

  unfoldable pub get_config : Option Bytes → H.Table Bytes → Outcome (ℕ × H.Table Bytes)
  get_config none table = done (0, table)
  get_config (some file) table = read_entries 0 (fgets_lines line_size file) table

-- The arrays `keys` and `values` that this searches are NULL: nothing in the program fills them.
pub get_config_entry : ℕ → Bytes → Outcome (Option Bytes)
get_config_entry zero key = done none
get_config_entry (suc entries) key = fault null_pointer
