-- ===== src/Command.antt =====
-- src/wallyd.c: `processCommand`, which runs the lines of a command that a client sent, or of the
-- startup script. `run` and `timed_out` are as in Call. Texts have no zero byte.
pub mod Arguments
pub mod Lines
pub mod Written
use wallyd.Common.{
  ℕ, ◌+◌, ◌-◌, Bool, true, false, not, Option, none, some, List, [], ◌∷◌, ltb, ◌==◌, if◌then◌else◌,
  length, set, drop, null_pointer, Outcome, done, fault, ◌>>=◌,
}
use wallyd.Common.Str.{skip, token, before, Bytes}
use wallyd.External.{HashTable, PriQueue}
use wallyd.Call.{Ptr, PluginHandler, call_sync}

abbrev pub space : ℕ
space = b' '

abbrev pub newline : ℕ
newline = 10

abbrev pub prepend : ℕ → List Bytes → List Bytes
prepend c [] = (c ∷ []) ∷ []
prepend c (l ∷ ls) = (c ∷ l) ∷ ls

-- The pieces between the bytes `c`, and those that are not empty: what one `strtok` after the other
-- gives.
abbrev pub pieces : ℕ → Bytes → List Bytes
pieces c [] = [] ∷ []
pieces c (x ∷ s) = if x == c then [] ∷ pieces c s else prepend x (pieces c s)

abbrev pub without_empty : List Bytes → List Bytes
without_empty [] = []
without_empty ([] ∷ ls) = without_empty ls
without_empty ((c ∷ l) ∷ ls) = (c ∷ l) ∷ without_empty ls

abbrev pub all_tokens : ℕ → Bytes → List Bytes
all_tokens c s = without_empty (pieces c s)

-- A line's function and parameter. `strtok_r` puts a zero behind the first token, and the parameter
-- is taken to start one byte behind as many bytes as the token has: where the line starts with
-- spaces that is not behind the token.
unfoldable pub arguments : Bytes → Outcome (Bytes × Option Bytes)
arguments line = elim (token space line).0 [
  | none ↦ fault null_pointer
  | some name ↦
      let end = length line - length (skip space line) + length name in
      done (
        name,
        if ltb (length name) (length line)
            then some (before 0 (drop (length name + 1) (set line end 0)))
            else none,
      )
]

abbrev pub is_ignored : Bytes → Bool
is_ignored [] = false
is_ignored (c ∷ s) = c == b'#'

module _ {H : HashTable} {Q : PriQueue}
    (run : ℕ → Ptr → PluginHandler H Q → Outcome (PluginHandler H Q))
    (timed_out : Bytes → ℕ → Bool) where
  unfoldable pub process_lines :
      ℕ → List Bytes → PluginHandler H Q → Outcome (ℕ × PluginHandler H Q)
  process_lines valid [] s = done (valid, s)
  process_lines valid (cmd ∷ cmds) s = elim (is_ignored cmd) [
    | true ↦ process_lines valid cmds s
    | false ↦ arguments cmd >>= λ (name, params).
        call_sync run timed_out name true params s >>= λ (b, t).
        process_lines (if b then valid + 1 else valid) cmds t
  ]

  -- A text without a line is no first line, whose length is asked for.
  unfoldable pub process_command : Bytes → PluginHandler H Q → Outcome (Bool × PluginHandler H Q)
  process_command buf s = elim (all_tokens newline buf) [
    | [] ↦ fault null_pointer
    | cmd ∷ cmds ↦ process_lines 0 (cmd ∷ cmds) s >>= λ (valid, t). done (not (valid == 0), t)
  ]

  -- A file that cannot be opened is none.
  unfoldable pub process_startup_script :
      Option Bytes → PluginHandler H Q → Outcome (PluginHandler H Q)
  process_startup_script none s = done s
  process_startup_script (some cmds) s = process_command cmds s >>= λ (b, t). done t
