-- ===== src/Starter/Script.antt =====
-- src/wallystart.c: `processStartupScript` and `processCommand`, which run the commands of the startup
-- script line by line. `conf` is the directory WALLYD_CONFDIR, which the build sets; `load` and `alloc`
-- are those of Screen and of ReplStr.
use wallyd.Common.{
  ℕ, ◌+◌, Bool, true, false, not, Option, none, some, List, [], ◌∷◌, ◌++◌, ◌==◌, if◌then◌else◌,
  length, null_pointer, out_of_bounds, use_after_free, Outcome, done, fault, ◌>>=◌,
}
use wallyd.Common.Str.{before, after, Bytes, codes, str_eq}
use wallyd.Common.Strtol.{atoi}
use wallyd.Starter.ReplStr.{repl_str}
use wallyd.Starter.Screen.{no_log, freed_log, log_text, Globals, low_word}
use wallyd.Starter.Fades.{space, strsep, run_fadein, run_fadeover, run_fadeloop, run_fadeout}

abbrev pub newline : ℕ
newline = 10

-- free(logStr)
unfoldable pub free_log : Globals → Outcome Globals
free_log s = elim s.log [
  | no_log ↦ done s
  | freed_log ↦ fault use_after_free
  | log_text t ↦ done (record s { log = freed_log })
]

-- `clearlog`: the new text goes to a variable of the block.
unfoldable pub run_clearlog : Globals → Outcome Globals
run_clearlog s = free_log s

-- cmd + 4, where the first word of the line is `log`: what stands behind the line, if it ends there.
abbrev pub from_4 : Bytes → Option Bytes → Outcome Bytes
from_4 (a ∷ b ∷ c ∷ d ∷ cmd) behind = done cmd
from_4 (a ∷ b ∷ c ∷ []) (some behind) = done behind
from_4 _ behind = fault out_of_bounds

abbrev pub as_log : Bytes → Option Bytes → Globals → Outcome Globals
as_log cmd behind s = from_4 cmd behind >>= (λ t. done (record s { log = log_text t }))

-- `log <text>`
unfoldable pub run_log : Bytes → Option Bytes → Globals → Outcome Globals
run_log cmd behind s = free_log s >>= as_log cmd behind

-- `rot <degrees>`
unfoldable pub run_rot : Option Bytes → Globals → Outcome Globals
run_rot line s = elim (strsep line).0 [
  | none ↦ fault null_pointer
  | some rot_str ↦ done (record s { rot = atoi rot_str })
]

-- `color <hex>`
unfoldable pub run_color : Option Bytes → Globals → Outcome Globals
run_color line s = elim (strsep line).0 [
  | none ↦ fault null_pointer
  | some color ↦ done (record s { color = color })
]

-- sleep(sl): the argument is an unsigned int.
-- `sleep <seconds>`
unfoldable pub run_sleep : Option Bytes → Globals → Outcome Globals
run_sleep line s = elim (strsep line).0 [
  | none ↦ fault null_pointer
  | some sleep_str ↦ done (record s { slept = s.slept + low_word (atoi sleep_str) })
]

-- The first command of the name `my_cmd`, and whether there is one.
abbrev pub as_valid : Globals → Outcome (Bool × Globals)
as_valid s = done (true, s)

unfoldable pub choose :
    Bytes → List (Bytes × (Globals → Outcome Globals)) → Globals → Outcome (Bool × Globals)
choose my_cmd [] s = done (false, s)
choose my_cmd ((name, run) ∷ commands) s =
    if str_eq my_cmd name then run s >>= as_valid else choose my_cmd commands s

-- A line without a comment: `line` is the rest behind its first word, `cmd` the line before the
-- replacement and `behind` the text behind it.
module _ (load : Bytes → Bool) where
  abbrev pub commands :
      Option Bytes → Bytes → Option Bytes → List (Bytes × (Globals → Outcome Globals))
  commands line cmd behind =
      (codes "fadein", run_fadein load line)
      ∷ (codes "fadeover", run_fadeover load line)
      ∷ (codes "fadeloop", run_fadeloop load line)
      ∷ (codes "fadeout", run_fadeout line)
      ∷ (codes "clearlog", run_clearlog)
      ∷ (codes "log", run_log cmd behind)
      ∷ (codes "rot", run_rot line)
      ∷ (codes "color", run_color line)
      ∷ (codes "sleep", run_sleep line)
      ∷ []

  unfoldable pub run_command :
      Bytes → Option Bytes → Bytes → Option Bytes → Globals → Outcome (Bool × Globals)
  run_command my_cmd line cmd behind s = choose my_cmd (commands line cmd behind) s

abbrev pub is_comment : Bytes → Bool
is_comment [] = false
is_comment (c ∷ cmd) = c == b'#'

module _ (load : Bytes → Bool) where
  -- `line_copy` is what `repl_str` returns.
  unfoldable pub run_line : Option Bytes → Bytes → Option Bytes → Globals → Outcome (Bool × Globals)
  run_line none cmd behind s = if is_comment cmd then done (false, s) else fault null_pointer
  run_line (some line_copy) cmd behind s =
      if is_comment cmd
      then done (false, s)
      else run_command load (before space line_copy) (after space line_copy) cmd behind s

module _ (alloc : ℕ → Bool) (load : Bytes → Bool) (conf : Bytes) where
  unfoldable pub process_line : Bytes → Option Bytes → Globals → Outcome (Bool × Globals)
  process_line cmd behind s =
      repl_str alloc (length cmd + 1) cmd (codes "$CONF") conf
      >>= (λ line_copy. run_line load line_copy cmd behind s)

  -- The lines that `strtok_r` gives one after the other, each with the text behind its line break;
  -- the result counts the commands that are valid.
  unfoldable pub process_lines : List (Bytes × Option Bytes) → ℕ → Globals → Outcome (ℕ × Globals)
  process_lines [] valid_cmd s = done (valid_cmd, s)
  process_lines ((cmd, behind) ∷ lines) valid_cmd s =
      process_line cmd behind s
      >>= (λ (v, s1). process_lines lines (if v then valid_cmd + 1 else valid_cmd) s1)

-- What the calls of strtok_r(.., "\n", ..) give: the lines that are not empty. `line` is the part of
-- a line that was read already.
abbrev pub or_line :
    Bytes → Option Bytes → List (Bytes × Option Bytes) → List (Bytes × Option Bytes)
or_line [] behind lines = lines
or_line (c ∷ line) behind lines = (c ∷ line, behind) ∷ lines

unfoldable pub lines_from : Bytes → Bytes → List (Bytes × Option Bytes)
lines_from line [] = or_line line none []
lines_from line (c ∷ s) = elim (c == newline) [
  | true ↦ or_line line (some s) (lines_from [] s)
  | false ↦ lines_from (line ++ c ∷ []) s
]

module _ (alloc : ℕ → Bool) (load : Bytes → Bool) (conf : Bytes) where
  -- The number of valid commands is returned as a `bool`. The first line is not tested for NULL.
  unfoldable pub process_all : List (Bytes × Option Bytes) → Globals → Outcome (Bool × Globals)
  process_all [] s = fault null_pointer
  process_all (l ∷ lines) s =
      process_lines alloc load conf (l ∷ lines) 0 s >>= (λ (n, s1). done (not (n == 0), s1))

  unfoldable pub process_command : Bytes → Globals → Outcome (Bool × Globals)
  process_command buf s = process_all (lines_from [] buf) s

  -- The bytes of the file, if it opens.
  unfoldable pub process_startup_script : Option Bytes → Globals → Outcome Globals
  process_startup_script none s = done s
  process_startup_script (some file) s = process_command (before 0 file) s >>= (λ (v, s1). done s1)
