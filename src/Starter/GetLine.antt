-- ===== src/Starter/GetLine.antt =====
-- src/wallystart.c: `sgetline`, which reads a line from a socket byte by byte, and the loop of
-- `logListener` over the lines of one client. The input is what the client sends before it closes the
-- connection: a `read` behind its last byte returns less than 1. `alloc` says whether `malloc` and
-- `realloc` have room for a size; a result of -1 is `none`, and any other is the length of the line.
pub mod Lines
use wallyd.Common.{
  ℕ, zero, suc, ◌+◌, Bool, true, false, Option, none, some, [], ◌∷◌, ◌++◌, ltb, leb, ◌==◌,
  if◌then◌else◌, length, take, out_of_bounds, overflow, Outcome, done, fault, blocked, ◌>>=◌,
}
use wallyd.Common.Str.{before, Bytes}
use wallyd.Common.Int.{int_max}

abbrev pub newline : ℕ
newline = 10

abbrev pub carriage_return : ℕ
carriage_return = 13

abbrev pub buffer_size : ℕ
buffer_size = 1024

-- The buffer has `size` bytes, and `line` is what was written to it.
module _ (alloc : ℕ → Bool) where
  unfoldable pub load_line : ℕ → Bytes → Bytes → Outcome (Option Bytes × Bytes)
  load_line size line [] = done (none, [])
  load_line size line (c ∷ input) = elim (ltb (length line) size) [
    | false ↦ fault out_of_bounds
    | true ↦ elim (c == newline) [
      | true ↦ done (some (line ++ c ∷ []), input)
      | false ↦ elim (leb size (length line + 1)) [
        | false ↦ load_line size (line ++ c ∷ []) input
        | true ↦ elim (leb (size + 128) int_max) [
          | false ↦ fault overflow
          | true ↦ elim (alloc (size + 128)) [
            | false ↦ done (none, input)
            | true ↦ load_line (size + 128) (line ++ c ∷ []) input
          ]
        ]
      ]
    ]
  ]

-- The line without a '\r' that is its last byte.
unfoldable pub without_return : Bytes → Bytes
without_return [] = []
without_return (c ∷ []) = if c == carriage_return then [] else c ∷ []
without_return (c ∷ d ∷ line) = c ∷ without_return (d ∷ line)

unfoldable pub finish_line : Option Bytes × Bytes → Outcome (Option Bytes × Bytes)
finish_line (none, input) = done (none, input)
finish_line (some line, input) = done (some (without_return line), input)

unfoldable pub sgetline : (ℕ → Bool) → Bytes → Outcome (Option Bytes × Bytes)
sgetline alloc input =
    if alloc buffer_size
    then load_line alloc buffer_size [] input >>= finish_line
    else done (none, input)

-- The text of the log, the events that were pushed to SDL, and what was written back to the client.
pub record Listener : Type 0 where
  pub log : Bytes
  pub events : ℕ
  pub echoed : Bytes

-- `write` is what write(2) returns for a text, and `none` is an error. strndup(buffer, n - 1) where n
-- is 0 has no bound, and the buffer has no terminating zero.
unfoldable pub show_line : Bytes → Option ℕ → Listener → Outcome (Bool × Listener)
show_line line none l = done (false, l)
show_line line (some zero) l = fault out_of_bounds
show_line line (some (suc n)) l = done (
  true,
  record l {
    log = before 0 (take n line);
    events = l.events + 1;
    echoed = l.echoed ++ take (suc n) line;
  },
)

-- A round of the loop over the lines, behind `sgetline`: whether it goes on. A result of 0 would end
-- it as an error does.
unfoldable pub take_line : (Bytes → Option ℕ) → Option Bytes → Listener → Outcome (Bool × Listener)
take_line write none l = done (false, l)
take_line write (some []) l = done (false, l)
take_line write (some (c ∷ line)) l = show_line (c ∷ line) (write (c ∷ line)) l

-- A loop that is out of rounds is `blocked`.
unfoldable pub listen : (ℕ → Bool) → (Bytes → Option ℕ) → ℕ → Bytes → Listener → Outcome Listener
listen alloc write zero input l = blocked
listen alloc write (suc rounds) input l = sgetline alloc input >>= (λ (line, rest).
    take_line write line l >>= (λ (goes_on, l'). elim goes_on [
      | true ↦ listen alloc write rounds rest l'
      | false ↦ done l'
    ]))
