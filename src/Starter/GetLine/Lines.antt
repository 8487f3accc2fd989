-- ===== src/Starter/GetLine/Lines.antt =====
-- src/wallystart.c: what `sgetline` returns, and that every line of a client reaches the log.
use wallyd.Common.{
  ℕ, zero, suc, ◌+◌, ◌*◌, ◌≤◌, ◌<◌, ◌≡◌, refl, ap, Bool, true, Option, none, some, List, [], ◌∷◌,
  ◌++◌, append_assoc, append-nil, arith, length, length-append, take_all, take-append, All, done,
}
use wallyd.Common.Str.{Lacks, before, Bytes}
use wallyd.Common.Int.{int_max}
use wallyd.Starter.GetLine.{
  newline, buffer_size, load_line, without_return, finish_line, sgetline, Listener, show_line,
  take_line, listen,
}

without_return-newline :
    (line : Bytes) → without_return (line ++ newline ∷ []) ≡ line ++ newline ∷ []
unfolding without_return
without_return-newline [] = refl
without_return-newline (c ∷ []) = refl
without_return-newline (c ∷ d ∷ line) = ap (λ r. c ∷ r) (without_return-newline (d ∷ line))

-- The buffer always has room for one more byte.
module _ (alloc : ℕ → Bool) (room : (n : ℕ) → alloc n ≡ true) where
  load_line-line :
      (size : ℕ) (line l rest : Bytes)
      → Lacks newline l
      → length line < size
      → size ≤ length line + buffer_size
      → length line + length l + 2 * buffer_size ≤ int_max
      → load_line alloc size line (l ++ newline ∷ rest)
        ≡ done (some (line ++ l ++ newline ∷ []), rest)
  unfolding load_line
  load_line-line size line [] rest lacks fits tight short = ground (arith, append-nil line)
  load_line-line size line (c ∷ l) rest (hc, lacks) fits tight short = ground (
    arith,
    hc,
    room (size + 128),
    length-append line (c ∷ []),
    append_assoc line (c ∷ []) l,
    load_line-line size (line ++ c ∷ []) l rest lacks,
    load_line-line (size + 128) (line ++ c ∷ []) l rest lacks,
  )

  load_line-end :
      (size : ℕ) (line l : Bytes)
      → Lacks newline l
      → length line < size
      → size ≤ length line + buffer_size
      → length line + length l + 2 * buffer_size ≤ int_max
      → load_line alloc size line l ≡ done (none, [])
  unfolding load_line
  load_line-end size line [] lacks fits tight short = refl
  load_line-end size line (c ∷ l) (hc, lacks) fits tight short = ground (
    arith,
    hc,
    room (size + 128),
    length-append line (c ∷ []),
    load_line-end size (line ++ c ∷ []) l lacks,
    load_line-end (size + 128) (line ++ c ∷ []) l lacks,
  )

  -- A line and its line break come back whole, the '\r' before it as well, and the input stands behind
  -- them; the end of the input before a line break is an error.
  pub sgetline-line :
      (l rest : Bytes)
      → Lacks newline l
      → length l + 2 * buffer_size ≤ int_max
      → (sgetline alloc (l ++ newline ∷ rest) ≡ done (some (l ++ newline ∷ []), rest))
        × (sgetline alloc l ≡ done (none, []))
  unfolding sgetline finish_line
  sgetline-line l rest lacks short = (
    ground (
      arith,
      room buffer_size,
      load_line-line buffer_size [] l rest lacks (omega arith) (omega arith) (omega arith),
      without_return-newline l,
    ),
    ground (
      arith,
      room buffer_size,
      load_line-end buffer_size [] l lacks (omega arith) (omega arith) (omega arith),
    ),
  )

-- The lines with their line breaks.
abbrev pub joined_lines : List Bytes → Bytes
joined_lines [] = []
joined_lines (l ∷ ls) = (l ++ newline ∷ []) ++ joined_lines ls

-- The log after the lines: the last one, up to a zero.
abbrev pub last_log : Bytes → List Bytes → Bytes
last_log log [] = log
last_log log (l ∷ ls) = last_log (before 0 l) ls

abbrev pub IsLine : Bytes → Type 0
IsLine l = Lacks newline l × (length l + 2 * buffer_size ≤ int_max)

shown : Listener → Bytes → Listener
shown s l = record s {
  log = before 0 l;
  events = s.events + 1;
  echoed = s.echoed ++ (l ++ newline ∷ []);
}

show_line-line :
    (t l : Bytes) (n : ℕ) (s : Listener)
    → t ≡ l ++ newline ∷ []
    → n ≡ suc (length l)
    → show_line t (some n) s ≡ done (true, shown s l)
unfolding show_line shown
show_line-line t l zero s e h = absurd (omega arith)
show_line-line t l (suc n) s e h = ground (
  arith,
  e,
  take-append l (newline ∷ []),
  take_all (l ++ newline ∷ []),
  length-append l (newline ∷ []),
  h,
)

take_line-line :
    (write : Bytes → Option ℕ) (l : Bytes) (s : Listener)
    → ((t : Bytes) → write t ≡ some (length t))
    → take_line write (some (l ++ newline ∷ [])) s ≡ done (true, shown s l)
unfolding take_line
take_line-line write [] s complete =
    ground (arith, complete (newline ∷ []), show_line-line (newline ∷ []) [] 1 s refl refl)
take_line-line write (c ∷ l) s complete = ground (
  arith,
  complete (c ∷ l ++ newline ∷ []),
  length-append l (newline ∷ []),
  show_line-line (c ∷ l ++ newline ∷ []) (c ∷ l) (suc (suc (length l))) s refl refl,
)

-- A client that sends lines, and then a part of one, before it closes the connection: the loop ends
-- within a round for each line and one more, each line is written back with its line break and posts
-- one event, and the log is the last line up to a zero. Memory does not run out, no line comes near
-- `int_max` bytes, and each write is complete.
pub listen_lines :
    (alloc : ℕ → Bool) (write : Bytes → Option ℕ) (rounds : ℕ) (ls : List Bytes) (part : Bytes)
    (s : Listener)
    → ((n : ℕ) → alloc n ≡ true)
    → ((t : Bytes) → write t ≡ some (length t))
    → All IsLine ls
    → IsLine part
    → length ls < rounds
    → listen alloc write rounds (joined_lines ls ++ part) s
      ≡ done (record s {
        log = last_log s.log ls;
        events = s.events + length ls;
        echoed = s.echoed ++ joined_lines ls;
      })
unfolding listen take_line shown
listen_lines alloc write zero ls part s room complete lines rest fuel = absurd (omega arith)
listen_lines alloc write (suc rounds) [] part s room complete lines (lacks, short) fuel =
    ground (arith, append-nil s.echoed, (sgetline-line alloc room part [] lacks short).1)
listen_lines alloc write (suc rounds) (l ∷ ls) part s room complete ((lacks, short), lines) rest
      fuel =
    ground (
      arith,
      append_assoc (l ++ newline ∷ []) (joined_lines ls) part,
      append_assoc l (newline ∷ []) (joined_lines ls ++ part),
      (sgetline-line alloc room l (joined_lines ls ++ part) lacks short).0,
      take_line-line write l s complete,
      append_assoc s.echoed (l ++ newline ∷ []) (joined_lines ls),
      listen_lines alloc write rounds ls part (shown s l) room complete lines rest (omega arith),
    )
