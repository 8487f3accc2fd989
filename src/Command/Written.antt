-- ===== src/Command/Written.antt =====
-- src/wallyd.c: what a command does that is written line by line.
use wallyd.Common.{
  ℕ, ◌≡◌, refl, sym, ap, ◌∙◌, Bool, false, not, Option, none, some, List, [], ◌∷◌, ◌++◌, map, arith,
  ◌==◌, length, All, All-append, Outcome, done, ◌>>=◌,
}
use wallyd.Common.Str.{Lacks, Bytes}
use wallyd.External.{HashTable, PriQueue}
use wallyd.Registry.{Registry}
use wallyd.Call.{Ptr, PluginHandler}
use wallyd.Ui.{to_ptr}
use wallyd.Command.{
  all_tokens, pieces, without_empty, newline, space, arguments, is_ignored, process_command,
}
use wallyd.Command.Arguments.{arguments-append}
use wallyd.Command.Lines.{resolve, run_all, process_command-run_all}

-- A comment, or the name of a function, of which the first byte is apart, and its parameter.
pub data WrittenLine : Type 0 where
  remark : Bytes → WrittenLine
  calls : ℕ → Bytes → Option Bytes → WrittenLine

abbrev pub line_of : WrittenLine → Bytes
line_of (remark t) = b'#' ∷ t
line_of (calls x name none) = x ∷ name
line_of (calls x name (some rest)) = (x ∷ name) ++ space ∷ rest

abbrev pub text_of : List WrittenLine → Bytes
text_of [] = []
text_of (w ∷ ws) = line_of w ++ newline ∷ text_of ws

abbrev pub IsRest : Option Bytes → Type 0
IsRest none = Unit
IsRest (some rest) = Lacks newline rest × Lacks 0 rest

-- A name has no space and starts no comment, and no text has a newline or a zero.
abbrev pub IsWritten : WrittenLine → Type 0
IsWritten (remark t) = Lacks newline t
IsWritten (calls x name params) =
    ((x == b'#') ≡ false) × Lacks space (x ∷ name) × Lacks newline (x ∷ name) × IsRest params

-- The lines, but for the comments, name synchronous functions: just these, with just these parameters.
abbrev pub Names : {H : HashTable} → Registry H → List WrittenLine → List (ℕ × Ptr) → Type 0
Names r [] cs = cs ≡ []
Names r (remark t ∷ ws) cs = Names r ws cs
Names r (calls x name params ∷ ws) [] = ⊥
Names {H} r (calls x name params ∷ ws) ((f, p) ∷ cs) =
    (H.get r.thr_functions (x ∷ name) ≡ none)
    × (H.get r.functions (x ∷ name) ≡ some f)
    × (p ≡ to_ptr params)
    × Names r ws cs

pieces-append :
    (l r : Bytes) → Lacks newline l → pieces newline (l ++ newline ∷ r) ≡ l ∷ pieces newline r
pieces-append [] r h = refl
pieces-append (x ∷ l) r (hx, h) = ground (arith, hx, pieces-append l r h)

line_of_cons : (w : WrittenLine) → (c : ℕ) × (l : Bytes) × (line_of w ≡ c ∷ l)
line_of_cons (remark t) = (b'#', t, refl)
line_of_cons (calls x name none) = (x, name, refl)
line_of_cons (calls x name (some rest)) = (x, name ++ space ∷ rest, refl)

line_of-Lacks : (w : WrittenLine) → IsWritten w → Lacks newline (line_of w)
line_of-Lacks (remark t) h = (refl, h)
line_of-Lacks (calls x name none) (_, _, h, _) = h
line_of-Lacks (calls x name (some rest)) (_, _, h, (k, _)) =
    All-append (λ c. (c == newline) ≡ false) (x ∷ name) (space ∷ rest) h (refl, k)

all_tokens-text_of :
    (ws : List WrittenLine) → All IsWritten ws → all_tokens newline (text_of ws) ≡ map line_of ws
all_tokens-text_of [] h = refl
all_tokens-text_of (w ∷ ws) (hw, h) =
    let (c, l, e) = line_of_cons w in
    ap without_empty (pieces-append (line_of w) (text_of ws) (line_of-Lacks w hw))
    ∙ rw e (ap (λ ls. (c ∷ l) ∷ ls) (all_tokens-text_of ws h))

arguments-line_of :
    (x : ℕ) (name : Bytes) (params : Option Bytes)
    → Lacks space (x ∷ name)
    → IsRest params
    → arguments (line_of (calls x name params)) ≡ done (x ∷ name, params)
arguments-line_of x name none h k = (arguments-append x name [] h tt).1
arguments-line_of x name (some rest) h (_, k) = (arguments-append x name rest h k).0

not_ignored :
    (x : ℕ) (name : Bytes) (params : Option Bytes)
    → (x == b'#') ≡ false
    → is_ignored (line_of (calls x name params)) ≡ false
not_ignored x name none h = h
not_ignored x name (some rest) h = h

resolve-Names :
    {H : HashTable} (r : Registry H) (ws : List WrittenLine) (cs : List (ℕ × Ptr))
    → All IsWritten ws
    → Names r ws cs
    → resolve r (map line_of ws) ≡ some cs
resolve-Names r [] cs h n = ap some (sym n)
resolve-Names r (remark t ∷ ws) cs (_, h) n = resolve-Names r ws cs h n
resolve-Names r (calls x name params ∷ ws) [] h n = absurd n
resolve-Names r (calls x name params ∷ ws) ((f, p) ∷ cs) ((first, apart, _, k), h) (a, b, e, n) =
    ground (
      arith,
      not_ignored x name params first,
      arguments-line_of x name params apart k,
      a,
      b,
      e,
      resolve-Names r ws cs h n,
    )

module _ {H : HashTable} {Q : PriQueue}
    (run : ℕ → Ptr → PluginHandler H Q → Outcome (PluginHandler H Q)) (timed_out : Bytes → ℕ → Bool)
    (keeps : (f : ℕ) (q : Ptr) (s t : PluginHandler H Q)
      → run f q s ≡ done t
      → t.registry ≡ s.registry) where
  -- A command that is written as one or more lines, each a comment or the name of a synchronous
  -- function, alone or with a space and a parameter behind it, while `callMutex` is free:
  -- `processCommand` runs those functions one after the other, in the order of the lines, each with
  -- just the parameter that was written behind its name, all of its spaces included, and NULL where
  -- there is none, and is true if there was one. The functions may change anything but which
  -- functions there are.
  pub process_command_written_lines :
      (w : WrittenLine) (ws : List WrittenLine) (cs : List (ℕ × Ptr)) (s : PluginHandler H Q)
      → All IsWritten (w ∷ ws)
      → s.call_locked ≡ false
      → Names s.registry (w ∷ ws) cs
      → process_command run timed_out (text_of (w ∷ ws)) s
        ≡ (run_all run timed_out cs s >>= λ t. done (not (length cs == 0), t))
  process_command_written_lines w ws cs s written free named =
      process_command-run_all run timed_out keeps (text_of (w ∷ ws)) (line_of w) (map line_of ws) cs
        s (all_tokens-text_of (w ∷ ws) written) free
        (resolve-Names s.registry (w ∷ ws) cs written named)
