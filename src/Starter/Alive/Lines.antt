-- ===== src/Starter/Alive/Lines.antt =====
-- src/wallystart.c: a script without `fadeout` and `clearlog`.
use wallyd.Common.{
  ℕ, ◌+◌, ◌*◌, ◌<◌, ◌≡◌, refl, sym, ◌⊎◌, inl, inr, Bool, true, false, Option, none, some, List, [],
  ◌∷◌, arith, if◌then◌else◌, Bool-cases, length, All, Outcome, done, ◌>>=◌,
}
use wallyd.Common.Str.{before, after, Bytes, codes, str_eq}
use mathlib.Core.Path.{subst}
use wallyd.Starter.ReplStr.{size_values}
use wallyd.Starter.ReplStr.Spec.{repl_str-Replaced}
use wallyd.Replace.{find}
use wallyd.Replace.Spec.{Replaced, kept, find-none}
use wallyd.Starter.ReplStr.Same.{Replaced-unique}
use wallyd.Starter.Screen.{freed_log, log_text, Globals}
use wallyd.Starter.Fades.{space}
use wallyd.Starter.Script.{
  free_log, from_4, as_log, run_log, run_rot, run_color, run_sleep, as_valid, choose, commands,
  run_command, is_comment, run_line, process_line, process_lines, lines_from, process_all,
  process_command,
}
use wallyd.Starter.Alive.Held.{IsAlive, Ends, Ends-bind, Ends-if}
use wallyd.Starter.Alive.Fading.{run_fadein-Ends, run_fadeover-Ends, run_fadeloop-Ends}

abbrev pub IsAliveAfter {ℓ} : {A : Type ℓ} → A × Globals → Type 0
IsAliveAfter (v, s) = IsAlive s

Ends-as_valid : (m : Outcome Globals) → Ends IsAlive m → Ends IsAliveAfter (m >>= as_valid)
Ends-as_valid m h = Ends-bind IsAlive IsAliveAfter m as_valid h (λ s k. k)

from_4-Ends : (cmd : Bytes) (behind : Option Bytes) → Ends (λ t. Unit) (from_4 cmd behind)
from_4-Ends [] behind = refl
from_4-Ends (a ∷ []) behind = refl
from_4-Ends (a ∷ b ∷ []) behind = refl
from_4-Ends (a ∷ b ∷ c ∷ []) none = refl
from_4-Ends (a ∷ b ∷ c ∷ []) (some t) = tt
from_4-Ends (a ∷ b ∷ c ∷ d ∷ cmd) behind = tt

free_log-text :
    (t : Bytes) (s : Globals)
    → s.log ≡ log_text t
    → free_log s ≡ done (record s { log = freed_log })
unfolding free_log
free_log-text t s e = ground arith

run_log-Ends :
    (cmd : Bytes) (behind : Option Bytes) (s : Globals)
    → IsAlive s
    → Ends IsAlive (run_log cmd behind s)
unfolding run_log
run_log-Ends cmd behind s (h1, h2, (t, e)) =
    subst (λ m. Ends IsAlive (m >>= as_log cmd behind)) (sym (free_log-text t s e))
      (Ends-bind (λ w. Unit) IsAlive (from_4 cmd behind) _ (from_4-Ends cmd behind)
        (λ w k. (h1, h2, (w, refl))))

run_rot-Ends : (line : Option Bytes) (s : Globals) → IsAlive s → Ends IsAlive (run_rot line s)
unfolding run_rot
run_rot-Ends none s h = refl
run_rot-Ends (some line) s h = h

run_color-Ends : (line : Option Bytes) (s : Globals) → IsAlive s → Ends IsAlive (run_color line s)
unfolding run_color
run_color-Ends none s h = refl
run_color-Ends (some line) s h = h

run_sleep-Ends : (line : Option Bytes) (s : Globals) → IsAlive s → Ends IsAlive (run_sleep line s)
unfolding run_sleep
run_sleep-Ends none s h = refl
run_sleep-Ends (some line) s h = h

-- Neither `fadeout` nor `clearlog`.
abbrev pub IsKeeping : Bytes → Type 0
IsKeeping my_cmd =
    (str_eq my_cmd (codes "fadeout") ≡ false) × (str_eq my_cmd (codes "clearlog") ≡ false)

choose-Ends :
    (my_cmd : Bytes) (cs : List (Bytes × (Globals → Outcome Globals))) (s : Globals)
    → IsAlive s
    → All
        (λ (name, run).
          str_eq my_cmd name ≡ true → (t : Globals) → IsAlive t → Ends IsAlive (run t))
        cs
    → Ends IsAliveAfter (choose my_cmd cs s)
unfolding choose
choose-Ends my_cmd [] s h fine = h
choose-Ends my_cmd ((name, run) ∷ cs) s h (safe, fine) = elim (Bool-cases (str_eq my_cmd name)) [
  | inl this ↦
      subst (λ b. Ends IsAliveAfter (if b then run s >>= as_valid else choose my_cmd cs s))
        (sym this) (Ends-as_valid (run s) (safe this s h))
  | inr other ↦
      subst (λ b. Ends IsAliveAfter (if b then run s >>= as_valid else choose my_cmd cs s))
        (sym other) (choose-Ends my_cmd cs s h fine)
]

run_command-Ends :
    (load : Bytes → Bool) (my_cmd : Bytes) (line : Option Bytes) (cmd : Bytes)
    (behind : Option Bytes) (s : Globals)
    → IsKeeping my_cmd
    → IsAlive s
    → Ends IsAliveAfter (run_command load my_cmd line cmd behind s)
unfolding run_command
run_command-Ends load my_cmd line cmd behind s (not_fadeout, not_clearlog) h =
    choose-Ends my_cmd (commands load line cmd behind) s h (
      (λ e. run_fadein-Ends load line),
      (
        (λ e. run_fadeover-Ends load line),
        (
          (λ e. run_fadeloop-Ends load line),
          (
            (λ e. absurd (ground arith)),
            (
              (λ e. absurd (ground arith)),
              (
                (λ e. run_log-Ends cmd behind),
                (
                  (λ e. run_rot-Ends line),
                  ((λ e. run_color-Ends line), ((λ e. run_sleep-Ends line), tt)),
                ),
              ),
            ),
          ),
        ),
      ),
    )

run_line-Ends :
    (load : Bytes → Bool) (line_copy cmd : Bytes) (behind : Option Bytes) (s : Globals)
    → is_comment cmd ≡ true ⊎ IsKeeping (before space line_copy)
    → IsAlive s
    → Ends IsAliveAfter (run_line load (some line_copy) cmd behind s)
unfolding run_line
run_line-Ends load line_copy cmd behind s (inl comment) h =
    subst
      (λ b. Ends IsAliveAfter (
        if b
        then done (false, s)
        else run_command load (before space line_copy) (after space line_copy) cmd behind s))
      (sym comment) h
run_line-Ends load line_copy cmd behind s (inr keeping) h =
    Ends-if IsAliveAfter (is_comment cmd) (done (false, s)) _ h (
      run_command-Ends load (before space line_copy) (after space line_copy) cmd behind s keeping h)

-- A line that the replacement leaves room for, and that is a comment or whose first word then is
-- neither `fadeout` nor `clearlog`.
abbrev pub IsFine : Bytes → Bytes × Option Bytes → Type 0
IsFine conf (cmd, behind) =
    (length cmd + length conf * length cmd < size_values)
    × ((line_copy : Bytes)
        → Replaced (codes "$CONF") conf cmd line_copy
        → is_comment cmd ≡ true ⊎ IsKeeping (before space line_copy))

-- A line without $CONF is fine if its own first word is.
pub IsFine-kept :
    (conf cmd : Bytes) (behind : Option Bytes)
    → find (codes "$CONF") cmd ≡ none
    → length cmd + length conf * length cmd < size_values
    → is_comment cmd ≡ true ⊎ IsKeeping (before space cmd)
    → IsFine conf (cmd, behind)
IsFine-kept conf cmd behind missing fits kind = (
  fits,
  λ copy is_copy.
      subst (λ t. is_comment cmd ≡ true ⊎ IsKeeping (before space t))
        (Replaced-unique (codes "$CONF") conf cmd cmd copy
          (kept cmd (λ p r. find-none (codes "$CONF") cmd p r missing)) is_copy)
        kind,
)

module _ (alloc : ℕ → Bool) (load : Bytes → Bool) (conf : Bytes)
    (room : (n : ℕ) → alloc n ≡ true) where
  process_line-Ends :
      (cmd : Bytes) (behind : Option Bytes) (s : Globals)
      → IsFine conf (cmd, behind)
      → IsAlive s
      → Ends IsAliveAfter (process_line alloc load conf cmd behind s)
  unfolding process_line
  process_line-Ends cmd behind s (fits, kind) h =
      let (r, e, is_r) =
        repl_str-Replaced alloc cmd (codes "$CONF") conf (length cmd + 1) room (omega arith)
          (omega arith) fits in
      subst (λ m. Ends IsAliveAfter (m >>= (λ copy. run_line load copy cmd behind s))) (sym e)
        (run_line-Ends load r cmd behind s (kind r is_r) h)

  process_lines-Ends :
      (lines : List (Bytes × Option Bytes)) (n : ℕ) (s : Globals)
      → All (IsFine conf) lines
      → IsAlive s
      → Ends IsAliveAfter (process_lines alloc load conf lines n s)
  unfolding process_lines
  process_lines-Ends [] n s fine h = h
  process_lines-Ends ((cmd, behind) ∷ lines) n s (f, fine) h =
      Ends-bind IsAliveAfter IsAliveAfter (process_line alloc load conf cmd behind s) _
        (process_line-Ends cmd behind s f h)
        (λ (v, s1) k. process_lines-Ends lines (if v then n + 1 else n) s1 fine k)

  process_all-Ends :
      (lines : List (Bytes × Option Bytes)) (s : Globals)
      → All (IsFine conf) lines
      → IsAlive s
      → Ends IsAliveAfter (process_all alloc load conf lines s)
  unfolding process_all
  process_all-Ends [] s fine h = refl
  process_all-Ends (l ∷ lines) s fine h =
      Ends-bind IsAliveAfter IsAliveAfter (process_lines alloc load conf (l ∷ lines) 0 s) _
        (process_lines-Ends (l ∷ lines) 0 s fine h) (λ (n, s1) k. k)

-- A script whose lines are comments or commands other than `fadeout` and `clearlog`, after the
-- replacement, run where the textures that are shown and the log are there, and memory does not run
-- out: it comes to an end; if it goes through, they are still there, and if not, that is not for a use
-- of something that was freed or never set.
pub process_command-IsAlive :
    (alloc : ℕ → Bool) (load : Bytes → Bool) (conf buf : Bytes) (s : Globals)
    → ((n : ℕ) → alloc n ≡ true)
    → All (IsFine conf) (lines_from [] buf)
    → IsAlive s
    → Ends IsAliveAfter (process_command alloc load conf buf s)
unfolding process_command
process_command-IsAlive alloc load conf buf s room fine h =
    process_all-Ends alloc load conf room (lines_from [] buf) s fine h
