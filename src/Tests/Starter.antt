-- ===== src/Tests/Starter.antt =====
-- The program of src/wallystart.c at small inputs.
use wallyd.Common.{
  ℕ, ◌+◌, ◌<◌, ◌≡◌, refl, inl, inr, Bool, true, false, Option, none, some, List, [], ◌∷◌, ◌++◌,
  arith, length, get_elem?, All, use_after_free, done, fault, ◌>>=◌,
}
use wallyd.Common.Str.{Bytes, codes}
use wallyd.Common.Strtol.{digits_value, strtol}
use wallyd.Starter.GetLine.{Listener, listen}
use wallyd.Starter.GetLine.Lines.{joined_lines, listen_lines}
use wallyd.Replace.{replace}
use wallyd.Starter.ReplStr.{repl_str}
use wallyd.Starter.ReplStr.Same.{repl_str-replace}
use wallyd.Starter.Screen.{Frame, shaded, Globals, show_texture}
use wallyd.Starter.Screen.Frames.{overlay}
use wallyd.Starter.Fades.{space, is_zero, run_fadein, run_fadeover, run_fadeout}
use wallyd.Starter.Script.{lines_from, process_command}
use wallyd.Starter.Alive.Held.{Ends}
use wallyd.Starter.Alive.Lines.{IsFine, IsFine-kept, IsAliveAfter, process_command-IsAlive}
use wallyd.Starter.Main.{main_loop, clean_up, started}
use wallyd.Starter.Main.Ending.{main_loop_ends, run_fadeover-clean_up}
use wallyd.Starter.Shown.{brightness, run_fadein-run_fadeout}

abbrev roomy : ℕ → Bool
roomy n = true

abbrev whole : Bytes → Option ℕ
whole t = some (length t)

abbrev quiet : Listener
quiet = record { log = []; events = 0; echoed = [] }

abbrev two_messages : List Bytes
two_messages = codes "up" ∷ codes "ok" ∷ []

listen_lines_example :
    listen roomy whole 3 (joined_lines two_messages ++ codes "x") quiet
    ≡ done (record { log = codes "ok"; events = 2; echoed = codes "up\nok\n" })
listen_lines_example =
    listen_lines roomy whole 3 two_messages (codes "x") quiet (λ n. refl) (λ t. refl)
      (((refl, (refl, tt)), omega arith), (((refl, (refl, tt)), omega arith), tt))
      ((refl, tt), omega arith) (omega arith)

repl_str-replace_example :
    (r : Bytes) × (repl_str roomy 9 (codes "a$b$c") (codes "$") (codes "xy") ≡ done (some r))
    × (replace roomy 9 (some (codes "a$b$c")) (some (codes "$")) (some (codes "xy"))
        ≡ some (done (some r)))
repl_str-replace_example =
    repl_str-replace roomy (codes "a$b$c") (codes "$") (codes "xy") 9 (λ n. refl) (omega arith)
      (omega arith) (omega arith)

abbrev every_file : Bytes → Bool
every_file name = true

abbrev short_script : Bytes
short_script = codes "# x\nfadein 1 a\nlog on"

short_script-IsFine : All (IsFine (codes "/etc")) (lines_from [] short_script)
unfolding lines_from
short_script-IsFine = (
  IsFine-kept (codes "/etc") (codes "# x") (some (codes "fadein 1 a\nlog on")) refl (omega arith)
      (inl refl),
  (
    IsFine-kept (codes "/etc") (codes "fadein 1 a") (some (codes "log on")) refl (omega arith)
        (inr (refl, refl)),
    (IsFine-kept (codes "/etc") (codes "log on") none refl (omega arith) (inr (refl, refl)), tt),
  ),
)

process_command-IsAlive_example :
    Ends IsAliveAfter (process_command roomy every_file (codes "/etc") short_script started)
process_command-IsAlive_example =
    process_command-IsAlive roomy every_file (codes "/etc") short_script started (λ n. refl)
      short_script-IsFine (tt, tt, (codes " ", refl))

main_loop_ends_example :
    (fs : List Frame) × (main_loop ((1 ∷ []) ∷ (1 ∷ 256 ∷ []) ∷ []) started
      ≡ done (record started { quit = true; frames = fs }))
    × (length fs ≡ 3)
main_loop_ends_example =
    main_loop_ends (codes " ") ((1 ∷ []) ∷ (1 ∷ 256 ∷ []) ∷ []) started tt refl refl refl

one_is_one : is_zero (strtol (codes "1") 10).0 ≡ false
unfolding strtol digits_value
one_is_one = refl

run_fadeover-clean_up_example :
    (run_fadeover every_file (some (codes "1" ++ space ∷ codes "a")) started
      >>= main_loop ((256 ∷ []) ∷ [])
      >>= clean_up)
    ≡ fault use_after_free
run_fadeover-clean_up_example =
    run_fadeover-clean_up every_file (codes "1") (codes "a") (codes " ") ((256 ∷ []) ∷ []) started
      (tt, tt, (codes " ", refl)) refl refl (refl, tt) (refl, tt) one_is_one refl refl

run_fadein-run_fadeout_example :
    (s' : Globals) × ((run_fadein every_file (some (codes "1" ++ space ∷ codes "a")) started
        >>= run_fadeout none)
      ≡ done s')
    × ((i : ℕ)
        → i < 510
        → get_elem? s'.frames i
          ≡ some (shaded (some 0) (brightness i) (overlay (codes " ") started)))
    × ((i : ℕ) → get_elem? s'.frames (510 + i) ≡ get_elem? [] i)
    × (s'.t1 ≡ some 0)
    × (show_texture s'.t1 s' ≡ fault use_after_free)
run_fadein-run_fadeout_example =
    run_fadein-run_fadeout every_file (codes "1") (codes "a") (codes " ") started refl (refl, tt)
      (refl, tt) one_is_one refl
