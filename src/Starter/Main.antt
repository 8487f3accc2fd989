-- ===== src/Starter/Main.antt =====
-- src/wallystart.c: `main` from the start of its script on. What SDL_PollEvent gives, until it gives
-- nothing, is a list of the types of events for each turn of the outer loop; the program would wait in
-- it when there are no more turns. The sizes, the font and the thread of the log are started before.
pub mod Ending
use wallyd.Common.{
  ℕ, Bool, false, ◌||◌, Option, none, List, [], ◌∷◌, ◌==◌, if◌then◌else◌, Outcome, done, blocked,
  ◌>>=◌,
}
use wallyd.Common.Str.{Bytes, codes}
use wallyd.Common.Int.{pos}
use wallyd.Starter.Screen.{LogText, log_text, Globals, show_texture, destroy_texture}
use wallyd.Starter.Script.{process_startup_script}

abbrev pub sdl_quit : ℕ
sdl_quit = 256

abbrev pub sdl_app_terminating : ℕ
sdl_app_terminating = 257

abbrev pub sdl_mousebuttondown : ℕ
sdl_mousebuttondown = 1025

abbrev pub ends : ℕ → Bool
ends type = type == sdl_mousebuttondown || type == sdl_app_terminating || type == sdl_quit

unfoldable pub poll_events : List ℕ → Globals → Outcome Globals
poll_events [] s = done s
poll_events (type ∷ types) s =
    show_texture s.t1 (record s { quit = s.quit || ends type }) >>= poll_events types

unfoldable pub main_loop : List (List ℕ) → Globals → Outcome Globals
main_loop [] s = if s.quit then done s else blocked
main_loop (types ∷ turns) s = if s.quit then done s else poll_events types s >>= main_loop turns

-- What is destroyed at the end.
unfoldable pub clean_up : Globals → Outcome Globals
clean_up s = destroy_texture s.t1 s >>= (λ s1. destroy_texture s1.t2 s1)

abbrev pub started : Globals
started = record {
  t1 = none;
  t2 = none;
  live = λ t. false;
  next = 0;
  rot = pos 0;
  color = codes "0xffffff";
  log = log_text (codes " ");
  quit = false;
  slept = 0;
  frames = [];
}

unfoldable pub run_main :
    (ℕ → Bool) → (Bytes → Bool) → Bytes → Option Bytes → List (List ℕ) → Outcome Globals
run_main alloc load conf file turns =
    process_startup_script alloc load conf file started >>= main_loop turns >>= clean_up
