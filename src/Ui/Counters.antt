-- ===== src/Ui/Counters.antt =====
-- lib/ui.c: the counters of the UI loop and its delay.
use wallyd.Common.{
  ℕ, zero, suc, ◌+◌, ◌≤◌, ◌≡◌, Bool, false, Option, none, some, List, [], ◌∷◌, arith, Outcome, done,
}
use wallyd.Wtx
use wallyd.Common.Str.{Bytes}
use wallyd.External.{HashTable, PriQueue}
use wallyd.Call.{Ptr, Event, PluginHandler}
use wallyd.Ui.{run_elements, run_wtx, run_threaded, dispatch, ui_round, ui_loop}

-- Every round either took an event or waited, and the delay grows up to 100 ms.
pub record IsCounted {H : HashTable} {Q : PriQueue} (s : PluginHandler H Q) : Type 0 where
  pub all : s.ui_all_count ≡ s.ui_own_count + s.ui_event_timeout
  pub delay : s.event_delay ≤ 100

module _ {H : HashTable} {Q : PriQueue}
    (run : ℕ → Ptr → PluginHandler H Q → Outcome (PluginHandler H Q))
    (keeps : (f : ℕ) (p : Ptr) (s t : PluginHandler H Q)
      → run f p s ≡ done t
      → IsCounted s
      → IsCounted t) where
  run_elements-IsCounted :
      (rounds i p : ℕ) (freed : Bool) (s : PluginHandler H Q) (r : Bool × PluginHandler H Q)
      → run_elements run rounds i p freed s ≡ done r
      → IsCounted s
      → IsCounted r.1
  unfolding run_elements
  run_elements-IsCounted zero i p freed s r h c = ground arith
  run_elements-IsCounted (suc rounds) i p freed s r h c =
      grind (arith, keeps, run_elements-IsCounted rounds (i + 1) p)

  run_wtx-IsCounted :
      (q : Ptr) (s t : PluginHandler H Q) → run_wtx run q s ≡ done t → IsCounted s → IsCounted t
  unfolding run_wtx
  run_wtx-IsCounted q s t h c =
      grind (arith, λ (p : ℕ). run_elements-IsCounted Wtx.wtx_size 0 p false)

  run_threaded-IsCounted :
      (func : Bytes) (e : Event) (s t : PluginHandler H Q)
      → run_threaded run func e s ≡ done t
      → IsCounted s
      → IsCounted t
  unfolding run_threaded
  run_threaded-IsCounted func e s t h c = grind (arith, keeps)

  dispatch-IsCounted :
      (e : Event) (s t : PluginHandler H Q) → dispatch run e s ≡ done t → IsCounted s → IsCounted t
  unfolding dispatch
  dispatch-IsCounted e s t h c = grind (arith, run_wtx-IsCounted, run_threaded-IsCounted)

  ui_round-IsCounted :
      (e : Option Event) (s t : PluginHandler H Q)
      → ui_round run e s ≡ done t
      → IsCounted s
      → IsCounted t
  unfolding ui_round
  ui_round-IsCounted none s t h c = ground arith
  ui_round-IsCounted (some e) s t h c =
      dispatch-IsCounted e
        (record s {
          ui_all_count = s.ui_all_count + 1;
          event_delay = 5;
          ui_own_count = s.ui_own_count + 1;
        })
        t h (record { all = omega arith; delay = omega arith })

  -- Whatever is polled, and whatever the functions do to the state that is not the loop's own
  -- counters: as long as the loop runs, every round was counted once, as an event or as a wait, and
  -- the delay between two polls is at most 100 ms.
  pub ui_loop-IsCounted :
      (es : List (Option Event)) (s t : PluginHandler H Q)
      → ui_loop run es s ≡ done t
      → IsCounted s
      → IsCounted t
  unfolding ui_loop
  ui_loop-IsCounted [] s t h c = ground arith
  ui_loop-IsCounted (e ∷ es) s t h c = grind (arith, ui_round-IsCounted e s, ui_loop-IsCounted es)
