-- ===== src/Ui.antt =====
-- lib/ui.c: the event filter and the loop of the main thread (with WAIT_EV off, as CMakeLists.txt
-- sets it), which takes the calls that `callEx` posted. `run` is as in Call. What `SDL_PollEvent`
-- gives is an input of each round; `SDL_Delay` and `SDL_CondSignal` have no effect on the state,
-- and the copies of the event's name are not counted.
pub mod Filter
pub mod Counters
pub mod Elements
pub mod EndToEnd
use wallyd.Common.{
  ℕ, zero, suc, ◌+◌, sym, Bool, true, false, not, ◌&&◌, Option, none, some, List, [], ◌∷◌, ltb,
  ◌==◌, if◌then◌else◌, null_pointer, out_of_bounds, use_after_free, Outcome, done, fault, ◌>>=◌,
}
use wallyd.Common.Str.{Bytes, codes, str_eq}
use wallyd.External.{HashTable, PriQueue}
use wallyd.Wtx
use wallyd.Call.{
  Ptr, null, str, wtx, object, Event, PluginHandler, wally_call_wtx, wally_call_ptr,
  wally_call_null, wally_call_str, sdl_userevent,
}

abbrev pub sdl_quit : ℕ
sdl_quit = 0x100

abbrev pub sdl_keydown : ℕ
sdl_keydown = 0x300

abbrev pub refresh_timer : Bytes
refresh_timer = codes "ffvideo::refresh_timer"

-- 1 lets the event into SDL's queue and 0 drops it.
unfoldable pub event_filter :
    {H : HashTable} {Q : PriQueue} → Event → PluginHandler H Q → Outcome (Bool × PluginHandler H Q)
event_filter e s =
    if e.type == sdl_quit
    then done (false, record s { quit = true })
    else if e.type == sdl_keydown
    then done (false, if e.sym == 27 then record s { quit = true } else s)
    else if ltb e.type sdl_userevent
    then done (false, s)
    else if e.type == sdl_userevent + 2
    then done (false, s)
    else elim e.data1 [
      | none ↦ fault null_pointer
      | some func ↦ done (not (str_eq func refresh_timer && not s.play_video), s)
    ]

-- A pointer that is read as a context; what is not one has another layout.
abbrev pub as_wtx : Ptr → Outcome ℕ
as_wtx (wtx p) = done p
as_wtx null = fault null_pointer
as_wtx _ = fault out_of_bounds

abbrev pub to_ptr : Option Bytes → Ptr
to_ptr none = null
to_ptr (some s) = str s

-- strdup(event.user.data2)
abbrev pub as_str : Ptr → Outcome Ptr
as_str (str s) = done (str s)
as_str null = fault null_pointer
as_str _ = fault out_of_bounds

module _ {H : HashTable} {Q : PriQueue}
    (run : ℕ → Ptr → PluginHandler H Q → Outcome (PluginHandler H Q)) where
  -- The loop over a context's elements from `i` on, with `rounds` places left in its arrays. `freed`
  -- says whether `funcName` was freed: an element that is in neither table frees it. An element
  -- that is in `functions` alone is found by a variable of the inner block, and what is called is
  -- the outer one, which is NULL.
  unfoldable pub run_elements :
      ℕ → ℕ → ℕ → Bool → PluginHandler H Q → Outcome (Bool × PluginHandler H Q)
  run_elements zero i p freed s = Wtx.load p s.contexts >>= λ w.
      if ltb i w.elements then fault out_of_bounds else done (freed, s)
  run_elements (suc rounds) i p freed s = Wtx.load p s.contexts >>= λ w. elim (ltb i w.elements) [
    | false ↦ done (freed, s)
    | true ↦ elim (w.name i) [
      | none ↦ fault null_pointer
      | some name ↦ elim (H.get s.registry.thr_functions name) [
        | some f ↦ run f (to_ptr (w.param i)) s >>= λ t. run_elements rounds (i + 1) p freed t
        | none ↦ elim (H.get s.registry.functions name) [
          | some g ↦ fault null_pointer
          | none ↦ elim freed [
            | true ↦ fault use_after_free
            | false ↦ run_elements rounds (i + 1) p true s
          ]
        ]
      ]
    ]
  ]

  -- The branch of a WALLY_CALL_WTX event, behind the pop.
  unfoldable pub run_wtx : Ptr → PluginHandler H Q → Outcome (PluginHandler H Q)
  run_wtx param s = as_wtx param >>= λ p. run_elements Wtx.wtx_size 0 p false s >>= λ (freed, t).
      if freed
      then fault use_after_free
      else Wtx.free_wtx p t.contexts >>= λ c. done (record t { contexts = c; ta_locked = false })

  -- The `switch` for the other events.
  unfoldable pub run_threaded : Bytes → Event → PluginHandler H Q → Outcome (PluginHandler H Q)
  run_threaded func e s = elim (H.get s.registry.thr_functions func) [
    | none ↦ done s
    | some f ↦
        if e.type == wally_call_ptr
        then run f e.data2 s
        else if e.type == wally_call_str
        then as_str e.data2 >>= (λ copy. run f copy s)
        else if e.type == wally_call_null
        then run f null s
        else done s
  ]

  -- The rest of a round, once an event was polled.
  unfoldable pub dispatch : Event → PluginHandler H Q → Outcome (PluginHandler H Q)
  dispatch e s = elim e.data1 [
    | none ↦ fault null_pointer
    | some func ↦
        let (node, rest) = Q.pop s.queue in
        let t = record s { queue = rest } in
        elim node [
          | none ↦ done t
          | some param ↦ if e.type == wally_call_wtx then run_wtx param t else run_threaded func e t
        ]
  ]

  -- One round of `while(!ph->quit)`.
  unfoldable pub ui_round : Option Event → PluginHandler H Q → Outcome (PluginHandler H Q)
  ui_round none s = done (record s {
    ui_all_count = s.ui_all_count + 1;
    ui_event_timeout = s.ui_event_timeout + 1;
    event_delay = if ltb s.event_delay 100 then s.event_delay + 1 else s.event_delay;
  })
  ui_round (some e) s = dispatch e (record s {
    ui_all_count = s.ui_all_count + 1;
    event_delay = 5;
    ui_own_count = s.ui_own_count + 1;
  })

  -- The loop over what is polled, round by round; it ends when `quit` is set.
  unfoldable pub ui_loop : List (Option Event) → PluginHandler H Q → Outcome (PluginHandler H Q)
  ui_loop [] s = done s
  ui_loop (e ∷ es) s = elim s.quit [ true ↦ done s | false ↦ ui_round e s >>= λ t. ui_loop es t ]
