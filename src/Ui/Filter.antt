-- ===== src/Ui/Filter.antt =====
-- lib/ui.c: which events the filter lets through, and which of those that `callEx` posts.
use wallyd.Common.{ℕ, ◌+◌, ◌≡◌, Bool, not, ◌&&◌, ◌||◌, some, arith, leb, ◌==◌, done}
use wallyd.Common.Str.{Bytes, str_eq}
use wallyd.External.{HashTable, PriQueue}
use wallyd.Call.{Ptr, Event, PluginHandler, sdl_userevent, call_event, call_type_ptr, call_type_wtx}
use wallyd.Ui.{sdl_quit, sdl_keydown, refresh_timer, event_filter}

-- The event is a timer event of a video that is no longer played.
abbrev pub is_orphaned : Bytes → Bool → Bool
is_orphaned func play_video = str_eq func refresh_timer && not play_video

-- The event asks the program to end.
abbrev pub is_quit : Event → Bool
is_quit e = e.type == sdl_quit || (e.type == sdl_keydown && e.sym == 27)

-- An event that names a function passes the filter exactly if it is a user event, not the one that
-- ends a video, and not an orphaned timer event; the filter changes nothing but `quit`, and sets
-- that exactly for SDL's quit event and for the escape key.
pub event_filter_lem :
    {H : HashTable} {Q : PriQueue} (e : Event) (func : Bytes) (s : PluginHandler H Q)
    → e.data1 ≡ some func
    → event_filter e s
      ≡ done (
        leb sdl_userevent e.type
            && not (e.type == sdl_userevent + 2)
            && not (is_orphaned func s.play_video),
        record s { quit = s.quit || is_quit e },
      )
unfolding event_filter
event_filter_lem e func s named = ground arith

-- Of the events that `callEx` posts the filter lets those for a pointer, NULL or a context through,
-- unless they are orphaned timer events, and it drops those for a string, so that a threaded
-- function which is called with a string (as `callSync` does) never reaches the UI loop.
pub event_filter-call_event :
    {H : HashTable} {Q : PriQueue} (func : Bytes) (params : Ptr) (kind : ℕ) (s : PluginHandler H Q)
    → event_filter (call_event func params kind) s
      ≡ done (
        (kind == call_type_ptr || kind == call_type_wtx) && not (is_orphaned func s.play_video),
        s,
      )
unfolding event_filter call_event
event_filter-call_event func params kind s = ground arith
