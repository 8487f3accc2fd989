-- ===== src/Tests/Loop.antt =====
-- The functions of lib/ui.c on events at concrete states.
use wallyd.Common.{ℕ, ◌≡◌, refl, true, false, none, some, [], ◌∷◌, ◌++◌, arith, done, ◌>>=◌, update}
use wallyd.Common.Str.{codes}
use wallyd.Tests.Tables.{assoc_table, ranked_queue}
use wallyd.Tests.States.{one_element, one_context, ready, ready_context, do_nothing, in_time}
use wallyd.Wtx
use wallyd.Wtx.{Contexts, WallyCallCtx, fill}
use wallyd.Call.{Ptr, null, wtx, PluginHandler, call_wtx, call_event, call_type_wtx, call_type_ptr}
use wallyd.Ui.{run_wtx, dispatch, ui_round, ui_loop}
use wallyd.Ui.Counters.{IsCounted}
use wallyd.Ui.Elements.{calls, run_calls, run_wtx-run_calls}
use wallyd.Ui.EndToEnd.{call_wtx-ui_round}

keeps_counters :
    (f : ℕ) (p : Ptr) (s t : PluginHandler assoc_table ranked_queue)
    → do_nothing f p s ≡ done t
    → IsCounted s
    → IsCounted t
keeps_counters f p s t h c = ground arith

-- A round that waits, and one with an event that finds no context queued.
abbrev waited : PluginHandler assoc_table ranked_queue
waited = record ready { ui_all_count = 2; ui_own_count = 1; ui_event_timeout = 1; event_delay = 5 }

looped :
    ui_loop do_nothing (none ∷ some (call_event (codes "show") null call_type_ptr) ∷ []) ready
    ≡ done waited
unfolding ui_loop ui_round dispatch call_event
looped = refl

keeps_context :
    (f : ℕ) (q : Ptr) (s t : PluginHandler assoc_table ranked_queue)
    → do_nothing f q s ≡ done t
    → (t.contexts.live 0 ≡ s.contexts.live 0)
      × (t.registry.thr_functions ≡ s.registry.thr_functions)
keeps_context f q s t h = (ground arith, ground arith)

run_wtx-run_calls_example : run_wtx do_nothing (wtx 0) ready_context ≡ (
    run_calls {H = assoc_table} {Q = ranked_queue} do_nothing (calls one_element 0 1) ready_context
    >>= λ t. Wtx.free_wtx 0 t.contexts >>= λ c. done (record t { contexts = c; ta_locked = false }))
run_wtx-run_calls_example =
    run_wtx-run_calls {H = assoc_table} {Q = ranked_queue} do_nothing one_element 0 keeps_context
      ready_context refl (omega arith) ((7, refl), tt)

-- A context for a synchronous function.
abbrev log_context : PluginHandler assoc_table ranked_queue
log_context = record ready {
  contexts = record one_context {
    live = update (λ _. none) 0 (some (fill 0 (codes "log") none Wtx.zeroed));
  };
}

leaves_context :
    (x y : PluginHandler assoc_table ranked_queue)
    → do_nothing 7 null x ≡ done y
    → y.contexts.live 0 ≡ x.contexts.live 0
leaves_context x y h = ground arith

call_wtx-ui_round_example :
    (t u : PluginHandler assoc_table ranked_queue) × (call_wtx do_nothing in_time
        (codes "show")
        none
        ready
      ≡ done (true, t))
    × (t.events ≡ [] ++ call_event (codes "show") (wtx 0) call_type_wtx ∷ [])
    × (u.contexts ≡ t.contexts)
    × (u.queue ≡ [])
    × (ui_round do_nothing (some (call_event (codes "show") (wtx 0) call_type_wtx)) t ≡ (
        do_nothing 7 null u >>= λ v.
        Wtx.free_wtx 0 v.contexts >>= λ c. done (record v { contexts = c; ta_locked = false })))
call_wtx-ui_round_example =
    call_wtx-ui_round do_nothing in_time 7 (codes "show") none ready leaves_context refl refl refl
      refl refl
