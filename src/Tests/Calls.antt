-- ===== src/Tests/Calls.antt =====
-- The functions of lib/plugins.c at concrete states.
use wallyd.Common.{
  ℕ, ◌<◌, ◌≡◌, refl, true, false, not, ◌&&◌, Option, none, some, List, [], ◌∷◌, arith,
  out_of_bounds, Outcome, done, fault, blocked, ◌>>=◌, update,
}
use wallyd.Common.Str.{Bytes, codes}
use wallyd.Common.Int.{pos}
use wallyd.Tests.Tables.{assoc_table, ranked_queue}
use wallyd.Tests.States.{
  no_contexts, empty_registry, one_element, one_context, some_functions, ready, ready_context,
  do_nothing, in_time,
}
use wallyd.Wtx.{Contexts, store, new_wtx, max_wtx, push_simple_wtx}
use wallyd.Wtx.Alloc.{push_simple_wtx_full, new_wtx_cases, registered}
use wallyd.Registry.{FunctionListEntry, wally_put_function_list}
use wallyd.Registry.Laws.{wally_put_function_list_first, wally_put_function_list_last}
use wallyd.Call.{
  Ptr, null, wtx, PluginHandler, call_ex, post, commit_wtx, scall, call_event, call_type_wtx,
  call_type_ptr, default_prio,
}
use wallyd.Call.Lock.{is_registered, call_ex_returns}
use wallyd.Call.Context.{commit_wtx-false, scall_after_null}

new_wtx_cases_example :
    (max_wtx < 2 → new_wtx (pos 2) no_contexts ≡ done (none, no_contexts))
    × (0 < 2 → 2 < max_wtx → new_wtx (pos 2) no_contexts ≡ done (some 0, registered 2 no_contexts))
    × (new_wtx (pos max_wtx) no_contexts ≡ fault out_of_bounds)
new_wtx_cases_example = new_wtx_cases 2 no_contexts

abbrev full_context : Contexts
full_context = record one_context {
  live = update (λ _. none) 0 (some (record one_element { elements = 512 }));
}

push_simple_wtx_full_example :
    push_simple_wtx true (codes "hide") none full_context ≡ fault out_of_bounds
push_simple_wtx_full_example =
    push_simple_wtx_full true (codes "hide") none full_context 0
      (record one_element { elements = 512 }) refl refl (omega arith)

-- Two functions under one name, each time.
abbrev exports : List FunctionListEntry
exports =
    record { name = codes "log"; threaded = false; value = 4; nargs = 0 }
    ∷ record { name = codes "log"; threaded = false; value = 5; nargs = 0 }
    ∷ record { name = codes "show"; threaded = true; value = 10; nargs = 0 }
    ∷ record { name = codes "show"; threaded = true; value = 11; nargs = 0 }
    ∷ []

abbrev no_condition : Bytes → Option ℕ
no_condition name = none

wally_put_function_list_first_example :
    assoc_table.get
      (wally_put_function_list {H = assoc_table} no_condition exports empty_registry).functions
      (codes "log")
    ≡ some 4
wally_put_function_list_first_example =
    wally_put_function_list_first {H = assoc_table} no_condition exports empty_registry
      (codes "log")

wally_put_function_list_last_example :
    assoc_table.get
      (wally_put_function_list {H = assoc_table} no_condition exports some_functions).thr_functions
      (codes "show")
    ≡ some 11
wally_put_function_list_last_example =
    wally_put_function_list_last {H = assoc_table} no_condition exports some_functions
      (codes "show") refl refl

-- A call of `show` with a pointer.
abbrev after_show : PluginHandler assoc_table ranked_queue
after_show = record ready {
  events = call_event (codes "show") null call_type_ptr ∷ [];
  call_count = 1;
}

show_called :
    call_ex do_nothing in_time (some (codes "show")) true null call_type_ptr false ready
    ≡ done (true, after_show)
unfolding call_ex post
show_called = refl

call_ex_returns_example :
    (false ≡ false)
    × (after_show.call_locked ≡ not (is_registered (codes "show") some_functions))
    × (true ≡ true && is_registered (codes "show") some_functions)
call_ex_returns_example =
    call_ex_returns do_nothing in_time (codes "show") true null call_type_ptr false ready after_show
      true show_called

abbrev after_unknown : PluginHandler assoc_table ranked_queue
after_unknown = record ready { call_locked = true; call_count = 1 }

unknown_called :
    call_ex do_nothing in_time (some (codes "x")) true null call_type_ptr false ready
    ≡ done (false, after_unknown)
unfolding call_ex
unknown_called = refl

abbrev show_it :
    ℕ
    → Ptr
    → PluginHandler assoc_table ranked_queue
    → Outcome (PluginHandler assoc_table ranked_queue)
show_it f p s =
    call_ex do_nothing in_time (some (codes "show")) true null call_type_ptr false s >>= λ (b, t).
    done t

show_it_called :
    (p : Ptr) (u : PluginHandler assoc_table ranked_queue)
    → u.call_locked ≡ true
    → show_it 3 p u ≡ (
        call_ex show_it in_time (some (codes "show")) true null call_type_ptr false u >>= λ (b, t).
        done t)
unfolding call_ex
show_it_called p u locked = ground arith

-- A commit of the transaction 1.
abbrev committed : PluginHandler assoc_table ranked_queue
committed = record ready_context {
  contexts =
      store 0 (record one_element { transaction_id = pos 1; can_be_reused = true }) one_context;
  queue = (wtx 0, default_prio) ∷ [];
  events = call_event (codes "commit") (wtx 0) call_type_wtx ∷ [];
  call_count = 1;
}

commit_called : commit_wtx do_nothing in_time (pos 1) ready_context ≡ done (false, committed)
unfolding commit_wtx call_ex post
commit_called = refl

commit_wtx-false_example : false ≡ false
commit_wtx-false_example =
    commit_wtx-false do_nothing in_time (pos 1) ready_context committed false commit_called

scall_null_called :
    scall do_nothing in_time none ready ≡ done (record ready { ph_call_locked = true })
unfolding scall
scall_null_called = refl

scall_after_null_example :
    scall do_nothing in_time (some (codes "show it")) (record ready { ph_call_locked = true })
    ≡ blocked
scall_after_null_example =
    scall_after_null do_nothing in_time (some (codes "show it")) ready
      (record ready { ph_call_locked = true }) scall_null_called
