-- ===== src/Tests/States.antt =====
-- The states at which the theorems are tried.
use wallyd.Common.{ℕ, suc, ◌+◌, Bool, false, none, some, [], ◌∷◌, Outcome, done, update}
use wallyd.Common.Str.{Bytes, codes}
use wallyd.Tests.Tables.{assoc_table, ranked_queue}
use wallyd.Wtx.{Contexts, WallyCallCtx, zeroed, fill}
use wallyd.Registry.{Registry}
use wallyd.Call.{Ptr, PluginHandler}

abbrev pub no_contexts : Contexts
no_contexts = record {
  live = λ _. none;
  next = 0;
  later = suc;
  transactions = λ _. none;
  strings = 0;
  wtx_locked = false;
}

abbrev pub empty_registry : Registry assoc_table
empty_registry = record { functions = []; thr_functions = []; function_wait_conditions = [] }

-- The state that `pluginsInit` leaves, of what is modelled here.
abbrev pub idle : PluginHandler assoc_table ranked_queue
idle = record {
  registry = empty_registry;
  contexts = no_contexts;
  queue = [];
  events = [];
  call_locked = false;
  ph_call_locked = false;
  ta_locked = false;
  transaction = false;
  transaction_count = 1;
  call_count = 0;
  condition_timeout = 0;
  quit = false;
  play_video = false;
  ui_all_count = 0;
  ui_own_count = 0;
  ui_event_timeout = 0;
  event_delay = 0;
}

-- One context of a transaction, with one element, entered at place 1.
abbrev pub one_element : WallyCallCtx
one_element = fill 0 (codes "show") none zeroed

abbrev pub one_context : Contexts
one_context = record {
  live = update (λ _. none) 0 (some one_element);
  next = 1;
  later = λ n. n + 2;
  transactions = update (λ _. none) 1 (some 0);
  strings = 1;
  wtx_locked = false;
}

-- Threaded functions 7 to 9, and a synchronous one.
abbrev pub some_functions : Registry assoc_table
some_functions = record {
  functions = (codes "log", some 3) ∷ [];
  thr_functions = (codes "show", some 7) ∷ (codes "hide", some 8) ∷ (codes "commit", some 9) ∷ [];
  function_wait_conditions = [];
}

abbrev pub ready : PluginHandler assoc_table ranked_queue
ready = record idle { registry = some_functions }

abbrev pub ready_context : PluginHandler assoc_table ranked_queue
ready_context = record ready { contexts = one_context }

-- Functions that do nothing, and a wait that is never cut short.
abbrev pub do_nothing :
    ℕ
    → Ptr
    → PluginHandler assoc_table ranked_queue
    → Outcome (PluginHandler assoc_table ranked_queue)
do_nothing f p s = done s

abbrev pub in_time : Bytes → ℕ → Bool
in_time func n = false
