-- ===== src/Tests/Scripts.antt =====
-- The functions of plugins/transaction.c and lib/util.c at concrete states.
use wallyd.Common.{
  ℕ, ◌≡◌, refl, ◌≢◌, true, none, some, [], ◌∷◌, arith, use_after_free, done, fault, update,
}
use wallyd.Common.Str.{codes}
use wallyd.Common.Int.{pos}
use wallyd.Common.Strtol.{digits_value, strtol}
use wallyd.Tests.Tables.{assoc_table, ranked_queue}
use wallyd.Tests.States.{one_element, one_context, ready, ready_context, do_nothing, in_time}
use wallyd.Wtx
use wallyd.Wtx.{zeroed}
use wallyd.Call.{
  Ptr, PluginHandler, wtx, default_prio, call_event, call_type_wtx, call_ex, commit_wtx, post,
}
use wallyd.Ui.{run_wtx, run_elements}
use wallyd.Transaction.{clear_transaction, js_new_transaction, js_commit_transaction}
use wallyd.Transaction.Lifetime.{commit_after_run, new_after_run, js_new_transaction-commit}
use wallyd.Number.{percent, read_int, get_num_or_percent_ex, get_num_or_percent}
use wallyd.Number.Laws.{get_num_or_percent_decimal}

keeps_array :
    (f : ℕ) (q : Ptr) (s t : PluginHandler assoc_table ranked_queue)
    → do_nothing f q s ≡ done t
    → (t.contexts.transactions ≡ s.contexts.transactions)
      × (t.contexts.wtx_locked ≡ s.contexts.wtx_locked)
keeps_array f q s t h = (ground arith, ground arith)

-- Where malloc gives the block 0 again.
abbrev reusing : PluginHandler assoc_table ranked_queue
reusing = record ready_context { contexts = record one_context { next = 0 } }

abbrev committed : PluginHandler assoc_table ranked_queue
committed = record reusing {
  contexts =
      Wtx.store 0 (record one_element { transaction_id = pos 1; can_be_reused = true })
        reusing.contexts;
  queue = (wtx 0, default_prio) ∷ [];
  events = call_event (codes "commit") (wtx 0) call_type_wtx ∷ [];
  call_count = 1;
}

reusing-committed : js_commit_transaction do_nothing in_time (pos 1) reusing ≡ done committed
unfolding js_commit_transaction commit_wtx call_ex post call_event
reusing-committed = refl

abbrev after_run : PluginHandler assoc_table ranked_queue
after_run = record committed {
  contexts = Wtx.release 0 (
      Wtx.store 0
        (record one_element {
          name = update one_element.name 0 none;
          param = update one_element.param 0 none;
          elements = 0;
          transaction_id = pos 1;
          can_be_reused = true;
        })
        (record committed.contexts { strings = 0 }));
}

committed_run : run_wtx do_nothing (wtx 0) committed ≡ done after_run
unfolding run_wtx run_elements Wtx.free_wtx
committed_run = refl

commit_after_run_example :
    (after_run.contexts.transactions 1 ≡ some 0)
    × (after_run.contexts.live 0 ≡ none)
    × (js_commit_transaction do_nothing in_time (pos 1) after_run ≡ fault use_after_free)
    × (clear_transaction (pos 1) after_run ≡ fault use_after_free)
commit_after_run_example =
    commit_after_run do_nothing in_time keeps_array 1 0 reusing committed after_run (omega arith)
      refl reusing-committed committed_run

new_after_run_example :
    (v : PluginHandler assoc_table ranked_queue) × (js_new_transaction after_run ≡ done (some 2, v))
    × (v.transaction_count ≡ 2)
    × (v.contexts.transactions 2 ≡ some 0)
    × (v.contexts.transactions 1 ≡ some 0)
    × ((j : ℕ) → j ≢ 2 → v.contexts.transactions j ≡ reusing.contexts.transactions j)
new_after_run_example =
    new_after_run do_nothing in_time keeps_array 1 0 reusing committed after_run refl
      reusing-committed committed_run refl (omega arith) (omega arith)

js_new_transaction-commit_example :
    (t u : PluginHandler assoc_table ranked_queue) × (js_new_transaction ready ≡ done (some 2, t))
    × (t.contexts.transactions 2 ≡ some 0)
    × (js_commit_transaction do_nothing in_time (pos 2) t ≡ done u)
    × (u.queue ≡ (wtx 0, default_prio) ∷ [])
    × (u.contexts.live 0 ≡ some (record zeroed { transaction_id = pos 2; can_be_reused = true }))
js_new_transaction-commit_example =
    js_new_transaction-commit do_nothing in_time 9 ready refl refl (omega arith) refl

half : get_num_or_percent_ex (some (codes "50%")) (pos 1280) 10 ≡ done (some (pos 640))
unfolding get_num_or_percent_ex percent read_int strtol digits_value
half = refl

get_num_or_percent_decimal_example :
    (get_num_or_percent (some (codes "50")) (pos 1280) ≡ done (some (pos 50)))
    × (get_num_or_percent (some (codes "-50")) (pos 1280) ≡ done (some (pos 1230)))
    × (get_num_or_percent (some (codes "50%")) (pos 1280) ≡ done (some (pos 640)))
get_num_or_percent_decimal_example =
    get_num_or_percent_decimal b'5' (b'0' ∷ []) 1280 (omega arith, (omega arith, tt)) (omega arith)
      (omega arith) (omega arith) (omega arith)
