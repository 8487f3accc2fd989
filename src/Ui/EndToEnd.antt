-- ===== src/Ui/EndToEnd.antt =====
-- lib/plugins.c and lib/ui.c together: a call from the caller to the function that it runs.
use wallyd.Common.{
  ℕ, suc, ◌+◌, ◌≡◌, refl, ap, ◌∙◌, Bool, true, false, Option, none, some, [], ◌∷◌, ◌++◌, arith,
  Outcome, done, ◌>>=◌,
}
use wallyd.Common.Str.{before, after, Bytes}
use wallyd.External.{HashTable, PriQueue}
use wallyd.Wtx
use wallyd.Wtx.{WallyCallCtx, Contexts, held, fill, zeroed}
use wallyd.Call.{
  Ptr, wtx, Event, PluginHandler, call_wtx, call_event, scall, call_type_wtx, default_prio,
}
use wallyd.Call.Context.{single, call_wtx_threaded}
use wallyd.Ui.{run_elements, run_wtx, dispatch, ui_round, to_ptr}

module _ {H : HashTable} {Q : PriQueue}
    (run : ℕ → Ptr → PluginHandler H Q → Outcome (PluginHandler H Q))
    (timed_out : Bytes → ℕ → Bool) where
  -- An event for a plain pointer, as `callWithData` posts it, is lost where the priority queue is
  -- empty: the round ends before the function is looked up, since only contexts are queued.
  pub ui_round_ptr_lost :
      (e : Event) (func : Bytes) (s : PluginHandler H Q)
      → e.data1 ≡ some func
      → (Q.pop s.queue).0 ≡ none
      → ui_round run (some e) s
        ≡ done (record s {
          queue = (Q.pop s.queue).1;
          ui_all_count = s.ui_all_count + 1;
          ui_own_count = s.ui_own_count + 1;
          event_delay = 5;
        })
  unfolding ui_round dispatch
  ui_round_ptr_lost e func s named empty = ground arith

  run_elements_single :
      (rounds p : ℕ) (w : WallyCallCtx) (f : Bytes) (g : ℕ) (u : PluginHandler H Q)
      → ((v : PluginHandler H Q)
          → run g (to_ptr (w.param 0)) u ≡ done v
          → v.contexts.live p ≡ u.contexts.live p)
      → u.contexts.live p ≡ some w
      → w.elements ≡ 1
      → w.name 0 ≡ some f
      → H.get u.registry.thr_functions f ≡ some g
      → run_elements run (suc (suc rounds)) 0 p false u
        ≡ (run g (to_ptr (w.param 0)) u >>= λ v. done (false, v))
  unfolding run_elements
  run_elements_single rounds p w f g u keeps alive one named is_g = grind (arith, keeps)

  run_wtx_single :
      (p : ℕ) (w : WallyCallCtx) (f : Bytes) (g : ℕ) (u : PluginHandler H Q)
      → ((v : PluginHandler H Q)
          → run g (to_ptr (w.param 0)) u ≡ done v
          → v.contexts.live p ≡ u.contexts.live p)
      → u.contexts.live p ≡ some w
      → w.elements ≡ 1
      → w.name 0 ≡ some f
      → H.get u.registry.thr_functions f ≡ some g
      → run_wtx run (wtx p) u ≡ (
          run g (to_ptr (w.param 0)) u >>= λ v.
          Wtx.free_wtx p v.contexts >>= λ c. done (record v { contexts = c; ta_locked = false }))
  unfolding run_wtx
  run_wtx_single p w f g u keeps alive one named is_g =
      ground (arith, run_elements_single 510 p w f g u keeps alive one named is_g)

  -- The round that takes the event of a call whose context is queued alone.
  ui_round_single :
      (p : ℕ) (w : WallyCallCtx) (f : Bytes) (g : ℕ) (t : PluginHandler H Q)
      → ((x y : PluginHandler H Q)
          → run g (to_ptr (w.param 0)) x ≡ done y
          → y.contexts.live p ≡ x.contexts.live p)
      → t.queue ≡ Q.insert Q.new (wtx p) default_prio
      → t.contexts.live p ≡ some w
      → w.elements ≡ 1
      → w.name 0 ≡ some f
      → H.get t.registry.thr_functions f ≡ some g
      → (u : PluginHandler H Q) × (u.contexts ≡ t.contexts)
        × (u.queue ≡ Q.new)
        × (ui_round run (some (call_event f (wtx p) call_type_wtx)) t ≡ (
            run g (to_ptr (w.param 0)) u >>= λ v.
            Wtx.free_wtx p v.contexts >>= λ c. done (record v { contexts = c; ta_locked = false })))
  unfolding ui_round dispatch call_event
  ui_round_single p w f g t keeps queued alive one named is_g =
      let u = record t {
        queue = Q.new;
        ui_all_count = t.ui_all_count + 1;
        ui_own_count = t.ui_own_count + 1;
        event_delay = 5;
      } in
      (
        u,
        refl,
        refl,
        ground (
          arith,
          Q.pop-insert_new (wtx p) default_prio,
          run_wtx_single p w f g u (keeps u) alive one named is_g,
        ),
      )

  -- From the call to the function: `callWtx` of a threaded function, with an empty queue, outside a
  -- transaction and with no mutex held, followed by the round of the UI loop that takes the event it
  -- posted. The round runs the function once, with the parameter of the call, and then frees the
  -- call's context; the function may do anything but change that context.
  pub call_wtx-ui_round :
      (g : ℕ) (f : Bytes) (params : Option Bytes) (s : PluginHandler H Q)
      → ((x y : PluginHandler H Q)
          → run g (to_ptr params) x ≡ done y
          → y.contexts.live s.contexts.next ≡ x.contexts.live s.contexts.next)
      → s.contexts.wtx_locked ≡ false
      → s.call_locked ≡ false
      → s.transaction ≡ false
      → s.queue ≡ Q.new
      → H.get s.registry.thr_functions f ≡ some g
      → (t u : PluginHandler H Q) × (call_wtx run timed_out f params s ≡ done (true, t))
        × (t.events ≡ s.events ++ call_event f (wtx s.contexts.next) call_type_wtx ∷ [])
        × (u.contexts ≡ t.contexts)
        × (u.queue ≡ Q.new)
        × (ui_round run (some (call_event f (wtx s.contexts.next) call_type_wtx)) t ≡ (
            run g (to_ptr params) u >>= λ v. Wtx.free_wtx s.contexts.next v.contexts >>= λ c.
            done (record v { contexts = c; ta_locked = false })))
  call_wtx-ui_round g f params s keeps wfree cfree no_ta empty is_g =
      let (t, posted, queued, pushed, alive, same, _, _) =
        call_wtx_threaded run timed_out g f params s wfree cfree no_ta is_g in
      let (u, kept, popped, round) =
        ui_round_single s.contexts.next (single f params) f g t keeps
          (queued ∙ ap (λ q. Q.insert q (wtx s.contexts.next) default_prio) empty) alive refl refl
          ((ap (λ r. H.get r.thr_functions f) same) ∙ is_g) in
      (t, u, posted, pushed, kept, popped, round)

  -- The same from the text of a script: `scall` takes the name and the parameters from it, and gives
  -- back its mutex.
  pub scall-ui_round :
      (g : ℕ) (text p : Bytes) (s : PluginHandler H Q)
      → after b' ' text ≡ some p
      → ((x y : PluginHandler H Q)
          → run g (to_ptr (some p)) x ≡ done y
          → y.contexts.live s.contexts.next ≡ x.contexts.live s.contexts.next)
      → s.ph_call_locked ≡ false
      → s.contexts.wtx_locked ≡ false
      → s.call_locked ≡ false
      → s.transaction ≡ false
      → s.queue ≡ Q.new
      → H.get s.registry.thr_functions (before b' ' text) ≡ some g
      → (t u : PluginHandler H Q) × (scall run timed_out (some text) s ≡ done t)
        × (t.ph_call_locked ≡ false)
        × (t.events
            ≡ s.events ++ call_event (before b' ' text) (wtx s.contexts.next) call_type_wtx ∷ [])
        × (u.contexts ≡ t.contexts)
        × (ui_round run (some (call_event (before b' ' text) (wtx s.contexts.next) call_type_wtx)) t
            ≡ (run g (to_ptr (some p)) u >>= λ v. Wtx.free_wtx s.contexts.next v.contexts >>= λ c.
                done (record v { contexts = c; ta_locked = false })))
  unfolding scall
  scall-ui_round g text p s is_p keeps pfree wfree cfree no_ta empty is_g =
      let f = before b' ' text in
      let (t, posted, queued, pushed, alive, same, _, _) =
        call_wtx_threaded run timed_out g f (some p) (record s { ph_call_locked = true }) wfree
          cfree no_ta is_g in
      let (u, kept, _, round) =
        ui_round_single s.contexts.next (single f (some p)) f g
          (record t { ph_call_locked = false }) keeps
          (queued ∙ ap (λ q. Q.insert q (wtx s.contexts.next) default_prio) empty) alive refl refl
          ((ap (λ r. H.get r.thr_functions f) same) ∙ is_g) in
      (record t { ph_call_locked = false }, u, ground (arith, posted), refl, pushed, kept, round)
