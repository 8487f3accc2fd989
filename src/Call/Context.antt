-- ===== src/Call/Context.antt =====
-- lib/plugins.c: `callWtx`, `commitWtx` and `scall`, which hand a context to the UI loop.
use wallyd.Common.{
  ℕ, ◌+◌, ◌≡◌, refl, Bool, true, false, Option, none, some, [], ◌∷◌, ◌++◌, arith, Outcome, done,
  blocked,
}
use wallyd.Common.Str.{Bytes}
use wallyd.Common.Int.{ℤ}
use wallyd.External.{HashTable, PriQueue}
use wallyd.Wtx
use wallyd.Wtx.{WallyCallCtx, Contexts, zeroed, alloc, fill, max_wtx, held}
use wallyd.Call.{
  Ptr, wtx, PluginHandler, post, call_event, call_wtx, commit_wtx, scall, call_type_wtx,
  default_prio,
}

-- A context with one element, as `newSimpleWtx` makes it.
abbrev pub single : Bytes → Option Bytes → WallyCallCtx
single f params = fill 0 f params zeroed

module _ {H : HashTable} {Q : PriQueue}
    (run : ℕ → Ptr → PluginHandler H Q → Outcome (PluginHandler H Q))
    (timed_out : Bytes → ℕ → Bool) where
  -- Outside a transaction and with both mutexes free, `callWtx` of a threaded function returns
  -- true with both mutexes free again; a new context with that one call is in the priority queue,
  -- and one event of type WALLY_CALL_WTX with the function's name was given to SDL.
  pub call_wtx_threaded :
      (g : ℕ) (f : Bytes) (params : Option Bytes) (s : PluginHandler H Q)
      → s.contexts.wtx_locked ≡ false
      → s.call_locked ≡ false
      → s.transaction ≡ false
      → H.get s.registry.thr_functions f ≡ some g
      → (t : PluginHandler H Q) × (call_wtx run timed_out f params s ≡ done (true, t))
        × (t.queue ≡ Q.insert s.queue (wtx s.contexts.next) default_prio)
        × (t.events ≡ s.events ++ call_event f (wtx s.contexts.next) call_type_wtx ∷ [])
        × (t.contexts.live s.contexts.next ≡ some (single f params))
        × (t.registry ≡ s.registry)
        × (t.contexts.wtx_locked ≡ false)
        × (t.call_locked ≡ false)
  unfolding call_wtx
  call_wtx_threaded g f params s wfree cfree no_ta is_g =
      let locked = record s.contexts { wtx_locked = true } in
      let c = record (Wtx.store locked.next (single f params) (alloc zeroed locked)) {
        strings = s.contexts.strings + 1 + held params;
      } in
      let u = record s { contexts = c; call_locked = true; call_count = s.call_count + 1 } in
      let v = post timed_out f (wtx s.contexts.next) call_type_wtx true u in
      (
        record v { contexts = record c { wtx_locked = false }; call_locked = false },
        ground arith,
        refl,
        refl,
        ground arith,
        refl,
        refl,
        refl,
      )

  -- `commitWtx` never reports success: it passes no place for a result to `callEx`, whose result is
  -- whether there was one.
  pub commit_wtx-false :
      (id : ℤ) (s t : PluginHandler H Q) (b : Bool)
      → commit_wtx run timed_out id s ≡ done (b, t)
      → b ≡ false
  unfolding commit_wtx
  commit_wtx-false id s t b h = ground arith

  -- A format that is NULL makes `scall` return with its mutex held, and then every call of `scall`
  -- waits for ever.
  pub scall_after_null :
      (text : Option Bytes) (s t : PluginHandler H Q)
      → scall run timed_out none s ≡ done t
      → scall run timed_out text t ≡ blocked
  unfolding scall
  scall_after_null none s t h = ground arith
  scall_after_null (some text) s t h = ground arith
