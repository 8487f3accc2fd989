-- ===== src/Call/Lock.antt =====
-- lib/plugins.c: `callMutex` over the branches of `callEx`.
use wallyd.Common.{
  ℕ, ◌+◌, ◌≡◌, refl, Bool, true, false, not, ◌&&◌, ◌||◌, none, some, [], ◌∷◌, ◌++◌, arith, ◌==◌,
  if◌then◌else◌, Outcome, done, blocked, ◌>>=◌,
}
use wallyd.Common.Str.{Bytes}
use wallyd.External.{HashTable, PriQueue}
use wallyd.Registry.{Registry, is_some}
use wallyd.Call.{Ptr, PluginHandler, post, call_event, call_ex, call_type_wtx, default_prio}

-- A name is registered if it is in one of the two tables of functions.
abbrev pub is_registered : {H : HashTable} → Bytes → Registry H → Bool
is_registered {H} func r = is_some (H.get r.thr_functions func) || is_some (H.get r.functions func)

module _ {H : HashTable} {Q : PriQueue}
    (run : ℕ → Ptr → PluginHandler H Q → Outcome (PluginHandler H Q))
    (timed_out : Bytes → ℕ → Bool) where
  -- A call that returns found `callMutex` free, and has given it back exactly if the function is
  -- registered, whatever a function that it runs does to the other state; the result is then
  -- whether the caller passed a place for it, and is false for a function that is not
  -- registered.
  pub call_ex_returns :
      (func : Bytes) (ret : Bool) (params : Ptr) (kind : ℕ) (wait : Bool) (s t : PluginHandler H Q)
      (b : Bool)
      → call_ex run timed_out (some func) ret params kind wait s ≡ done (b, t)
      → (s.call_locked ≡ false)
        × (t.call_locked ≡ not (is_registered func s.registry))
        × (b ≡ ret && is_registered func s.registry)
  unfolding call_ex
  call_ex_returns func ret params kind wait s t b h = ground arith

  -- After a call of a function that is not registered every further call waits for ever.
  pub call_ex_after_unregistered :
      (func : Bytes) (ret : Bool) (params : Ptr) (kind : ℕ) (wait : Bool) (s t : PluginHandler H Q)
      (b : Bool) (func' : Bytes) (ret' : Bool) (params' : Ptr) (kind' : ℕ) (wait' : Bool)
      → is_registered func s.registry ≡ false
      → call_ex run timed_out (some func) ret params kind wait s ≡ done (b, t)
      → call_ex run timed_out (some func') ret' params' kind' wait' t ≡ blocked
  unfolding call_ex
  call_ex_after_unregistered func ret params kind wait s t b func' ret' params' kind' wait' absent
        h =
      ground arith

  -- A call of a synchronous function that itself calls a function by name, where it is run with
  -- `callMutex` held, waits for ever: `callEx` holds that mutex while the function runs.
  pub call_ex_nested :
      (f : ℕ) (func : Bytes) (ret : Bool) (params : Ptr) (kind : ℕ) (wait : Bool)
      (s : PluginHandler H Q) (func' : Bytes) (ret' : Bool) (params' : Ptr) (kind' : ℕ)
      (wait' : Bool) (rest : Bool × PluginHandler H Q → Outcome (PluginHandler H Q))
      → ((p : Ptr) (u : PluginHandler H Q)
          → u.call_locked ≡ true
          → run f p u ≡ (call_ex run timed_out (some func') ret' params' kind' wait' u >>= rest))
      → H.get s.registry.thr_functions func ≡ none
      → H.get s.registry.functions func ≡ some f
      → call_ex run timed_out (some func) ret params kind wait s ≡ blocked
  unfolding call_ex
  call_ex_nested f func ret params kind wait s func' ret' params' kind' wait' rest body not_thr
        is_f =
      ground
        (arith, body params (record s { call_locked = true; call_count = s.call_count + 1 }) refl)

  -- With `callMutex` free a threaded function is not run by the call: it is handed over as one event,
  -- and its parameter as one node of the priority queue if that is a context. The functions that
  -- there are and the contexts stay as they are.
  pub call_ex_threaded :
      (f : ℕ) (func : Bytes) (ret : Bool) (params : Ptr) (kind : ℕ) (wait : Bool)
      (s : PluginHandler H Q)
      → s.call_locked ≡ false
      → H.get s.registry.thr_functions func ≡ some f
      → (t : PluginHandler H Q) × (call_ex run timed_out (some func) ret params kind wait s
          ≡ done (ret, t))
        × (t.events ≡ s.events ++ call_event func params kind ∷ [])
        × (t.queue
            ≡ (if kind == call_type_wtx then Q.insert s.queue params default_prio else s.queue))
        × (t.registry ≡ s.registry)
        × (t.contexts ≡ s.contexts)
  unfolding call_ex
  call_ex_threaded f func ret params kind wait s free is_f = (
    record (post timed_out func params kind wait
        (record s { call_locked = true; call_count = s.call_count + 1 })) { call_locked = false },
    ground arith,
    refl,
    refl,
    refl,
    refl,
  )
