-- ===== src/Call.antt =====
-- lib/plugins.c: `callEx` and the functions over it, which run a registered function at once or hand
-- it to the UI loop through SDL's event queue and the priority queue.
-- `PluginHandler` holds the fields of `pluginHandler` that these functions and the UI loop use, and
-- the static `callMutex`. A mutex is a flag: who locks it while it is held waits, and in a model
-- of one thread waits for ever (`blocked`). The counters are not bounded.
-- `run` is what a function of the program or of a plugin does when it is called at its address.
pub mod Lock
pub mod Context
use wallyd.Common.{
  ℕ, ◌+◌, sym, Bool, true, false, ◌&&◌, Option, none, some, List, [], ◌∷◌, ◌++◌, ◌==◌,
  if◌then◌else◌, uninitialised, Outcome, done, fault, blocked, ◌>>=◌,
}
use wallyd.Common.Str.{before, after, Bytes, codes}
use wallyd.Common.Int.{ℤ}
use wallyd.External.{HashTable, PriQueue}
use wallyd.Registry.{Registry}
use wallyd.Wtx
use wallyd.Wtx.{Contexts}

-- A `void *`, by what it points to.
pub data Ptr : Type 0 where
  null : Ptr
  str : Bytes → Ptr
  wtx : ℕ → Ptr
  object : ℕ → Ptr

abbrev pub is_null : Ptr → Bool
is_null null = true
is_null _ = false

-- The fields of an `SDL_Event` that are used; `sym` is `key.keysym.sym`.
pub record Event : Type 0 where
  pub type : ℕ
  pub sym : ℕ
  pub data1 : Option Bytes
  pub data2 : Ptr

abbrev pub sdl_userevent : ℕ
sdl_userevent = 0x8000

abbrev pub call_type_ptr : ℕ
call_type_ptr = 0

abbrev pub call_type_wtx : ℕ
call_type_wtx = 4

abbrev pub wally_event : ℕ
wally_event = sdl_userevent + 5

abbrev pub wally_call_ptr : ℕ
wally_call_ptr = wally_event + 0

abbrev pub wally_call_str : ℕ
wally_call_str = wally_event + 1

abbrev pub wally_call_ps : ℕ
wally_call_ps = wally_event + 2

abbrev pub wally_call_ctx : ℕ
wally_call_ctx = wally_event + 3

abbrev pub wally_call_wtx : ℕ
wally_call_wtx = wally_event + 4

abbrev pub wally_call_null : ℕ
wally_call_null = wally_event + 5

abbrev pub default_prio : ℕ
default_prio = 10

-- `events` are the events given to `SDL_PushEvent`, in order.
pub record PluginHandler (H : HashTable) (Q : PriQueue) : Type 0 where
  pub registry : Registry H
  pub contexts : Contexts
  pub queue : Q.Queue Ptr
  pub events : List Event
  pub call_locked : Bool
  pub ph_call_locked : Bool
  pub ta_locked : Bool
  pub transaction : Bool
  pub transaction_count : ℕ
  pub call_count : ℕ
  pub condition_timeout : ℕ
  pub quit : Bool
  pub play_video : Bool
  pub ui_all_count : ℕ
  pub ui_own_count : ℕ
  pub ui_event_timeout : ℕ
  pub event_delay : ℕ

-- The event of a call: its type and `data2`, by the kind of the parameter.
unfoldable pub call_event : Bytes → Ptr → ℕ → Event
call_event func params kind =
    if kind == call_type_ptr
    then (record {
      type = if is_null params then wally_call_null else wally_call_ptr;
      sym = 0;
      data1 = some func;
      data2 = params;
    })
    else (record {
      type = if kind == call_type_wtx then wally_call_wtx else 0;
      sym = 0;
      data1 = some func;
      data2 = null;
    })

-- SDLWAITTIMEOUT and SDLWAITTIMEOUT_TRANSACTION, in milliseconds.
abbrev pub wait_ms : Bool → ℕ
wait_ms transaction = if transaction then 10000 else 1000

-- `timed_out f ms` says whether the wait for the condition of `f` ends by its timeout.
module _ {H : HashTable} {Q : PriQueue} (timed_out : Bytes → ℕ → Bool) where
  -- The branch of `callEx` for a threaded function. While the caller waits, the UI loop may take the call
  -- and run it; that is a round of Ui, which stands behind the call in the order of the steps: the
  -- caller does nothing after the wait but count a timeout, free its copy of the name and give
  -- `callMutex` back. A wait also ends without a timeout when it is woken for another reason, or when
  -- there is no condition to wait for, so that it says nothing of whether the call was run.
  unfoldable pub post : Bytes → Ptr → ℕ → Bool → PluginHandler H Q → PluginHandler H Q
  unfolding call_event
  post func params kind wait s = record s {
    queue = if kind == call_type_wtx then Q.insert s.queue params default_prio else s.queue;
    events = s.events ++ call_event func params kind ∷ [];
    condition_timeout =
        if wait && timed_out func (wait_ms s.transaction)
        then s.condition_timeout + 1
        else s.condition_timeout;
  }

module _ {H : HashTable} {Q : PriQueue}
    (run : ℕ → Ptr → PluginHandler H Q → Outcome (PluginHandler H Q))
    (timed_out : Bytes → ℕ → Bool) where
  -- The result is whether `ret` is not NULL. The branch of a function that is not registered
  -- returns without giving the mutex back.
  unfoldable pub call_ex :
      Option Bytes → Bool → Ptr → ℕ → Bool → PluginHandler H Q → Outcome (Bool × PluginHandler H Q)
  unfolding post
  call_ex none ret params kind wait s = done (false, s)
  call_ex (some func) ret params kind wait s =
      let t = record s { call_locked = true; call_count = s.call_count + 1 } in
      if s.call_locked then blocked else elim (H.get s.registry.thr_functions func) [
        | some _ ↦
            done (ret, record (post timed_out func params kind wait t) { call_locked = false })
        | none ↦ elim (H.get s.registry.functions func) [
          | none ↦ done (false, t)
          | some f ↦ run f params t >>= λ u. done (ret, record u { call_locked = false })
        ]
      ]

  unfoldable pub call_with_data :
      Bytes → Bool → Ptr → PluginHandler H Q → Outcome (Bool × PluginHandler H Q)
  unfolding call_ex
  call_with_data func ret params s = call_ex (some func) ret params call_type_ptr true s

  unfoldable pub call_sync :
      Bytes → Bool → Option Bytes → PluginHandler H Q → Outcome (Bool × PluginHandler H Q)
  unfolding call_ex
  call_sync func ret none s = call_ex (some func) ret null Wtx.call_type_str true s
  call_sync func ret (some params) s = call_ex (some func) ret (str params) Wtx.call_type_str true s

  pub call_non_blocking :
      Bytes → Bool → Ptr → PluginHandler H Q → Outcome (Bool × PluginHandler H Q)
  unfolding call_ex
  call_non_blocking func ret params s = call_ex (some func) ret params call_type_ptr false s

  -- `call` only reports that it is no more supported.
  pub call : Bytes → Bytes → PluginHandler H Q → Bool × PluginHandler H Q
  call func params s = (false, s)

  unfoldable pub call_wtx :
      Bytes → Option Bytes → PluginHandler H Q → Outcome (Bool × PluginHandler H Q)
  unfolding call_ex Wtx.new_simple_wtx Wtx.push_simple_wtx
  call_wtx fstr params s =
      let locked = record s.contexts { wtx_locked = true } in
      let unlock = λ (t : PluginHandler H Q). record t {
        contexts = record t.contexts { wtx_locked = false };
      } in
      if s.contexts.wtx_locked
      then blocked
      else if s.transaction
      then Wtx.push_simple_wtx s.transaction fstr params locked
        >>= (λ c. done (true, unlock (record s { contexts = c })))
      else Wtx.new_simple_wtx fstr params locked >>= λ (p, c).
          call_ex (some fstr) false (wtx p) call_type_wtx true (record s { contexts = c })
          >>= λ (b, t). done (true, unlock t)

  unfoldable pub commit_wtx : ℤ → PluginHandler H Q → Outcome (Bool × PluginHandler H Q)
  unfolding call_ex
  commit_wtx id s = Wtx.slot id >>= λ i. elim (s.contexts.transactions i) [
    | none ↦ fault uninitialised
    | some p ↦ Wtx.load p s.contexts >>= λ w.
        let v = record w { transaction_id = id; can_be_reused = true } in
        call_ex (some (codes "commit")) false (wtx p) call_type_wtx true
          (record s { contexts = Wtx.store p v s.contexts })
  ]

  -- `text` is the expanded format, and NULL where the format is NULL: then the mutex stays locked.
  unfoldable pub scall : Option Bytes → PluginHandler H Q → Outcome (PluginHandler H Q)
  unfolding call_wtx
  scall none s = if s.ph_call_locked then blocked else done (record s { ph_call_locked = true })
  scall (some text) s =
      if s.ph_call_locked
      then blocked
      else call_wtx (before b' ' text) (after b' ' text) (record s { ph_call_locked = true })
        >>= λ (b, t). done (record t { ph_call_locked = false })
