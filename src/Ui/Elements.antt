-- ===== src/Ui/Elements.antt =====
-- lib/ui.c: the calls that the UI loop makes for the elements of a context.
use wallyd.Common.{
  ℕ, zero, suc, ◌+◌, ◌≤◌, ◌<◌, ◌≡◌, ◌≢◌, Bool, true, false, Option, none, some, List, [], ◌∷◌,
  arith, if◌then◌else◌, null_pointer, Outcome, done, fault, ◌>>=◌,
}
use wallyd.Common.Str.{Bytes}
use wallyd.External.{HashTable, PriQueue}
use wallyd.Wtx
use wallyd.Wtx.{WallyCallCtx}
use wallyd.Registry.{is_some}
use wallyd.Call.{Ptr, wtx, PluginHandler}
use wallyd.Ui.{run_elements, run_wtx, to_ptr}

-- The calls of the elements from `i` to `i + n - 1`, in order.
abbrev pub calls : WallyCallCtx → ℕ → ℕ → List (Option Bytes × Ptr)
calls w i zero = []
calls w i (suc n) = (w.name i, to_ptr (w.param i)) ∷ calls w (i + 1) n

-- Every call's name stands for a threaded function.
abbrev pub AllThreaded : (H : HashTable) → H.Table ℕ → List (Option Bytes × Ptr) → Type 0
AllThreaded H functions [] = Unit
AllThreaded H functions ((none, p) ∷ cs) = ⊥
AllThreaded H functions ((some name, p) ∷ cs) =
    ((f : ℕ) × (H.get functions name ≡ some f)) × AllThreaded H functions cs

module _ {H : HashTable} {Q : PriQueue}
    (run : ℕ → Ptr → PluginHandler H Q → Outcome (PluginHandler H Q)) where
  -- Running the functions of a list of calls one after the other.
  pub run_calls : List (Option Bytes × Ptr) → PluginHandler H Q → Outcome (PluginHandler H Q)
  run_calls [] s = done s
  run_calls ((none, p) ∷ cs) s = fault null_pointer
  run_calls ((some name, p) ∷ cs) s = elim (H.get s.registry.thr_functions name) [
    | none ↦ fault null_pointer
    | some f ↦ run f p s >>= λ t. run_calls cs t
  ]

  module _ (w : WallyCallCtx) (p : ℕ)
      (keeps : (f : ℕ) (q : Ptr) (s t : PluginHandler H Q)
        → run f q s ≡ done t
        → (t.contexts.live p ≡ s.contexts.live p)
          × (t.registry.thr_functions ≡ s.registry.thr_functions)) where
    run_elements-run_calls :
        (rounds i n : ℕ) (s : PluginHandler H Q)
        → s.contexts.live p ≡ some w
        → i + n ≡ w.elements
        → n ≤ rounds
        → AllThreaded H s.registry.thr_functions (calls w i n)
        → run_elements run rounds i p false s ≡ (run_calls (calls w i n) s >>= λ t. done (false, t))
    unfolding run_elements run_calls
    run_elements-run_calls zero i zero s alive all fits threaded = ground arith
    run_elements-run_calls zero i (suc n) s alive all fits threaded = absurd (omega arith)
    run_elements-run_calls (suc rounds) i zero s alive all fits threaded = ground arith
    run_elements-run_calls (suc rounds) i (suc n) s alive all fits threaded =
        grind (arith, keeps, run_elements-run_calls rounds (i + 1) n)

    -- A context of at most 512 elements that all name threaded functions: the UI loop runs those
    -- functions once each, in the order of the elements and with their parameters, and nothing
    -- else; then it frees the context and gives the transaction mutex back. The functions may
    -- change anything but the context that is being run and the table of threaded functions.
    pub run_wtx-run_calls :
        (s : PluginHandler H Q)
        → s.contexts.live p ≡ some w
        → w.elements ≤ Wtx.wtx_size
        → AllThreaded H s.registry.thr_functions (calls w 0 w.elements)
        → run_wtx run (wtx p) s ≡ (
            run_calls (calls w 0 w.elements) s >>= λ t.
            Wtx.free_wtx p t.contexts >>= λ c. done (record t { contexts = c; ta_locked = false }))
    unfolding run_wtx
    run_wtx-run_calls s alive fits threaded = ground (
      arith,
      run_elements-run_calls Wtx.wtx_size 0 w.elements s alive (omega arith) fits threaded,
    )

  -- Once the name of the event is freed it stays so.
  run_elements_freed :
      (rounds i p : ℕ) (s : PluginHandler H Q) (r : Bool × PluginHandler H Q)
      → run_elements run rounds i p true s ≡ done r
      → r.0 ≡ true
  unfolding run_elements
  run_elements_freed zero i p s r h = ground arith
  run_elements_freed (suc rounds) i p s r h = grind (arith, run_elements_freed rounds (i + 1) p)

  run_elements_not_threaded :
      (rounds i : ℕ) (w : WallyCallCtx) (p : ℕ) (name : Bytes) (s : PluginHandler H Q)
      → s.contexts.live p ≡ some w
      → i < w.elements
      → w.name i ≡ some name
      → H.get s.registry.thr_functions name ≡ none
      → run_elements run (suc rounds) i p false s ≡ (
          if is_some (H.get s.registry.functions name)
          then fault null_pointer
          else run_elements run rounds (i + 1) p true s)
  unfolding run_elements
  run_elements_not_threaded rounds i w p name s alive here named not_thr = ground arith

  -- A context whose first element names no threaded function is never run to its end: if the name is
  -- that of a synchronous function the loop calls NULL, and if it is in no table the loop goes on
  -- with the name of the event freed, so that no way through the rest of the elements returns.
  pub run_wtx_first_not_threaded :
      (w : WallyCallCtx) (p : ℕ) (name : Bytes) (s : PluginHandler H Q)
      → s.contexts.live p ≡ some w
      → 0 < w.elements
      → w.name 0 ≡ some name
      → H.get s.registry.thr_functions name ≡ none
      → (is_some (H.get s.registry.functions name) ≡ true
          → run_wtx run (wtx p) s ≡ fault null_pointer)
        × ((t : PluginHandler H Q) → run_wtx run (wtx p) s ≢ done t)
  unfolding run_wtx
  run_wtx_first_not_threaded w p name s alive some_left first not_thr =
      let step = run_elements_not_threaded 511 0 w p name s alive some_left first not_thr in
      (λ h. ground (arith, step), λ t h. grind (arith, step, run_elements_freed 511 1 p s))
