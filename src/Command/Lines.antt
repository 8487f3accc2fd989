-- ===== src/Command/Lines.antt =====
-- src/wallyd.c: what running the lines of a command comes to.
use wallyd.Common.{
  ℕ, suc, ◌+◌, ◌≡◌, refl, ap, ◌∙◌, inl, inr, Bool, true, false, not, Option, none, some, List, [],
  ◌∷◌, arith, ◌==◌, if◌then◌else◌, Bool-cases, Option-cases, length, Outcome, done, fault, blocked,
  ◌>>=◌,
}
use wallyd.Common.Str.{Bytes}
use wallyd.External.{HashTable, PriQueue}
use wallyd.Registry.{Registry}
use wallyd.Call.{Ptr, PluginHandler, call_ex, call_sync}
use wallyd.Ui.{to_ptr}
use wallyd.Command.{all_tokens, newline, arguments, is_ignored, process_lines, process_command}

-- The synchronous functions that the lines name, with their parameters; none where a line is not read,
-- or does not name one.
abbrev pub resolve : {H : HashTable} → Registry H → List Bytes → Option (List (ℕ × Ptr))
resolve r [] = some []
resolve {H} r (line ∷ lines) = if is_ignored line then resolve r lines else elim (arguments line) [
  | fault e ↦ none
  | blocked ↦ none
  | done (name, params) ↦ elim (H.get r.thr_functions name) [
    | some g ↦ none
    | none ↦ elim (H.get r.functions name) [
      | none ↦ none
      | some f ↦ elim (resolve r lines) [ none ↦ none | some cs ↦ some ((f, to_ptr params) ∷ cs) ]
    ]
  ]
]

-- What a line that is resolved is.
IsCall : {H : HashTable} → Registry H → Bytes → ℕ → Bytes → Option Bytes → Type 0
IsCall {H} r line f name params =
    (arguments line ≡ done (name, params))
    × (H.get r.thr_functions name ≡ none)
    × (H.get r.functions name ≡ some f)

resolve_cons :
    {H : HashTable} (r : Registry H) (line : Bytes) (lines : List Bytes) (cs : List (ℕ × Ptr))
    → is_ignored line ≡ false
    → resolve r (line ∷ lines) ≡ some cs
    → (name : Bytes) × (params : Option Bytes) × (f : ℕ) × (cs' : List (ℕ × Ptr)) × (cs
        ≡ (f, to_ptr params) ∷ cs')
      × (resolve r lines ≡ some cs')
      × IsCall r line f name params
unfolding IsCall
resolve_cons {H} r line lines cs command h = go (arguments line) refl
  where
    go :
        (o : Outcome (Bytes × Option Bytes))
        → arguments line ≡ o
        → (name : Bytes) × (params : Option Bytes) × (f : ℕ) × (cs' : List (ℕ × Ptr)) × (cs
            ≡ (f, to_ptr params) ∷ cs')
          × (resolve r lines ≡ some cs')
          × IsCall r line f name params
    go (fault e) k = absurd (ground arith)
    go blocked k = absurd (ground arith)
    go (done (name, params)) k = elim (Option-cases (H.get r.thr_functions name)) [
      | inr (g, is_g) ↦ absurd (ground arith)
      | inl not_thr ↦ elim (Option-cases (H.get r.functions name)) [
        | inl missing ↦ absurd (ground arith)
        | inr (f, is_f) ↦ elim (Option-cases (resolve r lines)) [
          | inl unresolved ↦ absurd (ground arith)
          | inr (cs', e) ↦
              (name, params, f, cs', ground (arith, k, not_thr, is_f, e), e, (k, not_thr, is_f))
        ]
      ]
    ]

module _ {H : HashTable} {Q : PriQueue}
    (run : ℕ → Ptr → PluginHandler H Q → Outcome (PluginHandler H Q))
    (timed_out : Bytes → ℕ → Bool) where
  -- The functions one after the other, each with the mutex held and the call counted.
  abbrev pub run_all : List (ℕ × Ptr) → PluginHandler H Q → Outcome (PluginHandler H Q)
  run_all [] s = done s
  run_all ((f, p) ∷ cs) s =
      run f p (record s { call_locked = true; call_count = s.call_count + 1 }) >>= λ t.
      run_all cs (record t { call_locked = false })

  call_sync_run :
      (name : Bytes) (params : Option Bytes) (f : ℕ) (s : PluginHandler H Q)
      → s.call_locked ≡ false
      → H.get s.registry.thr_functions name ≡ none
      → H.get s.registry.functions name ≡ some f
      → call_sync run timed_out name true params s ≡ (
          run f (to_ptr params) (record s { call_locked = true; call_count = s.call_count + 1 })
          >>= λ t. done (true, record t { call_locked = false }))
  unfolding call_sync call_ex
  call_sync_run name none f s free not_thr is_f = ground arith
  call_sync_run name (some params) f s free not_thr is_f = ground arith

  command_step :
      (line : Bytes) (f : ℕ) (name : Bytes) (params : Option Bytes) (lines : List Bytes) (valid : ℕ)
      (s : PluginHandler H Q)
      → is_ignored line ≡ false
      → s.call_locked ≡ false
      → IsCall s.registry line f name params
      → process_lines run timed_out valid (line ∷ lines) s ≡ (
          run f (to_ptr params) (record s { call_locked = true; call_count = s.call_count + 1 })
          >>= λ t. process_lines run timed_out (valid + 1) lines (record t { call_locked = false }))
  unfolding IsCall process_lines
  command_step line f name params lines valid s command free (split, not_thr, is_f) =
      ground (arith, split, call_sync_run name params f s free not_thr is_f)

  run_then :
      (lines : List Bytes) (cs : List (ℕ × Ptr)) (valid : ℕ) (s : PluginHandler H Q)
      → resolve s.registry lines ≡ some cs
      → (o : Outcome (PluginHandler H Q))
      → ((t : PluginHandler H Q) → o ≡ done t → t.registry ≡ s.registry)
      → ((t : PluginHandler H Q)
          → t.call_locked ≡ false
          → resolve t.registry lines ≡ some cs
          → process_lines run timed_out (valid + 1) lines t
            ≡ (run_all cs t >>= λ u. done (valid + 1 + length cs, u)))
      → (o >>= λ t.
          process_lines run timed_out (valid + 1) lines (record t { call_locked = false }))
        ≡ ((o >>= λ t. run_all cs (record t { call_locked = false })) >>= λ t.
            done (valid + suc (length cs), t))
  run_then lines cs valid s resolved (fault e) k ih = refl
  run_then lines cs valid s resolved blocked k ih = refl
  run_then lines cs valid s resolved (done t) k ih =
      let e : t.registry ≡ s.registry = k t refl in
      let l : valid + 1 + length cs ≡ valid + suc (length cs) = omega arith in
      rw l at (ih (record t { call_locked = false }) refl (ap (λ r. resolve r lines) e ∙ resolved))

  module _
      (keeps : (f : ℕ) (q : Ptr) (s t : PluginHandler H Q)
        → run f q s ≡ done t
        → t.registry ≡ s.registry) where
    -- A command whose lines, but for comments, name synchronous functions: those are run one run_then
    -- the other, in the order of the lines and with the parameters that stand behind their names, and
    -- each is counted. The functions may change anything but which functions there are.
    pub process_lines-run_all :
        (lines : List Bytes) (cs : List (ℕ × Ptr)) (valid : ℕ) (s : PluginHandler H Q)
        → s.call_locked ≡ false
        → resolve s.registry lines ≡ some cs
        → process_lines run timed_out valid lines s
          ≡ (run_all cs s >>= λ t. done (valid + length cs, t))
    unfolding process_lines
    process_lines-run_all [] cs valid s free h = ground arith
    process_lines-run_all (line ∷ lines) cs valid s free h = elim (Bool-cases (is_ignored line)) [
      | inl ignored ↦ ground (arith, process_lines-run_all lines cs valid s free)
      | inr command ↦
          let (name, params, f, cs', whole, resolved, call) =
            resolve_cons s.registry line lines cs command h in
          let u = record s { call_locked = true; call_count = s.call_count + 1 } in
          let rest =
            run_then lines cs' valid s resolved (run f (to_ptr params) u)
              (λ t e. keeps f (to_ptr params) u t e)
              (λ t. process_lines-run_all lines cs' (valid + 1) t) in
          command_step line f name params lines valid s command free call ∙ rest ∙ (rw whole refl)
    ]

    -- A text with a line, whose lines, but for empty ones and comments, name synchronous
    -- functions, while `callMutex` is free: `processCommand` runs those one after the other, in
    -- the order of the lines and with the parameters that stand behind their names, and is true
    -- if there was one. The functions may change anything but which functions there are.
    pub process_command-run_all :
        (buf cmd : Bytes) (cmds : List Bytes) (cs : List (ℕ × Ptr)) (s : PluginHandler H Q)
        → all_tokens newline buf ≡ cmd ∷ cmds
        → s.call_locked ≡ false
        → resolve s.registry (cmd ∷ cmds) ≡ some cs
        → process_command run timed_out buf s
          ≡ (run_all cs s >>= λ t. done (not (length cs == 0), t))
    unfolding process_command
    process_command-run_all buf cmd cmds cs s split free resolved =
        let e : 0 + length cs ≡ length cs = omega arith in
        ground (arith, split, process_lines-run_all (cmd ∷ cmds) cs 0 s free resolved, e)
