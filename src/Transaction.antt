-- ===== src/Transaction.antt =====
-- plugins/transaction.c: the transactions that scripts make, and `js_startTransaction` of
-- plugins/js.c. An id that a script passes is any integer. The arguments of a log line are read like
-- any others: `ph->transactions[id]` outside of the array is a fault. A script's result is the number
-- that is pushed for it.
pub mod Lifetime
use wallyd.Common.{
  ℕ, ◌+◌, Bool, true, false, Option, none, some, if◌then◌else◌, uninitialised, Outcome, done, fault,
  blocked, ◌>>=◌,
}
use wallyd.Common.Str.{Bytes}
use wallyd.Common.Int.{ℤ, pos}
use wallyd.External.{HashTable, PriQueue}
use wallyd.Wtx
use wallyd.Wtx.{Contexts}
use wallyd.Call.{Ptr, PluginHandler, commit_wtx}

unfoldable pub js_start_transaction :
    {H : HashTable} {Q : PriQueue} → PluginHandler H Q → ℕ × PluginHandler H Q
js_start_transaction s = if s.transaction then (1, s) else (0, record s { transaction = true })

unfoldable pub lock_transaction :
    {H : HashTable} {Q : PriQueue} → ℤ → PluginHandler H Q → Outcome (PluginHandler H Q)
lock_transaction id s =
    if s.ta_locked then blocked else Wtx.slot id >>= λ i. done (record s { ta_locked = true })

unfoldable pub clear_transaction :
    {H : HashTable} {Q : PriQueue} → ℤ → PluginHandler H Q → Outcome (PluginHandler H Q)
clear_transaction id s =
    if s.ta_locked
    then blocked
    else Wtx.slot id >>= λ i. elim (s.contexts.transactions i) [
      | none ↦ fault uninitialised
      | some p ↦ Wtx.free_wtx_elements (some p) s.contexts >>= λ c.
          done (record s { contexts = c; ta_locked = false })
    ]

-- NULL from `newWtx` pushes nothing.
unfoldable pub js_new_transaction :
    {H : HashTable} {Q : PriQueue} → PluginHandler H Q → Outcome (Option ℕ × PluginHandler H Q)
js_new_transaction s =
    let id = s.transaction_count + 1 in
    if s.ta_locked
    then blocked
    else Wtx.new_wtx (pos id) s.contexts >>= λ (made, c).
        let t = record s { contexts = c; transaction_count = id; ta_locked = false } in
        done (elim made [ none ↦ none | some p ↦ some id ], t)

module _ {H : HashTable} {Q : PriQueue}
    (run : ℕ → Ptr → PluginHandler H Q → Outcome (PluginHandler H Q))
    (timed_out : Bytes → ℕ → Bool) where
  unfoldable pub js_commit_transaction : ℤ → PluginHandler H Q → Outcome (PluginHandler H Q)
  js_commit_transaction id s = Wtx.slot id >>= λ i. commit_wtx run timed_out id s >>= λ (b, t).
      done (record t { contexts = record t.contexts { wtx_locked = false } })
