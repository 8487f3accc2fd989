-- ===== src/Transaction/Lifetime.antt =====
-- plugins/transaction.c and lib/ui.c: the context of a transaction from its first use to its commit.
use wallyd.Common.{
  ℕ, zero, suc, ◌+◌, ◌≤◌, ◌<◌, ◌≡◌, refl, ap, ◌∙◌, ◌≢◌, Bool, true, false, none, some, arith,
  if◌then◌else◌, use_after_free, Outcome, done, fault, blocked, ◌>>=◌, bind_done, update,
}
use wallyd.Common.Str.{Bytes, codes}
use wallyd.Common.Int.{ℤ, pos}
use wallyd.External.{HashTable, PriQueue}
use wallyd.Wtx
use wallyd.Wtx.{Contexts, WallyCallCtx, max_wtx, free_wtx, zeroed, alloc}
use wallyd.Call.{Ptr, wtx, PluginHandler, commit_wtx, call_type_wtx, post, default_prio}
use wallyd.Wtx.Alloc.{registered, new_wtx_cases}
use wallyd.Ui.{run_wtx, run_elements}
use wallyd.Transaction.{
  lock_transaction, clear_transaction, js_new_transaction, js_commit_transaction,
}

free_wtx_dead :
    (p : ℕ) (s t : Contexts)
    → free_wtx p s ≡ done t
    → (t.live p ≡ none) × (t.transactions ≡ s.transactions) × (t.wtx_locked ≡ s.wtx_locked)
unfolding free_wtx
free_wtx_dead p s t h = ground arith

module _ {H : HashTable} {Q : PriQueue}
    (run : ℕ → Ptr → PluginHandler H Q → Outcome (PluginHandler H Q))
    (timed_out : Bytes → ℕ → Bool) where
  run_wtx_dead :
      (p : ℕ) (s t : PluginHandler H Q)
      → run_wtx run (wtx p) s ≡ done t
      → (t.contexts.live p ≡ none) × (t.ta_locked ≡ false)
  unfolding run_wtx
  run_wtx_dead p s t h = grind (arith, free_wtx_dead)

  dead_commit :
      (i p : ℕ) (t : PluginHandler H Q)
      → i < max_wtx
      → t.contexts.transactions i ≡ some p
      → t.contexts.live p ≡ none
      → js_commit_transaction run timed_out (pos i) t ≡ fault use_after_free
  unfolding js_commit_transaction commit_wtx
  dead_commit i p t small entry dead = ground arith

  dead_clear :
      (i p : ℕ) (t : PluginHandler H Q)
      → i < max_wtx
      → t.contexts.transactions i ≡ some p
      → t.contexts.live p ≡ none
      → t.ta_locked ≡ false
      → t.contexts.wtx_locked ≡ false
      → clear_transaction (pos i) t ≡ fault use_after_free
  unfolding clear_transaction Wtx.free_wtx_elements
  dead_clear i p t small entry dead unlocked free = ground arith

  module _
      (keeps : (f : ℕ) (q : Ptr) (s t : PluginHandler H Q)
        → run f q s ≡ done t
        → (t.contexts.transactions ≡ s.contexts.transactions)
          × (t.contexts.wtx_locked ≡ s.contexts.wtx_locked)) where
    commit_keeps :
        (i : ℤ) (s t : PluginHandler H Q)
        → js_commit_transaction run timed_out i s ≡ done t
        → (t.contexts.transactions ≡ s.contexts.transactions) × (t.contexts.wtx_locked ≡ false)
    unfolding js_commit_transaction commit_wtx
    commit_keeps i s t h = (grind (arith, keeps), grind (arith, keeps))

    elements_keep :
        (rounds i p : ℕ) (freed : Bool) (s : PluginHandler H Q) (r : Bool × PluginHandler H Q)
        → run_elements run rounds i p freed s ≡ done r
        → (r.1.contexts.transactions ≡ s.contexts.transactions)
          × (r.1.contexts.wtx_locked ≡ s.contexts.wtx_locked)
    unfolding run_elements
    elements_keep zero i p freed s r h = ground arith
    elements_keep (suc rounds) i p freed s r h =
        grind (arith, keeps, elements_keep rounds (i + 1) p)

    freeing_keeps :
        (freed : Bool) (p : ℕ) (v t : PluginHandler H Q)
        → (if freed
            then fault use_after_free
            else free_wtx p v.contexts >>= λ c. done (record v { contexts = c; ta_locked = false }))
          ≡ done t
        → (t.contexts.transactions ≡ v.contexts.transactions)
          × (t.contexts.wtx_locked ≡ v.contexts.wtx_locked)
    freeing_keeps true p v t h = absurd (ground arith)
    freeing_keeps false p v t h =
        let (c, freed, e) = bind_done (free_wtx p v.contexts) _ t h in
        let (_, same, kept) = free_wtx_dead p v.contexts c freed in
        (ground (arith, same), ground (arith, kept))

    run_wtx_keeps :
        (p : ℕ) (s t : PluginHandler H Q)
        → run_wtx run (wtx p) s ≡ done t
        → (t.contexts.transactions ≡ s.contexts.transactions)
          × (t.contexts.wtx_locked ≡ s.contexts.wtx_locked)
    unfolding run_wtx
    run_wtx_keeps p s t h =
        let ((freed, v), ran, rest) = bind_done (run_elements run Wtx.wtx_size 0 p false s) _ t h in
        let (same, kept) = elements_keep Wtx.wtx_size 0 p false s (freed, v) ran in
        let (same', kept') = freeing_keeps freed p v t rest in (same' ∙ same, kept' ∙ kept)

    -- What a commit and its run by the UI loop leave of the transaction.
    committed_run :
        (i : ℤ) (p : ℕ) (s u t : PluginHandler H Q)
        → js_commit_transaction run timed_out i s ≡ done u
        → run_wtx run (wtx p) u ≡ done t
        → (t.contexts.transactions ≡ s.contexts.transactions) × (t.contexts.wtx_locked ≡ false)
    committed_run i p s u t committed ran =
        let (same, free) = commit_keeps i s u committed in
        let (same', kept) = run_wtx_keeps p u t ran in (same' ∙ same, kept ∙ free)

    -- A transaction is committed, and the UI loop runs its context, to the end. Then the context is
    -- freed, and the entry for the id still points to it, so that freed memory is used when the same
    -- id is committed or cleared again. The functions that are run are taken to leave the array of
    -- transactions and the mutex of the contexts as they find them.
    pub commit_after_run :
        (i p : ℕ) (s u t : PluginHandler H Q)
        → i < max_wtx
        → s.contexts.transactions i ≡ some p
        → js_commit_transaction run timed_out (pos i) s ≡ done u
        → run_wtx run (wtx p) u ≡ done t
        → (t.contexts.transactions i ≡ some p)
          × (t.contexts.live p ≡ none)
          × (js_commit_transaction run timed_out (pos i) t ≡ fault use_after_free)
          × (clear_transaction (pos i) t ≡ fault use_after_free)
    commit_after_run i p s u t small entry committed ran =
        let (same, free) = committed_run (pos i) p s u t committed ran in
        let (dead, unlocked) = run_wtx_dead p u t ran in
        let stays : t.contexts.transactions i ≡ some p = ap (λ a. a i) same ∙ entry in
        (
          stays,
          dead,
          dead_commit i p t small stays dead,
          dead_clear i p t small stays dead unlocked free,
        )

    new_transaction_made :
        (t : PluginHandler H Q)
        → t.ta_locked ≡ false
        → t.transaction_count + 1 < max_wtx
        → let n = t.transaction_count + 1 in
          (v : PluginHandler H Q) × (js_new_transaction t ≡ done (some n, v))
          × (v.transaction_count ≡ n)
          × (v.contexts.transactions ≡ update t.contexts.transactions n (some t.contexts.next))
    unfolding js_new_transaction
    new_transaction_made t unlocked room =
        let n = t.transaction_count + 1 in
        let made = (new_wtx_cases n t.contexts).1 (omega arith) room in
        (
          record t { contexts = registered n t.contexts; transaction_count = n; ta_locked = false },
          ground (arith, made),
          refl,
          refl,
        )

    -- A transaction is committed, the UI loop runs its context to the end, which frees it, and malloc
    -- gives that block for the next context, as it may. Then, where the id is not above the count and
    -- the next id is below MAX_WTX, a new transaction gets the next id, whose entry points to that
    -- context, and so does the entry of the transaction that is over: the two ids stand for one context.
    -- Every entry but that of the new id stays as it was before the commit. The functions that are run
    -- are taken to leave the array of transactions and the mutex of the contexts as they find them.
    pub new_after_run :
        (i p : ℕ) (s u t : PluginHandler H Q)
        → s.contexts.transactions i ≡ some p
        → js_commit_transaction run timed_out (pos i) s ≡ done u
        → run_wtx run (wtx p) u ≡ done t
        → t.contexts.next ≡ p
        → i ≤ t.transaction_count
        → t.transaction_count + 1 < max_wtx
        → let n = t.transaction_count + 1 in
          (v : PluginHandler H Q) × (js_new_transaction t ≡ done (some n, v))
          × (v.transaction_count ≡ n)
          × (v.contexts.transactions n ≡ some p)
          × (v.contexts.transactions i ≡ some p)
          × ((j : ℕ) → j ≢ n → v.contexts.transactions j ≡ s.contexts.transactions j)
    new_after_run i p s u t entry committed ran again old room =
        let (same, _) = committed_run (pos i) p s u t committed ran in
        let (_, unlocked) = run_wtx_dead p u t ran in
        let (v, made, count, entries) = new_transaction_made t unlocked room in
        (
          v,
          made,
          count,
          rw entries (ground (arith, again)),
          rw (entries, same) (ground (arith, entry)),
          λ j other. rw (entries, same) (ground arith),
        )

  -- A script that locks the transactions and then clears one, or makes a new one, waits for ever:
  -- the mutex that it holds is locked again.
  pub lock_transaction_blocks :
      (id : ℤ) (id' : ℤ) (s t : PluginHandler H Q)
      → lock_transaction id s ≡ done t
      → (lock_transaction id' t ≡ blocked)
        × (clear_transaction id' t ≡ blocked)
        × (js_new_transaction t ≡ blocked)
  unfolding lock_transaction clear_transaction js_new_transaction
  lock_transaction_blocks id id' s t h = (ground arith, ground arith, ground arith)

  -- The life of a transaction: the next id is pushed for the script, its entry is a new context
  -- with no elements, and a commit of it, where `commit` is a threaded function and the call's mutex
  -- is free, puts just that context into the priority queue, marked with its id, and keeps it alive.
  pub js_new_transaction-commit :
      (g : ℕ) (s : PluginHandler H Q)
      → s.ta_locked ≡ false
      → s.call_locked ≡ false
      → s.transaction_count + 1 < max_wtx
      → H.get s.registry.thr_functions (codes "commit") ≡ some g
      → let n = s.transaction_count + 1 in
        (t u : PluginHandler H Q) × (js_new_transaction s ≡ done (some n, t))
        × (t.contexts.transactions n ≡ some s.contexts.next)
        × (js_commit_transaction run timed_out (pos n) t ≡ done u)
        × (u.queue ≡ Q.insert s.queue (wtx s.contexts.next) default_prio)
        × (u.contexts.live s.contexts.next
            ≡ some (record zeroed { transaction_id = pos n; can_be_reused = true }))
  unfolding js_new_transaction js_commit_transaction commit_wtx
  js_new_transaction-commit g s unlocked free room is_g =
      let n = s.transaction_count + 1 in
      let p = s.contexts.next in
      let c = registered n s.contexts in
      let t = record s { contexts = c; transaction_count = n; ta_locked = false } in
      let w = record zeroed { transaction_id = pos n; can_be_reused = true } in
      let v = record t {
        contexts = Wtx.store p w c;
        call_locked = true;
        call_count = t.call_count + 1;
      } in
      let q = post timed_out (codes "commit") (wtx p) call_type_wtx true v in
      let u = record q {
        call_locked = false;
        contexts = record (Wtx.store p w c) { wtx_locked = false };
      } in
      (
        t,
        u,
        ground (arith, (new_wtx_cases n s.contexts).1 (omega arith) room),
        ground arith,
        ground arith,
        unfold post in refl,
        ground arith,
      )
