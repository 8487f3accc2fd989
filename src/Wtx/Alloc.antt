-- ===== src/Wtx/Alloc.antt =====
-- lib/plugins.c: what the functions that make a context and that append to one come to.
use wallyd.Common.{
  ℕ, zero, suc, ◌+◌, ◌≤◌, ◌<◌, ◌≡◌, refl, Bool, Option, none, some, arith, if◌then◌else◌,
  out_of_bounds, done, fault, update,
}
use wallyd.Common.Str.{Bytes}
use wallyd.Common.Int.{ℤ, pos}
use wallyd.Wtx.{
  WallyCallCtx, Contexts, zeroed, wtx_size, max_wtx, store, alloc, fill, held, new_wtx,
  push_simple_wtx,
}

-- The context that `newWtx` makes, and the state that it leaves.
abbrev pub made : ℤ → Contexts → Contexts
made id s = alloc (record zeroed { transaction_id = id }) s

abbrev pub registered : ℕ → Contexts → Contexts
registered i s = record (made (pos i) s) { transactions = update s.transactions i (some s.next) }

-- `newWtx` refuses every id above MAX_WTX and changes nothing; an id from 1 to MAX_WTX - 1 gets a
-- new, cleared context that is entered at that place of `transactions`; and MAX_WTX itself, which
-- the test lets pass, is a write one place behind the end of that array.
pub new_wtx_cases :
    (n : ℕ) (s : Contexts)
    → (max_wtx < n → new_wtx (pos n) s ≡ done (none, s))
      × (0 < n → n < max_wtx → new_wtx (pos n) s ≡ done (some s.next, registered n s))
      × (new_wtx (pos max_wtx) s ≡ fault out_of_bounds)
unfolding new_wtx
new_wtx_cases zero s = (λ h. ground arith, λ h k. ground arith, refl)
new_wtx_cases (suc n) s = (λ h. ground arith, λ h k. ground arith, refl)

-- Where a transaction's context has room, `pushSimpleWtx` appends the call behind the elements
-- that are there: it counts one more, the new element is the function's name and its parameter,
-- and the elements before it and every other context stay as they are.
pub push_simple_wtx_appends :
    (current : Bool) (f : Bytes) (params : Option Bytes) (s : Contexts) (p : ℕ) (w : WallyCallCtx)
    → s.transactions (if current then 1 else 0) ≡ some p
    → s.live p ≡ some w
    → w.elements < wtx_size
    → (v : WallyCallCtx) × (push_simple_wtx current f params s
        ≡ done (record (store p v s) { strings = s.strings + 1 + held params }))
      × (v.elements ≡ w.elements + 1)
      × (v.name w.elements ≡ some f)
      × (v.param w.elements ≡ params)
      × ((i : ℕ) → i < w.elements → (v.name i ≡ w.name i) × (v.param i ≡ w.param i))
unfolding push_simple_wtx
push_simple_wtx_appends current f params s p w at alive room = (
  fill w.elements f params w,
  ground arith,
  refl,
  ground arith,
  ground arith,
  λ i h. (ground arith, ground arith),
)

-- Where the context is full, the next call is written behind the end of its arrays: `pushSimpleWtx`
-- has no test of `elements` against WTX_SIZE.
pub push_simple_wtx_full :
    (current : Bool) (f : Bytes) (params : Option Bytes) (s : Contexts) (p : ℕ) (w : WallyCallCtx)
    → s.transactions (if current then 1 else 0) ≡ some p
    → s.live p ≡ some w
    → wtx_size ≤ w.elements
    → push_simple_wtx current f params s ≡ fault out_of_bounds
unfolding push_simple_wtx
push_simple_wtx_full current f params s p w at alive full = ground arith
