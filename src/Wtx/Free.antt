-- ===== src/Wtx/Free.antt =====
-- lib/plugins.c: what freeing the elements of a context, and the context, comes to.
use wallyd.Common.{
  ℕ, zero, suc, ◌+◌, ◌-◌, ◌≤◌, ◌<◌, ◌≡◌, refl, ◌≢◌, false, Option, none, some, arith, ltb,
  if◌then◌else◌, done, update,
}
use wallyd.Common.Str.{Bytes}
use wallyd.Wtx.{
  WallyCallCtx, Contexts, zeroed, store, alloc, fill, held, new_simple_wtx, free_slots,
  free_wtx_elements, free_wtx, release,
}

-- How many strings the first `n` elements of a context hold.
abbrev pub held_below : ℕ → WallyCallCtx → ℕ
held_below zero w = 0
held_below (suc el) w = held_below el w + held (w.name el) + held (w.param el)

-- Freeing element `el` leaves what the elements before it hold.
held_below-update :
    (n el : ℕ) (w : WallyCallCtx)
    → n ≤ el
    → held_below n (record w { name = update w.name el none; param = update w.param el none })
      ≡ held_below n w
held_below-update zero el w h = refl
held_below-update (suc n) el w h = ground (arith, held_below-update n el w (omega arith))

free_slots-strings :
    (n : ℕ) (w : WallyCallCtx) (strings : ℕ) → (free_slots n w strings).1 ≡ strings - held_below n w
unfolding free_slots
free_slots-strings zero w strings = omega arith
free_slots-strings (suc el) w strings =
    let v = record w { name = update w.name el none; param = update w.param el none } in
    omega (
      arith,
      free_slots-strings el v (strings - held (w.name el) - held (w.param el)),
      held_below-update el el w (omega arith),
    )

-- The loop clears what is below its counter, and keeps what is above it.
free_slots-name :
    (n : ℕ) (w : WallyCallCtx) (strings i : ℕ)
    → ((free_slots n w strings).0.name i ≡ (if ltb i n then none else w.name i))
      × ((free_slots n w strings).0.param i ≡ (if ltb i n then none else w.param i))
unfolding free_slots
free_slots-name zero w strings i = (ground arith, ground arith)
free_slots-name (suc el) w strings i =
    let v = record w { name = update w.name el none; param = update w.param el none } in
    let ih = free_slots-name el v (strings - held (w.name el) - held (w.param el)) i in
    (ground (arith, ih), ground (arith, ih))

-- Of a context that is alive, while the lock is free, `freeWtxElements` frees each string of the
-- elements once, leaves every one of those elements with a NULL name and a NULL parameter, counts
-- no element, and changes no other context.
pub free_wtx_elements_clears :
    (s : Contexts) (p : ℕ) (w : WallyCallCtx)
    → s.wtx_locked ≡ false
    → s.live p ≡ some w
    → (v : WallyCallCtx) × (free_wtx_elements (some p) s
        ≡ done (record (store p v s) { strings = s.strings - held_below w.elements w }))
      × (v.elements ≡ 0)
      × ((i : ℕ) → i < w.elements → (v.name i ≡ none) × (v.param i ≡ none))
unfolding free_wtx_elements
free_wtx_elements_clears s p w unlocked alive = (
  record (free_slots w.elements w s.strings).0 { elements = 0 },
  ground (arith, free_slots-strings w.elements w s.strings),
  refl,
  λ i h. (
    ground (arith, free_slots-name w.elements w s.strings i),
    ground (arith, free_slots-name w.elements w s.strings i),
  ),
)

-- A context that `newSimpleWtx` made and `freeWtx` freed leaves nothing behind: as many strings are
-- allocated as before, its memory is free again, and no other context has changed.
pub free_wtx-new_simple_wtx :
    (f : Bytes) (params : Option Bytes) (s : Contexts)
    → s.wtx_locked ≡ false
    → (t u : Contexts) × (new_simple_wtx f params s ≡ done (s.next, t))
      × (free_wtx s.next t ≡ done u)
      × (u.strings ≡ s.strings)
      × (u.live s.next ≡ none)
      × ((q : ℕ) → q ≢ s.next → u.live q ≡ s.live q)
unfolding new_simple_wtx free_wtx
free_wtx-new_simple_wtx f params s unlocked =
    let w = fill 0 f params zeroed in
    let t = record (store s.next w (alloc zeroed s)) { strings = s.strings + 1 + held params } in
    let v = record (free_slots 1 w t.strings).0 { elements = 0 } in
    let u = release s.next (record (store s.next v t) { strings = s.strings }) in
    (t, u, ground arith, ground arith, refl, ground arith, λ q h. ground arith)
