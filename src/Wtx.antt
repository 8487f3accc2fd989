-- ===== src/Wtx.antt =====
-- lib/plugins.c: the call contexts (`wally_call_ctx`) that carry a function's name and its parameter,
-- or the elements of a transaction, from the caller to the UI loop.
-- A pointer to a context is a number. `live` is the memory: `none` is a block that was never
-- allocated or that was freed. `next` is the address that malloc gives next, and `later` those that it
-- gives after that: any addresses, so also those of blocks that were freed. `transactions` is the array of `MAX_WTX` pointers that
-- `pluginsInit` allocates and does not clear: `none` is an entry that nobody wrote.
-- `strings` counts the copies that `strdup` made and nobody freed; malloc does not fail.
pub mod Alloc
pub mod Free
use wallyd.Common.{
  ℕ, zero, suc, ◌+◌, ◌-◌, Bool, true, false, Option, none, some, ltb, if◌then◌else◌, out_of_bounds,
  use_after_free, uninitialised, Outcome, done, fault, blocked, ◌>>=◌, update,
}
use wallyd.Common.Str.{Bytes}
use wallyd.Common.Int.{ℤ, pos, negsuc}

abbrev pub wtx_size : ℕ
wtx_size = 512

abbrev pub max_wtx : ℕ
max_wtx = 262143

-- The values of `type` that this file names: CALL_TYPE_PTR is 0 and CALL_TYPE_STR is 1.
abbrev pub call_type_str : ℕ
call_type_str = 1

-- The arrays have `WTX_SIZE` entries. The fields `data`, `data_size` and `ret` are never used.
pub record WallyCallCtx : Type 0 where
  pub name : ℕ → Option Bytes
  pub param : ℕ → Option Bytes
  pub type : ℕ → ℕ
  pub elements : ℕ
  pub transaction : Bool
  pub transaction_id : ℤ
  pub can_be_reused : Bool

pub record Contexts : Type 0 where
  pub live : ℕ → Option WallyCallCtx
  pub next : ℕ
  pub later : ℕ → ℕ
  pub transactions : ℕ → Option ℕ
  pub strings : ℕ
  pub wtx_locked : Bool

-- memset(wtx, 0, sizeof(wally_call_ctx))
abbrev pub zeroed : WallyCallCtx
zeroed = record {
  name = λ _. none;
  param = λ _. none;
  type = λ _. 0;
  elements = 0;
  transaction = false;
  transaction_id = pos 0;
  can_be_reused = false;
}

abbrev pub load : ℕ → Contexts → Outcome WallyCallCtx
load p s = elim (s.live p) [ none ↦ fault use_after_free | some w ↦ done w ]

abbrev pub store : ℕ → WallyCallCtx → Contexts → Contexts
store p w s = record s { live = update s.live p (some w) }

-- The next block that malloc gives, which may be one that was freed.
abbrev pub alloc : WallyCallCtx → Contexts → Contexts
alloc w s = record s {
  live = update s.live s.next (some w);
  next = s.later 0;
  later = λ n. s.later (suc n);
}

abbrev pub is_positive : ℤ → Bool
is_positive (pos zero) = false
is_positive (pos (suc n)) = true
is_positive (negsuc n) = false

-- ph->transactions[id], as a place of the array.
abbrev pub slot : ℤ → Outcome ℕ
slot (pos n) = if ltb n max_wtx then done n else fault out_of_bounds
slot (negsuc n) = fault out_of_bounds

unfoldable pub init_wtx : ℤ → Contexts → Outcome (ℕ × Contexts)
init_wtx id s =
    let p = s.next in
    let t = alloc (record zeroed { transaction_id = id }) s in
    if is_positive id
    then slot id >>= (λ i. done (p, record t { transactions = update t.transactions i (some p) }))
    else done (p, t)

pub spp_init_wtx : ℤ → Contexts → Outcome (ℕ × Contexts)
spp_init_wtx id s = done (s.next, alloc (record zeroed { transaction_id = id }) s)

abbrev above_max : ℤ → Bool
above_max (pos n) = ltb max_wtx n
above_max (negsuc n) = false

-- NULL is `none`.
unfoldable pub new_wtx : ℤ → Contexts → Outcome (Option ℕ × Contexts)
unfolding init_wtx
new_wtx id s =
    if above_max id then done (none, s) else init_wtx id s >>= (λ r. done (some r.0, r.1))

pub spp_new_wtx : ℤ → Contexts → Outcome (Option ℕ × Contexts)
unfolding spp_init_wtx
spp_new_wtx id s =
    if above_max id then done (none, s) else spp_init_wtx id s >>= (λ r. done (some r.0, r.1))

-- The number of strings behind a pointer that may be NULL.
abbrev pub held : Option Bytes → ℕ
held none = 0
held (some _) = 1

-- name[i] = strdup(fstr), and param[i] = strdup(params) unless `params` is NULL.
abbrev pub fill : ℕ → Bytes → Option Bytes → WallyCallCtx → WallyCallCtx
fill i fstr params w = record w {
  name = update w.name i (some fstr);
  param = update w.param i params;
  elements = i + 1;
  type = update w.type i call_type_str;
}

unfoldable pub new_simple_wtx : Bytes → Option Bytes → Contexts → Outcome (ℕ × Contexts)
unfolding init_wtx
new_simple_wtx fstr params s = init_wtx (pos 0) s >>= λ (p, t). load p t >>= λ w.
    done (p, record (store p (fill 0 fstr params w) t) { strings = t.strings + 1 + held params })

pub ssp_new_simple_wtx : Bytes → Option Bytes → Contexts → Outcome (ℕ × Contexts)
ssp_new_simple_wtx fstr params s =
    let t = alloc (fill 0 fstr params zeroed) s in
    done (s.next, record t { strings = t.strings + 1 + held params })

-- The index is `ph->transaction`, a bool: the entry 0 or 1. The argument `id` is not used.
unfoldable pub push_simple_wtx : Bool → Bytes → Option Bytes → Contexts → Outcome Contexts
push_simple_wtx current fstr params s = elim (s.transactions (if current then 1 else 0)) [
  | none ↦ fault uninitialised
  | some p ↦ load p s >>= λ w.
      if ltb w.elements wtx_size
      then done (record (store p (fill w.elements fstr params w) s) {
        strings = s.strings + 1 + held params;
      })
      else fault out_of_bounds
]

-- The loop of `freeWtxElements`, from the last element down to the first.
unfoldable pub free_slots : ℕ → WallyCallCtx → ℕ → WallyCallCtx × ℕ
free_slots zero w strings = (w, strings)
free_slots (suc el) w strings =
    free_slots el (record w { name = update w.name el none; param = update w.param el none })
      (strings - held (w.name el) - held (w.param el))

unfoldable pub free_wtx_elements : Option ℕ → Contexts → Outcome Contexts
unfolding free_slots
free_wtx_elements none s = done s
free_wtx_elements (some p) s =
    if s.wtx_locked
    then blocked
    else load p s >>= λ w.
        let (v, n) = free_slots w.elements w s.strings in
        done (record (store p (record v { elements = 0 }) s) { strings = n })

-- free(wtx)
abbrev pub release : ℕ → Contexts → Contexts
release p s = record s { live = update s.live p none }

unfoldable pub free_wtx : ℕ → Contexts → Outcome Contexts
unfolding free_wtx_elements
free_wtx p s = free_wtx_elements (some p) s >>= λ t. done (release p t)
