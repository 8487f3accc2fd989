-- ===== src/Registry.antt =====
-- lib/plugins.c: the tables of the functions that the plugins export, by name. A function is the
-- number of its address. `exportSync`, `exportThreaded`, `wally_put_function` and
-- `wally_put_function_list`; a list's entries are those before the one with a NULL name.
pub mod Laws
use wallyd.Common.{ℕ, Bool, true, false, Option, none, some, List, [], ◌∷◌, if◌then◌else◌}
use wallyd.Common.Str.{Bytes}
use wallyd.External.{HashTable}

pub record Registry (H : HashTable) : Type 0 where
  pub functions : H.Table ℕ
  pub thr_functions : H.Table ℕ
  pub function_wait_conditions : H.Table ℕ

abbrev pub is_some {ℓ} : {A : Type ℓ} → Option A → Bool
is_some none = false
is_some (some _) = true

-- `new_cond` is what `SDL_CreateCond` returns for a function's name.
module _ {H : HashTable} (new_cond : Bytes → Option ℕ) where
  pub export_threaded : Bytes → ℕ → Registry H → Bool × Registry H
  export_threaded name f r = if is_some (H.get r.functions name) then (false, r) else (
    true,
    record r {
      thr_functions = H.insert r.thr_functions name (some f);
      function_wait_conditions = H.insert r.function_wait_conditions name (new_cond name);
    },
  )

pub export_sync : {H : HashTable} → Bytes → ℕ → Registry H → Bool × Registry H
export_sync {H} name f r =
    if is_some (H.get r.functions name)
    then (false, r)
    else (true, record r { functions = H.insert r.functions name (some f) })

-- `WFUNC_THRD` is true and `WFUNC_SYNC` is false.
pub record FunctionListEntry : Type 0 where
  pub name : Bytes
  pub value : ℕ
  pub threaded : Bool
  pub nargs : ℕ

module _ {H : HashTable} (new_cond : Bytes → Option ℕ) where
  pub wally_put_function : Bytes → Bool → ℕ → ℕ → Registry H → Registry H
  wally_put_function name threaded f args r =
      if threaded then (export_threaded new_cond name f r).1 else (export_sync name f r).1

  pub wally_put_function_list : List FunctionListEntry → Registry H → Registry H
  unfolding wally_put_function
  wally_put_function_list [] r = r
  wally_put_function_list (e ∷ es) r =
      wally_put_function_list es (wally_put_function e.name e.threaded e.value e.nargs r)
