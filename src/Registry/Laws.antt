-- ===== src/Registry/Laws.antt =====
-- lib/plugins.c: which function a name stands for once plugins have exported theirs.
use wallyd.Common.{ℕ, ◌≡◌, refl, not, ◌&&◌, Option, none, some, List, [], ◌∷◌, arith, if◌then◌else◌}
use wallyd.Common.Str.{Bytes, str_eq, str_eq_iff}
use wallyd.External.{HashTable}
use wallyd.Registry.{
  Registry, FunctionListEntry, export_threaded, export_sync, wally_put_function,
  wally_put_function_list,
}

-- The value of the first synchronous entry of that name, and of the last threaded one.
abbrev pub first_sync : Bytes → List FunctionListEntry → Option ℕ
first_sync j [] = none
first_sync j (e ∷ es) = if str_eq e.name j && not e.threaded then some e.value else first_sync j es

abbrev pub last_threaded : Bytes → List FunctionListEntry → Option ℕ
last_threaded j [] = none
last_threaded j (e ∷ es) = elim (last_threaded j es) [
  | some f ↦ some f
  | none ↦ if str_eq e.name j && e.threaded then some e.value else none
]

abbrev pub or_else {ℓ} : {A : Type ℓ} → Option A → Option A → Option A
or_else none o = o
or_else (some a) o = some a

module _ {H : HashTable} (new_cond : Bytes → Option ℕ) where
  put_sync :
      (e : FunctionListEntry) (r : Registry H) (j : Bytes)
      → H.get (wally_put_function new_cond e.name e.threaded e.value e.nargs r).functions j
        ≡ or_else
            (H.get r.functions j)
            (if str_eq e.name j && not e.threaded then some e.value else none)
  unfolding wally_put_function export_threaded export_sync
  put_sync e r j =
      ground (arith, H.get-insert r.functions e.name (some e.value) j, str_eq_iff e.name j)

  -- A synchronous function's name stands for the first function exported under it, for good: what
  -- the table held before a list of exports, else the first synchronous entry of that name, and
  -- later entries of that name change nothing.
  pub wally_put_function_list_first :
      (es : List FunctionListEntry) (r : Registry H) (j : Bytes)
      → H.get (wally_put_function_list new_cond es r).functions j
        ≡ or_else (H.get r.functions j) (first_sync j es)
  unfolding wally_put_function_list
  wally_put_function_list_first [] r j = ground arith
  wally_put_function_list_first (e ∷ es) r j = ground (
    arith,
    put_sync e r j,
    wally_put_function_list_first es
        (wally_put_function new_cond e.name e.threaded e.value e.nargs r) j,
  )

  put_threaded :
      (e : FunctionListEntry) (r : Registry H) (j : Bytes)
      → H.get r.functions j ≡ none
      → H.get (wally_put_function new_cond e.name e.threaded e.value e.nargs r).thr_functions j
        ≡ (if str_eq e.name j && e.threaded then some e.value else H.get r.thr_functions j)
  unfolding wally_put_function export_threaded export_sync
  put_threaded e r j absent =
      ground (arith, H.get-insert r.thr_functions e.name (some e.value) j, str_eq_iff e.name j)

  -- A threaded function's name stands for the last function exported under it, as long as no
  -- synchronous function of that name is there or comes with the list: a later threaded entry
  -- replaces an earlier one, although the code means to refuse it.
  pub wally_put_function_list_last :
      (es : List FunctionListEntry) (r : Registry H) (j : Bytes)
      → H.get r.functions j ≡ none
      → first_sync j es ≡ none
      → H.get (wally_put_function_list new_cond es r).thr_functions j
        ≡ or_else (last_threaded j es) (H.get r.thr_functions j)
  unfolding wally_put_function_list
  wally_put_function_list_last [] r j absent no_sync = refl
  wally_put_function_list_last (e ∷ es) r j absent no_sync = ground (
    arith,
    put_sync e r j,
    put_threaded e r j,
    wally_put_function_list_last es
        (wally_put_function new_cond e.name e.threaded e.value e.nargs r) j,
  )
