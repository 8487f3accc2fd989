-- ===== src/Loader.antt =====
-- lib/plugins.c: `openPlugin` and `pluginLoader`, which load the plugins of a directory, and
-- `cleanupPlugins`. What dlopen and dlsym give, and what a plugin's initPlugin does with the rest of
-- the program's state, are parameters. A file name of less than three bytes is no plugin: the bytes in
-- front of it, which are then read, belong to the entry of the directory and end no ".so".
pub mod Laws
use wallyd.Common.{
  ℕ, zero, suc, ◌+◌, Bool, true, false, ◌&&◌, Option, none, some, List, [], ◌∷◌, ◌++◌, ◌==◌,
  if◌then◌else◌,
}
use wallyd.Common.Str.{Bytes}
use wallyd.Common.Int.{ℤ, pos, negsuc}
use wallyd.External.{HashTable}

abbrev pub slash : ℕ
slash = b'/'

-- `plugins` is the table of handles, where NULL is stored as well; `state` is what the plugins change.
pub record Loader (H : HashTable) (S : Type 0) : Type 0 where
  pub plugins : H.Table ℕ
  pub plugin_count : ℕ
  pub plugin_loader_done : Bool
  pub state : S

-- The last three bytes are ".so".
abbrev pub is_plugin : Bytes → Bool
is_plugin [] = false
is_plugin (a ∷ []) = false
is_plugin (a ∷ b ∷ []) = false
is_plugin (a ∷ b ∷ c ∷ []) = a == b'.' && (b == b's') && (c == b'o')
is_plugin (a ∷ b ∷ c ∷ d ∷ s) = is_plugin (b ∷ c ∷ d ∷ s)

-- `dlopen` gives the handle of a path, or NULL; `finds_init` says whether dlsym finds initPlugin, and
-- `init` is what that does.
module _ {H : HashTable} {S : Type 0} (dlopen : Bytes → Option ℕ) (finds_init : ℕ → Bool)
    (init : ℕ → S → S) where
  unfoldable pub open_plugin : Bytes → Bytes → Loader H S → Bool × Loader H S
  open_plugin path name l =
      let l' = record l { plugins = H.insert l.plugins name (dlopen path) } in
      elim (dlopen path) [
        | none ↦ (false, l')
        | some handle ↦
            if finds_init handle
            then (true, record l' { state = init handle l.state })
            else (false, l')
      ]

  -- A round of the loop over the names in the directory: the number of plugins that were loaded.
  abbrev pub counted : ℕ → Bool × Loader H S → ℕ × Loader H S
  counted pcount (opened, l) = (if opened then pcount + 1 else pcount, l)

  unfoldable pub load_one : Bytes → Bytes → ℕ × Loader H S → ℕ × Loader H S
  load_one path d_name (pcount, l) =
      if is_plugin d_name
      then counted pcount (open_plugin (path ++ slash ∷ d_name) d_name l)
      else (pcount, l)

  unfoldable pub load_all : Bytes → List Bytes → ℕ × Loader H S → ℕ × Loader H S
  load_all path [] c = c
  load_all path (d_name ∷ names) c = load_all path names (load_one path d_name c)

  -- The names in the directory, if it opens.
  unfoldable pub plugin_loader : Bytes → Option (List Bytes) → Loader H S → ℤ × Loader H S
  plugin_loader path none l = (negsuc 0, l)
  plugin_loader path (some names) l =
      let (pcount, l') = load_all path names (0, l) in
      (pos 0, record l' { plugin_count = pcount; plugin_loader_done = true })

-- The loop of `cleanupPlugins` runs to `key_count`, which stays 0, so that no plugin is closed: what is
-- left is the result, and the queue that is freed.
abbrev pub key_count : ℕ
key_count = 0

unfoldable pub close_all : {S : Type 0} → (Bytes → S → S) → ℕ → List Bytes → S → S
close_all close zero keys s = s
close_all close (suc n) [] s = s
close_all close (suc n) (k ∷ keys) s = close_all close n keys (close k s)

unfoldable pub cleanup_plugins :
    {H : HashTable} {S : Type 0} → (Bytes → S → S) → Loader H S → Bool × Loader H S
cleanup_plugins {H} close l =
    (true, record l { state = close_all close key_count (H.keys l.plugins) l.state })
