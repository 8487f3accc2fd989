-- ===== src/Loader/Laws.antt =====
-- lib/plugins.c: which plugins `pluginLoader` starts.
use wallyd.Common.{
  ℕ, ◌+◌, ◌≡◌, refl, sym, ap, ◌∙◌, inl, inr, Bool, true, ◌&&◌, Option, none, some, List, [], ◌∷◌,
  ◌++◌, arith, if◌then◌else◌, Bool-cases, Option-cases, length, length-append,
}
use wallyd.Common.Str.{Bytes, str_eq}
use wallyd.Common.Int.{pos, negsuc}
use wallyd.External.{HashTable}
use wallyd.Loader.{slash, Loader, is_plugin, open_plugin, load_one, load_all, plugin_loader}

module _ {S : Type 0} (dlopen : Bytes → Option ℕ) (finds_init : ℕ → Bool) (init : ℕ → S → S)
    (path : Bytes) where
  -- The handle of a file that is a plugin, opens, and has an initPlugin.
  abbrev pub startable : Bytes → Option ℕ
  startable name =
      if is_plugin name
      then elim (dlopen (path ++ slash ∷ name)) [
        | none ↦ none
        | some handle ↦ if finds_init handle then some handle else none
      ]
      else none

  -- The handles of those, in the order of the directory.
  abbrev pub handles : List Bytes → List ℕ
  handles [] = []
  handles (name ∷ names) = elim (startable name) [
    | none ↦ handles names
    | some h ↦ h ∷ handles names
  ]

  -- The plugins that are started one after the other.
  abbrev pub started : List ℕ → S → S
  started [] s = s
  started (h ∷ hs) s = started hs (init h s)

  -- Whether a name that is a plugin's is among them.
  abbrev pub last_handle : Bytes → List Bytes → Option ℕ → Option ℕ
  last_handle j [] old = old
  last_handle j (name ∷ names) old =
      last_handle j names
        (if is_plugin name && str_eq name j then dlopen (path ++ slash ∷ name) else old)

  load_one-startable :
      {H : HashTable} (name : Bytes) (n : ℕ) (l : Loader H S)
      → let (m, l') = load_one {H = H} dlopen finds_init init path name (n, l) in
        (m ≡ n + length (handles (name ∷ [])))
        × (l'.state ≡ started (handles (name ∷ [])) l.state)
        × ((j : Bytes) → H.get l'.plugins j ≡ last_handle j (name ∷ []) (H.get l.plugins j))
  unfolding load_one open_plugin
  load_one-startable {H} name n l = elim (Bool-cases (is_plugin name)) [
    | inr other ↦ (ground arith, ground arith, λ j. ground arith)
    | inl plugin ↦ elim (Option-cases (dlopen (path ++ slash ∷ name))) [
      | inl missing ↦
          (ground arith, ground arith, λ j. ground (arith, H.get-insert l.plugins name none j))
      | inr (h, opened) ↦
          (ground arith, ground arith, λ j. ground (arith, H.get-insert l.plugins name (some h) j))
    ]
  ]

  handles_cons :
      (name : Bytes) (names : List Bytes)
      → handles (name ∷ names) ≡ handles (name ∷ []) ++ handles names
  handles_cons name names = elim (Option-cases (startable name)) [
    | inl nothing ↦ ground arith
    | inr (h, e) ↦ ground arith
  ]

  started-append : (hs ks : List ℕ) (s : S) → started (hs ++ ks) s ≡ started ks (started hs s)
  started-append [] ks s = refl
  started-append (h ∷ hs) ks s = started-append hs ks (init h s)

  load_all-started :
      {H : HashTable} (names : List Bytes) (n : ℕ) (l : Loader H S)
      → let (m, l') = load_all {H = H} dlopen finds_init init path names (n, l) in
        (m ≡ n + length (handles names))
        × (l'.state ≡ started (handles names) l.state)
        × ((j : Bytes) → H.get l'.plugins j ≡ last_handle j names (H.get l.plugins j))
  unfolding load_all
  load_all-started [] n l = (omega arith, refl, λ j. refl)
  load_all-started {H} (name ∷ names) n l =
      let (m1, s1, p1) = load_one-startable {H = H} name n l in
      let (m, l1) = load_one {H = H} dlopen finds_init init path name (n, l) in
      let (m2, s2, p2) = load_all-started {H = H} names m l1 in
      (
        ground (
          arith,
          m1,
          m2,
          handles_cons name names,
          length-append (handles (name ∷ [])) (handles names),
        ),
        s2
            ∙ ap (started (handles names)) s1
            ∙ sym (
                ap (λ hs. started hs l.state) (handles_cons name names)
                ∙ started-append (handles (name ∷ [])) (handles names) l.state),
        λ j. p2 j ∙ ap (last_handle j names) (p1 j),
      )

  -- `pluginLoader` of a directory: it returns 0 and sets the flag; the files of which the name ends in
  -- ".so", which open, and which have an initPlugin, are started once each in the order of the
  -- directory and counted, and nothing else is started; the table has what dlopen gave for the file of
  -- each plugin's name, and what it had for any other. Without a directory it returns -1 and changes
  -- nothing.
  pub plugin_loader-started :
      {H : HashTable} (names : List Bytes) (l : Loader H S)
      → (t : H.Table ℕ) × (plugin_loader dlopen finds_init init path (some names) l ≡ (
        pos 0,
        record {
          plugins = t;
          plugin_count = length (handles names);
          plugin_loader_done = true;
          state = started (handles names) l.state;
        },
      ))
        × ((j : Bytes) → H.get t j ≡ last_handle j names (H.get l.plugins j))
        × (plugin_loader dlopen finds_init init path none l ≡ (negsuc 0, l))
  unfolding plugin_loader
  plugin_loader-started {H} names l =
      let (m, s, p) = load_all-started {H = H} names 0 l in
      (
        (load_all {H = H} dlopen finds_init init path names (0, l)).1.plugins,
        ground (arith, m, s),
        p,
        refl,
      )
