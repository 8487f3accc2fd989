-- ===== src/Texture/Render/Drawn.antt =====
-- lib/ui.c: what `renderActiveEx` draws.
use wallyd.Common.{
  ℕ, zero, suc, ◌≡◌, refl, sym, ap, ◌∙◌, inl, inr, Bool, true, false, ◌&&◌, Option, none, some,
  List, [], ◌∷◌, map, arith, if◌then◌else◌, Bool-cases, Option-cases, length, take, take_all, All,
  done,
}
use wallyd.Common.Str.{contains, All-of_contains, Bytes, str_eq, str_eq_iff}
use mathlib.Core.Path.{subst}
use wallyd.External.{HashTable}
use wallyd.Registry.{is_some}
use wallyd.Texture.{TexInfo, Prio, names, Screen, priority}
use wallyd.Texture.Sorted.{IsBelow, IsSorted}
use wallyd.Texture.WellFormed.{IsWf, IsDrawn}
use wallyd.Texture.Render.{is_shown, with_drawn, render_names, render_prio, render_active_ex}

-- The texture of that name is there and is shown.
abbrev pub is_shown_name : {H : HashTable} → Screen H → Bytes → Bool
is_shown_name {H} s j = elim (H.get s.base_textures j) [ none ↦ false | some t ↦ is_shown t ]

-- The names that are drawn.
unfoldable shown_names : {H : HashTable} → Screen H → List Bytes → List Bytes
shown_names s [] = []
shown_names s (k ∷ ks) = if is_shown_name s k then k ∷ shown_names s ks else shown_names s ks

All-shown_names :
    {H : HashTable} (P : Bytes → Type 0) (s : Screen H) (ks : List Bytes)
    → All P ks
    → All P (shown_names s ks)
unfolding shown_names
All-shown_names P s [] h = tt
All-shown_names P s (k ∷ ks) (hk, h) = elim (Bool-cases (is_shown_name s k)) [
  | inl shown ↦ rw shown (hk, All-shown_names P s ks h)
  | inr hidden ↦ rw hidden (All-shown_names P s ks h)
]

shown_names-IsSorted :
    {H : HashTable} (s : Screen H) (ks : List Bytes)
    → IsSorted (priority s) ks
    → IsSorted (priority s) (shown_names s ks)
unfolding shown_names
shown_names-IsSorted s [] h = tt
shown_names-IsSorted s (k ∷ ks) (below, h) = elim (Bool-cases (is_shown_name s k)) [
  | inl shown ↦
      rw shown (All-shown_names (IsBelow (priority s) k) s ks below, shown_names-IsSorted s ks h)
  | inr hidden ↦ rw hidden (shown_names-IsSorted s ks h)
]

contains-shown_names :
    {H : HashTable} (s : Screen H) (ks : List Bytes) (j : Bytes)
    → contains j (shown_names s ks) ≡ (contains j ks && is_shown_name s j)
unfolding shown_names
contains-shown_names s [] j = refl
contains-shown_names s (k ∷ ks) j = elim (Bool-cases (str_eq k j)) [
  | inl same ↦
      let e = ap (is_shown_name s) ((str_eq_iff k j).0 same) in
      elim (Bool-cases (is_shown_name s j)) [
        | inl shown ↦ ground (arith, e, shown, same, contains-shown_names s ks j)
        | inr hidden ↦ ground (arith, e, hidden, same, contains-shown_names s ks j)
      ]
  | inr other ↦ elim (Bool-cases (is_shown_name s k)) [
    | inl shown ↦ ground (arith, shown, other, contains-shown_names s ks j)
    | inr hidden ↦ ground (arith, hidden, other, contains-shown_names s ks j)
  ]
]

map_if :
    (g : Bytes → Option TexInfo) (b c : Bool) (t : TexInfo) (k : Bytes) (ds : List TexInfo)
    (ks : List Bytes)
    → c ≡ b
    → g k ≡ some t
    → map (λ d. some d) ds ≡ map g ks
    → map (λ d. some d) (if b then t ∷ ds else ds) ≡ map g (if c then k ∷ ks else ks)
map_if g true true t k ds ks same e m = cc
map_if g true false t k ds ks same e m = absurd (ground arith)
map_if g false true t k ds ks same e m = absurd (ground arith)
map_if g false false t k ds ks same e m = m

-- With nothing to wait for, the loop draws the shown names' textures, where each name has one.
render_names-shown_names :
    {H : HashTable} (s : Screen H) (start : Bool) (ks : List Bytes)
    → All (λ k. is_some (H.get s.base_textures k) ≡ true) ks
    → (ds : List TexInfo) × (render_names none start ks s ≡ done ds)
      × (map (λ d. some d) ds ≡ map (H.get s.base_textures) (shown_names s ks))
unfolding render_names shown_names
render_names-shown_names s start [] h = ([], refl, refl)
render_names-shown_names {H} s start (k ∷ ks) (hk, h) =
    let (ds, e, m) = render_names-shown_names s true ks h in
    elim (Option-cases (H.get s.base_textures k)) [
      | inl absent ↦ absurd (ground arith)
      | inr (t, is_t) ↦ (
        with_drawn t ds,
        ground (arith, is_t, e),
        map_if (H.get s.base_textures) (is_shown t) (is_shown_name s k) t k ds (shown_names s ks)
            (ground (arith, is_t)) is_t m,
      )
    ]

wf_names :
    {H : HashTable} (s : Screen H) (ks : List Bytes)
    → IsWf s
    → s.texture_prio ≡ names ks
    → IsSorted (priority s) ks × ((j : Bytes) → contains j ks ≡ is_some (H.get s.base_textures j))
unfolding IsWf
wf_names s ks (l, d) e = subst (IsDrawn s) e d

-- All the names are read.
render_prio-names :
    {H : HashTable} (s : Screen H) (n : ℕ) (prio : Prio) (ks : List Bytes)
    → prio ≡ names ks
    → length ks ≡ n
    → render_prio none n prio s ≡ render_names none false ks s
unfolding render_prio render_names
render_prio-names s zero prio [] e l = refl
render_prio-names s zero prio (k ∷ ks) e l = absurd (omega arith)
render_prio-names s (suc n) prio ks e l =
    ap (λ p. render_prio none (suc n) p s) e
    ∙ ground (arith, l, subst (λ m. take m ks ≡ ks) l (take_all ks))

-- A well-formed screen whose list of names is as long as its table of textures, drawn from the start:
-- no pointer goes wrong, and what is drawn are the textures of names that are in the order of their
-- priorities, the lowest first, and that are just the names of the textures which are active, are
-- drawn on their own and have a size.
pub render_active_ex-IsSorted :
    {H : HashTable} (s : Screen H) (ks : List Bytes)
    → IsWf s
    → s.texture_prio ≡ names ks
    → length ks ≡ length (H.keys s.base_textures)
    → (ds : List TexInfo) × (shown : List Bytes) × (render_active_ex none s ≡ done ds)
      × (map (λ d. some d) ds ≡ map (H.get s.base_textures) shown)
      × IsSorted (priority s) shown
      × ((j : Bytes) → contains j shown ≡ is_shown_name s j)
unfolding render_active_ex
render_active_ex-IsSorted {H} s ks wf is_ks counted =
    let (sorted, listed) = wf_names s ks wf is_ks in
    let (ds, e, m) = render_names-shown_names s false ks (
      All-of_contains (λ k. is_some (H.get s.base_textures k) ≡ true) ks
        (λ j h. sym (listed j) ∙ h)) in
    (
      ds,
      shown_names s ks,
      render_prio-names s (length (H.keys s.base_textures)) s.texture_prio ks is_ks counted ∙ e,
      m,
      shown_names-IsSorted s ks sorted,
      λ j. contains-shown_names s ks j ∙ ground (arith, listed j),
    )
