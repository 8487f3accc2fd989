-- ===== src/Texture/WellFormed.antt =====
-- lib/ui.c: the order of drawing belongs to the table of textures.
use wallyd.Common.{
  ℕ, zero, suc, ◌-◌, ◌≡◌, refl, sym, ◌∙◌, inl, inr, true, Option, none, some, List, [], ◌∷◌, arith,
  Option-cases, length, done,
}
use wallyd.Common.Str.{contains, All-of_contains, Bytes}
use wallyd.Common.Int.{ℤ}
use wallyd.External.{HashTable}
use wallyd.Registry.{is_some}
use wallyd.Texture.Order.{bubble, bubbles, sort_by_prio}
use wallyd.Texture.Sorted.{IsSorted, HasTexture, sort_by_prio-IsSorted}
use wallyd.Texture.{
  Screen, TexInfo, Prio, null, dangling, names, priority, update_texture_names_by_prio,
}

contains-bubble :
    (z : Bytes → Option ℤ) (j : Bytes) (n : ℕ) (keys : List Bytes)
    → contains j (bubble z n keys) ≡ contains j keys
unfolding bubble
contains-bubble z j zero keys = refl
contains-bubble z j (suc n) [] = refl
contains-bubble z j (suc n) (a ∷ []) = refl
contains-bubble z j (suc n) (a ∷ b ∷ keys) =
    ground (arith, contains-bubble z j n (a ∷ keys), contains-bubble z j n (b ∷ keys))

contains-bubbles :
    (z : Bytes → Option ℤ) (j : Bytes) (n : ℕ) (keys : List Bytes)
    → contains j (bubbles z n keys) ≡ contains j keys
unfolding bubbles
contains-bubbles z j zero keys = refl
contains-bubbles z j (suc n) keys =
    contains-bubbles z j n (bubble z (suc n) keys) ∙ contains-bubble z j (suc n) keys

contains-sort_by_prio :
    (z : Bytes → Option ℤ) (j : Bytes) (keys : List Bytes)
    → contains j (sort_by_prio z keys) ≡ contains j keys
unfolding sort_by_prio
contains-sort_by_prio z j keys = contains-bubbles z j (length keys - 1) keys

-- The keys that the table of textures lists are those that have a texture.
abbrev pub IsListed : {H : HashTable} → Screen H → Type 0
IsListed {H} s =
    (j : Bytes) → contains j (H.keys s.base_textures) ≡ is_some (H.get s.base_textures j)

-- The order of drawing, before there was a texture and after.
abbrev pub IsDrawn : {H : HashTable} → Screen H → Prio → Type 0
IsDrawn {H} s null = (j : Bytes) → H.get s.base_textures j ≡ none
IsDrawn s dangling = ⊥
IsDrawn {H} s (names ks) =
    IsSorted (priority s) ks × ((j : Bytes) → contains j ks ≡ is_some (H.get s.base_textures j))

-- The list of names has each name with a texture and no other, the lowest priority first.
unfoldable pub IsWf : {H : HashTable} → Screen H → Type 0
IsWf s = IsListed s × IsDrawn s s.texture_prio

abbrev arranged : {H : HashTable} → Screen H → Screen H
arranged {H} s = record s {
  texture_prio = names (sort_by_prio (priority s) (H.keys s.base_textures));
}

has_priority :
    {H : HashTable} (s : Screen H) (j : Bytes)
    → is_some (H.get s.base_textures j) ≡ true
    → HasTexture (priority s) j
has_priority {H} s j h = elim (Option-cases (H.get s.base_textures j)) [
  | inl absent ↦ absurd (ground arith)
  | inr (t, is_t) ↦ (t.z, ground arith)
]

arranged-IsWf : {H : HashTable} (s : Screen H) → IsListed s → IsWf (arranged s)
unfolding IsWf
arranged-IsWf {H} s l =
    let keys = H.keys s.base_textures in
    (
      l,
      (
        (sort_by_prio-IsSorted (priority s) keys).0 (
            All-of_contains (HasTexture (priority s)) keys
              (λ j e. has_priority s j (sym (l j) ∙ e))),
        λ j. contains-sort_by_prio (priority s) j keys ∙ l j,
      ),
    )

update_arranged :
    {H : HashTable} (s t : Screen H) → update_texture_names_by_prio s ≡ done t → arranged s ≡ t
unfolding update_texture_names_by_prio
update_arranged s t h = ground arith

pub update-IsWf :
    {H : HashTable} (s t : Screen H) → IsListed s → update_texture_names_by_prio s ≡ done t → IsWf t
update-IsWf s t l h = rw (update_arranged s t h) at (arranged-IsWf s l)

pub removed-IsListed :
    {H : HashTable} (s : Screen H) (name : Bytes) (n : ℤ)
    → IsListed s
    → IsListed (record s { base_textures = H.remove s.base_textures name; texture_count = n })
removed-IsListed {H} s name n l j =
    ground (arith, l j, H.keys-remove s.base_textures name j, H.get-remove s.base_textures name j)

pub inserted-IsListed :
    {H : HashTable} (s : Screen H) (name : Bytes) (t : TexInfo) (n : ℤ)
    → IsListed s
    → IsListed
        (record s { base_textures = H.insert s.base_textures name (some t); texture_count = n })
inserted-IsListed {H} s name t n l j = ground (
  arith,
  l j,
  H.keys-insert s.base_textures name (some t) j,
  H.get-insert s.base_textures name (some t) j,
)

pub keep : {H : HashTable} (s t : Screen H) → IsWf s → s ≡ t → IsWf t
keep s t wf e = rw e at wf
