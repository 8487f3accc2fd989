-- ===== src/Texture/Keep.antt =====
-- lib/ui.c: the functions on textures keep the order of drawing right.
use wallyd.Common.{
  ℕ, ◌≡◌, refl, ◌⊎◌, inl, inr, Bool, true, false, Option, none, some, List, arith, if◌then◌else◌,
  Bool-cases, Option-cases, done, ◌>>=◌, bind_done,
}
use wallyd.Common.Str.{token, Bytes, str_eq_iff}
use wallyd.Common.Int.{ℤ, pos, negsuc, ◌+ℤ◌}
use mathlib.Core.Path.{subst, fun_ext}
use wallyd.External.{HashTable}
use wallyd.Registry.{is_some}
use wallyd.Texture.Sorted.{IsSorted}
use wallyd.Texture.{
  Screen, TexInfo, Rect, Prio, null, dangling, names, priority, update_texture_names_by_prio,
  destroy_texture, set_texture_active, set_texture_prio, replace_texture, space, hex_to_color,
}
use wallyd.Texture.Place.{create_texture_ex, place, place_read, read_geometry, placed, is_refused}
use wallyd.Texture.Commands.{Reach, created, destroyed, activated, replaced, ranked, here, next}
use wallyd.Texture.WellFormed.{
  IsDrawn, IsWf, update-IsWf, removed-IsListed, inserted-IsListed, keep,
}

-- `destroyTexture` keeps the invariant.
pub destroy_texture-IsWf :
    {H : HashTable} (text : Option Bytes) (s t : Screen H) (b : Bool)
    → IsWf s
    → destroy_texture text s ≡ done (b, t)
    → IsWf t
unfolding IsWf destroy_texture
destroy_texture-IsWf none s t b wf h = keep s t wf (ground arith)
destroy_texture-IsWf {H} (some text) s t b wf h = elim (Option-cases (token space text).0) [
  | inl no_name ↦ absurd (ground arith)
  | inr (name, is_name) ↦ elim (Option-cases (H.get s.base_textures name)) [
    | inl absent ↦ keep s t wf (ground arith)
    | inr (x, is_x) ↦
        update-IsWf
          (record s {
            base_textures = H.remove s.base_textures name;
            texture_count = s.texture_count +ℤ negsuc 0;
          })
          t (removed-IsListed s name (s.texture_count +ℤ negsuc 0) wf.0) (ground arith)
  ]
]

IsDrawn-same :
    {H : HashTable} (s t : Screen H)
    → ((j : Bytes) → priority s j ≡ priority t j)
    → (p : Prio) → IsDrawn s p
    → IsDrawn t p
IsDrawn-same s t same null d = λ j. ground (arith, same j, d j)
IsDrawn-same s t same dangling d = d
IsDrawn-same s t same (names ks) (sorted, listed) =
    (subst (λ z. IsSorted z ks) (fun_ext same) sorted, λ j. ground (arith, same j, listed j))

-- A change of a texture that leaves its priority leaves the order.
pub set_active-IsWf :
    {H : HashTable} (s : Screen H) (name : Bytes) (x y : TexInfo)
    → H.get s.base_textures name ≡ some x
    → y.z ≡ x.z
    → IsWf s
    → IsWf (record s { base_textures = H.insert s.base_textures name (some y) })
unfolding IsWf
set_active-IsWf {H} s name x y is_x same (l, d) =
    let t = record s { base_textures = H.insert s.base_textures name (some y) } in
    (
      inserted-IsListed s name y s.texture_count l,
      IsDrawn-same s t
          (λ j. ground (arith, H.get-insert s.base_textures name (some y) j, str_eq_iff name j))
          s.texture_prio d,
    )

pub set_texture_active-IsWf :
    {H : HashTable} (text : Bytes) (active : Bool) (s : Screen H)
    → IsWf s
    → IsWf (set_texture_active text active s).1
unfolding set_texture_active
set_texture_active-IsWf {H} text active s wf = elim (Option-cases (token space text).0) [
  | inl no_name ↦ keep s (set_texture_active text active s).1 wf (ground arith)
  | inr (name, is_name) ↦ elim (Option-cases (H.get s.base_textures name)) [
    | inl absent ↦ keep s (set_texture_active text active s).1 wf (ground arith)
    | inr (x, is_x) ↦
        keep
          (record s {
            base_textures = H.insert s.base_textures name (some (record x { active = active }));
          })
          (set_texture_active text active s).1
          (set_active-IsWf s name x (record x { active = active }) is_x refl wf) (ground arith)
  ]
]

pub replace_texture-IsWf :
    {H : HashTable} (name : Bytes) (other : TexInfo) (s : Screen H)
    → IsWf s
    → IsWf (replace_texture name other s).1
unfolding replace_texture
replace_texture-IsWf {H} name other s wf = elim (Option-cases (H.get s.base_textures name)) [
  | inl absent ↦ keep s (replace_texture name other s).1 wf (ground arith)
  | inr (x, is_x) ↦
      keep
        (record s {
          base_textures =
              H.insert s.base_textures name (some (record x { texture = other.texture }));
        })
        (replace_texture name other s).1
        (set_active-IsWf s name x (record x { texture = other.texture }) is_x refl wf)
        (ground arith)
]

place-IsWf :
    {H : HashTable} (create : Bool → ℤ → ℤ → Option ℕ) (name : Bytes) (v : Bool) (z : ℤ)
    (rect : Rect) (color : ℤ) (s t : Screen H) (b : Bool)
    → IsWf s
    → place create name v z rect color s ≡ done (b, t)
    → IsWf t
unfolding IsWf place
place-IsWf {H} create name v z rect color s t b wf h = elim (Bool-cases (is_refused rect)) [
  | inl refused ↦ keep s t wf (ground arith)
  | inr ok ↦ elim (Option-cases (create v rect.w rect.h)) [
    | inl failed ↦ keep s t wf (ground arith)
    | inr (texture, is_texture) ↦
        let x : TexInfo = record {
          texture = texture;
          rect = rect;
          name = name;
          c = record (hex_to_color color) { a = 255 };
          video = v;
          active = true;
          z = z;
          autorender = true;
        } in
        update-IsWf
          (record s {
            base_textures = H.insert s.base_textures name (some x);
            texture_count = s.texture_count +ℤ pos 1;
          })
          t (inserted-IsListed s name x (s.texture_count +ℤ pos 1) wf.0) (ground arith)
  ]
]

placed-IsWf :
    {H : HashTable} (create : Bool → ℤ → ℤ → Option ℕ) (name : Bytes) (v : Bool)
    (g : Option (ℤ × Rect × ℤ)) (s t : Screen H) (b : Bool)
    → IsWf s
    → place_read create name v g s ≡ done (b, t)
    → IsWf t
unfolding place_read
placed-IsWf create name v none s t b wf h = keep s t wf (ground arith)
placed-IsWf create name v (some (z, rect, color)) s t b wf h =
    place-IsWf create name v z (placed s.width s.height rect) color s t b wf h

destroyed-IsWf :
    {H : HashTable} (name : Bytes) (s t : Screen H) (b : Bool)
    → IsWf s
    → (if is_some (H.get s.base_textures name)
        then destroy_texture (some name) s
        else done (false, s))
      ≡ done (b, t)
    → IsWf t
destroyed-IsWf {H} name s t b wf h = elim (Bool-cases (is_some (H.get s.base_textures name))) [
  | inl there ↦ destroy_texture-IsWf (some name) s t b wf (ground arith)
  | inr absent ↦ keep s t wf (ground arith)
]

pub create_texture_ex-IsWf :
    {H : HashTable} (create : Bool → ℤ → ℤ → Option ℕ) (text : Bytes) (v : Bool) (s t : Screen H)
    (b : Bool)
    → IsWf s
    → create_texture_ex create text v s ≡ done (b, t)
    → IsWf t
unfolding create_texture_ex
create_texture_ex-IsWf {H} create text v s t b wf h = elim (Option-cases (token space text).0) [
  | inl no_name ↦ absurd (ground arith)
  | inr (name, is_name) ↦
      let ((c, u), gone, rest) =
        bind_done
          (if is_some (H.get s.base_textures name)
            then destroy_texture (some name) s
            else done (false, s))
          (λ (b, t). read_geometry (token space text).1 t.width t.height >>= λ g.
            place_read create name v g t)
          (b, t) (ground arith) in
      let (g, is_read, placed_g) =
        bind_done (read_geometry (token space text).1 u.width u.height)
          (λ g. place_read create name v g u) (b, t) rest in
      placed-IsWf create name v g u t b (destroyed-IsWf name s u c wf gone) placed_g
]

prio_cases :
    {H : HashTable} (s : Screen H) (p : Prio)
    → IsDrawn s p
    → ((j : Bytes) → H.get s.base_textures j ≡ none) ⊎ ((ks : List Bytes) × (p ≡ names ks))
prio_cases s null d = inl d
prio_cases s dangling d = elim d [ ]
prio_cases s (names ks) d = inr (ks, refl)

-- In a screen where the order of drawing is right, `setTexturePrio` returns nothing but false,
-- and then has changed nothing: with a texture there is a list, which it frees twice.
pub set_texture_prio_returns :
    {H : HashTable} (text : Bytes) (s t : Screen H) (b : Bool)
    → IsWf s
    → set_texture_prio text s ≡ done (b, t)
    → (b ≡ false) × (s ≡ t)
unfolding IsWf set_texture_prio update_texture_names_by_prio
set_texture_prio_returns {H} text s t b (l, d) h = elim (Option-cases (token space text).0) [
  | inl no_name ↦ absurd (ground arith)
  | inr (name, is_name) ↦ elim (prio_cases s s.texture_prio d) [
    | inl empty ↦ ground (arith, empty name)
    | inr (ks, listed) ↦ ground arith
  ]
]

-- Whatever order the functions on textures are called in, from a screen where it is so: the list
-- of the order of drawing names each texture and nothing else, the lowest priority first.
pub textures_stay_ordered :
    {H : HashTable} (create : Bool → ℤ → ℤ → Option ℕ) (s t : Screen H)
    → IsWf s
    → Reach create s t
    → IsWf t
textures_stay_ordered create s t wf here = wf
textures_stay_ordered create s t wf (next {t = u} r (created text v b h)) =
    create_texture_ex-IsWf create text v u t b (textures_stay_ordered create s u wf r) h
textures_stay_ordered create s t wf (next {t = u} r (destroyed text b h)) =
    destroy_texture-IsWf text u t b (textures_stay_ordered create s u wf r) h
textures_stay_ordered create s t wf (next {t = u} r (activated text active h)) =
    rw h at (set_texture_active-IsWf text active u (textures_stay_ordered create s u wf r))
textures_stay_ordered create s t wf (next {t = u} r (replaced name other h)) =
    rw h at (replace_texture-IsWf name other u (textures_stay_ordered create s u wf r))
textures_stay_ordered create s t wf (next {t = u} r (ranked text b h)) =
    let wf_u = textures_stay_ordered create s u wf r in
    keep u t wf_u (set_texture_prio_returns text u t b wf_u h).1
