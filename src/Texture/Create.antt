-- ===== src/Texture/Create.antt =====
-- lib/ui.c: what `createTextureEx` and `destroyTexture` make of the table of textures.
use wallyd.Common.{
  ℕ, ◌≡◌, refl, ◌∙◌, inl, inr, Bool, true, false, Option, none, some, [], ◌∷◌, arith, ◌==◌,
  if◌then◌else◌, Bool-cases, Option-cases, done, ◌>>=◌, bind_done,
}
use wallyd.Common.Str.{skip, token, first_token, before, Bytes, str_eq, str_eq_self}
use wallyd.Common.Int.{ℤ, pos, ◌+ℤ◌}
use wallyd.External.{HashTable}
use wallyd.Registry.{is_some}
use wallyd.Texture.{
  Screen, TexInfo, Rect, update_texture_names_by_prio, destroy_texture, space, hex_to_color,
}
use wallyd.Texture.Place.{create_texture_ex, place, place_read, read_geometry, is_refused, placed}

before-before : (c : ℕ) (s : Bytes) → before c (before c s) ≡ before c s
before-before c [] = refl
before-before c (x ∷ s) = ground (arith, before-before c s)

skip_head : (c x : ℕ) (s r : Bytes) → skip c s ≡ x ∷ r → (x == c) ≡ false
skip_head c x [] r h = absurd (ground arith)
skip_head c x (y ∷ s) r h = ground (arith, skip_head c x s r)

first_token_again :
    (c : ℕ) (s n : Bytes)
    → ((x : ℕ) (r : Bytes) → s ≡ x ∷ r → (x == c) ≡ false)
    → (first_token c s).0 ≡ some n
    → (token c n).0 ≡ some n
first_token_again c [] n heads h = absurd (ground arith)
first_token_again c (x ∷ s) n heads h = ground (arith, heads x s refl, before-before c s)

-- A token is its own first token.
token_again : (c : ℕ) (s n : Bytes) → (token c s).0 ≡ some n → (token c n).0 ≡ some n
token_again c s n h = first_token_again c (skip c s) n (λ x r e. skip_head c x s r e) h

-- The textures but the one of a name are the same in two screens.
abbrev pub IsElsewhere : {H : HashTable} → Bytes → Screen H → Screen H → Type 0
IsElsewhere {H} name s t =
    (j : Bytes) → str_eq name j ≡ false → H.get t.base_textures j ≡ H.get s.base_textures j

destroy_texture_result :
    {H : HashTable} (text name : Bytes) (s t : Screen H) (b : Bool)
    → (token space text).0 ≡ some name
    → destroy_texture (some text) s ≡ done (b, t)
    → (H.get t.base_textures name ≡ none)
      × (b ≡ is_some (H.get s.base_textures name))
      × IsElsewhere name s t
unfolding destroy_texture update_texture_names_by_prio
destroy_texture_result {H} text name s t b is_name h = (
  ground (arith, H.get-remove s.base_textures name name, str_eq_self name),
  ground arith,
  λ j other. ground (arith, H.get-remove s.base_textures name j),
)

-- After the first part of `createTextureEx` the name has no texture.
cleared :
    {H : HashTable} (name : Bytes) (s t : Screen H) (b : Bool)
    → (token space name).0 ≡ some name
    → (if is_some (H.get s.base_textures name)
        then destroy_texture (some name) s
        else done (false, s))
      ≡ done (b, t)
    → (H.get t.base_textures name ≡ none) × IsElsewhere name s t
cleared {H} name s t b again h = elim (Bool-cases (is_some (H.get s.base_textures name))) [
  | inl there ↦
      let (absent, _, apart) = destroy_texture_result name name s t b again (ground arith) in
      (absent, apart)
  | inr absent ↦ (ground arith, λ j other. ground arith)
]

put_result :
    {H : HashTable} (name : Bytes) (x : TexInfo) (s t : Screen H) (b : Bool)
    → ◌>>=◌ {B = Bool × Screen H}
        (update_texture_names_by_prio (record s {
          texture_count = s.texture_count +ℤ pos 1;
          base_textures = H.insert s.base_textures name (some x);
        }))
        (λ u. done (true, u))
      ≡ done (b, t)
    → (is_some (H.get t.base_textures name) ≡ b) × IsElsewhere name s t
unfolding update_texture_names_by_prio
put_result {H} name x s t b h = (
  ground (arith, H.get-insert s.base_textures name (some x) name, str_eq_self name),
  λ j other. ground (arith, H.get-insert s.base_textures name (some x) j),
)

place_read_result :
    {H : HashTable} (create : Bool → ℤ → ℤ → Option ℕ) (name : Bytes) (v : Bool)
    (g : Option (ℤ × Rect × ℤ)) (s t : Screen H) (b : Bool)
    → H.get s.base_textures name ≡ none
    → place_read create name v g s ≡ done (b, t)
    → (is_some (H.get t.base_textures name) ≡ b) × IsElsewhere name s t
unfolding place_read place
place_read_result create name v none s t b absent h = (ground arith, λ j other. ground arith)
place_read_result {H} create name v (some (z, q, color)) s t b absent h =
    let rect = placed s.width s.height q in
    elim (Bool-cases (is_refused rect)) [
      | inl refused ↦ (ground arith, λ j other. ground arith)
      | inr ok ↦ elim (Option-cases (create v rect.w rect.h)) [
        | inl failed ↦ (ground arith, λ j other. ground arith)
        | inr (texture, is_texture) ↦
            put_result name
              (record {
                texture = texture;
                rect = rect;
                name = name;
                c = record (hex_to_color color) { a = 255 };
                video = v;
                active = true;
                z = z;
                autorender = true;
              })
              s t b (ground arith)
      ]
    ]

-- `createTextureEx` of a text whose first word is the name, where it returns: it is true exactly
-- if the name now has a texture, so that one that failed leaves none, not the one that was
-- there; every other texture is as before.
pub create_texture_ex_result :
    {H : HashTable} (create : Bool → ℤ → ℤ → Option ℕ) (text name : Bytes) (v : Bool)
    (s t : Screen H) (b : Bool)
    → (token space text).0 ≡ some name
    → create_texture_ex create text v s ≡ done (b, t)
    → (is_some (H.get t.base_textures name) ≡ b) × IsElsewhere name s t
unfolding create_texture_ex
create_texture_ex_result {H} create text name v s t b is_name h =
    let ((c, u), gone, rest) =
      bind_done
        (if is_some (H.get s.base_textures name)
          then destroy_texture (some name) s
          else done (false, s))
        (λ (b, t).
          read_geometry (token space text).1 t.width t.height >>= λ g. place_read create name v g t)
        (b, t) (ground arith) in
    let (g, is_read, placed_g) =
      bind_done (read_geometry (token space text).1 u.width u.height)
        (λ g. place_read create name v g u) (b, t) rest in
    let (absent, apart) = cleared name s u c (token_again space text name is_name) gone in
    let (result, apart') = place_read_result create name v g u t b absent placed_g in
    (result, λ j other. apart' j other ∙ apart j other)
