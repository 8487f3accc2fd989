-- ===== src/Texture/Place.antt =====
-- lib/ui.c: `createTextureEx`, which makes a texture and enters it into the table.
use wallyd.Common.{
  ℕ, Bool, true, false, ◌&&◌, ◌||◌, Option, none, some, ◌==◌, if◌then◌else◌, null_pointer, Outcome,
  done, fault, ◌>>=◌,
}
use wallyd.Common.Str.{token, Bytes}
use wallyd.Common.Int.{ℤ, pos, negsuc, ◌+ℤ◌}
use wallyd.External.{HashTable}
use wallyd.Registry.{is_some}
use wallyd.Number.{get_num_or_percent, get_num_hex}
use wallyd.Texture.{
  Rect, Screen, hex_to_color, space, update_texture_names_by_prio, destroy_texture, ◌>>=?◌,
}

-- The z value, the rectangle and the colour that the words behind the name give; none is `goto fail`.
unfoldable pub read_geometry : Bytes → ℤ → ℤ → Outcome (Option (ℤ × Rect × ℤ))
read_geometry words width height =
    let (zs, r1) = token space words in
    let (xs, r2) = token space r1 in
    let (ys, r3) = token space r2 in
    let (ws, r4) = token space r3 in
    let (hs, r5) = token space r4 in
    let (cs, r6) = token space r5 in
    get_num_or_percent zs (pos 0) >>=? λ z. get_num_or_percent xs width >>=? λ x.
    get_num_or_percent ys height >>=? λ y. get_num_or_percent ws width >>=? λ w.
    get_num_or_percent hs height >>=? λ h. get_num_hex cs >>= λ c.
    done (
      some (z, record { x = x; y = y; w = w; h = h }, elim c [ none ↦ pos 0 | some color ↦ color ]))

abbrev pub is_unset : ℤ → Bool
is_unset (pos n) = false
is_unset (negsuc n) = n == 0

abbrev pub is_zero : ℤ → Bool
is_zero (pos n) = n == 0
is_zero (negsuc n) = false

-- No parameters are the whole screen.
abbrev pub placed : ℤ → ℤ → Rect → Rect
placed width height q =
    if is_unset q.x && is_unset q.y && is_unset q.w && is_unset q.h
    then record { x = pos 0; y = pos 0; w = width; h = height }
    else q

abbrev pub is_refused : Rect → Bool
is_refused q =
    is_zero q.w || is_zero q.h || is_unset q.x || is_unset q.y || is_unset q.w || is_unset q.h

module _ {H : HashTable} (create : Bool → ℤ → ℤ → Option ℕ) where
  -- The part of `createTextureEx` behind the parameters.
  unfoldable pub place : Bytes → Bool → ℤ → Rect → ℤ → Screen H → Outcome (Bool × Screen H)
  place name is_video z rect color s =
      if is_refused rect then done (false, s) else elim (create is_video rect.w rect.h) [
        | none ↦ done (false, s)
        | some texture ↦
            update_texture_names_by_prio (record s {
              texture_count = s.texture_count +ℤ pos 1;
              base_textures = H.insert s.base_textures name (
                  some (record {
                    texture = texture;
                    rect = rect;
                    name = name;
                    c = record (hex_to_color color) { a = 255 };
                    video = is_video;
                    active = true;
                    z = z;
                    autorender = true;
                  }));
            })
            >>= λ u. done (true, u)
      ]

  -- `none` is `goto fail`.
  unfoldable pub place_read :
      Bytes → Bool → Option (ℤ × Rect × ℤ) → Screen H → Outcome (Bool × Screen H)
  place_read name is_video none s = done (false, s)
  place_read name is_video (some (z, rect, color)) s =
      place name is_video z (placed s.width s.height rect) color s

  -- A texture of that name is destroyed before the parameters are read.
  unfoldable pub create_texture_ex : Bytes → Bool → Screen H → Outcome (Bool × Screen H)
  create_texture_ex text is_video s =
      let (first, words) = token space text in
      elim first [
        | none ↦ fault null_pointer
        | some name ↦
            (if is_some (H.get s.base_textures name)
              then destroy_texture (some name) s
              else done (false, s))
            >>= λ (b, t). read_geometry words t.width t.height >>= λ g. place_read name is_video g t
      ]

  abbrev pub create_texture : Bytes → Screen H → Outcome (Bool × Screen H)
  create_texture text s = create_texture_ex text false s

  abbrev pub create_video_texture : Bytes → Screen H → Outcome (Bool × Screen H)
  create_video_texture text s = create_texture_ex text true s
