-- ===== src/Image/Pictures.antt =====
-- plugins/sdlimage.c: `setImage`, `setImageScale`, `setImageScaleSW` and `setTextEx`, which put a
-- picture or a text on a texture: what they return, the count of textures, and whether the screen is
-- drawn anew. `loads` says whether SDL reads a file and makes a texture of it; what is copied is not
-- modelled. A size that SDL_QueryTexture does not set, because there is no texture, goes on to be used.
pub mod Count
use wallyd.Common.{
  ℕ, Bool, true, false, not, ◌&&◌, Option, none, some, List, [], if◌then◌else◌, null_pointer,
  uninitialised, Outcome, done, fault, ◌>>=◌,
}
use wallyd.Common.Str.{token, Bytes}
use wallyd.Common.Int.{ℤ, pos, negsuc, ◌+ℤ◌}
use wallyd.External.{HashTable}
use wallyd.Texture.{space, TexInfo, Screen}
use wallyd.Texture.Render.{is_zero, render_active}

abbrev pub counted : {H : HashTable} → ℤ → Screen H → Screen H
counted n s = record s { texture_count = s.texture_count +ℤ n }

-- The new screen and the textures that were drawn last.
abbrev pub Shown : HashTable → Type 0
Shown H = Screen H × List TexInfo

abbrev pub unshown : {H : HashTable} → Screen H → Outcome (Bool × Shown H)
unshown s = done (false, (s, []))

-- Draws the screen while the temporary texture is counted, and then takes it off the count.
unfoldable pub draw_counted :
    {H : HashTable} → Bool → Option Bytes → Screen H → Outcome (Bool × Shown H)
draw_counted autorender start_tex s =
    render_active autorender start_tex (counted (pos 1) s)
    >>= (λ ds. done (true, (counted (negsuc 0) (counted (pos 1) s), ds)))

unfoldable pub draw_all : {H : HashTable} → Bool → Screen H → Outcome (Bool × Shown H)
draw_all autorender s = render_active autorender none s >>= (λ ds. done (true, (s, ds)))

module _ {H : HashTable} (loads : Bytes → Bool) (autorender : Bool) where
  -- The picture is drawn after the count went down; a file that SDL does not read is no error.
  unfoldable pub set_image : Option Bytes → Option Bytes → Screen H → Outcome (Bool × Shown H)
  set_image none file_name s = unshown s
  set_image (some name) none s = unshown s
  set_image (some name) (some file_name) s = elim (token space name).0 [
    | none ↦ fault null_pointer
    | some word ↦ elim (H.get s.base_textures word) [
      | none ↦ unshown s
      | some t ↦
          if loads file_name
          then draw_all autorender (counted (negsuc 0) (counted (pos 1) s))
          else fault uninitialised
    ]
  ]

  -- The count goes up before it is known whether there is a picture.
  unfoldable pub set_image_scale : Bytes → Screen H → Outcome (Bool × Shown H)
  set_image_scale str s =
      let (first, rest) = token space str in
      elim first [
        | none ↦ fault null_pointer
        | some word ↦ elim (H.get s.base_textures word) [
          | none ↦ unshown s
          | some t ↦ elim (token space rest).0 [
            | none ↦ unshown s
            | some file ↦
                if loads file
                then draw_counted autorender (some t.name) s
                else unshown (counted (pos 1) s)
          ]
        ]
      ]

  -- `makes` says whether SDL makes the surface of the size of the texture, and `scales` whether it
  -- copies the picture there.
  unfoldable pub set_image_scale_sw :
      (TexInfo → Bool) → (Bytes → Bool) → Bytes → Screen H → Outcome (Bool × Shown H)
  set_image_scale_sw makes scales str s =
      let (first, rest) = token space str in
      elim first [
        | none ↦ fault null_pointer
        | some word ↦ elim (H.get s.base_textures word) [
          | none ↦ unshown s
          | some t ↦ elim (makes t) [
            | false ↦ unshown s
            | true ↦ elim (token space rest).0 [
              | none ↦ unshown s
              | some file ↦
                  if loads file && scales file
                  then draw_counted autorender (some t.name) s
                  else unshown s
            ]
          ]
        ]
      ]

-- `renders` says whether SDL makes a surface of a text, and `turns` whether it turns it. A surface that
-- is not made is a result of 1 as well.
unfoldable pub draw_text :
    {H : HashTable}
    → (Bytes → Bool)
    → (ℤ → Bool)
    → Bool
    → ℤ
    → Bytes
    → Screen H
    → Outcome (Bool × Shown H)
draw_text renders turns autorender rotation text s =
    if not (renders text)
    then done (true, (s, []))
    else if not (is_zero rotation) && not (turns rotation)
    then done (true, (s, []))
    else draw_counted autorender none s

-- `errors` says for which colours that are missing `errno` is set; `fonts` is the table of fonts, and
-- `draw` is `draw_text` for a text and its rotation.
unfoldable pub set_text_ex :
    {H : HashTable}
    → (Bytes → Bool)
    → (ℤ → Bytes → Screen H → Outcome (Bool × Shown H))
    → H.Table ℕ
    → Bytes
    → ℤ
    → Bytes
    → Bytes
    → Bytes
    → Screen H
    → Outcome (Bool × Shown H)
set_text_ex {H} errors draw fonts name rotation text font_name color_name s =
    elim (H.get s.base_textures name) [
      | none ↦ unshown s
      | some t ↦ elim (H.get s.colors color_name) [
        | none ↦ elim (errors color_name) [
          | true ↦ unshown s
          | false ↦ elim (H.get fonts font_name) [ none ↦ unshown s | some f ↦ fault null_pointer ]
        ]
        | some c ↦ elim (H.get fonts font_name) [ none ↦ unshown s | some f ↦ draw rotation text s ]
      ]
    ]
