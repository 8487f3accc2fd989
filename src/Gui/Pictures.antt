-- ===== src/Gui/Pictures.antt =====
-- plugins/sdlgui.c: `loadImageFile` and `drawText`, from the call of a script to the picture or the
-- text that is put on a texture. `size` is what SDL gives as the size of a picture in a file that it
-- reads, `fonts` the table of fonts, and `renders` whether SDL makes a surface of a text; a text that
-- is NULL is `none`.
use wallyd.Common.{
  ℕ, Bool, true, false, Option, none, some, [], ◌∷◌, if◌then◌else◌, null_pointer, Outcome, done,
  fault, ◌>>=◌,
}
use wallyd.Common.Str.{Bytes, codes}
use wallyd.Common.Int.{ℤ, pos, negsuc}
use wallyd.Common.Print.{print_int, print_hex}
use wallyd.External.{HashTable}
use wallyd.Texture.{Rgba, Rect, TexInfo, Screen}
use wallyd.Texture.Render.{is_zero}
use wallyd.Image.Pictures.{counted}
use wallyd.Gui.{strsep, spaced, read_int, read_color}

-- A picture on a texture, and a text on the texture that was chosen last.
pub record Placed : Type 0 where
  pub texture : ℕ
  pub file : Bytes
  pub rect : Rect

pub record Written : Type 0 where
  pub font : ℕ
  pub text : Option Bytes
  pub color : Rgba
  pub x : ℤ
  pub y : ℤ

unfoldable pub js_load_image_file : Bytes → Bytes → ℤ → ℤ → ℤ → ℤ → ℤ → Bytes
js_load_image_file tex_name file_name x1 y1 x2 y2 alpha = spaced (
    codes "gui::loadImageFile"
    ∷ tex_name
    ∷ file_name
    ∷ print_int x1
    ∷ print_int y1
    ∷ print_int x2
    ∷ print_int y2
    ∷ print_int alpha
    ∷ [])

unfoldable pub js_draw_text : Bytes → ℤ → ℤ → Bytes → ℤ → Bytes → Bytes
js_draw_text tex_name x1 y1 font color text = spaced (
    codes "gui::drawText"
    ∷ tex_name
    ∷ print_int x1
    ∷ print_int y1
    ∷ font
    ∷ print_hex color
    ∷ text
    ∷ [])

-- A width or a height of 0 stands for that of the picture.
abbrev pub or_natural : ℤ → ℤ → ℤ
or_natural n natural = if is_zero n then natural else n

module _ {H : HashTable} (size : Bytes → Option (ℤ × ℤ)) where
  -- A texture is counted before it is known whether there is one.
  unfoldable pub place_image :
      TexInfo → Bytes → Rect → Screen H → Outcome (Bool × (Screen H × Option Placed))
  place_image t file r s = elim (size file) [
    | none ↦ done (false, (counted (pos 1) s, none))
    | some (w, h) ↦ done (
      true,
      (
        counted (negsuc 0) (counted (pos 1) s),
        some (record {
          texture = t.texture;
          file = file;
          rect = record { x = r.x; y = r.y; w = or_natural r.w w; h = or_natural r.h h };
        }),
      ),
    )
  ]

  unfoldable pub place_named :
      Option Bytes → Option Bytes → Rect → Screen H → Outcome (Bool × (Screen H × Option Placed))
  place_named none file_name r s = fault null_pointer
  place_named (some tex_name) file_name r s = elim (H.get s.base_textures tex_name) [
    | none ↦ done (false, (s, none))
    | some t ↦ elim file_name [
      | none ↦ done (false, (s, none))
      | some file ↦ place_image t file r s
    ]
  ]

  unfoldable pub c_load_image_file : Bytes → Screen H → Outcome (Bool × (Screen H × Option Placed))
  c_load_image_file str s =
      let (tex_name, r1) = strsep (some str) in
      let (file_name, r2) = strsep r1 in
      let (x_str, r3) = strsep r2 in
      let (y_str, r4) = strsep r3 in
      let (w_str, r5) = strsep r4 in
      let (h_str, r6) = strsep r5 in
      let (a_str, r7) = strsep r6 in
      read_int x_str >>= (λ x. read_int y_str >>= (λ y. read_int w_str >>= (λ w.
        read_int h_str >>= (λ h.
          read_int a_str
          >>= (λ a. place_named tex_name file_name (record { x = x; y = y; w = w; h = h }) s)))))

module _ (H : HashTable) (renders : Option Bytes → Bool) where
  -- The result, which is -1 where nothing was written.
  unfoldable pub write_text :
      H.Table ℕ → Option Bytes → Option Bytes → Option Bytes → ℤ → ℤ → Outcome (ℤ × Option Written)
  write_text fonts none col_str text x y = fault null_pointer
  write_text fonts (some font_str) col_str text x y = elim (H.get fonts font_str) [
    | none ↦ done (negsuc 0, none)
    | some font ↦ read_color col_str >>= (λ col.
        if renders text
        then done (pos 0, some (record { font = font; text = text; color = col; x = x; y = y }))
        else done (negsuc 0, none))
  ]

  unfoldable pub c_draw_text : H.Table ℕ → Bytes → Outcome (ℤ × Option Written)
  c_draw_text fonts str =
      let (tex_name, r1) = strsep (some str) in
      let (x1_str, r2) = strsep r1 in
      let (y1_str, r3) = strsep r2 in
      let (font_str, r4) = strsep r3 in
      let (col_str, text) = strsep r4 in
      read_int x1_str
      >>= (λ x. read_int y1_str >>= (λ y. write_text fonts font_str col_str text x y))
