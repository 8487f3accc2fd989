-- ===== src/Gui/Placed.antt =====
-- plugins/sdlgui.c: the picture and the text that a script asks for are those that are put there.
use wallyd.Common.{ℕ, ◌≡◌, refl, Bool, true, false, Option, none, some, [], ◌∷◌, arith, done, ◌>>=◌}
use wallyd.Common.Str.{Bytes, codes}
use wallyd.Common.Int.{ℤ, pos, IsInt}
use wallyd.Common.Print.{print_int, print_hex}
use wallyd.External.{HashTable}
use wallyd.Texture.{TexInfo, Screen, hex_to_color}
use wallyd.Image.Pictures.{counted}
use wallyd.Image.Pictures.Count.{counted_back}
use wallyd.Gui.{spaced, read_int}
use wallyd.Gui.Words.{
  IsWord, strsep-spaced, strsep_last, print_int-IsWord, print_hex-IsWord, read_int-print_int,
  read_color-print_hex,
}
use wallyd.Gui.RoundTrip.{IsCallOf}
use wallyd.Gui.Pictures.{
  js_load_image_file, js_draw_text, or_natural, place_image, place_named, c_load_image_file,
  write_text, c_draw_text,
}

image_fields :
    {H : HashTable} (size : Bytes → Option (ℤ × ℤ)) (tex file x y w h a : Bytes) (s : Screen H)
    → IsWord tex
    → IsWord file
    → IsWord x
    → IsWord y
    → IsWord w
    → IsWord h
    → IsWord a
    → c_load_image_file size (spaced (tex ∷ file ∷ x ∷ y ∷ w ∷ h ∷ a ∷ [])) s ≡ (
        read_int (some x) >>= (λ x1. read_int (some y) >>= (λ y1. read_int (some w) >>= (λ w1.
          read_int (some h) >>= (λ h1. read_int (some a) >>= (λ a1.
            place_named size
              (some tex)
              (some file)
              (record { x = x1; y = y1; w = w1; h = h1 })
              s))))))
unfolding c_load_image_file
image_fields size tex file x y w h a s is_tex is_file is_x is_y is_w is_h is_a = ground (
  arith,
  strsep-spaced tex file (x ∷ y ∷ w ∷ h ∷ a ∷ []) is_tex,
  strsep-spaced file x (y ∷ w ∷ h ∷ a ∷ []) is_file,
  strsep-spaced x y (w ∷ h ∷ a ∷ []) is_x,
  strsep-spaced y w (h ∷ a ∷ []) is_y,
  strsep-spaced w h (a ∷ []) is_w,
  strsep-spaced h a [] is_h,
  strsep_last a is_a,
)

text_fields :
    (H : HashTable) (renders : Option Bytes → Bool) (fonts : H.Table ℕ)
    (tex x y font c text : Bytes)
    → IsWord tex
    → IsWord x
    → IsWord y
    → IsWord font
    → IsWord c
    → c_draw_text H renders fonts (spaced (tex ∷ x ∷ y ∷ font ∷ c ∷ text ∷ [])) ≡ (
        read_int (some x) >>= (λ x1.
          read_int (some y)
          >>= (λ y1. write_text H renders fonts (some font) (some c) (some text) x1 y1)))
unfolding c_draw_text
text_fields H renders fonts tex x y font c text is_tex is_x is_y is_font is_c = ground (
  arith,
  strsep-spaced tex x (y ∷ font ∷ c ∷ text ∷ []) is_tex,
  strsep-spaced x y (font ∷ c ∷ text ∷ []) is_x,
  strsep-spaced y font (c ∷ text ∷ []) is_y,
  strsep-spaced font c (text ∷ []) is_font,
  strsep-spaced c text [] is_c,
)

-- A picture that a script puts on a texture which is there, from a file that SDL reads, where neither
-- name has a space or a tab: it is put there at the numbers of the call, with the size of the picture
-- where one of those is 0, and nothing else changes. A file that SDL does not read gives false, and a
-- texture is counted that is not there.
pub js_load_image_file-c_load_image_file :
    {H : HashTable} (size : Bytes → Option (ℤ × ℤ)) (tex file : Bytes) (x y w h alpha : ℤ)
    (t : TexInfo) (s : Screen H)
    → IsWord tex
    → IsWord file
    → IsInt x
    → IsInt y
    → IsInt w
    → IsInt h
    → IsInt alpha
    → H.get s.base_textures tex ≡ some t
    → (p : Bytes) × IsCallOf
        (js_load_image_file tex file x y w h alpha)
        (codes "gui::loadImageFile")
        p
      × (c_load_image_file size p s ≡ elim (size file) [
        | none ↦ done (false, (counted (pos 1) s, none))
        | some (sw, sh) ↦ done (
          true,
          (
            s,
            some (record {
              texture = t.texture;
              file = file;
              rect = record { x = x; y = y; w = or_natural w sw; h = or_natural h sh };
            }),
          ),
        )
      ])
unfolding js_load_image_file place_named place_image
js_load_image_file-c_load_image_file {H} size tex file x y w h alpha t s is_tex is_file is_x is_y
      is_w is_h is_a is_t =
    (
      _,
      (refl, refl),
      ground (
        arith,
        image_fields size tex file (print_int x) (print_int y) (print_int w) (print_int h)
            (print_int alpha) s is_tex is_file (print_int-IsWord x) (print_int-IsWord y)
            (print_int-IsWord w) (print_int-IsWord h) (print_int-IsWord alpha),
        read_int-print_int x is_x,
        read_int-print_int y is_y,
        read_int-print_int w is_w,
        read_int-print_int h is_h,
        read_int-print_int alpha is_a,
        is_t,
        counted_back s,
      ),
    )

-- A text that a script writes with a font which is there, where neither the name of the texture nor
-- that of the font has a space or a tab, and SDL makes a surface of the text: it is written whole, with
-- its spaces, in the font and the colour and at the place of the call.
pub js_draw_text-c_draw_text :
    (H : HashTable) (renders : Option Bytes → Bool) (fonts : H.Table ℕ) (tex font text : Bytes)
    (x y color : ℤ) (f : ℕ)
    → IsWord tex
    → IsWord font
    → IsInt x
    → IsInt y
    → IsInt color
    → H.get fonts font ≡ some f
    → renders (some text) ≡ true
    → (p : Bytes) × IsCallOf (js_draw_text tex x y font color text) (codes "gui::drawText") p
      × (c_draw_text H renders fonts p
          ≡ done (
            pos 0,
            some (record { font = f; text = some text; color = hex_to_color color; x = x; y = y }),
          ))
unfolding js_draw_text write_text
js_draw_text-c_draw_text H renders fonts tex font text x y color f is_tex is_font is_x is_y is_c
      is_f can =
    (
      _,
      (refl, refl),
      ground (
        arith,
        text_fields H renders fonts tex (print_int x) (print_int y) font (print_hex color) text
            is_tex (print_int-IsWord x) (print_int-IsWord y) is_font (print_hex-IsWord color),
        read_int-print_int x is_x,
        read_int-print_int y is_y,
        read_color-print_hex color is_c,
        is_f,
        can,
      ),
    )
