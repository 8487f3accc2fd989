-- ===== src/Gui.antt =====
-- plugins/sdlgui.c: the commands `drawLine`, `drawBox` and `drawFilledBox`. A script's call of one
-- prints its parameters into a text, which `scall` takes apart again and gives to the function on the
-- side of the main thread; that reads the parameters from its text and draws. What is drawn is a list.
pub mod Commands
pub mod Words
pub mod Spans
pub mod RoundTrip
pub mod Pictures
pub mod Placed
pub mod Boxes
pub mod Called
use wallyd.Common.{
  ℕ, ◌%◌, Bool, ◌||◌, Option, none, some, List, [], ◌∷◌, ◌++◌, ◌==◌, if◌then◌else◌, null_pointer,
  Outcome, done, fault, ◌>>=◌,
}
use wallyd.Common.Str.{Bytes, codes}
use wallyd.Common.Int.{ℤ, ◌+ℤ◌, checked, ◌-ℤ◌, to_int}
use wallyd.Common.Strtol.{strtol, atoi}
use wallyd.Common.Print.{print_int, print_hex, low_word}
use wallyd.Texture.{Rgba, Rect, hex_to_color}

-- SDL_RenderDrawLine and SDL_RenderFillRect with the colour that was set before.
pub data Draw : Type 0 where
  line : ℤ → ℤ → ℤ → ℤ → Rgba → Draw
  filled : Rect → Rgba → Draw

abbrev pub space : ℕ
space = b' '

abbrev pub is_separator : ℕ → Bool
is_separator c = c == b' ' || c == 9

-- strsep(&str, " \t") on a text: the word, and what follows the separator.
abbrev pub word : Bytes → Bytes
word [] = []
word (c ∷ s) = if is_separator c then [] else c ∷ word s

abbrev pub behind : Bytes → Option Bytes
behind [] = none
behind (c ∷ s) = if is_separator c then some s else behind s

unfoldable pub strsep : Option Bytes → Option Bytes × Option Bytes
strsep none = (none, none)
strsep (some s) = (some (word s), behind s)

-- The parameters of a format are put between single spaces.
abbrev pub spaced : List Bytes → Bytes
spaced [] = []
spaced (w ∷ []) = w
spaced (w ∷ v ∷ ws) = w ++ space ∷ spaced (v ∷ ws)

-- The texts that the functions for scripts hand to `scall`.
unfoldable pub js_draw_line : Bytes → ℤ → ℤ → ℤ → ℤ → ℤ → Bytes
js_draw_line tex_name x1 y1 x2 y2 color = spaced (
    codes "gui::drawLine"
    ∷ tex_name
    ∷ print_int x1
    ∷ print_int y1
    ∷ print_int x2
    ∷ print_int y2
    ∷ print_hex color
    ∷ [])

unfoldable pub js_draw_box : Bytes → ℤ → ℤ → ℤ → ℤ → ℤ → Bytes
js_draw_box tex_name x y w h color = spaced (
    codes "gui::drawBox"
    ∷ tex_name
    ∷ print_int x
    ∷ print_int y
    ∷ print_int w
    ∷ print_int h
    ∷ print_hex color
    ∷ [])

unfoldable pub js_draw_filled_box : Bytes → ℤ → ℤ → ℤ → ℤ → ℤ → ℤ → ℤ → ℤ → Bytes
js_draw_filled_box tex_name x y w h stroke color stroke_col alpha = spaced (
    codes "gui::drawFilledBox"
    ∷ tex_name
    ∷ print_int x
    ∷ print_int y
    ∷ print_int w
    ∷ print_int h
    ∷ print_int stroke
    ∷ print_hex color
    ∷ print_hex stroke_col
    ∷ print_int alpha
    ∷ [])

abbrev pub read_int : Option Bytes → Outcome ℤ
read_int none = fault null_pointer
read_int (some s) = done (atoi s)

-- hexToColor(strtol(s, NULL, 16), ..): the value is converted to an `int`.
abbrev pub read_color : Option Bytes → Outcome Rgba
read_color none = fault null_pointer
read_color (some s) = done (hex_to_color (to_int (strtol s 16).0))

abbrev pub opaque : Rgba → Rgba
opaque c = record c { a = 255 }

abbrev pub draw_line : ℤ → ℤ → ℤ → ℤ → Rgba → List Draw
draw_line x1 y1 x2 y2 col = line x1 y1 x2 y2 (opaque col) ∷ []

abbrev pub draw_box : ℤ → ℤ → ℤ → ℤ → Rgba → List Draw
draw_box x y w h c = filled (record { x = x; y = y; w = w; h = h }) (opaque c) ∷ []

-- The border of the width `stroke`, whose corners are drawn twice, and then what it encloses.
unfoldable pub draw_filled_box : Rect → ℤ → Rgba → Rgba → ℤ → Outcome (List Draw)
draw_filled_box rect stroke col stroke_col alpha = checked (rect.x +ℤ rect.w) >>= (λ right.
    checked (right -ℤ stroke) >>= (λ from_x. checked (rect.y +ℤ rect.h) >>= (λ bottom.
      checked (bottom -ℤ stroke) >>= (λ from_y. checked (rect.x +ℤ stroke) >>= (λ x.
        checked (rect.y +ℤ stroke) >>= (λ y. checked (stroke +ℤ stroke) >>= (λ twice.
          checked (rect.w -ℤ twice) >>= (λ w. checked (rect.h -ℤ twice) >>= (λ h. done (
            draw_box rect.x rect.y rect.w stroke stroke_col
            ++ draw_box rect.x rect.y stroke rect.h stroke_col
            ++ draw_box from_x rect.y stroke rect.h stroke_col
            ++ draw_box rect.x from_y rect.w stroke stroke_col
            ++ filled (record { x = x; y = y; w = w; h = h })
                (record col { a = low_word alpha % 256 })
              ∷ []))))))))))
