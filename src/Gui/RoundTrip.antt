-- ===== src/Gui/RoundTrip.antt =====
-- plugins/sdlgui.c: what a script asks to draw is what is drawn.
use wallyd.Common.{◌≡◌, refl, some, [], ◌∷◌, arith, done, ◌>>=◌}
use wallyd.Common.Str.{before, after, Bytes, codes}
use wallyd.Common.Int.{ℤ, IsInt}
use wallyd.Common.Print.{print_int, print_hex}
use wallyd.Texture.{hex_to_color}
use wallyd.Gui.{
  space, spaced, js_draw_line, js_draw_box, js_draw_filled_box, read_int, read_color, draw_line,
  draw_box, draw_filled_box,
}
use wallyd.Gui.Words.{
  IsWord, strsep-spaced, strsep_last, print_int-IsWord, print_hex-IsWord, read_int-print_int,
  read_color-print_hex,
}
use wallyd.Gui.Commands.{c_draw_line, c_draw_box, read_filled_box, c_draw_filled_box}

-- What `scall` makes of a text: the name of the function, and its parameters.
abbrev pub IsCallOf : Bytes → Bytes → Bytes → Type 0
IsCallOf text name params = (before space text ≡ name) × (after space text ≡ some params)

-- The parameters of a call.
box_fields :
    (tex x y w h c : Bytes)
    → IsWord tex
    → IsWord x
    → IsWord y
    → IsWord w
    → IsWord h
    → IsWord c
    → c_draw_box (spaced (tex ∷ x ∷ y ∷ w ∷ h ∷ c ∷ [])) ≡ (
        read_int (some x) >>= (λ x1. read_int (some y) >>= (λ y1. read_int (some w) >>= (λ w1.
          read_int (some h)
          >>= (λ h1. read_color (some c) >>= (λ col. done (0, draw_box x1 y1 w1 h1 col)))))))
unfolding c_draw_box
box_fields tex x y w h c is_tex is_x is_y is_w is_h is_c = ground (
  arith,
  strsep-spaced tex x (y ∷ w ∷ h ∷ c ∷ []) is_tex,
  strsep-spaced x y (w ∷ h ∷ c ∷ []) is_x,
  strsep-spaced y w (h ∷ c ∷ []) is_y,
  strsep-spaced w h (c ∷ []) is_w,
  strsep-spaced h c [] is_h,
  strsep_last c is_c,
)

line_fields :
    (tex a b c d col : Bytes)
    → IsWord tex
    → IsWord a
    → IsWord b
    → IsWord c
    → IsWord d
    → IsWord col
    → c_draw_line (spaced (tex ∷ a ∷ b ∷ c ∷ d ∷ col ∷ [])) ≡ (
        read_int (some a) >>= (λ x1. read_int (some c) >>= (λ x2. read_int (some b) >>= (λ y1.
          read_int (some d)
          >>= (λ y2. read_color (some col) >>= (λ k. done (0, draw_line x1 y1 x2 y2 k)))))))
unfolding c_draw_line
line_fields tex a b c d col is_tex is_a is_b is_c is_d is_col = ground (
  arith,
  strsep-spaced tex a (b ∷ c ∷ d ∷ col ∷ []) is_tex,
  strsep-spaced a b (c ∷ d ∷ col ∷ []) is_a,
  strsep-spaced b c (d ∷ col ∷ []) is_b,
  strsep-spaced c d (col ∷ []) is_c,
  strsep-spaced d col [] is_d,
  strsep_last col is_col,
)

filled_box_fields :
    (tex x y w h s c k a : Bytes)
    → IsWord tex
    → IsWord x
    → IsWord y
    → IsWord w
    → IsWord h
    → IsWord s
    → IsWord c
    → IsWord k
    → IsWord a
    → c_draw_filled_box (spaced (tex ∷ x ∷ y ∷ w ∷ h ∷ s ∷ c ∷ k ∷ a ∷ []))
      ≡ read_filled_box (some x) (some y) (some w) (some h) (some s) (some c) (some k) (some a)
unfolding c_draw_filled_box
filled_box_fields tex x y w h s c k a is_tex is_x is_y is_w is_h is_s is_c is_k is_a = ground (
  arith,
  strsep-spaced tex x (y ∷ w ∷ h ∷ s ∷ c ∷ k ∷ a ∷ []) is_tex,
  strsep-spaced x y (w ∷ h ∷ s ∷ c ∷ k ∷ a ∷ []) is_x,
  strsep-spaced y w (h ∷ s ∷ c ∷ k ∷ a ∷ []) is_y,
  strsep-spaced w h (s ∷ c ∷ k ∷ a ∷ []) is_w,
  strsep-spaced h s (c ∷ k ∷ a ∷ []) is_h,
  strsep-spaced s c (k ∷ a ∷ []) is_s,
  strsep-spaced c k (a ∷ []) is_c,
  strsep-spaced k a [] is_k,
  strsep_last a is_a,
)

-- A line and a box that a script asks for, on a texture whose name has no space and no tab: the text
-- names the function, and the function reads back the numbers and the colour from its parameters,
-- returns 0 and draws just that.
pub js_draw-c_draw :
    (tex : Bytes) (x y w h color : ℤ)
    → IsWord tex
    → IsInt x
    → IsInt y
    → IsInt w
    → IsInt h
    → IsInt color
    → (p : Bytes) × IsCallOf (js_draw_box tex x y w h color) (codes "gui::drawBox") p
      × IsCallOf (js_draw_line tex x y w h color) (codes "gui::drawLine") p
      × (c_draw_box p ≡ done (0, draw_box x y w h (hex_to_color color)))
      × (c_draw_line p ≡ done (0, draw_line x y w h (hex_to_color color)))
unfolding js_draw_box js_draw_line
js_draw-c_draw tex x y w h color is_tex is_x is_y is_w is_h is_c =
    let rx = read_int-print_int x is_x in
    let ry = read_int-print_int y is_y in
    let rw' = read_int-print_int w is_w in
    let rh = read_int-print_int h is_h in
    let rc = read_color-print_hex color is_c in
    (
      _,
      (refl, refl),
      (refl, refl),
      ground (
        arith,
        box_fields tex (print_int x) (print_int y) (print_int w) (print_int h) (print_hex color)
            is_tex (print_int-IsWord x) (print_int-IsWord y) (print_int-IsWord w)
            (print_int-IsWord h) (print_hex-IsWord color),
        rx,
        ry,
        rw',
        rh,
        rc,
      ),
      ground (
        arith,
        line_fields tex (print_int x) (print_int y) (print_int w) (print_int h) (print_hex color)
            is_tex (print_int-IsWord x) (print_int-IsWord y) (print_int-IsWord w)
            (print_int-IsWord h) (print_hex-IsWord color),
        rx,
        ry,
        rw',
        rh,
        rc,
      ),
    )

-- The same for a filled box: what is drawn is its border and its inside, where no number is too large,
-- and the function returns 0.
pub js_draw_filled_box-c_draw_filled_box :
    (tex : Bytes) (x y w h stroke color stroke_col alpha : ℤ)
    → IsWord tex
    → IsInt x
    → IsInt y
    → IsInt w
    → IsInt h
    → IsInt stroke
    → IsInt color
    → IsInt stroke_col
    → IsInt alpha
    → (p : Bytes) × IsCallOf
        (js_draw_filled_box tex x y w h stroke color stroke_col alpha)
        (codes "gui::drawFilledBox")
        p
      × (c_draw_filled_box p ≡ (
          draw_filled_box
            (record { x = x; y = y; w = w; h = h })
            stroke
            (hex_to_color color)
            (hex_to_color stroke_col)
            alpha
          >>= (λ drawn. done (0, drawn))))
unfolding js_draw_filled_box read_filled_box
js_draw_filled_box-c_draw_filled_box tex x y w h stroke color stroke_col alpha is_tex is_x is_y is_w
      is_h is_s is_c is_k is_a =
    (
      _,
      (refl, refl),
      ground (
        arith,
        filled_box_fields tex (print_int x) (print_int y) (print_int w) (print_int h)
            (print_int stroke) (print_hex color) (print_hex stroke_col) (print_int alpha) is_tex
            (print_int-IsWord x) (print_int-IsWord y) (print_int-IsWord w) (print_int-IsWord h)
            (print_int-IsWord stroke) (print_hex-IsWord color) (print_hex-IsWord stroke_col)
            (print_int-IsWord alpha),
        read_int-print_int x is_x,
        read_int-print_int y is_y,
        read_int-print_int w is_w,
        read_int-print_int h is_h,
        read_int-print_int stroke is_s,
        read_int-print_int alpha is_a,
        read_color-print_hex color is_c,
        read_color-print_hex stroke_col is_k,
      ),
    )
