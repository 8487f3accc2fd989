-- ===== src/Gui/Boxes.antt =====
-- plugins/sdlgui.c: `drawFilledBox` covers its rectangle.
use wallyd.Common.{
  ℕ, ◌+◌, ◌-◌, ◌%◌, ◌≤◌, ◌≡◌, ap, ◌∙◌, Bool, true, false, ◌&&◌, ◌||◌, List, [], ◌∷◌, ◌++◌, arith,
  done,
}
use wallyd.Common.Int.{ℤ, pos, negsuc, ◌+ℤ◌, int_max, IsInt, is_int, ◌-ℤ◌, IsInt-is_int}
use wallyd.Common.Print.{low_word}
use wallyd.Texture.{Rgba, Rect}
use wallyd.Gui.{Draw, line, filled, draw_box, draw_filled_box}
use wallyd.Gui.Spans.{
  in_span, last_start, inner_width, first_part, middle_part, last_part, span_cut,
}

abbrev pub in_rect : Rect → ℤ → ℤ → Bool
in_rect r px py = in_span r.x r.w px && in_span r.y r.h py

abbrev pub any_in : List Draw → ℤ → ℤ → Bool
any_in [] px py = false
any_in (line a b c d col ∷ ds) px py = any_in ds px py
any_in (filled r col ∷ ds) px py = in_rect r px py || any_in ds px py

-- A number between two that are an `int`.
between : (x : ℤ) (k w : ℕ) → IsInt x → IsInt (x +ℤ pos w) → k ≤ w → is_int (x +ℤ pos k) ≡ true
between (pos x) k w h h' few = ground arith
between (negsuc x) k w h h' few = ground arith

covers_all :
    (x x1 x2 x3 y y1 y2 y3 : Bool)
    → x ≡ (x1 || x2 || x3)
    → y ≡ (y1 || y2 || y3)
    → (x && y1 || (x1 && y || (x3 && y || (x && y3 || (x2 && y2 || false))))) ≡ (x && y)
covers_all x x1 x2 x3 y y1 y2 y3 hx hy = ground arith

border_apart :
    (x x1 x2 x3 y y1 y2 y3 : Bool)
    → ((x1 || x3) && x2) ≡ false
    → ((y1 || y3) && y2) ≡ false
    → ((x && y1 || (x1 && y || (x3 && y || (x && y3 || false)))) && (x2 && y2)) ≡ false
border_apart x x1 x2 x3 y y1 y2 y3 h k = ground arith

abbrev pub box : ℤ → ℤ → ℕ → ℕ → Rect
box x y w h = record { x = x; y = y; w = pos w; h = pos h }

border : Rect → ℤ → Rgba → List Draw
border r s c =
    draw_box r.x r.y r.w s c
    ++ draw_box r.x r.y s r.h c
    ++ draw_box (r.x +ℤ r.w -ℤ s) r.y s r.h c
    ++ draw_box r.x (r.y +ℤ r.h -ℤ s) r.w s c

inside : Rect → ℤ → Rect
inside r s = record { x = r.x +ℤ s; y = r.y +ℤ s; w = r.w -ℤ (s +ℤ s); h = r.h -ℤ (s +ℤ s) }

small_int : (n : ℕ) → n ≤ int_max → is_int (pos n) ≡ true
small_int n h = ground arith

small_sum : (s : ℕ) → s + s ≤ int_max → is_int (pos s +ℤ pos s) ≡ true
small_sum s h = ground arith

-- `drawFilledBox` of a rectangle whose corners are numbers of type `int` and whose border fits in it
-- twice: it draws a border and then an inside; together they cover just the pixels of the rectangle,
-- and no pixel of the inside is one of the border.
pub draw_filled_box_covers :
    (x y alpha : ℤ) (w h s : ℕ) (col stroke_col : Rgba)
    → IsInt x
    → IsInt y
    → IsInt (x +ℤ pos w)
    → IsInt (y +ℤ pos h)
    → w ≤ int_max
    → h ≤ int_max
    → s + s ≤ w
    → s + s ≤ h
    → let r = box x y w h in
      (ds : List Draw) × (inner : Rect) × (shade : Rgba) × (draw_filled_box r
          (pos s)
          col
          stroke_col
          alpha
        ≡ done (ds ++ filled inner shade ∷ []))
      × ((px py : ℤ) → any_in (ds ++ filled inner shade ∷ []) px py ≡ in_rect r px py)
      × ((px py : ℤ) → (any_in ds px py && in_rect inner px py) ≡ false)
unfolding draw_filled_box border inside
draw_filled_box_covers x y alpha w h s col stroke_col is_x is_y is_r is_b small_w small_h fits_w
      fits_h =
    let r = box x y w h in
    (
      border r (pos s) stroke_col,
      inside r (pos s),
      record col { a = low_word alpha % 256 },
      ground (
        arith,
        IsInt-is_int (x +ℤ pos w) is_r,
        IsInt-is_int (y +ℤ pos h) is_b,
        ap is_int (last_start x s w (omega arith)) ∙ between x (w - s) w is_x is_r (omega arith),
        ap is_int (last_start y s h (omega arith)) ∙ between y (h - s) h is_y is_b (omega arith),
        between x s w is_x is_r (omega arith),
        between y s h is_y is_b (omega arith),
        small_sum s (omega arith),
        ap is_int (inner_width s w fits_w) ∙ small_int (w - (s + s)) (omega arith),
        ap is_int (inner_width s h fits_h) ∙ small_int (h - (s + s)) (omega arith),
      ),
      λ px py.
          covers_all (in_span x (pos w) px) (first_part x s px) (middle_part x s w px)
            (last_part x s w px) (in_span y (pos h) py) (first_part y s py) (middle_part y s h py)
            (last_part y s h py) (span_cut x px s w fits_w).0 (span_cut y py s h fits_h).0,
      λ px py.
          border_apart (in_span x (pos w) px) (first_part x s px) (middle_part x s w px)
            (last_part x s w px) (in_span y (pos h) py) (first_part y s py) (middle_part y s h py)
            (last_part y s h py) (span_cut x px s w fits_w).1 (span_cut y py s h fits_h).1,
    )
