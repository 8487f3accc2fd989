-- ===== src/Gui/Commands.antt =====
-- plugins/sdlgui.c: `c_drawLine`, `c_drawBox` and `c_drawFilledBox`, on the side of the main thread. The
-- result is the number that is returned and what is drawn.
use wallyd.Common.{
  ℕ, Bool, true, false, ◌||◌, Option, none, some, List, [], if◌then◌else◌, Outcome, done, ◌>>=◌,
}
use wallyd.Common.Str.{Bytes}
use wallyd.Gui.{Draw, strsep, read_int, read_color, draw_line, draw_box, draw_filled_box}

unfoldable pub c_draw_line : Bytes → Outcome (ℕ × List Draw)
c_draw_line str =
    let (tex_name, r1) = strsep (some str) in
    let (x1_str, r2) = strsep r1 in
    let (y1_str, r3) = strsep r2 in
    let (x2_str, r4) = strsep r3 in
    let (y2_str, r5) = strsep r4 in
    let (c_str, r6) = strsep r5 in
    read_int x1_str >>= (λ x1. read_int x2_str >>= (λ x2. read_int y1_str >>= (λ y1.
      read_int y2_str
      >>= (λ y2. read_color c_str >>= (λ col. done (0, draw_line x1 y1 x2 y2 col))))))

unfoldable pub c_draw_box : Bytes → Outcome (ℕ × List Draw)
c_draw_box str =
    let (tex_name, r1) = strsep (some str) in
    let (x1_str, r2) = strsep r1 in
    let (y1_str, r3) = strsep r2 in
    let (w_str, r4) = strsep r3 in
    let (h_str, r5) = strsep r4 in
    let (col_str, r6) = strsep r5 in
    read_int x1_str >>= (λ x1. read_int y1_str >>= (λ y1. read_int w_str >>= (λ w.
      read_int h_str >>= (λ h. read_color col_str >>= (λ col. done (0, draw_box x1 y1 w h col))))))

abbrev pub is_null {ℓ} : {A : Type ℓ} → Option A → Bool
is_null none = true
is_null (some _) = false

-- The numbers of a filled box, where all the words that are tested are there.
unfoldable pub read_filled_box :
    (x y w h stroke col stroke_col alpha : Option Bytes) → Outcome (ℕ × List Draw)
read_filled_box x1_str y1_str w_str h_str stroke_str col_str str_col_str alpha_str =
    read_int x1_str >>= (λ x1. read_int y1_str >>= (λ y1. read_int w_str >>= (λ w.
      read_int h_str >>= (λ h. read_int stroke_str >>= (λ s. read_int alpha_str >>= (λ a.
        read_color col_str >>= (λ col. read_color str_col_str >>= (λ scol.
          draw_filled_box (record { x = x1; y = y1; w = w; h = h }) s col scol a
          >>= (λ drawn. done (0, drawn))))))))))

unfoldable pub c_draw_filled_box : Bytes → Outcome (ℕ × List Draw)
c_draw_filled_box str =
    let (tex_name, r1) = strsep (some str) in
    let (x1_str, r2) = strsep r1 in
    let (y1_str, r3) = strsep r2 in
    let (w_str, r4) = strsep r3 in
    let (h_str, r5) = strsep r4 in
    let (stroke_str, r6) = strsep r5 in
    let (col_str, r7) = strsep r6 in
    let (str_col_str, r8) = strsep r7 in
    let (alpha_str, r9) = strsep r8 in
    if is_null tex_name
      || is_null x1_str
      || is_null y1_str
      || is_null w_str
      || is_null h_str
      || is_null stroke_str
      || is_null alpha_str
    then done (1, [])
    else read_filled_box x1_str y1_str w_str h_str stroke_str col_str str_col_str alpha_str
