-- ===== src/Tests/Drawing.antt =====
-- The plugins that are loaded, and what scripts draw, at small inputs.
use wallyd.Common.{
  ℕ, ◌≡◌, refl, true, false, ◌&&◌, Option, none, some, List, [], ◌∷◌, ◌++◌, arith, length, done,
  ◌>>=◌,
}
use wallyd.Common.Str.{after, Bytes, codes}
use wallyd.Common.Int.{ℤ, pos, negsuc}
use wallyd.Tests.Tables.{assoc_table, ranked_queue}
use wallyd.Tests.States.{ready, empty_registry, do_nothing, in_time}
use wallyd.Wtx
use wallyd.Call.{wtx, PluginHandler, scall, call_event, call_type_wtx}
use wallyd.Ui.{ui_round, to_ptr}
use wallyd.Gui.Called.{js_draw_box-ui_round}
use wallyd.Texture.{Rgba, Rect, TexInfo, Screen, names, hex_to_color}
use wallyd.Gui.Pictures.{js_load_image_file, c_load_image_file}
use wallyd.Gui.Placed.{js_load_image_file-c_load_image_file}
use wallyd.Gui.{Draw, filled, js_draw_box, js_draw_filled_box, draw_box, draw_filled_box}
use wallyd.Gui.Commands.{c_draw_box, c_draw_filled_box}
use wallyd.Gui.RoundTrip.{IsCallOf, js_draw_filled_box-c_draw_filled_box}
use wallyd.Gui.Boxes.{in_rect, any_in, box, draw_filled_box_covers}
use wallyd.Loader.{Loader, plugin_loader}
use wallyd.Loader.Laws.{last_handle, plugin_loader-started}

abbrev red : ℤ
red = pos 16711680

js_draw_filled_box-c_draw_filled_box_example :
    (p : Bytes) × IsCallOf
      (js_draw_filled_box (codes "t") (pos 1) (pos 2) (pos 9) (pos 9) (pos 1) red (pos 0) (pos 200))
      (codes "gui::drawFilledBox")
      p
    × (c_draw_filled_box p ≡ (
        draw_filled_box
          (record { x = pos 1; y = pos 2; w = pos 9; h = pos 9 })
          (pos 1)
          (hex_to_color red)
          (hex_to_color (pos 0))
          (pos 200)
        >>= (λ drawn. done (0, drawn))))
js_draw_filled_box-c_draw_filled_box_example =
    js_draw_filled_box-c_draw_filled_box (codes "t") (pos 1) (pos 2) (pos 9) (pos 9) (pos 1) red
      (pos 0) (pos 200) (refl, tt) (omega arith, omega arith) (omega arith, omega arith)
      (omega arith, omega arith) (omega arith, omega arith) (omega arith, omega arith)
      (omega arith, omega arith) (omega arith, omega arith) (omega arith, omega arith)

abbrev white : Rgba
white = record { r = 255; g = 255; b = 255; a = 255 }

draw_filled_box_covers_example :
    (ds : List Draw) × (inner : Rect) × (shade : Rgba) × (draw_filled_box
        (box (negsuc 4) (pos 0) 9 7)
        (pos 2)
        white
        white
        (pos 255)
      ≡ done (ds ++ filled inner shade ∷ []))
    × ((px py : ℤ)
        → any_in (ds ++ filled inner shade ∷ []) px py ≡ in_rect (box (negsuc 4) (pos 0) 9 7) px py)
    × ((px py : ℤ) → (any_in ds px py && in_rect inner px py) ≡ false)
draw_filled_box_covers_example =
    draw_filled_box_covers (negsuc 4) (pos 0) (pos 255) 9 7 2 white white (omega arith, omega arith)
      (omega arith, omega arith) (omega arith, omega arith) (omega arith, omega arith) (omega arith)
      (omega arith) (omega arith) (omega arith)

-- A file opens where its path has an `x`, under the number of its length.
abbrev opens : Bytes → Option ℕ
opens path = elim (after b'x' path) [ none ↦ none | some rest ↦ some (length path) ]

abbrev in_order : ℕ → List ℕ → List ℕ
in_order h s = s ++ h ∷ []

abbrev unloaded : Loader assoc_table (List ℕ)
unloaded = record { plugins = []; plugin_count = 0; plugin_loader_done = false; state = [] }

abbrev files : List Bytes
files = codes "." ∷ codes "ax.so" ∷ codes "b.so" ∷ codes "xyz.so" ∷ codes "x.txt" ∷ []

plugin_loader-started_example :
    (t : assoc_table.Table ℕ) × (plugin_loader opens
        (λ h. true)
        in_order
        (codes "p")
        (some files)
        unloaded
      ≡ (
        pos 0,
        record { plugins = t; plugin_count = 2; plugin_loader_done = true; state = 7 ∷ 8 ∷ [] },
      ))
    × ((j : Bytes)
        → assoc_table.get t j ≡ last_handle opens (λ h. true) in_order (codes "p") j files none)
    × (plugin_loader opens (λ h. true) in_order (codes "p") none unloaded ≡ (negsuc 0, unloaded))
plugin_loader-started_example =
    plugin_loader-started opens (λ h. true) in_order (codes "p") files unloaded

abbrev panel : TexInfo
panel = record {
  texture = 5;
  rect = record { x = pos 0; y = pos 0; w = pos 64; h = pos 48 };
  name = codes "t";
  c = white;
  video = false;
  active = true;
  z = pos 1;
  autorender = true;
}

abbrev with_panel : Screen assoc_table
with_panel = record {
  base_textures = (codes "t", some panel) ∷ [];
  texture_prio = names (codes "t" ∷ []);
  texture_count = pos 1;
  width = pos 1280;
  height = pos 720;
  colors = [];
}

abbrev small_picture : Bytes → Option (ℤ × ℤ)
small_picture file = some (pos 8, pos 6)

js_load_image_file-c_load_image_file_example :
    (p : Bytes) × IsCallOf
      (js_load_image_file (codes "t") (codes "a.png") (pos 1) (pos 2) (pos 0) (pos 3) (pos 255))
      (codes "gui::loadImageFile")
      p
    × (c_load_image_file small_picture p with_panel
        ≡ done (
          true,
          (
            with_panel,
            some (record {
              texture = 5;
              file = codes "a.png";
              rect = record { x = pos 1; y = pos 2; w = pos 8; h = pos 3 };
            }),
          ),
        ))
js_load_image_file-c_load_image_file_example =
    js_load_image_file-c_load_image_file small_picture (codes "t") (codes "a.png") (pos 1) (pos 2)
      (pos 0) (pos 3) (pos 255) panel with_panel (refl, tt)
      (refl, (refl, (refl, (refl, (refl, tt))))) (omega arith, omega arith)
      (omega arith, omega arith) (omega arith, omega arith) (omega arith, omega arith)
      (omega arith, omega arith) refl

-- The function 5 is `gui::drawBox`.
abbrev with_gui : PluginHandler assoc_table ranked_queue
with_gui = record ready {
  registry = record empty_registry { thr_functions = (codes "gui::drawBox", some 5) ∷ [] };
}

leaves_call :
    (p : Bytes) (x y : PluginHandler assoc_table ranked_queue)
    → do_nothing 5 (to_ptr (some p)) x ≡ done y
    → y.contexts.live 0 ≡ x.contexts.live 0
leaves_call p x y h = ground arith

js_draw_box-ui_round_example :
    (p : Bytes) × (t : PluginHandler assoc_table ranked_queue) × (u : PluginHandler assoc_table
      ranked_queue)
    × (scall do_nothing in_time
          (some (js_draw_box (codes "t") (pos 1) (negsuc 1) (pos 3) (pos 4) red))
          with_gui
        ≡ done t)
    × (t.ph_call_locked ≡ false)
    × (t.events ≡ [] ++ call_event (codes "gui::drawBox") (wtx 0) call_type_wtx ∷ [])
    × (u.contexts ≡ t.contexts)
    × (ui_round do_nothing (some (call_event (codes "gui::drawBox") (wtx 0) call_type_wtx)) t ≡ (
        do_nothing 5 (to_ptr (some p)) u >>= λ v.
        Wtx.free_wtx 0 v.contexts >>= λ c. done (record v { contexts = c; ta_locked = false })))
    × (c_draw_box p ≡ done (0, draw_box (pos 1) (negsuc 1) (pos 3) (pos 4) (hex_to_color red)))
js_draw_box-ui_round_example =
    js_draw_box-ui_round do_nothing in_time 5 (codes "t") (pos 1) (negsuc 1) (pos 3) (pos 4) red
      with_gui (refl, tt) (omega arith, omega arith) (omega arith, omega arith)
      (omega arith, omega arith) (omega arith, omega arith) (omega arith, omega arith) leaves_call
      refl refl refl refl refl refl
