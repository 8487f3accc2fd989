-- ===== src/Tests/Screens.antt =====
-- The functions of lib/ui.c and plugins/sdlimage.c on textures at concrete screens.
use wallyd.Common.{
  ℕ, ◌≤◌, ◌≡◌, refl, Bool, true, false, ◌||◌, Option, none, some, List, [], ◌∷◌, map, if◌then◌else◌,
  All, done,
}
use wallyd.Common.Str.{contains, Bytes, codes, str_eq}
use wallyd.Common.Int.{ℤ, pos}
use wallyd.Common.Strtol.{digits_value, strtol}
use wallyd.Tests.Tables.{assoc_table}
use wallyd.Texture.{
  Screen, priority, TexInfo, null, names, set_texture_prio, update_texture_names_by_prio,
  hex_to_color,
}
use wallyd.Texture.Place.{create_texture_ex, read_geometry, place, place_read}
use wallyd.Texture.Palette.{create_color, read_color, put_color}
use wallyd.Texture.Commands.{here, next, created}
use wallyd.Texture.Order.{bubbles, sort_by_prio}
use wallyd.Texture.Sorted.{IsSorted, HasTexture, sort_by_prio-IsSorted}
use wallyd.Texture.WellFormed.{IsWf}
use wallyd.Texture.Keep.{textures_stay_ordered}
use wallyd.Texture.Render.{render_active_ex}
use wallyd.Texture.Render.Drawn.{is_shown_name, render_active_ex-IsSorted}
use wallyd.Image.Pictures.{counted, set_image_scale}
use wallyd.Image.Pictures.Count.{Sdl, start, then_step, scaled, pictures_keep_count}
use wallyd.Texture.Create.{create_texture_ex_result}
use wallyd.Registry.{is_some}
use wallyd.Number.{get_num_or_percent_ex, percent, plain, read_int}
use mathlib.Core.List.{Perm}

abbrev blank : Screen assoc_table
blank = record {
  base_textures = [];
  texture_prio = null;
  texture_count = pos 0;
  width = pos 1280;
  height = pos 720;
  colors = [];
}

blank-IsWf : IsWf blank
unfolding IsWf
blank-IsWf = (λ j. refl, λ j. refl)

-- Every texture that is asked for is made.
abbrev any_texture : Bool → ℤ → ℤ → Option ℕ
any_texture v w h = some 5

abbrev low_and_high : ℕ → Option ℤ
low_and_high n = some (pos n)

sort_by_prio-IsSorted_example :
    (All (HasTexture low_and_high) (3 ∷ 1 ∷ 2 ∷ [])
      → IsSorted low_and_high (sort_by_prio low_and_high (3 ∷ 1 ∷ 2 ∷ [])))
    × Perm (sort_by_prio low_and_high (3 ∷ 1 ∷ 2 ∷ [])) (3 ∷ 1 ∷ 2 ∷ [])
sort_by_prio-IsSorted_example = sort_by_prio-IsSorted low_and_high (3 ∷ 1 ∷ 2 ∷ [])

abbrev box : TexInfo
box = record {
  texture = 5;
  rect = record { x = pos 10; y = pos 10; w = pos 640; h = pos 360 };
  name = codes "box";
  c = record { r = 255; g = 128; b = 7; a = 255 };
  video = false;
  active = true;
  z = pos 1;
  autorender = true;
}

abbrev with_box : Screen assoc_table
with_box = record blank {
  base_textures = (codes "box", some box) ∷ [];
  texture_prio = names (codes "box" ∷ []);
  texture_count = pos 1;
}

box_made :
    create_texture_ex any_texture (codes "box 1 10 10 50% 50% ff8007") false blank
    ≡ done (true, with_box)
unfolding create_texture_ex read_geometry get_num_or_percent_ex percent plain read_int place_read
    place update_texture_names_by_prio sort_by_prio bubbles hex_to_color strtol digits_value
box_made = refl

create_texture_ex_result_example :
    (is_some (assoc_table.get with_box.base_textures (codes "box")) ≡ true)
    × ((j : Bytes)
        → str_eq (codes "box") j ≡ false
        → assoc_table.get with_box.base_textures j ≡ assoc_table.get blank.base_textures j)
create_texture_ex_result_example =
    create_texture_ex_result any_texture (codes "box 1 10 10 50% 50% ff8007") (codes "box") false
      blank with_box true refl box_made

listed_once : (b : Bool) → (b || false) ≡ is_some (if b then some box else none)
listed_once true = refl
listed_once false = refl

with_box-IsWf : IsWf with_box
unfolding IsWf
with_box-IsWf = (
  λ j. listed_once (str_eq (codes "box") j),
  ((tt, tt), λ j. listed_once (str_eq (codes "box") j)),
)

textures_stay_ordered_example : IsWf with_box
textures_stay_ordered_example =
    textures_stay_ordered any_texture blank with_box blank-IsWf
      (next here (created (codes "box 1 10 10 50% 50% ff8007") false true box_made))

prio_of_none : set_texture_prio (codes "none 3") blank ≡ done (false, blank)
unfolding set_texture_prio
prio_of_none = refl

abbrev with_red : Screen assoc_table
with_red = record blank {
  colors = (codes "red", some (record { r = 255; g = 0; b = 0; a = 80 })) ∷ [];
}

red_made : create_color (codes "red ff0000 50") blank ≡ done (true, with_red)
unfolding create_color read_color get_num_or_percent_ex plain read_int put_color hex_to_color strtol
    digits_value
red_made = refl

render_active_ex-IsSorted_example :
    (ds : List TexInfo) × (shown : List Bytes) × (render_active_ex none with_box ≡ done ds)
    × (map (λ d. some d) ds ≡ map (assoc_table.get with_box.base_textures) shown)
    × IsSorted (priority with_box) shown
    × ((j : Bytes) → contains j shown ≡ is_shown_name with_box j)
render_active_ex-IsSorted_example =
    render_active_ex-IsSorted with_box (codes "box" ∷ []) with_box-IsWf refl refl

-- Every file is read, and drawing is put off.
abbrev sdl : Sdl assoc_table
sdl = record {
  loads = λ file. str_eq file (codes "a.png");
  scales = λ file. true;
  errors = λ color. true;
  renders = λ text. true;
  makes = λ t. true;
  turns = λ rotation. true;
  autorender = false;
  fonts = [];
}

abbrev once_more : Screen assoc_table
once_more = record with_box { texture_count = pos 2 }

unread :
    set_image_scale sdl.loads false (codes "box b.png") with_box ≡ done (false, (once_more, []))
unfolding set_image_scale
unread = refl

pictures_keep_count_example : (k : ℕ) × (k ≤ 1) × (once_more ≡ counted (pos k) with_box)
pictures_keep_count_example =
    pictures_keep_count sdl with_box once_more 1
      (then_step start (scaled (codes "box b.png") false [] unread))
