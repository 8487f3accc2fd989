-- ===== src/Image/Pictures/Count.antt =====
-- plugins/sdlimage.c: the count of textures that SDL holds, around the commands on pictures.
use wallyd.Common.{
  ℕ, suc, ◌≤◌, ◌≡◌, sym, ap, ◌∙◌, ◌⊎◌, inl, inr, Bool, false, not, ◌&&◌, Option, none, some, List,
  arith, Bool-cases, Option-cases, Outcome, done, bind_done,
}
use wallyd.Common.Str.{token, Bytes}
use wallyd.Common.Int.{ℤ, pos, negsuc, ◌+ℤ◌}
use wallyd.External.{HashTable}
use wallyd.Texture.{space, TexInfo, Screen}
use wallyd.Texture.Render.{is_zero, render_active}
use wallyd.Image.Pictures.{
  counted, Shown, draw_counted, draw_all, set_image, set_image_scale, set_image_scale_sw, draw_text,
  set_text_ex,
}

add_sub_one : (n : ℤ) → n +ℤ pos 1 +ℤ negsuc 0 ≡ n
add_sub_one (pos n) = ground arith
add_sub_one (negsuc n) = ground arith

pub counted_back : {H : HashTable} (s : Screen H) → counted (negsuc 0) (counted (pos 1) s) ≡ s
counted_back s = ap (λ n. record s { texture_count = n }) (add_sub_one s.texture_count)

draw_counted_same :
    {H : HashTable} (autorender : Bool) (start_tex : Option Bytes) (s t : Screen H) (b : Bool)
    (ds : List TexInfo)
    → draw_counted autorender start_tex s ≡ done (b, (t, ds))
    → t ≡ s
unfolding draw_counted
draw_counted_same autorender start_tex s t b ds h =
    let (ds', drawn, rest) =
      bind_done (render_active autorender start_tex (counted (pos 1) s)) _ (b, (t, ds)) h in
    ground (arith, counted_back s)

draw_all_same :
    {H : HashTable} (autorender : Bool) (s t : Screen H) (b : Bool) (ds : List TexInfo)
    → draw_all autorender s ≡ done (b, (t, ds))
    → t ≡ s
unfolding draw_all
draw_all_same autorender s t b ds h =
    let (ds', drawn, rest) = bind_done (render_active autorender none s) _ (b, (t, ds)) h in
    ground arith

module _ {H : HashTable} (loads : Bytes → Bool) (autorender : Bool) where
  set_image_same :
      (name file_name : Option Bytes) (s t : Screen H) (b : Bool) (ds : List TexInfo)
      → set_image loads autorender name file_name s ≡ done (b, (t, ds))
      → t ≡ s
  unfolding set_image
  set_image_same none file_name s t b ds h = ground arith
  set_image_same (some name) none s t b ds h = ground arith
  set_image_same (some name) (some file) s t b ds h = elim (Option-cases (token space name).0) [
    | inl no_name ↦ absurd (ground arith)
    | inr (word, is_word) ↦ elim (Option-cases (H.get s.base_textures word)) [
      | inl absent ↦ ground arith
      | inr (u, is_u) ↦ elim (Bool-cases (loads file)) [
        | inl here ↦
            draw_all_same autorender (counted (negsuc 0) (counted (pos 1) s)) t b ds (ground arith)
            ∙ counted_back s
        | inr fails ↦ absurd (ground arith)
      ]
    ]
  ]

  set_image_scale_cases :
      (str : Bytes) (s t : Screen H) (b : Bool) (ds : List TexInfo)
      → set_image_scale loads autorender str s ≡ done (b, (t, ds))
      → (t ≡ s) ⊎ ((b ≡ false) × (t ≡ counted (pos 1) s))
  unfolding set_image_scale
  set_image_scale_cases str s t b ds h = elim (Option-cases (token space str).0) [
    | inl no_name ↦ absurd (ground arith)
    | inr (word, is_word) ↦ elim (Option-cases (H.get s.base_textures word)) [
      | inl absent ↦ inl (ground arith)
      | inr (u, is_u) ↦ elim (Option-cases (token space (token space str).1).0) [
        | inl no_file ↦ inl (ground arith)
        | inr (file, is_file) ↦ elim (Bool-cases (loads file)) [
          | inl here ↦ inl (draw_counted_same autorender (some u.name) s t b ds (ground arith))
          | inr fails ↦ inr (ground arith, ground arith)
        ]
      ]
    ]
  ]

  set_image_scale_sw_same :
      (makes : TexInfo → Bool) (scales : Bytes → Bool) (str : Bytes) (s t : Screen H) (b : Bool)
      (ds : List TexInfo)
      → set_image_scale_sw loads autorender makes scales str s ≡ done (b, (t, ds))
      → t ≡ s
  unfolding set_image_scale_sw
  set_image_scale_sw_same makes scales str s t b ds h = elim (Option-cases (token space str).0) [
    | inl no_name ↦ absurd (ground arith)
    | inr (word, is_word) ↦ elim (Option-cases (H.get s.base_textures word)) [
      | inl absent ↦ ground arith
      | inr (u, is_u) ↦ elim (Bool-cases (makes u)) [
        | inr unmade ↦ ground arith
        | inl made ↦ elim (Option-cases (token space (token space str).1).0) [
          | inl no_file ↦ ground arith
          | inr (file, is_file) ↦ elim (Bool-cases (loads file && scales file)) [
            | inl here ↦ draw_counted_same autorender (some u.name) s t b ds (ground arith)
            | inr fails ↦ ground arith
          ]
        ]
      ]
    ]
  ]

draw_text_same :
    {H : HashTable} (renders : Bytes → Bool) (turns : ℤ → Bool) (autorender : Bool) (rotation : ℤ)
    (text : Bytes) (s t : Screen H) (b : Bool) (ds : List TexInfo)
    → draw_text renders turns autorender rotation text s ≡ done (b, (t, ds))
    → t ≡ s
unfolding draw_text
draw_text_same renders turns autorender rotation text s t b ds h =
    elim (Bool-cases (not (renders text))) [
      | inl fails ↦ ground arith
      | inr renders_it ↦ elim (Bool-cases (not (is_zero rotation) && not (turns rotation))) [
        | inl fails ↦ ground arith
        | inr turned ↦ draw_counted_same autorender none s t b ds (ground arith)
      ]
    ]

-- A change of one texture by these commands, for what `set_text_ex` is given to draw with.
IsSame : {H : HashTable} → (ℤ → Bytes → Screen H → Outcome (Bool × Shown H)) → Type 0
IsSame {H} draw =
    (rotation : ℤ) (text : Bytes) (s t : Screen H) (b : Bool) (ds : List TexInfo)
    → draw rotation text s ≡ done (b, (t, ds))
    → t ≡ s

set_text_ex_same :
    {H : HashTable} (errors : Bytes → Bool) (draw : ℤ → Bytes → Screen H → Outcome (Bool × Shown H))
    (fonts : H.Table ℕ) (name : Bytes) (rotation : ℤ) (text font_name color_name : Bytes)
    (s t : Screen H) (b : Bool) (ds : List TexInfo)
    → IsSame draw
    → set_text_ex errors draw fonts name rotation text font_name color_name s ≡ done (b, (t, ds))
    → t ≡ s
unfolding set_text_ex IsSame
set_text_ex_same {H} errors draw fonts name rotation text font_name color_name s t b ds same h =
    elim (Option-cases (H.get s.base_textures name)) [
      | inl absent ↦ ground arith
      | inr (u, is_u) ↦ elim (Option-cases (H.get fonts font_name)) [
        | inl no_font ↦ elim (Option-cases (H.get s.colors color_name)) [
          | inl no_color ↦ elim (Bool-cases (errors color_name)) [
            | inl error ↦ ground arith
            | inr passed ↦ ground arith
          ]
          | inr (c, is_c) ↦ ground arith
        ]
        | inr (f, is_f) ↦ elim (Option-cases (H.get s.colors color_name)) [
          | inl no_color ↦ elim (Bool-cases (errors color_name)) [
            | inl error ↦ ground arith
            | inr passed ↦ absurd (ground arith)
          ]
          | inr (c, is_c) ↦ same rotation text s t b ds (ground arith)
        ]
      ]
    ]

-- What SDL and the table of fonts give for the commands.
pub record Sdl (H : HashTable) : Type 0 where
  pub loads : Bytes → Bool
  pub scales : Bytes → Bool
  pub errors : Bytes → Bool
  pub renders : Bytes → Bool
  pub makes : TexInfo → Bool
  pub turns : ℤ → Bool
  pub autorender : Bool
  pub fonts : H.Table ℕ

-- A call of one of the commands that returns, and runs of them.
pub data PictureStep {H : HashTable} (sdl : Sdl H) (s : Screen H) : Screen H → Type 0 where
  image :
      {t : Screen H} (name file_name : Option Bytes) (b : Bool) (ds : List TexInfo)
      → set_image sdl.loads sdl.autorender name file_name s ≡ done (b, (t, ds))
      → PictureStep sdl s t
  scaled :
      {t : Screen H} (str : Bytes) (b : Bool) (ds : List TexInfo)
      → set_image_scale sdl.loads sdl.autorender str s ≡ done (b, (t, ds))
      → PictureStep sdl s t
  scaled_sw :
      {t : Screen H} (str : Bytes) (b : Bool) (ds : List TexInfo)
      → set_image_scale_sw sdl.loads sdl.autorender sdl.makes sdl.scales str s ≡ done (b, (t, ds))
      → PictureStep sdl s t
  written :
      {t : Screen H} (name : Bytes) (rotation : ℤ) (text font_name color_name : Bytes) (b : Bool)
      (ds : List TexInfo)
      → set_text_ex sdl.errors
          (draw_text sdl.renders sdl.turns sdl.autorender)
          sdl.fonts
          name
          rotation
          text
          font_name
          color_name
          s
        ≡ done (b, (t, ds))
      → PictureStep sdl s t

pub data PictureRun {H : HashTable} (sdl : Sdl H) (s : Screen H) : ℕ → Screen H → Type 0 where
  start : PictureRun sdl s 0 s
  then_step :
      {n : ℕ} {t u : Screen H}
      → PictureRun sdl s n t
      → PictureStep sdl t u
      → PictureRun sdl s (suc n) u

pictures_step :
    {H : HashTable} (sdl : Sdl H) (s t : Screen H)
    → PictureStep sdl s t
    → (t ≡ s) ⊎ (t ≡ counted (pos 1) s)
unfolding IsSame
pictures_step sdl s t (image name file_name b ds h) =
    inl (set_image_same sdl.loads sdl.autorender name file_name s t b ds h)
pictures_step sdl s t (scaled str b ds h) =
    elim (set_image_scale_cases sdl.loads sdl.autorender str s t b ds h) [
      | inl same ↦ inl same
      | inr (failed, more) ↦ inr more
    ]
pictures_step sdl s t (scaled_sw str b ds h) =
    inl (set_image_scale_sw_same sdl.loads sdl.autorender sdl.makes sdl.scales str s t b ds h)
pictures_step sdl s t (written name rotation text font_name color_name b ds h) = inl (
    set_text_ex_same sdl.errors (draw_text sdl.renders sdl.turns sdl.autorender) sdl.fonts name
      rotation text font_name color_name s t b ds
      (draw_text_same sdl.renders sdl.turns sdl.autorender) h)

add_none : (m : ℤ) → m +ℤ pos 0 ≡ m
add_none (pos m) = ground arith
add_none (negsuc m) = ground arith

add_more : (m : ℤ) (n : ℕ) → m +ℤ pos n +ℤ pos 1 ≡ m +ℤ pos (suc n)
add_more (pos m) n = ground arith
add_more (negsuc m) n = ground arith

-- However many of the commands run that put a picture or a text on a texture, where they return the
-- screen is as before, except for the count of textures, which is at most one higher for each.
pub pictures_keep_count :
    {H : HashTable} (sdl : Sdl H) (s t : Screen H) (n : ℕ)
    → PictureRun sdl s n t
    → (k : ℕ) × (k ≤ n) × (t ≡ counted (pos k) s)
pictures_keep_count sdl s t n start =
    (0, omega arith, sym (ap (λ c. record s { texture_count = c }) (add_none s.texture_count)))
pictures_keep_count sdl s t n (then_step {n = m} {t = u} run step) =
    let (k, few, is_u) = pictures_keep_count sdl s u m run in
    elim (pictures_step sdl u t step) [
      | inl same ↦ (k, omega (arith, few), same ∙ is_u)
      | inr more ↦ (
        suc k,
        omega (arith, few),
        more
            ∙ ap (counted (pos 1)) is_u
            ∙ ap (λ c. record s { texture_count = c }) (add_more s.texture_count k),
      )
    ]
