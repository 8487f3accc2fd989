-- ===== src/Image.antt =====
-- plugins/sdlimage.c and lib/ui.c: the commands on a texture's colour and text, and on fonts, without
-- what they draw. What they hand to `setTextEx` is their result.
pub mod Laws
pub mod Pictures
use wallyd.Common.{
  ℕ, zero, suc, ◌+◌, ◌%◌, Bool, true, false, not, Option, none, some, [], ◌∷◌, if◌then◌else◌,
  null_pointer, uninitialised, Outcome, done, fault, ◌>>=◌,
}
use wallyd.Common.Str.{token, Bytes, codes}
use wallyd.Common.Int.{ℤ, pos, negsuc, ◌+ℤ◌}
use wallyd.External.{HashTable}
use wallyd.Registry.{is_some}
use wallyd.Number.{get_num_or_percent, get_num_hex}
use wallyd.Replace.{strip}
use wallyd.Texture.{Screen, TexInfo, Rect, Rgba, hex_to_color, to_word, space}

abbrev pub recolored : {H : HashTable} → Bytes → TexInfo → Rgba → Screen H → Screen H
recolored {H} name t color s = record s {
  base_textures = H.insert s.base_textures name (some (record t { c = color }));
}

abbrev pub with_color : {H : HashTable} → Bytes → TexInfo → Option Rgba → Screen H → Bool × Screen H
with_color name t none s = (false, s)
with_color name t (some color) s = (true, recolored name t color s)

-- What the two commands on a colour share: `read` gives the new colour for a word.
unfoldable pub recolor :
    {H : HashTable}
    → (Bytes → TexInfo → Outcome (Option Rgba))
    → Bytes
    → Screen H
    → Outcome (Bool × Screen H)
recolor {H} read text s =
    let (first, rest) = token space text in
    elim first [
      | none ↦ fault null_pointer
      | some name ↦ elim (H.get s.base_textures name) [
        | none ↦ done (false, s)
        | some t ↦ elim (token space rest).0 [
          | none ↦ done (false, s)
          | some word ↦ read word t >>= λ color. done (with_color name t color s)
        ]
      ]
    ]

-- A number that is not read leaves `alpha` without a value.
unfoldable pub set_texture_alpha : {H : HashTable} → Bytes → Screen H → Outcome (Bool × Screen H)
set_texture_alpha text s =
    recolor
      (λ word t. get_num_hex (some word) >>= λ n. elim n [
        | none ↦ fault uninitialised
        | some alpha ↦ done (some (record t.c { a = to_word alpha % 256 }))
      ])
      text s

-- The colour is read as a decimal number, and its alpha becomes 0.
unfoldable pub set_texture_color : {H : HashTable} → Bytes → Screen H → Outcome (Bool × Screen H)
set_texture_color text s =
    recolor
      (λ word t. get_num_or_percent (some word) (pos 0) >>= λ n. elim n [
        | none ↦ done none
        | some color ↦ done (some (hex_to_color color))
      ])
      text s

-- The result, and `ph->autorender`.
unfoldable pub set_auto_render : Bytes → Bool → ℕ × Bool
set_auto_render text autorender =
    if is_some (strip (codes "true") text)
    then (0, true)
    else if is_some (strip (codes "false") text)
    then (0, false)
    else (1, autorender)

-- What is handed to `setTextEx`.
pub record TextCall : Type 0 where
  pub name : Bytes
  pub x : ℤ
  pub y : ℤ
  pub text : Bytes
  pub font_name : Bytes
  pub color_name : Bytes
  pub is_utf8 : Bool

-- strtok(NULL, "")
abbrev pub remaining : Bytes → Option Bytes
remaining [] = none
remaining (c ∷ s) = some (c ∷ s)

abbrev pub text_call :
    Bool → Bytes → ℤ → ℤ → Option Bytes → Option Bytes → Option Bytes → Option TextCall
text_call is_utf8 name x y (some text) (some color) (some font) = some (record {
  name = name;
  x = x;
  y = y;
  text = text;
  font_name = font;
  color_name = color;
  is_utf8 = is_utf8;
})
text_call is_utf8 name x y none color font = none
text_call is_utf8 name x y (some text) none font = none
text_call is_utf8 name x y (some text) (some color) none = none

-- The words behind the name, for a texture of that width and height.
unfoldable pub read_text : Bool → Bytes → Bytes → ℤ → ℤ → Outcome (Option TextCall)
read_text is_utf8 name words width height =
    let (color, r1) = token space words in
    let (font, r2) = token space r1 in
    let (xs, r3) = token space r2 in
    let (ys, r4) = token space r3 in
    get_num_or_percent xs width >>= λ m. elim m [
      | none ↦ done none
      | some x ↦ get_num_or_percent ys height >>= λ n. elim n [
        | none ↦ done none
        | some y ↦ done (text_call is_utf8 name x y (remaining r4) color font)
      ]
    ]

-- `setText` and `setTextUTF8`, which differ in the type of the text; none is false.
unfoldable pub set_text : {H : HashTable} → Bool → Bytes → Screen H → Outcome (Option TextCall)
set_text {H} is_utf8 str s =
    let (first, words) = token space str in
    elim first [
      | none ↦ fault null_pointer
      | some name ↦ elim (H.get s.base_textures name) [
        | none ↦ done none
        | some t ↦ read_text is_utf8 name words t.rect.w t.rect.h
      ]
    ]

-- The loop of `waitForTexture`: whether the texture is there in one of `timeout` seconds from the
-- second `k` on.
unfoldable pub polls : (ℕ → Bool) → ℕ → ℕ → Bool
polls appears zero k = false
polls appears (suc timeout) k =
    let rest = polls appears timeout (k + 1) in if appears k then true else rest

abbrev pub seconds : Option ℤ → ℕ
seconds none = 60
seconds (some (pos n)) = n
seconds (some (negsuc n)) = 0

-- The second word is tested, and the third one read. The result is false where the texture appeared.
unfoldable pub wait_for_texture : (ℕ → Bool) → Bytes → Outcome Bool
wait_for_texture appears str =
    let (name, r1) = token space str in
    let (ts, r2) = token space r1 in
    let (us, r3) = token space r2 in
    elim name [
      | none ↦ done false
      | some _ ↦ elim ts [
        | none ↦ done (not (polls appears 60 0))
        | some _ ↦ get_num_or_percent us (pos 0) >>= λ timeout.
            done (not (polls appears (seconds timeout) 0))
      ]
    ]

-- The table of fonts, and `open_font`, what TTF_OpenFont gives for a file and a size.
unfoldable pub load_font :
    (H : HashTable) → (Bytes → ℤ → Option ℕ) → Bytes → H.Table ℕ → Outcome (Bool × H.Table ℕ)
load_font H open_font str fonts =
    let (first, r1) = token space str in
    let (file, r2) = token space r1 in
    let (size, r3) = token space r2 in
    elim first [
      | none ↦ fault null_pointer
      | some name ↦
          if is_some (H.get fonts name)
          then done (true, fonts)
          else (get_num_or_percent size (pos 0) >>= λ n. elim n [
            | none ↦ done (false, fonts)
            | some points ↦ elim file [
              | none ↦ done (false, fonts)
              | some path ↦ elim (open_font path points) [
                | none ↦ done (false, fonts)
                | some font ↦ done (true, H.insert fonts name (some font))
              ]
            ]
          ])
    ]

abbrev pub get_texture : {H : HashTable} → Bytes → Screen H → Option TexInfo
get_texture {H} name s = H.get s.base_textures name

unfoldable pub get_tex_info : {H : HashTable} → Option Bytes → Screen H → Option TexInfo
get_tex_info none s = none
get_tex_info (some name) s = get_texture name s

-- The rectangle of the texture is read before it is known that there is one.
unfoldable pub render_tex_name : {H : HashTable} → Option Bytes → Screen H → Outcome Bool
render_tex_name none s = done false
render_tex_name (some text) s = elim (token space text).0 [
  | none ↦ fault null_pointer
  | some name ↦ elim (get_texture name s) [ none ↦ fault null_pointer | some t ↦ done true ]
]

-- `setTexture`, for the texture `t` of that name: the old one is destroyed and counted off, and the
-- new one takes its place and its rectangle.
unfoldable pub set_texture : {H : HashTable} → Bytes → TexInfo → ℕ → Rect → Screen H → Screen H
set_texture {H} name t texture rect s = record s {
  base_textures =
      H.insert s.base_textures name (some (record t { texture = texture; rect = rect }));
  texture_count = s.texture_count +ℤ negsuc 0;
}
