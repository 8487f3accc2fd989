-- ===== src/Texture.antt =====
-- lib/ui.c and plugins/sdlimage.c: the table of textures and the list of their names by priority.
-- `Screen` holds the fields of `pluginHandler` that these functions use. A texture of SDL is the
-- number of its handle; `create` is what SDL_CreateTexture gives for a kind and a size. What is
-- drawn is not modelled, and memory that is leaked is not counted.
pub mod Order
pub mod Place
pub mod Palette
pub mod Commands
pub mod Sorted
pub mod Color
pub mod WellFormed
pub mod Keep
pub mod Create
pub mod Render
use wallyd.Common.{
  ℕ, ◌-◌, ◌/◌, ◌%◌, Bool, true, false, Option, none, some, List, null_pointer, use_after_free,
  uninitialised, Outcome, done, fault, ◌>>=◌,
}
use wallyd.Common.Str.{token, Bytes}
use wallyd.Common.Int.{ℤ, pos, negsuc, ◌+ℤ◌}
use wallyd.External.{HashTable}
use wallyd.Registry.{is_some}
use wallyd.Number.{get_num_or_percent, get_num_hex}
use wallyd.Texture.Order.{sort_by_prio}

pub record Rgba : Type 0 where
  pub r : ℕ
  pub g : ℕ
  pub b : ℕ
  pub a : ℕ

pub record Rect : Type 0 where
  pub x : ℤ
  pub y : ℤ
  pub w : ℤ
  pub h : ℤ

pub record TexInfo : Type 0 where
  pub texture : ℕ
  pub rect : Rect
  pub name : Bytes
  pub c : Rgba
  pub video : Bool
  pub active : Bool
  pub z : ℤ
  pub autorender : Bool

-- `ph->texturePrio`: NULL, a pointer to memory that was freed, or the list of names.
pub data Prio : Type 0 where
  null : Prio
  dangling : Prio
  names : List Bytes → Prio

pub record Screen (H : HashTable) : Type 0 where
  pub base_textures : H.Table TexInfo
  pub texture_prio : Prio
  pub texture_count : ℤ
  pub width : ℤ
  pub height : ℤ
  pub colors : H.Table Rgba

-- The low 32 bits of an `int`.
abbrev pub to_word : ℤ → ℕ
to_word (pos n) = n % 4294967296
to_word (negsuc n) = 4294967295 - n % 4294967296

unfoldable pub hex_to_color : ℤ → Rgba
hex_to_color color = record {
  r = to_word color / 65536 % 256;
  g = to_word color / 256 % 256;
  b = to_word color % 256;
  a = 0;
}

abbrev pub space : ℕ
space = b' '

abbrev pub priority : {H : HashTable} → Screen H → Bytes → Option ℤ
priority {H} s k = elim (H.get s.base_textures k) [ none ↦ none | some t ↦ some t.z ]

-- The list is freed if it is not NULL, and made anew.
unfoldable pub update_texture_names_by_prio : {H : HashTable} → Screen H → Outcome (Screen H)
update_texture_names_by_prio {H} s =
    let t = record s {
      texture_prio = names (sort_by_prio (priority s) (H.keys s.base_textures));
    } in
    elim s.texture_prio [ dangling ↦ fault use_after_free | null ↦ done t | names ks ↦ done t ]

-- `strtok` gives NULL for a text of spaces, and `ht_get_simple` asserts that its key is not NULL.
unfoldable pub destroy_texture :
    {H : HashTable} → Option Bytes → Screen H → Outcome (Bool × Screen H)
destroy_texture none s = done (false, s)
destroy_texture {H} (some text) s = elim (token space text).0 [
  | none ↦ fault null_pointer
  | some name ↦ elim (H.get s.base_textures name) [
    | none ↦ done (false, s)
    | some t ↦
        update_texture_names_by_prio (record s {
          base_textures = H.remove s.base_textures name;
          texture_count = s.texture_count +ℤ negsuc 0;
        })
        >>= λ u. done (true, u)
  ]
]

unfoldable pub set_texture_active : {H : HashTable} → Bytes → Bool → Screen H → Bool × Screen H
set_texture_active {H} text active s = elim (token space text).0 [
  | none ↦ (false, s)
  | some name ↦ elim (H.get s.base_textures name) [
    | none ↦ (false, s)
    | some t ↦ (
      true,
      record s {
        base_textures = H.insert s.base_textures name (some (record t { active = active }));
      },
    )
  ]
]

abbrev pub hide_texture : {H : HashTable} → Bytes → Screen H → Bool × Screen H
hide_texture text s = set_texture_active text false s

abbrev pub show_texture : {H : HashTable} → Bytes → Screen H → Bool × Screen H
show_texture text s = set_texture_active text true s

unfoldable pub replace_texture : {H : HashTable} → Bytes → TexInfo → Screen H → Bool × Screen H
replace_texture {H} name other s = elim (H.get s.base_textures name) [
  | none ↦ (false, s)
  | some t ↦ (
    true,
    record s {
      base_textures = H.insert s.base_textures name (some (record t { texture = other.texture }));
    },
  )
]

-- plugins/sdlimage.c. The list is freed here, and the pointer to it is kept. A number that is not
-- read leaves `prio` without a value.
unfoldable pub set_texture_prio : {H : HashTable} → Bytes → Screen H → Outcome (Bool × Screen H)
set_texture_prio {H} text s =
    let (first, rest) = token space text in
    elim first [
      | none ↦ fault null_pointer
      | some name ↦ elim (H.get s.base_textures name) [
        | none ↦ done (false, s)
        | some t ↦ elim (token space rest).0 [
          | none ↦ done (false, s)
          | some prio ↦ get_num_hex (some prio) >>= λ n. elim n [
            | none ↦ fault uninitialised
            | some z ↦
                update_texture_names_by_prio (record s {
                  base_textures = H.insert s.base_textures name (some (record t { z = z }));
                  texture_prio = elim s.texture_prio [
                    | null ↦ null
                    | dangling ↦ dangling
                    | names ks ↦ dangling
                  ];
                })
                >>= λ u. done (true, u)
          ]
        ]
      ]
    ]

-- `if(!getNum…) goto fail`
infixl 5 ◌>>=?◌
abbrev pub ◌>>=?◌ {ℓ} :
    {B : Type ℓ} → Outcome (Option ℤ) → (ℤ → Outcome (Option B)) → Outcome (Option B)
m >>=? f = m >>= λ r. elim r [ none ↦ done none | some v ↦ f v ]
