-- ===== src/Texture/Render.antt =====
-- lib/ui.c: `renderActiveEx` and `renderActive`, which draw the textures in their order. What is drawn
-- is the list of the textures that are copied to the temporary texture, the first below the others;
-- that texture is there from sdlInit on.
pub mod Drawn
use wallyd.Common.{
  ℕ, zero, suc, Bool, true, false, not, ◌&&◌, ◌||◌, Option, none, some, List, [], ◌∷◌, leb, ◌==◌,
  if◌then◌else◌, length, take, null_pointer, out_of_bounds, use_after_free, Outcome, done, fault,
  ◌>>=◌,
}
use wallyd.Common.Str.{Bytes}
use wallyd.Common.Int.{ℤ, pos, negsuc}
use wallyd.External.{HashTable}
use wallyd.Replace.{strip}
use wallyd.Registry.{is_some}
use wallyd.Texture.{TexInfo, Rect, Prio, null, dangling, names, Screen}

abbrev pub is_zero : ℤ → Bool
is_zero (pos n) = n == 0
is_zero (negsuc n) = false

-- A texture that is active, is drawn on its own, and has a size.
abbrev pub is_shown : TexInfo → Bool
is_shown t = t.active && t.autorender && not (is_zero t.rect.w || is_zero t.rect.h)

-- strncmp(name, startTex, strlen(name)) == 0, and NULL starts at once.
abbrev pub starts_at : Option Bytes → Bytes → Bool
starts_at none name = true
starts_at (some start_tex) name = is_some (strip name start_tex)

abbrev pub with_drawn : TexInfo → List TexInfo → List TexInfo
with_drawn t ds = if is_shown t then t ∷ ds else ds

-- The loop over the names, where `start` is whether the first texture was met.
unfoldable pub render_names :
    {H : HashTable} → Option Bytes → Bool → List Bytes → Screen H → Outcome (List TexInfo)
render_names start_tex start [] s = done []
render_names {H} start_tex start (name ∷ ks) s = elim (start || starts_at start_tex name) [
  | false ↦ render_names start_tex false ks s
  | true ↦ elim (H.get s.base_textures name) [
    | none ↦ fault null_pointer
    | some t ↦ render_names start_tex true ks s >>= (λ ds. done (with_drawn t ds))
  ]
]

-- The loop reads as many names as there are textures.
unfoldable pub render_prio :
    {H : HashTable} → Option Bytes → ℕ → Prio → Screen H → Outcome (List TexInfo)
render_prio start_tex zero prio s = done []
render_prio start_tex (suc n) null s = fault null_pointer
render_prio start_tex (suc n) dangling s = fault use_after_free
render_prio start_tex (suc n) (names ks) s =
    if leb (suc n) (length ks)
    then render_names start_tex false (take (suc n) ks) s
    else fault out_of_bounds

unfoldable pub render_active_ex : {H : HashTable} → Option Bytes → Screen H → Outcome (List TexInfo)
render_active_ex {H} start_tex s =
    render_prio start_tex (length (H.keys s.base_textures)) s.texture_prio s

-- `autorender` is that of `ph`.
unfoldable pub render_active :
    {H : HashTable} → Bool → Option Bytes → Screen H → Outcome (List TexInfo)
render_active autorender start_tex s = if autorender then render_active_ex start_tex s else done []
