-- ===== src/Texture/Commands.antt =====
-- lib/ui.c and plugins/sdlimage.c: the screens that the commands on textures lead to.
use wallyd.Common.{ℕ, ◌≡◌, Bool, Option, done}
use wallyd.Common.Str.{Bytes}
use wallyd.Common.Int.{ℤ}
use wallyd.External.{HashTable}
use wallyd.Texture.{
  TexInfo, Screen, destroy_texture, set_texture_active, replace_texture, set_texture_prio,
}
use wallyd.Texture.Place.{create_texture_ex}

-- A call of one of these functions that returns, and the screens that a run of them reaches.
pub data Step {H : HashTable} (create : Bool → ℤ → ℤ → Option ℕ) (s : Screen H)
    : Screen H → Type 0 where
  created :
      {t : Screen H} (text : Bytes) (is_video b : Bool)
      → create_texture_ex create text is_video s ≡ done (b, t)
      → Step create s t
  destroyed :
      {t : Screen H} (text : Option Bytes) (b : Bool)
      → destroy_texture text s ≡ done (b, t)
      → Step create s t
  activated :
      {t : Screen H} (text : Bytes) (active : Bool)
      → (set_texture_active text active s).1 ≡ t
      → Step create s t
  replaced :
      {t : Screen H} (name : Bytes) (other : TexInfo)
      → (replace_texture name other s).1 ≡ t
      → Step create s t
  ranked :
      {t : Screen H} (text : Bytes) (b : Bool)
      → set_texture_prio text s ≡ done (b, t)
      → Step create s t

pub data Reach {H : HashTable} (create : Bool → ℤ → ℤ → Option ℕ) (s : Screen H)
    : Screen H → Type 0 where
  here : Reach create s s
  next : {t u : Screen H} → Reach create s t → Step create t u → Reach create s u
