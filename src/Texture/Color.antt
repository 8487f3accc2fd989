-- ===== src/Texture/Color.antt =====
-- lib/ui.c: colours by name.
use wallyd.Common.{
  ℕ, ◌+◌, ◌*◌, ◌%◌, ◌<◌, ◌≡◌, refl, Bool, true, false, Option, none, some, arith, done, bind_done,
}
use wallyd.Common.Str.{Bytes, str_eq_iff, str_eq_self}
use wallyd.Common.Int.{ℤ, pos}
use mathlib.Core.Path.{subst}
use wallyd.External.{HashTable}
use wallyd.Registry.{is_some}
use wallyd.Texture.{Screen, Rgba, hex_to_color, to_word}
use wallyd.Texture.Palette.{create_color, put_color, add_color, read_color}

-- The three bytes of a colour 0xrrggbb are the three channels.
pub hex_to_color_packed :
    (x y z : ℕ)
    → x < 256
    → y < 256
    → z < 256
    → hex_to_color (pos (x * 65536 + y * 256 + z)) ≡ record { r = x; g = y; b = z; a = 0 }
unfolding hex_to_color
hex_to_color_packed x y z hx hy hz = ground arith

put_color_keeps :
    {H : HashTable} (name : Bytes) (color alpha : ℤ) (s : Screen H) (j : Bytes) (c : Rgba)
    → H.get s.colors j ≡ some c
    → H.get (put_color name color alpha s).1.colors j ≡ some c
unfolding put_color
put_color_keeps {H} name color alpha s j c h = ground (
  arith,
  str_eq_iff name j,
  H.get-insert s.colors name (some (record (hex_to_color color) { a = to_word alpha % 256 })) j,
)

put_color_there :
    {H : HashTable} (name : Bytes) (color alpha : ℤ) (s : Screen H)
    → is_some (H.get (put_color name color alpha s).1.colors name) ≡ true
unfolding put_color
put_color_there {H} name color alpha s = ground (
  arith,
  str_eq_self name,
  H.get-insert s.colors name (some (record (hex_to_color color) { a = to_word alpha % 256 })) name,
)

-- What `createColor` has done where it returns, for what it read.
abbrev pub IsAdded : {H : HashTable} → Option (Bytes × ℤ × ℤ) → Bool → Screen H → Type 0
IsAdded none b t = b ≡ false
IsAdded {H} (some (name, color, alpha)) b t = (b ≡ true) × (is_some (H.get t.colors name) ≡ true)

add_color_result :
    {H : HashTable} (c : Option (Bytes × ℤ × ℤ)) (s : Screen H)
    → ((j : Bytes) (x : Rgba)
        → H.get s.colors j ≡ some x
        → H.get (add_color c s).1.colors j ≡ some x)
      × IsAdded c (add_color c s).0 (add_color c s).1
unfolding put_color
add_color_result none s = (λ j x h. h, refl)
add_color_result (some (name, color, alpha)) s = (
  λ j x h. put_color_keeps name color alpha s j x h,
  (ground arith, put_color_there name color alpha s),
)

IsAdded-same :
    {H : HashTable} (c : Option (Bytes × ℤ × ℤ)) (p q : Bool × Screen H)
    → done p ≡ done q
    → IsAdded c p.0 p.1
    → IsAdded c q.0 q.1
IsAdded-same {H} c p q h x =
    let e : p ≡ q = ground arith in subst {A = Bool × Screen H} (λ r. IsAdded c r.0 r.1) e x

-- `createColor`, where it returns: no colour that was there is changed. It is true exactly if the
-- text gives a name, a colour and an alpha, and then the name has a colour.
pub create_color_result :
    {H : HashTable} (text : Bytes) (s t : Screen H) (b : Bool)
    → create_color text s ≡ done (b, t)
    → (c : Option (Bytes × ℤ × ℤ)) × (read_color text ≡ done c)
      × ((j : Bytes) (x : Rgba) → H.get s.colors j ≡ some x → H.get t.colors j ≡ some x)
      × IsAdded c b t
unfolding create_color
create_color_result {H} text s t b h =
    let (c, is_read, rest) = bind_done (read_color text) (λ c. done (add_color c s)) (b, t) h in
    let (kept, added) = add_color_result c s in
    (
      c,
      is_read,
      λ j x e. ground (arith, kept j x e),
      IsAdded-same c (add_color c s) (b, t) rest added,
    )
