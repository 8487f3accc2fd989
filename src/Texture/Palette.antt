-- ===== src/Texture/Palette.antt =====
-- lib/ui.c: `createColor`, which enters a colour into the table of colours.
use wallyd.Common.{◌%◌, Bool, true, false, Option, none, some, if◌then◌else◌, Outcome, done, ◌>>=◌}
use wallyd.Common.Str.{token, Bytes}
use wallyd.Common.Int.{ℤ}
use wallyd.External.{HashTable}
use wallyd.Registry.{is_some}
use wallyd.Number.{get_num_hex}
use wallyd.Texture.{Screen, to_word, hex_to_color, space, ◌>>=?◌}

-- lib/ui.c. A colour that is there is kept. `alpha` is cut to a byte.
unfoldable pub put_color : {H : HashTable} → Bytes → ℤ → ℤ → Screen H → Bool × Screen H
put_color {H} name color alpha s = if is_some (H.get s.colors name) then (true, s) else (
  true,
  record s {
    colors =
        H.insert s.colors name (some (record (hex_to_color color) { a = to_word alpha % 256 }));
  },
)

-- The name, the colour and the alpha that the text gives.
unfoldable pub read_color : Bytes → Outcome (Option (Bytes × ℤ × ℤ))
read_color text =
    let (first, r1) = token space text in
    let (cs, r2) = token space r1 in
    let (as', r3) = token space r2 in
    elim first [
      | none ↦ done none
      | some name ↦ get_num_hex cs >>=? λ color.
          get_num_hex as' >>=? λ alpha. done (some (name, color, alpha))
    ]

abbrev pub add_color : {H : HashTable} → Option (Bytes × ℤ × ℤ) → Screen H → Bool × Screen H
add_color none s = (false, s)
add_color (some (name, color, alpha)) s = put_color name color alpha s

unfoldable pub create_color : {H : HashTable} → Bytes → Screen H → Outcome (Bool × Screen H)
create_color text s = read_color text >>= λ c. done (add_color c s)
