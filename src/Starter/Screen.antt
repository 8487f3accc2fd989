-- ===== src/Starter/Screen.antt =====
-- src/wallystart.c: the globals of the program, and what it shows: `loadImage`, `renderLog`,
-- `showTexture`, `fadeImage` and `fadeOver`. A texture is a number, `live` are those that were created
-- and not destroyed, and `load` says whether SDL loads a file. SDL takes NULL for a texture, as an
-- error that nobody looks at; one that was destroyed is used after it was freed. The temporary textures
-- of a call are left out. The thread of the log may set the log at any time; it is not part of this.
pub mod Frames
use wallyd.Common.{
  ℕ, zero, suc, ◌+◌, ◌-◌, ◌/◌, ◌%◌, Bool, true, false, Option, none, some, List, ◌∷◌, if◌then◌else◌,
  use_after_free, uninitialised, Outcome, done, fault, ◌>>=◌, update,
}
use wallyd.Common.Str.{Bytes}
use wallyd.Common.Int.{ℤ, pos, negsuc}
use wallyd.Common.Strtol.{strtol}

-- The text of the log: NULL, freed, or a text.
pub data LogText : Type 0 where
  no_log freed_log : LogText
  log_text : Bytes → LogText

pub record Rgb : Type 0 where
  pub r : ℕ
  pub g : ℕ
  pub b : ℕ

-- What is drawn over a picture: the text of the log in a colour, turned as the picture is.
pub record Overlay : Type 0 where
  pub rot : ℤ
  pub text : Bytes
  pub color : Rgb

-- A picture; a picture whose colours are scaled by v/255; the second picture under the first, whose
-- alpha is given.
pub data Frame : Type 0 where
  plain : Option ℕ → Overlay → Frame
  shaded : Option ℕ → ℕ → Overlay → Frame
  blended : Option ℕ → Option ℕ → ℕ → Overlay → Frame

-- `frames` is what was shown, the last first, and `slept` the sum of the seconds that were slept.
pub record Globals : Type 0 where
  pub t1 : Option ℕ
  pub t2 : Option ℕ
  pub live : ℕ → Bool
  pub next : ℕ
  pub rot : ℤ
  pub color : Bytes
  pub log : LogText
  pub quit : Bool
  pub slept : ℕ
  pub frames : List Frame

-- The low 32 bits of a number.
abbrev pub low_word : ℤ → ℕ
low_word (pos n) = n % 4294967296
low_word (negsuc n) = 4294967295 - n % 4294967296

-- The bytes of the number are taken from the `int`, which shifts as its bits do.
pub hex_to_color : Bytes → Rgb
hex_to_color col_str =
    let color = low_word (strtol col_str 16).0 in
    record { r = color / 65536 % 256; g = color / 256 % 256; b = color % 256 }

unfoldable pub use_texture : Option ℕ → Globals → Outcome Globals
use_texture none s = done s
use_texture (some t) s = if s.live t then done s else fault use_after_free

unfoldable pub destroy_texture : Option ℕ → Globals → Outcome Globals
destroy_texture none s = done s
destroy_texture (some t) s =
    if s.live t then done (record s { live = update s.live t false }) else fault use_after_free

-- Without a log the second texture of `showTexture` is not initialised.
unfoldable pub render_log : Globals → Outcome Overlay
render_log s = elim s.log [
  | no_log ↦ fault uninitialised
  | freed_log ↦ fault use_after_free
  | log_text t ↦ done (record { rot = s.rot; text = t; color = hex_to_color s.color })
]

unfoldable pub show_frame : (Overlay → Frame) → Globals → Outcome Globals
show_frame frame s = render_log s >>= (λ o. done (record s { frames = frame o ∷ s.frames }))

unfoldable pub show_texture : Option ℕ → Globals → Outcome Globals
show_texture tex1 s = use_texture tex1 s >>= show_frame (plain tex1)

-- The value of the round `i` of `fadeImage`.
abbrev pub shade : Bool → ℕ → ℕ
shade reverse i = if reverse then 255 - i else i

-- The last `n` of the 255 rounds.
unfoldable pub fade_steps : Option ℕ → Bool → ℕ → Globals → Outcome Globals
fade_steps text reverse zero s = done s
fade_steps text reverse (suc n) s =
    use_texture text s
    >>= (λ s1. show_frame (shaded text (shade reverse (254 - n))) s1 >>= fade_steps text reverse n)

unfoldable pub fade_image : Option ℕ → Bool → Globals → Outcome Globals
fade_image text reverse s = fade_steps text reverse 255 s

-- The rounds of `fadeOver` from the alpha `n - 1` down to 0.
unfoldable pub over_steps : Option ℕ → Option ℕ → ℕ → Globals → Outcome Globals
over_steps t1 t2 zero s = done s
over_steps t1 t2 (suc n) s =
    use_texture t2 s
    >>= (λ s1. use_texture t1 s1 >>= (λ s2. show_frame (blended t2 t1 n) s2 >>= over_steps t1 t2 n))

unfoldable pub fade_over : Option ℕ → Option ℕ → Globals → Outcome Globals
fade_over t1 t2 s =
    use_texture t1 s
    >>= (λ s1. use_texture t2 s1 >>= (λ s2. over_steps t1 t2 256 s2 >>= use_texture t1))

abbrev pub loaded : Bool → Globals → Option ℕ × Globals
loaded true s = (some s.next, record s { live = update s.live s.next true; next = s.next + 1 })
loaded false s = (none, s)

unfoldable pub load_image : (Bytes → Bool) → Bytes → Globals → Option ℕ × Globals
load_image load name s = loaded (load name) s
