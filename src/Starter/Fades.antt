-- ===== src/Starter/Fades.antt =====
-- src/wallystart.c: the commands `fadein`, `fadeover`, `fadeloop` and `fadeout` of `processCommand`.
-- `load` is that of Screen, and strsep on a text that is used up is `none`. The delay only sets how long
-- a frame stays, so that it counts only whether it is 0.
use wallyd.Common.{
  ℕ, zero, suc, Bool, true, false, ◌||◌, Option, none, some, ltb, ◌==◌, if◌then◌else◌, null_pointer,
  overflow, Outcome, done, fault, ◌>>=◌,
}
use wallyd.Common.Str.{before, after, Bytes}
use wallyd.Common.Int.{ℤ, pos, negsuc, pos_part, int_max}
use wallyd.Common.Strtol.{strtol}
use wallyd.Starter.Screen.{Globals, destroy_texture, fade_image, fade_over, load_image}

abbrev pub space : ℕ
space = 32

-- strsep(&s, " ")
abbrev pub strsep : Option Bytes → Option Bytes × Option Bytes
strsep none = (none, none)
strsep (some s) = (some (before space s), after space s)

abbrev pub atol : Option Bytes → Outcome ℤ
atol none = fault null_pointer
atol (some s) = done (strtol s 10).0

abbrev pub is_zero : ℤ → Bool
is_zero (pos n) = n == 0
is_zero (negsuc n) = false

-- The second texture takes the place of the first.
abbrev pub as_t1 : Globals → Globals
as_t1 s = record s { t1 = s.t2 }

unfoldable pub move_t2 : Globals → Outcome Globals
move_t2 s = destroy_texture s.t1 s >>= (λ s1. done (as_t1 s1))

-- Over and back, `n` times.
unfoldable pub fade_rounds : ℕ → Globals → Outcome Globals
fade_rounds zero s = done s
fade_rounds (suc n) s = fade_over s.t1 s.t2 s >>= (λ s1. fade_over s1.t2 s1.t1 s1 >>= fade_rounds n)

-- The counter of the rounds is an `int`.
unfoldable pub count_rounds : ℕ → Globals → Outcome Globals
count_rounds n s = if ltb int_max n then fault overflow else done s

module _ (load : Bytes → Bool) where
  unfoldable pub fade_in : Option Bytes → ℤ → Globals → Outcome Globals
  fade_in none delay s = done s
  fade_in (some file) delay s =
      if is_zero delay
      then done s
      else let (t, s1) = load_image load file s in fade_image t false (record s1 { t1 = t })

  -- `fadein <delay> <file>`
  unfoldable pub run_fadein : Option Bytes → Globals → Outcome Globals
  run_fadein line s =
      let (delay_str, line1) = strsep line in
      let (file, line2) = strsep line1 in atol delay_str >>= (λ delay. fade_in file delay s)

  unfoldable pub fade_to : Option Bytes → ℤ → Globals → Outcome Globals
  fade_to none delay s = done s
  fade_to (some file) delay s =
      if is_zero delay
      then done s
      else let (t, s1) = load_image load file s in
        fade_over s1.t1 t (record s1 { t2 = t }) >>= move_t2

  -- `fadeover <delay> <file>`
  unfoldable pub run_fadeover : Option Bytes → Globals → Outcome Globals
  run_fadeover line s =
      let (delay_str, line1) = strsep line in
      let (file, line2) = strsep line1 in atol delay_str >>= (λ delay. fade_to file delay s)

  unfoldable pub fade_between : Option Bytes → Option Bytes → ℤ → ℤ → Globals → Outcome Globals
  fade_between none file_b loop delay s = done s
  fade_between (some file_a) none loop delay s = done s
  fade_between (some file_a) (some file_b) loop delay s =
      if is_zero loop || is_zero delay
      then done s
      else let (ta, s1) = load_image load file_a s in
        let (tb, s2) = load_image load file_b (record s1 { t1 = ta }) in
        fade_rounds (pos_part loop) (record s2 { t2 = tb })
        >>= count_rounds (pos_part loop)
        >>= (λ s3. fade_over s3.t1 s3.t2 s3 >>= move_t2)

  -- `fadeloop <num> <delay> <fileA> <fileB>`
  unfoldable pub run_fadeloop : Option Bytes → Globals → Outcome Globals
  run_fadeloop line s =
      let (loop_str, line1) = strsep line in
      let (delay_str, line2) = strsep line1 in
      let (file_a, line3) = strsep line2 in
      let (file_b, line4) = strsep line3 in
      atol delay_str
      >>= (λ delay. atol loop_str >>= (λ loop. fade_between file_a file_b loop delay s))

abbrev pub fadeout_delay : Option Bytes → ℤ
fadeout_delay none = pos 4500000
fadeout_delay (some delay_str) = (strtol delay_str 10).0

-- `fadeout [<delay>]`; t1 still points to the texture that is destroyed.
unfoldable pub run_fadeout : Option Bytes → Globals → Outcome Globals
run_fadeout line s =
    let (delay_str, line1) = strsep line in
    (if is_zero (fadeout_delay delay_str) then done s else fade_image s.t1 true s)
    >>= (λ s1. destroy_texture s1.t1 s1)
