-- ===== src/Starter/Shown.antt =====
-- src/wallystart.c: the frames of a `fadein` and the `fadeout` behind it, and what they and `clearlog`
-- leave behind.
use wallyd.Common.{
  ℕ, ◌+◌, ◌-◌, ◌<◌, ◌≡◌, refl, ◌∙◌, inl, inr, Bool, true, false, Option, none, some, List, ◌∷◌,
  ◌++◌, arith, ltb, if◌then◌else◌, Bool-cases, get_elem?, use_after_free, done, fault, ◌>>=◌,
  update,
}
use wallyd.Common.Str.{Lacks, before_lacking, before-append, Bytes}
use wallyd.Common.Strtol.{strtol}
use wallyd.Starter.Screen.{
  freed_log, log_text, Overlay, Frame, shaded, Globals, destroy_texture, use_texture, show_texture,
  show_frame, render_log, load_image, shade,
}
use wallyd.Starter.Screen.Frames.{
  overlay, ramp, get_elem?-ramp, get_elem?-ramp_old, fade_image-ramp,
}
use wallyd.Starter.Fades.{space, is_zero, fade_in, run_fadein, run_fadeout}
use wallyd.Starter.Script.{free_log, run_clearlog, run_log}

-- What is shown after a `fadein`, and then after a `fadeout`.
abbrev risen : Bytes → Globals → List Frame
risen text s =
    ramp (λ i. shaded (some s.next) (shade false (254 - i)) (overlay text s)) 255 s.frames

abbrev fallen : Bytes → Globals → List Frame
fallen text s =
    ramp (λ i. shaded (some s.next) (shade true (254 - i)) (overlay text s)) 255 (risen text s)

abbrev with_new : List Frame → Bool → Globals → Globals
with_new fs alive s = record s {
  t1 = some s.next;
  live =
      if alive then update s.live s.next true else update (update s.live s.next true) s.next false;
  next = s.next + 1;
  frames = fs;
}

run_fadein-risen :
    (load : Bytes → Bool) (delay_str file text : Bytes) (s : Globals)
    → s.log ≡ log_text text
    → Lacks space delay_str
    → Lacks space file
    → is_zero (strtol delay_str 10).0 ≡ false
    → load file ≡ true
    → run_fadein load (some (delay_str ++ space ∷ file)) s ≡ done (with_new (risen text s) true s)
unfolding run_fadein fade_in load_image
run_fadein-risen load delay_str file text s h word word' nonzero loads =
    let (b, a) = before-append space delay_str file word in
    let w = before_lacking space file word' in
    let s1 = record s { t1 = some s.next; live = update s.live s.next true; next = s.next + 1 } in
    ground (arith, b, a, w, fade_image-ramp text (some s.next) false s1 (ground arith) h)

run_fadeout-fallen :
    (text : Bytes) (s : Globals)
    → s.log ≡ log_text text
    → run_fadeout none (with_new (risen text s) true s) ≡ done (with_new (fallen text s) false s)
unfolding run_fadeout destroy_texture
run_fadeout-fallen text s h = ground (
  arith,
  fade_image-ramp text (some s.next) true (with_new (risen text s) true s) (ground arith) h,
)

-- The brightness of the frames of both, the last first: it fell from 255 to 1 after it rose from 0 to
-- 254.
abbrev pub brightness : ℕ → ℕ
brightness i = if ltb i 255 then i + 1 else 254 - (i - 255)

fallen-brightness :
    (text : Bytes) (s : Globals) (i : ℕ)
    → i < 510
    → get_elem? (fallen text s) i ≡ some (shaded (some s.next) (brightness i) (overlay text s))
fallen-brightness text s i h = elim (Bool-cases (ltb i 255)) [
  | inl late ↦ ground (
    arith,
    get_elem?-ramp (λ j. shaded (some s.next) (shade true (254 - j)) (overlay text s)) 255 i
        (risen text s) (ground arith),
  )
  | inr early ↦ ground (
    arith,
    get_elem?-ramp_old (λ j. shaded (some s.next) (shade true (254 - j)) (overlay text s)) 255
        (i - 255) i (risen text s) (ground arith),
    get_elem?-ramp (λ j. shaded (some s.next) (shade false (254 - j)) (overlay text s)) 255
        (i - 255) s.frames (ground arith),
  )
]

fallen-old :
    (text : Bytes) (s : Globals) (i : ℕ)
    → get_elem? (fallen text s) (510 + i) ≡ get_elem? s.frames i
fallen-old text s i =
    get_elem?-ramp_old (λ j. shaded (some s.next) (shade true (254 - j)) (overlay text s)) 255
      (255 + i) (510 + i) (risen text s) (omega arith)
    ∙ get_elem?-ramp_old (λ j. shaded (some s.next) (shade false (254 - j)) (overlay text s)) 255 i
        (255 + i) s.frames (omega arith)

-- A `fadein` that shows its picture, and a `fadeout` behind it, where there is a log: they show 510
-- frames of the new picture, whose brightness rises from 0 to 254 and falls from 255 to 1, and before
-- those stand the frames that were shown before. Then the picture is destroyed, `t1` still points to
-- it, and to show it again is a use after free.
pub run_fadein-run_fadeout :
    (load : Bytes → Bool) (delay_str file text : Bytes) (s : Globals)
    → s.log ≡ log_text text
    → Lacks space delay_str
    → Lacks space file
    → is_zero (strtol delay_str 10).0 ≡ false
    → load file ≡ true
    → (s' : Globals) × ((run_fadein load (some (delay_str ++ space ∷ file)) s >>= run_fadeout none)
        ≡ done s')
      × ((i : ℕ)
          → i < 510
          → get_elem? s'.frames i ≡ some (shaded (some s.next) (brightness i) (overlay text s)))
      × ((i : ℕ) → get_elem? s'.frames (510 + i) ≡ get_elem? s.frames i)
      × (s'.t1 ≡ some s.next)
      × (show_texture s'.t1 s' ≡ fault use_after_free)
unfolding show_texture use_texture
run_fadein-run_fadeout load delay_str file text s h word word' nonzero loads = (
  with_new (fallen text s) false s,
  ground (
    arith,
    run_fadein-risen load delay_str file text s h word word' nonzero loads,
    run_fadeout-fallen text s h,
  ),
  fallen-brightness text s,
  fallen-old text s,
  refl,
  ground arith,
)

-- After `clearlog`, where there was a log: the log is freed and nothing else has changed; whatever is
-- shown next, and a second `clearlog` and a `log`, use it after that.
pub run_clearlog_lost :
    (text cmd : Bytes) (behind : Option Bytes) (frame : Overlay → Frame) (s : Globals)
    → s.log ≡ log_text text
    → (s' : Globals) × (run_clearlog s ≡ done s')
      × (s' ≡ record s { log = freed_log })
      × (show_frame frame s' ≡ fault use_after_free)
      × (run_log cmd behind s' ≡ fault use_after_free)
      × (run_clearlog s' ≡ fault use_after_free)
unfolding run_clearlog free_log show_frame render_log run_log
run_clearlog_lost text cmd behind frame s h =
    (record s { log = freed_log }, ground arith, refl, refl, refl, refl)
