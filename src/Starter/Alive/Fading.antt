-- ===== src/Starter/Alive/Fading.antt =====
-- src/wallystart.c: the textures that `t1` and `t2` point to are alive, whatever `fadein`, `fadeover`
-- and `fadeloop` do.
use wallyd.Common.{
  ℕ, zero, suc, ◌≡◌, refl, sym, Bool, false, ◌||◌, Option, none, some, List, arith, ltb, overflow,
  Outcome, done, fault, ◌>>=◌,
}
use wallyd.Common.Str.{Bytes}
use wallyd.Common.Int.{ℤ, pos_part, int_max}
use mathlib.Core.Path.{subst}
use wallyd.Starter.Screen.{Frame, Globals, fade_image, fade_over, load_image}
use wallyd.Starter.Screen.Frames.{fade_image-ramp, fade_over-ramp}
use wallyd.Starter.Fades.{
  strsep, atol, is_zero, fade_in, run_fadein, as_t1, move_t2, fade_to, run_fadeover, fade_rounds,
  count_rounds, fade_between, run_fadeloop,
}
use wallyd.Starter.Alive.Held.{
  IsHeld, IsText, IsAlive, Ends, Ends-bind, Ends-if, IsHeld-IsUsable, IsApart, IsHeld-without,
  destroy_texture-without, load_image-IsAlive,
}

fade_image-Ends :
    (t : Option ℕ) (reverse : Bool) (s : Globals)
    → IsHeld t s.live s.next
    → IsText s.log
    → (fs : List Frame) × (fade_image t reverse s ≡ done (record s { frames = fs }))
fade_image-Ends t reverse s h (text, e) =
    (_, fade_image-ramp text t reverse s (IsHeld-IsUsable t s.live s.next h) e)

fade_over-Ends :
    (t u : Option ℕ) (s : Globals)
    → IsHeld t s.live s.next
    → IsHeld u s.live s.next
    → IsText s.log
    → (fs : List Frame) × (fade_over t u s ≡ done (record s { frames = fs }))
fade_over-Ends t u s h k (text, e) = (
  _,
  fade_over-ramp text t u s (IsHeld-IsUsable t s.live s.next h) (IsHeld-IsUsable u s.live s.next k)
      e,
)

atol-Ends : (t : Option Bytes) → Ends (λ n. Unit) (atol t)
atol-Ends none = refl
atol-Ends (some t) = tt

-- The second texture takes the place of the first.
move_t2-Ends : (s : Globals) → IsAlive s → IsApart s.t1 s.t2 → Ends IsAlive (move_t2 s)
unfolding move_t2
move_t2-Ends s (h1, h2, text) apart =
    let h = IsHeld-without s.t1 s.t2 s.live s.next apart h2 in
    subst (λ m. Ends IsAlive (m >>= (λ s1. done (as_t1 s1))))
      (sym (destroy_texture-without s.t1 s h1)) (h, h, text)

-- What is done behind a part that only shows frames.
Ends-frames :
    (m : Outcome Globals) (f : Globals → Outcome Globals) (s : Globals)
    → (fs : List Frame) × (m ≡ done (record s { frames = fs }))
    → ((fs : List Frame) → Ends IsAlive (f (record s { frames = fs })))
    → Ends IsAlive (m >>= f)
Ends-frames m f s (fs, e) k = subst (λ n. Ends IsAlive (n >>= f)) (sym e) (k fs)

module _ (load : Bytes → Bool) where
  fade_in-Ends :
      (file : Option Bytes) (delay : ℤ) (s : Globals)
      → IsAlive s
      → Ends IsAlive (fade_in load file delay s)
  unfolding fade_in
  fade_in-Ends none delay s h = h
  fade_in-Ends (some file) delay s h =
      let ((h1, h2, text), new, apart) = load_image-IsAlive load file s h in
      let (t, s1) = load_image load file s in
      let (fs, e) = fade_image-Ends t false (record s1 { t1 = t }) new text in
      Ends-if IsAlive (is_zero delay) (done s) (fade_image t false (record s1 { t1 = t })) h
        (subst (Ends IsAlive) (sym e) (new, h2, text))

  fade_to-Ends :
      (file : Option Bytes) (delay : ℤ) (s : Globals)
      → IsAlive s
      → Ends IsAlive (fade_to load file delay s)
  unfolding fade_to
  fade_to-Ends none delay s h = h
  fade_to-Ends (some file) delay s h =
      let ((h1, h2, text), new, apart) = load_image-IsAlive load file s h in
      let (t, s1) = load_image load file s in
      Ends-if IsAlive (is_zero delay) (done s)
        (fade_over s1.t1 t (record s1 { t2 = t }) >>= move_t2) h
        (Ends-frames (fade_over s1.t1 t (record s1 { t2 = t })) move_t2 (record s1 { t2 = t })
          (fade_over-Ends s1.t1 t (record s1 { t2 = t }) h1 new text)
          (λ fs. move_t2-Ends (record s1 { t2 = t; frames = fs }) (h1, new, text) apart))

  pub run_fadein-Ends :
      (line : Option Bytes) (s : Globals) → IsAlive s → Ends IsAlive (run_fadein load line s)
  unfolding run_fadein
  run_fadein-Ends line s h =
      Ends-bind (λ n. Unit) IsAlive (atol (strsep line).0) _ (atol-Ends (strsep line).0)
        (λ delay k. fade_in-Ends (strsep (strsep line).1).0 delay s h)

  pub run_fadeover-Ends :
      (line : Option Bytes) (s : Globals) → IsAlive s → Ends IsAlive (run_fadeover load line s)
  unfolding run_fadeover
  run_fadeover-Ends line s h =
      Ends-bind (λ n. Unit) IsAlive (atol (strsep line).0) _ (atol-Ends (strsep line).0)
        (λ delay k. fade_to-Ends (strsep (strsep line).1).0 delay s h)

fade_rounds-Ends :
    (n : ℕ) (s : Globals)
    → IsAlive s
    → (fs : List Frame) × (fade_rounds n s ≡ done (record s { frames = fs }))
unfolding fade_rounds
fade_rounds-Ends zero s h = (s.frames, refl)
fade_rounds-Ends (suc n) s (h1, h2, text) =
    let (fs, e) = fade_over-Ends s.t1 s.t2 s h1 h2 text in
    let s1 = record s { frames = fs } in
    let (fs', e') = fade_over-Ends s.t2 s.t1 s1 h2 h1 text in
    let (fs'', e'') = fade_rounds-Ends n (record s { frames = fs' }) (h1, h2, text) in
    (fs'', ground (arith, e, e', e''))

-- The two textures are not the same.
abbrev IsPair : Globals → Type 0
IsPair s = IsAlive s × IsApart s.t1 s.t2

fade_rounds-IsPair : (n : ℕ) (s : Globals) → IsPair s → Ends IsPair (fade_rounds n s)
fade_rounds-IsPair n s (h, apart) =
    let (fs, e) = fade_rounds-Ends n s h in subst (Ends IsPair) (sym e) (h, apart)

count_rounds-Ends : (n : ℕ) (s : Globals) → IsPair s → Ends IsPair (count_rounds n s)
unfolding count_rounds
count_rounds-Ends n s h = Ends-if IsPair (ltb int_max n) (fault overflow) (done s) refl h

last_fade-Ends : (s : Globals) → IsPair s → Ends IsAlive (fade_over s.t1 s.t2 s >>= move_t2)
last_fade-Ends s ((h1, h2, text), apart) =
    Ends-frames (fade_over s.t1 s.t2 s) move_t2 s (fade_over-Ends s.t1 s.t2 s h1 h2 text)
      (λ fs. move_t2-Ends (record s { frames = fs }) (h1, h2, text) apart)

module _ (load : Bytes → Bool) where
  fade_between-Ends :
      (file_a file_b : Option Bytes) (loop delay : ℤ) (s : Globals)
      → IsAlive s
      → Ends IsAlive (fade_between load file_a file_b loop delay s)
  unfolding fade_between
  fade_between-Ends none file_b loop delay s h = h
  fade_between-Ends (some file_a) none loop delay s h = h
  fade_between-Ends (some file_a) (some file_b) loop delay s h =
      let ((h1, h2, text), new, apart) = load_image-IsAlive load file_a s h in
      let (ta, s1) = load_image load file_a s in
      let (alive, new', apart') =
        load_image-IsAlive load file_b (record s1 { t1 = ta }) (new, h2, text) in
      let (tb, s2) = load_image load file_b (record s1 { t1 = ta }) in
      let s3 = record s2 { t2 = tb } in
      let n = pos_part loop in
      Ends-if IsAlive (is_zero loop || is_zero delay) (done s) _ h (
        Ends-bind IsPair IsAlive (fade_rounds n s3 >>= count_rounds n) _
          (Ends-bind IsPair IsPair (fade_rounds n s3) (count_rounds n)
            (fade_rounds-IsPair n s3 ((alive.0, new', alive.2), apart'))
            (λ s4 k. count_rounds-Ends n s4 k))
          (λ s5 k. last_fade-Ends s5 k))

  pub run_fadeloop-Ends :
      (line : Option Bytes) (s : Globals) → IsAlive s → Ends IsAlive (run_fadeloop load line s)
  unfolding run_fadeloop
  run_fadeloop-Ends line s h =
      Ends-bind (λ n. Unit) IsAlive (atol (strsep (strsep line).1).0) _
        (atol-Ends (strsep (strsep line).1).0)
        (λ delay k.
          Ends-bind (λ n. Unit) IsAlive (atol (strsep line).0) _ (atol-Ends (strsep line).0)
            (λ loop k'.
              fade_between-Ends (strsep (strsep (strsep line).1).1).0
                (strsep (strsep (strsep (strsep line).1).1).1).0 loop delay s h))
