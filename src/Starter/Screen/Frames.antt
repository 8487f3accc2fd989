-- ===== src/Starter/Screen/Frames.antt =====
-- src/wallystart.c: the frames that `fadeImage` and `fadeOver` show.
use wallyd.Common.{
  ℕ, zero, suc, ◌+◌, ◌-◌, ◌<◌, ◌≡◌, refl, sym, ap, ◌∙◌, inl, inr, Bool, true, Option, none, some,
  List, ◌∷◌, arith, ltb, Bool-cases, get_elem?, done,
}
use wallyd.Common.Str.{Bytes}
use wallyd.Starter.Screen.{
  log_text, Overlay, Frame, shaded, blended, Globals, hex_to_color, use_texture, render_log,
  show_frame, shade, fade_steps, fade_image, over_steps, fade_over,
}

-- NULL, or a texture that is alive.
abbrev pub IsUsable : Option ℕ → (ℕ → Bool) → Type 0
IsUsable none live = Unit
IsUsable (some t) live = live t ≡ true

-- What is drawn over the pictures, where the log is `text`.
abbrev pub overlay : Bytes → Globals → Overlay
overlay text s = record { rot = s.rot; text = text; color = hex_to_color s.color }

-- `n` frames more, where `f i` is followed by `i` others.
unfoldable pub ramp : (ℕ → Frame) → ℕ → List Frame → List Frame
ramp f zero fs = fs
ramp f (suc n) fs = ramp f n (f n ∷ fs)

pub get_elem?-ramp_old :
    (f : ℕ → Frame) (n i j : ℕ) (fs : List Frame)
    → j ≡ n + i
    → get_elem? (ramp f n fs) j ≡ get_elem? fs i
unfolding ramp
get_elem?-ramp_old f zero i j fs h = ap (get_elem? fs) (omega (arith, h))
get_elem?-ramp_old f (suc n) i j fs h =
    get_elem?-ramp_old f n (suc i) j (f n ∷ fs) (omega (arith, h))

pub get_elem?-ramp :
    (f : ℕ → Frame) (n i : ℕ) (fs : List Frame) → i < n → get_elem? (ramp f n fs) i ≡ some (f i)
unfolding ramp
get_elem?-ramp f zero i fs h = absurd (omega arith)
get_elem?-ramp f (suc n) i fs h = elim (Bool-cases (ltb i n)) [
  | inl below ↦ get_elem?-ramp f n i (f n ∷ fs) (ground arith)
  | inr last ↦
      let same : i ≡ n = ground arith in
      get_elem?-ramp_old f n 0 i (f n ∷ fs) (omega (arith, same)) ∙ ap (λ k. some (f k)) (sym same)
]

pub use_texture-same : (t : Option ℕ) (s : Globals) → IsUsable t s.live → use_texture t s ≡ done s
unfolding use_texture
use_texture-same none s h = refl
use_texture-same (some t) s h = ground arith

module _ (text : Bytes) where
  pub show_frame-text :
      (frame : Overlay → Frame) (s : Globals)
      → s.log ≡ log_text text
      → show_frame frame s ≡ done (record s { frames = frame (overlay text s) ∷ s.frames })
  unfolding show_frame render_log
  show_frame-text frame s h = ground arith

  fade_steps-ramp :
      (t : Option ℕ) (reverse : Bool) (n : ℕ) (s : Globals)
      → IsUsable t s.live
      → s.log ≡ log_text text
      → fade_steps t reverse n s
        ≡ done (record s {
          frames = ramp (λ i. shaded t (shade reverse (254 - i)) (overlay text s)) n s.frames;
        })
  unfolding fade_steps ramp
  fade_steps-ramp t reverse zero s usable h = refl
  fade_steps-ramp t reverse (suc n) s usable h =
      let f = shaded t (shade reverse (254 - n)) in
      let s' = record s { frames = f (overlay text s) ∷ s.frames } in
      ground (
        arith,
        use_texture-same t s usable,
        show_frame-text f s h,
        fade_steps-ramp t reverse n s' usable h,
      )

  over_steps-ramp :
      (t u : Option ℕ) (n : ℕ) (s : Globals)
      → IsUsable t s.live
      → IsUsable u s.live
      → s.log ≡ log_text text
      → over_steps t u n s
        ≡ done (record s { frames = ramp (λ i. blended u t i (overlay text s)) n s.frames })
  unfolding over_steps ramp
  over_steps-ramp t u zero s usable usable' h = refl
  over_steps-ramp t u (suc n) s usable usable' h =
      let s' = record s { frames = blended u t n (overlay text s) ∷ s.frames } in
      ground (
        arith,
        use_texture-same t s usable,
        use_texture-same u s usable',
        show_frame-text (blended u t n) s h,
        over_steps-ramp t u n s' usable usable' h,
      )

  -- `fadeImage` shows 255 frames, and `fadeOver` 256, of textures that can be used.
  pub fade_image-ramp :
      (t : Option ℕ) (reverse : Bool) (s : Globals)
      → IsUsable t s.live
      → s.log ≡ log_text text
      → fade_image t reverse s
        ≡ done (record s {
          frames = ramp (λ i. shaded t (shade reverse (254 - i)) (overlay text s)) 255 s.frames;
        })
  unfolding fade_image
  fade_image-ramp t reverse s usable h = fade_steps-ramp t reverse 255 s usable h

  pub fade_over-ramp :
      (t u : Option ℕ) (s : Globals)
      → IsUsable t s.live
      → IsUsable u s.live
      → s.log ≡ log_text text
      → fade_over t u s
        ≡ done (record s { frames = ramp (λ i. blended u t i (overlay text s)) 256 s.frames })
  unfolding fade_over
  fade_over-ramp t u s usable usable' h =
      let fs = ramp (λ i. blended u t i (overlay text s)) 256 s.frames in
      ground (
        arith,
        use_texture-same t s usable,
        use_texture-same u s usable',
        over_steps-ramp t u 256 s usable usable' h,
        use_texture-same t (record s { frames = fs }) usable,
      )
