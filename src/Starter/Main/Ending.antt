-- ===== src/Starter/Main/Ending.antt =====
-- src/wallystart.c: how the loop of `main` ends, and what is then destroyed.
use wallyd.Common.{
  ℕ, ◌+◌, ◌≡◌, refl, sym, ◌∙◌, inl, inr, Bool, true, false, ◌||◌, Option, some, List, [], ◌∷◌, ◌++◌,
  arith, if◌then◌else◌, Bool-cases, length, use_after_free, done, fault, ◌>>=◌, update,
}
use wallyd.Common.Str.{Lacks, before_lacking, before-append, Bytes}
use wallyd.Common.Int.{ℤ}
use wallyd.Common.Strtol.{strtol}
use mathlib.Core.Path.{subst}
use wallyd.Starter.Screen.{
  log_text, Frame, plain, blended, Globals, show_texture, destroy_texture, load_image,
}
use wallyd.Starter.Screen.Frames.{
  IsUsable, overlay, use_texture-same, show_frame-text, ramp, fade_over-ramp,
}
use wallyd.Starter.Fades.{space, is_zero, move_t2, fade_to, run_fadeover}
use wallyd.Starter.Alive.Held.{
  IsAlive, without, IsHeld-IsUsable, IsHeld-without, destroy_texture-without, loaded-IsAlive,
}
use wallyd.Starter.Main.{ends, poll_events, main_loop, clean_up}

abbrev pub any_ends : List ℕ → Bool
any_ends [] = false
any_ends (type ∷ types) = ends type || any_ends types

abbrev pub turn_ends : List (List ℕ) → Bool
turn_ends [] = false
turn_ends (types ∷ turns) = any_ends types || turn_ends turns

-- The events up to the end of the first turn with one that ends the loop.
abbrev pub polled : List (List ℕ) → ℕ
polled [] = 0
polled (types ∷ turns) = length types + (if any_ends types then 0 else polled turns)

module _ (text : Bytes) where
  show_texture-text :
      (t : Option ℕ) (s : Globals)
      → IsUsable t s.live
      → s.log ≡ log_text text
      → show_texture t s ≡ done (record s { frames = plain t (overlay text s) ∷ s.frames })
  unfolding show_texture
  show_texture-text t s usable h =
      ground (arith, use_texture-same t s usable, show_frame-text text (plain t) s h)

  poll_events-frames :
      (types : List ℕ) (s : Globals)
      → IsUsable s.t1 s.live
      → s.log ≡ log_text text
      → (fs : List Frame) × (poll_events types s
          ≡ done (record s { quit = s.quit || any_ends types; frames = fs }))
        × (length fs ≡ length types + length s.frames)
  unfolding poll_events
  poll_events-frames [] s usable h = (s.frames, ground arith, omega arith)
  poll_events-frames (type ∷ types) s usable h =
      let s1 = record s { quit = s.quit || ends type } in
      let s2 = record s1 { frames = plain s.t1 (overlay text s) ∷ s.frames } in
      let (fs, e, n) = poll_events-frames types s2 usable h in
      (fs, ground (arith, show_texture-text s.t1 s1 usable h, e), omega (arith, n))

  main_loop_quit :
      (turns : List (List ℕ)) (s : Globals) → s.quit ≡ true → main_loop turns s ≡ done s
  unfolding main_loop
  main_loop_quit [] s h = ground arith
  main_loop_quit (types ∷ turns) s h = ground arith

  -- The loop of `main`, where the picture can be shown and some event is a mouse button, the end of
  -- the program or SDL's quit: it ends after the turn of the first such event, and has shown a frame
  -- for every event of the turns up to there; nothing else has changed but `quit`.
  pub main_loop_ends :
      (turns : List (List ℕ)) (s : Globals)
      → IsUsable s.t1 s.live
      → s.log ≡ log_text text
      → s.quit ≡ false
      → turn_ends turns ≡ true
      → (fs : List Frame) × (main_loop turns s ≡ done (record s { quit = true; frames = fs }))
        × (length fs ≡ polled turns + length s.frames)
  unfolding main_loop
  main_loop_ends [] s usable h goes_on last = absurd (ground arith)
  main_loop_ends (types ∷ turns) s usable h goes_on last =
      let (fs, e, n) = poll_events-frames types s usable h in
      elim (Bool-cases (any_ends types)) [
        | inl now ↦ (
          fs,
          ground (arith, e, main_loop_quit turns (record s { quit = true; frames = fs }) refl),
          ground (arith, n),
        )
        | inr later ↦
            let (fs', e', n') =
              main_loop_ends turns (record s { quit = false; frames = fs }) usable h refl
                (ground arith) in
            (fs', ground (arith, e, e'), ground (arith, n, n'))
      ]

-- Two names of one texture: the second time it is destroyed, it is used after it was freed.
clean_up_twice :
    (t : ℕ) (s : Globals)
    → s.live t ≡ true
    → s.t1 ≡ some t
    → s.t2 ≡ some t
    → clean_up s ≡ fault use_after_free
unfolding clean_up destroy_texture
clean_up_twice t s alive is_t1 is_t2 = ground arith

-- What `fadeover` leaves, where the file loads and the delay is not 0: both point to the new texture.
fade_to-same :
    (load : Bytes → Bool) (file text : Bytes) (delay : ℤ) (s : Globals)
    → IsAlive s
    → s.log ≡ log_text text
    → is_zero delay ≡ false
    → load file ≡ true
    → (s' : Globals) × (fade_to load (some file) delay s ≡ done s')
      × (s'.t1 ≡ some s.next)
      × (s'.t2 ≡ some s.next)
      × (s'.live s.next ≡ true)
      × (s'.log ≡ log_text text)
      × (s'.quit ≡ s.quit)
unfolding fade_to move_t2 load_image
fade_to-same load file text delay s alive h nonzero loads =
    let ((h1, h2, t), new, apart) = loaded-IsAlive true s alive in
    let s1 = record s { live = update s.live s.next true; next = s.next + 1; t2 = some s.next } in
    let fs = ramp (λ i. blended (some s.next) s.t1 i (overlay text s1)) 256 s.frames in
    let kept = IsHeld-without s.t1 (some s.next) s1.live s1.next apart new in
    (
      record s1 { frames = fs; live = without s.t1 s1.live; t1 = some s.next },
      ground (
        arith,
        fade_over-ramp text s.t1 (some s.next) s1 (IsHeld-IsUsable s.t1 s1.live s1.next h1) new.0 h,
        destroy_texture-without s.t1 (record s1 { frames = fs }) h1,
      ),
      refl,
      refl,
      kept.0,
      h,
      refl,
    )

-- After a `fadeover` that shows its picture, the program uses what was freed as soon as an event
-- ends the loop of `main`: the picture is destroyed twice, as `t1` and as `t2`.
pub run_fadeover-clean_up :
    (load : Bytes → Bool) (delay_str file text : Bytes) (turns : List (List ℕ)) (s : Globals)
    → IsAlive s
    → s.log ≡ log_text text
    → s.quit ≡ false
    → Lacks space delay_str
    → Lacks space file
    → is_zero (strtol delay_str 10).0 ≡ false
    → load file ≡ true
    → turn_ends turns ≡ true
    → (run_fadeover load (some (delay_str ++ space ∷ file)) s >>= main_loop turns >>= clean_up)
      ≡ fault use_after_free
unfolding run_fadeover
run_fadeover-clean_up load delay_str file text turns s alive h goes_on word word' nonzero loads
      last =
    let (b, a) = before-append space delay_str file word in
    let w = before_lacking space file word' in
    let (s', e, is_t1, is_t2, kept, log, quit) =
      fade_to-same load file text (strtol delay_str 10).0 s alive h nonzero loads in
    let (fs, looped, n) =
      main_loop_ends text turns s' (subst (λ t. IsUsable t s'.live) (sym is_t1) kept) log
        (quit ∙ goes_on) last in
    ground (
      arith,
      b,
      a,
      w,
      e,
      looped,
      clean_up_twice s.next (record s' { quit = true; frames = fs }) kept is_t1 is_t2,
    )
