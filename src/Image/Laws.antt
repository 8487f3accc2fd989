-- ===== src/Image/Laws.antt =====
-- plugins/sdlimage.c: what the commands on colours keep, and what a wait for a texture returns.
use wallyd.Common.{
  ℕ, zero, suc, ◌+◌, ◌≤◌, ◌<◌, ◌≡◌, refl, ap, ◌↔◌, inl, inr, Bool, true, false, Option, none, some,
  arith, ◌==◌, Bool-cases, Option-cases, Outcome, done, bind_done,
}
use wallyd.Common.Str.{token, Bytes}
use wallyd.External.{HashTable}
use wallyd.Texture.{Screen, TexInfo, Rgba, space}
use wallyd.Texture.WellFormed.{IsWf, keep}
use wallyd.Texture.Keep.{set_active-IsWf}
use wallyd.Image.{set_texture_alpha, set_texture_color, with_color, recolor, recolored, polls}

later_than :
    (appears : ℕ → Bool) (n k : ℕ) → k ≤ n → appears n ≡ true → appears k ≡ false → k + 1 ≤ n
later_than appears n k a e later = elim (Bool-cases (n == k)) [
  | inl same ↦
      let x : n ≡ k = ground (arith, same) in absurd (ground (arith, e, later, ap appears x))
  | inr other ↦ ground (arith, other)
]

-- A wait finds the texture exactly if it is there in one of its seconds.
pub polls_iff :
    (appears : ℕ → Bool) (timeout k : ℕ)
    → (polls appears timeout k ≡ true)
      ↔ ((n : ℕ) × (k ≤ n) × (n < k + timeout) × (appears n ≡ true))
unfolding polls
polls_iff appears zero k =
    (λ h. absurd (ground arith), λ (n, a, b, h). absurd (omega (arith, a, b)))
polls_iff appears (suc timeout) k = elim (Bool-cases (appears k)) [
  | inl now ↦ (λ h. (k, omega arith, omega arith, now), λ h. ground (arith, now))
  | inr later ↦
      let (there, back) = polls_iff appears timeout (k + 1) in
      (
        λ h.
            let (n, a, b, e) = there (ground (arith, h, later)) in
            (n, omega (arith, a), omega (arith, b), e),
        λ (n, a, b, e).
            ground (arith, later, back (n, later_than appears n k a e later, omega (arith, b), e)),
      )
]

with_color-IsWf :
    {H : HashTable} (name : Bytes) (x : TexInfo) (color : Option Rgba) (s t : Screen H) (b : Bool)
    → H.get s.base_textures name ≡ some x
    → IsWf s
    → done (with_color name x color s) ≡ done (b, t)
    → IsWf t
with_color-IsWf name x none s t b is_x wf h = keep s t wf (ground arith)
with_color-IsWf name x (some color) s t b is_x wf h =
    keep (recolored name x color s) t
      (set_active-IsWf s name x (record x { c = color }) is_x refl wf) (ground arith)

recolor-IsWf :
    {H : HashTable} (read : Bytes → TexInfo → Outcome (Option Rgba)) (text : Bytes) (s t : Screen H)
    (b : Bool)
    → IsWf s
    → recolor read text s ≡ done (b, t)
    → IsWf t
unfolding recolor
recolor-IsWf {H} read text s t b wf h = elim (Option-cases (token space text).0) [
  | inl no_name ↦ absurd (ground arith)
  | inr (name, is_name) ↦ elim (Option-cases (H.get s.base_textures name)) [
    | inl absent ↦ keep s t wf (ground arith)
    | inr (x, is_x) ↦ elim (Option-cases (token space (token space text).1).0) [
      | inl no_word ↦ keep s t wf (ground arith)
      | inr (word, is_word) ↦
          let (color, _, rest) =
            bind_done (read word x) (λ color. done (with_color name x color s)) (b, t)
              (ground arith) in
          with_color-IsWf name x color s t b is_x wf rest
    ]
  ]
]

-- The two commands on a texture's colour keep the order of drawing right.
pub set_texture_color-IsWf :
    {H : HashTable} (text : Bytes) (s t : Screen H) (b : Bool)
    → IsWf s
    → (set_texture_alpha text s ≡ done (b, t) → IsWf t)
      × (set_texture_color text s ≡ done (b, t) → IsWf t)
unfolding set_texture_alpha set_texture_color
set_texture_color-IsWf text s t b wf =
    (λ h. recolor-IsWf _ text s t b wf h, λ h. recolor-IsWf _ text s t b wf h)
