-- ===== src/Gui/Spans.antt =====
-- plugins/sdlgui.c: a border cuts a span of pixels into three parts.
use wallyd.Common.{ℕ, ◌+◌, ◌-◌, ◌≤◌, ◌≡◌, ap, ◌∙◌, Bool, false, not, ◌&&◌, ◌||◌, arith, ltb, leb}
use wallyd.Common.Int.{ℤ, pos, negsuc, pos_part, neg_part, ◌+ℤ◌, ◌-ℤ◌}
use wallyd.Texture.Order.{ltb_ℤ}

-- The numbers of the pixels of a span.
abbrev pub in_span : ℤ → ℤ → ℤ → Bool
in_span x w p = not (ltb_ℤ p x) && ltb_ℤ p (x +ℤ w)

-- Where the pixel stands in front of the start, and behind it, as natural numbers.
abbrev before_start : ℤ → ℤ → ℕ
before_start x p = pos_part x + neg_part p

abbrev past_zero : ℤ → ℤ → ℕ
past_zero x p = pos_part p + neg_part x

abbrev in_range : ℕ → ℕ → ℕ → Bool
in_range a b w = leb a b && ltb b (a + w)

in_span-in_range :
    (x p : ℤ) (k w : ℕ)
    → in_span (x +ℤ pos k) (pos w) p ≡ in_range (before_start x p + k) (past_zero x p) w
in_span-in_range (pos x) (pos p) k w = ground arith
in_span-in_range (pos x) (negsuc p) k w = ground arith
in_span-in_range (negsuc x) (pos p) k w = ground arith
in_span-in_range (negsuc x) (negsuc p) k w = ground arith

in_range_cut :
    (a b s w : ℕ)
    → s + s ≤ w
    → in_range a b w
      ≡ (in_range a b s || in_range (a + s) b (w - (s + s)) || in_range (a + (w - s)) b s)
in_range_cut a b s w h = ground arith

in_range_apart :
    (a b s w : ℕ)
    → s + s ≤ w
    → ((in_range a b s || in_range (a + (w - s)) b s) && in_range (a + s) b (w - (s + s))) ≡ false
in_range_apart a b s w h = ground arith

in_span_start :
    (x p : ℤ) (w : ℕ) → in_span x (pos w) p ≡ in_range (before_start x p) (past_zero x p) w
in_span_start (pos x) (pos p) w = ground arith
in_span_start (pos x) (negsuc p) w = ground arith
in_span_start (negsuc x) (pos p) w = ground arith
in_span_start (negsuc x) (negsuc p) w = ground arith

pub last_start : (x : ℤ) (s w : ℕ) → s ≤ w → x +ℤ pos w -ℤ pos s ≡ x +ℤ pos (w - s)
last_start (pos x) s w h = ground arith
last_start (negsuc x) s w h = ground arith

pub inner_width : (s w : ℕ) → s + s ≤ w → pos w -ℤ (pos s +ℤ pos s) ≡ pos (w - (s + s))
inner_width s w h = ground arith

cut_by :
    (whole start middle last a b c d : Bool)
    → whole ≡ a
    → start ≡ b
    → middle ≡ c
    → last ≡ d
    → a ≡ (b || c || d)
    → whole ≡ (start || middle || last)
cut_by whole start middle last a b c d h1 h2 h3 h4 h = cc

apart_by :
    (start middle last b c d : Bool)
    → start ≡ b
    → middle ≡ c
    → last ≡ d
    → ((b || d) && c) ≡ false
    → ((start || last) && middle) ≡ false
apart_by start middle last b c d h2 h3 h4 h = cc

-- The three parts of a span with a border.
abbrev pub first_part : ℤ → ℕ → ℤ → Bool
first_part x s p = in_span x (pos s) p

abbrev pub middle_part : ℤ → ℕ → ℕ → ℤ → Bool
middle_part x s w p = in_span (x +ℤ pos s) (pos w -ℤ (pos s +ℤ pos s)) p

abbrev pub last_part : ℤ → ℕ → ℕ → ℤ → Bool
last_part x s w p = in_span (x +ℤ pos w -ℤ pos s) (pos s) p

-- A span is cut by a border at both ends, into three parts, and the middle one is apart from the
-- border.
pub span_cut :
    (x p : ℤ) (s w : ℕ)
    → s + s ≤ w
    → (in_span x (pos w) p ≡ (
        in_span x (pos s) p
        || in_span (x +ℤ pos s) (pos w -ℤ (pos s +ℤ pos s)) p
        || in_span (x +ℤ pos w -ℤ pos s) (pos s) p))
      × (((in_span x (pos s) p || in_span (x +ℤ pos w -ℤ pos s) (pos s) p)
            && in_span (x +ℤ pos s) (pos w -ℤ (pos s +ℤ pos s)) p)
          ≡ false)
span_cut x p s w h =
    let a = in_span_start x p w in
    let b = in_span_start x p s in
    let c =
      ap (λ v. in_span (x +ℤ pos s) v p) (inner_width s w h)
      ∙ in_span-in_range x p s (w - (s + s)) in
    let d =
      ap (λ v. in_span v (pos s) p) (last_start x s w (omega arith))
      ∙ in_span-in_range x p (w - s) s in
    let cut = in_range_cut (before_start x p) (past_zero x p) s w h in
    let apart = in_range_apart (before_start x p) (past_zero x p) s w h in
    (
      cut_by (in_span x (pos w) p) _ _ _ _ _ _ _ a b c d cut,
      apart_by (in_span x (pos s) p) _ _ _ _ _ b c d apart,
    )
