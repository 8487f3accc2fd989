-- ===== src/Texture/Order.antt =====
-- lib/ui.c: the bubble sort of `updateTextureNamesByPrio`, over what it needs of a texture: `z` gives
-- the priority of a name, and NULL for a name that has no texture. Such a name is never moved by
-- the comparison that meets it.
use wallyd.Common.{
  ℕ, zero, suc, ◌+◌, ◌-◌, ◌≤◌, Bool, false, Option, none, some, List, [], ◌∷◌, ltb, if◌then◌else◌,
  length,
}
use wallyd.Common.Int.{ℤ, pos_part, neg_part}

abbrev pub ltb_ℤ : ℤ → ℤ → Bool
ltb_ℤ a b = ltb (pos_part a + neg_part b) (pos_part b + neg_part a)

infix 50 ◌≤ℤ◌
abbrev pub ◌≤ℤ◌ : ℤ → ℤ → Type 0
a ≤ℤ b = pos_part a + neg_part b ≤ pos_part b + neg_part a

-- TIa->z > TIb->z
abbrev pub is_above : Option ℤ → Option ℤ → Bool
is_above none b = false
is_above (some a) none = false
is_above (some a) (some b) = ltb_ℤ b a

module _ {A : Type 0} (z : A → Option ℤ) where
  -- The inner loop: `n` comparisons of neighbours.
  unfoldable pub bubble : ℕ → List A → List A
  bubble zero keys = keys
  bubble (suc n) [] = []
  bubble (suc n) (a ∷ []) = a ∷ []
  bubble (suc n) (a ∷ b ∷ keys) =
      if is_above (z a) (z b) then b ∷ bubble n (a ∷ keys) else a ∷ bubble n (b ∷ keys)

  -- The outer loop: `n` comparisons, then one less, down to one.
  unfoldable pub bubbles : ℕ → List A → List A
  unfolding bubble
  bubbles zero keys = keys
  bubbles (suc n) keys = bubbles n (bubble (suc n) keys)

  unfoldable pub sort_by_prio : List A → List A
  unfolding bubbles
  sort_by_prio keys = bubbles (length keys - 1) keys
