-- ===== src/Texture/Sorted.antt =====
-- lib/ui.c: `updateTextureNamesByPrio` sorts.
use wallyd.Common.{
  ℕ, zero, suc, ◌-◌, ◌≡◌, refl, ap, inl, inr, true, false, Option, some, List, [], ◌∷◌, ◌++◌,
  append-nil, arith, Bool-cases, length, All,
}
use wallyd.Common.Int.{ℤ}
use wallyd.Texture.Order.{◌≤ℤ◌, is_above, bubble, bubbles, sort_by_prio}
use mathlib.Core.List.{Perm}
use mathlib.Core.List.Perm

module _ {A : Type 0} (z : A → Option ℤ) where
  -- `a` has a texture, and stands no higher than `b` has to.
  abbrev pub IsBelow : A → A → Type 0
  IsBelow a b = (m n : ℤ) × (z a ≡ some m) × (z b ≡ some n) × (m ≤ℤ n)

  abbrev pub IsSorted : List A → Type 0
  IsSorted [] = Unit
  IsSorted (a ∷ keys) = All (IsBelow a) keys × IsSorted keys

  abbrev pub HasTexture : A → Type 0
  HasTexture a = (m : ℤ) × (z a ≡ some m)

  bubble-perm : (n : ℕ) (keys : List A) → Perm (bubble z n keys) keys
  unfolding bubble
  bubble-perm zero keys = Perm.refl keys
  bubble-perm (suc n) [] = Perm.refl []
  bubble-perm (suc n) (a ∷ []) = Perm.refl (a ∷ [])
  bubble-perm (suc n) (a ∷ b ∷ keys) = elim (Bool-cases (is_above (z a) (z b))) [
    | inl above ↦
        rw above (Perm.trans (Perm.cons b (bubble-perm n (a ∷ keys))) (Perm.swap a b keys))
    | inr not_above ↦ rw not_above (Perm.cons a (bubble-perm n (b ∷ keys)))
  ]

  All-bubble : (P : A → Type 0) (n : ℕ) (keys : List A) → All P keys → All P (bubble z n keys)
  unfolding bubble
  All-bubble P zero keys h = h
  All-bubble P (suc n) [] h = h
  All-bubble P (suc n) (a ∷ []) h = h
  All-bubble P (suc n) (a ∷ b ∷ keys) (ha, (hb, hk)) = elim (Bool-cases (is_above (z a) (z b))) [
    | inl above ↦ rw above (hb, All-bubble P n (a ∷ keys) (ha, hk))
    | inr not_above ↦ rw not_above (ha, All-bubble P n (b ∷ keys) (hb, hk))
  ]

  above-IsBelow :
      (a b : A) → HasTexture a → HasTexture b → is_above (z a) (z b) ≡ true → IsBelow b a
  above-IsBelow a b (m, ha) (n, hb) h = (n, m, hb, ha, ground arith)

  not_above-IsBelow :
      (a b : A) → HasTexture a → HasTexture b → is_above (z a) (z b) ≡ false → IsBelow a b
  not_above-IsBelow a b (m, ha) (n, hb) h = (m, n, ha, hb, ground arith)

  IsBelow-trans : (a b c : A) → IsBelow a b → IsBelow b c → IsBelow a c
  IsBelow-trans a b c (m, n, ha, hb, h) (n', k, hb', hc, h') = (m, k, ha, hc, ground arith)

  IsBelow-self : (a : A) → HasTexture a → IsBelow a a
  IsBelow-self a (m, ha) = (m, m, ha, ha, omega arith)

  -- A pass over the first `n + 1` names moves one that no other stands above to their end, and
  -- touches nothing behind them.
  bubble_last :
      (n : ℕ) (keys rest : List A)
      → length keys ≡ suc n
      → All HasTexture keys
      → (front : List A) × (m : A) × (bubble z n (keys ++ rest) ≡ front ++ m ∷ rest)
        × (bubble z n keys ≡ front ++ m ∷ [])
        × (length front ≡ n)
        × All (λ a. IsBelow a m) keys
  unfolding bubble
  bubble_last n [] rest l h = absurd (omega arith)
  bubble_last zero (a ∷ []) rest l (ha, h) = ([], a, refl, refl, refl, (IsBelow-self a ha, tt))
  bubble_last zero (a ∷ b ∷ keys) rest l h = absurd (omega arith)
  bubble_last (suc n) (a ∷ []) rest l h = absurd (omega arith)
  bubble_last (suc n) (a ∷ b ∷ keys) rest l (ha, (hb, hk)) =
      elim (Bool-cases (is_above (z a) (z b))) [
        | inl above ↦
            let (front, m, e, e', lf, below) =
              bubble_last n (a ∷ keys) rest (omega arith) (ha, hk) in
            (
              b ∷ front,
              m,
              rw above (ap (λ r. b ∷ r) e),
              rw above (ap (λ r. b ∷ r) e'),
              ap suc lf,
              (below.0, (IsBelow-trans b a m (above-IsBelow a b ha hb above) below.0, below.1)),
            )
        | inr not_above ↦
            let (front, m, e, e', lf, below) =
              bubble_last n (b ∷ keys) rest (omega arith) (hb, hk) in
            (
              a ∷ front,
              m,
              rw not_above (ap (λ r. a ∷ r) e),
              rw not_above (ap (λ r. a ∷ r) e'),
              ap suc lf,
              (
                IsBelow-trans a b m (not_above-IsBelow a b ha hb not_above) below.0,
                (below.0, below.1),
              ),
            )
      ]

  All-append_left : (P : A → Type 0) (xs ys : List A) → All P (xs ++ ys) → All P xs × All P ys
  All-append_left P [] ys h = (tt, h)
  All-append_left P (x ∷ xs) ys (hx, h) = let (l, r) = All-append_left P xs ys h in ((hx, l), r)

  -- Every name of one list stands below every one of the other.
  abbrev AllBelow : List A → List A → Type 0
  AllBelow xs ys = All (λ a. All (IsBelow a) ys) xs

  All-both : (P R : A → Type 0) (xs : List A) → All P xs → All R xs → All (λ a. P a × R a) xs
  All-both P R [] h k = tt
  All-both P R (x ∷ xs) (hx, h) (kx, k) = ((hx, kx), All-both P R xs h k)

  All_nothing : (xs : List A) → AllBelow xs []
  All_nothing [] = tt
  All_nothing (x ∷ xs) = (tt, All_nothing xs)

  bubbles-IsSorted :
      (n : ℕ) (keys rest : List A)
      → length keys ≡ suc n
      → All HasTexture keys
      → AllBelow keys rest
      → IsSorted rest
      → IsSorted (bubbles z n (keys ++ rest))
  unfolding bubbles
  bubbles-IsSorted n [] rest l h b sorted = absurd (omega arith)
  bubbles-IsSorted zero (a ∷ []) rest l h b sorted = (b.0, sorted)
  bubbles-IsSorted zero (a ∷ b ∷ keys) rest l h bl sorted = absurd (omega arith)
  bubbles-IsSorted (suc n) (a ∷ keys) rest l h b sorted =
      let ks = a ∷ keys in
      let (front, m, e, e', lf, below) = bubble_last (suc n) ks rest l h in
      let textures =
        All-append_left HasTexture front (m ∷ []) (rw e' at (All-bubble HasTexture (suc n) ks h)) in
      let low =
        All-append_left (λ x. All (IsBelow x) rest) front (m ∷ [])
          (rw e' at (All-bubble (λ x. All (IsBelow x) rest) (suc n) ks b)) in
      let tops =
        All-append_left (λ x. IsBelow x m) front (m ∷ [])
          (rw e' at (All-bubble (λ x. IsBelow x m) (suc n) ks below)) in
      rw e (
        bubbles-IsSorted n front (m ∷ rest) lf textures.0
          (All-both (λ x. IsBelow x m) (λ x. All (IsBelow x) rest) front tops.0 low.0)
          (low.1.0, sorted))

  bubbles-perm : (n : ℕ) (keys : List A) → Perm (bubbles z n keys) keys
  unfolding bubbles
  bubbles-perm zero keys = Perm.refl keys
  bubbles-perm (suc n) keys =
      Perm.trans (bubbles-perm n (bubble z (suc n) keys)) (bubble-perm (suc n) keys)

  -- Where every name has a texture, the sort puts the names into the order of their priorities, the
  -- lowest first; whether they have or not, it keeps each of them.
  pub sort_by_prio-IsSorted :
      (keys : List A)
      → (All HasTexture keys → IsSorted (sort_by_prio z keys)) × Perm (sort_by_prio z keys) keys
  unfolding sort_by_prio
  sort_by_prio-IsSorted [] = (λ h. tt, Perm.refl [])
  sort_by_prio-IsSorted (a ∷ keys) = (
    λ h.
        let e : length (a ∷ keys) - 1 ≡ length keys = omega arith in
        rw e (
          rw (append-nil (a ∷ keys)) at
            (bubbles-IsSorted (length keys) (a ∷ keys) [] refl h (All_nothing (a ∷ keys)) tt)),
    bubbles-perm (length (a ∷ keys) - 1) (a ∷ keys),
  )
