-- ===== src/Gui/Words.antt =====
-- plugins/sdlgui.c: words between single spaces, and the numbers and colours among them, are read back.
use wallyd.Common.{
  ℕ, suc, ◌/◌, ◌%◌, ◌≤◌, ◌≡◌, refl, sym, ap, ◌∙◌, false, none, some, List, [], ◌∷◌, ◌++◌, arith,
  All, done,
}
use wallyd.Common.Str.{Bytes}
use wallyd.Common.Int.{ℤ, pos, negsuc, IsInt, to_int}
use wallyd.Common.Strtol.{IsDigit}
use wallyd.Common.Print.{
  print_int, print_hex, print_nat, low_word, print_nat-cons, atoi-print_int, strtol-print_hex,
}
use mathlib.Core.Path.{subst}
use wallyd.Texture.{to_word, hex_to_color}
use wallyd.Gui.{space, is_separator, word, behind, strsep, spaced, read_int, read_color}

-- A word has no separator.
abbrev pub IsWord : Bytes → Type 0
IsWord w = All (λ c. is_separator c ≡ false) w

word_all : (w : Bytes) → IsWord w → (word w ≡ w) × (behind w ≡ none)
word_all [] h = (refl, refl)
word_all (c ∷ w) (hc, h) = let (a, b) = word_all w h in (ground (arith, a), ground (arith, b))

word-append :
    (w s : Bytes) → IsWord w → (word (w ++ space ∷ s) ≡ w) × (behind (w ++ space ∷ s) ≡ some s)
word-append [] s h = (refl, refl)
word-append (c ∷ w) s (hc, h) =
    let (a, b) = word-append w s h in (ground (arith, a), ground (arith, b))

-- The words come back one after the other.
pub strsep-spaced :
    (w v : Bytes) (ws : List Bytes)
    → IsWord w
    → strsep (some (spaced (w ∷ v ∷ ws))) ≡ (some w, some (spaced (v ∷ ws)))
unfolding strsep
strsep-spaced w v ws h = let (a, b) = word-append w (spaced (v ∷ ws)) h in ground (arith, a, b)

pub strsep_last : (w : Bytes) → IsWord w → strsep (some w) ≡ (some w, none)
unfolding strsep
strsep_last w h = let (a, b) = word_all w h in ground (arith, a, b)

digit-IsWord : (base : ℕ) (ds : Bytes) → base ≤ 16 → All (IsDigit base) ds → IsWord ds
digit-IsWord base [] h all = tt
digit-IsWord base (d ∷ ds) h (hd, all) = (ground arith, digit-IsWord base ds h all)

print_nat-IsWord : (base n : ℕ) → 2 ≤ base → base ≤ 16 → IsWord (print_nat base n)
print_nat-IsWord base n two sixteen =
    let (d, ds, e, digits, v) = print_nat-cons base two sixteen n in
    subst IsWord (sym e) (digit-IsWord base (d ∷ ds) sixteen digits)

pub print_int-IsWord : (a : ℤ) → IsWord (print_int a)
print_int-IsWord (pos n) = print_nat-IsWord 10 n (omega arith) (omega arith)
print_int-IsWord (negsuc n) = (refl, print_nat-IsWord 10 (suc n) (omega arith) (omega arith))

pub print_hex-IsWord : (a : ℤ) → IsWord (print_hex a)
print_hex-IsWord a = print_nat-IsWord 16 (low_word a) (omega arith) (omega arith)

pub read_int-print_int : (a : ℤ) → IsInt a → read_int (some (print_int a)) ≡ done a
read_int-print_int a h = ap (λ n. done n) (atoi-print_int a h)

-- A colour keeps its bits through the text and the conversion to an `int`.
to_word-low_word : (a : ℤ) → IsInt a → to_word (to_int (pos (low_word a))) ≡ to_word a
to_word-low_word a h = ground arith

pub read_color-print_hex :
    (a : ℤ) → IsInt a → read_color (some (print_hex a)) ≡ done (hex_to_color a)
unfolding hex_to_color
read_color-print_hex a h =
    ap (λ v. done (hex_to_color (to_int v))) (strtol-print_hex a)
    ∙ ap (λ w. done (record { r = w / 65536 % 256; g = w / 256 % 256; b = w % 256; a = 0 }))
        (to_word-low_word a h)
