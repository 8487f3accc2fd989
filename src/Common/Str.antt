-- ===== src/Common/Str.antt =====
-- C strings: the bytes before the terminating zero, and the functions of <string.h> that the
-- program calls on them.
use Prim.Native.Char.{code}
use Prim.Native.String.{String}
use wallyd.Common.Tests.{◌==◌, if◌then◌else◌}
use Prim.Native.Nat.{ℕ}
use mathlib.Core.Path.{◌≡◌, refl}
use mathlib.Core.Option.{Option, none, some}
use mathlib.Core.Bool.{Bool, true, false, ◌&&◌, ◌||◌}
use wallyd.Common.Lists.{All}
use mathlib.Core.Logic.{◌↔◌}
use mathlib.Core.List.{List, [], ◌∷◌, ◌++◌}
use native.Mathlib.Omega.{arith}

abbrev pub Bytes : Type 0
Bytes = List ℕ

-- The bytes of a literal.
abbrev pub codes : String → Bytes
codes String.[] = []
codes (String.◌∷◌ c s) = code c ∷ codes s

-- strcmp(a, b) == 0
abbrev pub str_eq : Bytes → Bytes → Bool
str_eq [] [] = true
str_eq [] (_ ∷ _) = false
str_eq (_ ∷ _) [] = false
str_eq (a ∷ s) (b ∷ t) = (a == b) && str_eq s t

pub str_eq_iff : (s t : Bytes) → (str_eq s t ≡ true) ↔ (s ≡ t)
str_eq_iff [] [] = (λ _. refl, λ _. refl)
str_eq_iff [] (b ∷ t) = (λ h. cc, λ h. cc)
str_eq_iff (a ∷ s) [] = (λ h. cc, λ h. cc)
str_eq_iff (a ∷ s) (b ∷ t) = ground (arith, str_eq_iff s t)

pub str_eq_self : (s : Bytes) → str_eq s s ≡ true
str_eq_self s = (str_eq_iff s s).1 refl

-- strsep(&s, c): the text before the first byte `c`, and what follows that byte; NULL is `none`.
abbrev pub before : ℕ → Bytes → Bytes
before c [] = []
before c (x ∷ s) = if x == c then [] else x ∷ before c s

abbrev pub after : ℕ → Bytes → Option Bytes
after c [] = none
after c (x ∷ s) = if x == c then some s else after c s

-- strtok(s, c) and strtok(NULL, c), on the rest that the call before left: the next token, or NULL, and
-- the new rest.
abbrev pub skip : ℕ → Bytes → Bytes
skip c [] = []
skip c (x ∷ s) = if x == c then skip c s else x ∷ s

abbrev pub or_empty : Option Bytes → Bytes
or_empty none = []
or_empty (some s) = s

abbrev pub first_token : ℕ → Bytes → Option Bytes × Bytes
first_token c [] = (none, [])
first_token c (x ∷ s) = (some (before c (x ∷ s)), or_empty (after c (x ∷ s)))

abbrev pub token : ℕ → Bytes → Option Bytes × Bytes
token c s = first_token c (skip c s)

-- Whether a text is one of a list.
abbrev pub contains : Bytes → List Bytes → Bool
contains j [] = false
contains j (k ∷ ks) = str_eq k j || contains j ks

-- What holds of each text of the list holds of all of them.
pub All-of_contains {ℓ} :
    (P : Bytes → Type ℓ) (ks : List Bytes) → ((j : Bytes) → contains j ks ≡ true → P j) → All P ks
All-of_contains P [] h = tt
All-of_contains P (k ∷ ks) h =
    (h k (ground (arith, str_eq_self k)), All-of_contains P ks (λ j e. h j (ground (arith, e))))

-- A text without the byte `c`.
abbrev pub Lacks : ℕ → Bytes → Type 0
Lacks c s = All (λ x. (x == c) ≡ false) s

pub before_lacking : (c : ℕ) (s : Bytes) → Lacks c s → before c s ≡ s
before_lacking c [] h = refl
before_lacking c (x ∷ s) (hx, h) = ground (arith, before_lacking c s h)

pub before-append :
    (c : ℕ) (s r : Bytes)
    → Lacks c s
    → (before c (s ++ c ∷ r) ≡ s) × (after c (s ++ c ∷ r) ≡ some r)
before-append c [] r h = (ground arith, ground arith)
before-append c (x ∷ s) r (hx, h) =
    let (b, a) = before-append c s r h in (ground (arith, b), ground (arith, a))
