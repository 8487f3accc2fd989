-- ===== src/Common/Partial.antt =====
-- What a call of a C function may come to: it returns, it does something that C leaves undefined, or
-- it does not go on, waiting for a lock that is never given back or in a loop that is given no more
-- rounds.
use mathlib.Core.Path.{◌≡◌, refl}
use native.Mathlib.Omega.{arith}

pub data Fault : Type 0 where
  null_pointer out_of_bounds use_after_free uninitialised overflow : Fault

pub data Outcome {ℓ} (A : Type ℓ) : Type ℓ where
  done : A → Outcome A
  fault : Fault → Outcome A
  blocked : Outcome A

-- `abbrev`, so that `done a >>= f` computes wherever it stands.
infixl 5 ◌>>=◌
abbrev pub ◌>>=◌ {ℓ κ} : {A : Type ℓ} {B : Type κ} → Outcome A → (A → Outcome B) → Outcome B
done a >>= f = f a
fault e >>= f = fault e
blocked >>= f = blocked

-- A chain returns only if its first part does.
pub bind_done {ℓ κ} :
    {A : Type ℓ} {B : Type κ} (m : Outcome A) (f : A → Outcome B) (b : B)
    → (m >>= f) ≡ done b
    → (a : A) × (m ≡ done a) × (f a ≡ done b)
bind_done (done a) f b h = (a, refl, h)
bind_done (fault e) f b h = absurd (ground arith)
bind_done blocked f b h = absurd (ground arith)
