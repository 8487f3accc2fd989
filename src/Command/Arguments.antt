-- ===== src/Command/Arguments.antt =====
-- src/wallyd.c: how a line of a command is split.
use wallyd.Common.{
  ℕ, ◌+◌, ◌≡◌, none, some, [], ◌∷◌, ◌++◌, arith, length, set, drop, length-append, done,
}
use wallyd.Common.Str.{Lacks, before_lacking, before-append, Bytes}
use wallyd.Command.{space, arguments}

drop-set : (s r : Bytes) (x v : ℕ) → drop (length s + 1) (set (s ++ x ∷ r) (length s) v) ≡ r
drop-set [] r x v = ground arith
drop-set (y ∷ s) r x v = ground (arith, drop-set s r x v)

-- A line of a name, a space and the rest: the function is the name, and the parameter the rest, with
-- all its spaces. A name alone has no parameter.
pub arguments-append :
    (x : ℕ) (name rest : Bytes)
    → Lacks space (x ∷ name)
    → Lacks 0 rest
    → (arguments ((x ∷ name) ++ space ∷ rest) ≡ done (x ∷ name, some rest))
      × (arguments (x ∷ name) ≡ done (x ∷ name, none))
unfolding arguments
arguments-append x name rest h z = (
  ground (
    arith,
    h.0,
    (before-append space (x ∷ name) rest h).0,
    length-append (x ∷ name) (space ∷ rest),
    drop-set (x ∷ name) rest space 0,
    before_lacking 0 rest z,
  ),
  ground (arith, h.0, before_lacking space (x ∷ name) h),
)
