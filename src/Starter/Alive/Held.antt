-- ===== src/Starter/Alive/Held.antt =====
-- src/wallystart.c: what it is for the textures of `t1` and `t2` to be alive, and for a part of the
-- program to end without a use of what was freed.
use wallyd.Common.{
  ℕ, ◌+◌, ◌<◌, ◌≡◌, refl, ◌≢◌, Bool, true, false, Option, none, some, arith, if◌then◌else◌, Fault,
  null_pointer, out_of_bounds, use_after_free, uninitialised, overflow, Outcome, done, fault,
  blocked, ◌>>=◌, update,
}
use wallyd.Common.Str.{Bytes}
use wallyd.Starter.Screen.{LogText, log_text, Globals, destroy_texture, load_image, loaded}
use wallyd.Starter.Screen.Frames.{IsUsable}

-- NULL, or a texture that was created and not destroyed.
abbrev pub IsHeld : Option ℕ → (ℕ → Bool) → ℕ → Type 0
IsHeld none live next = Unit
IsHeld (some t) live next = (live t ≡ true) × (t < next)

abbrev pub IsText : LogText → Type 0
IsText log = (t : Bytes) × (log ≡ log_text t)

abbrev pub IsAlive : Globals → Type 0
IsAlive s = IsHeld s.t1 s.live s.next × IsHeld s.t2 s.live s.next × IsText s.log

-- The result has the property, or the fault is none of those that come from what was freed or never
-- set.
abbrev pub is_excused : Fault → Bool
is_excused null_pointer = true
is_excused out_of_bounds = true
is_excused use_after_free = false
is_excused uninitialised = false
is_excused overflow = true

abbrev pub Ends {ℓ} : {A : Type ℓ} → (A → Type 0) → Outcome A → Type 0
Ends P (done a) = P a
Ends P (fault e) = is_excused e ≡ true
Ends P blocked = true ≡ false

pub Ends-bind {ℓ κ} :
    {A : Type ℓ} {B : Type κ} (P : A → Type 0) (Q : B → Type 0) (m : Outcome A) (f : A → Outcome B)
    → Ends P m
    → ((a : A) → P a → Ends Q (f a))
    → Ends Q (m >>= f)
Ends-bind P Q (done a) f h k = k a h
Ends-bind P Q (fault e) f h k = h
Ends-bind P Q blocked f h k = h

pub Ends-if {ℓ} :
    {A : Type ℓ} (P : A → Type 0) (c : Bool) (m n : Outcome A)
    → Ends P m
    → Ends P n
    → Ends P (if c then m else n)
Ends-if P true m n h k = h
Ends-if P false m n h k = k

pub IsHeld-IsUsable :
    (t : Option ℕ) (live : ℕ → Bool) (next : ℕ) → IsHeld t live next → IsUsable t live
IsHeld-IsUsable none live next h = tt
IsHeld-IsUsable (some t) live next h = h.0

-- Of two textures that are not the same one may be destroyed.
abbrev pub IsApart : Option ℕ → Option ℕ → Type 0
IsApart none u = Unit
IsApart (some t) none = Unit
IsApart (some t) (some u) = t ≢ u

abbrev pub without : Option ℕ → (ℕ → Bool) → ℕ → Bool
without none live = live
without (some t) live = update live t false

pub IsHeld-without :
    (t u : Option ℕ) (live : ℕ → Bool) (next : ℕ)
    → IsApart t u
    → IsHeld u live next
    → IsHeld u (without t live) next
IsHeld-without none u live next apart h = h
IsHeld-without (some t) none live next apart h = tt
IsHeld-without (some t) (some u) live next apart (alive, below) = (ground (arith, apart), below)

pub destroy_texture-without :
    (t : Option ℕ) (s : Globals)
    → IsHeld t s.live s.next
    → destroy_texture t s ≡ done (record s { live = without t s.live })
unfolding destroy_texture
destroy_texture-without none s h = refl
destroy_texture-without (some t) s (alive, below) = ground arith

IsHeld-update :
    (u : Option ℕ) (live : ℕ → Bool) (next : ℕ)
    → IsHeld u live next
    → IsHeld u (update live next true) (next + 1)
IsHeld-update none live next h = tt
IsHeld-update (some u) live next (alive, below) = (ground arith, omega arith)

IsApart-next :
    (u : Option ℕ) (live : ℕ → Bool) (next : ℕ) → IsHeld u live next → IsApart u (some next)
IsApart-next none live next h = tt
IsApart-next (some u) live next (alive, below) = λ e. omega (arith, e)

IsApart-none : (u : Option ℕ) → IsApart u none
IsApart-none none = tt
IsApart-none (some u) = tt

pub loaded-IsAlive :
    (b : Bool) (s : Globals)
    → IsAlive s
    → IsAlive (loaded b s).1
      × IsHeld (loaded b s).0 (loaded b s).1.live (loaded b s).1.next
      × IsApart (loaded b s).1.t1 (loaded b s).0
loaded-IsAlive false s (h1, h2, text) = ((h1, h2, text), tt, IsApart-none s.t1)
loaded-IsAlive true s (h1, h2, text) = (
  (IsHeld-update s.t1 s.live s.next h1, IsHeld-update s.t2 s.live s.next h2, text),
  (ground arith, omega arith),
  IsApart-next s.t1 s.live s.next h1,
)

-- A texture that is loaded is alive, and none that was alive before.
pub load_image-IsAlive :
    (load : Bytes → Bool) (name : Bytes) (s : Globals)
    → IsAlive s
    → IsAlive (load_image load name s).1
      × IsHeld
          (load_image load name s).0
          (load_image load name s).1.live
          (load_image load name s).1.next
      × IsApart (load_image load name s).1.t1 (load_image load name s).0
unfolding load_image
load_image-IsAlive load name s h = loaded-IsAlive (load name) s h
