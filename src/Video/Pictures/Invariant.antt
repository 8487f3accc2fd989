-- ===== src/Video/Pictures/Invariant.antt =====
-- plugins/video.c: what holds of the place for the next picture and of the two threads.
use wallyd.Common.{
  ℕ, ◌≡◌, refl, ◌⊎◌, Bool, true, false, Option, none, some, List, [], ◌∷◌, ◌++◌, append-nil, arith,
  if◌then◌else◌,
}
use wallyd.Common.Int.{ℤ, pos, ◌+ℤ◌, ◌-ℤ◌}
use wallyd.Video.Pictures.{
  VideoPc, idle, wants, has_space, waits_alloc, placing, writing, wrote, ended, MainPc, free,
  showing, showed, Pictures, show_picture, is_empty,
}

-- The picture that the video thread has in hand.
abbrev pub in_hand : VideoPc → List ℕ
in_hand idle = []
in_hand (wants p) = p ∷ []
in_hand (has_space p) = p ∷ []
in_hand (waits_alloc p) = p ∷ []
in_hand (placing p) = p ∷ []
in_hand (writing p) = p ∷ []
in_hand (wrote p) = p ∷ []
in_hand (ended p) = p ∷ []

-- The picture that waits in the place, or is being shown.
abbrev pub in_place : MainPc → ℤ → Option ℕ → List ℕ
in_place showed size picture = []
in_place showing size none = []
in_place showing size (some p) = p ∷ []
in_place free size none = []
in_place free size (some p) = if is_empty size then [] else p ∷ []

abbrev pub VideoOk : VideoPc → ℤ → ℕ → Bool → Bool → Option ℕ → Type 0
VideoOk idle size posted allocated raw picture = posted ≡ 0
VideoOk (wants p) size posted allocated raw picture = posted ≡ 0
VideoOk (has_space p) size posted allocated raw picture = (posted ≡ 0) × (size ≡ pos 0)
VideoOk (waits_alloc p) size posted allocated raw picture =
    (size ≡ pos 0)
    × (((allocated ≡ false) × (posted ≡ 1)) ⊎ ((allocated ≡ true) × (posted ≡ 0) × (raw ≡ true)))
VideoOk (placing p) size posted allocated raw picture = (posted ≡ 0) × (size ≡ pos 0) × (raw ≡ true)
VideoOk (writing p) size posted allocated raw picture = (posted ≡ 0) × (size ≡ pos 0) × (raw ≡ true)
VideoOk (wrote p) size posted allocated raw picture =
    (posted ≡ 0) × (size ≡ pos 0) × (picture ≡ some p)
VideoOk (ended p) size posted allocated raw picture = (posted ≡ 0) ⊎ (size ≡ pos 0)

abbrev pub HasPicture : Option ℕ → Type 0
HasPicture o = (p : ℕ) × (o ≡ some p)

abbrev pub MainOk : MainPc → ℤ → Option ℕ → Type 0
MainOk free size picture = (size ≡ pos 0) ⊎ ((size ≡ pos 1) × HasPicture picture)
MainOk showing size picture = (size ≡ pos 1) × HasPicture picture
MainOk showed size picture = size ≡ pos 1

-- What holds of every state that the threads can come to.
pub record IsFine (s : Pictures) : Type 0 where
  pub video_ok : VideoOk s.video s.pictq_size s.posted s.allocated s.rawdata s.picture
  pub main_ok : MainOk s.main s.pictq_size s.picture
  pub ready : (s.new_texture ≡ true) ⊎ (s.rawdata ≡ true)
  pub read : s.pictq_rindex ≡ 0
  pub written : s.pictq_windex ≡ 0
  pub order : s.frames ≡ s.taken ++ in_place s.main s.pictq_size s.picture ++ in_hand s.video

abbrev pub at : VideoPc → MainPc → Pictures → Pictures
at v m s = record s { video = v; main = m }

pub place_empty : (size : ℤ) (o : Option ℕ) → size ≡ pos 0 → in_place free size o ≡ []
place_empty size none h = refl
place_empty size (some p) h = ground arith

pub place_filled :
    (size : ℤ) (o : Option ℕ) (p : ℕ)
    → size ≡ pos 0
    → o ≡ some p
    → in_place free (size +ℤ pos 1) o ≡ p ∷ []
place_filled size none p h k = absurd (ground arith)
place_filled size (some q) p h k = rw h (ground arith)

-- A picture is written, and counted.
pub wrote-order :
    (frames taken : List ℕ) (size : ℤ) (o : Option ℕ) (p : ℕ)
    → size ≡ pos 0
    → o ≡ some p
    → frames ≡ taken ++ in_place free size o ++ p ∷ []
    → frames ≡ taken ++ in_place free (size +ℤ pos 1) o ++ []
wrote-order frames taken size o p h k e = cc (
  e,
  place_empty size o h,
  place_filled size o p h k,
  append-nil taken,
  append-nil (taken ++ p ∷ []),
)

pub size_one : (size : ℤ) → size ≡ pos 0 → size +ℤ pos 1 ≡ pos 1
size_one size h = rw h refl

-- What is shown is no longer in the place.
pub show-order :
    (frames taken hand : List ℕ) (o : Option ℕ) (p : ℕ) (size : ℤ)
    → o ≡ some p
    → frames ≡ taken ++ in_place showing size o ++ hand
    → frames ≡ show_picture o taken ++ [] ++ hand
show-order frames taken hand none p size k e = absurd (ground arith)
show-order frames taken hand (some q) p size k e = cc (e, append-nil (taken ++ q ∷ []))

pub size_less : (size : ℤ) → size ≡ pos 1 → size -ℤ pos 1 ≡ pos 0
size_less size h = rw h refl

pub leave-order :
    (frames taken hand : List ℕ) (o : Option ℕ) (size : ℤ)
    → size ≡ pos 1
    → frames ≡ taken ++ [] ++ hand
    → frames ≡ taken ++ in_place free (size -ℤ pos 1) o ++ hand
leave-order frames taken hand o size h e = rw (place_empty (size -ℤ pos 1) o (size_less size h)) e

-- A picture that waits is taken to be shown.
pub begin-order :
    (frames taken hand : List ℕ) (o : Option ℕ) (size : ℤ)
    → is_empty size ≡ false
    → frames ≡ taken ++ in_place free size o ++ hand
    → frames ≡ taken ++ in_place showing size o ++ hand
begin-order frames taken hand none size h e = e
begin-order frames taken hand (some p) size h e = ground (arith, h, e)

pub decodes-order :
    (frames taken there : List ℕ) (p : ℕ)
    → frames ≡ taken ++ there ++ []
    → frames ++ p ∷ [] ≡ taken ++ there ++ p ∷ []
decodes-order frames taken there p e = cc (e, append-nil (taken ++ there))
