-- ===== src/Video/Pictures/Safety.antt =====
-- plugins/video.c: what the order in which the threads take turns cannot change.
use wallyd.Common.{ℕ, ◌≡◌, Bool, true, false, Option, [], ◌++◌, arith, if◌then◌else◌}
use wallyd.Common.Int.{ℤ, pos}
use wallyd.Video.Pictures.{
  VideoPc, idle, wants, has_space, waits_alloc, placing, writing, wrote, ended, MainPc, free,
  showing, showed, Pictures, Reach,
}
use wallyd.Video.Pictures.Invariant.{in_hand, in_place, VideoOk, MainOk}
use wallyd.Video.Pictures.Order.{Reach-IsFine}
use wallyd.Video.Pictures.Shown.{Reach-IsMarked}

abbrev pub is_writing : VideoPc → Bool
is_writing idle = false
is_writing (wants p) = false
is_writing (has_space p) = false
is_writing (waits_alloc p) = false
is_writing (placing p) = false
is_writing (writing p) = true
is_writing (wrote p) = false
is_writing (ended p) = false

-- In every state that the threads can come to: the pictures that were decoded are those that the main
-- thread took from the place, then the one that waits in the place or is being shown, if there is one,
-- then the one that the video thread has in hand. What was shown is what was taken where there is a
-- texture, and nothing where there is none. So each picture is shown at most once, in its order, and
-- where there is a texture none that was taken is skipped.
pub pictures_in_order :
    (s : Pictures)
    → Reach s
    → (s.frames ≡ s.taken ++ in_place s.main s.pictq_size s.picture ++ in_hand s.video)
      × (s.shown ≡ (if s.has_texture then s.taken else []))
pictures_in_order s r = ((Reach-IsFine r).order, (Reach-IsMarked r).shown_taken)

writing_alone :
    (v : VideoPc) (m : MainPc) (size : ℤ) (n : ℕ) (a raw : Bool) (o : Option ℕ)
    → VideoOk v size n a raw o
    → MainOk m size o
    → is_writing v ≡ true
    → (m ≡ free) × (raw ≡ true) × (size ≡ pos 0)
writing_alone (writing p) free size n a raw o h k w = ground arith
writing_alone (writing p) showing size n a raw o h k w = absurd (ground arith)
writing_alone (writing p) showed size n a raw o h k w = absurd (ground arith)
writing_alone idle m size n a raw o h k w = absurd (ground arith)
writing_alone (wants p) m size n a raw o h k w = absurd (ground arith)
writing_alone (has_space p) m size n a raw o h k w = absurd (ground arith)
writing_alone (waits_alloc p) m size n a raw o h k w = absurd (ground arith)
writing_alone (placing p) m size n a raw o h k w = absurd (ground arith)
writing_alone (wrote p) m size n a raw o h k w = absurd (ground arith)
writing_alone (ended p) m size n a raw o h k w = absurd (ground arith)

-- While the video thread writes a picture, the main thread does not show one, no picture waits that
-- would be lost, and the memory that is written to is there.
pub writing_excludes :
    (s : Pictures)
    → Reach s
    → is_writing s.video ≡ true
    → (s.main ≡ free) × (s.rawdata ≡ true) × (s.pictq_size ≡ pos 0)
writing_excludes s r w =
    let h = Reach-IsFine r in
    writing_alone s.video s.main s.pictq_size s.posted s.allocated s.rawdata s.picture h.video_ok
      h.main_ok w
