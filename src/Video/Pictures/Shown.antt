-- ===== src/Video/Pictures/Shown.antt =====
-- plugins/video.c: which of the pictures that the main thread takes video_display shows.
use wallyd.Common.{
  ℕ, ◌≡◌, refl, ap, ◌⊎◌, inr, Bool, true, false, ◌||◌, Option, none, some, List, [], arith,
  if◌then◌else◌,
}
use wallyd.Video.Pictures.{
  VideoPc, idle, wants, has_space, waits_alloc, placing, writing, wrote, ended, MainPc, free,
  showing, showed, Pictures, show_picture, video_display, Move, decodes, video_goes, main_goes,
  refreshes, allocates, quits, move, video_move, main_move, video_refresh_timer, alloc_picture,
  Reach, start, later,
}
use wallyd.Video.Pictures.Invariant.{VideoOk, IsFine}
use wallyd.Video.Pictures.Order.{Reach-IsFine}

-- As long as SDL was not asked for a texture, no picture was written.
abbrev NotAsked : Bool → Bool → Option ℕ → List ℕ → Type 0
NotAsked new raw picture taken = (new ≡ false) ⊎ ((raw ≡ false) × (picture ≡ none) × (taken ≡ []))

pub record IsMarked (s : Pictures) : Type 0 where
  pub shown_taken : s.shown ≡ (if s.has_texture then s.taken else [])
  pub unasked : NotAsked s.new_texture s.rawdata s.picture s.taken

-- A texture that SDL is still to be asked for changes nothing for what was taken.
pub shown_if :
    {raw : Bool} {o : Option ℕ} (new has : Bool) (taken shown : List ℕ)
    → shown ≡ (if has then taken else [])
    → NotAsked new raw o taken
    → shown ≡ (if new || has then taken else [])
shown_if true true taken shown e u = e
shown_if true false taken shown e u = ground arith
shown_if false has taken shown e u = e

show_taken :
    (has : Bool) (o : Option ℕ) (taken shown : List ℕ)
    → shown ≡ (if has then taken else [])
    → video_display has o shown ≡ (if has then show_picture o taken else [])
show_taken true o taken shown e = ap (show_picture o) e
show_taken false o taken shown e = e

unasked_show :
    {raw : Bool} (new : Bool) (o : Option ℕ) (taken : List ℕ)
    → NotAsked new raw o taken
    → NotAsked new raw o (show_picture o taken)
unasked_show new none taken u = u
unasked_show new (some p) taken u = ground arith

main_move-IsMarked : (m : MainPc) (s : Pictures) → IsMarked s → IsMarked (main_move m s)
unfolding main_move
main_move-IsMarked free s h = h
main_move-IsMarked showing s h = record {
  shown_taken = show_taken s.has_texture s.picture s.taken s.shown h.shown_taken;
  unasked = unasked_show s.new_texture s.picture s.taken h.unasked;
}
main_move-IsMarked showed s h = record { shown_taken = h.shown_taken; unasked = h.unasked }

video_move-IsMarked :
    (v : VideoPc) (s : Pictures)
    → VideoOk v s.pictq_size s.posted s.allocated s.rawdata s.picture
    → IsMarked s
    → IsMarked (video_move v s)
unfolding video_move
video_move-IsMarked idle s k h = h
video_move-IsMarked (wants p) s k h = ground arith
video_move-IsMarked (has_space p) s k h = ground arith
video_move-IsMarked (waits_alloc p) s k h = ground arith
video_move-IsMarked (placing p) s k h = ground arith
video_move-IsMarked (writing p) s k h = ground arith
video_move-IsMarked (wrote p) s k h = record { shown_taken = h.shown_taken; unasked = h.unasked }
video_move-IsMarked (ended p) s k h = h

alloc-IsMarked : (created : Bool) (s : Pictures) → IsMarked s → IsMarked (alloc_picture created s)
unfolding alloc_picture
alloc-IsMarked created s h = ground arith

refresh-IsMarked :
    (paused : Bool) (s : Pictures) → IsMarked s → IsMarked (video_refresh_timer paused s)
unfolding video_refresh_timer
refresh-IsMarked paused s h = ground arith

decodes-IsMarked : (p : ℕ) (s : Pictures) → IsMarked s → IsMarked (move (decodes p) s)
unfolding move
decodes-IsMarked p s h = ground arith

move-IsMarked : (m : Move) (s : Pictures) → IsFine s → IsMarked s → IsMarked (move m s)
unfolding move
move-IsMarked (decodes p) s k h = decodes-IsMarked p s h
move-IsMarked video_goes s k h = video_move-IsMarked s.video s k.video_ok h
move-IsMarked main_goes s k h = main_move-IsMarked s.main s h
move-IsMarked (refreshes paused) s k h = refresh-IsMarked paused s h
move-IsMarked (allocates created) s k h = alloc-IsMarked created s h
move-IsMarked quits s k h = record { shown_taken = h.shown_taken; unasked = h.unasked }

no_pictures : (has : Bool) → ◌≡◌ {A = List ℕ} [] (if has then [] else [])
no_pictures true = refl
no_pictures false = refl

pub Reach-IsMarked : {s : Pictures} → Reach s → IsMarked s
Reach-IsMarked (start texture) = record {
  shown_taken = no_pictures texture;
  unasked = inr (refl, refl, refl);
}
Reach-IsMarked (later {s} m r) = move-IsMarked m s (Reach-IsFine r) (Reach-IsMarked r)
