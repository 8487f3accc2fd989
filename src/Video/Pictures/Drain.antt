-- ===== src/Video/Pictures/Drain.antt =====
-- plugins/video.c: how the main thread comes to have nothing to show.
use wallyd.Common.{
  ℕ, ◌≡◌, refl, ap, ◌∙◌, ◌⊎◌, inl, inr, Bool, true, false, ◌||◌, List, [], ◌∷◌, arith,
}
use wallyd.Common.Int.{pos, ◌+ℤ◌, ◌-ℤ◌}
use wallyd.Video.Pictures.{
  VideoPc, idle, wrote, MainPc, free, showing, showed, Pictures, Move, video_goes, main_goes,
  refreshes, next_index, show_picture, video_display, move, video_move, main_move,
  video_refresh_timer,
}
use wallyd.Video.Pictures.Invariant.{MainOk, size_less, size_one, at}

unfoldable pub moves : List Move → Pictures → Pictures
moves [] s = s
moves (m ∷ ms) s = moves ms (move m s)

-- There is a texture, or SDL is still to be asked for one.
abbrev pub can_show : Pictures → Bool
can_show s = s.new_texture || s.has_texture

-- From s to t, no picture is decoded, and no texture is lost.
abbrev pub Keeps : Pictures → Pictures → Type 0
Keeps s t = (t.frames ≡ s.frames) × (can_show t ≡ can_show s)

-- The threads can go on to a state in which nothing is in hand and nothing waits, and keep what there
-- is on the way.
abbrev pub Finishes : Pictures → Type 0
Finishes s =
    (ms : List Move) × (t : Pictures) × (moves ms s ≡ at idle free t)
    × (t.pictq_size ≡ pos 0)
    × Keeps s t

-- By one move more.
pub by_move : (m : Move) (s t : Pictures) → move m s ≡ t → Keeps s t → Finishes t → Finishes s
unfolding moves
by_move m s t e (same, still) (ms, u, led, none_there, (kept, there)) =
    (m ∷ ms, u, ap (moves ms) e ∙ led, none_there, (kept ∙ same, there ∙ still))

refresh_full :
    (v : VideoPc) (s : Pictures)
    → s.pictq_size ≡ pos 1
    → s.quit ≡ false
    → video_refresh_timer false (at v free s) ≡ at v showing s
unfolding video_refresh_timer
refresh_full v s h going = ground arith

abbrev pub IsReady : Pictures → Type 0
IsReady s = ((s.new_texture ≡ true) ⊎ (s.rawdata ≡ true)) × (s.posted ≡ 0)

-- It is enough to go on from a state in which the main thread has nothing to show.
module _ (v : VideoPc)
    (rest : (t : Pictures)
      → t.pictq_size ≡ pos 0
      → t.quit ≡ false
      → IsReady t
      → Finishes (at v free t)) where
  from_showed :
      (s : Pictures) → s.pictq_size ≡ pos 1 → s.quit ≡ false → IsReady s → Finishes (at v showed s)
  unfolding move main_move
  from_showed s full going ready =
      by_move main_goes (at v showed s)
        (at v free (record s { pictq_size = s.pictq_size -ℤ pos 1 })) refl (refl, refl)
        (rest (record s { pictq_size = s.pictq_size -ℤ pos 1 }) (size_less s.pictq_size full) going
          ready)

  from_showing :
      (s : Pictures) → s.pictq_size ≡ pos 1 → s.quit ≡ false → IsReady s → Finishes (at v showing s)
  unfolding move main_move
  from_showing s full going ready =
      let t = record s {
        taken = show_picture s.picture s.taken;
        shown = video_display s.has_texture s.picture s.shown;
        pictq_rindex = next_index s.pictq_rindex;
      } in
      by_move main_goes (at v showing s) (at v showed t) refl (refl, refl)
        (from_showed t full going ready)

  pub from_full :
      (s : Pictures) → s.pictq_size ≡ pos 1 → s.quit ≡ false → IsReady s → Finishes (at v free s)
  unfolding move
  from_full s full going ready =
      by_move (refreshes false) (at v free s) (at v showing s) (refresh_full v s full going)
        (refl, refl) (from_showing s full going ready)

  pub from_main :
      (m : MainPc) (s : Pictures)
      → MainOk m s.pictq_size s.picture
      → s.quit ≡ false
      → IsReady s
      → Finishes (at v m s)
  from_main free s (inl none_there) going ready = rest s none_there going ready
  from_main free s (inr (full, _)) going ready = from_full s full going ready
  from_main showing s (full, _) going ready = from_showing s full going ready
  from_main showed s full going ready = from_showed s full going ready

pub from_idle :
    (t : Pictures) → t.pictq_size ≡ pos 0 → t.quit ≡ false → IsReady t → Finishes (at idle free t)
unfolding moves
from_idle t none_there going ready = ([], t, refl, none_there, (refl, refl))

-- The video thread puts what it has in hand into the place.
module _ (p : ℕ) (s : Pictures) (none_there : s.pictq_size ≡ pos 0) (going : s.quit ≡ false) where
  pub from_wrote : IsReady s → Finishes (at (wrote p) free s)
  unfolding move video_move
  from_wrote ready =
      let t = record s { pictq_size = s.pictq_size +ℤ pos 1 } in
      by_move video_goes (at (wrote p) free s) (at idle free t) refl (refl, refl)
        (from_full idle from_idle t (size_one s.pictq_size none_there) going ready)
