-- ===== src/Video/Pictures/Order.antt =====
-- plugins/video.c: each move of a thread keeps what holds of the next picture.
use wallyd.Common.{ℕ, ◌≡◌, refl, ◌⊎◌, inl, inr, Bool, false, Option, arith}
use wallyd.Common.Int.{ℤ, pos, ◌-ℤ◌}
use wallyd.Video.Pictures.{
  VideoPc, idle, wants, has_space, waits_alloc, placing, writing, wrote, ended, MainPc, free,
  showing, showed, Pictures, Move, decodes, video_goes, main_goes, refreshes, allocates, quits,
  is_empty, video_move, main_move, video_refresh_timer, alloc_picture, move, Reach, start, later,
}
use wallyd.Video.Pictures.Invariant.{
  in_hand, in_place, VideoOk, IsFine, at, wrote-order, size_one, show-order, size_less, leave-order,
  begin-order, decodes-order,
}

video_move-IsFine :
    (v : VideoPc) (m : MainPc) (s : Pictures) → IsFine (at v m s) → IsFine (video_move v (at v m s))
unfolding video_move
video_move-IsFine idle m s h = h
video_move-IsFine (wants p) free s h = ground arith
video_move-IsFine (wants p) showing s h = ground arith
video_move-IsFine (wants p) showed s h = ground arith
video_move-IsFine (has_space p) m s h = ground arith
video_move-IsFine (waits_alloc p) m s h = ground arith
video_move-IsFine (placing p) m s h = ground arith
video_move-IsFine (writing p) free s h = ground arith
video_move-IsFine (writing p) showing s h = ground arith
video_move-IsFine (writing p) showed s h = ground arith
video_move-IsFine (wrote p) free s h =
    let (quiet, size, here) = h.video_ok in
    record {
      video_ok = quiet;
      main_ok = inr (size_one s.pictq_size size, (p, here));
      ready = h.ready;
      read = h.read;
      written = h.written;
      order = wrote-order s.frames s.taken s.pictq_size s.picture p size here h.order;
    }
video_move-IsFine (wrote p) showing s h = ground arith
video_move-IsFine (wrote p) showed s h = ground arith
video_move-IsFine (ended p) m s h = h

-- While a picture waits or is shown, the video thread only waits.
VideoOk-left :
    (v : VideoPc) (size : ℤ) (posted : ℕ) (allocated raw : Bool) (picture : Option ℕ)
    → size ≡ pos 1
    → VideoOk v size posted allocated raw picture
    → VideoOk v (size -ℤ pos 1) posted allocated raw picture
VideoOk-left idle size n a r o full h = h
VideoOk-left (wants p) size n a r o full h = h
VideoOk-left (has_space p) size n a r o full h = absurd (ground arith)
VideoOk-left (waits_alloc p) size n a r o full h = absurd (ground arith)
VideoOk-left (placing p) size n a r o full h = absurd (ground arith)
VideoOk-left (writing p) size n a r o full h = absurd (ground arith)
VideoOk-left (wrote p) size n a r o full h = absurd (ground arith)
VideoOk-left (ended p) size n a r o full h = inr (size_less size full)

main_move-IsFine :
    (v : VideoPc) (m : MainPc) (s : Pictures) → IsFine (at v m s) → IsFine (main_move m (at v m s))
unfolding main_move
main_move-IsFine v free s h = h
main_move-IsFine v showing s h =
    let (full, (p, here)) = h.main_ok in
    record {
      video_ok = h.video_ok;
      main_ok = full;
      ready = h.ready;
      read = ground (arith, h.read);
      written = h.written;
      order = show-order s.frames s.taken (in_hand v) s.picture p s.pictq_size here h.order;
    }
main_move-IsFine v showed s h = record {
  video_ok =
      VideoOk-left v s.pictq_size s.posted s.allocated s.rawdata s.picture h.main_ok h.video_ok;
  main_ok = inl (size_less s.pictq_size h.main_ok);
  ready = h.ready;
  read = h.read;
  written = h.written;
  order = leave-order s.frames s.taken (in_hand v) s.picture s.pictq_size h.main_ok h.order;
}

showing-IsFine :
    (v : VideoPc) (s : Pictures)
    → is_empty s.pictq_size ≡ false
    → IsFine (at v free s)
    → IsFine (at v showing s)
showing-IsFine v s some_there h = elim h.main_ok [
  | inl none_there ↦ absurd (ground arith)
  | inr (full, here) ↦ record {
    video_ok = h.video_ok;
    main_ok = (full, here);
    ready = h.ready;
    read = h.read;
    written = h.written;
    order = begin-order s.frames s.taken (in_hand v) s.picture s.pictq_size some_there h.order;
  }
]

refresh_free :
    (paused : Bool) (v : VideoPc) (s : Pictures)
    → (video_refresh_timer paused (at v free s) ≡ at v free s)
      ⊎ ((video_refresh_timer paused (at v free s) ≡ at v showing s)
          × (is_empty s.pictq_size ≡ false))
unfolding video_refresh_timer
refresh_free paused v s = ground arith

refresh-IsFine :
    (paused : Bool) (v : VideoPc) (m : MainPc) (s : Pictures)
    → IsFine (at v m s)
    → IsFine (video_refresh_timer paused (at v m s))
unfolding video_refresh_timer
refresh-IsFine paused v free s h = elim (refresh_free paused v s) [
  | inl same ↦ rw same h
  | inr (shows, some_there) ↦ rw shows (showing-IsFine v s some_there h)
]
refresh-IsFine paused v showing s h = h
refresh-IsFine paused v showed s h = h

alloc-IsFine :
    (created : Bool) (v : VideoPc) (m : MainPc) (s : Pictures)
    → IsFine (at v m s)
    → IsFine (alloc_picture created (at v m s))
unfolding alloc_picture
alloc-IsFine created idle free s h = ground arith
alloc-IsFine created (wants p) free s h = ground arith
alloc-IsFine created (has_space p) free s h = ground arith
alloc-IsFine created (waits_alloc p) free s h = ground arith
alloc-IsFine created (placing p) free s h = ground arith
alloc-IsFine created (writing p) free s h = ground arith
alloc-IsFine created (wrote p) free s h = ground arith
alloc-IsFine created (ended p) free s h = ground arith
alloc-IsFine created v showing s h = h
alloc-IsFine created v showed s h = h

decodes-IsFine :
    (p : ℕ) (v : VideoPc) (m : MainPc) (s : Pictures)
    → IsFine (at v m s)
    → IsFine (move (decodes p) (at v m s))
unfolding move
decodes-IsFine p idle m s h = record {
  video_ok = h.video_ok;
  main_ok = h.main_ok;
  ready = h.ready;
  read = h.read;
  written = h.written;
  order = decodes-order s.frames s.taken (in_place m s.pictq_size s.picture) p h.order;
}
decodes-IsFine p (wants q) m s h = h
decodes-IsFine p (has_space q) m s h = h
decodes-IsFine p (waits_alloc q) m s h = h
decodes-IsFine p (placing q) m s h = h
decodes-IsFine p (writing q) m s h = h
decodes-IsFine p (wrote q) m s h = h
decodes-IsFine p (ended q) m s h = h

quits-IsFine :
    (v : VideoPc) (m : MainPc) (s : Pictures) → IsFine (at v m s) → IsFine (move quits (at v m s))
unfolding move
quits-IsFine v m s h = record {
  video_ok = h.video_ok;
  main_ok = h.main_ok;
  ready = h.ready;
  read = h.read;
  written = h.written;
  order = h.order;
}

-- Each move of a thread keeps what holds.
move-IsFine : (m : Move) (s : Pictures) → IsFine s → IsFine (move m s)
unfolding move
move-IsFine (decodes p) s h = decodes-IsFine p s.video s.main s h
move-IsFine video_goes s h = video_move-IsFine s.video s.main s h
move-IsFine main_goes s h = main_move-IsFine s.video s.main s h
move-IsFine (refreshes paused) s h = refresh-IsFine paused s.video s.main s h
move-IsFine (allocates created) s h = alloc-IsFine created s.video s.main s h
move-IsFine quits s h = quits-IsFine s.video s.main s h

pub Reach-IsFine : {s : Pictures} → Reach s → IsFine s
Reach-IsFine (start texture) = record {
  video_ok = refl;
  main_ok = inl refl;
  ready = inl refl;
  read = refl;
  written = refl;
  order = refl;
}
Reach-IsFine (later {s} m r) = move-IsFine m s (Reach-IsFine r)
