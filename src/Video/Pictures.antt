-- ===== src/Video/Pictures.antt =====
-- plugins/video.c: the place for the next picture, which the video thread fills (queue_picture) and the
-- main thread shows (video_refresh_timer) and allocates (alloc_picture). A move is what one thread does
-- up to the next point at which the other may have changed what it looks at. `frames`, `taken` and
-- `shown` are, by their times, the pictures that were decoded, those that the main thread took from the
-- place, and those of them that were shown: video_display shows one only where there is a texture. It is taken as given that
-- there is memory for a picture when it is allocated, and that to unlock a mutex that is not locked has
-- no effect. Whether a call that is posted is ever run is left to the schedule.
pub mod Invariant
pub mod Order
pub mod Shown
pub mod Safety
pub mod Drain
pub mod Progress
use wallyd.Common.{
  ℕ, ◌+◌, ◌-◌, Bool, true, false, not, ◌&&◌, ◌||◌, Option, none, some, List, [], ◌∷◌, ◌++◌, leb,
  ◌==◌, if◌then◌else◌,
}
use wallyd.Common.Int.{ℤ, pos, negsuc, ◌+ℤ◌, ◌-ℤ◌}

abbrev pub video_picture_queue_size : ℕ
video_picture_queue_size = 1

-- Where the video thread stands, with the picture that it has in hand.
pub data VideoPc : Type 0 where
  idle : VideoPc
  wants : ℕ → VideoPc  -- waits for a place
  has_space : ℕ → VideoPc
  waits_alloc : ℕ → VideoPc
  placing : ℕ → VideoPc
  writing : ℕ → VideoPc  -- in sws_scale
  wrote : ℕ → VideoPc  -- before pictq_size++
  ended : ℕ → VideoPc  -- has returned -1

-- Where the main thread stands.
pub data MainPc : Type 0 where
  free : MainPc
  showing : MainPc  -- in video_display
  showed : MainPc  -- before pictq_size--

pub record Pictures : Type 0 where
  pub video : VideoPc
  pub main : MainPc
  pub pictq_size : ℤ
  pub pictq_rindex : ℕ
  pub pictq_windex : ℕ
  pub rawdata : Bool  -- whether it is not NULL
  pub picture : Option ℕ  -- what is written there
  pub allocated : Bool
  pub new_texture : Bool
  pub has_texture : Bool
  pub posted : ℕ  -- calls of alloc_picture that the main thread has not run
  pub quit : Bool
  pub frames : List ℕ
  pub taken : List ℕ
  pub shown : List ℕ

-- A picture is decoded; the video thread goes on; the main thread goes on, or begins to show a
-- picture unless the player is paused, or runs alloc_picture, where SDL makes a texture or not; the
-- player is told to quit.
pub data Move : Type 0 where
  decodes : ℕ → Move
  video_goes : Move
  main_goes : Move
  refreshes : (paused : Bool) → Move
  allocates : (created : Bool) → Move
  quits : Move

abbrev pub is_full : ℤ → Bool
is_full (pos n) = leb video_picture_queue_size n
is_full (negsuc n) = false

abbrev pub is_empty : ℤ → Bool
is_empty (pos n) = n == 0
is_empty (negsuc n) = false

abbrev pub next_index : ℕ → ℕ
next_index n = if n + 1 == video_picture_queue_size then 0 else n + 1

abbrev pub quit_or : VideoPc → ℕ → Bool → VideoPc
quit_or pc p quit = if quit then ended p else pc

-- queue_picture
unfoldable pub video_move : VideoPc → Pictures → Pictures
video_move idle s = s
video_move (wants p) s =
    if is_full s.pictq_size && not s.quit
    then s
    else record s { video = quit_or (has_space p) p s.quit }
video_move (has_space p) s =
    if not s.has_texture || s.new_texture
    then record s { allocated = false; posted = s.posted + 1; video = waits_alloc p }
    else record s { video = quit_or (placing p) p s.quit }
video_move (waits_alloc p) s =
    if not s.allocated && not s.quit then s else record s { video = quit_or (placing p) p s.quit }
video_move (placing p) s = record s { video = if s.rawdata then writing p else idle }
video_move (writing p) s = record s {
  picture = some p;
  pictq_windex = next_index s.pictq_windex;
  video = wrote p;
}
video_move (wrote p) s = record s { pictq_size = s.pictq_size +ℤ pos 1; video = idle }
video_move (ended p) s = s

-- What is shown of a place that nothing was written to is none.
abbrev pub show_picture : Option ℕ → List ℕ → List ℕ
show_picture none ps = ps
show_picture (some p) ps = ps ++ p ∷ []

-- The pictures that are shown, where there is a texture or not.
abbrev pub video_display : Bool → Option ℕ → List ℕ → List ℕ
video_display texture picture ps = if texture then show_picture picture ps else ps

-- video_refresh_timer, once it has a picture to show
unfoldable pub main_move : MainPc → Pictures → Pictures
main_move free s = s
main_move showing s = record s {
  taken = show_picture s.picture s.taken;
  shown = video_display s.has_texture s.picture s.shown;
  pictq_rindex = next_index s.pictq_rindex;
  main = showed;
}
main_move showed s = record s { pictq_size = s.pictq_size -ℤ pos 1; main = free }

abbrev pub is_free : MainPc → Bool
is_free free = true
is_free showing = false
is_free showed = false

unfoldable pub video_refresh_timer : Bool → Pictures → Pictures
video_refresh_timer paused s =
    if is_free s.main && not paused && not s.quit && not (is_empty s.pictq_size)
    then record s { main = showing }
    else s

-- The main thread takes one call of alloc_picture that was posted.
unfoldable pub alloc_picture : Bool → Pictures → Pictures
alloc_picture created s =
    if is_free s.main && not (s.posted == 0)
    then record s {
      posted = s.posted - 1;
      has_texture = if s.new_texture then created else s.has_texture;
      new_texture = false;
      rawdata = true;
      picture = none;
      allocated = true;
    }
    else s

abbrev pub is_idle : VideoPc → Bool
is_idle idle = true
is_idle (wants p) = false
is_idle (has_space p) = false
is_idle (waits_alloc p) = false
is_idle (placing p) = false
is_idle (writing p) = false
is_idle (wrote p) = false
is_idle (ended p) = false

unfoldable pub move : Move → Pictures → Pictures
unfolding video_move main_move video_refresh_timer alloc_picture
move (decodes p) s =
    if is_idle s.video then record s { video = wants p; frames = s.frames ++ p ∷ [] } else s
move video_goes s = video_move s.video s
move main_goes s = main_move s.main s
move (refreshes paused) s = video_refresh_timer paused s
move (allocates created) s = alloc_picture created s
move quits s = record s { quit = true }

-- What initVariables leaves.
abbrev pub first_state : Pictures
first_state = record {
  video = idle;
  main = free;
  pictq_size = pos 0;
  pictq_rindex = 0;
  pictq_windex = 0;
  rawdata = false;
  picture = none;
  allocated = false;
  new_texture = true;
  has_texture = false;
  posted = 0;
  quit = false;
  frames = [];
  taken = [];
  shown = [];
}

-- The states that the threads can come to, however they take turns.
pub data Reach : Pictures → Type 0 where
  start : (texture : Bool) → Reach (record first_state { has_texture = texture })
  later : {s : Pictures} (m : Move) → Reach s → Reach (move m s)
