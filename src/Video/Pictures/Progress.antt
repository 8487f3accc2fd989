-- ===== src/Video/Pictures/Progress.antt =====
-- plugins/video.c: the two threads never wait for one another for ever.
use wallyd.Common.{◌-◌, Bool, true, false, none, if◌then◌else◌}
use wallyd.Video.Pictures.{
  VideoPc, idle, wants, has_space, waits_alloc, placing, writing, wrote, ended, Pictures,
}

-- What alloc_picture leaves.
abbrev with_place : Pictures → Pictures
with_place s = record s {
  posted = s.posted - 1;
  has_texture = if s.new_texture then true else s.has_texture;
  new_texture = false;
  rawdata = true;
  picture = none;
  allocated = true;
}

abbrev pub has_ended : VideoPc → Bool
has_ended idle = false
has_ended (wants p) = false
has_ended (has_space p) = false
has_ended (waits_alloc p) = false
has_ended (placing p) = false
has_ended (writing p) = false
has_ended (wrote p) = false
has_ended (ended p) = true
