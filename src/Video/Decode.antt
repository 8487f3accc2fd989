-- ===== src/Video/Decode.antt =====
-- plugins/video.c and plugins/sdlvideo.c: the thread that reads a file, the two that take packets, and
-- the commands that pause and stop the player. Each step of the schedule is a round of a loop, or a
-- command; what the file gives is an input.
pub mod Spec
pub mod Pairs
pub mod Refined
pub mod Fifo
pub mod Ending
use wallyd.Common.{
  ℕ, ◌+◌, ◌*◌, Bool, true, false, not, ◌||◌, Option, none, some, List, [], ◌∷◌, ◌++◌, ltb, ◌==◌,
  if◌then◌else◌, Outcome, done, ◌>>=◌,
}
use wallyd.Common.Int.{ℤ, pos, negsuc}
use wallyd.Video.Packets.{
  Packet, Memory, PacketQueue, packet_queue_put, Got, quitting, got, nothing, waits, get_round,
}

abbrev pub max_audio_size : ℕ
max_audio_size = 5 * 16 * 1024

abbrev pub max_video_size : ℕ
max_video_size = 5 * 256 * 1024

abbrev pub video_fail_packets : ℕ
video_fail_packets = 32

-- What the threads tell one another; a stream that was not found is none. `decoding` is whether the
-- thread that reads is in its loop.
pub record Flags : Type 0 where
  pub quit : Bool
  pub play_video : Bool
  pub pause : Bool
  pub decoding : Bool
  pub video_stream : Option ℕ
  pub audio_stream : Option ℕ
  pub read_frame_fail : ℕ

pub record Player : Type 0 where
  pub flags : Flags
  pub memory : Memory
  pub audioq : PacketQueue
  pub videoq : PacketQueue

-- What av_read_frame gives: a packet, for which there is room in memory or not; none although there
-- was no error; or an error.
pub data Read : Type 0 where
  packet : (room : Bool) → Packet → Read
  no_packet : Read
  read_error : Read

pub data Step : Type 0 where
  reads : Read → Step
  video_gets : Step
  audio_gets : Step
  shown : Step
  set_pause : Bool → Step
  stop : Step

-- What goes into a queue and what comes out of it.
pub data Seen : Type 0 where
  to_video : Packet → Seen
  to_audio : Packet → Seen
  from_video : Packet → Seen
  from_audio : Packet → Seen

abbrev pub is_stream : Packet → Option ℕ → Bool
is_stream pkt none = false
is_stream pkt (some n) = pkt.stream_index == n

abbrev pub exceeds : ℤ → ℕ → Bool
exceeds (pos n) limit = ltb limit n
exceeds (negsuc n) limit = false

abbrev pub if_room : Bool → Seen → List Seen
if_room room x = if room then x ∷ [] else []

-- The result of packet_queue_put is not looked at.
unfoldable pub store_video : Bool → Packet → Player → Outcome (List Seen × Player)
store_video room pkt s = packet_queue_put room pkt s.videoq s.memory >>= λ (r, q, m).
    done (if_room room (to_video pkt), record s { videoq = q; memory = m })

unfoldable pub store_audio : Bool → Packet → Player → Outcome (List Seen × Player)
store_audio room pkt s = packet_queue_put room pkt s.audioq s.memory >>= λ (r, q, m).
    done (if_room room (to_audio pkt), record s { audioq = q; memory = m })

unfoldable pub store_packet : Bool → Packet → Player → Outcome (List Seen × Player)
store_packet room pkt s =
    if is_stream pkt s.flags.video_stream
    then store_video room pkt s
    else if is_stream pkt s.flags.audio_stream
    then store_audio room pkt s
    else done ([], s)

-- After too many reads without a packet the player quits.
abbrev pub count_fail : Flags → Flags
count_fail f = record f {
  read_frame_fail = f.read_frame_fail + 1;
  quit = f.quit || ltb video_fail_packets (f.read_frame_fail + 1);
}

-- The thread ends, and tells the others to quit.
abbrev pub end_loop : Flags → Flags
end_loop f = record f { decoding = false; quit = true }

abbrev pub is_over : Flags → Bool
is_over f = f.quit || not f.play_video

unfoldable pub read_round : Read → Player → Outcome (List Seen × Player)
unfolding store_packet
read_round (packet room pkt) s = store_packet room pkt s
read_round no_packet s = done ([], record s { flags = count_fail s.flags })
read_round read_error s = done ([], record s { flags = end_loop s.flags })

-- A round of the loop of decode_thread, which goes on without a read in a pause and while a queue has
-- enough.
unfoldable pub decode_round : Read → Player → Outcome (List Seen × Player)
unfolding read_round
decode_round r s =
    if not s.flags.decoding
    then done ([], s)
    else if is_over s.flags
    then done ([], record s { flags = end_loop s.flags })
    else if s.flags.pause
    then done ([], s)
    else if exceeds s.audioq.size max_audio_size || exceeds s.videoq.size max_video_size
    then done ([], s)
    else read_round r s

abbrev pub as_seen : (Packet → Seen) → Got → List Seen
as_seen f quitting = []
as_seen f (got pkt) = f pkt ∷ []
as_seen f nothing = []
as_seen f waits = []

unfoldable pub stop_video : Flags → Flags
stop_video f = record f { play_video = false; quit = true }

unfoldable pub get_video : Player → Outcome (List Seen × Player)
get_video s = get_round s.flags.quit true s.videoq s.memory >>= λ (g, q, m).
    done (as_seen from_video g, record s { videoq = q; memory = m })

unfoldable pub get_audio : Player → Outcome (List Seen × Player)
get_audio s = get_round s.flags.quit true s.audioq s.memory >>= λ (g, q, m).
    done (as_seen from_audio g, record s { audioq = q; memory = m })

unfoldable pub step : Step → Player → Outcome (List Seen × Player)
unfolding decode_round get_video get_audio stop_video
step (reads r) s = decode_round r s
step video_gets s = get_video s
step audio_gets s = get_audio s
-- video_refresh_timer shows a picture.
step shown s = done ([], record s { flags = record s.flags { read_frame_fail = 0 } })
step (set_pause b) s = done ([], record s { flags = record s.flags { pause = b } })
step stop s = done ([], record s { flags = stop_video s.flags })

unfoldable pub play : List Step → Player → Outcome (List Seen × Player)
unfolding step
play [] s = done ([], s)
play (x ∷ xs) s = step x s >>= λ (seen, t). play xs t >>= λ (more, u). done (seen ++ more, u)
