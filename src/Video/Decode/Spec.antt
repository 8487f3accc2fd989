-- ===== src/Video/Decode/Spec.antt =====
-- What the queues of the video player are for: two lists of packets, from which is taken in the order
-- in which was put.
use wallyd.Common.{
  ℕ, ◌+◌, Bool, true, false, not, ◌||◌, Option, none, some, List, [], ◌∷◌, ◌++◌, ltb, if◌then◌else◌,
}
use wallyd.Video.Packets.{Packet}
use wallyd.Video.Decode.{
  Flags, Read, packet, no_packet, read_error, Step, reads, video_gets, audio_gets, shown, set_pause,
  stop, Seen, to_video, to_audio, from_video, from_audio, max_audio_size, max_video_size, is_stream,
  if_room, count_fail, end_loop, is_over, stop_video,
}

pub record Lists : Type 0 where
  pub flags : Flags
  pub audio : List Packet
  pub video : List Packet

abbrev pub bytes : List Packet → ℕ
bytes [] = 0
bytes (p ∷ ps) = p.size + bytes ps

abbrev pub with_room : Bool → Packet → List Packet → List Packet
with_room room pkt ps = if room then ps ++ pkt ∷ [] else ps

unfoldable pub spec_store : Bool → Packet → Lists → List Seen × Lists
spec_store room pkt s =
    if is_stream pkt s.flags.video_stream
    then (if_room room (to_video pkt), record s { video = with_room room pkt s.video })
    else if is_stream pkt s.flags.audio_stream
    then (if_room room (to_audio pkt), record s { audio = with_room room pkt s.audio })
    else ([], s)

unfoldable pub spec_read : Read → Lists → List Seen × Lists
spec_read (packet room pkt) s = spec_store room pkt s
spec_read no_packet s = ([], record s { flags = count_fail s.flags })
spec_read read_error s = ([], record s { flags = end_loop s.flags })

unfoldable pub spec_round : Read → Lists → List Seen × Lists
spec_round r s =
    if not s.flags.decoding
    then ([], s)
    else if is_over s.flags
    then ([], record s { flags = end_loop s.flags })
    else if s.flags.pause
    then ([], s)
    else if ltb max_audio_size (bytes s.audio) || ltb max_video_size (bytes s.video)
    then ([], s)
    else spec_read r s

-- The first packet, unless the player is to quit, and the others.
abbrev pub take_first : Bool → List Packet → Option Packet × List Packet
take_first true ps = (none, ps)
take_first false [] = (none, [])
take_first false (p ∷ ps) = (some p, ps)

abbrev pub as_list : (Packet → Seen) → Option Packet → List Seen
as_list from none = []
as_list from (some p) = from p ∷ []

unfoldable pub spec_step : Step → Lists → List Seen × Lists
unfolding stop_video
spec_step (reads r) s = spec_round r s
spec_step video_gets s =
    let (p, ps) = take_first s.flags.quit s.video in (as_list from_video p, record s { video = ps })
spec_step audio_gets s =
    let (p, ps) = take_first s.flags.quit s.audio in (as_list from_audio p, record s { audio = ps })
spec_step shown s = ([], record s { flags = record s.flags { read_frame_fail = 0 } })
spec_step (set_pause b) s = ([], record s { flags = record s.flags { pause = b } })
spec_step stop s = ([], record s { flags = stop_video s.flags })

unfoldable pub spec_play : List Step → Lists → List Seen × Lists
unfolding spec_step
spec_play [] s = ([], s)
spec_play (x ∷ xs) s =
    ((spec_step x s).0 ++ (spec_play xs (spec_step x s).1).0, (spec_play xs (spec_step x s).1).1)
