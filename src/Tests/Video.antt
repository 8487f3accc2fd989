-- ===== src/Tests/Video.antt =====
-- The queues of the video player at small inputs.
use wallyd.Common.{
  ◌≡◌, refl, true, false, none, some, List, [], ◌∷◌, ◌++◌, arith, if◌then◌else◌, done,
}
use wallyd.Common.Int.{pos}
use wallyd.Video.Packets.{Packet, packet_queue_init}
use wallyd.Video.Packets.Linked.{Cells}
use wallyd.Video.Decode.{Flags, Player, packet, Step, reads, video_gets, Seen, play}
use wallyd.Video.Decode.Spec.{Lists, spec_play}
use wallyd.Video.Decode.Pairs.{IsPair}
use wallyd.Video.Decode.Refined.{Refines, packets, play-spec_play}
use wallyd.Video.Decode.Fifo.{came_video, left_video, came_audio, left_audio, play_fifo}
use wallyd.Video.Decode.Ending.{failed_reads, play_failed_quits}
use wallyd.Video.Pictures.{
  free, Pictures, decodes, video_goes, allocates, move, first_state, Reach, start, later,
}
use wallyd.Video.Pictures.Invariant.{in_hand, in_place}
use wallyd.Video.Pictures.Safety.{pictures_in_order, writing_excludes}

-- Stream 0 is the pictures, stream 1 the sound.
abbrev playing : Flags
playing = record {
  quit = false;
  play_video = true;
  pause = false;
  decoding = true;
  video_stream = some 0;
  audio_stream = some 1;
  read_frame_fail = 0;
}

abbrev player : Player
player = record {
  flags = playing;
  memory = record { node = λ _. none; fresh = 0 };
  audioq = packet_queue_init;
  videoq = packet_queue_init;
}

abbrev no_lists : Lists
no_lists = record { flags = playing; audio = []; video = [] }

starts_empty : Refines player no_lists
unfolding packet_queue_init
starts_empty = record {
  audio_cells = [];
  video_cells = [];
  pair = record {
    one = record { first = refl; last = refl; count = refl; total = refl; linked = tt; below = tt };
    other = record {
      first = refl;
      last = refl;
      count = refl;
      total = refl;
      linked = tt;
      below = tt;
    };
    apart = tt;
    apart' = tt;
    sized = tt;
    sized' = tt;
    total = omega arith;
    total' = omega arith;
  };
  flags = refl;
  audio = refl;
  video = refl;
}

abbrev a_picture : Packet
a_picture = record { stream_index = 0; size = 900; content = 1 }

abbrev a_sound : Packet
a_sound = record { stream_index = 1; size = 64; content = 2 }

abbrev a_schedule : List Step
a_schedule = reads (packet true a_picture) ∷ reads (packet true a_sound) ∷ video_gets ∷ []

play-spec_play_example :
    (t : Player) × (play a_schedule player ≡ done ((spec_play a_schedule no_lists).0, t))
    × Refines t (spec_play a_schedule no_lists).1
play-spec_play_example =
    play-spec_play a_schedule player no_lists starts_empty
      ((omega arith, omega arith), ((omega arith, omega arith), (tt, tt)))

play_fifo_example :
    (seen : List Seen) × (t : Player) × (vs : Cells) × (as' : Cells) × (play a_schedule player
      ≡ done (seen, t))
    × IsPair t.memory t.audioq t.videoq as' vs
    × ([] ++ came_video seen ≡ left_video seen ++ packets vs)
    × ([] ++ came_audio seen ≡ left_audio seen ++ packets as')
play_fifo_example =
    play_fifo a_schedule player no_lists starts_empty
      ((omega arith, omega arith), ((omega arith, omega arith), (tt, tt)))

play_failed_quits_example :
    (t : Player) × (play (failed_reads 33) player ≡ done ([], t)) × (t.flags.quit ≡ true)
unfolding packet_queue_init
play_failed_quits_example = play_failed_quits 33 player refl refl refl (omega arith) (omega arith)

-- One picture is decoded, and on its way into the place, which was allocated for it.
abbrev at_start : Pictures
at_start = record first_state { has_texture = true }

abbrev on_its_way : Pictures
on_its_way = move video_goes (
    move video_goes
      (move (allocates true) (move video_goes (move video_goes (move (decodes 5) at_start)))))

reaches : Reach on_its_way
reaches = later video_goes (
    later video_goes (
      later (allocates true)
        (later video_goes (later video_goes (later (decodes 5) (start true))))))

pictures_in_order_example :
    (on_its_way.frames
      ≡ on_its_way.taken
        ++ in_place on_its_way.main on_its_way.pictq_size on_its_way.picture
        ++ in_hand on_its_way.video)
    × (on_its_way.shown ≡ (if on_its_way.has_texture then on_its_way.taken else []))
pictures_in_order_example = pictures_in_order on_its_way reaches

writing_excludes_example :
    (on_its_way.main ≡ free) × (on_its_way.rawdata ≡ true) × (on_its_way.pictq_size ≡ pos 0)
unfolding move
writing_excludes_example = writing_excludes on_its_way reaches refl
