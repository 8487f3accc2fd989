-- ===== src/Video/Decode/Fifo.antt =====
-- plugins/video.c: packets leave a queue in the order in which they came.
use wallyd.Common.{
  ◌≡◌, refl, ap, Bool, true, false, List, [], ◌∷◌, ◌++◌, append_assoc, append-nil, arith, All, done,
}
use wallyd.Video.Packets.{Packet}
use wallyd.Video.Packets.Linked.{Cells}
use wallyd.Video.Decode.{
  Player, Read, packet, no_packet, read_error, Step, reads, video_gets, audio_gets, shown,
  set_pause, stop, Seen, to_video, to_audio, from_video, from_audio, play,
}
use wallyd.Video.Decode.Spec.{Lists, spec_store, spec_read, spec_round, spec_step, spec_play}
use wallyd.Video.Decode.Pairs.{IsPair}
use wallyd.Video.Decode.Refined.{Refines, IsSizedStep, packets, play-spec_play}

-- The packets that came into a queue, and those that left it.
abbrev pub came_video : List Seen → List Packet
came_video [] = []
came_video (to_video p ∷ xs) = p ∷ came_video xs
came_video (to_audio p ∷ xs) = came_video xs
came_video (from_video p ∷ xs) = came_video xs
came_video (from_audio p ∷ xs) = came_video xs

abbrev pub left_video : List Seen → List Packet
left_video [] = []
left_video (to_video p ∷ xs) = left_video xs
left_video (to_audio p ∷ xs) = left_video xs
left_video (from_video p ∷ xs) = p ∷ left_video xs
left_video (from_audio p ∷ xs) = left_video xs

abbrev pub came_audio : List Seen → List Packet
came_audio [] = []
came_audio (to_video p ∷ xs) = came_audio xs
came_audio (to_audio p ∷ xs) = p ∷ came_audio xs
came_audio (from_video p ∷ xs) = came_audio xs
came_audio (from_audio p ∷ xs) = came_audio xs

abbrev pub left_audio : List Seen → List Packet
left_audio [] = []
left_audio (to_video p ∷ xs) = left_audio xs
left_audio (to_audio p ∷ xs) = left_audio xs
left_audio (from_video p ∷ xs) = left_audio xs
left_audio (from_audio p ∷ xs) = p ∷ left_audio xs

came_video-append : (xs ys : List Seen) → came_video (xs ++ ys) ≡ came_video xs ++ came_video ys
came_video-append [] ys = refl
came_video-append (to_video p ∷ xs) ys = ap (λ r. p ∷ r) (came_video-append xs ys)
came_video-append (to_audio p ∷ xs) ys = came_video-append xs ys
came_video-append (from_video p ∷ xs) ys = came_video-append xs ys
came_video-append (from_audio p ∷ xs) ys = came_video-append xs ys

left_video-append : (xs ys : List Seen) → left_video (xs ++ ys) ≡ left_video xs ++ left_video ys
left_video-append [] ys = refl
left_video-append (to_video p ∷ xs) ys = left_video-append xs ys
left_video-append (to_audio p ∷ xs) ys = left_video-append xs ys
left_video-append (from_video p ∷ xs) ys = ap (λ r. p ∷ r) (left_video-append xs ys)
left_video-append (from_audio p ∷ xs) ys = left_video-append xs ys

came_audio-append : (xs ys : List Seen) → came_audio (xs ++ ys) ≡ came_audio xs ++ came_audio ys
came_audio-append [] ys = refl
came_audio-append (to_video p ∷ xs) ys = came_audio-append xs ys
came_audio-append (to_audio p ∷ xs) ys = ap (λ r. p ∷ r) (came_audio-append xs ys)
came_audio-append (from_video p ∷ xs) ys = came_audio-append xs ys
came_audio-append (from_audio p ∷ xs) ys = came_audio-append xs ys

left_audio-append : (xs ys : List Seen) → left_audio (xs ++ ys) ≡ left_audio xs ++ left_audio ys
left_audio-append [] ys = refl
left_audio-append (to_video p ∷ xs) ys = left_audio-append xs ys
left_audio-append (to_audio p ∷ xs) ys = left_audio-append xs ys
left_audio-append (from_video p ∷ xs) ys = left_audio-append xs ys
left_audio-append (from_audio p ∷ xs) ys = ap (λ r. p ∷ r) (left_audio-append xs ys)

-- What was there and what came is what left and what is there.
abbrev Balanced : Lists → List Seen × Lists → Type 0
Balanced l x =
    (l.video ++ came_video x.0 ≡ left_video x.0 ++ x.1.video)
    × (l.audio ++ came_audio x.0 ≡ left_audio x.0 ++ x.1.audio)

quiet : (l : Lists) → Balanced l ([], l)
quiet l = (append-nil l.video, append-nil l.audio)

spec_store-Balanced : (room : Bool) (k : Packet) (l : Lists) → Balanced l (spec_store room k l)
unfolding spec_store
spec_store-Balanced true k l = ground (arith, append-nil l.video, append-nil l.audio)
spec_store-Balanced false k l = ground (arith, append-nil l.video, append-nil l.audio)

spec_read-Balanced : (r : Read) (l : Lists) → Balanced l (spec_read r l)
unfolding spec_read
spec_read-Balanced (packet room k) l = spec_store-Balanced room k l
spec_read-Balanced no_packet l = quiet l
spec_read-Balanced read_error l = quiet l

spec_round-Balanced : (r : Read) (l : Lists) → Balanced l (spec_round r l)
unfolding spec_round
spec_round-Balanced r l =
    ground (arith, append-nil l.video, append-nil l.audio, spec_read-Balanced r l)

spec_step-Balanced : (x : Step) (l : Lists) → Balanced l (spec_step x l)
unfolding spec_step
spec_step-Balanced (reads r) l = spec_round-Balanced r l
spec_step-Balanced video_gets l = ground (arith, append-nil l.video, append-nil l.audio)
spec_step-Balanced audio_gets l = ground (arith, append-nil l.video, append-nil l.audio)
spec_step-Balanced shown l = quiet l
spec_step-Balanced (set_pause b) l = quiet l
spec_step-Balanced stop l = quiet l

-- One step after the other, for one of the two lists.
balanced_trans :
    (old mid new came came' left left' : List Packet)
    → old ++ came ≡ left ++ mid
    → mid ++ came' ≡ left' ++ new
    → old ++ (came ++ came') ≡ (left ++ left') ++ new
balanced_trans old mid new came came' left left' p q =
    cc (append_assoc old came came', append_assoc left mid came', append_assoc left left' new, p, q)

spec_play-Balanced : (xs : List Step) (l : Lists) → Balanced l (spec_play xs l)
unfolding spec_play
spec_play-Balanced [] l = quiet l
spec_play-Balanced (x ∷ xs) l =
    let (v, a) = spec_step-Balanced x l in
    let (v', a') = spec_play-Balanced xs (spec_step x l).1 in
    let first = (spec_step x l).0 in
    let more = (spec_play xs (spec_step x l).1).0 in
    (
      rw (came_video-append first more, left_video-append first more)
          (balanced_trans l.video (spec_step x l).1.video _ (came_video first) (came_video more)
            (left_video first) (left_video more) v v'),
      rw (came_audio-append first more, left_audio-append first more)
          (balanced_trans l.audio (spec_step x l).1.audio _ (came_audio first) (came_audio more)
            (left_audio first) (left_audio more) a a'),
    )

-- Whatever the order in which the threads go on, with packets of sizes that can be counted: the
-- packets that were in a queue, and after them those that came into it, are those that left it, and
-- after them those that are still in it, in the same order. No packet is lost, doubled or overtaken,
-- and none comes into the other queue.
pub play_fifo :
    (xs : List Step) (s : Player) (l : Lists)
    → Refines s l
    → All IsSizedStep xs
    → (seen : List Seen) × (t : Player) × (vs : Cells) × (as' : Cells) × (play xs s
        ≡ done (seen, t))
      × IsPair t.memory t.audioq t.videoq as' vs
      × (l.video ++ came_video seen ≡ left_video seen ++ packets vs)
      × (l.audio ++ came_audio seen ≡ left_audio seen ++ packets as')
play_fifo xs s l h are_xs =
    let (t, ran, h') = play-spec_play xs s l h are_xs in
    let (v, a) = spec_play-Balanced xs l in
    (
      (spec_play xs l).0,
      t,
      h'.video_cells,
      h'.audio_cells,
      ran,
      h'.pair,
      rw h'.video v,
      rw h'.audio a,
    )
