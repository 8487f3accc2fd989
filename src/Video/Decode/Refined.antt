-- ===== src/Video/Decode/Refined.antt =====
-- plugins/video.c: the queues of the player, with their nodes and counters, do what two lists do.
use wallyd.Common.{
  ℕ, ◌+◌, ◌≤◌, ◌≡◌, refl, sym, ap, ◌∙◌, Bool, true, false, not, ◌||◌, none, List, [], ◌∷◌, ◌++◌,
  arith, ltb, if◌then◌else◌, All, Outcome, done,
}
use wallyd.Common.Int.{negsuc}
use mathlib.Core.Path.{ap₂}
use wallyd.Video.Packets.{
  Packet, Memory, PacketQueue, packet_queue_put, Got, got, waits, quitting, get_round,
}
use wallyd.Video.Packets.Linked.{Cells}
use wallyd.Video.Packets.Laws.{IsQueue, total_size}
use wallyd.Video.Decode.{
  Flags, Player, Read, packet, no_packet, read_error, Step, reads, video_gets, audio_gets, shown,
  set_pause, stop, Seen, to_video, to_audio, from_video, from_audio, max_audio_size, max_video_size,
  is_stream, if_room, count_fail, end_loop, exceeds, is_over, store_video, store_audio,
  store_packet, read_round, decode_round, get_video, get_audio, stop_video, as_seen, step, play,
}
use wallyd.Video.Decode.Spec.{
  Lists, take_first, as_list, bytes, with_room, spec_store, spec_read, spec_round, spec_step,
  spec_play,
}
use wallyd.Video.Decode.Pairs.{IsSized, IsPair, IsPair-swap, put-IsPair, get-IsPair}

abbrev pub packets : Cells → List Packet
packets [] = []
packets (c ∷ cs) = c.1 ∷ packets cs

bytes-packets : (cs : Cells) → bytes (packets cs) ≡ total_size cs
bytes-packets [] = refl
bytes-packets (c ∷ cs) = ap (λ n. c.1.size + n) (bytes-packets cs)

packets-append :
    (cs : Cells) (p : ℕ) (k : Packet) → packets (cs ++ (p, k) ∷ []) ≡ packets cs ++ k ∷ []
packets-append [] p k = refl
packets-append (c ∷ cs) p k = ap (λ ks. c.1 ∷ ks) (packets-append cs p k)

-- The player whose queues are the lists of `l`.
pub record Refines (s : Player) (l : Lists) : Type 0 where
  pub audio_cells : Cells
  pub video_cells : Cells
  pub pair : IsPair s.memory s.audioq s.videoq audio_cells video_cells
  pub flags : s.flags ≡ l.flags
  pub audio : packets audio_cells ≡ l.audio
  pub video : packets video_cells ≡ l.video

-- A packet of a step has a size that can be counted.
abbrev pub IsSizedStep : Step → Type 0
IsSizedStep (reads (packet room pkt)) = IsSized pkt
IsSizedStep (reads no_packet) = Unit
IsSizedStep (reads read_error) = Unit
IsSizedStep video_gets = Unit
IsSizedStep audio_gets = Unit
IsSizedStep shown = Unit
IsSizedStep (set_pause b) = Unit
IsSizedStep stop = Unit

-- A step returns what that of the lists does, and then the player's queues are the new lists.
abbrev Follows : Outcome (List Seen × Player) → List Seen × Lists → Type 0
Follows o x = (t : Player) × (o ≡ done (x.0, t)) × Refines t x.1

Refines-flags :
    (s : Player) (l : Lists) (f : Flags → Flags)
    → Refines s l
    → Refines (record s { flags = f s.flags }) (record l { flags = f l.flags })
Refines-flags s l f h = record {
  audio_cells = h.audio_cells;
  video_cells = h.video_cells;
  pair = h.pair;
  flags = ap f h.flags;
  audio = h.audio;
  video = h.video;
}

Follows-if :
    {b c : Bool} {o o' : Outcome (List Seen × Player)} {x x' : List Seen × Lists}
    → b ≡ c
    → Follows o x
    → (c ≡ false → Follows o' x')
    → Follows (if b then o else o') (if c then x else x')
Follows-if {c} {o} {o'} {x} {x'} e f g = rw e (by_test c f g)
  where
    by_test :
        (d : Bool)
        → Follows o x
        → (d ≡ false → Follows o' x')
        → Follows (if d then o else o') (if d then x else x')
    by_test true f g = f
    by_test false f g = g refl

put_no_room :
    (k : Packet) (q : PacketQueue) (m : Memory)
    → packet_queue_put false k q m ≡ done (negsuc 0, q, m)
unfolding packet_queue_put
put_no_room k q m = refl

store_video-Follows :
    (room : Bool) (k : Packet) (s : Player) (l : Lists)
    → Refines s l
    → IsSized k
    → bytes l.video ≤ max_video_size
    → Follows
        (store_video room k s)
        (if_room room (to_video k), record l { video = with_room room k l.video })
unfolding store_video
store_video-Follows false k s l h is_k small = (s, rw (put_no_room k s.videoq s.memory) refl, h)
store_video-Follows true k s l h is_k small =
    let (q, m, put, pair) =
      put-IsPair k s.videoq s.audioq s.memory h.video_cells h.audio_cells (IsPair-swap h.pair) is_k
        (rw (sym (bytes-packets h.video_cells), h.video) small) in
    (
      record s { videoq = q; memory = m },
      rw put refl,
      record {
        audio_cells = h.audio_cells;
        video_cells = h.video_cells ++ (s.memory.fresh, k) ∷ [];
        pair = IsPair-swap pair;
        flags = h.flags;
        audio = h.audio;
        video = rw (packets-append h.video_cells s.memory.fresh k, h.video) refl;
      },
    )

store_audio-Follows :
    (room : Bool) (k : Packet) (s : Player) (l : Lists)
    → Refines s l
    → IsSized k
    → bytes l.audio ≤ max_audio_size
    → Follows
        (store_audio room k s)
        (if_room room (to_audio k), record l { audio = with_room room k l.audio })
unfolding store_audio
store_audio-Follows false k s l h is_k small = (s, rw (put_no_room k s.audioq s.memory) refl, h)
store_audio-Follows true k s l h is_k small =
    let fits : total_size h.audio_cells ≤ max_video_size =
      rw (sym (bytes-packets h.audio_cells), h.audio) (omega arith) in
    let (q, m, put, pair) =
      put-IsPair k s.audioq s.videoq s.memory h.audio_cells h.video_cells h.pair is_k fits in
    (
      record s { audioq = q; memory = m },
      rw put refl,
      record {
        audio_cells = h.audio_cells ++ (s.memory.fresh, k) ∷ [];
        video_cells = h.video_cells;
        pair = pair;
        flags = h.flags;
        audio = rw (packets-append h.audio_cells s.memory.fresh k, h.audio) refl;
        video = h.video;
      },
    )

store_packet-Follows :
    (room : Bool) (k : Packet) (s : Player) (l : Lists)
    → Refines s l
    → IsSized k
    → bytes l.audio ≤ max_audio_size
    → bytes l.video ≤ max_video_size
    → Follows (store_packet room k s) (spec_store room k l)
unfolding store_packet spec_store
store_packet-Follows room k s l h is_k few_a few_v =
    Follows-if (ap (λ f. is_stream k f.video_stream) h.flags)
      (store_video-Follows room k s l h is_k few_v)
      (λ _.
        Follows-if (ap (λ f. is_stream k f.audio_stream) h.flags)
          (store_audio-Follows room k s l h is_k few_a) (λ _. (s, refl, h)))

read_round-Follows :
    (r : Read) (s : Player) (l : Lists)
    → Refines s l
    → IsSizedStep (reads r)
    → bytes l.audio ≤ max_audio_size
    → bytes l.video ≤ max_video_size
    → Follows (read_round r s) (spec_read r l)
unfolding read_round spec_read
read_round-Follows (packet room k) s l h is_r few_a few_v =
    store_packet-Follows room k s l h is_r few_a few_v
read_round-Follows no_packet s l h is_r few_a few_v = (_, refl, Refines-flags s l count_fail h)
read_round-Follows read_error s l h is_r few_a few_v = (_, refl, Refines-flags s l end_loop h)

exceeds-bytes :
    (q : PacketQueue) (m : Memory) (cs : Cells) (ps : List Packet) (limit : ℕ)
    → IsQueue m q cs
    → packets cs ≡ ps
    → exceeds q.size limit ≡ ltb limit (bytes ps)
exceeds-bytes q m cs ps limit h e = rw (h.total, sym (bytes-packets cs), e) refl

few_bytes :
    (l : Lists)
    → (ltb max_audio_size (bytes l.audio) || ltb max_video_size (bytes l.video)) ≡ false
    → (bytes l.audio ≤ max_audio_size) × (bytes l.video ≤ max_video_size)
few_bytes l h = ground arith

decode_round-Follows :
    (r : Read) (s : Player) (l : Lists)
    → Refines s l
    → IsSizedStep (reads r)
    → Follows (decode_round r s) (spec_round r l)
unfolding decode_round spec_round
decode_round-Follows r s l h is_r =
    Follows-if (ap (λ f. not f.decoding) h.flags) (s, refl, h)
      (λ _.
        Follows-if (ap is_over h.flags) (_, refl, Refines-flags s l end_loop h)
          (λ _.
            Follows-if (ap (λ f. f.pause) h.flags) (s, refl, h)
              (λ _.
                Follows-if
                  (ap₂ ◌||◌
                    (exceeds-bytes s.audioq s.memory h.audio_cells l.audio max_audio_size h.pair.one
                      h.audio)
                    (exceeds-bytes s.videoq s.memory h.video_cells l.video max_video_size
                      h.pair.other h.video))
                  (s, refl, h)
                  (λ few.
                    read_round-Follows r s l h is_r (few_bytes l few).0 (few_bytes l few).1))))

-- Taking a packet.
get_quit : (q : PacketQueue) (m : Memory) → get_round true true q m ≡ done (quitting, q, m)
unfolding get_round
get_quit q m = refl

get_empty :
    (q : PacketQueue) (m : Memory)
    → q.first_pkt ≡ none
    → get_round false true q m ≡ done (waits, q, m)
unfolding get_round
get_empty q m h = ground arith

-- A call that waits gives what the list of the queue has first.
record Taken (b : Bool) (r : PacketQueue) (ds : Cells) (m : Memory) (q : PacketQueue)
    (ps : List Packet) : Type 0 where
  gives : Got
  queue : PacketQueue
  memory : Memory
  cells : Cells
  round : get_round b true q m ≡ done (gives, queue, memory)
  seen : (from : Packet → Seen) → as_seen from gives ≡ as_list from (take_first b ps).0
  rest : packets cells ≡ (take_first b ps).1
  pair : IsPair memory queue r cells ds

get_round-Taken :
    (b : Bool) (q r : PacketQueue) (m : Memory) (cs ds : Cells)
    → IsPair m q r cs ds
    → Taken b r ds m q (packets cs)
get_round-Taken true q r m cs ds h = record {
  gives = quitting;
  queue = q;
  memory = m;
  cells = cs;
  round = get_quit q m;
  seen = λ from. refl;
  rest = refl;
  pair = h;
}
get_round-Taken false q r m [] ds h = record {
  gives = waits;
  queue = q;
  memory = m;
  cells = [];
  round = get_empty q m h.one.first;
  seen = λ from. refl;
  rest = refl;
  pair = h;
}
get_round-Taken false q r m (c ∷ cs) ds h =
    let (q', m', round, pair) = get-IsPair c q r m cs ds h in
    record {
      gives = got c.1;
      queue = q';
      memory = m';
      cells = cs;
      round = round;
      seen = λ from. refl;
      rest = refl;
      pair = pair;
    }

get_video-Follows :
    (s : Player) (l : Lists) → Refines s l → Follows (get_video s) (spec_step video_gets l)
unfolding get_video spec_step
get_video-Follows s l h =
    let t =
      get_round-Taken s.flags.quit s.videoq s.audioq s.memory h.video_cells h.audio_cells
        (IsPair-swap h.pair) in
    let same = ap₂ take_first (ap (λ f. f.quit) h.flags) h.video in
    (
      record s { videoq = t.queue; memory = t.memory },
      rw (t.round, sym same, sym (t.seen from_video)) refl,
      record {
        audio_cells = h.audio_cells;
        video_cells = t.cells;
        pair = IsPair-swap t.pair;
        flags = h.flags;
        audio = h.audio;
        video = t.rest ∙ ap (λ x. x.1) same;
      },
    )

get_audio-Follows :
    (s : Player) (l : Lists) → Refines s l → Follows (get_audio s) (spec_step audio_gets l)
unfolding get_audio spec_step
get_audio-Follows s l h =
    let t =
      get_round-Taken s.flags.quit s.audioq s.videoq s.memory h.audio_cells h.video_cells h.pair in
    let same = ap₂ take_first (ap (λ f. f.quit) h.flags) h.audio in
    (
      record s { audioq = t.queue; memory = t.memory },
      rw (t.round, sym same, sym (t.seen from_audio)) refl,
      record {
        audio_cells = t.cells;
        video_cells = h.video_cells;
        pair = t.pair;
        flags = h.flags;
        audio = t.rest ∙ ap (λ x. x.1) same;
        video = h.video;
      },
    )

step-Follows :
    (x : Step) (s : Player) (l : Lists)
    → Refines s l
    → IsSizedStep x
    → Follows (step x s) (spec_step x l)
unfolding step spec_step
step-Follows (reads r) s l h is_x = decode_round-Follows r s l h is_x
step-Follows video_gets s l h is_x = get_video-Follows s l h
step-Follows audio_gets s l h is_x = get_audio-Follows s l h
step-Follows shown s l h is_x =
    (_, refl, Refines-flags s l (λ f. record f { read_frame_fail = 0 }) h)
step-Follows (set_pause b) s l h is_x = (_, refl, Refines-flags s l (λ f. record f { pause = b }) h)
step-Follows stop s l h is_x = (_, refl, Refines-flags s l stop_video h)

-- Whatever the order in which the threads go on, with packets of sizes that can be counted: no step
-- uses a node that is freed, no counter overflows, and what is put into the queues and taken from
-- them is what two lists give.
pub play-spec_play :
    (xs : List Step) (s : Player) (l : Lists)
    → Refines s l
    → All IsSizedStep xs
    → (t : Player) × (play xs s ≡ done ((spec_play xs l).0, t)) × Refines t (spec_play xs l).1
unfolding play spec_play
play-spec_play [] s l h _ = (s, refl, h)
play-spec_play (x ∷ xs) s l h (is_x, are_xs) =
    let (t, stepped, h') = step-Follows x s l h is_x in
    let (u, ran, h'') = play-spec_play xs t (spec_step x l).1 h' are_xs in
    (u, rw stepped (rw ran refl), h'')
