-- ===== src/Video/Decode/Pairs.antt =====
-- plugins/video.c: the two queues of packets of the player, which are in one memory.
use wallyd.Common.{
  ℕ, ◌+◌, ◌≤◌, ◌<◌, ◌≡◌, true, false, [], ◌∷◌, ◌++◌, arith, length, All, All-append, done,
}
use wallyd.Common.Int.{pos, int_max}
use wallyd.Video.Packets.{Packet, Memory, PacketQueue, packet_queue_put, got, get_round}
use wallyd.Video.Packets.Linked.{Cells, Avoids}
use wallyd.Video.Packets.Laws.{
  IsQueue, Apart, Below, total_size, Below-Avoids, packet_queue_put_lem, get_round_lem,
}
use wallyd.Video.Decode.{max_video_size}

-- A packet has a byte at least, and no more than an `int` counts beside a full queue.
abbrev pub IsSized : Packet → Type 0
IsSized p = (1 ≤ p.size) × (p.size + max_video_size ≤ int_max)

abbrev pub AllSized : Cells → Type 0
AllSized cs = All (λ c. IsSized c.1) cs

-- Two queues with the lists `cs` and `ds`.
pub record IsPair (m : Memory) (q r : PacketQueue) (cs ds : Cells) : Type 0 where
  pub one : IsQueue m q cs
  pub other : IsQueue m r ds
  pub apart : Apart cs ds
  pub apart' : Apart ds cs
  pub sized : AllSized cs
  pub sized' : AllSized ds
  pub total : total_size cs ≤ int_max
  pub total' : total_size ds ≤ int_max

length-le : (cs : Cells) → AllSized cs → length cs ≤ total_size cs
length-le [] h = omega arith
length-le (c ∷ cs) (hc, h) = omega (arith, length-le cs h)

Avoids-new :
    (p n : ℕ) (k : Packet) (cs : Cells) → p < n → Avoids p cs → Avoids p (cs ++ (n, k) ∷ [])
Avoids-new p n k [] lt h = (ground arith, tt)
Avoids-new p n k (c ∷ cs) lt (e, h) = (e, Avoids-new p n k cs lt h)

Apart-new :
    (n : ℕ) (k : Packet) (ds cs : Cells) → Below n ds → Apart ds cs → Apart ds (cs ++ (n, k) ∷ [])
Apart-new n k [] cs b h = tt
Apart-new n k (d ∷ ds) cs (lt, b) (e, h) = (Avoids-new d.0 n k cs lt e, Apart-new n k ds cs b h)

Apart-tail : (c : ℕ × Packet) (ds cs : Cells) → Apart ds (c ∷ cs) → Apart ds cs
Apart-tail c [] cs h = tt
Apart-tail c (d ∷ ds) cs ((_, e), h) = (e, Apart-tail c ds cs h)

total-new : (cs : Cells) (c : ℕ × Packet) → total_size (cs ++ c ∷ []) ≡ total_size cs + c.1.size
total-new [] c = omega arith
total-new (d ∷ cs) c = omega (arith, total-new cs c)

pub IsPair-swap :
    {m : Memory} {q r : PacketQueue} {cs ds : Cells} → IsPair m q r cs ds → IsPair m r q ds cs
IsPair-swap h = record {
  one = h.other;
  other = h.one;
  apart = h.apart';
  apart' = h.apart;
  sized = h.sized';
  sized' = h.sized;
  total = h.total';
  total' = h.total;
}

pub put-IsPair :
    (k : Packet) (q r : PacketQueue) (m : Memory) (cs ds : Cells)
    → IsPair m q r cs ds
    → IsSized k
    → total_size cs ≤ max_video_size
    → (q' : PacketQueue) × (m' : Memory) × (packet_queue_put true k q m ≡ done (pos 0, q', m'))
      × IsPair m' q' r (cs ++ (m.fresh, k) ∷ []) ds
put-IsPair k q r m cs ds h is_k room =
    let (q', m', put, _, queue, others) =
      packet_queue_put_lem k q m cs h.one (omega (arith, length-le cs h.sized)) (omega arith) in
    (
      q',
      m',
      put,
      record {
        one = queue;
        other = others r ds h.apart h.other;
        apart =
            All-append (λ c. Avoids c.0 ds) cs ((m.fresh, k) ∷ []) h.apart
              (Below-Avoids m.fresh ds h.other.below, tt);
        apart' = Apart-new m.fresh k ds cs h.other.below h.apart';
        sized = All-append (λ c. IsSized c.1) cs ((m.fresh, k) ∷ []) h.sized (is_k, tt);
        sized' = h.sized';
        total = omega (arith, total-new cs (m.fresh, k));
        total' = h.total';
      },
    )

pub get-IsPair :
    (c : ℕ × Packet) (q r : PacketQueue) (m : Memory) (cs ds : Cells)
    → IsPair m q r (c ∷ cs) ds
    → (q' : PacketQueue) × (m' : Memory) × (get_round false true q m ≡ done (got c.1, q', m'))
      × IsPair m' q' r cs ds
get-IsPair c q r m cs ds h =
    let (q', m', taken, _, queue, others) =
      get_round_lem true c cs q m h.one (omega (arith, length-le (c ∷ cs) h.sized, h.total))
        h.total in
    (
      q',
      m',
      taken,
      record {
        one = queue;
        other = others r ds h.apart.0 h.other;
        apart = h.apart.1;
        apart' = Apart-tail c ds cs h.apart';
        sized = h.sized.1;
        sized' = h.sized';
        total = omega (arith, h.total);
        total' = h.total';
      },
    )
