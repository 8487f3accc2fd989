-- ===== src/Video/Packets/Laws.antt =====
-- plugins/video.c: a queue of packets is a first-in-first-out list, and its counters are exact.
use wallyd.Common.{
  ℕ, suc, ◌+◌, ◌-◌, ◌≤◌, ◌<◌, ◌≡◌, refl, sym, ap, Bool, true, false, none, some, [], ◌∷◌, ◌++◌,
  arith, length, length-append, All, done, ◌>>=◌, update,
}
use wallyd.Common.Int.{ℤ, pos, ◌+ℤ◌, int_max, checked, checked_add, checked_sub, ◌-ℤ◌}
use wallyd.Video.Packets.{
  Packet, Node, Memory, PacketQueue, read_node, write_node, append_node, take_node,
  packet_queue_put, got, get_round,
}
use wallyd.Video.Packets.Linked.{
  Cells, Avoids, head_addr, last_of, last_addr, Linked, last-node, Linked-write, Linked-extend,
  last-append,
}

abbrev pub total_size : Cells → ℕ
total_size [] = 0
total_size (c ∷ cs) = c.1.size + total_size cs

abbrev pub Below : ℕ → Cells → Type 0
Below n cs = All (λ c. c.0 < n) cs

-- A queue whose list in memory is `cs`.
pub record IsQueue (m : Memory) (q : PacketQueue) (cs : Cells) : Type 0 where
  pub first : q.first_pkt ≡ head_addr cs
  pub last : q.last_pkt ≡ last_addr cs
  pub count : q.nb_packets ≡ pos (length cs)
  pub total : q.size ≡ pos (total_size cs)
  pub linked : Linked m cs
  pub below : Below m.fresh cs

-- Two lists without a common address.
abbrev pub Apart : Cells → Cells → Type 0
Apart cs ds = All (λ c. Avoids c.0 ds) cs

pub Below-Avoids : (n : ℕ) (cs : Cells) → Below n cs → Avoids n cs
Below-Avoids n [] h = tt
Below-Avoids n (c ∷ cs) (lt, h) = (ground arith, Below-Avoids n cs h)

Below-suc : (n : ℕ) (cs : Cells) → Below n cs → Below (n + 1) cs
Below-suc n [] h = tt
Below-suc n (c ∷ cs) (lt, h) = (omega arith, Below-suc n cs h)

total_size-append :
    (cs : Cells) (c : ℕ × Packet) → total_size (cs ++ c ∷ []) ≡ total_size cs + c.1.size
total_size-append [] c = omega arith
total_size-append (d ∷ cs) c = omega (arith, total_size-append cs c)

Below-append : (n : ℕ) (cs : Cells) (k : Packet) → Below n cs → Below (n + 1) (cs ++ (n, k) ∷ [])
Below-append n [] k h = (omega arith, tt)
Below-append n (c ∷ cs) k (lt, h) = (omega arith, Below-append n cs k h)

last_addr-append : (cs : Cells) (c : ℕ × Packet) → last_addr (cs ++ c ∷ []) ≡ some c.0
last_addr-append [] c = refl
last_addr-append (d ∷ cs) c = rw (last-append d cs c) refl

Apart-last : (c : ℕ × Packet) (cs ds : Cells) → Apart (c ∷ cs) ds → Avoids (last_of c cs).0 ds
Apart-last c [] ds h = h.0
Apart-last c (d ∷ cs) ds h = Apart-last d cs ds h.1

-- The memory with the new node, before it is hung into the list.
abbrev with_node : Packet → Memory → Memory
with_node k m = record {
  node = update m.node m.fresh (some (record { pkt = k; next = none }));
  fresh = m.fresh + 1;
}

Linked-new :
    (k : Packet) (m : Memory) (cs : Cells)
    → Below m.fresh cs
    → Linked m cs
    → Linked (with_node k m) cs
Linked-new k m [] h l = tt
Linked-new k m (c ∷ cs) (lt, h) (here, avoids, rest) =
    (ground (arith, here), avoids, Linked-new k m cs h rest)

-- What `append_node` leaves of the memory, for each list that is apart from the queue's.
record Appended (k : Packet) (q : PacketQueue) (m m' : Memory) (cs : Cells) : Type 0 where
  fresh : m'.fresh ≡ m.fresh + 1
  linked : Linked m' (cs ++ (m.fresh, k) ∷ [])
  others : (ds : Cells) → Apart cs ds → Below m.fresh ds → Linked m ds → Linked m' ds

append_node_lem :
    (k : Packet) (q : PacketQueue) (m : Memory) (cs : Cells)
    → IsQueue m q cs
    → (m' : Memory) × (append_node m.fresh q (with_node k m)
        ≡ done (
          record q { first_pkt = head_addr (cs ++ (m.fresh, k) ∷ []); last_pkt = some m.fresh },
          m',
        ))
      × Appended k q m m' cs
unfolding append_node read_node
append_node_lem k q m [] h = (
  with_node k m,
  ground (arith, h.last),
  record {
    fresh = refl;
    linked = (ground arith, tt, tt);
    others = λ ds a b l. Linked-new k m ds b l;
  },
)
append_node_lem k q m (c ∷ cs) h =
    let new = Linked-new k m (c ∷ cs) h.below h.linked in
    (
      write_node (last_of c cs).0 (some (record { pkt = (last_of c cs).1; next = some m.fresh }))
          (with_node k m),
      ground (arith, h.last, h.first, last-node (with_node k m) c cs new),
      record {
        fresh = refl;
        linked =
            Linked-extend (with_node k m) m.fresh k c cs (ground arith)
              (Below-Avoids m.fresh (c ∷ cs) h.below) new;
        others = λ ds a b l.
            Linked-write (with_node k m) (last_of c cs).0 _ ds (Apart-last c cs ds a)
              (Linked-new k m ds b l);
      },
    )

-- The two counters, where a packet of `k` bytes comes and where it goes.
count_in {ℓ} :
    {A : Type ℓ} (f : ℤ → ℤ → A) (nb size : ℤ) (n s k : ℕ)
    → nb ≡ pos n
    → size ≡ pos s
    → n + 1 ≤ int_max
    → s + k ≤ int_max
    → (checked (nb +ℤ pos 1) >>= λ a. checked (size +ℤ pos k) >>= λ b. done (f a b))
      ≡ done (f (pos (n + 1)) (pos (s + k)))
count_in f nb size n s k en es hn hs =
    rw (en, es, checked_add n 1 hn) (rw (checked_add s k hs) refl)

count_out {ℓ} :
    {A : Type ℓ} (f : ℤ → ℤ → A) (nb size : ℤ) (n s k : ℕ)
    → nb ≡ pos (suc n)
    → size ≡ pos (k + s)
    → suc n ≤ int_max
    → k + s ≤ int_max
    → (checked (nb -ℤ pos 1) >>= λ a. checked (size -ℤ pos k) >>= λ b. done (f a b))
      ≡ done (f (pos n) (pos s))
count_out f nb size n s k en es hn hs =
    rw (en, es, checked_sub (suc n) 1 (omega arith) hn)
      (rw (checked_sub (k + s) k (omega arith) hs) (
        let e : suc n - 1 ≡ n = omega arith in
        let e' : k + s - k ≡ s = omega arith in rw (e, e') refl))

Below-suc_all :
    (m m' : Memory) (ds : Cells) → m'.fresh ≡ m.fresh + 1 → Below m.fresh ds → Below m'.fresh ds
Below-suc_all m m' ds e h = rw e (Below-suc m.fresh ds h)

-- A packet that is put into a queue stands at its end; the counters count it; and a queue whose list
-- is apart stays as it is.
pub packet_queue_put_lem :
    (k : Packet) (q : PacketQueue) (m : Memory) (cs : Cells)
    → IsQueue m q cs
    → length cs + 1 ≤ int_max
    → total_size cs + k.size ≤ int_max
    → (q' : PacketQueue) × (m' : Memory) × (packet_queue_put true k q m ≡ done (pos 0, q', m'))
      × (m'.fresh ≡ m.fresh + 1)
      × IsQueue m' q' (cs ++ (m.fresh, k) ∷ [])
      × ((r : PacketQueue) (ds : Cells) → Apart cs ds → IsQueue m r ds → IsQueue m' r ds)
unfolding packet_queue_put
packet_queue_put_lem k q m cs h few small =
    let (m', appended, a) = append_node_lem k q m cs h in
    (
      record {
        first_pkt = head_addr (cs ++ (m.fresh, k) ∷ []);
        last_pkt = some m.fresh;
        nb_packets = pos (length cs + 1);
        size = pos (total_size cs + k.size);
      },
      m',
      rw appended (
          count_in
            (λ a b. (
              pos 0,
              record {
                first_pkt = head_addr (cs ++ (m.fresh, k) ∷ []);
                last_pkt = some m.fresh;
                nb_packets = a;
                size = b;
              },
              m',
            ))
            q.nb_packets q.size (length cs) (total_size cs) k.size h.count h.total few small),
      a.fresh,
      record {
        first = refl;
        last = sym (last_addr-append cs (m.fresh, k));
        count = ap pos (omega (arith, length-append cs ((m.fresh, k) ∷ [])));
        total = ap pos (sym (total_size-append cs (m.fresh, k)));
        linked = a.linked;
        below = rw a.fresh (Below-append m.fresh cs k h.below);
      },
      λ r ds apart o. record {
        first = o.first;
        last = o.last;
        count = o.count;
        total = o.total;
        linked = a.others ds apart o.below o.linked;
        below = Below-suc_all m m' ds a.fresh o.below;
      },
    )

read_node-some : (p : ℕ) (m : Memory) (n : Node) → m.node p ≡ some n → read_node p m ≡ done n
unfolding read_node
read_node-some p m n h = ground (arith, h)

take_node_lem :
    (c : ℕ × Packet) (cs : Cells) (q : PacketQueue) (m : Memory)
    → IsQueue m q (c ∷ cs)
    → length (c ∷ cs) ≤ int_max
    → total_size (c ∷ cs) ≤ int_max
    → take_node c.0 q m
      ≡ done (
        got c.1,
        record {
          first_pkt = head_addr cs;
          last_pkt = last_addr cs;
          nb_packets = pos (length cs);
          size = pos (total_size cs);
        },
        write_node c.0 none m,
      )
unfolding take_node
take_node_lem c [] q m h few small = rw (read_node-some c.0 m _ h.linked.0) (
    count_out
      (λ a b. (
        got c.1,
        record { first_pkt = none; last_pkt = none; nb_packets = a; size = b },
        write_node c.0 none m,
      ))
      q.nb_packets q.size 0 0 c.1.size h.count h.total few small)
take_node_lem c (d ∷ cs) q m h few small =
    rw (read_node-some c.0 m _ h.linked.0, h.last)
      (count_out
        (λ a b. (
          got c.1,
          record {
            first_pkt = some d.0;
            last_pkt = some (last_of d cs).0;
            nb_packets = a;
            size = b;
          },
          write_node c.0 none m,
        ))
        q.nb_packets q.size (length (d ∷ cs)) (total_size (d ∷ cs)) c.1.size h.count h.total few
        small)

-- A call that waits for a packet or not takes the first one, if there is one and the player is not
-- told to quit.
pub get_round_lem :
    (block : Bool) (c : ℕ × Packet) (cs : Cells) (q : PacketQueue) (m : Memory)
    → IsQueue m q (c ∷ cs)
    → length (c ∷ cs) ≤ int_max
    → total_size (c ∷ cs) ≤ int_max
    → (q' : PacketQueue) × (m' : Memory) × (get_round false block q m ≡ done (got c.1, q', m'))
      × (m'.fresh ≡ m.fresh)
      × IsQueue m' q' cs
      × ((r : PacketQueue) (ds : Cells) → Avoids c.0 ds → IsQueue m r ds → IsQueue m' r ds)
unfolding get_round
get_round_lem block c cs q m h few small = (
  record {
    first_pkt = head_addr cs;
    last_pkt = last_addr cs;
    nb_packets = pos (length cs);
    size = pos (total_size cs);
  },
  write_node c.0 none m,
  ground (arith, h.first, take_node_lem c cs q m h few small),
  refl,
  record {
    first = refl;
    last = refl;
    count = refl;
    total = refl;
    linked = Linked-write m c.0 none cs h.linked.1 h.linked.2;
    below = h.below.1;
  },
  λ r ds avoids o. record {
    first = o.first;
    last = o.last;
    count = o.count;
    total = o.total;
    linked = Linked-write m c.0 none ds avoids o.linked;
    below = o.below;
  },
)
