-- ===== src/Video/Packets.antt =====
-- plugins/video.c: a queue of packets, a linked list in memory. The thread that reads the file puts
-- packets in, and the threads that decode take them out.
pub mod Linked
pub mod Laws
use wallyd.Common.{
  ℕ, ◌+◌, Bool, true, false, Option, none, some, if◌then◌else◌, use_after_free, Outcome, done,
  fault, ◌>>=◌, update,
}
use wallyd.Common.Int.{ℤ, pos, negsuc, ◌+ℤ◌, checked, ◌-ℤ◌}

-- A packet of the stream `stream_index`, with `size` bytes; `content` stands for the rest of it.
pub record Packet : Type 0 where
  pub stream_index : ℕ
  pub size : ℕ
  pub content : ℕ

-- A node of the list, AVPacketList.
pub record Node : Type 0 where
  pub pkt : Packet
  pub next : Option ℕ

-- The nodes that are allocated, and an address that was never given.
pub record Memory : Type 0 where
  pub node : ℕ → Option Node
  pub fresh : ℕ

pub record PacketQueue : Type 0 where
  pub first_pkt : Option ℕ
  pub last_pkt : Option ℕ
  pub nb_packets : ℤ
  pub size : ℤ

unfoldable pub packet_queue_init : PacketQueue
packet_queue_init = record { first_pkt = none; last_pkt = none; nb_packets = pos 0; size = pos 0 }

unfoldable pub read_node : ℕ → Memory → Outcome Node
read_node p m = elim (m.node p) [ none ↦ fault use_after_free | some n ↦ done n ]

abbrev pub write_node : ℕ → Option Node → Memory → Memory
write_node p n m = record m { node = update m.node p n }

-- last_pkt->next = p
abbrev pub set_next : ℕ → ℕ → Memory → Outcome Memory
set_next last p m =
    read_node last m >>= λ n. done (write_node last (some (record n { next = some p })) m)

-- The new node is put behind the last one, if there is one.
unfoldable pub append_node : ℕ → PacketQueue → Memory → Outcome (PacketQueue × Memory)
append_node p q m = elim q.last_pkt [
  | none ↦ done (record q { first_pkt = some p; last_pkt = some p }, m)
  | some last ↦ set_next last p m >>= λ m'. done (record q { last_pkt = some p }, m')
]

-- `room` is whether av_malloc has memory; the result is -1 where it has none.
unfoldable pub packet_queue_put :
    Bool → Packet → PacketQueue → Memory → Outcome (ℤ × PacketQueue × Memory)
packet_queue_put false pkt q m = done (negsuc 0, q, m)
packet_queue_put true pkt q m =
    let p = m.fresh in
    append_node p q (record m {
      node = update m.node p (some (record { pkt = pkt; next = none }));
      fresh = p + 1;
    })
    >>= λ (q', m'). checked (q'.nb_packets +ℤ pos 1) >>= λ nb.
        checked (q'.size +ℤ pos pkt.size) >>= λ size.
        done (pos 0, record q' { nb_packets = nb; size = size }, m')

-- What a call finds: the player is told to quit, a packet, no packet where it is not to wait, or it
-- waits for one.
pub data Got : Type 0 where
  quitting : Got
  got : Packet → Got
  nothing : Got
  waits : Got

-- The first node is taken out of the list and freed.
unfoldable pub take_node : ℕ → PacketQueue → Memory → Outcome (Got × PacketQueue × Memory)
take_node p q m = read_node p m >>= λ n. checked (q.nb_packets -ℤ pos 1) >>= λ nb.
    checked (q.size -ℤ pos n.pkt.size) >>= λ size. done (
      got n.pkt,
      record {
        first_pkt = n.next;
        last_pkt = elim n.next [ none ↦ none | some _ ↦ q.last_pkt ];
        nb_packets = nb;
        size = size;
      },
      write_node p none m,
    )

-- One round of the loop of packet_queue_get; a wait is for any length.
unfoldable pub get_round : Bool → Bool → PacketQueue → Memory → Outcome (Got × PacketQueue × Memory)
get_round true block q m = done (quitting, q, m)
get_round false block q m = elim q.first_pkt [
  | some p ↦ take_node p q m
  | none ↦ done (if block then waits else nothing, q, m)
]
