-- ===== src/Video/Packets/Linked.antt =====
-- plugins/video.c: a list of nodes in memory, and the writes that a queue makes to it.
use wallyd.Common.{ℕ, ◌≡◌, refl, false, Option, none, some, List, [], ◌∷◌, ◌++◌, arith, ◌==◌, All}
use wallyd.Video.Packets.{Packet, Node, Memory, write_node}

-- The addresses of the nodes in order, each with its packet.
abbrev pub Cells : Type 0
Cells = List (ℕ × Packet)

abbrev pub Avoids : ℕ → Cells → Type 0
Avoids p cs = All (λ c. (c.0 == p) ≡ false) cs

abbrev pub head_addr : Cells → Option ℕ
head_addr [] = none
head_addr (c ∷ cs) = some c.0

abbrev pub last_of : ℕ × Packet → Cells → ℕ × Packet
last_of c [] = c
last_of c (d ∷ cs) = last_of d cs

abbrev pub last_addr : Cells → Option ℕ
last_addr [] = none
last_addr (c ∷ cs) = some (last_of c cs).0

-- Each node points to the next one, the last to none, and no address stands twice.
abbrev pub Linked : Memory → Cells → Type 0
Linked m [] = Unit
Linked m (c ∷ cs) =
    (m.node c.0 ≡ some (record { pkt = c.1; next = head_addr cs })) × Avoids c.0 cs × Linked m cs

pub last-Avoids :
    (p : ℕ) (c : ℕ × Packet) (cs : Cells) → Avoids p (c ∷ cs) → ((last_of c cs).0 == p) ≡ false
last-Avoids p c [] h = h.0
last-Avoids p c (d ∷ cs) h = last-Avoids p d cs h.1

pub last-node :
    (m : Memory) (c : ℕ × Packet) (cs : Cells)
    → Linked m (c ∷ cs)
    → m.node (last_of c cs).0 ≡ some (record { pkt = (last_of c cs).1; next = none })
last-node m c [] h = h.0
last-node m c (d ∷ cs) h = last-node m d cs h.2

pub Linked-write :
    (m : Memory) (p : ℕ) (v : Option Node) (cs : Cells)
    → Avoids p cs
    → Linked m cs
    → Linked (write_node p v m) cs
Linked-write m p v [] a h = tt
Linked-write m p v (c ∷ cs) (ne, a) (here, avoids, rest) =
    (ground (arith, here), avoids, Linked-write m p v cs a rest)

Avoids-append :
    (p q : ℕ) (k : Packet) (cs : Cells)
    → Avoids p cs
    → (q == p) ≡ false
    → Avoids p (cs ++ (q, k) ∷ [])
Avoids-append p q k [] h ne = (ne, tt)
Avoids-append p q k (c ∷ cs) (e, h) ne = (e, Avoids-append p q k cs h ne)

-- A node that is not in the list is hung behind the last one.
pub Linked-extend :
    (m : Memory) (p : ℕ) (k : Packet) (c : ℕ × Packet) (cs : Cells)
    → m.node p ≡ some (record { pkt = k; next = none })
    → Avoids p (c ∷ cs)
    → Linked m (c ∷ cs)
    → Linked
        (write_node (last_of c cs).0 (some (record { pkt = (last_of c cs).1; next = some p })) m)
        ((c ∷ cs) ++ (p, k) ∷ [])
Linked-extend m p k c [] new (ne, _) (here, _, _) =
    (ground arith, (ground arith, tt), (ground (arith, new), tt, tt))
Linked-extend m p k c (d ∷ cs) new (ne, a) (here, avoids, rest) = (
  ground (arith, last-Avoids c.0 d cs avoids, here),
  Avoids-append c.0 p k (d ∷ cs) avoids (ground arith),
  Linked-extend m p k d cs new a rest,
)

pub last-append : (c : ℕ × Packet) (cs : Cells) (d : ℕ × Packet) → last_of c (cs ++ d ∷ []) ≡ d
last-append c [] d = refl
last-append c (e ∷ cs) d = last-append e cs d
