-- ===== src/Queue/Dctcp.antt =====
-- simulator/ext/dctcpQueue.cpp: drop-tail with an ECN mark.
use ruf.Prelude.{
  ℕ, ◌+◌, ◌≡◌, true, ◌||◌, Bool-cases, inl, inr, length, length-append, [], ◌∷◌, ◌++◌, leb,
  if◌then◌else◌,
}
use ruf.Prelude.Words.{add32}
use ruf.Queue.{Queue, Packet, Net, arrive, push_back, drop, enque}

-- `((DctcpPacket*) packet)->ecn = true` writes to the packet that was pushed.
unfoldable pub dctcp_enque : (dctcp_mark_thresh : ℕ) → Packet → Queue → Net → Queue × Net
dctcp_enque dctcp_mark_thresh p q net =
    if leb (add32 q.bytes_in_queue p.size) q.limit_bytes
    then (if leb dctcp_mark_thresh (length (q.packets ++ p ∷ []))
        then (push_back (record p { ecn = true }) (arrive p q), net)
        else (push_back p (arrive p q), net))
    else (record (arrive p q) { pkt_drop = q.pkt_drop + 1 }, drop q p net)

-- The packet with the mark that it gets in a queue of `n` packets.
abbrev pub marked : ℕ → ℕ → Packet → Packet
marked dctcp_mark_thresh n p = record p { ecn = leb dctcp_mark_thresh (n + 1) || p.ecn }

-- The `enque` of the DCTCP queue is the drop-tail `enque` of the packet with its mark: a packet is
-- marked when, with it, the queue has at least the threshold's number of packets; a dropped packet
-- counts as any other.
pub dctcp_enque-enque :
    (thresh : ℕ) (p : Packet) (q : Queue) (net : Net)
    → dctcp_enque thresh p q net ≡ enque (marked thresh (length q.packets) p) q net
unfolding dctcp_enque enque drop
dctcp_enque-enque thresh p q net =
    elim (Bool-cases (leb (add32 q.bytes_in_queue p.size) q.limit_bytes)) [
      | inr full ↦ rw full
      | inl room ↦
          rw (room, length-append q.packets (p ∷ []))
            (elim (Bool-cases (leb thresh (length q.packets + 1))) [
              | inl mark ↦ rw mark
              | inr plain ↦ rw plain
            ])
    ]
