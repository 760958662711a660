-- ===== src/Queue.antt =====
-- simulator/coresim/queue.cpp and queue.h: the drop-tail queue of a link, and what dropping a packet
-- does to its flow's counters. The 64-bit counters do not wrap; the 32-bit sizes do, by `add32` and
-- `sub32`. A pointer to a packet or an event is its `unique_id`, and a pointer to a flow its `id`.
-- Undefined behaviour and a failed `assert` are `none`.
pub mod Accounting
pub mod Dctcp
pub mod Pfabric
pub mod ProbDrop
use ruf.Prelude.{
  ℕ, zero, suc, ◌+◌, Bool, true, false, not, ◌&&◌, List, [], ◌∷◌, ◌++◌, Option, none, some, length,
  one_if, erase_idx, ltb, leb, ◌==◌, if◌then◌else◌,
}
use ruf.Prelude.Faults.{◌>>=◌}
use ruf.Prelude.Int.{ℤ}
use ruf.Prelude.Words.{add32, sub32}

-- The packet types of coresim/packet.h that the queues tell apart.
pub data PacketType : Type 0 where
  normal ack other : PacketType

pub record Packet : Type 0 where
  pub unique_id : ℕ
  pub flow : ℕ
  pub seq_no : ℕ
  pub pf_priority : ℕ
  pub size : ℕ
  pub type : PacketType
  pub last_enque_time : ℕ
  pub total_queuing_delay : ℕ
  pub ecn : Bool

-- The fields of a flow that the queues write, and its size.
pub record FlowStats : Type 0 where
  pub size : ℕ
  pub pkt_drop : ℕ
  pub data_pkt_drop : ℕ
  pub ack_pkt_drop : ℕ
  pub first_hop_departure : ℕ
  pub last_hop_departure : ℕ
  pub first_byte_send_time : ℤ

-- The flows, and the global `dead_packets`.
pub record Net : Type 0 where
  pub flows : ℕ → FlowStats
  pub dead_packets : ℕ

pub record Queue : Type 0 where
  pub limit_bytes : ℕ
  pub location : ℕ
  pub packets : List Packet
  pub bytes_in_queue : ℕ
  pub busy : Bool
  pub queue_proc_event : Option ℕ
  pub busy_events : List ℕ
  pub packet_transmitting : Option Packet
  pub p_arrivals : ℕ
  pub p_departures : ℕ
  pub b_arrivals : ℕ
  pub b_departures : ℕ
  pub pkt_drop : ℕ

abbrev pub is_normal : PacketType → Bool
is_normal normal = true
is_normal ack = false
is_normal other = false

abbrev pub is_ack : PacketType → Bool
is_ack normal = false
is_ack ack = true
is_ack other = false

unfoldable pub update_flow : (FlowStats → FlowStats) → ℕ → Net → Net
update_flow change i net = record net {
  flows = λ j. if i == j then change (net.flows j) else net.flows j;
}

-- `drop`
unfoldable pub drop : Queue → Packet → Net → Net
unfolding update_flow
drop q p net = record (update_flow count p.flow net) {
  dead_packets = net.dead_packets + one_if (not (q.location == 0) && is_normal p.type);
}
  where
    count : FlowStats → FlowStats
    count f = record f {
      pkt_drop = f.pkt_drop + 1;
      data_pkt_drop = f.data_pkt_drop + one_if (ltb p.seq_no f.size);
      ack_pkt_drop = f.ack_pkt_drop + one_if (is_ack p.type);
    }

-- `p_arrivals += 1; b_arrivals += packet->size;`
abbrev pub arrive : Packet → Queue → Queue
arrive p q = record q { p_arrivals = q.p_arrivals + 1; b_arrivals = q.b_arrivals + p.size }

-- `packets.push_back(packet); bytes_in_queue += packet->size;`
abbrev pub push_back : Packet → Queue → Queue
push_back p q = record q {
  packets = q.packets ++ p ∷ [];
  bytes_in_queue = add32 q.bytes_in_queue p.size;
}

unfoldable pub enque : Packet → Queue → Net → Queue × Net
enque p q net =
    if leb (add32 q.bytes_in_queue p.size) q.limit_bytes
    then (push_back p (arrive p q), net)
    else (record (arrive p q) { pkt_drop = q.pkt_drop + 1 }, drop q p net)

-- `front` and `pop_front` of an empty deque are undefined.
deque_front : List Packet → Queue → Option (Option Packet × Queue)
deque_front [] q = none
deque_front (p ∷ ps) q = some (
  some p,
  record q {
    packets = ps;
    bytes_in_queue = sub32 q.bytes_in_queue p.size;
    p_departures = q.p_departures + 1;
    b_departures = q.b_departures + p.size;
  },
)

-- `some none` is the result `NULL`.
unfoldable pub deque : Queue → Option (Option Packet × Queue)
unfolding deque_front
deque q = if ltb 0 q.bytes_in_queue then deque_front q.packets q else some (none, q)

-- The first index of the packet `id`, from `i` on.
unfoldable pub index_of : ℕ → List Packet → ℕ → Option ℕ
index_of id [] i = none
index_of id (p ∷ ps) i = if p.unique_id == id then some i else index_of id ps (i + 1)

abbrev take_back : Packet → Option ℕ → Queue → Queue
take_back p none q = q
take_back p (some i) q = record q {
  packets = erase_idx q.packets i;
  bytes_in_queue = sub32 q.bytes_in_queue p.size;
}

-- `preempt_current_transmission` over the `enque` of the queue's class. The result also lists the
-- events that it cancels.
module _ (enque_of : Packet → Queue → Net → Option (Queue × Net)) where
  preempt_of : Option ℕ → Option Packet → Queue → Net → Option (Queue × Net × List ℕ)
  unfolding index_of
  preempt_of none t q net = none
  preempt_of (some e) none q net = none
  preempt_of (some e) (some p) q net = do
    let q' = take_back p (index_of p.unique_id q.packets 0) q
    (r, net') ← enque_of p (record q' { busy_events = [] }) net
    some (
      record r { packet_transmitting = none; queue_proc_event = none; busy = false },
      net',
      e ∷ q.busy_events,
    )

  unfoldable pub preempt_current_transmission :
      (preemptive_queue : Bool) → Queue → Net → Option (Queue × Net × List ℕ)
  unfolding preempt_of
  preempt_current_transmission preemptive_queue q net =
      if preemptive_queue && q.busy
      then preempt_of q.queue_proc_event q.packet_transmitting q net
      else some (q, net, [])
