-- ===== src/Queue/Pfabric.antt =====
-- simulator/ext/pfabricqueue.cpp: the pFabric queue, which drops the packet of the worst priority and
-- serves the flow of the best one.
use ruf.Prelude.{
  one_if, ℕ, zero, suc, ◌+◌, ◌-◌, Bool, true, false, not, ◌&&◌, List, [], ◌∷◌, ◌++◌, Option, none,
  some, length, get_elem?, erase_idx, ltb, leb, ◌==◌, if◌then◌else◌,
}
use ruf.Prelude.Int.{ℤ, pos, ltb_ℤ}
use ruf.Prelude.Words.{word, add32, sub32}
use ruf.Prelude.Faults.{◌>>=◌}
use ruf.Queue.{Queue, Packet, Net, FlowStats, arrive, push_back, drop, update_flow, is_normal}
pub mod Best

-- The loop that finds the packet to drop, from index `i` on.
unfoldable pub worst_loop : List Packet → (i worst_priority worst_index : ℕ) → ℕ × ℕ
worst_loop [] i worst_priority worst_index = (worst_priority, worst_index)
worst_loop (p ∷ ps) i worst_priority worst_index =
    worst_loop ps (i + 1)
      (if leb worst_priority p.pf_priority then p.pf_priority else worst_priority)
      (if leb worst_priority p.pf_priority then i else worst_index)

drop_worst : Option Packet → ℕ → Queue → Net → Option (Queue × Net)
drop_worst none i q net = none
drop_worst (some w) i q net = some (
  record q {
    packets = erase_idx q.packets i;
    bytes_in_queue = sub32 q.bytes_in_queue w.size;
    pkt_drop = q.pkt_drop + 1;
  },
  drop q w net,
)

unfoldable pub pfabric_enque : ℕ → Packet → Queue → Net → Option (Queue × Net)
unfolding drop_worst
pfabric_enque now p q net =
    let pushed = push_back (record p { last_enque_time = now }) (arrive p q) in
    let worst = (worst_loop pushed.packets 0 0 0).1 in
    if ltb pushed.limit_bytes pushed.bytes_in_queue
    then drop_worst (get_elem? pushed.packets worst) worst pushed net
    else some (pushed, net)

-- The first loop of `deque`: the packet of the best priority so far, or none.
unfoldable pub best_loop : List Packet → (best_priority : ℕ) → Option Packet → Option Packet
best_loop [] best_priority best = best
best_loop (p ∷ ps) best_priority best =
    best_loop ps (if ltb p.pf_priority best_priority then p.pf_priority else best_priority)
      (if ltb p.pf_priority best_priority then some p else best)

-- The second loop: the first index of a packet of the flow.
unfoldable pub first_of_flow : (flow : ℕ) → List Packet → ℕ → Option ℕ
first_of_flow flow [] i = none
first_of_flow flow (p ∷ ps) i = if p.flow == flow then some i else first_of_flow flow ps (i + 1)

-- What `deque` writes to the packet's flow.
unfoldable pub depart_stats : ℕ → Queue → Packet → Net → Net
unfolding update_flow
depart_stats now q p net = if is_normal p.type then update_flow change p.flow net else net
  where
    change : FlowStats → FlowStats
    change f = record f {
      first_byte_send_time =
          if ltb_ℤ f.first_byte_send_time (pos 0) then pos now else f.first_byte_send_time;
      first_hop_departure = f.first_hop_departure + one_if (q.location == 0);
      last_hop_departure = f.last_hop_departure + one_if (q.location == 3);
    }

take_out : ℕ → Option ℕ → Queue → Net → Option (Option Packet × Queue × Net)
take_out now none q net = none
take_out now (some i) q net = do
  p ← get_elem? q.packets i
  some (
    some (record p { total_queuing_delay = p.total_queuing_delay + (now - p.last_enque_time) }),
    record q {
      packets = erase_idx q.packets i;
      bytes_in_queue = sub32 q.bytes_in_queue p.size;
      p_departures = q.p_departures + 1;
      b_departures = q.b_departures + p.size;
    },
    depart_stats now q p net,
  )

-- UINT_MAX is the start of the first loop; if it finds no packet, the second loop reads through a
-- null pointer.
unfoldable pub pfabric_deque : ℕ → Queue → Net → Option (Option Packet × Queue × Net)
unfolding take_out
pfabric_deque now q net =
    if ltb 0 q.bytes_in_queue
    then (do
      best ← best_loop q.packets (word - 1) none
      take_out now (first_of_flow best.flow q.packets 0) q net)
    else some (none, q, net)
