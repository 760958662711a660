-- ===== src/Examples/Queues.antt =====
-- The queues of the links with room for two full packets.
use ruf.Prelude.{
  ℕ, ◌+◌, ◌*◌, refl, one_if, ◌≡◌, false, List, [], ◌∷◌, Option, some, none, length, arith,
}
use ruf.Prelude.Int.{negsuc}
use ruf.Queue.{Queue, Packet, PacketType, Net, FlowStats, enque}
use ruf.Queue.Accounting.{IsValid, Op, enqueues, dequeues, run, fifo, run-refines-fifo}
use ruf.Queue.Dctcp.{dctcp_enque, marked, dctcp_enque-enque}
use ruf.Queue.ProbDrop.{
  DropProb, Arrival, SamePackets, prob_run, kept, enque_run, prob_enque, is_dropped, start_if_idle,
  prob_run-filters,
}
use ruf.Queue.Pfabric.{pfabric_deque}
use ruf.Queue.Pfabric.Best.{Served, timed, pfabric_deque-Served}

abbrev packet : (id flow prio : ℕ) → Packet
packet id flow prio = record {
  unique_id = id;
  flow = flow;
  seq_no = 0;
  pf_priority = prio;
  size = 1500;
  type = PacketType.normal;
  last_enque_time = 0;
  total_queuing_delay = 0;
  ecn = false;
}

abbrev no_drops : FlowStats
no_drops = record {
  size = 4_000;
  pkt_drop = 0;
  data_pkt_drop = 0;
  ack_pkt_drop = 0;
  first_hop_departure = 0;
  last_hop_departure = 0;
  first_byte_send_time = negsuc 0;
}

abbrev quiet : Net
quiet = record { flows = λ _. no_drops; dead_packets = 0 }

abbrev queue_of : List Packet → Queue
queue_of ps = record {
  limit_bytes = 3_000;
  location = 1;
  packets = ps;
  bytes_in_queue = 1500 * length ps;
  busy = false;
  queue_proc_event = none;
  busy_events = [];
  packet_transmitting = none;
  p_arrivals = length ps;
  p_departures = 0;
  b_arrivals = 1500 * length ps;
  b_departures = 0;
  pkt_drop = 0;
}

-- The third packet does not fit.
abbrev calls : List Op
calls = enqueues (packet 1 5 9) ∷ enqueues (packet 2 6 3) ∷ enqueues (packet 3 5 9) ∷ dequeues ∷ []

empty-IsValid : IsValid (queue_of [])
empty-IsValid = omega arith

run-refines-fifo_example :
    (outs : List (Option Packet)) × (q' : Queue) × (net' : Net) × (run calls (queue_of []) quiet
      ≡ some (outs, q', net'))
    × ((outs, q'.packets) ≡ fifo 3_000 calls [])
    × IsValid q'
run-refines-fifo_example = run-refines-fifo calls (queue_of []) quiet empty-IsValid (omega arith)

dctcp_enque-enque_example :
    dctcp_enque 1 (packet 1 5 9) (queue_of []) quiet
    ≡ enque (marked 1 0 (packet 1 5 9)) (queue_of []) quiet
dctcp_enque-enque_example = dctcp_enque-enque 1 (packet 1 5 9) (queue_of []) quiet

-- Flow 5 has the best packet, the second; its older packet goes first.
abbrev mixed : Queue
mixed = queue_of (packet 1 5 9 ∷ packet 2 5 3 ∷ [])

pfabric_deque-Served_example :
    (best : Packet) × (i : ℕ) × (p : Packet) × (q' : Queue) × (net' : Net) × (pfabric_deque 10 mixed
        quiet
      ≡ some (some (timed 10 p), q', net'))
    × Served mixed best i p q'
pfabric_deque-Served_example =
    pfabric_deque-Served 10 mixed quiet (omega arith) (λ e. cc) (omega arith)

-- Half of the packets are dropped: the second draw is below the half of the largest number.
abbrev half : DropProb
half = record { numerator = 1; denominator = 2; rand_max = 100 }

abbrev arrivals : List Arrival
arrivals =
    record { now = 10; draw = 70; packet = packet 1 5 9 }
    ∷ record { now = 20; draw = 20; packet = packet 2 6 3 }
    ∷ record { now = 30; draw = 50; packet = packet 3 5 9 }
    ∷ []

prob_run-filters_example :
    SamePackets
      (prob_run half arrivals (queue_of [])).0
      (enque_run (kept half arrivals) (queue_of []) quiet).0
    × (length (prob_run half arrivals (queue_of [])).1 + one_if false
        ≡ one_if (prob_run half arrivals (queue_of [])).0.busy)
prob_run-filters_example = prob_run-filters half arrivals (queue_of []) quiet

abbrev packets_and_events : Queue × List ℕ → List Packet × List ℕ
packets_and_events (q, events) = (q.packets, events)

prob_run_test :
    packets_and_events (prob_run half arrivals (queue_of []))
    ≡ (packet 1 5 9 ∷ packet 3 5 9 ∷ [], 10 ∷ [])
unfolding prob_enque is_dropped start_if_idle
prob_run_test = refl
