-- ===== src/Examples/Events.antt =====
-- A clock on a list as event queue, and a network of drop-tail queues in which packets of 1,500 bytes
-- travel.
use ruf.Prelude.{
  ℕ, ◌+◌, ◌≡◌, refl, Bool, true, false, List, [], ◌∷◌, ◌++◌, Option, none, some, Bool-cases, inl,
  inr, arith, if◌then◌else◌,
}
use ruf.Prelude.Int.{negsuc}
use ruf.Queue.{Queue, Packet, normal}
use ruf.Topology.{
  Port, Hop, host_queue, agg_queue, host, pfabric_get_next_hop, dst_of, src_of, queues, hash_port,
}
use ruf.Topology.Delivery.{between}
use ruf.Examples.ListQueue.{list_queue}
use ruf.Events.{Event, EventQueue, Simulation, event_comp, step}
use ruf.Links.{
  Work, queue_processing, is_same, Network, process_packet_queuing, process_queue_processing,
}
use ruf.Links.Classes.{drop_tail, drop_tail_class}
use ruf.Links.Serving.{AllServed, process_packet_queuing-AllServed}
use ruf.Links.Processing.{process_queue_processing-AllServed}
use ruf.Examples.Topology.{default}

abbrev pub empty_queue : Queue
empty_queue = record {
  limit_bytes = 36_864;
  location = 0;
  packets = [];
  bytes_in_queue = 0;
  busy = false;
  queue_proc_event = none;
  busy_events = [];
  packet_transmitting = none;
  p_arrivals = 0;
  p_departures = 0;
  b_arrivals = 0;
  b_departures = 0;
  pkt_drop = 0;
}

-- Ten gigabits and 200 ns on every link.
abbrev quiet : Network
quiet = record {
  links = λ port. record {
    queue = empty_queue;
    rate = 10_000_000_000;
    propagation_delay = 200_000;
    spray_counter = 0;
  };
  net = record {
    flows = λ i. record {
      size = 1460;
      pkt_drop = 0;
      data_pkt_drop = 0;
      ack_pkt_drop = 0;
      first_hop_departure = 0;
      last_hop_departure = 0;
      first_byte_send_time = negsuc 0;
    };
    dead_packets = 0;
  };
  instance_count = 1;
  time_of = λ i. 0;
  cancelled = λ i. false;
  completed_packets = 0;
}

abbrev data_packet : Packet
data_packet = record {
  unique_id = 0;
  flow = 5;
  seq_no = 0;
  pf_priority = 1;
  size = 1500;
  type = normal;
  last_enque_time = 0;
  total_queuing_delay = 0;
  ecn = false;
}

-- Every packet goes from host 3 to host 77.
abbrev next_hop : Packet → Port → ℕ → Hop
next_hop p = pfabric_get_next_hop default 0 (between (host 3) (host 77) p.flow)

-- A clock: each event makes the next one, 2e-15 seconds later.
abbrev clock : EventQueue 1_000 ℕ
clock = list_queue (event_comp 1_000)

abbrev tick : ℕ → Event ℕ → ℕ → Option (ℕ × List (Event ℕ))
tick now ev w = some (w + 1, record ev { time = now + 2_000 } ∷ [])

abbrev start : Simulation 1_000 ℕ clock
start = record {
  current_time = 0;
  start_time = none;
  event_queue =
      record { unique_id = 0; type = 1; time = 4_000; work = 0 }
      ∷ record { unique_id = 1; type = 0; time = 6_000; work = 0 }
      ∷ [];
  world = 0;
  last_evt_type = none;
  same_evt_count = 0;
}

abbrev result_of : Option (Bool × Simulation 1_000 ℕ clock) → Simulation 1_000 ℕ clock
result_of none = start
result_of (some (more, s)) = s

abbrev clock_step : Simulation 1_000 ℕ clock → Option (Bool × Simulation 1_000 ℕ clock)
clock_step = step 1_000 clock (λ w i. false) tick (λ e w. w) false

abbrev second : Simulation 1_000 ℕ clock
second = result_of (clock_step start)

abbrev third : Simulation 1_000 ℕ clock
third = result_of (clock_step second)

abbrev ServesAll : Network → List (Event Work) → Type 0
ServesAll = AllServed drop_tail drop_tail_class

quiet-ServesAll : ServesAll quiet []
quiet-ServesAll j = record {
  valid = record {
    bytes = refl;
    fits = omega arith;
    small = omega arith;
    sized = tt;
    balance = refl;
  };
  once = refl;
  working = λ idle. refl;
}

process_packet_queuing-AllServed_example :
    (n' : Network) × (added : List (Event Work)) × ((process_packet_queuing drop_tail false 7
          data_packet
          (host_queue 3)
          quiet
        ≡ some (n', added))
      × ServesAll n' (added ++ []))
process_packet_queuing-AllServed_example =
    process_packet_queuing-AllServed drop_tail drop_tail_class false 7 data_packet (host_queue 3)
      quiet [] refl (omega arith, omega arith) quiet-ServesAll

-- The packet is in the queue of host 3, whose event is pending.
abbrev one_packet : Queue
one_packet = record empty_queue {
  packets = data_packet ∷ [];
  bytes_in_queue = 1500;
  busy = true;
  queue_proc_event = some 0;
  packet_transmitting = some data_packet;
  p_arrivals = 1;
  b_arrivals = 1500;
}

abbrev loaded : Network
loaded = record quiet {
  links = λ j.
      if is_same (host_queue 3) j
      then record (quiet.links j) { queue = one_packet }
      else quiet.links j;
}

abbrev service_event : Event Work
service_event = record { unique_id = 0; type = 3; time = 7; work = queue_processing (host_queue 3) }

loaded-ServesAll : ServesAll loaded (service_event ∷ [])
loaded-ServesAll j = elim (Bool-cases (is_same (host_queue 3) j)) [
  | inl s ↦ rw s (record {
    valid = record {
      bytes = refl;
      fits = omega arith;
      small = omega arith;
      sized = (omega arith, tt);
      balance = refl;
    };
    once = refl;
    working = λ idle. absurd (cc);
  })
  | inr s ↦ rw s (quiet-ServesAll j)
]

process_queue_processing-AllServed_example :
    (n' : Network) × (added : List (Event Work)) × ((process_queue_processing drop_tail true
          next_hop
          (λ p. 40)
          7
          (host_queue 3)
          loaded
        ≡ some (n', added))
      × ServesAll n' (added ++ []))
unfolding pfabric_get_next_hop dst_of src_of queues hash_port
process_queue_processing-AllServed_example =
    process_queue_processing-AllServed drop_tail drop_tail_class true next_hop (λ p. 40) 7
      (host_queue 3) loaded service_event [] refl loaded-ServesAll
      (λ p q net h. (some (agg_queue 0 16), 1, refl))
