-- ===== src/Links.antt =====
-- simulator/coresim/event.cpp: what PacketQueuingEvent, QueueProcessingEvent and PacketArrivalEvent do to
-- the queues, with the destructor of QueueProcessingEvent. An event object is its `unique_id`, and a
-- queue its place in the topology; its `enque` and `deque` are those of a queue discipline, and the
-- next hop is that of a topology. Times are ticks of 1e-12 seconds. Dereferencing NULL is `none`.
pub mod Classes
pub mod Serving
pub mod Processing
use ruf.Prelude.{
  ℕ, zero, suc, ◌+◌, ◌-◌, ◌*◌, ◌/◌, ◌^◌, ◌≡◌, refl, ap, sym, ◌∙◌, Bool, true, false, not, ◌&&◌,
  List, [], ◌∷◌, ◌++◌, Option, none, some, one_if, ltb, ◌==◌, if◌then◌else◌,
}
use ruf.Prelude.Faults.{◌>>=◌}
use ruf.Prelude.Slots.{contains}
use ruf.Queue.{Queue, Packet, Net, is_normal, preempt_current_transmission}
use ruf.Topology.{Port, host_queue, agg_queue, core_queue, arbiter_queue, queue_to_arbiter, Hop}
use ruf.Events.{Event}

-- The virtual `enque` and `deque` of a queue's class, at a time.
pub record Discipline : Type 0 where
  pub enque : ℕ → Packet → Queue → Net → Option (Queue × Net)
  pub deque : ℕ → Queue → Net → Option (Option Packet × Queue × Net)

-- What the three events hold; `host_work` stands for the events of hosts and flows.
pub data Work : Type 0 where
  packet_queuing : Packet → Port → Work
  packet_arrival : Packet → Work
  queue_processing : Port → Work
  host_work : ℕ → Work

-- PACKET_QUEUING, PACKET_ARRIVAL and QUEUE_PROCESSING
abbrev pub type_of : Work → ℕ
type_of (packet_queuing p q) = 1
type_of (packet_arrival p) = 2
type_of (queue_processing q) = 3
type_of (host_work n) = n

-- A queue with the fields of its link.
pub record Link : Type 0 where
  pub queue : Queue
  pub rate : ℕ
  pub propagation_delay : ℕ
  pub spray_counter : ℕ

-- The queues, the flows, and the event objects: their number so far, their times and flags.
pub record Network : Type 0 where
  pub links : Port → Link
  pub net : Net
  pub instance_count : ℕ
  pub time_of : ℕ → ℕ
  pub cancelled : ℕ → Bool
  pub completed_packets : ℕ

-- Equality of queues, by a code.
abbrev pub code : Port → ℕ × ℕ × ℕ
code (host_queue i) = (0, i, 0)
code (agg_queue i j) = (1, i, j)
code (core_queue i j) = (2, i, j)
code arbiter_queue = (3, 0, 0)
code queue_to_arbiter = (4, 0, 0)

abbrev pub is_same : Port → Port → Bool
is_same a b = let (k, i, j) = code a in let (l, m, n) = code b in (k == l) && ((i == m) && (j == n))

-- `Queue::get_transmission_delay`
unfoldable pub get_transmission_delay : Link → ℕ → ℕ
get_transmission_delay l size = size * 8 * 10 ^ 12 / l.rate

unfoldable pub set_queue : Port → Queue → Network → Network
set_queue port q n = record n {
  links = λ j. if is_same port j then record (n.links j) { queue = q } else n.links j;
}

-- `new ...Event(time, ...)`
unfoldable pub new_event : ℕ → Work → Network → Event Work × Network
new_event time work n = (
  record { unique_id = n.instance_count; type = type_of work; time = time; work = work },
  record n {
    instance_count = n.instance_count + 1;
    time_of = λ i. if i == n.instance_count then time else n.time_of i;
    cancelled = λ i. if i == n.instance_count then false else n.cancelled i;
  },
)

module _ (d : Discipline) (preemptive_queue : Bool) (now : ℕ) (p : Packet) (port : Port) where
  -- The four lines that start the service of a queue with a packet.
  unfoldable pub start_service : Network → Event Work × Network
  unfolding new_event set_queue
  start_service n =
      let (e, n') = new_event now (queue_processing port) n in
      (
        e,
        set_queue port
            (record (n.links port).queue {
              queue_proc_event = some e.unique_id;
              busy = true;
              packet_transmitting = some p;
            })
            n',
      )

  -- `queue->enque(packet)`
  unfoldable pub enque_at : List (Event Work) → Network → Option (Network × List (Event Work))
  unfolding set_queue
  enque_at added n = do
    (q, net) ← d.enque now p (n.links port).queue n.net
    some (set_queue port q (record n { net = net }), added)

  -- `remaining_percentage > 0.01`
  abbrev is_early : ℕ → ℕ → Bool
  is_early delay time = ltb delay (100 * (time - now))

  preempt : Option ℕ → Packet → Network → Option (Network × List (Event Work))
  unfolding start_service set_queue enque_at
  preempt none sent n = none
  preempt (some e) sent n =
      if is_early (get_transmission_delay (n.links port) sent.size) (n.time_of e)
      then (do
        (q, net, ids) ←
            preempt_current_transmission (d.enque now) preemptive_queue (n.links port).queue n.net
        (ev, n') ← some (
            start_service (
              set_queue port q (record n {
                net = net;
                cancelled = λ i. if contains ids i then true else n.cancelled i;
              })))
        enque_at (ev ∷ []) n')
      else enque_at [] n

  contend : Option Packet → Network → Option (Network × List (Event Work))
  unfolding preempt
  contend none n = none
  contend (some sent) n =
      if ltb p.pf_priority sent.pf_priority
      then preempt (n.links port).queue.queue_proc_event sent n
      else enque_at [] n

  -- `PacketQueuingEvent::process_event`
  unfoldable pub process_packet_queuing : Network → Option (Network × List (Event Work))
  unfolding contend
  process_packet_queuing n = elim (n.links port).queue.busy [
    | false ↦ let (e, n') = start_service n in enque_at (e ∷ []) n'
    | true ↦ elim preemptive_queue [
      | true ↦ contend (n.links port).queue.packet_transmitting n
      | false ↦ enque_at [] n
    ]
  ]

-- `PacketArrivalEvent::process_event`, before `flow->receive`.
unfoldable pub count_arrival : Packet → Network → Network
count_arrival p n = record n { completed_packets = n.completed_packets + one_if (is_normal p.type) }

-- What QueueProcessingEvent reads besides the queue: `cut_through`, the topology, and the header size
-- of a packet's flow.
module _ (d : Discipline) (cut_through : Bool) (next_hop : Packet → Port → ℕ → Hop)
    (hdr_size : Packet → ℕ) where
  -- When the packet is at its next queue or at its host.
  arrival_time : ℕ → Packet → Link → Option Port → ℕ
  arrival_time time p l none = time + get_transmission_delay l p.size + l.propagation_delay
  arrival_time time p l (some q) =
      if cut_through
      then time + get_transmission_delay l (hdr_size p) + l.propagation_delay
      else time + get_transmission_delay l p.size + l.propagation_delay

  arrival_work : Packet → Option Port → Work
  arrival_work p none = packet_arrival p
  arrival_work p (some q) = packet_queuing p q

  abbrev set_spray : Port → ℕ → Network → Network
  set_spray port spray n = record n {
    links = λ j. if is_same port j then record (n.links j) { spray_counter = spray } else n.links j;
  }

  -- The two events of a packet that leaves for `hop`, and the queue in service.
  unfoldable pub send_on :
      ℕ → Port → Packet → Option Port → ℕ → Network → Network × List (Event Work)
  unfolding new_event set_queue arrival_time arrival_work
  send_on time port p hop spray n =
      let l = n.links port in
      let (served, n') =
        new_event (time + get_transmission_delay l p.size) (queue_processing port) n in
      let (arrives, n'') = new_event (arrival_time time p l hop) (arrival_work p hop) n' in
      (
        set_spray port spray (
            set_queue port
              (record l.queue {
                busy = true;
                packet_transmitting = some p;
                queue_proc_event = some served.unique_id;
                busy_events = served.unique_id ∷ arrives.unique_id ∷ [];
              })
              n''),
        served ∷ arrives ∷ [],
      )

  -- The branch with a packet, over the network with the queue that `deque` left.
  unfoldable pub depart : ℕ → Port → Packet → Network → Option (Network × List (Event Work))
  unfolding send_on
  depart time port p n = do
    (hop, spray) ← next_hop p port (n.links port).spray_counter
    some (send_on time port p hop spray n)

  -- The branch without one.
  unfoldable pub rest : Port → Network → Network
  unfolding set_queue
  rest port n =
      set_queue port
        (record (n.links port).queue {
          busy = false;
          busy_events = [];
          packet_transmitting = none;
          queue_proc_event = none;
        })
        n

  -- `QueueProcessingEvent::process_event`
  unfoldable pub process_queue_processing :
      ℕ → Port → Network → Option (Network × List (Event Work))
  unfolding depart rest set_queue
  process_queue_processing time port n = do
    (out, q, net) ← d.deque time (n.links port).queue n.net
    let n' = set_queue port q (record n { net = net })
    elim out [ none ↦ some (rest port n', []) | some p ↦ depart time port p n' ]

abbrev is_event : ℕ → Option ℕ → Bool
is_event id none = false
is_event id (some e) = e == id

-- The destructors of the three events.
unfoldable pub destroy : Event Work → Network → Network
unfolding set_queue
destroy ev n = elim ev.work [
  | packet_queuing p q ↦ n
  | packet_arrival p ↦ n
  | queue_processing q ↦
      if is_event ev.unique_id (n.links q).queue.queue_proc_event
      then set_queue q (record (n.links q).queue { queue_proc_event = none; busy = false }) n
      else n
  | host_work k ↦ n
]

-- `process_event` of an event, over `flow->receive` and the events of hosts and flows.
module _ (d : Discipline) (preemptive_queue cut_through : Bool) (next_hop : Packet → Port → ℕ → Hop)
    (hdr_size : Packet → ℕ) (receive : ℕ → Packet → Network → Option (Network × List (Event Work)))
    (host_event : ℕ → ℕ → Network → Option (Network × List (Event Work))) where
  unfoldable pub process_event : ℕ → Event Work → Network → Option (Network × List (Event Work))
  unfolding count_arrival
  process_event now ev n = elim ev.work [
    | packet_queuing p q ↦ process_packet_queuing d preemptive_queue now p q n
    | packet_arrival p ↦ receive now p (count_arrival p n)
    | queue_processing q ↦ process_queue_processing d cut_through next_hop hdr_size now q n
    | host_work k ↦ host_event now k n
  ]
