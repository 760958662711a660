-- ===== src/Lib.antt =====
-- Models and theorems for the RUF protocol and its packet-level simulator (simulator/, C++).
--
-- The program. RUF schedules flows in a data centre by receivers. A host that receives
-- (RankingHost) keeps, for each source, a priority queue of the flows from it. It sends the
-- list of its sources, best first, to the arbiter (RankingArbiter). In each epoch the arbiter takes
-- the pending requests by a random rank of their hosts and gives each free destination its first free source,
-- by a GoSrc packet. The receiver then sends a bounded number of tokens, one for each packet time, to the
-- flows of that source; a token lets the source send one data packet (RankingFlow). Short flows
-- start with free tokens and need no grant. PIM, which RUF is compared with, matches the hosts in
-- rounds of requests, grants and accepts between them. Under the protocol stand the queues of the links
-- (Queue, PFabricQueue, DctcpQueue), the events that move packets from queue to queue along the
-- routes of a topology, and the loop that processes the events in the order of their times.
--
-- The files.
--   Prelude and below: numbers, integers, 32-bit words, lists, faults, vectors of states.
--   Params: the fields of simulator/run/params.h that the models read, and `packet_priority`, which
--     Params/Priority is about.
--   StdQueue: `std::priority_queue` as an interface with the laws that its documentation promises;
--     the events and the capabilities are kept in one, and Examples/ListQueue is an instance.
--   PriorityQueue: simulator/ext/custompriorityqueue.h, with its remembered index. Best and Drain
--     say what `top`, `pop` and a loop over them do under a strict weak order; Checked has the same
--     calls over a comparator that may hit an assert.
--   Ranking/Arbiter: RankingArbiter of simulator/ext/rankinghost.cpp. `schedule_epoch` runs
--     `serve_pending` (the while loop), which runs `serve` (its body) with `first_free` (the inner
--     loop) and `grant`. Serve has the greedy pass that the loop computes; Epoch, Matching, Stable
--     and Balance have the theorems.
--   Ranking/Flow: simulator/ext/rankingflow.cpp: the sender's tokens and the receiver's counts.
--   Ranking/Comparators: the comparators of simulator/ext/rankinghost.cpp. The one of the receiver's
--     queues calls `token_gap`, whose assert may fail; `receiver_order` is its value.
--   Ranking/Host: RankingHost as a receiver. Host has its state, `get_top_unfinish_flow` and the
--     events; Listing has `send_listSrcs` and `wakeup`; Sending has `send_token` and
--     `send_token_pkt`; Receiving has the handlers of the packets that arrive. Unfinished,
--     Listed, Window and Offers have the theorems.
--   Ranking/Sender: RankingHost as a sender, with HostProcessingEvent. Loop has the loop of `send`
--     over the active flows, Agrees what the loop leaves of them, Sent the call.
--   Capability: CapabilityFlow of simulator/ext/capabilityflow.cpp. Held is about the capabilities
--     at the sender; View shows the receiver's side to be that of RankingFlow; Choice is the random
--     choice of a flow in simulator/ext/capabilityhost.cpp.
--   Pim: PimFlow of simulator/ext/pimflow.cpp, with Next on the packet to send and Acks on the
--     acknowledgements. Pim/Host is the host of simulator/ext/pimhost.cpp with its flows, Pim/Sending
--     its `send` and the flow's `receive_ack`, Pim/Epoch the requests, grants and accepts of an
--     epoch, and Pim/Receive what the flow does with these packets. Pim/Network has all hosts and the
--     packets between them as a step relation; Balance, Accepts, Rounds, Kept and Begin carry its
--     invariant, Matching and Asserts have the theorems.
--     Pim/Life is the life of a flow as a step relation, with Alive on each step; Sending/Window and
--     Tried are about one attempt to send, Sending/Waiting, Rounds, Served and Woken about the call
--     of `send`.
--   Topology: simulator/coresim/topology.cpp and simulator/ext/rankingTopology.cpp: the wiring and
--     `get_next_hop`. Routes has the way of a packet, Delivery and Ranking the theorems.
--   Events: EventComparator and `run_scenario` of simulator/coresim/main.cpp; Order is about the time.
--     The comparator takes times closer than 1e-15 seconds for the same, so it is an order only on
--     events that are spaced more widely; the unit of time is a parameter there.
--   Links: PacketQueuingEvent, QueueProcessingEvent and PacketArrivalEvent of
--     simulator/coresim/event.cpp, over a class of queue (the record Discipline) and a topology.
--     Classes says what a class must do, and that two of them do it; Serving and Processing have
--     the state of the queues.
--   RandomVariable: the searches in a CDF table of simulator/coresim/random_variable.cpp.
--   Flow: simulator/coresim/flow.cpp and simulator/ext/pfabricflow.cpp, the flow with a sliding window
--     that pFabric and TCP stand on; Window is about what it sends, Acks about its
--     acknowledgements.
--   Queue: simulator/coresim/queue.cpp, with ProbDropQueue in ProbDrop; Queue/Pfabric and
--     Queue/Dctcp the two queues of simulator/ext/pfabricqueue.cpp and simulator/ext/dctcpQueue.cpp.
--   Examples: runs on small inputs, and each theorem applied at one.
--
-- How the code is modelled. A pointer to a flow, a host or a packet is its id, and what a method
-- changes is part of its result. A failed `assert`, a null dereference and a read past the end of
-- a deque are `none`; the arbiter's vectors are read with a default, as its comment says. Time is
-- a number of ticks of 1e-12 seconds (INFINITESIMAL_TIME is one), in place of doubles; Events has
-- a finer unit. Sizes of type `uint32_t` that the code adds and subtracts wrap at 2^32; the
-- counters of the RUF, pHost and PIM flows do not wrap, and an `int` that may be -1 is an
-- integer, which is converted where the code compares it with a `uint32_t`. `rand()` and
-- `std::random_shuffle` are arguments. Output for debugging is left out.
--
-- Fuel. `serve_pending` has one more round than there are pending requests, and the loop of
-- `get_top_unfinish_flow` one more than there are flows in the source's queue: every round takes one
-- out, which makes these enough. The search for the next token has the source's
-- own bound. The loop of `send_token` has two more rounds than there are short flows.
-- The acknowledgement loop of Flow has two more rounds than the largest sequence number, and its
-- sending loop one more than the flow's size: each round moves on by at least one byte.
-- The loop of `send` has one more round than there are active flows, and that of `has_capability`
-- one more than there are capabilities. The search in a table has as many rounds as the table
-- entries, and `packet_priority` one more than the packets of the flow. A route has four hops.
-- In PIM the loops over a queue have one more round than the queue has entries, and that of `send`
-- two more than there are short flows.
-- `run_scenario` need not end, so its theorem is about every turn of the loop.
--
-- Not modelled: the other transports of simulator/ext (the rest of the host of Capability,
-- Fastpass, Magic, Ideal), the Fastpass topology, flow arrivals and the creation of flows, the
-- statistics, the drawing of random numbers and the reading of configuration files; completion
-- times, which are floating point; the C prototype in prototype/; the scripts in simulator/py.
pub mod Prelude
pub mod PriorityQueue
pub mod Params
pub mod Ranking
pub mod Flow
pub mod Queue
pub mod Topology
pub mod StdQueue
pub mod Events
pub mod Links
pub mod Capability
pub mod Pim
pub mod RandomVariable
mod Examples
