-- ===== src/Links/Processing.antt =====
-- QueueProcessingEvent of simulator/coresim/event.cpp: the end of a packet's transmission and the start of
-- the next.
use ruf.Prelude.{
  ℕ, ◌+◌, ◌≡◌, refl, sym, subst, ◌∙◌, Bool, true, false, List, [], ◌∷◌, ◌++◌, Option, none, some,
  Bool-cases, inl, inr, arith, count, one_if,
}
use ruf.Queue.{Queue, Packet, Net}
use ruf.Topology.{Port, Hop}
use ruf.Events.{Event}
use ruf.Links.{
  Discipline, Work, queue_processing, Network, is_same, set_queue, new_event,
  process_queue_processing, send_on, depart, rest,
}
use ruf.Links.Classes.{Lawful, with_service}
use ruf.Links.Serving.{serves, is_same_refl, Served, AllServed, Changed, Changed-AllServed}

module _ (d : Discipline) (law : Lawful d) (cut_through : Bool) (next_hop : Packet → Port → ℕ → Hop)
    (hdr_size : Packet → ℕ) (time : ℕ) (port : Port) (n : Network) where
  abbrev with_deque : Queue → Net → Network
  with_deque q net = set_queue port q (record n { net = net })

  abbrev process : Option (Network × List (Event Work))
  process = process_queue_processing d cut_through next_hop hdr_size time port n

  rest_runs :
      (q : Queue) (net : Net)
      → d.deque time (n.links port).queue n.net ≡ some (none, q, net)
      → process ≡ some (rest d cut_through next_hop hdr_size port (with_deque q net), [])
  unfolding process_queue_processing
  rest_runs q net runs = rw runs

  rest-Changed :
      (q : Queue) (net : Net)
      → Changed d law port
          (with_service false none [] none q)
          n
          (rest d cut_through next_hop hdr_size port (with_deque q net))
  unfolding rest set_queue
  rest-Changed q net j = elim (Bool-cases (is_same port j)) [
    | inl s ↦ rw (s, is_same_refl port)
    | inr s ↦ rw s
  ]

  abbrev sent : Packet → Option Port → ℕ → Queue → Net → Network × List (Event Work)
  sent p hop spray q net =
      send_on d cut_through next_hop hdr_size time port p hop spray (with_deque q net)

  sent_runs :
      (p : Packet) (hop : Option Port) (spray : ℕ) (q : Queue) (net : Net)
      → d.deque time (n.links port).queue n.net ≡ some (some p, q, net)
      → next_hop p port (n.links port).spray_counter ≡ some (hop, spray)
      → process ≡ some (sent p hop spray q net)
  unfolding process_queue_processing depart set_queue
  sent_runs p hop spray q net runs routed = rw (runs, is_same_refl port, routed)

  abbrev in_service : Packet → Queue → Queue
  in_service p q =
      with_service true (some n.instance_count) (n.instance_count ∷ (n.instance_count + 1) ∷ [])
        (some p) q

  sent-Changed :
      (p : Packet) (hop : Option Port) (spray : ℕ) (q : Queue) (net : Net)
      → Changed d law port (in_service p q) n (sent p hop spray q net).0
  unfolding send_on new_event set_queue
  sent-Changed p hop spray q net j = elim (Bool-cases (is_same port j)) [
    | inl s ↦ rw (s, is_same_refl port)
    | inr s ↦ rw s
  ]

  sent-serves :
      (p : Packet) (hop : Option Port) (spray : ℕ) (q : Queue) (net : Net) (j : Port)
      (pending : List (Event Work))
      → count (serves j) ((sent p hop spray q net).1 ++ pending)
        ≡ one_if (is_same port j) + count (serves j) pending
  unfolding send_on new_event
  sent-serves p none spray q net j pending = omega arith
  sent-serves p (some next) spray q net j pending = omega arith

  -- `n'` and `added` come out of the event, and with the events that were pending every queue is as
  -- it should be.
  abbrev Processed : List (Event Work) → Network → List (Event Work) → Type 0
  Processed pending n' added = (process ≡ some (n', added)) × AllServed d law n' (added ++ pending)

  -- The packet that `deque` gives has a next hop.
  abbrev Routed : Type 0
  Routed =
      (p : Packet) (q : Queue) (net : Net)
      → d.deque time (n.links port).queue n.net ≡ some (some p, q, net)
      → (hop : Option Port) × (spray : ℕ) × (next_hop p port (n.links port).spray_counter
          ≡ some (hop, spray))

  counts :
      (ev : Event Work) (pending : List (Event Work)) (j : Port)
      → ev.work ≡ queue_processing port
      → count (serves j) (ev ∷ pending) ≡ one_if (is_same port j) + count (serves j) pending
  counts ev pending j e = rw e

  others :
      (ev : Event Work) (pending : List (Event Work)) (k : ℕ) (j : Port)
      → ev.work ≡ queue_processing port
      → AllServed d law n (ev ∷ pending)
      → is_same port j ≡ false
      → k ≡ one_if (is_same port j) + count (serves j) pending
      → Served d law (n.links j).queue k
  others ev pending k j e served other same =
      subst (Served d law (n.links j).queue) (counts ev pending j e ∙ sym same) (served j)

  -- The event was the only one for its queue.
  none_left :
      (ev : Event Work) (pending : List (Event Work))
      → ev.work ≡ queue_processing port
      → AllServed d law n (ev ∷ pending)
      → count (serves port) pending ≡ 0
  none_left ev pending e served =
      ground (arith, counts ev pending port e, (served port).once, is_same_refl port)

  deque_cases :
      (ev : Event Work) (pending : List (Event Work)) (out : Option Packet) (q : Queue) (net : Net)
      → ev.work ≡ queue_processing port
      → AllServed d law n (ev ∷ pending)
      → Routed
      → d.deque time (n.links port).queue n.net ≡ some (out, q, net)
      → law.Inv q
      → (out ≡ none → q.packets ≡ [])
      → (n' : Network) × (added : List (Event Work)) × Processed pending n' added
  deque_cases ev pending none q net e served routed runs valid empties = (
    rest d cut_through next_hop hdr_size port (with_deque q net),
    [],
    (
      rest_runs q net runs,
      Changed-AllServed d law port (with_service false none [] none q) n
          (rest d cut_through next_hop hdr_size port (with_deque q net)) pending
          (rest-Changed q net)
          (record {
            valid = law.service-Inv _ _ _ _ _ valid;
            once = none_left ev pending e served;
            working = λ _. empties refl;
          })
          (λ j other.
            others ev pending (count (serves j) pending) j e served other (ground (arith, other))),
    ),
  )
  deque_cases ev pending (some p) q net e served routed runs valid empties =
      let (hop, spray, hops) = routed p q net runs in
      (
        (sent p hop spray q net).0,
        (sent p hop spray q net).1,
        (
          sent_runs p hop spray q net runs hops,
          Changed-AllServed d law port (in_service p q) n (sent p hop spray q net).0
              ((sent p hop spray q net).1 ++ pending) (sent-Changed p hop spray q net)
              (record {
                valid = law.service-Inv _ _ _ _ _ valid;
                once = ground (
                  arith,
                  none_left ev pending e served,
                  sent-serves p hop spray q net port pending,
                  is_same_refl port,
                );
                working = λ idle. absurd (cc);
              })
              (λ j other.
                others ev pending _ j e served other (sent-serves p hop spray q net j pending)),
        ),
      )

  -- When the event of a queue of a lawful class is taken from the pending ones, and the packet that
  -- `deque` gives has a next hop: the event returns, every queue is busy exactly while one event
  -- that processes it is pending, and none that is idle holds a packet, if this was so before.
  pub process_queue_processing-AllServed :
      (ev : Event Work) (pending : List (Event Work))
      → ev.work ≡ queue_processing port
      → AllServed d law n (ev ∷ pending)
      → Routed
      → (n' : Network) × (added : List (Event Work)) × Processed pending n' added
  process_queue_processing-AllServed ev pending e served routed =
      let (out, q, net, runs, valid, same, empties) =
        law.deque-Inv time (n.links port).queue n.net (served port).valid in
      deque_cases ev pending out q net e served routed runs valid empties
