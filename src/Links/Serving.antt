-- ===== src/Links/Serving.antt =====
-- The events of simulator/coresim/event.cpp and the queues: a queue is busy exactly while one
-- QueueProcessingEvent for it is pending, and it holds packets only while it is busy.
use ruf.Prelude.{
  ℕ, zero, suc, ◌≡◌, refl, sym, ap, subst, ◌∙◌, Bool, true, false, List, [], ◌∷◌, ◌++◌, some,
  if◌then◌else◌, Bool-cases, inl, inr, arith, count, one_if,
}
use ruf.Queue.{Queue, Packet, Net}
use ruf.Topology.{Port, host_queue, agg_queue, core_queue, arbiter_queue, queue_to_arbiter}
use ruf.Events.{Event}
use ruf.Links.{
  Discipline, Work, packet_queuing, packet_arrival, queue_processing, host_work, Network, code,
  is_same, set_queue, new_event, start_service, enque_at, process_packet_queuing,
}
use ruf.Links.Classes.{Lawful, with_service}

-- An event that processes a queue.
abbrev pub serves : Port → Event Work → Bool
serves j e = elim e.work [
  | packet_queuing p q ↦ false
  | packet_arrival p ↦ false
  | queue_processing q ↦ is_same q j
  | host_work k ↦ false
]

abbrev decode : ℕ × ℕ × ℕ → Port
decode (zero, i, j) = host_queue i
decode (suc zero, i, j) = agg_queue i j
decode (suc (suc zero), i, j) = core_queue i j
decode (suc (suc (suc zero)), i, j) = arbiter_queue
decode (suc (suc (suc (suc n))), i, j) = queue_to_arbiter

decode-code : (a : Port) → decode (code a) ≡ a
decode-code (host_queue i) = refl
decode-code (agg_queue i j) = refl
decode-code (core_queue i j) = refl
decode-code arbiter_queue = refl
decode-code queue_to_arbiter = refl

pub is_same_refl : (a : Port) → is_same a a ≡ true
is_same_refl (host_queue i) = ground arith
is_same_refl (agg_queue i j) = ground arith
is_same_refl (core_queue i j) = ground arith
is_same_refl arbiter_queue = refl
is_same_refl queue_to_arbiter = refl

is_same_sound : (a b : Port) → is_same a b ≡ true → a ≡ b
is_same_sound a b h =
    let k : (code a).0 ≡ (code b).0 = ground arith in
    let i : (code a).1 ≡ (code b).1 = ground arith in
    let j : (code a).2 ≡ (code b).2 = ground arith in
    sym (decode-code a)
    ∙ ap (λ x. decode (x, (code a).1, (code a).2)) k
    ∙ ap (λ x. decode ((code b).0, x, (code a).2)) i
    ∙ ap (λ x. decode ((code b).0, (code b).1, x)) j
    ∙ decode-code b

module _ (d : Discipline) (law : Lawful d) where
  -- A queue for which `k` events are pending that process it.
  pub record Served (q : Queue) (k : ℕ) : Type 0 where
    pub valid : law.Inv q
    pub once : k ≡ one_if q.busy
    pub working : q.busy ≡ false → q.packets ≡ []

  abbrev pub AllServed : Network → List (Event Work) → Type 0
  AllServed n pending = (j : Port) → Served (n.links j).queue (count (serves j) pending)

  -- The network `n'` has the queue `q` at `port`, and at the others the queues of `n`.
  abbrev pub Changed : Port → Queue → Network → Network → Type 0
  Changed port q n n' =
      (j : Port) → (n'.links j).queue ≡ (if is_same port j then q else (n.links j).queue)

  pub set_queue-Changed :
      (port : Port) (q : Queue) (n : Network) → Changed port q n (set_queue port q n)
  unfolding set_queue
  set_queue-Changed port q n j = elim (Bool-cases (is_same port j)) [ inl s ↦ rw s | inr s ↦ rw s ]

  pub Changed-AllServed :
      (port : Port) (q : Queue) (n n' : Network) (pending : List (Event Work))
      → Changed port q n n'
      → Served q (count (serves port) pending)
      → ((j : Port) → is_same port j ≡ false → Served (n.links j).queue (count (serves j) pending))
      → AllServed n' pending
  Changed-AllServed port q n n' pending changed here there j = elim (Bool-cases (is_same port j)) [
    | inl s ↦
        let e : (n'.links j).queue ≡ q = changed j ∙ rw s in
        subst (λ r. Served r (count (serves j) pending)) (sym e)
          (subst (λ i. Served q (count (serves i) pending)) (is_same_sound port j s) here)
    | inr s ↦
        let e : (n'.links j).queue ≡ (n.links j).queue = changed j ∙ rw s in
        subst (λ r. Served r (count (serves j) pending)) (sym e) (there j s)
  ]

  -- A queue after `enque` in service.
  enque-Served :
      (now : ℕ) (p : Packet) (q : Queue) (net : Net)
      → law.Inv q
      → law.Fits q.limit_bytes p
      → q.busy ≡ true
      → (q' : Queue) × (net' : Net) × (d.enque now p q net ≡ some (q', net')) × Served q' 1
  enque-Served now p q net valid fits busy =
      let (q', net', runs, valid', same) = law.enque-Inv now p q net valid fits in
      let busy' : q'.busy ≡ true = ap (λ s. s.0) same ∙ busy in
      (q', net', runs, record { valid = valid'; once = rw busy'; working = λ idle. absurd (cc) })

  module _ (preemptive_queue : Bool) (now : ℕ) (p : Packet) (port : Port) (n : Network) where
    abbrev Queued : Network → List (Event Work) → List (Event Work) → Type 0
    Queued n' added pending =
        (process_packet_queuing d preemptive_queue now p port n ≡ some (n', added))
        × AllServed n' (added ++ pending)

    busy_runs :
        (q : Queue) (net : Net)
        → preemptive_queue ≡ false
        → (n.links port).queue.busy ≡ true
        → d.enque now p (n.links port).queue n.net ≡ some (q, net)
        → process_packet_queuing d preemptive_queue now p port n
          ≡ some (set_queue port q (record n { net = net }), [])
    unfolding process_packet_queuing enque_at
    busy_runs q net plain busy runs = rw (busy, plain, runs, process_packet_queuing)

    abbrev started : Network
    started = (start_service d preemptive_queue now p port n).1

    abbrev service_event : Event Work
    service_event = (start_service d preemptive_queue now p port n).0

    abbrev in_service : Queue
    in_service =
        with_service true (some n.instance_count) (n.links port).queue.busy_events (some p)
          (n.links port).queue

    idle_runs :
        (q : Queue) (net : Net)
        → (n.links port).queue.busy ≡ false
        → d.enque now p in_service n.net ≡ some (q, net)
        → process_packet_queuing d preemptive_queue now p port n
          ≡ some (set_queue port q (record started { net = net }), service_event ∷ [])
    unfolding process_packet_queuing enque_at start_service new_event set_queue
    idle_runs q net idle runs = rw (idle, is_same_refl port, runs, process_packet_queuing)

    idle-Changed :
        (q : Queue) (net : Net) → Changed port q n (set_queue port q (record started { net = net }))
    unfolding start_service new_event set_queue
    idle-Changed q net j = elim (Bool-cases (is_same port j)) [ inl s ↦ rw s | inr s ↦ rw s ]

    queue_busy :
        (pending : List (Event Work))
        → preemptive_queue ≡ false
        → law.Fits (n.links port).queue.limit_bytes p
        → AllServed n pending
        → (n.links port).queue.busy ≡ true
        → (n' : Network) × (added : List (Event Work)) × Queued n' added pending
    queue_busy pending plain fits served busy =
        let here = served port in
        let (q, net, runs, served') =
          enque-Served now p (n.links port).queue n.net here.valid fits busy in
        (
          set_queue port q (record n { net = net }),
          [],
          (
            busy_runs q net plain busy runs,
            Changed-AllServed port q n (set_queue port q (record n { net = net })) pending
                (set_queue-Changed port q (record n { net = net }))
                (subst (Served q) (sym (here.once ∙ ap one_if busy)) served') (λ j other. served j),
          ),
        )

    counts_here :
        (pending : List (Event Work))
        → count (serves port) pending ≡ 0
        → 1 ≡ count (serves port) (service_event ∷ pending)
    unfolding start_service new_event
    counts_here pending h = rw (is_same_refl port, h)

    counts_there :
        (j : Port) (pending : List (Event Work))
        → is_same port j ≡ false
        → count (serves j) pending ≡ count (serves j) (service_event ∷ pending)
    unfolding start_service new_event
    counts_there j pending other = ground (arith, other)

    queue_idle :
        (pending : List (Event Work))
        → law.Fits (n.links port).queue.limit_bytes p
        → AllServed n pending
        → (n.links port).queue.busy ≡ false
        → (n' : Network) × (added : List (Event Work)) × Queued n' added pending
    queue_idle pending fits served idle =
        let here = served port in
        let (q, net, runs, served') =
          enque-Served now p in_service n.net (law.service-Inv _ _ _ _ _ here.valid) fits refl in
        (
          set_queue port q (record started { net = net }),
          service_event ∷ [],
          (
            idle_runs q net idle runs,
            Changed-AllServed port q n (set_queue port q (record started { net = net }))
                (service_event ∷ pending) (idle-Changed q net)
                (subst (Served q) (counts_here pending (here.once ∙ ap one_if idle)) served')
                (λ j other.
                  subst (Served (n.links j).queue) (counts_there j pending other) (served j)),
          ),
        )

    -- Without preemption, a packet that gets to a queue of a lawful class that it fits: the event
    -- returns, every queue is busy exactly while one event that processes it is pending, and none
    -- that is idle holds a packet, if this was so before.
    pub process_packet_queuing-AllServed :
        (pending : List (Event Work))
        → preemptive_queue ≡ false
        → law.Fits (n.links port).queue.limit_bytes p
        → AllServed n pending
        → (n' : Network) × (added : List (Event Work)) × Queued n' added pending
    process_packet_queuing-AllServed pending plain fits served =
        elim (Bool-cases (n.links port).queue.busy) [
          | inl busy ↦ queue_busy pending plain fits served busy
          | inr idle ↦ queue_idle pending fits served idle
        ]
