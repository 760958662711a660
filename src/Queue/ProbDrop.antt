-- ===== src/Queue/ProbDrop.antt =====
-- ProbDropQueue of simulator/coresim/queue.cpp, a drop-tail queue that also drops packets at random.
-- `rand()` is an argument, and `r < drop_prob` is compared as fractions: the source's doubles are
-- rounded. `new QueueProcessingEvent(get_current_time(), this)` is the time at which it is due.
use ruf.Prelude.{
  ℕ, ◌+◌, ◌*◌, ◌≡◌, refl, ap, Bool, true, false, List, [], ◌∷◌, ◌++◌, some, length, length-append,
  one_if, leb, ltb, if◌then◌else◌, Bool-cases, inl, inr, arith, ap, sym, subst,
}
use ruf.Prelude.Words.{add32}
use ruf.Queue.{Packet, Net, Queue, arrive, push_back, enque, drop}

-- `drop_prob`, and `RAND_MAX` of the C library.
pub record DropProb : Type 0 where
  pub numerator : ℕ
  pub denominator : ℕ
  pub rand_max : ℕ

-- `r < drop_prob` for the number drawn.
unfoldable pub is_dropped : DropProb → ℕ → Bool
is_dropped d draw = ltb (draw * d.denominator) (d.numerator * d.rand_max)

-- The part under `if (!busy)`, for the value of `busy`, with the events that it adds.
unfoldable pub start_if_idle : Bool → ℕ → Packet → Queue → Queue × List ℕ
start_if_idle true now p q = (q, [])
start_if_idle false now p q = (record q { busy = true; packet_transmitting = some p }, now ∷ [])

unfoldable pub prob_enque : DropProb → ℕ → ℕ → Packet → Queue → Queue × List ℕ
unfolding is_dropped start_if_idle
prob_enque d now draw p q =
    if leb (add32 q.bytes_in_queue p.size) q.limit_bytes
    then if is_dropped d draw
      then (arrive p q, [])
      else start_if_idle q.busy now p (push_back p (arrive p q))
    else (arrive p q, [])

-- A call, with its time and the number that it would draw.
pub record Arrival : Type 0 where
  pub now : ℕ
  pub draw : ℕ
  pub packet : Packet

abbrev pub prob_run : DropProb → List Arrival → Queue → Queue × List ℕ
prob_run d [] q = (q, [])
prob_run d (a ∷ more) q =
    let (r, added) = prob_enque d a.now a.draw a.packet q in
    let (s, rest) = prob_run d more r in (s, added ++ rest)

-- The packets that the draws let through.
abbrev pub kept : DropProb → List Arrival → List Packet
kept d [] = []
kept d (a ∷ more) = if is_dropped d a.draw then kept d more else a.packet ∷ kept d more

abbrev pub enque_run : List Packet → Queue → Net → Queue × Net
enque_run [] q net = (q, net)
enque_run (p ∷ ps) q net = let (r, net') = enque p q net in enque_run ps r net'

-- The same packets and bytes under the same limit.
pub record SamePackets (q r : Queue) : Type 0 where
  pub packets : q.packets ≡ r.packets
  pub bytes : q.bytes_in_queue ≡ r.bytes_in_queue
  pub limit : q.limit_bytes ≡ r.limit_bytes

start_if_idle-SamePackets :
    (busy : Bool) (now : ℕ) (p : Packet) (q r : Queue)
    → SamePackets q r
    → SamePackets (start_if_idle busy now p q).0 r
unfolding start_if_idle
start_if_idle-SamePackets true now p q r s = s
start_if_idle-SamePackets false now p q r s = record {
  packets = s.packets;
  bytes = s.bytes;
  limit = s.limit;
}

start_if_idle-busy :
    (busy : Bool) (now : ℕ) (p : Packet) (q : Queue)
    → q.busy ≡ busy
    → length (start_if_idle busy now p q).1 + one_if busy
      ≡ one_if (start_if_idle busy now p q).0.busy
unfolding start_if_idle
start_if_idle-busy true now p q e = rw e refl
start_if_idle-busy false now p q e = refl

enque-fits :
    (p : Packet) (q : Queue) (net : Net)
    → leb (add32 q.bytes_in_queue p.size) q.limit_bytes ≡ true
    → enque p q net ≡ (push_back p (arrive p q), net)
unfolding enque
enque-fits p q net fits = rw fits refl

enque-full :
    (p : Packet) (q : Queue) (net : Net)
    → leb (add32 q.bytes_in_queue p.size) q.limit_bytes ≡ false
    → enque p q net ≡ (record (arrive p q) { pkt_drop = q.pkt_drop + 1 }, drop q p net)
unfolding enque
enque-full p q net full = rw full refl

module _ (d : DropProb) (now draw : ℕ) (p : Packet) (q : Queue) where
  prob_enque-full :
      leb (add32 q.bytes_in_queue p.size) q.limit_bytes ≡ false
      → prob_enque d now draw p q ≡ (arrive p q, [])
  unfolding prob_enque
  prob_enque-full full = rw full refl

  prob_enque-lost : is_dropped d draw ≡ true → prob_enque d now draw p q ≡ (arrive p q, [])
  unfolding prob_enque
  prob_enque-lost lost = elim (Bool-cases (leb (add32 q.bytes_in_queue p.size) q.limit_bytes)) [
    | inl fits ↦ rw (fits, lost) refl
    | inr full ↦ rw full refl
  ]

  prob_enque-kept :
      leb (add32 q.bytes_in_queue p.size) q.limit_bytes ≡ true
      → is_dropped d draw ≡ false
      → prob_enque d now draw p q ≡ start_if_idle q.busy now p (push_back p (arrive p q))
  unfolding prob_enque
  prob_enque-kept fits stays = rw (fits, stays) refl

  arrive-SamePackets : (r : Queue) → SamePackets q r → SamePackets (arrive p q) r
  arrive-SamePackets r s = record { packets = s.packets; bytes = s.bytes; limit = s.limit }

  lost-SamePackets :
      (r : Queue)
      → SamePackets q r
      → is_dropped d draw ≡ true
      → SamePackets (prob_enque d now draw p q).0 r
  lost-SamePackets r s lost =
      subst (λ t. SamePackets t.0 r) (sym (prob_enque-lost lost)) (arrive-SamePackets r s)

  -- A packet that the draw lets through, in a call here and in one of the drop-tail queue.
  kept-SamePackets :
      (r : Queue) (net : Net)
      → SamePackets q r
      → is_dropped d draw ≡ false
      → SamePackets (prob_enque d now draw p q).0 (enque p r net).0
  kept-SamePackets r net s stays =
      elim (Bool-cases (leb (add32 q.bytes_in_queue p.size) q.limit_bytes)) [
        | inl fits ↦
            rw (prob_enque-kept fits stays, enque-fits p r net (cc))
              (start_if_idle-SamePackets q.busy now p _ _ (record {
                packets = ap (λ l. l ++ p ∷ []) s.packets;
                bytes = ap (λ b. add32 b p.size) s.bytes;
                limit = s.limit;
              }))
        | inr full ↦
            rw (prob_enque-full full, enque-full p r net (cc))
              (record { packets = s.packets; bytes = s.bytes; limit = s.limit })
      ]

  prob_enque-busy :
      length (prob_enque d now draw p q).1 + one_if q.busy
      ≡ one_if (prob_enque d now draw p q).0.busy
  prob_enque-busy = elim (Bool-cases (leb (add32 q.bytes_in_queue p.size) q.limit_bytes)) [
    | inl fits ↦ elim (Bool-cases (is_dropped d draw)) [
      | inl lost ↦ rw (prob_enque-lost lost) (omega arith)
      | inr stays ↦ rw (prob_enque-kept fits stays) (start_if_idle-busy q.busy now p _ refl)
    ]
    | inr full ↦ rw (prob_enque-full full) (omega arith)
  ]

runs-SamePackets :
    (d : DropProb) (more : List Arrival) (q r : Queue) (net : Net)
    → SamePackets q r
    → SamePackets (prob_run d more q).0 (enque_run (kept d more) r net).0
runs-SamePackets d [] q r net s = s
runs-SamePackets d (a ∷ more) q r net s = elim (Bool-cases (is_dropped d a.draw)) [
  | inl lost ↦
      rw lost
        (runs-SamePackets d more _ r net (lost-SamePackets d a.now a.draw a.packet q r s lost))
  | inr stays ↦
      rw stays
        (runs-SamePackets d more _ _ _ (kept-SamePackets d a.now a.draw a.packet q r net s stays))
]

runs-busy :
    (d : DropProb) (more : List Arrival) (q : Queue)
    → length (prob_run d more q).1 + one_if q.busy ≡ one_if (prob_run d more q).0.busy
runs-busy d [] q = omega arith
runs-busy d (a ∷ more) q =
    let first = prob_enque-busy d a.now a.draw a.packet q in
    let later = runs-busy d more (prob_enque d a.now a.draw a.packet q).0 in
    omega (
      arith,
      first,
      later,
      length-append (prob_enque d a.now a.draw a.packet q).1
          (prob_run d more (prob_enque d a.now a.draw a.packet q).0).1,
    )

-- A queue that drops at random is a drop-tail queue behind a random filter: after any calls it has
-- the packets, in order, and the byte count of a drop-tail queue on which only the packets that
-- the draws let through were enqueued. The calls add one event when they make an idle queue busy,
-- and none otherwise.
pub prob_run-filters :
    (d : DropProb) (calls : List Arrival) (q : Queue) (net : Net)
    → SamePackets (prob_run d calls q).0 (enque_run (kept d calls) q net).0
      × (length (prob_run d calls q).1 + one_if q.busy ≡ one_if (prob_run d calls q).0.busy)
prob_run-filters d calls q net = (
  runs-SamePackets d calls q q net (record { packets = refl; bytes = refl; limit = refl }),
  runs-busy d calls q,
)
