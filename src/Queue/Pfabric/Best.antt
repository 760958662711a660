-- ===== src/Queue/Pfabric/Best.antt =====
-- Which packet `PFabricQueue::deque` takes: the oldest one of a flow that has a packet of the best
-- priority.
use ruf.Prelude.{
  ℕ, zero, suc, ◌+◌, ◌-◌, ◌≤◌, ◌<◌, ◌≡◌, ◌≢◌, refl, sym, ap, ◌∙◌, subst, ◌⊎◌, inl, inr, true, false,
  List, [], ◌∷◌, Option, none, some, get_elem?, erase_idx, All, lt→ltb, ltb, ◌==◌, Bool-cases,
  arith,
}
use ruf.Prelude.Words.{word, sub32}
use ruf.Queue.{Queue, Packet, Net}
use ruf.Queue.Pfabric.{best_loop, first_of_flow, pfabric_deque, depart_stats}

-- The first loop keeps a packet of the best priority met so far.
record IsLeast (ps : List Packet) (start : ℕ) (b : Packet) : Type 0 where
  lower : b.pf_priority ≤ start
  least : All (λ y. b.pf_priority ≤ y.pf_priority) ps

best_loop_better :
    (p : Packet) (ps : List Packet) (start : ℕ) (o : Option Packet)
    → ltb p.pf_priority start ≡ true
    → best_loop (p ∷ ps) start o ≡ best_loop ps p.pf_priority (some p)
unfolding best_loop
best_loop_better p ps start o h = rw h

best_loop_worse :
    (p : Packet) (ps : List Packet) (start : ℕ) (o : Option Packet)
    → ltb p.pf_priority start ≡ false
    → best_loop (p ∷ ps) start o ≡ best_loop ps start o
unfolding best_loop
best_loop_worse p ps start o h = rw h

-- Started from a packet, the loop returns that packet or one of the list.
best_loop-IsLeast :
    (ps : List Packet) (b : Packet)
    → (r : Packet) × (best_loop ps b.pf_priority (some b) ≡ some r)
      × IsLeast ps b.pf_priority r
      × ((r ≡ b) ⊎ ((i : ℕ) × (get_elem? ps i ≡ some r)))
unfolding best_loop
best_loop-IsLeast [] b = (b, refl, record { lower = omega arith; least = tt }, inl refl)
best_loop-IsLeast (p ∷ ps) b = elim (Bool-cases (ltb p.pf_priority b.pf_priority)) [
  | inl better ↦
      let (r, runs, least, from) = best_loop-IsLeast ps p in
      (
        r,
        best_loop_better p ps b.pf_priority (some b) better ∙ runs,
        record { lower = ground (arith, least.lower); least = (least.lower, least.least) },
        inr (elim from [ inl e ↦ (0, ap some (sym e)) | inr (i, e) ↦ (suc i, e) ]),
      )
  | inr worse ↦
      let (r, runs, least, from) = best_loop-IsLeast ps b in
      (
        r,
        best_loop_worse p ps b.pf_priority (some b) worse ∙ runs,
        record { lower = least.lower; least = (ground (arith, least.lower), least.least) },
        elim from [ inl e ↦ inl e | inr (i, e) ↦ inr (suc i, e) ],
      )
]

best_loop-start :
    (p : Packet) (ps : List Packet)
    → p.pf_priority < word - 1
    → (r : Packet) × (best_loop (p ∷ ps) (word - 1) none ≡ some r)
      × (i : ℕ) × (get_elem? (p ∷ ps) i ≡ some r)
      × All (λ y. r.pf_priority ≤ y.pf_priority) (p ∷ ps)
best_loop-start p ps h =
    let (r, runs, least, from) = best_loop-IsLeast ps p in
    let (i, at_i) = at from in
    (
      r,
      best_loop_better p ps (word - 1) none (lt→ltb _ _ h) ∙ runs,
      i,
      at_i,
      (least.lower, least.least),
    )
  where
    at :
        {r : Packet}
        → (r ≡ p) ⊎ ((i : ℕ) × (get_elem? ps i ≡ some r))
        → (i : ℕ) × (get_elem? (p ∷ ps) i ≡ some r)
    at (inl e) = (0, ap some (sym e))
    at (inr (i, e)) = (suc i, e)

-- The packet at `j` is the oldest one of the flow.
pub record IsOldest (flow : ℕ) (ps : List Packet) (j : ℕ) (p : Packet) : Type 0 where
  pub here : get_elem? ps j ≡ some p
  pub of_flow : p.flow ≡ flow
  pub first : (l : ℕ) (r : Packet) → l < j → get_elem? ps l ≡ some r → r.flow ≢ flow

Finds : (flow : ℕ) (ps : List Packet) (i : ℕ) → Type 0
Finds flow ps i =
    (j : ℕ) × (p : Packet) × (first_of_flow flow ps i ≡ some (i + j)) × IsOldest flow ps j p

Finds-head :
    (flow : ℕ) (p : Packet) (ps : List Packet) (i : ℕ)
    → (p.flow == flow) ≡ true
    → Finds flow (p ∷ ps) i
unfolding Finds first_of_flow
Finds-head flow p ps i h = (
  0,
  p,
  rw h (ap some (omega arith)),
  record { here = refl; of_flow = ground arith; first = λ l r lt. absurd (omega arith) },
)

Finds-tail :
    (flow : ℕ) (p : Packet) (ps : List Packet) (i : ℕ)
    → (p.flow == flow) ≡ false
    → Finds flow ps (i + 1)
    → Finds flow (p ∷ ps) i
unfolding Finds first_of_flow
Finds-tail flow p ps i h (j, r, runs, oldest) = (
  suc j,
  r,
  rw h (runs ∙ ap some (omega arith)),
  record { here = oldest.here; of_flow = oldest.of_flow; first = first },
)
  where
    first : (l : ℕ) (s : Packet) → l < suc j → get_elem? (p ∷ ps) l ≡ some s → s.flow ≢ flow
    first zero s lt e = λ same. ground arith
    first (suc l) s lt e = oldest.first l s (omega arith) e

-- The second loop finds the oldest packet of the flow, if there is one.
first_of_flow-Finds :
    (flow : ℕ) (ps : List Packet) (i k : ℕ) (b : Packet)
    → get_elem? ps k ≡ some b
    → b.flow ≡ flow
    → Finds flow ps i
first_of_flow-Finds flow [] i k b e h = cc
first_of_flow-Finds flow (p ∷ ps) i zero b e h = Finds-head flow p ps i (ground arith)
first_of_flow-Finds flow (p ∷ ps) i (suc k) b e h = elim (Bool-cases (p.flow == flow)) [
  | inl hit ↦ Finds-head flow p ps i hit
  | inr miss ↦ Finds-tail flow p ps i miss (first_of_flow-Finds flow ps (i + 1) k b e h)
]

-- What `deque` takes: the packet at `i`, the oldest one of the flow of `best`, which is in the
-- queue and has the least priority number.
pub record Served (q : Queue) (best : Packet) (i : ℕ) (p : Packet) (q' : Queue) : Type 0 where
  pub in_queue : (k : ℕ) × (get_elem? q.packets k ≡ some best)
  pub best_priority : All (λ y. best.pf_priority ≤ y.pf_priority) q.packets
  pub oldest : IsOldest best.flow q.packets i p
  pub others : q'.packets ≡ erase_idx q.packets i
  pub bytes : q'.bytes_in_queue ≡ sub32 q.bytes_in_queue p.size
  pub departed : q'.p_departures ≡ q.p_departures + 1

abbrev pub timed : ℕ → Packet → Packet
timed now p = record p { total_queuing_delay = p.total_queuing_delay + (now - p.last_enque_time) }

abbrev without : Queue → ℕ → Packet → Queue
without q i p = record q {
  packets = erase_idx q.packets i;
  bytes_in_queue = sub32 q.bytes_in_queue p.size;
  p_departures = q.p_departures + 1;
  b_departures = q.b_departures + p.size;
}

Serves : ℕ → Queue → Net → Type 0
Serves now q net =
    (best : Packet) × (i : ℕ) × (p : Packet) × (q' : Queue) × (net' : Net) × (pfabric_deque now q
        net
      ≡ some (some (timed now p), q', net'))
    × Served q best i p q'

Serves-at :
    (now : ℕ) (q : Queue) (net : Net) (b : Packet) (k : ℕ)
    → 0 < q.bytes_in_queue
    → best_loop q.packets (word - 1) none ≡ some b
    → get_elem? q.packets k ≡ some b
    → All (λ y. b.pf_priority ≤ y.pf_priority) q.packets
    → Finds b.flow q.packets 0
    → Serves now q net
unfolding Finds Serves pfabric_deque
Serves-at now q net b k bytes found at_k least (j, p, runs, oldest) = (
  b,
  j,
  p,
  without q j p,
  depart_stats now q p net,
  rw (lt→ltb _ _ bytes, found, runs', oldest.here),
  record {
    in_queue = (k, at_k);
    best_priority = least;
    oldest = oldest;
    others = refl;
    bytes = refl;
    departed = refl;
  },
)
  where
    runs' : first_of_flow b.flow q.packets 0 ≡ some j
    runs' = runs ∙ ap some (omega arith)

-- A queue with bytes, packets and no packet of priority UINT_MAX gives out the oldest packet of a
-- flow that has a packet of the best priority, with its queuing time added, and keeps the others in
-- order.
pub pfabric_deque-Served :
    (now : ℕ) (q : Queue) (net : Net)
    → 0 < q.bytes_in_queue
    → q.packets ≢ []
    → All (λ y. y.pf_priority < word - 1) q.packets
    → (best : Packet) × (i : ℕ) × (p : Packet) × (q' : Queue) × (net' : Net) × (pfabric_deque now q
          net
        ≡ some (some (timed now p), q', net'))
      × Served q best i p q'
unfolding Serves
pfabric_deque-Served now q net bytes filled small = go q.packets refl small
  where
    go :
        (ps : List Packet)
        → q.packets ≡ ps
        → All (λ y. y.pf_priority < word - 1) ps
        → Serves now q net
    go [] e h = absurd (filled e)
    go (p ∷ ps) e h =
        let (b, runs, k, at_k, least) = best_loop-start p ps h.0 in
        Serves-at now q net b k bytes (rw e runs) (rw e at_k)
          (subst (All (λ y. b.pf_priority ≤ y.pf_priority)) (sym e) least)
          (first_of_flow-Finds b.flow q.packets 0 k b (rw e at_k) refl)
