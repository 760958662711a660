-- ===== src/Queue/Accounting.antt =====
-- The drop-tail queue is a bounded FIFO: its byte count is that of its packets, stays within the
-- limit, and every packet that arrived has left, was dropped or is still there.
use ruf.Prelude.{
  ℕ, ◌+◌, ◌≤◌, ◌<◌, ◌≡◌, refl, sym, ap, subst, inl, inr, true, List, [], ◌∷◌, ◌++◌, Option, none,
  some, length, length-append, All, All-append, ltb, leb, if◌then◌else◌, Bool-cases, arith,
}
use ruf.Prelude.Words.{word, sub32}
use ruf.Prelude.Faults.{◌>>=◌}
use ruf.Queue.{Queue, Packet, Net, arrive, push_back, enque, deque, drop}

abbrev pub total : List Packet → ℕ
total [] = 0
total (p ∷ ps) = p.size + total ps

pub total-append : (ps qs : List Packet) → total (ps ++ qs) ≡ total ps + total qs
total-append [] qs = omega arith
total-append (p ∷ ps) qs = omega (arith, total-append ps qs)

pub record IsValid (q : Queue) : Type 0 where
  pub bytes : q.bytes_in_queue ≡ total q.packets
  pub fits : total q.packets ≤ q.limit_bytes
  pub small : q.limit_bytes < word
  pub sized : All (λ p. 0 < p.size) q.packets
  pub balance : q.p_arrivals ≡ q.p_departures + q.pkt_drop + length q.packets

-- A packet that has bytes and whose size does not overflow the 32-bit test of `enque`.
abbrev pub IsFit : ℕ → Packet → Type 0
IsFit limit_bytes p = (0 < p.size) × (limit_bytes + p.size < word)

-- The bounded FIFO.
pub data Op : Type 0 where
  enqueues : Packet → Op
  dequeues : Op

abbrev pub fifo_step : ℕ → Op → List Packet → Option Packet × List Packet
fifo_step limit (enqueues p) ps = (none, if leb (total ps + p.size) limit then ps ++ p ∷ [] else ps)
fifo_step limit dequeues [] = (none, [])
fifo_step limit dequeues (p ∷ ps) = (some p, ps)

abbrev pub FitOp : ℕ → Op → Type 0
FitOp limit (enqueues p) = IsFit limit p
FitOp limit dequeues = Unit

-- The queue's step: what comes out, and the queue and the flows after it.
unfoldable pub step : Op → Queue → Net → Option (Option Packet × Queue × Net)
step (enqueues p) q net = let (q', net') = enque p q net in some (none, q', net')
step dequeues q net = do (out, q') ← deque q; some (out, q', net)

abbrev pub departed : Packet → List Packet → Queue → Queue
departed p ps q = record q {
  packets = ps;
  bytes_in_queue = sub32 q.bytes_in_queue p.size;
  p_departures = q.p_departures + 1;
  b_departures = q.b_departures + p.size;
}

pub accepts :
    (q : Queue) (p : Packet) (net : Net)
    → IsValid q
    → IsFit q.limit_bytes p
    → total q.packets + p.size ≤ q.limit_bytes
    → (enque p q net ≡ (push_back p (arrive p q), net)) × IsValid (push_back p (arrive p q))
unfolding enque
accepts q p net v fit room = (
  ground arith,
  record {
    bytes = omega (arith, v.bytes, total-append q.packets (p ∷ []));
    fits = omega (arith, total-append q.packets (p ∷ []));
    small = v.small;
    sized = All-append _ q.packets _ v.sized (fit.0, tt);
    balance = omega (arith, v.balance, length-append q.packets (p ∷ []));
  },
)

abbrev pub rejected : Packet → Queue → Queue
rejected p q = record (arrive p q) { pkt_drop = q.pkt_drop + 1 }

pub rejects :
    (q : Queue) (p : Packet) (net : Net)
    → IsValid q
    → IsFit q.limit_bytes p
    → q.limit_bytes < total q.packets + p.size
    → (enque p q net ≡ (rejected p q, drop q p net)) × IsValid (rejected p q)
unfolding enque
rejects q p net v fit full = (
  ground arith,
  record {
    bytes = v.bytes;
    fits = v.fits;
    small = v.small;
    sized = v.sized;
    balance = omega (arith, v.balance);
  },
)

-- One step of the queue does what the FIFO does and keeps the queue valid.
pub record Follows (op : Op) (q : Queue) (out : Option Packet) (q' : Queue) : Type 0 where
  pub same : (out, q'.packets) ≡ fifo_step q.limit_bytes op q.packets
  pub valid : IsValid q'
  pub limit : q'.limit_bytes ≡ q.limit_bytes

abbrev Steps : Op → Queue → Net → Type 0
Steps op q net =
    (out : Option Packet) × (q' : Queue) × (net' : Net) × (step op q net ≡ some (out, q', net'))
    × Follows op q out q'

enque-Steps :
    (p : Packet) (q : Queue) (net : Net)
    → IsValid q
    → IsFit q.limit_bytes p
    → Steps (enqueues p) q net
unfolding step
enque-Steps p q net v fit = elim (Bool-cases (leb (total q.packets + p.size) q.limit_bytes)) [
  | inl room ↦
      let (runs, valid) = accepts q p net v fit (ground arith) in
      (
        none,
        push_back p (arrive p q),
        net,
        rw runs,
        record { same = rw room; valid = valid; limit = refl },
      )
  | inr full ↦
      let (runs, valid) = rejects q p net v fit (ground arith) in
      (
        none,
        rejected p q,
        drop q p net,
        rw runs,
        record { same = rw full; valid = valid; limit = refl },
      )
]

pub idles : (q : Queue) → q.packets ≡ [] → IsValid q → deque q ≡ some (none, q)
unfolding deque
idles q e v = ground (arith, ap total e, v.bytes)

pub departs :
    (p : Packet) (ps : List Packet) (q : Queue)
    → q.packets ≡ p ∷ ps
    → IsValid q
    → (deque q ≡ some (some p, departed p ps q)) × IsValid (departed p ps q)
unfolding deque
departs p ps q e v =
    let sized = subst (All (λ p. 0 < p.size)) e v.sized in
    let busy : ltb 0 q.bytes_in_queue ≡ true = ground (arith, ap total e, v.bytes, sized.0) in
    (
      rw (busy, e),
      record {
        bytes = omega (arith, v.bytes, v.fits, v.small, ap total e);
        fits = omega (arith, v.fits, ap total e);
        small = v.small;
        sized = sized.1;
        balance = omega (arith, v.balance, ap length e);
      },
    )

deque-Steps :
    (ps : List Packet) (q : Queue) (net : Net) → q.packets ≡ ps → IsValid q → Steps dequeues q net
unfolding step
deque-Steps [] q net e v =
    (none, q, net, rw (idles q e v), record { same = rw e; valid = v; limit = refl })
deque-Steps (p ∷ ps) q net e v =
    let (runs, valid) = departs p ps q e v in
    (some p, departed p ps q, net, rw runs, record { same = rw e; valid = valid; limit = refl })

step-Steps : (op : Op) (q : Queue) (net : Net) → IsValid q → FitOp q.limit_bytes op → Steps op q net
step-Steps (enqueues p) q net v fit = enque-Steps p q net v fit
step-Steps dequeues q net v fit = deque-Steps q.packets q net refl v

-- A sequence of steps, with what came out of each.
unfoldable pub run : List Op → Queue → Net → Option (List (Option Packet) × Queue × Net)
run [] q net = some ([], q, net)
run (op ∷ ops) q net = do
  (out, q', net') ← step op q net
  (outs, q'', net'') ← run ops q' net'
  some (out ∷ outs, q'', net'')

abbrev pub fifo : ℕ → List Op → List Packet → List (Option Packet) × List Packet
fifo limit [] ps = ([], ps)
fifo limit (op ∷ ops) ps =
    let (out, ps') = fifo_step limit op ps in
    let (outs, ps'') = fifo limit ops ps' in (out ∷ outs, ps'')

-- From a valid queue, any sequence of `enque` and `deque` calls whose packets have sizes that do
-- not make the byte count wrap returns, gives out what the bounded FIFO gives out, leaves the
-- packets that it holds, and leaves the queue valid.
pub run-refines-fifo :
    (ops : List Op) (q : Queue) (net : Net)
    → IsValid q
    → All (FitOp q.limit_bytes) ops
    → (outs : List (Option Packet)) × (q' : Queue) × (net' : Net) × (run ops q net
        ≡ some (outs, q', net'))
      × ((outs, q'.packets) ≡ fifo q.limit_bytes ops q.packets)
      × IsValid q'
unfolding run
run-refines-fifo [] q net v fit = ([], q, net, refl, refl, v)
run-refines-fifo (op ∷ ops) q net v fit =
    let (out, q', net', runs, follows) = step-Steps op q net v fit.0 in
    let (outs, q'', net'', rest, same, valid) =
      run-refines-fifo ops q' net' follows.valid
        (subst (λ l. All (FitOp l) ops) (sym follows.limit) fit.1) in
    let same' = subst (λ l. (outs, q''.packets) ≡ fifo l ops q'.packets) follows.limit same in
    (out ∷ outs, q'', net'', rw (runs, rest), rw (← follows.same, ← same'), valid)
