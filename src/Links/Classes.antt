-- ===== src/Links/Classes.antt =====
-- What the events of simulator/coresim/event.cpp ask of a queue's class, and that the drop-tail queue of
-- simulator/coresim/queue.cpp and the DCTCP queue of simulator/ext/dctcpQueue.cpp have it.
use ruf.Prelude.{
  ℕ, ◌+◌, ◌≡◌, refl, ap, ◌∙◌, Bool, List, [], ◌∷◌, Option, none, some, leb, Bool-cases, inl, inr,
  arith, length,
}
use ruf.Prelude.Faults.{◌>>=◌}
use ruf.Queue.{Queue, Packet, Net, arrive, push_back, drop, enque, deque}
use ruf.Queue.Accounting.{
  IsValid, IsFit, total, accepts, rejects, rejected, departed, idles, departs,
}
use ruf.Queue.Dctcp.{dctcp_enque, dctcp_enque-enque, marked}
use ruf.Links.{Discipline}

-- The fields of a queue that the events write, and `enque` and `deque` do not.
abbrev pub service : Queue → Bool × Option ℕ × List ℕ × Option Packet
service q = (q.busy, q.queue_proc_event, q.busy_events, q.packet_transmitting)

abbrev pub with_service : Bool → Option ℕ → List ℕ → Option Packet → Queue → Queue
with_service busy event events sent q = record q {
  busy = busy;
  queue_proc_event = event;
  busy_events = events;
  packet_transmitting = sent;
}

-- A class whose calls return on its valid queues, keep them valid and leave the service alone, and
-- whose `deque` gives nothing only when it leaves no packet.
pub record Lawful (d : Discipline) : Type 1 where
  pub Inv : Queue → Type 0
  pub Fits : ℕ → Packet → Type 0
  pub enque-Inv :
      (now : ℕ) (p : Packet) (q : Queue) (net : Net)
      → Inv q
      → Fits q.limit_bytes p
      → (q' : Queue) × (net' : Net) × (d.enque now p q net ≡ some (q', net'))
        × Inv q'
        × (service q' ≡ service q)
  pub deque-Inv :
      (now : ℕ) (q : Queue) (net : Net)
      → Inv q
      → (out : Option Packet) × (q' : Queue) × (net' : Net) × (d.deque now q net
          ≡ some (out, q', net'))
        × Inv q'
        × (service q' ≡ service q)
        × (out ≡ none → q'.packets ≡ [])
  pub service-Inv :
      (busy : Bool) (event : Option ℕ) (events : List ℕ) (sent : Option Packet) (q : Queue)
      → Inv q
      → Inv (with_service busy event events sent q)

-- `Queue::deque`, which writes to no flow.
abbrev pub plain_deque : Queue → Net → Option (Option Packet × Queue × Net)
plain_deque q net = do (out, q') ← deque q; some (out, q', net)

abbrev pub drop_tail : Discipline
drop_tail = record {
  enque = λ now p q net. some (enque p q net);
  deque = λ now q net. plain_deque q net;
}

abbrev pub dctcp : ℕ → Discipline
dctcp thresh = record {
  enque = λ now p q net. some (dctcp_enque thresh p q net);
  deque = λ now q net. plain_deque q net;
}

pub drop_tail-service :
    (busy : Bool) (event : Option ℕ) (events : List ℕ) (sent : Option Packet) (q : Queue)
    → IsValid q
    → IsValid (with_service busy event events sent q)
drop_tail-service busy event events sent q v = record {
  bytes = v.bytes;
  fits = v.fits;
  small = v.small;
  sized = v.sized;
  balance = v.balance;
}

pub drop_tail-enque :
    (p : Packet) (q : Queue) (net : Net)
    → IsValid q
    → IsFit q.limit_bytes p
    → (q' : Queue) × (net' : Net) × (enque p q net ≡ (q', net'))
      × IsValid q'
      × (service q' ≡ service q)
drop_tail-enque p q net v fit = elim (Bool-cases (leb (total q.packets + p.size) q.limit_bytes)) [
  | inl room ↦
      let (runs, valid) = accepts q p net v fit (ground arith) in
      (push_back p (arrive p q), net, runs, valid, refl)
  | inr full ↦
      let (runs, valid) = rejects q p net v fit (ground arith) in
      (rejected p q, drop q p net, runs, valid, refl)
]

pub drop_tail-deque :
    (ps : List Packet) (q : Queue) (net : Net)
    → q.packets ≡ ps
    → IsValid q
    → (out : Option Packet) × (q' : Queue) × (net' : Net) × (plain_deque q net
        ≡ some (out, q', net'))
      × IsValid q'
      × (service q' ≡ service q)
      × (out ≡ none → q'.packets ≡ [])
drop_tail-deque [] q net e v = (none, q, net, rw (idles q e v), v, refl, λ _. e)
drop_tail-deque (p ∷ ps) q net e v =
    let (runs, valid) = departs p ps q e v in
    (some p, departed p ps q, net, rw runs, valid, refl, λ stays. cc)

abbrev pub drop_tail_class : Lawful drop_tail
drop_tail_class = record {
  Inv = IsValid;
  Fits = IsFit;
  enque-Inv = λ now p q net v fit.
      let (q', net', runs, valid, same) = drop_tail-enque p q net v fit in
      (q', net', ap some runs, valid, same);
  deque-Inv = λ now q net v. drop_tail-deque q.packets q net refl v;
  service-Inv = drop_tail-service;
}

abbrev pub dctcp_class : (thresh : ℕ) → Lawful (dctcp thresh)
dctcp_class thresh = record {
  Inv = IsValid;
  Fits = IsFit;
  enque-Inv = λ now p q net v fit.
      let (q', net', runs, valid, same) =
        drop_tail-enque (marked thresh (length q.packets) p) q net v fit in
      (q', net', ap some (dctcp_enque-enque thresh p q net ∙ runs), valid, same);
  deque-Inv = λ now q net v. drop_tail-deque q.packets q net refl v;
  service-Inv = drop_tail-service;
}
