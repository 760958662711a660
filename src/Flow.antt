-- ===== src/Flow.antt =====
-- simulator/coresim/flow.cpp and flow.h, with simulator/ext/pfabricflow.cpp: a flow with a sliding window,
-- cumulative acknowledgements and one retransmission timer. Sender and receiver share the object. The
-- map `received` is the list of its keys. All sizes are 32-bit words. An event is its time.
pub mod Acks
pub mod Window
use ruf.Prelude.{
  ℕ, zero, suc, ◌+◌, ◌/◌, Bool, true, false, not, ◌&&◌, ◌||◌, List, [], ◌∷◌, ◌++◌, Option, none,
  some, length, ltb, leb, ◌==◌, if◌then◌else◌,
}
use ruf.Prelude.Faults.{◌>>=◌}
use ruf.Prelude.Slots.{contains}
use ruf.Prelude.Words.{add32, sub32, mul32}

-- A data packet that the source queues, and an acknowledgement.
pub record Segment : Type 0 where
  pub seq_no : ℕ
  pub pf_priority : ℕ
  pub size : ℕ

pub record Ack : Type 0 where
  pub seq_no : ℕ
  pub sack_list : List ℕ

-- `ssthresh` and `count_ack_additive_increase` are those of PFabricFlow.
pub record Flow : Type 0 where
  pub size : ℕ
  pub mss : ℕ
  pub hdr_size : ℕ
  pub next_seq_no : ℕ
  pub last_unacked_seq : ℕ
  pub retx_event : Option ℕ
  pub retx_timeout : ℕ
  pub received : List ℕ
  pub received_count : ℕ
  pub received_bytes : ℕ
  pub recv_till : ℕ
  pub max_seq_no_recv : ℕ
  pub cwnd_mss : ℕ
  pub max_cwnd : ℕ
  pub finished : Bool
  pub finish_time : ℕ
  pub scoreboard_sack_bytes : ℕ
  pub total_pkt_sent : ℕ
  pub ssthresh : ℕ
  pub count_ack_additive_increase : ℕ

-- `set_timeout`
unfoldable pub set_timeout : ℕ → Flow → Flow
set_timeout time f =
    if ltb f.last_unacked_seq f.size then record f { retx_event = some time } else f

-- `get_priority` depends on the experiment: 1 when `flow_type` is 1, the deadline when flows are
-- scheduled by it, and else the bytes that are left.
pub data Priority : Type 0 where
  constant : Priority
  by_deadline : (microseconds : ℕ) → Priority
  by_remaining : Priority

unfoldable pub get_priority : Priority → Flow → ℕ
get_priority constant f = 1
get_priority (by_deadline t) f = t
get_priority by_remaining f = sub32 (sub32 f.size f.last_unacked_seq) f.scoreboard_sack_bytes

-- `send`, without the queue.
unfoldable pub send : Priority → ℕ → Flow → Segment × Flow
unfolding get_priority
send prio seq f = (
  record {
    seq_no = seq;
    pf_priority = get_priority prio f;
    size =
        if ltb f.size (add32 seq f.mss)
        then add32 (sub32 f.size seq) f.hdr_size
        else add32 f.mss f.hdr_size;
  },
  record f { total_pkt_sent = add32 f.total_pkt_sent 1 },
)

abbrev pub window : Flow → ℕ
window f = add32 (mul32 f.cwnd_mss f.mss) f.scoreboard_sack_bytes

-- The condition of the loop of `send_pending_data` at `seq`.
unfoldable pub may_send : ℕ → Flow → Bool
may_send seq f =
    leb (add32 seq f.mss) (add32 f.last_unacked_seq (window f))
    && (leb (add32 seq f.mss) f.size || (not (seq == f.size) && ltb (sub32 f.size seq) f.mss))

abbrev pub next_seq : ℕ → Flow → ℕ
next_seq seq f = if ltb (add32 seq f.mss) f.size then add32 seq f.mss else f.size

module _ (prio : Priority) (now : ℕ) where
  -- The last `if` of the loop's body.
  unfoldable pub run_timer : Flow → Flow
  run_timer f = elim f.retx_event [ none ↦ set_timeout (now + f.retx_timeout) f | some e ↦ f ]

  -- The body of the loop: a packet that has not arrived yet is sent, and the timer started.
  unfoldable pub send_one : ℕ → Flow → List Segment × Flow
  unfolding run_timer
  send_one seq f = elim (contains f.received seq) [
    | true ↦ ([], run_timer (record f { next_seq_no = next_seq seq f }))
    | false ↦
        let (p, g) = send prio seq f in
        (p ∷ [], run_timer (record g { next_seq_no = next_seq seq f }))
  ]

  -- The loop, on fuel.
  unfoldable pub send_loop : ℕ → ℕ → Flow → Option (List Segment × Flow)
  unfolding send_one may_send
  send_loop zero seq f = none
  send_loop (suc n) seq f = elim (may_send seq f) [
    | false ↦ some ([], f)
    | true ↦ do
      (out, g) ← some (send_one seq f)
      (more, k) ← send_loop n (next_seq seq f) g
      some (out ++ more, k)
  ]

  unfoldable pub send_pending_data : Flow → Option (List Segment × Flow)
  send_pending_data f =
      if ltb f.received_bytes f.size then send_loop (suc f.size) f.next_seq_no f else some ([], f)

  -- `Flow::increase_cwnd`, and that of PFabricFlow.
  unfoldable pub increase_cwnd : Flow → Flow
  increase_cwnd f = record f {
    cwnd_mss = if ltb f.max_cwnd (add32 f.cwnd_mss 1) then f.max_cwnd else add32 f.cwnd_mss 1;
  }

  unfoldable pub pfabric_increase_cwnd : Flow → Flow
  pfabric_increase_cwnd f =
      let count = add32 f.count_ack_additive_increase 1 in
      let grown = record f { cwnd_mss = add32 f.cwnd_mss 1 } in
      let g =
        if ltb f.cwnd_mss f.ssthresh
        then grown
        else (if leb f.cwnd_mss count
            then record grown { count_ack_additive_increase = 0 }
            else record f { count_ack_additive_increase = count }) in
      record g { cwnd_mss = if ltb f.max_cwnd g.cwnd_mss then f.max_cwnd else g.cwnd_mss }

  -- `receive_ack` over the class's `increase_cwnd`: the packets sent, the flow, and whether it
  -- finished with this acknowledgement.
  module _ (increase : Flow → Flow) where
    abbrev move_timer : Flow → Flow
    move_timer f = elim f.retx_event [
      | none ↦ f
      | some e ↦
          let g = record f { retx_event = none } in
          if ltb f.last_unacked_seq f.size then set_timeout (now + f.retx_timeout) g else g
    ]

    unfoldable pub new_ack : ℕ → Flow → Option (List Segment × Flow)
    unfolding set_timeout
    new_ack ack f =
        if ltb f.last_unacked_seq ack
        then (do
          (out, g) ← send_pending_data (increase (record f { last_unacked_seq = ack }))
          some (out, move_timer g))
        else some ([], f)

    abbrev end_flow : ℕ → Flow → Bool × Flow
    end_flow ack f =
        if ack == f.size && not f.finished
        then (true, record f { finished = true; received = []; finish_time = now })
        else (false, f)

    unfoldable pub receive_ack : Ack → Flow → Option (List Segment × Bool × Flow)
    unfolding new_ack
    receive_ack a f = do
      (out, g) ← new_ack a.seq_no (record f {
        scoreboard_sack_bytes = mul32 (length a.sack_list) f.mss;
        next_seq_no = if ltb f.next_seq_no a.seq_no then a.seq_no else f.next_seq_no;
      })
      (ends, k) ← some (end_flow a.seq_no g)
      some (out, ends, k)

  -- `handle_timeout`, and that of PFabricFlow.
  unfoldable pub handle_timeout : Flow → Option (List Segment × Flow)
  handle_timeout f = do
    (out, g) ← send_pending_data (record f { next_seq_no = f.last_unacked_seq; cwnd_mss = 1 })
    some (out, set_timeout (now + f.retx_timeout) g)

  unfoldable pub pfabric_handle_timeout : Flow → Option (List Segment × Flow)
  unfolding handle_timeout
  pfabric_handle_timeout f =
      let half = f.cwnd_mss / 2 in
      handle_timeout (record f { ssthresh = if ltb half 2 then 2 else half })

-- The loop of `receive_data_pkt` over `s`, on fuel, with `in_sequence` and the list so far.
unfoldable pub ack_loop : ℕ → ℕ → Bool → List ℕ → Flow → Option (List ℕ × Flow)
ack_loop zero s in_sequence sack f = none
ack_loop (suc n) s in_sequence sack f = elim (leb s f.max_seq_no_recv) [
  | false ↦ some (sack, f)
  | true ↦ elim (contains f.received s) [
    | false ↦ ack_loop n (add32 s f.mss) false sack f
    | true ↦ elim in_sequence [
      | true ↦ ack_loop n (add32 s f.mss) true sack (record f {
        recv_till =
            if ltb f.size (add32 f.recv_till f.mss) then f.size else add32 f.recv_till f.mss;
      })
      | false ↦ ack_loop n (add32 s f.mss) false (sack ++ s ∷ []) f
    ]
  ]
]

-- What `receive_data_pkt` counts for the packet.
unfoldable pub count_data : Segment → Flow → Flow
count_data p f = record f {
  received_count = add32 f.received_count 1;
  received = if contains f.received p.seq_no then f.received else p.seq_no ∷ f.received;
  received_bytes =
      if contains f.received p.seq_no
      then f.received_bytes
      else add32 f.received_bytes (sub32 p.size f.hdr_size);
  max_seq_no_recv = if ltb f.max_seq_no_recv p.seq_no then p.seq_no else f.max_seq_no_recv;
}

-- The acknowledgement that goes back, and the flow.
unfoldable pub receive_data_pkt : Segment → Flow → Option (Ack × Flow)
unfolding count_data ack_loop
receive_data_pkt p f = do
  let counted = count_data p f
  (sack, g) ← ack_loop (counted.max_seq_no_recv + 2) counted.recv_till true [] counted
  some (record { seq_no = g.recv_till; sack_list = sack }, g)
