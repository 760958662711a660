-- ===== src/Pim.antt =====
-- PimFlow of simulator/ext/pimflow.cpp and pimflow.h: a flow of PIM, the iterative matching that RUF is
-- compared with. The `std::set`s are lists. A field that starts at -1 is an integer; a time is a
-- number of ticks. A failed `assert` is `none`.
pub mod Host
pub mod Epoch
pub mod Receive
pub mod Sending
pub mod Life
pub mod Network
pub mod Next
pub mod Acks
use ruf.Prelude.{
  ℕ, zero, suc, ◌+◌, ◌-◌, ◌%◌, ◌/◌, Bool, true, false, List, [], ◌∷◌, Option, none, some, ltb, leb,
  if◌then◌else◌,
}
use ruf.Prelude.Int.{ℤ, pos, negsuc, pos_part, ◌+ℤ◌, ◌-ℤ◌, ltb_ℤ, leb_ℤ, eqb_ℤ}
use ruf.Prelude.Slots.{contains}
use ruf.Prelude.Words.{sub32}
use ruf.Prelude.Faults.{◌>>=◌, ◌>>◌, assert}
use ruf.Params.{Params}
use ruf.Ranking.Flow.{packets_of, advance}

-- The parameters of PIM, after the derived ones are set; the two timeouts and the epoch are times.
pub record PimParams : Type 0 where
  pub pim_iter_limit : ℕ
  pub pim_epoch : ℕ
  pub pim_window_size : ℕ
  pub pim_small_flow : ℕ
  pub pim_window_timeout : ℕ
  pub pim_resend_timeout : ℕ

pub record PimFlow : Type 0 where
  pub id : ℕ
  pub start_time : ℕ
  pub size_in_pkt : ℕ
  pub src : ℕ
  pub dst : ℕ
  pub finished : Bool
  pub deadline : ℕ
  pub total_pkt_sent : ℕ
  pub first_byte_receive_time : ℤ
  pub ack_until : ℕ
  pub ack_received : List ℕ
  pub largest_seq_ack : ℤ
  pub last_data_seq_num_sent : ℤ
  pub next_seq_no : ℕ
  pub remaining_pkts_at_sender : ℤ
  pub redundancy_ctrl_timeout : ℤ
  pub latest_data_pkt_send_time : ℤ
  pub packets_received : List ℕ

-- The constructors of PimFlow, FountainFlow and Flow; they leave `deadline` to the caller.
unfoldable pub new : Params → (id start_time size src dst deadline : ℕ) → PimFlow
new params id start_time size src dst deadline = record {
  id = id;
  start_time = start_time;
  size_in_pkt = packets_of size params.mss;
  src = src;
  dst = dst;
  finished = false;
  deadline = deadline;
  total_pkt_sent = 0;
  first_byte_receive_time = negsuc 0;
  ack_until = 0;
  ack_received = [];
  largest_seq_ack = negsuc 0;
  last_data_seq_num_sent = negsuc 0;
  next_seq_no = 0;
  remaining_pkts_at_sender = pos (packets_of size params.mss);
  redundancy_ctrl_timeout = negsuc 0;
  latest_data_pkt_send_time = negsuc 0;
  packets_received = [];
}

unfoldable pub is_small_flow : PimParams → PimFlow → Bool
is_small_flow pim f = leb f.size_in_pkt pim.pim_small_flow

-- The loop of `get_next_data_seq_num`, with the rounds left.
unfoldable pub data_seq_loop : PimFlow → (rounds data_seq : ℕ) → Option ℕ
data_seq_loop f zero data_seq = some data_seq
data_seq_loop f (suc n) data_seq =
    let next = if leb f.size_in_pkt (data_seq + 1) then f.ack_until else data_seq + 1 in
    let rest = data_seq_loop f n next in
    if contains f.ack_received data_seq
    then rest
    else (if ltb data_seq f.size_in_pkt then some data_seq else none)

-- `last_data_seq_num_sent + 1` is at least 0.
unfoldable pub get_next_data_seq_num : PimFlow → Option ℕ
unfolding data_seq_loop ◌+ℤ◌
get_next_data_seq_num f =
    data_seq_loop f f.size_in_pkt (pos_part (f.last_data_seq_num_sent +ℤ pos 1) % f.size_in_pkt)

-- The packets sent and not yet covered by the largest number acknowledged.
unfoldable pub gap : PimFlow → Option ℤ
gap f = do
  assert (leb_ℤ (pos 0) (pos f.next_seq_no -ℤ f.largest_seq_ack))
  some (pos f.next_seq_no -ℤ f.largest_seq_ack)

unfoldable pub relax_gap : PimParams → PimFlow → Option PimFlow
relax_gap pim f = do
  assert (leb_ℤ (pos 0) (pos f.next_seq_no -ℤ f.largest_seq_ack))
  some (record f { largest_seq_ack = pos f.next_seq_no -ℤ pos pim.pim_window_size })

-- A data packet, and the acknowledgement of one.
pub record PimPacket : Type 0 where
  pub seq_no : ℕ
  pub size : ℕ
  pub capa_data_seq : ℕ
  pub pf_priority : ℕ

pub record PimAck : Type 0 where
  pub seq_no : ℕ
  pub data_seq_no_acked : ℕ

-- `send`, and `next_seq_no++` of `send_pending_data`; `Host` adds the host's event.
unfoldable pub send : (now priority data_seq : ℕ) → PimFlow → PimPacket × PimFlow
send now priority data_seq f = (
  record { seq_no = f.next_seq_no; size = 1500; capa_data_seq = data_seq; pf_priority = priority },
  record f {
    latest_data_pkt_send_time = pos now;
    last_data_seq_num_sent = pos data_seq;
    total_pkt_sent = f.total_pkt_sent + 1;
    next_seq_no = f.next_seq_no + 1;
  },
)

-- The body of the test that the acknowledgement is new.
unfoldable pub mark_acked : ℕ → PimFlow → PimFlow
mark_acked data_seq f = record f {
  ack_received = data_seq ∷ f.ack_received;
  ack_until = advance (data_seq ∷ f.ack_received) f.size_in_pkt f.size_in_pkt f.ack_until;
  remaining_pkts_at_sender = f.remaining_pkts_at_sender -ℤ pos 1;
}

-- `receive_ack` up to its test that nothing remains.
unfoldable pub acknowledge : PimAck → PimFlow → PimFlow
unfolding mark_acked
acknowledge a f = record g {
  largest_seq_ack =
      if ltb_ℤ g.largest_seq_ack (pos a.seq_no) then pos a.seq_no else g.largest_seq_ack;
}
  where
    g : PimFlow
    g = if contains f.ack_received a.data_seq_no_acked then f else mark_acked a.data_seq_no_acked f

-- `remaining_pkts_at_sender == 0`
unfoldable pub is_acked : PimFlow → Bool
is_acked f = eqb_ℤ f.remaining_pkts_at_sender (pos 0)

-- `ack_received.clear(); packets_received.clear();`
unfoldable pub clear : PimFlow → PimFlow
clear f = record f { ack_received = []; packets_received = [] }

-- What `receive` does for a data packet: the flow, the global `num_outstanding_packets` and the
-- acknowledgement.
unfoldable pub receive_data : Params → ℕ → PimPacket → PimFlow × ℕ → PimFlow × ℕ × PimAck
receive_data params now p (f, outstanding) =
    let known = contains f.packets_received p.capa_data_seq in
    let sent = sub32 p.size params.hdr_size / params.mss in
    (
      record f {
        first_byte_receive_time =
            if eqb_ℤ f.first_byte_receive_time (negsuc 0)
            then pos now
            else f.first_byte_receive_time;
        packets_received =
            if known then f.packets_received else p.capa_data_seq ∷ f.packets_received;
      },
      (if known then outstanding else (if leb sent outstanding then outstanding - sent else 0)),
      record { seq_no = p.seq_no; data_seq_no_acked = p.capa_data_seq },
    )
