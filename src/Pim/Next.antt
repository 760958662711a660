-- ===== src/Pim/Next.antt =====
-- `get_next_data_seq_num` of PimFlow: which packet is sent next. The search over acknowledged packets is
-- that of a receiver of RUF over received ones.
use ruf.Prelude.{
  ℕ, zero, suc, ◌+◌, ◌-◌, ◌%◌, ◌≤◌, ◌<◌, ◌≡◌, refl, ◌⊎◌, inl, inr, true, false, [], some, leb,
  if◌then◌else◌, Bool-cases, arith,
}
use ruf.Prelude.Int.{pos, negsuc, pos_part, ◌+ℤ◌}
use ruf.Prelude.Slots.{contains}
use ruf.Ranking.Flow.{RankingFlow, next_seq_loop, get_next_token_seq_num}
use ruf.Ranking.Flow.Received.{IsConsistent, missing, missing-le}
use ruf.Ranking.Flow.Next.{get_next_token_seq_num-IsNext}
use ruf.Pim.{PimFlow, data_seq_loop, get_next_data_seq_num, is_acked}
use ruf.Pim.Acks

-- A receiver that has the packets acknowledged here.
abbrev pub view : PimFlow → RankingFlow
view f = record {
  id = f.id;
  start_time = f.start_time;
  size = f.size_in_pkt;
  size_in_pkt = f.size_in_pkt;
  goal = f.size_in_pkt;
  src = f.src;
  dst = f.dst;
  finished = f.finished;
  deadline = f.deadline;
  next_seq_no = f.next_seq_no;
  total_pkt_sent = f.total_pkt_sent;
  latest_data_pkt_sent_time = f.latest_data_pkt_send_time;
  tokens = [];
  remaining_pkts_at_sender = 0;
  first_byte_receive_time = f.first_byte_receive_time;
  rts_received = false;
  packets_received = f.ack_received;
  received_count = f.size_in_pkt - missing f.ack_received f.size_in_pkt;
  received_until = f.ack_until;
  received_bytes = 0;
  finished_at_receiver = false;
  token_count = 0;
  token_packet_sent_count = 0;
  token_goal = 0;
  last_token_data_seq_num_sent = f.last_data_seq_num_sent;
  largest_token_seq_received = negsuc 0;
  largest_token_data_seq_received = negsuc 0;
  redundancy_ctrl_timeout = f.redundancy_ctrl_timeout;
  latest_token_sent_time = negsuc 0;
}

view-IsConsistent : (f : PimFlow) → Acks.IsConsistent f → IsConsistent (view f)
view-IsConsistent f c = record {
  whole = refl;
  counted = omega (arith, missing-le f.ack_received f.size_in_pkt);
  until = c.until;
}

-- A search that finds a packet there finds it here.
loop-view :
    (f : PimFlow) (n d r : ℕ) → next_seq_loop (view f) n d ≡ some r → data_seq_loop f n d ≡ some r
unfolding next_seq_loop data_seq_loop
loop-view f zero d r e = cc
loop-view f (suc n) d r e = elim (Bool-cases (contains f.ack_received d)) [
  | inl old ↦
      let rest : next_seq_loop (view f) n (if leb f.size_in_pkt (d + 1) then f.ack_until else d + 1)
          ≡ some r =
        rw old at e in
      rw old (loop-view f n _ r rest)
  | inr new ↦ rw new (rw new at e)
]

-- Where the search begins.
abbrev pub search_start : PimFlow → ℕ
search_start f = pos_part (f.last_data_seq_num_sent +ℤ pos 1) % f.size_in_pkt

pub record IsNext (f : PimFlow) (u d : ℕ) : Type 0 where
  pub inside : d < f.size_in_pkt
  pub wanted : contains f.ack_received d ≡ false
  -- The first packet from `u` on that is not acknowledged; if there is none, the first of all.
  pub chosen :
      ((u ≤ d) × ((i : ℕ) → u ≤ i → i < d → contains f.ack_received i ≡ true))
      ⊎ ((d ≡ f.ack_until)
          × ((i : ℕ) → u ≤ i → i < f.size_in_pkt → contains f.ack_received i ≡ true))

-- For a flow whose counts are right and that has a packet not acknowledged, no assert fails. The next
-- packet to send is one of the flow that is not acknowledged: the first such after the last one
-- sent, or, if none is left there, the first of all.
pub get_next_data_seq_num-IsNext :
    (f : PimFlow)
    → Acks.IsConsistent f
    → is_acked f ≡ false
    → (d : ℕ) × (get_next_data_seq_num f ≡ some d) × IsNext f (search_start f) d
unfolding get_next_data_seq_num get_next_token_seq_num is_acked
get_next_data_seq_num-IsNext f c more =
    let left : f.size_in_pkt - missing f.ack_received f.size_in_pkt < f.size_in_pkt =
      ground (arith, c.counted, missing-le f.ack_received f.size_in_pkt) in
    let (d, runs, next) = get_next_token_seq_num-IsNext (view f) (view-IsConsistent f c) left in
    (
      d,
      loop-view f f.size_in_pkt _ d runs,
      record { inside = next.inside; wanted = next.wanted; chosen = next.chosen },
    )
