-- ===== src/Examples/Acks.antt =====
-- A flow of 4000 bytes whose first packet has arrived, and then its third.
use ruf.Flow.Window.{Sends, send_pending_data-Sends}
use ruf.Prelude.{List, ◌≡◌, refl, false, [], ◌∷◌, none, some, arith}
use ruf.Flow.{
  Flow, Segment, Ack, count_data, receive_data_pkt, ack_loop, send_pending_data, send_loop,
  send_one, send, may_send, set_timeout, run_timer, Priority, get_priority,
}
use ruf.Flow.Acks.{Acks, receive_data_pkt-Acks}

program : Unit {0}
unfolding count_data receive_data_pkt ack_loop send_pending_data send_loop send_one send may_send
    set_timeout get_priority run_timer
program = tt

abbrev one_in : Flow
one_in = record {
  size = 4_000;
  mss = 1_460;
  hdr_size = 40;
  next_seq_no = 1_460;
  last_unacked_seq = 0;
  retx_event = none;
  retx_timeout = 9_500;
  received = 0 ∷ [];
  received_count = 1;
  received_bytes = 1_460;
  recv_till = 1_460;
  max_seq_no_recv = 0;
  cwnd_mss = 2;
  max_cwnd = 15;
  finished = false;
  finish_time = 0;
  scoreboard_sack_bytes = 0;
  total_pkt_sent = 1;
  ssthresh = 100_000;
  count_ack_additive_increase = 0;
}

abbrev third : Segment
third = record { seq_no = 2_920; pf_priority = 1; size = 1_120 }

-- The window of two packets lets the second one out, and starts the timer.
second_goes :
    elim (send_pending_data Priority.constant 500 one_in) [
      | none ↦ []
      | some (out, g) ↦ g.next_seq_no ∷ g.total_pkt_sent ∷ []
    ]
    ≡ 2_920 ∷ 2 ∷ []
unfolding program
second_goes = refl

-- The gap is acknowledged at its start, and the third packet by name.
gap_shows :
    elim (receive_data_pkt third one_in) [ none ↦ [] | some (a, g) ↦ a.seq_no ∷ a.sack_list ]
    ≡ 1_460 ∷ 2_920 ∷ []
unfolding program
gap_shows = refl

receive_data_pkt-Acks_example :
    (a : Ack) × (g : Flow) × (receive_data_pkt third one_in ≡ some (a, g))
    × Acks (count_data third one_in) a g
unfolding program
receive_data_pkt-Acks_example =
    receive_data_pkt-Acks third one_in (omega arith) (omega arith) (omega arith) (omega arith)

send_pending_data-Sends_example :
    (out : List Segment) × (g : Flow) × (send_pending_data Priority.constant 500 one_in
      ≡ some (out, g))
    × Sends Priority.constant 500 1_460 one_in out g
unfolding program
send_pending_data-Sends_example =
    send_pending_data-Sends Priority.constant 500 one_in (omega arith) (omega arith) (omega arith)
      (omega arith)
