-- ===== src/Examples/Capability.antt =====
-- A flow of three packets with a capability that has expired and one that has not.
use ruf.Prelude.{◌+◌, ◌≡◌, refl, Bool, true, false, [], ◌∷◌, Option, none, ℕ, some, arith}
use ruf.Prelude.Int.{negsuc}
use ruf.Ranking.Flow.{DataPacket, get_next_token_seq_num}
use ruf.Ranking.Flow.Received.{IsConsistent, missing}
use ruf.Ranking.Flow.Next.{IsNext, search_start}
use ruf.Capability.{
  Capabilities, CapabilityFlow, CapabilityParams, CapabilityPkt, capability_comp, has_capability,
  send_capability_pkt,
}
use ruf.Capability.Held.{Held, Uses, has_capability-Uses}
use ruf.Capability.View.{view, send_capability_pkt-IsNext}
use ruf.Capability.Choice.{
  SendFlows, Chosen, choose, choose_drawn, pick, pop_back, back, choose-Chosen,
}
use ruf.Examples.{small}
use ruf.Examples.ListQueue.{list_queue}

abbrev held : Capabilities
held = list_queue capability_comp

abbrev limits : CapabilityParams
limits = record {
  capability_initial = 2;
  capability_window = 8;
  capability_timeout = 10;
  capability_third_level = true;
  capability_prio_thresh = 2;
}

abbrev flow : CapabilityFlow held
flow = record {
  id = 0;
  start_time = 0;
  size = 4_000;
  size_in_pkt = 3;
  goal = 3;
  src = 0;
  dst = 1;
  finished = false;
  deadline = 0;
  next_seq_no = 0;
  total_pkt_sent = 0;
  latest_data_pkt_send_time = 0;
  capabilities =
      record { timeout = 700; seq_num = 1; data_seq_num = 1 }
      ∷ record { timeout = 20; seq_num = 0; data_seq_num = 0 }
      ∷ [];
  remaining_pkts_at_sender = 3;
  first_byte_receive_time = negsuc 0;
  rts_received = true;
  packets_received = [];
  received_count = 0;
  received_until = 0;
  received_bytes = 0;
  finished_at_receiver = false;
  capability_count = 0;
  capability_packet_sent_count = 0;
  capability_goal = 3;
  last_capa_data_seq_num_sent = negsuc 0;
  largest_cap_seq_received = negsuc 0;
  redundancy_ctrl_timeout = negsuc 0;
  latest_cap_sent_time = 0;
  notified_num_flow_at_sender = 1;
}

has_capability-Uses_example :
    (has : Bool) × (g : CapabilityFlow held) × (has_capability small limits held 100 flow
      ≡ some (has, g))
    × Held small limits held 100 flow.capabilities has g.capabilities
    × (has ≡ true → Uses small limits held 100 flow g)
has_capability-Uses_example = has_capability-Uses small limits held 100 flow

flow-IsConsistent : IsConsistent (view small limits held flow)
unfolding missing
flow-IsConsistent = record {
  whole = refl;
  counted = refl;
  until = record { within = omega arith; prefix = λ i h. absurd (omega arith); stops = λ h. refl };
}

abbrev first_packet : DataPacket
first_packet = record {
  seq_no = 0;
  size = 1500;
  pf_priority = 2;
  capability_seq_num_in_data = 1;
  capa_data_seq = 1;
  ranking_round = negsuc 0;
}

send_capability_pkt-IsNext_example :
    (p : CapabilityPkt) × (g : CapabilityFlow held) × (send_capability_pkt small limits held 5 flow
      ≡ some (p, g))
    × (p.cap_seq_num ≡ 0)
    × (g.capability_count ≡ 0 + 1)
    × (get_next_token_seq_num (view small limits held flow) ≡ some p.data_seq_num)
    × IsNext
        (view small limits held flow)
        (search_start (view small limits held flow))
        p.data_seq_num
send_capability_pkt-IsNext_example =
    send_capability_pkt-IsNext small limits held flow 5 flow-IsConsistent (omega arith)

-- Three flows wait, and the draw 7 takes the second of them.
abbrev waiting : SendFlows
waiting = record { send_flow = none; active_send_flows_array = 4 ∷ 5 ∷ 6 ∷ [] }

choose-Chosen_example :
    (f : Option ℕ) × (t : SendFlows) × (choose 7 waiting ≡ some (f, t)) × Chosen waiting f t
choose-Chosen_example = choose-Chosen 7 waiting (λ f h. absurd (cc))

choose_test :
    choose 7 waiting
    ≡ some (some 5, record { send_flow = none; active_send_flows_array = 4 ∷ 6 ∷ [] })
unfolding choose choose_drawn pick pop_back back
choose_test = refl
