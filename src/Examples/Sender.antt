-- ===== src/Examples/Sender.antt =====
-- A sender with a finished flow and one with a token.
use ruf.Prelude.{ℕ, ◌≡◌, refl, [], ◌∷◌, Option, none, some, ◌==◌}
use ruf.Prelude.Int.{negsuc}
use ruf.Params.{packet_priority, priority_loop}
use ruf.PriorityQueue.{new, push}
use ruf.Ranking.Flow
use ruf.Ranking.Flow.{RankingFlow, DataPacket}
use ruf.Ranking.Sender.{Sender, send}
use ruf.Ranking.Sender.Sent.{Sent, send-Sent}
use ruf.Examples.{small}
use ruf.Examples.Events.{empty_queue}

abbrev flow_of : ℕ → RankingFlow
unfolding Flow.new
flow_of i = record (Flow.new small i 1_000 4_000 0 1 0) {
  finished = i == 1;
  tokens = record { timeout = 5_000; seq_num = 0; data_seq_num = 0; ranking_round = negsuc 0 } ∷ [];
}

abbrev sender : Sender
unfolding new push
sender = record {
  flows = flow_of;
  active_sending_flows = push (push new 1) 2;
  host_proc_event = none;
  link = record {
    queue = empty_queue;
    rate = 10_000_000_000;
    propagation_delay = 200_000;
    spray_counter = 0;
  };
  time_of = λ i. 0;
  sent = [];
}

send-Sent_example :
    (packet : Option (ℕ × DataPacket)) × (r : Sender) × (send small 2_000 sender ≡ some r)
    × Sent small 2_000 sender packet r
unfolding sender flow_of packet_priority priority_loop
send-Sent_example = send-Sent small 2_000 sender refl refl (λ i more. (1, refl))
