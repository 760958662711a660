-- ===== src/Examples/PimData.antt =====
-- The life of a flow of three packets of PIM: the first is sent, arrives and is acknowledged.
use ruf.Prelude.{ℕ, arith, ◌≡◌, refl, some}
use ruf.Prelude.Int.{◌+ℤ◌, ◌-ℤ◌}
use ruf.PriorityQueue
use ruf.Params.{packet_priority, priority_loop}
use ruf.Ranking.Flow.{advance}
use ruf.Pim
use ruf.Pim.{
  PimParams, PimFlow, get_next_data_seq_num, data_seq_loop, gap, relax_gap, receive_data,
  acknowledge, mark_acked, is_acked, clear, is_small_flow,
}
use ruf.Pim.Host.{PimHost}
use ruf.Pim.Host
use ruf.Pim.Sending.{
  no_timeout, attempt, open_window, send_in_window, send_pending_data, receive_ack,
}
use ruf.Pim.Sending.Tried.{Attempted}
use ruf.Pim.Life.{Life, Reach, here, next, tries, arrives, acknowledged}
use ruf.Pim.Life.Ready.{begin, new-IsAlive, Reach-Attempted}
use ruf.Pim.Sending.Served.{AllCanTry}
use ruf.Pim.Sending.Woken.{Sends, send-Sends}
use ruf.Examples.{small}
use ruf.Examples.Events.{empty_queue}

abbrev window : PimParams
window = record {
  pim_iter_limit = 4;
  pim_epoch = 96_000_000;
  pim_window_size = 8;
  pim_small_flow = 16;
  pim_window_timeout = 1_000_000;
  pim_resend_timeout = 9_600_000;
}

abbrev source : PimHost
unfolding Host.init PriorityQueue.new
source =
    Host.init 0 1_000
      (record {
        queue = empty_queue;
        rate = 10_000_000_000;
        propagation_delay = 200_000;
        spray_counter = 0;
      })
      (λ e. 0)

abbrev start : Life
unfolding Pim.new
start = begin (Pim.new small 7 1_000 4_000 0 1 0)

abbrev one_acknowledged : (t : Life) × Reach small window start t
unfolding Pim.new attempt open_window send_in_window send_pending_data packet_priority priority_loop
    get_next_data_seq_num data_seq_loop gap relax_gap Pim.send receive_data receive_ack acknowledge
    mark_acked is_acked clear is_small_flow advance ◌+ℤ◌ ◌-ℤ◌ source
one_acknowledged = (
  _,
  next (next (next here (tries 1_000 no_timeout refl)) (arrives 3_000 10 0 _ refl))
      (acknowledged 5_000 0 _ source refl refl),
)

-- The flow asks for its second packet after that.
second_test : get_next_data_seq_num one_acknowledged.0.flow ≡ some 1
unfolding Pim.new attempt open_window send_in_window send_pending_data packet_priority priority_loop
    get_next_data_seq_num data_seq_loop gap relax_gap Pim.send receive_data receive_ack acknowledge
    mark_acked is_acked clear is_small_flow advance ◌+ℤ◌ ◌-ℤ◌ source
second_test = refl

Reach-Attempted_example : Attempted small window 6_000 one_acknowledged.0.flow no_timeout 1
unfolding Pim.new packet_priority priority_loop
Reach-Attempted_example =
    Reach-Attempted small window 1 7 1_000 4_000 0 1 0 (omega arith) refl one_acknowledged.0
      one_acknowledged.1 6_000 no_timeout

abbrev flows : ℕ → PimFlow
unfolding Pim.new
flows i = Pim.new small i 1_000 4_000 0 1 0

-- The host with the flow in its queue of short flows.
abbrev ready_source : PimHost
unfolding source PriorityQueue.push
ready_source = record source { active_short_flows = PriorityQueue.push source.active_short_flows 7 }

flows-AllCanTry : AllCanTry small window 2_000 flows
unfolding flows packet_priority priority_loop
flows-AllCanTry i more = record {
  ready = (new-IsAlive small i 1_000 4_000 0 1 0 (omega arith)).ready;
  level = 1;
  leveled = refl;
}

send-Sends_example : Sends small window 2_000 flows ready_source
unfolding ready_source
send-Sends_example = send-Sends small window 2_000 flows ready_source flows-AllCanTry refl refl
