-- ===== src/Examples/Pim.antt =====
-- Two hosts and a flow of three packets from the first to the second, through an epoch of PIM.
use ruf.Prelude.{ℕ, refl, [], ◌∷◌, true, false, ◌==◌, if◌then◌else◌}
use ruf.PriorityQueue
use ruf.PriorityQueue.{top_loop}
use ruf.Pim
use ruf.Pim.{PimParams, PimFlow}
use ruf.Pim.Host
use ruf.Pim.Host.{restart, pim_comp, PimHost, Message, rts, grants, accept, grantsr}
use ruf.Pim.Epoch.{
  process_sender_iter, process_receiver_iter, start_new_epoch, schedule_sender_iter_evt,
  schedule_receiver_iter_evt, handle_all_grants, handle_all_rts, draw_loop, send_all_rts,
}
use ruf.Pim.Receive.{receive, target}
use ruf.Pim.Network.{System, Reach, here, next, begin, deliver, sender_iter, receiver_iter}
use ruf.Pim.Network.Matching.{IsInitial, IsMatching, Matched, Reach-IsMatching}
use ruf.Pim.Network.Asserts.{Returns, receive-answers}
use ruf.Examples.{small}
use ruf.Examples.Events.{empty_queue}

abbrev rounds : PimParams
rounds = record {
  pim_iter_limit = 4;
  pim_epoch = 96_000_000;
  pim_window_size = 8;
  pim_small_flow = 1;
  pim_window_timeout = 1_000_000;
  pim_resend_timeout = 9_600_000;
}

abbrev flow : ℕ → PimFlow
unfolding Pim.new
flow i = Pim.new small i 1_000 4_000 0 1 0

abbrev host : ℕ → PimHost
unfolding Host.init PriorityQueue.new PriorityQueue.push
host i =
    record (Host.init i 1_000
      (record {
        queue = empty_queue;
        rate = 10_000_000_000;
        propagation_delay = 200_000;
        spray_counter = 0;
      })
      (λ e. 0)) {
        dst_to_flows = if i == 0 then (1, PriorityQueue.push PriorityQueue.new 7) ∷ [] else [];
      }

abbrev start : System
start = record { flows = flow; hosts = host; net = [] }

start-IsInitial : IsInitial start
unfolding host
start-IsInitial = record {
  none_begun = λ i. refl;
  no_epoch = λ i k. refl;
  no_event = λ i. refl;
  quiet_net = refl;
}

-- Both hosts begin and ask; the request of the first is granted, it sends its accept, and they are
-- matched.
abbrev begun : (t : System) × Reach small rounds start t
unfolding start_new_epoch process_sender_iter process_receiver_iter receive host flow
    schedule_sender_iter_evt schedule_receiver_iter_evt handle_all_grants handle_all_rts draw_loop
    send_all_rts PriorityQueue.empty PriorityQueue.top top_loop restart pim_comp target
begun = (_, next (next here (begin 0 1_000 0 refl refl)) (begin 1 1_000 0 refl refl))

abbrev asked : (t : System) × Reach small rounds start t
unfolding start_new_epoch process_sender_iter process_receiver_iter receive host flow
    schedule_sender_iter_evt schedule_receiver_iter_evt handle_all_grants handle_all_rts draw_loop
    send_all_rts PriorityQueue.empty PriorityQueue.top top_loop restart pim_comp target
asked = (
  _,
  next (next begun.1 (sender_iter 0 0 1_000 (λ k. k) refl refl refl))
      (sender_iter 1 0 1_000 (λ k. k) refl refl refl),
)

abbrev heard : (t : System) × Reach small rounds start t
unfolding start_new_epoch process_sender_iter process_receiver_iter receive host flow
    schedule_sender_iter_evt schedule_receiver_iter_evt handle_all_grants handle_all_rts draw_loop
    send_all_rts PriorityQueue.empty PriorityQueue.top top_loop restart pim_comp target
heard = (_, next asked.1 (deliver 0 (rts 7 1 0) refl refl))

abbrev granted : (t : System) × Reach small rounds start t
unfolding start_new_epoch process_sender_iter process_receiver_iter receive host flow
    schedule_sender_iter_evt schedule_receiver_iter_evt handle_all_grants handle_all_rts draw_loop
    send_all_rts PriorityQueue.empty PriorityQueue.top top_loop restart pim_comp target
granted = (_, next heard.1 (receiver_iter 1 0 1_500 (λ k. k) refl refl refl))

abbrev offered : (t : System) × Reach small rounds start t
unfolding start_new_epoch process_sender_iter process_receiver_iter receive host flow
    schedule_sender_iter_evt schedule_receiver_iter_evt handle_all_grants handle_all_rts draw_loop
    send_all_rts PriorityQueue.empty PriorityQueue.top top_loop restart pim_comp target
offered = (_, next granted.1 (deliver 0 (grants 7 1 0 false) refl refl))

abbrev accepting : (t : System) × Reach small rounds start t
unfolding start_new_epoch process_sender_iter process_receiver_iter receive host flow
    schedule_sender_iter_evt schedule_receiver_iter_evt handle_all_grants handle_all_rts draw_loop
    send_all_rts PriorityQueue.empty PriorityQueue.top top_loop restart pim_comp target
accepting = (_, next offered.1 (sender_iter 0 0 2_000 (λ k. k) refl refl refl))

abbrev matched : (t : System) × Reach small rounds start t
unfolding start_new_epoch process_sender_iter process_receiver_iter receive host flow
    schedule_sender_iter_evt schedule_receiver_iter_evt handle_all_grants handle_all_rts draw_loop
    send_all_rts PriorityQueue.empty PriorityQueue.top top_loop restart pim_comp target
matched = (_, next accepting.1 (deliver 0 (accept 7 true 1 0) refl refl))

Reach-IsMatching_example : IsMatching matched.0
Reach-IsMatching_example = Reach-IsMatching small rounds start matched.0 start-IsInitial matched.1

receive-answers_example : Returns (
    receive accepting.0.flows
      (accept 7 true 1 0)
      (accepting.0.hosts (target accepting.0.flows (accept 7 true 1 0))))
unfolding start_new_epoch process_sender_iter process_receiver_iter receive host flow
    schedule_sender_iter_evt schedule_receiver_iter_evt handle_all_grants handle_all_rts draw_loop
    send_all_rts PriorityQueue.empty PriorityQueue.top top_loop restart pim_comp target
receive-answers_example =
    receive-answers small rounds start accepting.0 start-IsInitial accepting.1 0 (accept 7 true 1 0)
      refl refl

pair_test : Matched matched.0 0 0 1
unfolding start_new_epoch process_sender_iter process_receiver_iter receive host flow
    schedule_sender_iter_evt schedule_receiver_iter_evt handle_all_grants handle_all_rts draw_loop
    send_all_rts PriorityQueue.empty PriorityQueue.top top_loop restart pim_comp target
pair_test = (_, refl, refl)
