-- ===== src/Examples/Host.antt =====
-- A receiver with three flows from host 0: one over, one that waits for its data, one ready.
use mathlib.Core.List.{Perm}
use mathlib.Core.List.Perm
use ruf.Ranking.Host.Listed.{Listed, Ranked, send_list_srcs-Listed}
use ruf.Prelude.{
  List, map, arith, inr, ℕ, ◌+◌, ◌≡◌, refl, true, false, [], ◌∷◌, Option, none, some, ◌==◌,
  if◌then◌else◌,
}
use ruf.Prelude.Int.{ℤ, pos, negsuc, ◌+ℤ◌, ◌-ℤ◌}
use ruf.PriorityQueue
use ruf.PriorityQueue.{PriorityQueue}
use ruf.PriorityQueue.Checked.{checked_top, checked_pop, checked_loop}
use ruf.Ranking.Flow.{
  get_next_token_seq_num, next_seq_loop, token_gap, RankingFlow, new, remaining_pkts, gap,
}
use ruf.Ranking.Comparators.{receiver_comp, unasked}
use ruf.Ranking.Host.{
  RankingHost, Control, init, put, find, push_flow, push_all, update, emit, unfinish_loop,
  get_top_unfinish_flow, schedule_token_proc_evt, restart_tokens, schedule_wakeup_event, reset,
}
use ruf.Ranking.Host.Unfinished.{Searched, get_top_unfinish_flow-Searched}
use ruf.Ranking.Flow.Received.{IsConsistent, missing}
use ruf.Ranking.Host.Offers.{Offers, offer-Offers}
use ruf.Ranking.Host.Sending.{
  offer, try_token, open_window, end_timeout, send_token_pkt, token_round, use_grant, is_within,
}
use ruf.Ranking.Host.Listing.{
  send_list_srcs, collect, listing_loop, sort, insert, emit_list, list_src_comp,
}
use ruf.Ranking.Host.Receiving.{receive_rts, receive_gosrc, ask_for_grant}
use ruf.Examples.{small}

program : Unit {0}
unfolding init PriorityQueue.new PriorityQueue.push PriorityQueue.top PriorityQueue.pop
    PriorityQueue.empty PriorityQueue.size PriorityQueue.top_loop new find put push_flow push_all
    update emit reset unfinish_loop get_top_unfinish_flow restart_tokens schedule_token_proc_evt
    schedule_wakeup_event send_list_srcs collect listing_loop sort insert emit_list receive_rts
    ask_for_grant receive_gosrc receiver_comp list_src_comp unasked token_gap gap remaining_pkts
    ◌+ℤ◌ ◌-ℤ◌ checked_top checked_pop checked_loop
program = tt

-- Fourteen packets, more than the free tokens of a short flow.
abbrev long_flow : ℕ → RankingFlow
unfolding program
long_flow i = new small i (1_000 + i) 20_000 0 1 0

abbrev store : ℕ → RankingFlow
unfolding program
store i =
    if i == 0
    then record (long_flow 0) { finished_at_receiver = true }
    else (if i == 1
        then record (long_flow 1) { redundancy_ctrl_timeout = pos 9_000 }
        else long_flow i)

abbrev from_0 : PriorityQueue ℕ
from_0 = record { v = 0 ∷ 1 ∷ 2 ∷ []; best_index = negsuc 0 }

abbrev host : RankingHost
unfolding program
host = record (init 1 store) { src_to_flows = (0, from_0) ∷ [] }

finds_two :
    get_top_unfinish_flow small 5_000 0 host
    ≡ some (
      some 2,
      record host { src_to_flows = (0, record { v = 2 ∷ 1 ∷ []; best_index = negsuc 0 }) ∷ [] },
    )
unfolding program
finds_two = refl

get_top_unfinish_flow-Searched_example :
    (best : Option ℕ) × (r : PriorityQueue ℕ) × (get_top_unfinish_flow small 5_000 0 host
      ≡ some (best, record host { src_to_flows = put 0 r host.src_to_flows }))
    × Searched small store 5_000 from_0.v best r.v
unfolding program
get_top_unfinish_flow-Searched_example =
    get_top_unfinish_flow-Searched small 5_000 0 host from_0 refl (refl, (refl, (refl, tt)))

-- A new flow from host 3 makes an idle receiver ask for both sources.
asks_for_both :
    elim (receive_rts small 5_000
      (λ v. v)
      3
      21
      (record host { flows = λ i. if i == 3 then new small 3 1_003 30_000 3 1 0 else store i })) [
        | none ↦ []
        | some h ↦ h.sent
      ]
    ≡ Control.list_srcs (record {
      rts_dst = 1;
      list_srcs = 0 ∷ 3 ∷ [];
      has_nrts = false;
      nrts_src_id = 0;
      nrts_dst_id = 0;
    })
      ∷ []
unfolding program
asks_for_both = refl

-- Host 1 holds a grant of 16 tokens for host 0: flow 2 gets the first of them.
abbrev granted : RankingHost
unfolding program
granted = record host {
  gosrc_info = record {
    max_tokens = pos 16;
    remain_tokens = pos 16;
    round = pos 1;
    src = some 0;
    send_nrts = false;
  };
}

flow_2-IsConsistent : IsConsistent (granted.flows 2)
unfolding program missing
flow_2-IsConsistent = record {
  whole = refl;
  counted = refl;
  until = record { within = omega arith; prefix = λ i h. absurd (omega arith); stops = λ h. refl };
}

first_token :
    elim (offer small 5_000 2 granted (pos 999)) [
      | none ↦ []
      | some (sent, closet, h) ↦ h.gosrc_info.remain_tokens ∷ pos (h.flows 2).token_count ∷ []
    ]
    ≡ pos 15 ∷ pos 1 ∷ []
unfolding program offer try_token open_window end_timeout send_token_pkt token_round use_grant
    get_next_token_seq_num next_seq_loop is_within
first_token = refl

offer-Offers_example : Offers small 5_000 2 granted (pos 999)
unfolding program
offer-Offers_example =
    offer-Offers small 5_000 2 granted (pos 999) flow_2-IsConsistent (omega arith) refl
      (inr (refl, refl))

send_list_srcs-Listed_example :
    (vect ranked : List (ℤ × ℕ)) × (queues : List (ℕ × PriorityQueue ℕ)) × Listed small store 5_000
      host.src_to_flows vect queues
    × Perm vect ranked
    × Ranked ranked
    × (send_list_srcs small (λ v. v) 5_000 none host
        ≡ some (emit_list none (map (λ x. x.1) ranked) (record host { src_to_flows = queues })))
unfolding program
send_list_srcs-Listed_example =
    send_list_srcs-Listed small (λ v. v) 5_000 host (λ v. Perm.rfl) ((refl, (refl, (refl, tt))), tt)
