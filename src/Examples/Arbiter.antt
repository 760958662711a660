-- ===== src/Examples/Arbiter.antt =====
-- The arbiter with two requests for one source: the better-ranked destination gets it.
use ruf.Prelude.{ℕ, ◌≡◌, refl, inl, true, false, List, [], ◌∷◌, some, none, All, arith}
use ruf.Prelude.Int.{pos, negsuc}
use ruf.Prelude.Slots.{count_busy}
use ruf.PriorityQueue
use ruf.PriorityQueue.{PriorityQueue}
use ruf.PriorityQueue.Best.{Popped, pop-Popped, pop-top}
use ruf.PriorityQueue.Drain.{Drains}
use ruf.Ranking.Arbiter.{
  Arbiter, ListSrcs, GoSrc, list_srcs_comp, schedule_epoch, serve_pending, serve, grant, first_free,
  schedule_proc_evt, receive_nrts, process_event,
}
use ruf.Ranking.Arbiter.Order.{list_srcs_comp-IsStrictWeak}
use ruf.Ranking.Arbiter.Serve.{hosts, greedy}
use ruf.Ranking.Arbiter.Epoch.{EpochDone, schedule_epoch-EpochDone}
use ruf.Ranking.Arbiter.Matching.{IsMatching, schedule_epoch-IsMatching}
use ruf.Ranking.Arbiter.Stable.{Settled, schedule_epoch-Settled}
use ruf.Ranking.Arbiter.Balance.{IsBalanced, here, next, epoch, nrts, Reach-IsBalanced}
use ruf.Examples.{small}

program : Unit {0}
unfolding schedule_epoch serve_pending serve grant first_free schedule_proc_evt list_srcs_comp
    PriorityQueue.empty PriorityQueue.top PriorityQueue.pop PriorityQueue.top_loop
    PriorityQueue.size PriorityQueue.new
program = tt

abbrev ranks : List ℕ
ranks = 30 ∷ 10 ∷ 20 ∷ 40 ∷ []

abbrev asks : PriorityQueue ListSrcs
asks = record {
  v =
      record { dst = 0; list_srcs = 2 ∷ [] }
      ∷ record { dst = 1; list_srcs = 2 ∷ 3 ∷ [] }
      ∷ record { dst = 3; list_srcs = 2 ∷ 1 ∷ [] }
      ∷ [];
  best_index = negsuc 0;
}

abbrev waiting : Arbiter
waiting = record {
  src_state = true ∷ true ∷ true ∷ true ∷ [];
  dst_state = true ∷ true ∷ true ∷ true ∷ [];
  arbiter_proc_evt = none;
  last_reset_ranking_time = 0;
  pending_q = asks;
  ranking = ranks;
}

-- Destinations 1 and 3 are served; destination 0 asked for source 2 alone.
abbrev served : Arbiter
served = record {
  src_state = true ∷ false ∷ false ∷ true ∷ [];
  dst_state = true ∷ false ∷ true ∷ false ∷ [];
  arbiter_proc_evt = some 5_800_000;
  last_reset_ranking_time = 0;
  pending_q = PriorityQueue.new;
  ranking = ranks;
}

abbrev packets : List GoSrc
packets =
    record { dst = 1; src_id = 2; max_tokens = 16 }
    ∷ record { dst = 3; src_id = 1; max_tokens = 16 }
    ∷ []

epoch_runs : schedule_epoch small 0 1_000_000 ranks waiting ≡ some (served, packets)
unfolding program
epoch_runs = refl

process_runs : process_event small 0 1_000_000 ranks waiting ≡ some (served, packets)
unfolding program process_event
process_runs = refl

pop-Popped_example :
    (b : ListSrcs) × (k : ℕ) × (r : PriorityQueue ListSrcs) × (PriorityQueue.pop
        (list_srcs_comp ranks)
        asks
      ≡ some r)
    × Popped (list_srcs_comp ranks) asks.v b k r
unfolding program
pop-Popped_example =
    pop-Popped (list_srcs_comp ranks) (list_srcs_comp-IsStrictWeak ranks) asks (inl refl) refl

pop-top_example :
    (b : ListSrcs) × (k : ℕ) × (r : PriorityQueue ListSrcs) × (PriorityQueue.top
        (list_srcs_comp ranks)
        asks
      ≡ some (b, record asks { best_index = pos k }))
    × (PriorityQueue.pop (list_srcs_comp ranks) (record asks { best_index = pos k }) ≡ some r)
    × Popped (list_srcs_comp ranks) asks.v b k r
unfolding program
pop-top_example = pop-top (list_srcs_comp ranks) (list_srcs_comp-IsStrictWeak ranks) asks refl

schedule_epoch-EpochDone_example :
    (order : List ListSrcs) × (c : Arbiter) × Drains (list_srcs_comp ranks) asks.v order
    × (schedule_epoch small 0 1_000_000 ranks waiting
        ≡ some (c, (greedy small (hosts waiting) order).1))
    × EpochDone small 1_000_000 ranks waiting order c
schedule_epoch-EpochDone_example =
    schedule_epoch-EpochDone small 1_000_000 ranks 0 waiting (omega arith) refl

schedule_epoch-IsMatching_example : IsMatching small (hosts waiting) (hosts served, packets)
schedule_epoch-IsMatching_example =
    schedule_epoch-IsMatching small 0 1_000_000 ranks waiting served packets (omega arith) refl
      epoch_runs

schedule_epoch-Settled_example : All (Settled ranks (hosts waiting) (hosts served, packets)) asks.v
schedule_epoch-Settled_example =
    schedule_epoch-Settled small 0 1_000_000 ranks waiting served packets (omega arith) refl
      epoch_runs

-- Destination 3 gives source 1 back.
abbrev back : Arbiter
back = record served {
  src_state = true ∷ true ∷ false ∷ true ∷ [];
  dst_state = true ∷ false ∷ true ∷ true ∷ [];
}

back_runs : receive_nrts (record { src_id = 1; dst_id = 3 }) served ≡ some back
unfolding receive_nrts
back_runs = refl

Reach-IsBalanced_example : IsBalanced small back
unfolding count_busy
Reach-IsBalanced_example =
    Reach-IsBalanced small
      (next (next here (epoch 0 1_000_000 ranks packets process_runs))
        (nrts (record { src_id = 1; dst_id = 3 }) (omega arith) (omega arith) back_runs))
      refl
