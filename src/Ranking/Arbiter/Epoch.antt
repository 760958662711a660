-- ===== src/Ranking/Arbiter/Epoch.antt =====
-- `schedule_epoch` returns, serves every pending request and schedules the next epoch.
use ruf.Prelude.{
  ℕ, suc, ◌+◌, ◌<◌, ◌≡◌, refl, sym, ap, ap₂, ◌∙◌, Bool, List, [], Option, none, some, ltb,
  if◌then◌else◌, arith, Bool-cases, inl, inr, length,
}
use ruf.Params.{Params}
use ruf.PriorityQueue
use ruf.PriorityQueue.Drain.{Drains}
use ruf.Ranking.Arbiter.{
  Arbiter, ListSrcs, GoSrc, list_srcs_comp, serve_pending, schedule_epoch, schedule_proc_evt,
  reset_ranking,
}
use ruf.Ranking.Arbiter.Serve.{hosts, greedy, Served, serve_pending-ServesAll}

module _ (params : Params) (now : ℕ) (draws : List ℕ) where
  abbrev pub reset_due : Arbiter → Bool
  reset_due a = ltb (a.last_reset_ranking_time + params.ranking_reset_epoch) now

  -- `c` is `a` after an epoch that served the requests in the given order: the hosts are those of
  -- the greedy pass, no request is pending, the next epoch is scheduled, and the ranks were drawn
  -- anew if they were due.
  pub record EpochDone (a : Arbiter) (order : List ListSrcs) (c : Arbiter) : Type 0 where
    pub hosts_greedy : hosts c ≡ (greedy params (hosts a) order).0
    pub drained : c.pending_q.v ≡ []
    pub next_evt : c.arbiter_proc_evt ≡ some (now + params.ranking_controller_epoch)
    pub ranks : c.ranking ≡ (if reset_due a then draws else a.ranking)
    pub reset_time :
        c.last_reset_ranking_time ≡ (if reset_due a then now else a.last_reset_ranking_time)

  abbrev closed : Arbiter → Arbiter
  closed b = record (reset_ranking params now draws b) {
    arbiter_proc_evt = some (now + params.ranking_controller_epoch);
  }

  hosts-closed : (b : Arbiter) → hosts (closed b) ≡ hosts b
  unfolding reset_ranking
  hosts-closed b = elim (Bool-cases (reset_due b)) [
    | inl due ↦ rw (due, reset_ranking)
    | inr early ↦ rw (early, reset_ranking)
  ]

  closed-EpochDone :
      (a b : Arbiter) (order : List ListSrcs)
      → Served params a order b
      → EpochDone a order (closed b)
  unfolding reset_ranking
  closed-EpochDone a b order s = record {
    hosts_greedy = hosts-closed b ∙ s.hosts_greedy;
    drained = ground arith;
    next_evt = refl;
    ranks = ground arith;
    reset_time = ground arith;
  }

  schedule_epoch_runs :
      (finished : ℕ) (a b : Arbiter) (sent : List GoSrc)
      → finished < params.num_flows_to_run
      → serve_pending params (suc (PriorityQueue.size a.pending_q)) a ≡ some (b, sent)
      → b.arbiter_proc_evt ≡ none
      → schedule_epoch params finished now draws a ≡ some (closed b, sent)
  unfolding schedule_epoch schedule_proc_evt reset_ranking
  schedule_epoch_runs finished a b sent h runs idle = ground arith

  -- With flows still to finish and no epoch scheduled, the epoch returns. It meets every pending
  -- request once, better-ranked destinations first, and sends what the greedy pass over them
  -- sends; then no request is pending, the next epoch is scheduled, and the ranks are drawn anew
  -- if that was due.
  pub schedule_epoch-EpochDone :
      (finished : ℕ) (a : Arbiter)
      → finished < params.num_flows_to_run
      → a.arbiter_proc_evt ≡ none
      → (order : List ListSrcs) × (c : Arbiter) × Drains
          (list_srcs_comp a.ranking)
          a.pending_q.v
          order
        × (schedule_epoch params finished now draws a ≡ some (c, (greedy params (hosts a) order).1))
        × EpochDone a order c
  unfolding PriorityQueue.size
  schedule_epoch-EpochDone finished a h idle =
      let (order, b, drains, runs, served) =
        serve_pending-ServesAll params (suc (PriorityQueue.size a.pending_q)) a enough in
      (
        order,
        closed b,
        drains,
        schedule_epoch_runs finished a b _ h runs (served.same_evt ∙ idle),
        closed-EpochDone a b order served,
      )
    where
      enough : length a.pending_q.v < suc (PriorityQueue.size a.pending_q)
      enough = omega arith

  -- What an epoch that returned has done.
  pub schedule_epoch-greedy :
      (finished : ℕ) (a c : Arbiter) (sent : List GoSrc)
      → finished < params.num_flows_to_run
      → a.arbiter_proc_evt ≡ none
      → schedule_epoch params finished now draws a ≡ some (c, sent)
      → (order : List ListSrcs) × Drains (list_srcs_comp a.ranking) a.pending_q.v order
        × ((hosts c, sent) ≡ greedy params (hosts a) order)
  schedule_epoch-greedy finished a c sent h idle e =
      let (order, c', drains, runs, ends) = schedule_epoch-EpochDone finished a h idle in
      let same : ◌≡◌ {A = Option (Arbiter × List GoSrc)}
          (some (c', (greedy params (hosts a) order).1)) (some (c, sent)) =
        sym runs ∙ e in
      let same_c : c ≡ c' = cc in
      (order, drains, ap₂ (λ x y. (x, y)) (ap hosts same_c ∙ ends.hosts_greedy) (cc))
