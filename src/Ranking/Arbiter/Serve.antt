-- ===== src/Ranking/Arbiter/Serve.antt =====
-- An epoch of the arbiter as a greedy pass over the requests, in an order that puts better-ranked
-- destinations first.
use ruf.Prelude.{
  ℕ, zero, suc, ◌<◌, ◌≡◌, refl, sym, inl, inr, subst, Bool, true, false, List, [], ◌∷◌, ◌++◌,
  Option, none, some, length, get_or, set, if◌then◌else◌, Bool-cases, arith,
}
use ruf.Params.{Params}
use ruf.PriorityQueue
use ruf.PriorityQueue.{PriorityQueue}
use ruf.PriorityQueue.Best.{Popped, pop-top}
use ruf.PriorityQueue.Drain.{Drains, done, take, empty-eq-nil, Popped-length}
use ruf.Prelude.Int.{pos}
use ruf.Ranking.Arbiter.{
  Arbiter, ListSrcs, GoSrc, list_srcs_comp, first_free, sending_gosrc, grant, serve, serve_pending,
}
use ruf.Ranking.Arbiter.Order.{list_srcs_comp-IsStrictWeak}

-- Which hosts are free to send and to receive.
pub record Hosts : Type 0 where
  pub src : List Bool
  pub dst : List Bool

abbrev pub hosts : Arbiter → Hosts
hosts a = record { src = a.src_state; dst = a.dst_state }

module _ (params : Params) where
  abbrev pub give : Hosts → ℕ → Option ℕ → Hosts × List GoSrc
  give h dst none = (h, [])
  give h dst (some i) = (
    record { src = set h.src i false; dst = set h.dst dst false },
    sending_gosrc params dst i ∷ [],
  )

  -- A free destination takes the first free source of its request.
  abbrev pub pick : Hosts → ListSrcs → Hosts × List GoSrc
  pick h r =
      if get_or h.dst r.dst false then give h r.dst (first_free h.src r.list_srcs) else (h, [])

  unfoldable pub greedy : Hosts → List ListSrcs → Hosts × List GoSrc
  greedy h [] = (h, [])
  greedy h (r ∷ rs) =
      let (h', sent) = pick h r in let (h'', more) = greedy h' rs in (h'', sent ++ more)

  grant-give :
      (a : Arbiter) (dst : ℕ) (o : Option ℕ)
      → let r = give (hosts a) dst o in
        grant params a dst o ≡ (record a { src_state = r.0.src; dst_state = r.0.dst }, r.1)
  unfolding grant
  grant-give a dst none = refl
  grant-give a dst (some i) = refl

  serve-pick :
      (a : Arbiter) (r : ListSrcs)
      → let p = pick (hosts a) r in
        serve params a r ≡ (record a { src_state = p.0.src; dst_state = p.0.dst }, p.1)
  unfolding serve
  serve-pick a r = elim (Bool-cases (get_or a.dst_state r.dst false)) [
    | inl free ↦ rw (free, serve) (grant-give a r.dst (first_free a.src_state r.list_srcs))
    | inr busy ↦ rw (busy, serve)
  ]

  -- After the pass over `order`: the hosts are those of the greedy pass, the queue is empty and the
  -- rest is as before.
  pub record Served (a : Arbiter) (order : List ListSrcs) (c : Arbiter) : Type 0 where
    pub hosts_greedy : hosts c ≡ (greedy (hosts a) order).0
    pub drained : c.pending_q.v ≡ []
    pub same_ranking : c.ranking ≡ a.ranking
    pub same_reset : c.last_reset_ranking_time ≡ a.last_reset_ranking_time
    pub same_evt : c.arbiter_proc_evt ≡ a.arbiter_proc_evt

  abbrev pub ServesAll : ℕ → Arbiter → Type 0
  ServesAll n a =
      (order : List ListSrcs) × (c : Arbiter) × Drains (list_srcs_comp a.ranking) a.pending_q.v
        order
      × (serve_pending params n a ≡ some (c, (greedy (hosts a) order).1))
      × Served a order c

  -- One round of the loop on a queue that is not empty.
  serve_pending_step :
      (n : ℕ) (a : Arbiter) (r : ListSrcs) (q q' : PriorityQueue ListSrcs)
      → PriorityQueue.empty a.pending_q ≡ false
      → PriorityQueue.top (list_srcs_comp a.ranking) a.pending_q ≡ some (r, q)
      → PriorityQueue.pop (list_srcs_comp a.ranking) q ≡ some q'
      → (c : Arbiter) (sent : List GoSrc)
      → let p = pick (hosts a) r in
        serve_pending params n
            (record a { pending_q = q'; src_state = p.0.src; dst_state = p.0.dst })
          ≡ some (c, sent)
        → serve_pending params (suc n) a ≡ some (c, p.1 ++ sent)
  unfolding serve_pending
  serve_pending_step n a r q q' ne t p c sent rest =
      rw (ne, t, p, serve-pick (record a { pending_q = q' }) r, rest, serve_pending)

  serves_none : (n : ℕ) (a : Arbiter) → PriorityQueue.empty a.pending_q ≡ true → ServesAll (suc n) a
  unfolding serve_pending greedy
  serves_none n a is_empty =
      let nil = empty-eq-nil a.pending_q is_empty in
      (
        [],
        a,
        subst (λ v. Drains (list_srcs_comp a.ranking) v []) (sym nil) done,
        rw (is_empty, serve_pending),
        record {
          hosts_greedy = refl;
          drained = nil;
          same_ranking = refl;
          same_reset = refl;
          same_evt = refl;
        },
      )

  abbrev after_pick : Arbiter → ListSrcs → PriorityQueue ListSrcs → Arbiter
  after_pick a r q' =
      let p = pick (hosts a) r in
      record a { pending_q = q'; src_state = p.0.src; dst_state = p.0.dst }

  serves_more :
      (n : ℕ) (a : Arbiter) (r : ListSrcs) (k : ℕ) (q' : PriorityQueue ListSrcs)
      → PriorityQueue.empty a.pending_q ≡ false
      → PriorityQueue.top (list_srcs_comp a.ranking) a.pending_q
        ≡ some (r, record a.pending_q { best_index = pos k })
      → PriorityQueue.pop (list_srcs_comp a.ranking) (record a.pending_q { best_index = pos k })
        ≡ some q'
      → Popped (list_srcs_comp a.ranking) a.pending_q.v r k q'
      → ServesAll n (after_pick a r q')
      → ServesAll (suc n) a
  unfolding greedy
  serves_more n a r k q' ne t p popped (order, c, drains, runs, served) = (
    r ∷ order,
    c,
    take r k popped.best
        (subst (λ v. Drains (list_srcs_comp a.ranking) v order) popped.rest drains),
    serve_pending_step n a r _ q' ne t p c _ runs,
    record {
      hosts_greedy = served.hosts_greedy;
      drained = served.drained;
      same_ranking = served.same_ranking;
      same_reset = served.same_reset;
      same_evt = served.same_evt;
    },
  )

  -- The loop ends with fuel above the number of requests.
  pub serve_pending-ServesAll : (n : ℕ) (a : Arbiter) → length a.pending_q.v < n → ServesAll n a
  serve_pending-ServesAll zero a h = absurd (omega arith)
  serve_pending-ServesAll (suc n) a h = elim (Bool-cases (PriorityQueue.empty a.pending_q)) [
    | inl is_empty ↦ serves_none n a is_empty
    | inr more ↦
        let (r, k, q', t, p, popped) =
          pop-top _ (list_srcs_comp-IsStrictWeak a.ranking) a.pending_q more in
        serves_more n a r k q' more t p popped
          (serve_pending-ServesAll n (after_pick a r q') (omega (arith, Popped-length popped)))
  ]
