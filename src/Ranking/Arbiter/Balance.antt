-- ===== src/Ranking/Arbiter/Balance.antt =====
-- The arbiter's two vectors of states stay in step: as many busy sources as busy destinations.
use ruf.Prelude.{
  ℕ, ◌+◌, ◌<◌, ◌≡◌, refl, sym, ◌∙◌, subst, true, false, List, [], ◌∷◌, Option, some, none, length,
  Bool-cases, inl, inr, leb, arith,
}
use ruf.Prelude.Slots.{count_busy, count_busy-take, count_busy-free}
use ruf.Params.{Params}
use ruf.Ranking.Arbiter.{
  Arbiter, ListSrcs, GoSrc, RankingListSrcs, RankingNrts, init, schedule_epoch, process_event,
  release, receive_listsrcs, receive_nrts, is_src_free, is_dst_free,
}
use ruf.Ranking.Arbiter.Serve.{Hosts, hosts, greedy}
use ruf.Ranking.Arbiter.Epoch.{schedule_epoch-greedy}
use ruf.Ranking.Arbiter.Matching.{passed, picked, pick-Picks, taking, greedy_passed, greedy_picked}

-- `g.0` has one more busy source and one more busy destination than `h` for each packet of `g.1`.
abbrev Counts : Hosts → Hosts × List GoSrc → Type 0
Counts h g =
    (count_busy g.0.src ≡ count_busy h.src + length g.1)
    × (count_busy g.0.dst ≡ count_busy h.dst + length g.1)

module _ (params : Params) where
  greedy-Counts : (h : Hosts) (rs : List ListSrcs) → Counts h (greedy params h rs)
  unfolding greedy
  greedy-Counts h [] = omega arith
  greedy-Counts h (r ∷ rs) = elim (pick-Picks params h r) [
    | passed e _ ↦ subst (Counts h) (sym (greedy_passed params h r rs e)) (greedy-Counts h rs)
    | picked i e src dst _ ↦
        let ih = greedy-Counts (taking params h r i) rs in
        subst (Counts h) (sym (greedy_picked params h r rs i e))
          (omega (arith, ih, count_busy-take h.src i src, count_busy-take h.dst r.dst dst))
  ]

  abbrev pub IsBalanced : Arbiter → Type 0
  IsBalanced a = count_busy a.src_state ≡ count_busy a.dst_state

  schedule_epoch-IsBalanced :
      (finished now : ℕ) (draws : List ℕ) (a c : Arbiter) (sent : List GoSrc)
      → finished < params.num_flows_to_run
      → a.arbiter_proc_evt ≡ none
      → schedule_epoch params finished now draws a ≡ some (c, sent)
      → IsBalanced a
      → IsBalanced c
  schedule_epoch-IsBalanced finished now draws a c sent h idle e b =
      let (order, drains, same) =
        schedule_epoch-greedy params now draws finished a c sent h idle e in
      let counts : Counts (hosts a) (hosts c, sent) =
        subst (Counts (hosts a)) (sym same) (greedy-Counts (hosts a) order) in
      omega (arith, counts, b)

  schedule_epoch_over :
      (finished now : ℕ) (draws : List ℕ) (a : Arbiter)
      → leb params.num_flows_to_run finished ≡ true
      → schedule_epoch params finished now draws a ≡ some (a, [])
  unfolding schedule_epoch
  schedule_epoch_over finished now draws a h = rw h

  epoch-IsBalanced :
      (finished now : ℕ) (draws : List ℕ) (a c : Arbiter) (sent : List GoSrc)
      → process_event params finished now draws a ≡ some (c, sent)
      → IsBalanced a
      → IsBalanced c
  unfolding process_event
  epoch-IsBalanced finished now draws a c sent e b =
      elim (Bool-cases (leb params.num_flows_to_run finished)) [
        | inl over ↦
            let ends : ◌≡◌ {A = Option (Arbiter × List GoSrc)}
                (some (record a { arbiter_proc_evt = none }, [])) (some (c, sent)) =
              sym
                (schedule_epoch_over finished now draws (record a { arbiter_proc_evt = none }) over)
              ∙ e in
            let same : record a { arbiter_proc_evt = none } ≡ c = cc in subst IsBalanced same b
        | inr more ↦
            schedule_epoch-IsBalanced finished now draws (record a { arbiter_proc_evt = none }) c
              sent (ground arith) refl e b
      ]

  -- A pair that is busy, and whose numbers are those of hosts.
  abbrev pub BusyPair : Arbiter → ℕ → ℕ → Type 0
  BusyPair a src dst =
      (src < length a.src_state)
      × (dst < length a.dst_state)
      × (is_src_free a src ≡ false)
      × (is_dst_free a dst ≡ false)

  release-IsBalanced :
      (a : Arbiter) (src dst : ℕ)
      → BusyPair a src dst
      → IsBalanced a
      → IsBalanced (release src dst a)
  unfolding release is_src_free is_dst_free
  release-IsBalanced a src dst (in_src, in_dst, busy_src, busy_dst) b = omega (
    arith,
    count_busy-free a.src_state src in_src busy_src,
    count_busy-free a.dst_state dst in_dst busy_dst,
  )

  -- What can happen to the arbiter. A ListSrcs packet that carries an NRTS names a busy pair, which
  -- the hosts answer for; of a bare NRTS the code asserts it.
  pub data Step (a : Arbiter) : Arbiter → Type 0 where
    epoch :
        {c : Arbiter} (finished now : ℕ) (draws : List ℕ) (sent : List GoSrc)
        → process_event params finished now draws a ≡ some (c, sent)
        → Step a c
    listsrcs :
        (pkt : RankingListSrcs)
        → (pkt.has_nrts ≡ true → BusyPair a pkt.nrts_src_id pkt.nrts_dst_id)
        → Step a (receive_listsrcs pkt a)
    nrts :
        {c : Arbiter} (pkt : RankingNrts)
        → pkt.src_id < length a.src_state
        → pkt.dst_id < length a.dst_state
        → receive_nrts pkt a ≡ some c
        → Step a c

  pub data Reach (a : Arbiter) : Arbiter → Type 0 where
    here : Reach a a
    next : {b c : Arbiter} → Reach a b → Step b c → Reach a c

  -- What `receive_nrts` asserts and does.
  pub receive_nrts_lem :
      (pkt : RankingNrts) (a c : Arbiter)
      → receive_nrts pkt a ≡ some c
      → (is_src_free a pkt.src_id ≡ false)
        × (is_dst_free a pkt.dst_id ≡ false)
        × (c ≡ release pkt.src_id pkt.dst_id a)
  unfolding receive_nrts
  receive_nrts_lem pkt a c e = ground arith

  Step-IsBalanced : {a c : Arbiter} → Step a c → IsBalanced a → IsBalanced c
  unfolding receive_listsrcs
  Step-IsBalanced {a} {c} (epoch finished now draws sent e) b =
      epoch-IsBalanced finished now draws a c sent e b
  Step-IsBalanced {a} (listsrcs pkt pair) b = elim (Bool-cases pkt.has_nrts) [
    | inl with_nrts ↦
        rw with_nrts (release-IsBalanced a pkt.nrts_src_id pkt.nrts_dst_id (pair with_nrts) b)
    | inr plain ↦ rw plain b
  ]
  Step-IsBalanced {a} {c} (nrts pkt in_src in_dst e) b =
      let (busy_src, busy_dst, same) = receive_nrts_lem pkt a c e in
      subst IsBalanced (sym same)
        (release-IsBalanced a pkt.src_id pkt.dst_id (in_src, in_dst, busy_src, busy_dst) b)

  -- After any sequence of epochs, ListSrcs packets and NRTS packets from a state with as many busy
  -- sources as busy destinations there are as many of each again. A ListSrcs packet that gives a pair
  -- back is taken to name a busy source and a busy destination, and an NRTS packet to name hosts.
  pub Reach-IsBalanced : {a c : Arbiter} → Reach a c → IsBalanced a → IsBalanced c
  Reach-IsBalanced here b = b
  Reach-IsBalanced (next r st) b = Step-IsBalanced st (Reach-IsBalanced r b)

  init-IsBalanced : (draws : List ℕ) → IsBalanced (init params draws)
  unfolding init
  init-IsBalanced draws = refl
