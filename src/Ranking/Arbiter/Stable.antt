-- ===== src/Ranking/Arbiter/Stable.antt =====
-- No request of an epoch is passed over for a worse-ranked one.
use ruf.Prelude.{
  ℕ, ◌≤◌, ◌<◌, ◌≡◌, refl, sym, subst, ◌⊎◌, inl, inr, false, List, [], ◌∷◌, some, get_or, All,
  All-map, All-zip, none, ◌==◌, Bool-cases, arith,
}
use ruf.Prelude.Slots.{get_or-set}
use ruf.Params.{Params}
use ruf.PriorityQueue.Drain.{Sorted, Drains-Sorted, All-Drains}
use ruf.Ranking.Arbiter.{Arbiter, ListSrcs, GoSrc, list_srcs_comp, sending_gosrc, schedule_epoch}
use ruf.Ranking.Arbiter.Serve.{Hosts, hosts, greedy}
use ruf.Ranking.Arbiter.Epoch.{schedule_epoch-greedy}
use ruf.Ranking.Arbiter.Matching.{
  In, passed, picked, pick-Picks, taking, greedy_passed, greedy_picked, greedy-IsMatching,
}

All-In : (P : ℕ → Type 0) (xs : List ℕ) (s : ℕ) → All P xs → In s xs → P s
All-In P [] s h m = elim m [ ]
All-In P (x ∷ xs) s h (inl e) = subst P (sym e) h.0
All-In P (x ∷ xs) s h (inr m) = All-In P xs s h.1 m

module _ (ranking : List ℕ) where
  abbrev pub rank : ℕ → ℕ
  rank d = get_or ranking d 0

  -- A source was busy before, or went to a destination ranked no worse than the request's.
  abbrev pub Blocked : Hosts → List GoSrc → ListSrcs → ℕ → Type 0
  Blocked h sent r s =
      (get_or h.src s false ≡ false)
      ⊎ ((g : GoSrc) × In g sent × (g.src_id ≡ s) × (rank g.dst ≤ rank r.dst))

  -- The request's destination is busy now, or each source that it asked for is blocked.
  abbrev pub Settled : Hosts → Hosts × List GoSrc → ListSrcs → Type 0
  Settled h g r =
      (get_or g.0.dst r.dst false ≡ false) ⊎ ((s : ℕ) → In s r.list_srcs → Blocked h g.1 r s)

module _ (params : Params) (ranking : List ℕ) where
  dst_stays_busy :
      (h : Hosts) (rs : List ListSrcs) (d : ℕ)
      → get_or h.dst d false ≡ false
      → get_or (greedy params h rs).0.dst d false ≡ false
  dst_stays_busy h rs d busy = ground (arith, (greedy-IsMatching params h rs).destinations.after d)

  Blocked-cons :
      (h : Hosts) (r r' : ListSrcs) (i s : ℕ) (more : List GoSrc)
      → list_srcs_comp ranking r r' ≡ false
      → Blocked ranking (taking params h r i) more r' s
      → Blocked ranking h (sending_gosrc params r.dst i ∷ more) r' s
  unfolding list_srcs_comp sending_gosrc
  Blocked-cons h r r' i s more better (inr (g, at_g, e, le)) = inr (g, inr at_g, e, le)
  Blocked-cons h r r' i s more better (inl busy) = elim (Bool-cases (i == s)) [
    | inl hit ↦ inr (sending_gosrc params r.dst i, inl refl, ground arith, ground arith)
    | inr miss ↦ inl (ground (arith, get_or-set h.src i s))
  ]

  Settled-cons :
      (h : Hosts) (r r' : ListSrcs) (i : ℕ) (g : Hosts × List GoSrc)
      → (Settled ranking (taking params h r i) g r') × (list_srcs_comp ranking r r' ≡ false)
      → Settled ranking h (g.0, sending_gosrc params r.dst i ∷ g.1) r'
  Settled-cons h r r' i g (inl busy, better) = inl busy
  Settled-cons h r r' i g (inr blocked, better) =
      inr λ s m. Blocked-cons h r r' i s g.1 better (blocked s m)

  Settled-passed :
      (h : Hosts) (r : ListSrcs) (rs : List ListSrcs)
      → (get_or h.dst r.dst false ≡ false) ⊎ All (λ i. get_or h.src i false ≡ false) r.list_srcs
      → Settled ranking h (greedy params h rs) r
  Settled-passed h r rs (inl busy) = inl (dst_stays_busy h rs r.dst busy)
  Settled-passed h r rs (inr none_free) = inr λ s m. inl (All-In _ r.list_srcs s none_free m)

  greedy-Settled :
      (h : Hosts) (rs : List ListSrcs)
      → Sorted (list_srcs_comp ranking) rs
      → All (Settled ranking h (greedy params h rs)) rs
  greedy-Settled h [] sorted = tt
  greedy-Settled h (r ∷ rs) (first, sorted) = elim (pick-Picks params h r) [
    | passed e why ↦
        subst (λ g. All (Settled ranking h g) (r ∷ rs)) (sym (greedy_passed params h r rs e))
          (Settled-passed h r rs why, greedy-Settled h rs sorted)
    | picked i e src dst _ ↦
        subst (λ g. All (Settled ranking h g) (r ∷ rs)) (sym (greedy_picked params h r rs i e))
          (
            inl (dst_stays_busy _ rs r.dst (ground (arith, get_or-set h.dst r.dst r.dst))),
            All-map rs (λ r'. Settled-cons h r r' i (greedy params (taking params h r i) rs))
                (All-zip _ _ rs (greedy-Settled (taking params h r i) rs sorted) first),
          )
  ]

-- When flows are left to finish and no next epoch is scheduled yet, after an epoch each request
-- that was pending has its destination busy, or has every source of its list busy before the epoch
-- or given to a destination ranked no worse.
pub schedule_epoch-Settled :
    (params : Params) (finished now : ℕ) (draws : List ℕ) (a c : Arbiter) (sent : List GoSrc)
    → finished < params.num_flows_to_run
    → a.arbiter_proc_evt ≡ none
    → schedule_epoch params finished now draws a ≡ some (c, sent)
    → All (Settled a.ranking (hosts a) (hosts c, sent)) a.pending_q.v
schedule_epoch-Settled params finished now draws a c sent h idle e =
    let (order, drains, same) = schedule_epoch-greedy params now draws finished a c sent h idle e in
    All-Drains _ _ drains (
      subst (λ g. All (Settled a.ranking (hosts a) g) order) (sym same)
        (greedy-Settled params a.ranking (hosts a) order (Drains-Sorted _ drains)))
