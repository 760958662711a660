-- ===== src/Ranking/Host/Listed.antt =====
-- `send_listSrcs` without a source to give back lists the sources that have a flow to serve, best
-- first.
use mathlib.Core.List.{Perm, Mem, mem-cons, not-mem-nil}
use mathlib.Core.List.Perm
use mathlib.Core.Logic.{∥∥₁_elim}
use mathlib.Core.HLevel.{⊥_prop}
use ruf.Prelude.{
  ℕ, zero, suc, ◌≡◌, refl, sym, subst, Bool, ap, inl, inr, true, false, List, [], ◌∷◌, ◌++◌, Option,
  none, some, All, All-map, Bool-cases, map, arith,
}
use ruf.Prelude.Faults.{◌>>=◌}
use ruf.Prelude.Int.{ℤ, pos, leb_ℤ}
use ruf.Params.{Params}
use ruf.PriorityQueue
use ruf.PriorityQueue.{PriorityQueue}
use ruf.Ranking.Flow.{RankingFlow, outstanding}
use ruf.PriorityQueue.Checked.{checked_top, checked_pop}
use ruf.Ranking.Comparators.{receiver_comp, left_to_ask, unasked-InOrder}
use ruf.Ranking.Host.{RankingHost, in_timeout, unfinish_loop, push_all}
use ruf.Ranking.Host.Unfinished.{Searched, loop-Searched, AllInOrder, IsTop}
use ruf.Ranking.Host.Listing.{
  listing_loop, collect, entry, keep, list_src_comp, insert, sort, send_list_srcs, emit_list, held,
}

-- No key is above a later one.
abbrev pub Ranked : List (ℤ × ℕ) → Type 0
Ranked [] = Unit
Ranked (x ∷ xs) = All (λ y. list_src_comp y x ≡ false) xs × Ranked xs

abbrev Above : ℤ × ℕ → List (ℤ × ℕ) → Type 0
Above x xs = All (λ y. list_src_comp y x ≡ false) xs

list_src_comp_trans :
    (x y z : ℤ × ℕ)
    → list_src_comp y x ≡ false
    → list_src_comp z y ≡ false
    → list_src_comp z x ≡ false
unfolding list_src_comp
list_src_comp_trans x y z h k = ground arith

list_src_comp_asym : (x y : ℤ × ℕ) → list_src_comp y x ≡ true → list_src_comp x y ≡ false
unfolding list_src_comp
list_src_comp_asym x y h = ground arith

insert-Above :
    (z x : ℤ × ℕ) (xs : List (ℤ × ℕ))
    → list_src_comp x z ≡ false
    → Above z xs
    → Above z (insert x xs)
unfolding insert
insert-Above z x [] h all = (h, tt)
insert-Above z x (y ∷ ys) h all = elim (Bool-cases (list_src_comp y x)) [
  | inl less ↦ rw less (all.0, insert-Above z x ys h all.1)
  | inr more ↦ rw more (h, all)
]

insert-Ranked : (x : ℤ × ℕ) (xs : List (ℤ × ℕ)) → Ranked xs → Ranked (insert x xs)
unfolding insert
insert-Ranked x [] r = (tt, tt)
insert-Ranked x (y ∷ ys) r = elim (Bool-cases (list_src_comp y x)) [
  | inl less ↦
      rw less (insert-Above y x ys (list_src_comp_asym x y less) r.0, insert-Ranked x ys r.1)
  | inr more ↦ rw more ((more, All-map ys (λ z k. list_src_comp_trans x y z more k) r.0), r)
]

insert-perm : (x : ℤ × ℕ) (xs : List (ℤ × ℕ)) → Perm (x ∷ xs) (insert x xs)
unfolding insert
insert-perm x [] = Perm.rfl
insert-perm x (y ∷ ys) = elim (Bool-cases (list_src_comp y x)) [
  | inl less ↦ rw less (Perm.trans (Perm.swap y x ys) (Perm.cons y (insert-perm x ys)))
  | inr more ↦ rw more Perm.rfl
]

sort-Ranked : (xs : List (ℤ × ℕ)) → Ranked (sort xs)
unfolding sort
sort-Ranked [] = tt
sort-Ranked (x ∷ xs) = insert-Ranked x (sort xs) (sort-Ranked xs)

sort-perm : (xs : List (ℤ × ℕ)) → Perm xs (sort xs)
unfolding sort
sort-perm [] = Perm.rfl
sort-perm (x ∷ xs) = Perm.trans (Perm.cons x (sort-perm xs)) (insert-perm x (sort xs))

All-Mem :
    (test : ℕ → Bool) (v : List ℕ) (b : ℕ) → All (λ g. test g ≡ true) v → Mem b v → test b ≡ true
All-Mem test [] b all m = absurd (not-mem-nil m)
All-Mem test (x ∷ xs) b all m = elim (Bool-cases (test b)) [
  | inl met ↦ met
  | inr unmet ↦ absurd (
      ∥∥₁_elim (mem-cons.0 m) ⊥_prop (λ s. elim s [
        | inl e ↦ let t : test b ≡ true = subst (λ y. test y ≡ true) (sym e) all.0 in cc
        | inr rest ↦ let t = All-Mem test xs b all.1 rest in cc
      ]))
]

module _ (params : Params) (flows : ℕ → RankingFlow) (now : ℕ) where
  abbrev Loop : Type 0
  Loop = PriorityQueue ℕ → List ℕ → Option (Option ℕ × PriorityQueue ℕ × List ℕ)

  -- One round of either loop, over the rest of it.
  abbrev round : Loop → Loop
  round loop q tried = elim (PriorityQueue.empty q) [
    | true ↦ some (none, q, tried)
    | false ↦ do
      (best, q') ← checked_top (receiver_comp flows params) q
      q'' ← checked_pop (receiver_comp flows params) q'
      elim (flows best).finished_at_receiver [
        | true ↦ loop q'' tried
        | false ↦ elim (in_timeout now (flows best)) [
          | true ↦ loop q'' (tried ++ best ∷ [])
          | false ↦ some (some best, q', tried)
        ]
      ]
  ]

  -- For a source that is not given back the loop is that of `get_top_unfinish_flow`.
  listing_loop-unfinish_loop :
      (n : ℕ) (remain : ℤ)
      → ◌≡◌ {A = Loop}
          (λ q tried. listing_loop params flows now n false q tried remain)
          (unfinish_loop params flows now n)
  unfolding listing_loop unfinish_loop
  listing_loop-unfinish_loop zero remain = refl
  listing_loop-unfinish_loop (suc n) remain =
      ap {A = Loop} {B = Loop} round (listing_loop-unfinish_loop n remain)

  -- The entry of a source with a best flow: the packets still to be asked for, and the source.
  abbrev pub listed : ℕ → Option ℕ → List (ℤ × ℕ) → List (ℤ × ℕ)
  listed i none vect = vect
  listed i (some best) vect = (left_to_ask (flows best), i) ∷ vect

  -- The flows of all sources are in order.
  abbrev pub QueuesInOrder : List (ℕ × PriorityQueue ℕ) → Type 0
  QueuesInOrder = All (λ x. AllInOrder params flows now x.1.v)

  -- The flow found is one of the queue's, so its entry hits no assert.
  entry-listed :
      (i : ℕ) (v : List ℕ) (best : Option ℕ) (vect : List (ℤ × ℕ))
      → AllInOrder params flows now v
      → IsTop params flows now best v
      → (mine : List (ℤ × ℕ)) × (entry params flows now i best ≡ some mine)
        × (mine ++ vect ≡ listed i best vect)
  entry-listed i v none vect order top = ([], refl, refl)
  entry-listed i v (some best) vect order (ready, mem, all) = (
    (left_to_ask (flows best), i) ∷ [],
    rw (
        unasked-InOrder (flows best)
          (All-Mem (λ g. leb_ℤ (pos 0) (outstanding (flows g))) v best order mem)),
    refl,
  )

  -- Each source in turn, with what the search makes of its queue: it is listed under its best flow's
  -- key if it has a ready flow, and it leaves the map if it has no flow.
  pub data Listed
      : List (ℕ × PriorityQueue ℕ) → List (ℤ × ℕ) → List (ℕ × PriorityQueue ℕ) → Type 0 where
    done : Listed [] [] []
    source :
        {rest queues : List (ℕ × PriorityQueue ℕ)} {vect : List (ℤ × ℕ)} (i : ℕ)
        (q r : PriorityQueue ℕ) (best : Option ℕ)
        → Searched params flows now q.v best r.v
        → Listed rest vect queues
        → Listed ((i, q) ∷ rest) (listed i best vect) (keep params flows now i r queues)

  collect-Listed :
      (remain : ℤ) (m : List (ℕ × PriorityQueue ℕ))
      → QueuesInOrder m
      → (vect : List (ℤ × ℕ)) × (queues : List (ℕ × PriorityQueue ℕ)) × (collect params flows now
            none remain m
          ≡ some (vect, queues))
        × Listed m vect queues
  unfolding collect
  collect-Listed remain [] order = ([], [], refl, done)
  collect-Listed remain ((i, q) ∷ rest) order =
      let (res, runs, searched) = loop-Searched params flows now q order.0 in
      let (vect, queues, ih, all) = collect-Listed remain rest order.1 in
      let (mine, asks, same) = entry-listed i q.v res.0 vect order.0 searched.top in
      (
        listed i res.0 vect,
        keep params flows now i (push_all res.1 res.2) queues,
        rw (
          ap (λ loop. loop q []) (listing_loop-unfinish_loop (suc (PriorityQueue.size q)) remain),
          runs,
          asks,
          ih,
          same,
        ),
        source i q (push_all res.1 res.2) res.0 searched all,
      )

-- Without a source to give back, for any shuffle that permutes, and with no flow of the map
-- having received a token number above its token count, the call returns, and `token_gap` hits
-- no assert. It lists each source of the map that has a ready flow, by the key of its best one,
-- lowest keys first. From the queues it drops only flows that are over, and from the map only
-- sources with no flow left; with nothing to list it sends nothing.
pub send_list_srcs-Listed :
    (params : Params) (shuffle : List (ℤ × ℕ) → List (ℤ × ℕ)) (now : ℕ) (h : RankingHost)
    → ((v : List (ℤ × ℕ)) → Perm v (shuffle v))
    → QueuesInOrder params h.flows now h.src_to_flows
    → (vect ranked : List (ℤ × ℕ)) × (queues : List (ℕ × PriorityQueue ℕ)) × Listed params h.flows
        now h.src_to_flows vect queues
      × Perm vect ranked
      × Ranked ranked
      × (send_list_srcs params shuffle now none h
          ≡ some (emit_list none (map (λ x. x.1) ranked) (record h { src_to_flows = queues })))
unfolding send_list_srcs
send_list_srcs-Listed params shuffle now h shuffles order =
    let (vect, queues, runs, all) =
      collect-Listed params h.flows now (held none h.gosrc_info) h.src_to_flows order in
    (
      vect,
      sort (shuffle vect),
      queues,
      all,
      Perm.trans (shuffles vect) (sort-perm (shuffle vect)),
      sort-Ranked (shuffle vect),
      rw runs,
    )
