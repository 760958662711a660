-- ===== src/Ranking/Host/Unfinished.antt =====
-- `get_top_unfinish_flow` finds the flow that the source's queue should serve.
use mathlib.Core.List.{
  Perm, Mem, perm_append_comm, perm_middle, mem-cons_self, mem-cons_of_mem, append-nil,
  append_assoc,
}
use mathlib.Core.List.Perm
use ruf.Prelude.{
  ℕ, zero, suc, ◌<◌, ◌≡◌, sym, ap, ◌∙◌, subst, ◌⊎◌, inl, inr, true, false, List, [], ◌∷◌, ◌++◌,
  Option, none, some, length, All, All-map, All-insert, All-erase_idx, Bool-cases, arith,
}
use ruf.Prelude.Int.{pos}
use ruf.Params.{Params}
use ruf.PriorityQueue
use ruf.PriorityQueue.{PriorityQueue}
use ruf.PriorityQueue.Best.{Popped, pop-top}
use ruf.PriorityQueue.Drain.{empty-eq-nil, Popped-length}
use ruf.Ranking.Flow.{RankingFlow}
use ruf.PriorityQueue.Checked.{checked_top, checked_pop, checked_top-top, checked_pop-pop}
use ruf.Ranking.Comparators.{
  receiver_comp, receiver_order, receiver_order-IsStrictWeak, InOrder, receiver_comp-receiver_order,
}
use ruf.Ranking.Host.{
  RankingHost, in_timeout, unfinish_loop, push_all, find, put, get_top_unfinish_flow,
}

module _ (params : Params) (flows : ℕ → RankingFlow) (now : ℕ) where
  -- A flow that is over, one that waits for its data, and one that may get a token.
  abbrev pub Finished : ℕ → Type 0
  Finished g = (flows g).finished_at_receiver ≡ true

  abbrev pub Waiting : ℕ → Type 0
  Waiting g = in_timeout now (flows g) ≡ true

  abbrev pub Ready : ℕ → Type 0
  Ready g = ((flows g).finished_at_receiver ≡ false) × (in_timeout now (flows g) ≡ false)

  -- The flow found among `v`: ready, and no worse than any other that is ready; or none is.
  abbrev pub IsTop : Option ℕ → List ℕ → Type 0
  IsTop none v = All (λ g. Finished g ⊎ Waiting g) v
  IsTop (some f) v =
      Ready f
      × Mem f v
      × All (λ g. (Finished g ⊎ Waiting g) ⊎ (receiver_order flows params f g ≡ false)) v

  abbrev Found : Type 0
  Found = Option ℕ × PriorityQueue ℕ × List ℕ

  -- Each flow of `v` was dropped as over, set aside as waiting, or is still in the queue.
  record Scanned (v tried : List ℕ) (r : Found) : Type 0 where
    removed : List ℕ
    aside : List ℕ
    tries : r.2 ≡ tried ++ aside
    perm : Perm v (removed ++ (aside ++ r.1.v))
    over : All Finished removed
    top : IsTop r.0 v

  abbrev Scans : ℕ → PriorityQueue ℕ → List ℕ → Type 0
  Scans n q tried =
      (r : Found) × (unfinish_loop params flows now n q tried ≡ some r) × Scanned q.v tried r

  IsTop-Popped :
      {v : List ℕ} {b k : ℕ} {q : PriorityQueue ℕ} (best : Option ℕ)
      → Popped (receiver_order flows params) v b k q
      → Finished b ⊎ Waiting b
      → IsTop best q.v
      → IsTop best v
  IsTop-Popped {v} {b} {k} none p busy all =
      All-insert _ v k b p.best.0 busy (subst (All _) p.rest all)
  IsTop-Popped {v} {b} {k} (some f) p busy (ready, mem, all) = (
    ready,
    (Perm.mem_iff (Perm.symm p.perm)).0 (mem-cons_of_mem b mem),
    All-insert _ v k b p.best.0 (inl busy) (subst (All _) p.rest all),
  )

  module _ (n : ℕ) (q : PriorityQueue ℕ) (tried : List ℕ) (filled : PriorityQueue.empty q ≡ false)
      (b k : ℕ) (r : PriorityQueue ℕ)
      (top_runs : checked_top (receiver_comp flows params) q
        ≡ some (b, record q { best_index = pos k }))
      (pop_runs : checked_pop (receiver_comp flows params) (record q { best_index = pos k })
        ≡ some r)
      (popped : Popped (receiver_order flows params) q.v b k r) where
    stops :
        Ready b
        → unfinish_loop params flows now (suc n) q tried
          ≡ some (some b, record q { best_index = pos k }, tried)
    unfolding unfinish_loop
    stops (more, late) = rw (filled, top_runs, pop_runs, more, late, unfinish_loop)

    drops :
        Finished b
        → unfinish_loop params flows now (suc n) q tried ≡ unfinish_loop params flows now n r tried
    unfolding unfinish_loop
    drops over = rw (filled, top_runs, pop_runs, over, unfinish_loop)

    sets_aside :
        (flows b).finished_at_receiver ≡ false
        → Waiting b
        → unfinish_loop params flows now (suc n) q tried
          ≡ unfinish_loop params flows now n r (tried ++ b ∷ [])
    unfolding unfinish_loop
    sets_aside more waits = rw (filled, top_runs, pop_runs, more, waits, unfinish_loop)

    Scanned-stop : Ready b → Scanned q.v tried (some b, record q { best_index = pos k }, tried)
    Scanned-stop ready = record {
      removed = [];
      aside = [];
      tries = sym (append-nil tried);
      perm = Perm.rfl;
      over = tt;
      top = (
        ready,
        (Perm.mem_iff (Perm.symm popped.perm)).0 mem-cons_self,
        All-map q.v (λ y h. inr h) popped.best.1,
      );
    }

    Scanned-drop : (res : Found) → Finished b → Scanned r.v tried res → Scanned q.v tried res
    Scanned-drop res over s = record {
      removed = b ∷ s.removed;
      aside = s.aside;
      tries = s.tries;
      perm = Perm.trans popped.perm (Perm.cons b s.perm);
      over = (over, s.over);
      top = IsTop-Popped res.0 popped (inl over) s.top;
    }

    Scanned-aside :
        (res : Found) → Waiting b → Scanned r.v (tried ++ b ∷ []) res → Scanned q.v tried res
    Scanned-aside res waits s = record {
      removed = s.removed;
      aside = b ∷ s.aside;
      tries = s.tries ∙ append_assoc tried (b ∷ []) s.aside;
      perm = Perm.trans popped.perm (
          Perm.trans (Perm.cons b s.perm) (Perm.symm (perm_middle s.removed (s.aside ++ res.1.v))));
      over = s.over;
      top = IsTop-Popped res.0 popped (inr waits) s.top;
    }

  none_scanned :
      (n : ℕ) (q : PriorityQueue ℕ) (tried : List ℕ)
      → PriorityQueue.empty q ≡ true
      → Scans (suc n) q tried
  unfolding unfinish_loop
  none_scanned n q tried e =
      let nothing = empty-eq-nil q e in
      (
        (none, q, tried),
        rw (e, unfinish_loop),
        record {
          removed = [];
          aside = [];
          tries = sym (append-nil tried);
          perm = Perm.rfl;
          over = tt;
          top = subst (IsTop none) (sym nothing) tt;
        },
      )

  -- No flow of the list has received a token number above its token count.
  abbrev pub AllInOrder : List ℕ → Type 0
  AllInOrder = All (λ g. InOrder (flows g))

  comp-order :
      (a b : ℕ)
      → InOrder (flows a)
      → InOrder (flows b)
      → receiver_comp flows params a b ≡ some (receiver_order flows params a b)
  comp-order = receiver_comp-receiver_order flows params

  -- The loop ends within its fuel, and no comparison hits an assert.
  loop-Scans :
      (n : ℕ) (q : PriorityQueue ℕ) (tried : List ℕ)
      → AllInOrder q.v
      → length q.v < n
      → Scans n q tried
  loop-Scans zero q tried order h = absurd (omega arith)
  loop-Scans (suc n) q tried order h = elim (Bool-cases (PriorityQueue.empty q)) [
    | inl e ↦ none_scanned n q tried e
    | inr filled ↦
        let (b, k, r, tops, pops, popped) =
          pop-top (receiver_order flows params) (receiver_order-IsStrictWeak flows params) q
            filled in
        let top_runs =
          checked_top-top (receiver_comp flows params) (receiver_order flows params)
            (λ g. InOrder (flows g)) comp-order q order
          ∙ tops in
        let pop_runs =
          checked_pop-pop (receiver_comp flows params) (receiver_order flows params)
            (λ g. InOrder (flows g)) comp-order q.v k
          ∙ pops in
        let order' : AllInOrder r.v =
          subst AllInOrder (sym popped.rest) (All-erase_idx _ q.v k order) in
        let less : length r.v < n = omega (arith, Popped-length popped) in
        elim (Bool-cases (flows b).finished_at_receiver) [
          | inl over ↦
              let (res, runs, s) = loop-Scans n r tried order' less in
              (
                res,
                drops n q tried filled b k r top_runs pop_runs popped over ∙ runs,
                Scanned-drop n q tried filled b k r top_runs pop_runs popped res over s,
              )
          | inr more ↦ elim (Bool-cases (in_timeout now (flows b))) [
            | inl waits ↦
                let (res, runs, s) = loop-Scans n r (tried ++ b ∷ []) order' less in
                (
                  res,
                  sets_aside n q tried filled b k r top_runs pop_runs popped more waits ∙ runs,
                  Scanned-aside n q tried filled b k r top_runs pop_runs popped res waits s,
                )
            | inr late ↦ (
              _,
              stops n q tried filled b k r top_runs pop_runs popped (more, late),
              Scanned-stop n q tried filled b k r top_runs pop_runs popped (more, late),
            )
          ]
        ]
  ]

pub v-push_all : (q : PriorityQueue ℕ) (fs : List ℕ) → (push_all q fs).v ≡ q.v ++ fs
unfolding push_all PriorityQueue.push
v-push_all q [] = sym (append-nil q.v)
v-push_all q (f ∷ fs) = v-push_all (PriorityQueue.push q f) fs ∙ append_assoc q.v (f ∷ []) fs

-- What the search does to the source's queue `v`: flows that are over are gone, the others stay.
pub record Searched (params : Params) (flows : ℕ → RankingFlow) (now : ℕ) (v : List ℕ)
    (best : Option ℕ) (rest : List ℕ) : Type 0 where
  pub removed : List ℕ
  pub perm : Perm v (removed ++ rest)
  pub over : All (Finished params flows now) removed
  pub top : IsTop params flows now best v

-- The loop, from no flow tried, with the flows that it tried pushed back.
pub loop-Searched :
    (params : Params) (flows : ℕ → RankingFlow) (now : ℕ) (q : PriorityQueue ℕ)
    → AllInOrder params flows now q.v
    → (res : Option ℕ × PriorityQueue ℕ × List ℕ) × (unfinish_loop params flows now
          (suc (PriorityQueue.size q))
          q
          []
        ≡ some res)
      × Searched params flows now q.v res.0 (push_all res.1 res.2).v
unfolding PriorityQueue.size
loop-Searched params flows now q order =
    let (res, runs, s) = loop-Scans params flows now (suc (length q.v)) q [] order (omega arith) in
    (
      res,
      runs,
      record {
        removed = s.removed;
        perm = Perm.trans s.perm (
            Perm.append_left s.removed (
              subst (Perm (s.aside ++ res.1.v))
                (sym (v-push_all res.1 res.2 ∙ ap (λ t. res.1.v ++ t) s.tries))
                (perm_append_comm s.aside res.1.v)));
        over = s.over;
        top = s.top;
      },
    )

module _ (params : Params) (now src : ℕ) (h : RankingHost) (q : PriorityQueue ℕ) where
  -- For a source that the map has, and whose flows have a largest token number received of at
  -- most their token count, the search returns, and no comparison hits an assert. It finds a
  -- flow that is not over and not in its timeout, and no worse than any other such flow of the
  -- source, or none if there is no such flow. Only flows that are over leave the source's
  -- queue, and nothing else of the host changes.
  pub get_top_unfinish_flow-Searched :
      find src h.src_to_flows ≡ some q
      → AllInOrder params h.flows now q.v
      → (best : Option ℕ) × (r : PriorityQueue ℕ) × (get_top_unfinish_flow params now src h
          ≡ some (best, record h { src_to_flows = put src r h.src_to_flows }))
        × Searched params h.flows now q.v best r.v
  unfolding get_top_unfinish_flow
  get_top_unfinish_flow-Searched found order =
      let (res, runs, searched) = loop-Searched params h.flows now q order in
      (res.0, push_all res.1 res.2, rw (found, runs, get_top_unfinish_flow), searched)
