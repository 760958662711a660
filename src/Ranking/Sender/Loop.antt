-- ===== src/Ranking/Sender/Loop.antt =====
-- The loop of `RankingHost::send` over the active flows.
use mathlib.Core.List.{
  Perm, Mem, perm_middle, mem-cons_self, mem-cons_of_mem, append-nil, append_assoc,
}
use mathlib.Core.List.Perm
use ruf.Prelude.{
  ℕ, zero, suc, ◌<◌, ◌≡◌, refl, sym, ap, ◌∙◌, subst, ◌⊎◌, inl, inr, Bool, true, false, List, [],
  ◌∷◌, ◌++◌, Option, none, some, length, All, All-map, All-insert, Bool-cases, arith,
}
use ruf.Prelude.Int.{pos}
use ruf.Params.{Params, packet_priority}
use ruf.PriorityQueue
use ruf.PriorityQueue.{PriorityQueue}
use ruf.PriorityQueue.Best.{Popped, pop-top}
use ruf.PriorityQueue.Drain.{empty-eq-nil, Popped-length}
use ruf.Ranking.Flow.{RankingFlow, DataPacket, has_token, send_pending_data}
use ruf.Ranking.Flow.Tokens.{idle, sends, has_token-Sends, HasLevel}
use ruf.Ranking.Comparators.{sending_comp, sending_comp-IsStrictWeak}
use ruf.Ranking.Sender.{Scan, scan, write}
use ruf.Ranking.Sender.Agrees.{
  Finished, Idle, Agrees, same_finished, same_idle, same_comp, same_ready, same_size, Agrees-drop,
}

module _ (params : Params) (now : ℕ) (flows : ℕ → RankingFlow) where
  -- The packet sent, if any, among the flows `v`: it is one of a flow that is not finished and has a
  -- good token, and no such flow is served before it; or there is no such flow.
  abbrev pub Chosen : Option (ℕ × DataPacket) → List ℕ → Type 0
  Chosen none v = All (λ g. Finished params now flows g ⊎ Idle params now flows g) v
  Chosen (some (b, p)) v =
      ((flows b).finished ≡ false)
      × Mem b v
      × All
          (λ g.
            (Finished params now flows g ⊎ Idle params now flows g)
            ⊎ (sending_comp flows b g ≡ false))
          v

  -- The flows afterwards.
  abbrev pub Stored : Option (ℕ × DataPacket) → (ℕ → RankingFlow) → Type 0
  Stored none store = Agrees params now flows store
  Stored (some (b, p)) store =
      (mid : ℕ → RankingFlow) × (f : RankingFlow) × Agrees params now flows mid
      × (send_pending_data params now none (has_token now (flows b)).1 ≡ some (p, f))
      × (store ≡ write b f mid)

  -- Every flow that is not finished has a priority.
  abbrev pub Leveled : (ℕ → RankingFlow) → Type 0
  Leveled store =
      (g : ℕ) → (store g).finished ≡ false → (level : ℕ) × HasLevel params (store g) level

  Leveled-Agrees :
      (store : ℕ → RankingFlow) → Agrees params now flows store → Leveled flows → Leveled store
  Leveled-Agrees store agrees leveled g more =
      subst (λ n. (level : ℕ) × (packet_priority (suc n) n params.token_initial ≡ some level))
        (sym (same_size params now flows store agrees g))
        (leveled g (sym (same_finished params now flows store agrees g) ∙ more))

  pub record Scanned (v tried : List ℕ) (r : Scan) : Type 0 where
    pub removed : List ℕ
    pub aside : List ℕ
    pub tries : r.tried ≡ tried ++ aside
    pub perm : Perm v (removed ++ (aside ++ r.queue.v))
    pub over : All (Finished params now flows) removed
    pub chosen : Chosen r.packet v
    pub stored : Stored r.packet r.flows

  abbrev Scans : ℕ → (ℕ → RankingFlow) → PriorityQueue ℕ → List ℕ → Type 0
  Scans n store q tried =
      (r : Scan) × (scan params now none n store q tried ≡ some r) × Scanned q.v tried r

  Chosen-Popped :
      {v : List ℕ} {b k : ℕ} {comp : ℕ → ℕ → Bool} {q : PriorityQueue ℕ}
      (packet : Option (ℕ × DataPacket))
      → Popped comp v b k q
      → Finished params now flows b ⊎ Idle params now flows b
      → Chosen packet q.v
      → Chosen packet v
  Chosen-Popped {v} {b} {k} none p passed all =
      All-insert _ v k b p.best.0 passed (subst (All _) p.rest all)
  Chosen-Popped {v} {b} {k} (some (f, d)) p passed (ready, mem, all) = (
    ready,
    (Perm.mem_iff (Perm.symm p.perm)).0 (mem-cons_of_mem b mem),
    All-insert _ v k b p.best.0 (inl passed) (subst (All _) p.rest all),
  )

  module _ (n : ℕ) (store : ℕ → RankingFlow) (agrees : Agrees params now flows store)
      (q : PriorityQueue ℕ) (tried : List ℕ) (filled : PriorityQueue.empty q ≡ false) (b k : ℕ)
      (r : PriorityQueue ℕ)
      (top_runs : PriorityQueue.top (sending_comp store) q
        ≡ some (b, record q { best_index = pos k }))
      (pop_runs : PriorityQueue.pop (sending_comp store) (record q { best_index = pos k }) ≡ some r)
      (popped : Popped (sending_comp store) q.v b k r) where
    drops :
        (store b).finished ≡ true
        → scan params now none (suc n) store q tried ≡ scan params now none n store r tried
    unfolding scan
    drops over = rw (filled, top_runs, pop_runs, over, scan)

    sets_aside :
        (store b).finished ≡ false
        → (has_token now (store b)).0 ≡ false
        → scan params now none (suc n) store q tried
          ≡ scan params now none n (write b (has_token now (store b)).1 store) r (tried ++ b ∷ [])
    unfolding scan
    sets_aside more waits =
        rw (filled, top_runs, pop_runs, more, waits, scan)
          (ap
            (λ x.
              scan params now none n
                (write b (has_token now (record (store b) { finished = x })).1 store) r
                (tried ++ b ∷ []))
            more)

    stops :
        (p : DataPacket) (f : RankingFlow)
        → (store b).finished ≡ false
        → (has_token now (store b)).0 ≡ true
        → send_pending_data params now none (has_token now (store b)).1 ≡ some (p, f)
        → scan params now none (suc n) store q tried
          ≡ some (record {
            packet = some (b, p);
            flows = write b f store;
            queue = r;
            tried = tried ++ b ∷ [];
          })
    unfolding scan
    stops p f more has runs = rw (filled, top_runs, pop_runs, more, has, runs, scan)

    Scanned-drop :
        (res : Scan) → (store b).finished ≡ true → Scanned r.v tried res → Scanned q.v tried res
    Scanned-drop res over s =
        let finished = sym (same_finished params now flows store agrees b) ∙ over in
        record {
          removed = b ∷ s.removed;
          aside = s.aside;
          tries = s.tries;
          perm = Perm.trans popped.perm (Perm.cons b s.perm);
          over = (finished, s.over);
          chosen = Chosen-Popped res.packet popped (inl finished) s.chosen;
          stored = s.stored;
        }

    Scanned-aside :
        (res : Scan)
        → (has_token now (store b)).0 ≡ false
        → Scanned r.v (tried ++ b ∷ []) res
        → Scanned q.v tried res
    Scanned-aside res waits s = record {
      removed = s.removed;
      aside = b ∷ s.aside;
      tries = s.tries ∙ append_assoc tried (b ∷ []) s.aside;
      perm = Perm.trans popped.perm (
          Perm.trans (Perm.cons b s.perm)
            (Perm.symm (perm_middle s.removed (s.aside ++ res.queue.v))));
      over = s.over;
      chosen =
          Chosen-Popped res.packet popped
            (inr (sym (same_idle params now flows store agrees b) ∙ waits)) s.chosen;
      stored = s.stored;
    }

    Scanned-stop :
        (p : DataPacket) (f : RankingFlow)
        → (store b).finished ≡ false
        → (has_token now (store b)).0 ≡ true
        → send_pending_data params now none (has_token now (store b)).1 ≡ some (p, f)
        → Scanned q.v tried (record {
          packet = some (b, p);
          flows = write b f store;
          queue = r;
          tried = tried ++ b ∷ [];
        })
    Scanned-stop p f more has runs = record {
      removed = [];
      aside = b ∷ [];
      tries = refl;
      perm = popped.perm;
      over = tt;
      chosen = (
        sym (same_finished params now flows store agrees b) ∙ more,
        (Perm.mem_iff (Perm.symm popped.perm)).0 mem-cons_self,
        All-map q.v (λ y h. inr (sym (same_comp params now flows store agrees b y) ∙ h))
            popped.best.1,
      );
      stored = (
        store,
        f,
        agrees,
        subst (λ g. send_pending_data params now none (has_token now g).1 ≡ some (p, f))
            (same_ready params now flows store agrees b has) runs,
        refl,
      );
    }

  none_scanned :
      (n : ℕ) (store : ℕ → RankingFlow) (q : PriorityQueue ℕ) (tried : List ℕ)
      → Agrees params now flows store
      → PriorityQueue.empty q ≡ true
      → Scans (suc n) store q tried
  unfolding scan
  none_scanned n store q tried agrees e =
      let nothing = empty-eq-nil q e in
      (
        record { packet = none; flows = store; queue = q; tried = tried },
        rw (e, scan),
        record {
          removed = [];
          aside = [];
          tries = sym (append-nil tried);
          perm = Perm.rfl;
          over = tt;
          chosen = subst (Chosen none) (sym nothing) tt;
          stored = agrees;
        },
      )

  -- The loop ends within its fuel.
  pub scan-Scans :
      (n : ℕ) (store : ℕ → RankingFlow) (q : PriorityQueue ℕ) (tried : List ℕ)
      → Agrees params now flows store
      → Leveled flows
      → length q.v < n
      → Scans n store q tried
  scan-Scans zero store q tried agrees leveled h = absurd (omega arith)
  scan-Scans (suc n) store q tried agrees leveled h = elim (Bool-cases (PriorityQueue.empty q)) [
    | inl e ↦ none_scanned n store q tried agrees e
    | inr filled ↦
        let (b, k, r, top_runs, pop_runs, popped) =
          pop-top (sending_comp store) (sending_comp-IsStrictWeak store) q filled in
        let less : length r.v < n = omega (arith, Popped-length popped) in
        elim (Bool-cases (store b).finished) [
          | inl over ↦
              let (res, runs, s) = scan-Scans n store r tried agrees leveled less in
              (
                res,
                drops n store agrees q tried filled b k r top_runs pop_runs popped over ∙ runs,
                Scanned-drop n store agrees q tried filled b k r top_runs pop_runs popped res over
                    s,
              )
          | inr more ↦
              let (level, has_level) = Leveled-Agrees store agrees leveled b more in
              elim (has_token-Sends params now level (store b) has_level) [
                | idle waits e all ↦
                    let (res, runs, s) =
                      scan-Scans n (write b (has_token now (store b)).1 store) r (tried ++ b ∷ [])
                        (Agrees-drop params now flows store agrees b waits) leveled less in
                    (
                      res,
                      sets_aside n store agrees q tried filled b k r top_runs pop_runs popped more
                            waits
                          ∙ runs,
                      Scanned-aside n store agrees q tried filled b k r top_runs pop_runs popped res
                          waits s,
                    )
                | sends old t rest p f has split all le runs left capa seq prio number ↦ (
                  _,
                  stops n store agrees q tried filled b k r top_runs pop_runs popped p f more has
                      runs,
                  Scanned-stop n store agrees q tried filled b k r top_runs pop_runs popped p f more
                      has runs,
                )
              ]
        ]
  ]
