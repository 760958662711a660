-- ===== src/Pim/Sending/Rounds.antt =====
-- The rounds of the loop of `PimHost::send`: which flow each takes, and what is left.
use ruf.Prelude.{
  ℕ, ◌+◌, ◌<◌, ◌≡◌, ◌∙◌, refl, sym, ap, subst, inl, inr, true, false, [], Option, none, some,
  length, Bool-cases, arith, All, All-insert,
}
use ruf.Prelude.Int.{pos}
use ruf.Prelude.Faults.{◌>>=◌, some_inj}
use ruf.Params.{Params}
use ruf.PriorityQueue
use ruf.PriorityQueue.{PriorityQueue}
use ruf.PriorityQueue.Best.{IsStrictWeak, Popped, pop-top}
use ruf.PriorityQueue.Drain.{empty-eq-nil, Popped-length}
use ruf.Pim.{PimParams, PimFlow}
use ruf.Pim.Host.{pim_comp, flow_compare}
use ruf.Pim.Sending.{choose}

pub pim_comp-IsStrictWeak : (flows : ℕ → PimFlow) → IsStrictWeak (pim_comp flows)
unfolding pim_comp
pim_comp-IsStrictWeak flows = record {
  asym = λ a b h. ground arith;
  irrefl = λ a. ground arith;
  trans = λ a b c h k. ground arith;
}

abbrev pub one_if_some : Option ℕ → ℕ
one_if_some none = 0
one_if_some (some x) = 1

module _ (params : Params) (pim : PimParams) (now : ℕ) where
  -- The three ways of a round.
  pub data Chosen (flows : ℕ → PimFlow) (large : Option ℕ) (q : PriorityQueue ℕ) : Type 0 where
    nothing :
        large ≡ none
        → q.v ≡ []
        → choose params pim now flows large q ≡ some (none, none, q)
        → Chosen flows large q
    the_large :
        (l : ℕ) (q' : PriorityQueue ℕ)
        → large ≡ some l
        → q'.v ≡ q.v
        → choose params pim now flows large q ≡ some (some l, none, q')
        → Chosen flows large q
    the_short :
        (b k : ℕ) (r : PriorityQueue ℕ)
        → choose params pim now flows large q ≡ some (some b, large, r)
        → Popped (pim_comp flows) q.v b k r
        → Chosen flows large q

  choose_empty :
      (flows : ℕ → PimFlow) (large : Option ℕ) (q : PriorityQueue ℕ)
      → PriorityQueue.empty q ≡ true
      → Chosen flows large q
  unfolding choose
  choose_empty flows none q e = nothing refl (empty-eq-nil q e) (rw (e, choose))
  choose_empty flows (some l) q e = the_large l q refl refl (rw (e, choose))

  choose_filled :
      (flows : ℕ → PimFlow) (large : Option ℕ) (q : PriorityQueue ℕ)
      → PriorityQueue.empty q ≡ false
      → Chosen flows large q
  unfolding choose flow_compare
  choose_filled flows none q filled =
      let (b, k, r, top_runs, pop_runs, popped) =
        pop-top (pim_comp flows) (pim_comp-IsStrictWeak flows) q filled in
      the_short b k r (rw (filled, top_runs, pop_runs, choose)) popped
  choose_filled flows (some l) q filled =
      let (b, k, r, top_runs, pop_runs, popped) =
        pop-top (pim_comp flows) (pim_comp-IsStrictWeak flows) q filled in
      elim (Bool-cases (flow_compare params pim flows (some l) (some b))) [
        | inl short ↦ the_short b k r (rw (filled, top_runs, choose, ◌>>=◌, short, pop_runs)) popped
        | inr long ↦
            the_large l (record q { best_index = pos k }) refl refl
              (rw (filled, top_runs, choose, ◌>>=◌, long))
      ]

  pub choose-Chosen :
      (flows : ℕ → PimFlow) (large : Option ℕ) (q : PriorityQueue ℕ) → Chosen flows large q
  choose-Chosen flows large q = elim (Bool-cases (PriorityQueue.empty q)) [
    | inl e ↦ choose_empty flows large q e
    | inr filled ↦ choose_filled flows large q filled
  ]

  -- A round that takes the flow `f`: less is left, and what holds of the flow and of all that is left
  -- holds of all.
  pub record Round (flows : ℕ → PimFlow) (large : Option ℕ) (q : PriorityQueue ℕ) (f : ℕ)
      (large' : Option ℕ) (q' : PriorityQueue ℕ) : Type 1 where
    pub runs : choose params pim now flows large q ≡ some (some f, large', q')
    pub less : length q'.v + one_if_some large' < length q.v + one_if_some large
    pub back_all : (P : ℕ → Type 0) → P f → All P q'.v → All P q.v
    pub back_large :
        (P : ℕ → Type 0) → P f → ((l : ℕ) → large' ≡ some l → P l) → (l : ℕ) → large ≡ some l → P l

  pub large-Round :
      (flows : ℕ → PimFlow) (large : Option ℕ) (q : PriorityQueue ℕ) (l : ℕ) (q' : PriorityQueue ℕ)
      → large ≡ some l
      → q'.v ≡ q.v
      → choose params pim now flows large q ≡ some (some l, none, q')
      → Round flows large q l none q'
  large-Round flows large q l q' is_l same e = record {
    runs = e;
    less = omega (arith, ap length same, ap one_if_some is_l);
    back_all = λ P here rest. subst (All P) same rest;
    back_large = λ P here rest m is_m. subst P (some_inj (sym is_l ∙ is_m)) here;
  }

  pub short-Round :
      (flows : ℕ → PimFlow) (large : Option ℕ) (q : PriorityQueue ℕ) (b k : ℕ) (r : PriorityQueue ℕ)
      → choose params pim now flows large q ≡ some (some b, large, r)
      → Popped (pim_comp flows) q.v b k r
      → Round flows large q b large r
  short-Round flows large q b k r e popped = record {
    runs = e;
    less = omega (arith, Popped-length popped);
    back_all =
        λ P here rest. All-insert P q.v k b popped.best.0 here (subst (All P) popped.rest rest);
    back_large = λ P here rest. rest;
  }
