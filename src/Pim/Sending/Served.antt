-- ===== src/Pim/Sending/Served.antt =====
-- The loop of `PimHost::send`: it ends with no assert failed, and leaves a wake-up for every flow that
-- waits.
use ruf.Prelude.{
  ℕ, zero, suc, ◌+◌, ◌<◌, ◌≡◌, ◌∙◌, refl, sym, subst, ◌⊎◌, inl, inr, true, false, List, [], ◌∷◌,
  ◌++◌, Option, none, some, length, ◌==◌, Bool-cases, Option-cases, arith, if◌then◌else◌, All,
  All-map,
}
use ruf.Prelude.Int.{ℤ, pos, ltb_ℤ, leb_ℤ}
use ruf.Prelude.Faults.{none_ne_some}
use ruf.Params.{Params}
use ruf.PriorityQueue.{PriorityQueue}
use ruf.Pim.{PimParams, PimFlow, PimPacket, is_small_flow}
use ruf.Pim.Sending.{Attempt, Scan, attempt, choose, scan, write}
use ruf.Pim.Sending.Waiting.{CanTry, WaitsUntil, WaitsUntil-mono, Outcome, attempt-Outcome}
use ruf.Pim.Sending.Rounds.{
  one_if_some, nothing, the_large, the_short, choose-Chosen, Round, large-Round, short-Round,
}

module _ (params : Params) (pim : PimParams) (now : ℕ) where
  -- Every flow that is not finished can be tried.
  abbrev pub AllCanTry : (ℕ → PimFlow) → Type 0
  AllCanTry flows = (i : ℕ) → (flows i).finished ≡ false → CanTry pim (flows i)

  -- A flow that an event at `time` does not come too late for.
  abbrev pub Waits : (time : ℤ) → (ℕ → PimFlow) → ℕ → Type 0
  Waits time flows i = ((flows i).finished ≡ true) ⊎ WaitsUntil params pim now time (flows i)

  pub Waits-mono :
      (t u : ℤ) (flows : ℕ → PimFlow) (i : ℕ) → leb_ℤ t u ≡ true → Waits u flows i → Waits t flows i
  Waits-mono t u flows i h (inl over) = inl over
  Waits-mono t u flows i h (inr w) = inr (WaitsUntil-mono params pim now t u (flows i) h w)

  -- What the loop has done from a state on.
  pub record Served (flows : ℕ → PimFlow) (large : Option ℕ) (v : List ℕ) (closet : ℤ) (r : Scan)
      : Type 0 where
    pub can_try : AllCanTry r.flows
    pub later : (r.closet_timeout ≡ closet) ⊎ (ltb_ℤ (pos now) r.closet_timeout ≡ true)
    pub earliest : leb_ℤ r.closet_timeout closet ≡ true
    pub waiting : r.packet ≡ none → All (Waits r.closet_timeout flows) v
    pub large_waits : r.packet ≡ none → (l : ℕ) → large ≡ some l → Waits r.closet_timeout flows l

  write-AllCanTry :
      (flows : ℕ → PimFlow) (i : ℕ) (f : PimFlow)
      → AllCanTry flows
      → CanTry pim f
      → AllCanTry (write i f flows)
  write-AllCanTry flows i f all c j h = elim (Bool-cases (i == j)) [
    | inl same ↦ rw same c
    | inr other ↦ let k : (flows j).finished ≡ false = rw other at h in rw other (all j k)
  ]

  -- A flow that waits after another attempt waited before it.
  Waits-write :
      (flows : ℕ → PimFlow) (i : ℕ) (closet : ℤ) (a : Attempt) (t : ℤ)
      → Outcome params pim now (flows i) closet a
      → a.packet ≡ none
      → leb_ℤ t a.closet_timeout ≡ true
      → (j : ℕ) → Waits t (write i a.flow flows) j
      → Waits t flows j
  Waits-write flows i closet a t o e le j w = elim (Bool-cases (i == j)) [
    | inl same ↦
        let eq : i ≡ j = ground (arith, same) in
        inr (
          subst (λ k. WaitsUntil params pim now t (flows k)) eq
            (WaitsUntil-mono params pim now t a.closet_timeout (flows i) le (o.waiting e)))
    | inr other ↦ let k : Waits t flows j = rw other at w in k
  ]

  abbrev Serves : ℕ → (ℕ → PimFlow) → Option ℕ → PriorityQueue ℕ → List ℕ → ℤ → Type 0
  Serves n flows large q tried closet =
      (r : Scan) × (scan params pim now none n flows large q tried closet ≡ some r)
      × Served flows large q.v closet r

  -- The rounds that go on: after a flow that is finished, and after one that does not send.
  scan_drops :
      (n : ℕ) (flows : ℕ → PimFlow) (large large' : Option ℕ) (q q' : PriorityQueue ℕ)
      (tried : List ℕ) (closet : ℤ) (f : ℕ)
      → choose params pim now flows large q ≡ some (some f, large', q')
      → (flows f).finished ≡ true
      → scan params pim now none (suc n) flows large q tried closet
        ≡ scan params pim now none n flows large' q' tried closet
  unfolding scan
  scan_drops n flows large large' q q' tried closet f e over = rw (e, scan, over)

  abbrev aside : PimFlow → ℕ → List ℕ → List ℕ
  aside g f tried = if is_small_flow pim g then tried ++ f ∷ [] else tried

  scan_tries :
      (n : ℕ) (flows : ℕ → PimFlow) (large large' : Option ℕ) (q q' : PriorityQueue ℕ)
      (tried : List ℕ) (closet : ℤ) (f : ℕ) (a : Attempt)
      → choose params pim now flows large q ≡ some (some f, large', q')
      → (flows f).finished ≡ false
      → attempt params pim now none (flows f) closet ≡ some a
      → a.packet ≡ none
      → scan params pim now none (suc n) flows large q tried closet
        ≡ scan params pim now none n
            (write f a.flow flows)
            large'
            q'
            (aside (flows f) f tried)
            a.closet_timeout
  unfolding scan is_small_flow
  scan_tries n flows large large' q q' tried closet f a e more runs quiet =
      rw (e, scan, more, runs, quiet)

  scan_ends :
      (n : ℕ) (flows : ℕ → PimFlow) (large large' : Option ℕ) (q q' : PriorityQueue ℕ)
      (tried : List ℕ) (closet : ℤ) (f : ℕ) (a : Attempt) (p : PimPacket)
      → choose params pim now flows large q ≡ some (some f, large', q')
      → (flows f).finished ≡ false
      → attempt params pim now none (flows f) closet ≡ some a
      → a.packet ≡ some p
      → scan params pim now none (suc n) flows large q tried closet
        ≡ some (record {
          packet = some (f, p);
          flows = write f a.flow flows;
          queue = q';
          tried = aside (flows f) f tried;
          closet_timeout = a.closet_timeout;
        })
  unfolding scan is_small_flow
  scan_ends n flows large large' q q' tried closet f a p e more runs sent =
      rw (e, scan, more, runs, sent)

  module _ (flows : ℕ → PimFlow) (large : Option ℕ) (q : PriorityQueue ℕ) (f : ℕ)
      (large' : Option ℕ) (q' : PriorityQueue ℕ)
      (round : Round params pim now flows large q f large' q') (closet : ℤ) where
    Served-drop :
        (r : Scan)
        → (flows f).finished ≡ true
        → Served flows large' q'.v closet r
        → Served flows large q.v closet r
    Served-drop r over s = record {
      can_try = s.can_try;
      later = s.later;
      earliest = s.earliest;
      waiting = λ e. round.back_all (Waits r.closet_timeout flows) (inl over) (s.waiting e);
      large_waits =
          λ e. round.back_large (Waits r.closet_timeout flows) (inl over) (s.large_waits e);
    }

    later_trans :
        (t u : ℤ)
        → (u ≡ closet) ⊎ (ltb_ℤ (pos now) u ≡ true)
        → (t ≡ u) ⊎ (ltb_ℤ (pos now) t ≡ true)
        → (t ≡ closet) ⊎ (ltb_ℤ (pos now) t ≡ true)
    later_trans t u h (inr k) = inr k
    later_trans t u (inl h) (inl k) = inl (k ∙ h)
    later_trans t u (inr h) (inl k) = inr (subst (λ x. ltb_ℤ (pos now) x ≡ true) (sym k) h)

    le_trans : (t u : ℤ) → leb_ℤ t u ≡ true → leb_ℤ u closet ≡ true → leb_ℤ t closet ≡ true
    le_trans t u h k = ground arith

    Served-aside :
        (a : Attempt) (r : Scan)
        → Outcome params pim now (flows f) closet a
        → a.packet ≡ none
        → Served (write f a.flow flows) large' q'.v a.closet_timeout r
        → Served flows large q.v closet r
    Served-aside a r o quiet s =
        let here : Waits r.closet_timeout flows f = inr (
          WaitsUntil-mono params pim now r.closet_timeout a.closet_timeout (flows f) s.earliest
            (o.waiting quiet)) in
        let before = Waits-write flows f closet a r.closet_timeout o quiet s.earliest in
        record {
          can_try = s.can_try;
          later = later_trans r.closet_timeout a.closet_timeout o.later s.later;
          earliest = le_trans r.closet_timeout a.closet_timeout s.earliest o.earliest;
          waiting = λ e.
              round.back_all (Waits r.closet_timeout flows) here
                (All-map q'.v before (s.waiting e));
          large_waits = λ e.
              round.back_large (Waits r.closet_timeout flows) here
                (λ l is_l. before l (s.large_waits e l is_l));
        }

  quiet-Serves :
      (n : ℕ) (flows : ℕ → PimFlow) (q : PriorityQueue ℕ) (tried : List ℕ) (closet : ℤ)
      → AllCanTry flows
      → q.v ≡ []
      → choose params pim now flows none q ≡ some (none, none, q)
      → Serves (suc n) flows none q tried closet
  unfolding scan
  quiet-Serves n flows q tried closet all empty e = (
    record { packet = none; flows = flows; queue = q; tried = tried; closet_timeout = closet },
    rw (e, scan),
    record {
      can_try = all;
      later = inl refl;
      earliest = ground arith;
      waiting = λ h. subst (All (Waits closet flows)) (sym empty) tt;
      large_waits = λ h l is_l. absurd (none_ne_some is_l);
    },
  )

  -- A round, with the loop for the rounds after it.
  Round-Serves :
      (n : ℕ)
      → ((flows : ℕ → PimFlow) (large : Option ℕ) (q : PriorityQueue ℕ) (tried : List ℕ)
            (closet : ℤ)
          → AllCanTry flows
          → length q.v + one_if_some large < n
          → Serves n flows large q tried closet)
      → (flows : ℕ → PimFlow) (large : Option ℕ) (q : PriorityQueue ℕ) (tried : List ℕ) (closet : ℤ)
        (f : ℕ) (large' : Option ℕ) (q' : PriorityQueue ℕ)
      → AllCanTry flows
      → length q.v + one_if_some large < suc n
      → Round params pim now flows large q f large' q'
      → Serves (suc n) flows large q tried closet
  Round-Serves n loop flows large q tried closet f large' q' all h rd =
      let fuel : length q'.v + one_if_some large' < n = omega (arith, h, rd.less) in
      elim (Bool-cases (flows f).finished) [
        | inl over ↦
            let (r, runs, s) = loop flows large' q' tried closet all fuel in
            (
              r,
              scan_drops n flows large large' q q' tried closet f rd.runs over ∙ runs,
              Served-drop flows large q f large' q' rd closet r over s,
            )
        | inr more ↦
            let (a, tries, o) = attempt-Outcome params pim now (flows f) closet (all f more) in
            let all' = write-AllCanTry flows f a.flow all o.can_try in
            elim (Option-cases a.packet) [
              | inl quiet ↦
                  let (r, runs, s) =
                    loop (write f a.flow flows) large' q' (aside (flows f) f tried) a.closet_timeout
                      all' fuel in
                  (
                    r,
                    scan_tries n flows large large' q q' tried closet f a rd.runs more tries quiet
                        ∙ runs,
                    Served-aside flows large q f large' q' rd closet a r o quiet s,
                  )
              | inr (p, sent) ↦ (
                _,
                scan_ends n flows large large' q q' tried closet f a p rd.runs more tries sent,
                record {
                  can_try = all';
                  later = o.later;
                  earliest = o.earliest;
                  waiting = λ e. absurd (none_ne_some (sym e));
                  large_waits = λ e. absurd (none_ne_some (sym e));
                },
              )
            ]
      ]

  -- The loop ends within its fuel.
  pub scan-Serves :
      (n : ℕ) (flows : ℕ → PimFlow) (large : Option ℕ) (q : PriorityQueue ℕ) (tried : List ℕ)
      (closet : ℤ)
      → AllCanTry flows
      → length q.v + one_if_some large < n
      → Serves n flows large q tried closet
  scan-Serves zero flows large q tried closet all h = absurd (omega (arith, h))
  scan-Serves (suc n) flows large q tried closet all h =
      elim (choose-Chosen params pim now flows large q) [
        | nothing is_none empty e ↦
            subst (λ l. Serves (suc n) flows l q tried closet) (sym is_none)
              (quiet-Serves n flows q tried closet all empty
                (subst (λ l. choose params pim now flows l q ≡ some (none, none, q)) is_none e))
        | the_large l q' is_l same e ↦
            Round-Serves n (scan-Serves n) flows large q tried closet l none q' all h
              (large-Round params pim now flows large q l q' is_l same e)
        | the_short b k r e popped ↦
            Round-Serves n (scan-Serves n) flows large q tried closet b large r all h
              (short-Round params pim now flows large q b k r e popped)
      ]
