-- ===== src/Pim/Network/Accepts.antt =====
-- The accepts of a sender: the grant that it takes is balanced.
use ruf.Prelude.{
  ℕ, ◌+◌, ◌≤◌, ◌≡◌, refl, sym, ap, ◌∙◌, subst, Bool, true, false, ◌&&◌, List, [], ◌∷◌, ◌++◌, Option,
  none, some, count, count-append, one_if, All, ◌==◌, Bool-cases, Option-cases, inl, inr,
  and_false_right, arith,
}
use ruf.Prelude.Faults.{◌>>=◌, some_inj, none_ne_some}
use ruf.Pim.{PimFlow}
use ruf.Pim.Host.{PimEpoch, PimHost, PimGrants, Message, accept, restart, schedule_host_proc_evt}
use ruf.Pim.Epoch.{is_host, is_none, accept_loop}
use ruf.Pim.Network.{SameEpochs}
use ruf.Pim.Network.Balance.{carries, Own, Acted, Unmatched-Acted, SameEpochs-refl}

schedule_host_proc_evt-SameEpochs :
    (now : ℕ) (h w : PimHost) → schedule_host_proc_evt now h ≡ some w → SameEpochs h w
unfolding schedule_host_proc_evt
schedule_host_proc_evt-SameEpochs now h w runs = ground arith

restart-SameEpochs : (now : ℕ) (h w : PimHost) → restart now h ≡ some w → SameEpochs h w
unfolding restart
restart-SameEpochs now h w runs = elim (Option-cases h.host_proc_event) [
  | inl idle ↦
      let same =
        schedule_host_proc_evt-SameEpochs now (record h { host_proc_event = none }) w
          (rw idle at runs) in
      record { epochs = same.epochs; cur = same.cur; evt = same.evt }
  | inr (evt, busy) ↦ elim (Bool-cases evt.is_timeout) [
    | inl timeout ↦
        let same =
          schedule_host_proc_evt-SameEpochs now (record h { host_proc_event = none }) w
            (rw (busy, timeout) at runs) in
        record { epochs = same.epochs; cur = same.cur; evt = same.evt }
    | inr other ↦
        let e : ◌≡◌ {A = Option PimHost}
            (some (record h {
              host_proc_event = some (record { time = evt.time; is_timeout = false });
            }))
            (some w) =
          rw (busy, other) at runs in
        subst (SameEpochs h) (some_inj e) (record { epochs = refl; cur = refl; evt = refl })
  ]
]

SameEpochs-trans : (a b c : PimHost) → SameEpochs a b → SameEpochs b c → SameEpochs a c
SameEpochs-trans a b c p q = record {
  epochs = q.epochs ∙ p.epochs;
  cur = q.cur ∙ p.cur;
  evt = q.evt ∙ p.evt;
}

and_false : (p q : Bool) → (p && (q && false)) ≡ false
and_false p q = ap (λ x. p && x) (and_false_right q) ∙ and_false_right p

pub is_none-eq : (o : Option ℕ) → is_none o ≡ true → o ≡ none
is_none-eq none h = refl
is_none-eq (some x) h = cc

module _ (flows : ℕ → PimFlow) (k i : ℕ) where
  pub idle-Acted : (e : PimEpoch) (h : PimHost) → Own flows i e → Acted flows k i [] e h e h []
  idle-Acted e h own =
      Unmatched-Acted flows k i e h own [] e h []
        (record { epoch = refl; match_receiver = refl; match_sender = refl }) (SameEpochs-refl h)
        own (λ l a b. refl)

  -- One operation after another.
  pub Acted-trans :
      (removed : List Message) (e e₁ e₂ : PimEpoch) (h h₁ h₂ : PimHost) (s₁ s₂ : List Message)
      → Acted flows k i removed e h e₁ h₁ s₁
      → Acted flows k i [] e₁ h₁ e₂ h₂ s₂
      → Acted flows k i removed e h e₂ h₂ (s₁ ++ s₂)
  Acted-trans removed e e₁ e₂ h h₁ h₂ s₁ s₂ p q = record {
    epoch = q.epoch ∙ p.epoch;
    same = SameEpochs-trans h h₁ h₂ p.same q.same;
    own = q.own;
    balanced = λ l a b.
        omega (arith, p.balanced l a b, q.balanced l a b, count-append (carries flows l a b) s₁ s₂);
  }

  -- The sender takes the receiver of a grant.
  taken_on :
      (e : PimEpoch) (f : ℕ)
      → (flows f).src ≡ i
      → e.epoch ≡ k
      → (l a b : ℕ)
      → count (carries flows l a b) (accept f true e.iter e.epoch ∷ [])
          + one_if ((k == l) && ((i == b) && is_host e.match_sender a))
          + one_if ((k == l) && ((i == a) && false))
        ≤ 0
          + one_if ((k == l) && ((i == b) && is_host e.match_sender a))
          + one_if ((k == l) && ((i == a) && ((flows f).dst == b)))
  taken_on e f src is_k l a b =
      rw (src, is_k) (omega (arith, ap one_if (and_false (k == l) (i == a))))

  accepted-Acted :
      (f : ℕ) (e : PimEpoch) (h w : PimHost)
      → e.match_receiver ≡ none
      → (flows f).src ≡ i
      → e.epoch ≡ k
      → Own flows i e
      → SameEpochs h w
      → Acted flows k i [] e h
          (record e { match_receiver = some (flows f).dst })
          w
          (accept f true e.iter e.epoch ∷ [])
  accepted-Acted f e h w free src is_k own same = record {
    epoch = refl;
    same = same;
    own = own;
    balanced = λ l a b.
        subst
          (λ m.
            count (carries flows l a b) (accept f true e.iter e.epoch ∷ [])
              + one_if ((k == l) && ((i == b) && is_host e.match_sender a))
              + one_if ((k == l) && ((i == a) && is_host m b))
            ≤ 0
              + one_if ((k == l) && ((i == b) && is_host e.match_sender a))
              + one_if ((k == l) && ((i == a) && ((flows f).dst == b))))
          (sym free) (taken_on e f src is_k l a b);
  }

  module _ (now index : ℕ) where
    accept_loop_miss :
        (j : ℕ) (g : PimGrants) (gs : List PimGrants) (e : PimEpoch) (h : PimHost)
        → ((j == index) && is_none e.match_receiver) ≡ false
        → accept_loop flows now index j (g ∷ gs) e h ≡ accept_loop flows now index (j + 1) gs e h
    unfolding accept_loop
    accept_loop_miss j g gs e h miss = rw (miss, accept_loop)

    accept_loop_done :
        (j : ℕ) (gs : List PimGrants) (e : PimEpoch) (h : PimHost)
        → is_none e.match_receiver ≡ false
        → accept_loop flows now index j gs e h ≡ some (e, h, [])
    unfolding accept_loop
    accept_loop_done j [] e h m = refl
    accept_loop_done j (g ∷ gs) e h m =
        accept_loop_miss j g gs e h (ap (λ x. (j == index) && x) m ∙ and_false_right (j == index))
        ∙ accept_loop_done (j + 1) gs e h m

    accept_loop_hit :
        (j : ℕ) (g : PimGrants) (gs : List PimGrants) (e : PimEpoch) (h w : PimHost)
        → ((j == index) && is_none e.match_receiver) ≡ true
        → restart now (record h { receiver = some (flows g.f).dst }) ≡ some w
        → accept_loop flows now index j (g ∷ gs) e h
          ≡ some (
            record e { match_receiver = some (flows g.f).dst },
            w,
            accept g.f true e.iter e.epoch ∷ [],
          )
    unfolding accept_loop
    accept_loop_hit j g gs e h w hit woken =
        rw (hit, woken, accept_loop)
          (ap
            (λ (r : Option (PimEpoch × PimHost × List Message)).
              r >>= (λ x. some (x.0, x.1, accept g.f true e.iter e.epoch ∷ x.2)))
            (accept_loop_done (j + 1) gs (record e { match_receiver = some (flows g.f).dst }) w
              refl))

    accept_loop_stuck :
        (j : ℕ) (g : PimGrants) (gs : List PimGrants) (e : PimEpoch) (h : PimHost)
        → ((j == index) && is_none e.match_receiver) ≡ true
        → restart now (record h { receiver = some (flows g.f).dst }) ≡ none
        → accept_loop flows now index j (g ∷ gs) e h ≡ none
    unfolding accept_loop
    accept_loop_stuck j g gs e h hit stuck = rw (hit, stuck, accept_loop)

    pub accept_loop-Acted :
        (j : ℕ) (gs : List PimGrants) (e : PimEpoch) (h : PimHost) (e' : PimEpoch) (h' : PimHost)
        (sent : List Message)
        → e.match_receiver ≡ none
        → e.epoch ≡ k
        → Own flows i e
        → All (λ g. (flows g.f).src ≡ i) gs
        → accept_loop flows now index j gs e h ≡ some (e', h', sent)
        → Acted flows k i [] e h e' h' sent
    unfolding accept_loop
    accept_loop-Acted j [] e h e' h' sent free is_k own all runs =
        subst (λ (r : PimEpoch × PimHost × List Message). Acted flows k i [] e h r.0 r.1 r.2)
          (some_inj runs) (idle-Acted e h own)
    accept_loop-Acted j (g ∷ gs) e h e' h' sent free is_k own all runs =
        elim (Bool-cases ((j == index) && is_none e.match_receiver)) [
          | inr miss ↦
              accept_loop-Acted (j + 1) gs e h e' h' sent free is_k own all.1
                (sym (accept_loop_miss j g gs e h miss) ∙ runs)
          | inl hit ↦
              elim (Option-cases (restart now (record h { receiver = some (flows g.f).dst }))) [
                | inl stuck ↦
                    absurd (none_ne_some (sym (accept_loop_stuck j g gs e h hit stuck) ∙ runs))
                | inr (w, woken) ↦
                    let same =
                      restart-SameEpochs now (record h { receiver = some (flows g.f).dst }) w
                        woken in
                    subst
                      (λ (r : PimEpoch × PimHost × List Message).
                        Acted flows k i [] e h r.0 r.1 r.2)
                      (some_inj (sym (accept_loop_hit j g gs e h w hit woken) ∙ runs))
                      (accepted-Acted g.f e h w free all.0 is_k own
                        (record { epochs = same.epochs; cur = same.cur; evt = same.evt }))
              ]
        ]
