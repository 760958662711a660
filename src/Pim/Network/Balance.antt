-- ===== src/Pim/Network/Balance.antt =====
-- Each accept is answered for: what an operation of PimEpoch adds to the accepts and GrantsR packets on
-- their way and to the matches of receivers, it takes from them or adds to the matches of senders.
use ruf.Prelude.{
  ℕ, ◌+◌, ◌≤◌, ◌≡◌, refl, ap, subst, Bool, true, false, ◌&&◌, List, [], ◌∷◌, ◌++◌, Option, none,
  some, count, one_if, All, All-append, ◌==◌, ltb, Bool-cases, inl, inr, arith, ◌⊎◌,
}
use ruf.Prelude.Faults.{some_inj}
use ruf.Pim.{PimFlow}
use ruf.Pim.Host.{PimEpoch, PimHost, PimRts, Message, rts, grants, accept, grantsr}
use ruf.Pim.Epoch.{
  is_host, is_none, grant_loop, receive_rts, receive_grants, receive_accept_pkt, receive_grantsr,
}
use ruf.Pim.Network.{SameEpochs}

-- An accept on its way from `a` to `b` in the epoch `k`, or a GrantsR packet that gives it back.
abbrev pub carries : (ℕ → PimFlow) → (k a b : ℕ) → Message → Bool
carries flows k a b (rts f iter epoch) = false
carries flows k a b (grants f iter epoch prompt) = false
carries flows k a b (accept f accepted iter epoch) =
    accepted && ((epoch == k) && (((flows f).src == a) && ((flows f).dst == b)))
carries flows k a b (grantsr f iter epoch) =
    (epoch == k) && (((flows f).src == a) && ((flows f).dst == b))

-- The grants that a sender has received are for its own flows.
abbrev pub Own : (ℕ → PimFlow) → ℕ → PimEpoch → Type 0
Own flows i e = All (λ g. (flows g.f).src ≡ i) e.grants_q

-- What the operation on the epoch `k` of the host `i` does, which takes up the packets `removed`.
pub record Acted (flows : ℕ → PimFlow) (k i : ℕ) (removed : List Message) (e : PimEpoch)
    (h : PimHost) (e' : PimEpoch) (h' : PimHost) (sent : List Message) : Type 0 where
  pub epoch : e'.epoch ≡ e.epoch
  pub same : SameEpochs h h'
  pub own : Own flows i e'
  pub balanced :
      (l a b : ℕ)
      → count (carries flows l a b) sent
          + one_if ((k == l) && ((i == b) && is_host e'.match_sender a))
          + one_if ((k == l) && ((i == a) && is_host e.match_receiver b))
        ≤ count (carries flows l a b) removed
          + one_if ((k == l) && ((i == b) && is_host e.match_sender a))
          + one_if ((k == l) && ((i == a) && is_host e'.match_receiver b))

pub SameEpochs-refl : (h : PimHost) → SameEpochs h h
SameEpochs-refl h = record { epochs = refl; cur = refl; evt = refl }

pub grant_loop_quiet :
    (flows : ℕ → PimFlow) (l a b index : ℕ) (e : PimEpoch) (i : ℕ) (q : List PimRts)
    → count (carries flows l a b) (grant_loop index e i q) ≡ 0
unfolding grant_loop
grant_loop_quiet flows l a b index e i [] = refl
grant_loop_quiet flows l a b index e i (r ∷ rs) =
    ground (arith, grant_loop_quiet flows l a b index e (i + 1) rs)

and_swap : (p q r : Bool) → (p && (q && r)) ≡ (p && (r && q))
and_swap false q r = refl
and_swap true false false = refl
and_swap true false true = refl
and_swap true true false = refl
and_swap true true true = refl

is_host-eq : (m : Option ℕ) (x b : ℕ) → is_host m x ≡ true → is_host m b ≡ (x == b)
is_host-eq none x b h = cc
is_host-eq (some y) x b h = ground arith

given_back :
    (flows : ℕ → PimFlow) (k i : ℕ) (e : PimEpoch) (f iter epoch : ℕ)
    → (flows f).src ≡ i
    → epoch ≡ k
    → is_host e.match_receiver (flows f).dst ≡ true
    → (l a b : ℕ)
    → 0
        + one_if ((k == l) && ((i == b) && is_host e.match_sender a))
        + one_if ((k == l) && ((i == a) && is_host e.match_receiver b))
      ≤ count (carries flows l a b) (grantsr f iter epoch ∷ [])
        + one_if ((k == l) && ((i == b) && is_host e.match_sender a))
        + one_if ((k == l) && ((i == a) && false))
given_back flows k i e f iter epoch src same match l a b =
    rw (is_host-eq e.match_receiver (flows f).dst b match, src, same) (omega arith)

-- What an operation keeps that changes no match.
pub record Unmatched (e e' : PimEpoch) : Type 0 where
  pub epoch : e'.epoch ≡ e.epoch
  pub match_receiver : e'.match_receiver ≡ e.match_receiver
  pub match_sender : e'.match_sender ≡ e.match_sender

module _ (flows : ℕ → PimFlow) (k i : ℕ) (e : PimEpoch) (h : PimHost) (own : Own flows i e) where
  pub Unmatched-Acted :
      (removed : List Message) (e' : PimEpoch) (h' : PimHost) (sent : List Message)
      → Unmatched e e'
      → SameEpochs h h'
      → Own flows i e'
      → ((l a b : ℕ) → count (carries flows l a b) sent ≡ 0)
      → Acted flows k i removed e h e' h' sent
  Unmatched-Acted removed e' h' sent u same kept quiet = record {
    epoch = u.epoch;
    same = same;
    own = kept;
    balanced = λ l a b. rw (u.match_sender, u.match_receiver, quiet l a b) (omega arith);
  }

  pub receive_rts-Acted :
      (f iter epoch : ℕ) (e' : PimEpoch)
      → receive_rts f iter epoch e ≡ some e'
      → Acted flows k i (rts f iter epoch ∷ []) e h e' h []
  unfolding receive_rts
  receive_rts-Acted f iter epoch e' runs =
      Unmatched-Acted _ e' h []
        (record {
          epoch = ground arith;
          match_receiver = ground arith;
          match_sender = ground arith;
        })
        (SameEpochs-refl h) (let same : e'.grants_q ≡ e.grants_q = ground arith in rw same own)
        (λ l a b. refl)

  receive_grants-Own :
      (f iter epoch : ℕ) (prompt : Bool) (e' : PimEpoch)
      → (flows f).src ≡ i
      → receive_grants f iter epoch prompt e ≡ some e'
      → (e'.grants_q ≡ e.grants_q)
        ⊎ (e'.grants_q ≡ e.grants_q ++ record { prompt = prompt; iter = iter; f = f } ∷ [])
  unfolding receive_grants
  receive_grants-Own f iter epoch prompt e' src runs = elim (Bool-cases (epoch == e.epoch)) [
    | inr other ↦ absurd (ground arith)
    | inl this ↦ elim (Bool-cases (ltb iter e.iter)) [
      | inl late ↦ inl (ground arith)
      | inr now ↦ elim (Bool-cases (e.iter == iter)) [
        | inl fits ↦ inr (ground arith)
        | inr early ↦ absurd (ground arith)
      ]
    ]
  ]

  pub receive_grants-Acted :
      (f iter epoch : ℕ) (prompt : Bool) (e' : PimEpoch)
      → (flows f).src ≡ i
      → receive_grants f iter epoch prompt e ≡ some e'
      → Acted flows k i (grants f iter epoch prompt ∷ []) e h e' h []
  unfolding receive_grants
  receive_grants-Acted f iter epoch prompt e' src runs =
      Unmatched-Acted _ e' h []
        (record {
          epoch = ground arith;
          match_receiver = ground arith;
          match_sender = ground arith;
        })
        (SameEpochs-refl h)
        (elim (receive_grants-Own f iter epoch prompt e' src runs) [
          | inl old ↦ rw old own
          | inr new ↦ rw new (All-append _ e.grants_q _ own (src, tt))
        ])
        (λ l a b. refl)

  pub receive_grantsr-Acted :
      (f iter epoch : ℕ) (e' : PimEpoch) (h' : PimHost) (sent : List Message)
      → (flows f).src ≡ i
      → e.epoch ≡ k
      → receive_grantsr (flows f).dst epoch e h ≡ some (e', h', sent)
      → Acted flows k i (grantsr f iter epoch ∷ []) e h e' h' sent
  unfolding receive_grantsr
  receive_grantsr-Acted f iter epoch e' h' sent src is_k runs =
      elim (Bool-cases (epoch == e.epoch)) [
        | inr other ↦ absurd (ground arith)
        | inl this ↦ elim (Bool-cases (is_host e.match_receiver (flows f).dst)) [
          | inr no_match ↦ absurd (ground arith)
          | inl match ↦
              let done : ◌≡◌ {A = Option (PimEpoch × PimHost × List Message)}
                  (some (record e { match_receiver = none }, record h { receiver = none }, []))
                  (some (e', h', sent)) =
                rw (this, match) at runs in
              subst
                (λ (r : PimEpoch × PimHost × List Message).
                  Acted flows k i (grantsr f iter epoch ∷ []) e h r.0 r.1 r.2)
                (some_inj done)
                (record {
                  epoch = refl;
                  same = record { epochs = refl; cur = refl; evt = refl };
                  own = own;
                  balanced =
                      λ l a b. given_back flows k i e f iter epoch src (ground arith) match l a b;
                })
        ]
      ]

  -- A receiver without a match takes the sender; another gives the accept back.
  matched-Acted :
      (f iter epoch : ℕ)
      → (flows f).dst ≡ i
      → epoch ≡ k
      → is_none e.match_sender ≡ true
      → Acted flows k i
          (accept f true iter epoch ∷ [])
          e
          h
          (record e { match_sender = some (flows f).src })
          (record h { sender = some (flows f).src })
          []
  matched-Acted f iter epoch dst same free = record {
    epoch = refl;
    same = record { epochs = refl; cur = refl; evt = refl };
    own = own;
    balanced = λ l a b.
        rw (dst, same) (omega (arith, ap one_if (and_swap (k == l) (i == b) ((flows f).src == a))));
  }

  returned-Acted :
      (f iter epoch : ℕ)
      → epoch ≡ e.epoch
      → Acted flows k i (accept f true iter epoch ∷ []) e h e h (grantsr f e.iter e.epoch ∷ [])
  returned-Acted f iter epoch same = record {
    epoch = refl;
    same = SameEpochs-refl h;
    own = own;
    balanced = λ l a b. rw same (omega arith);
  }

  pub receive_accept-Acted :
      (f iter epoch : ℕ) (accepted : Bool) (e' : PimEpoch) (h' : PimHost) (sent : List Message)
      → (flows f).dst ≡ i
      → e.epoch ≡ k
      → receive_accept_pkt f (flows f).src accepted epoch e h ≡ some (e', h', sent)
      → Acted flows k i (accept f accepted iter epoch ∷ []) e h e' h' sent
  unfolding receive_accept_pkt
  receive_accept-Acted f iter epoch false e' h' sent dst is_k runs =
      elim (Bool-cases (epoch == e.epoch)) [
        | inr other ↦ absurd (ground arith)
        | inl this ↦
            let done : ◌≡◌ {A = Option (PimEpoch × PimHost × List Message)} (some (e, h, []))
                (some (e', h', sent)) =
              rw this at runs in
            subst
              (λ (r : PimEpoch × PimHost × List Message).
                Acted flows k i (accept f false iter epoch ∷ []) e h r.0 r.1 r.2)
              (some_inj done)
              (Unmatched-Acted (accept f false iter epoch ∷ []) e h []
                (record { epoch = refl; match_receiver = refl; match_sender = refl })
                (SameEpochs-refl h) own (λ l a b. refl))
      ]
  receive_accept-Acted f iter epoch true e' h' sent dst is_k runs =
      elim (Bool-cases (epoch == e.epoch)) [
        | inr other ↦ absurd (ground arith)
        | inl this ↦ elim (Bool-cases (is_none e.match_sender)) [
          | inl free ↦
              let done : ◌≡◌ {A = Option (PimEpoch × PimHost × List Message)}
                  (some (
                    record e { match_sender = some (flows f).src },
                    record h { sender = some (flows f).src },
                    [],
                  ))
                  (some (e', h', sent)) =
                rw (this, free) at runs in
              subst
                (λ (r : PimEpoch × PimHost × List Message).
                  Acted flows k i (accept f true iter epoch ∷ []) e h r.0 r.1 r.2)
                (some_inj done) (matched-Acted f iter epoch dst (ground arith) free)
          | inr taken ↦
              let done : ◌≡◌ {A = Option (PimEpoch × PimHost × List Message)}
                  (some (e, h, grantsr f e.iter e.epoch ∷ [])) (some (e', h', sent)) =
                rw (this, taken) at runs in
              subst
                (λ (r : PimEpoch × PimHost × List Message).
                  Acted flows k i (accept f true iter epoch ∷ []) e h r.0 r.1 r.2)
                (some_inj done) (returned-Acted f iter epoch (ground arith))
        ]
      ]
