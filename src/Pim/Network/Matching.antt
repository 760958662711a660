-- ===== src/Pim/Network/Matching.antt =====
-- What PIM is for: in every epoch the hosts that are matched form a matching, however the packets are
-- ordered, delayed or lost.
use ruf.Prelude.{
  ℕ, ◌+◌, ◌≤◌, ◌≡◌, refl, sym, ap, ◌∙◌, subst, Bool, List, [], ◌∷◌, ◌++◌, Option, none, some, count,
  count-append, count-erase_idx, count-erase_idx_le, one_if, get_elem?, erase_idx, ==_refl,
  Bool-cases, inl, inr, ◌⊎◌, arith,
}
use ruf.Prelude.Faults.{>>=-eq-some, some_inj, none_ne_some}
use ruf.Params.{Params}
use ruf.Pim.{PimParams}
use ruf.Pim.Host.{PimEpoch, PimHost, NewEpochEvent, Message, rts, grants, accept, grantsr}
use ruf.Pim.Epoch.{
  is_host, put_epoch, receive_rts, receive_grants, receive_accept_pkt, receive_grantsr,
  process_sender_iter, process_receiver_iter, process_new_epoch, start_new_epoch,
}
use ruf.Pim.Receive.{at_epoch, quiet, flow_of, receive, receive_live, target}
use ruf.Pim.Network.{
  System, set_host, Step, Reach, deliver, lose, sender_iter, receiver_iter, begin, new_epoch, other,
  here, next,
}
use ruf.Pim.Network.Balance.{
  carries, Own, Acted, receive_rts-Acted, receive_grants-Acted, receive_grantsr-Acted,
  receive_accept-Acted,
}
use ruf.Pim.Network.Rounds.{schedule_sender-Acted, schedule_receiver-Acted}
use ruf.Pim.Network.Kept.{IsKept, act-IsKept, idle-IsKept, match_of}
use ruf.Pim.Network.Begin.{Follows, start_new_epoch_lem, begun-Started, start-IsKept, on_host}

-- What a packet of the epoch `k` does to its host.
at_epoch_lem :
    (k : ℕ) (act : PimEpoch → PimHost → Option (PimEpoch × PimHost × List Message)) (h h' : PimHost)
    (sent : List Message)
    → at_epoch k act h ≡ some (h', sent)
    → ((h ≡ h') × (sent ≡ []))
      ⊎ ((e : PimEpoch) × (e' : PimEpoch) × (w : PimHost) × (h.epochs k ≡ some e)
          × (act e h ≡ some (e', w, sent))
          × (put_epoch k (some e') w ≡ h'))
unfolding at_epoch
at_epoch_lem k act h h' sent runs = elim (Bool-cases (is_host h.cur_epoch k)) [
  | inr old ↦
      let e : ◌≡◌ {A = Option (PimHost × List Message)} (some (h, [])) (some (h', sent)) =
        rw (old, at_epoch) at runs in
      inl (cc, cc)
  | inl now ↦
      let (e, found, acts) = >>=-eq-some (h.epochs k) _ (rw (now, at_epoch) at runs) in
      let ((e', w, out), done, ends) = >>=-eq-some (act e h) _ acts in
      let both = some_inj ends in
      inr
        (e, e', w, found, done ∙ ap (λ o. some (e', w, o)) (ap (λ r. r.1) both), ap (λ r. r.0) both)
]

-- An operation on a packet that was on its way.
module _ (s : System) (v : IsKept s) (i j : ℕ) (m : Message)
    (taken : get_elem? s.net j ≡ some m) where
  moved_by :
      (sent : List Message) (f : Message → Bool)
      → count f (erase_idx s.net j ++ sent) + count f (m ∷ []) ≡ count f s.net + count f sent
  moved_by sent f =
      omega (arith, count-append f (erase_idx s.net j) sent, count-erase_idx f s.net j m taken)

  -- The packet is of no use: it is taken up, and nothing else happens.
  dropped :
      (h : PimHost) (sent : List Message)
      → s.hosts i ≡ h
      → sent ≡ []
      → IsKept (record s { hosts = set_host i h s.hosts; net = erase_idx s.net j ++ sent })
  dropped h sent same none_sent = idle-IsKept s _ v (record {
    ends = λ f. (refl, refl);
    epochs =
        on_host i h s.hosts (λ x h. h.epochs ≡ (s.hosts x).epochs) (ap (λ h. h.epochs) (sym same))
          (λ x. refl);
    cur =
        on_host i h s.hosts (λ x h. h.cur_epoch ≡ (s.hosts x).cur_epoch)
          (ap (λ h. h.cur_epoch) (sym same)) (λ x. refl);
    evt = λ x e.
        on_host i h s.hosts (λ x h. h.new_epoch_evt ≡ some e → (s.hosts x).new_epoch_evt ≡ some e)
          (λ n. ap (λ h. h.new_epoch_evt) same ∙ n) (λ x n. n) x;
    fewer = λ k a b. rw none_sent (
        omega (
          arith,
          count-append (carries s.flows k a b) (erase_idx s.net j) [],
          count-erase_idx_le (carries s.flows k a b) s.net j,
        ));
  })

  taken_up :
      (k : ℕ) (act : PimEpoch → PimHost → Option (PimEpoch × PimHost × List Message)) (h : PimHost)
      (sent : List Message)
      → ((e e' : PimEpoch) (w : PimHost)
          → Own s.flows i e
          → e.epoch ≡ k
          → act e (s.hosts i) ≡ some (e', w, sent)
          → Acted s.flows k i (m ∷ []) e (s.hosts i) e' w sent)
      → at_epoch k act (s.hosts i) ≡ some (h, sent)
      → IsKept (record s { hosts = set_host i h s.hosts; net = erase_idx s.net j ++ sent })
  taken_up k act h sent acts runs = elim (at_epoch_lem k act (s.hosts i) h sent runs) [
    | inl (same, nothing) ↦ dropped h sent same nothing
    | inr (e, e', w, found, done, put) ↦
        let known = v.named i k e found in
        subst
          (λ x. IsKept (record s { hosts = set_host i x s.hosts; net = erase_idx s.net j ++ sent }))
          put
          (act-IsKept s v i k (m ∷ []) e e' w sent (erase_idx s.net j ++ sent) found
            (acts e e' w known.3 known.0 done) (moved_by sent))
  ]

  -- An operation that changes the epoch alone.
  quiet-Acted :
      (k : ℕ) (act : PimEpoch → Option PimEpoch) (e e' : PimEpoch) (h w : PimHost)
      (sent : List Message)
      → ((d : PimEpoch) → act e ≡ some d → Acted s.flows k i (m ∷ []) e h d h [])
      → quiet act e h ≡ some (e', w, sent)
      → Acted s.flows k i (m ∷ []) e h e' w sent
  quiet-Acted k act e e' h w sent acts runs =
      let (d, done, ends) = >>=-eq-some (act e) _ runs in
      subst (λ (r : PimEpoch × PimHost × List Message). Acted s.flows k i (m ∷ []) e h r.0 r.1 r.2)
        (some_inj ends) (acts d done)

-- An event of the epoch `k` of the host `i`.
event-IsKept :
    (s : System) (v : IsKept s) (i k : ℕ) (e e' : PimEpoch) (h : PimHost) (sent : List Message)
    → (s.hosts i).epochs k ≡ some e
    → Acted s.flows k i [] e (s.hosts i) e' h sent
    → IsKept
        (record s { hosts = set_host i (put_epoch k (some e') h) s.hosts; net = s.net ++ sent })
event-IsKept s v i k e e' h sent found acted =
    act-IsKept s v i k [] e e' h sent (s.net ++ sent) found acted
      (λ f. omega (arith, count-append f s.net sent))

receive_live-IsKept :
    (s : System) (v : IsKept s) (j : ℕ) (m : Message) (h : PimHost) (sent : List Message)
    → get_elem? s.net j ≡ some m
    → receive_live s.flows m (s.hosts (target s.flows m)) ≡ some (h, sent)
    → IsKept (record s {
      hosts = set_host (target s.flows m) h s.hosts;
      net = erase_idx s.net j ++ sent;
    })
unfolding receive_live target
receive_live-IsKept s v j (rts f iter epoch) h sent at runs =
    taken_up s v (s.flows f).dst j (rts f iter epoch) at epoch (quiet (receive_rts f iter epoch)) h
      sent
      (λ e e' w own is_k acts.
        quiet-Acted s v (s.flows f).dst j (rts f iter epoch) at epoch (receive_rts f iter epoch) e
          e' (s.hosts (s.flows f).dst) w sent
          (λ d done.
            receive_rts-Acted s.flows epoch (s.flows f).dst e (s.hosts (s.flows f).dst) own f iter
              epoch d done)
          acts)
      runs
receive_live-IsKept s v j (grants f iter epoch prompt) h sent at runs =
    taken_up s v (s.flows f).src j (grants f iter epoch prompt) at epoch
      (quiet (receive_grants f iter epoch prompt)) h sent
      (λ e e' w own is_k acts.
        quiet-Acted s v (s.flows f).src j (grants f iter epoch prompt) at epoch
          (receive_grants f iter epoch prompt) e e' (s.hosts (s.flows f).src) w sent
          (λ d done.
            receive_grants-Acted s.flows epoch (s.flows f).src e (s.hosts (s.flows f).src) own f
              iter epoch prompt d refl done)
          acts)
      runs
receive_live-IsKept s v j (accept f accepted iter epoch) h sent at runs =
    taken_up s v (s.flows f).dst j (accept f accepted iter epoch) at epoch
      (receive_accept_pkt f (s.flows f).src accepted epoch) h sent
      (λ e e' w own is_k acts.
        receive_accept-Acted s.flows epoch (s.flows f).dst e (s.hosts (s.flows f).dst) own f iter
          epoch accepted e' w sent refl is_k acts)
      runs
receive_live-IsKept s v j (grantsr f iter epoch) h sent at runs =
    taken_up s v (s.flows f).src j (grantsr f iter epoch) at epoch
      (receive_grantsr (s.flows f).dst epoch) h sent
      (λ e e' w own is_k acts.
        receive_grantsr-Acted s.flows epoch (s.flows f).src e (s.hosts (s.flows f).src) own f iter
          epoch e' w sent refl is_k acts)
      runs

receive-IsKept :
    (s : System) (v : IsKept s) (j : ℕ) (m : Message) (h : PimHost) (sent : List Message)
    → get_elem? s.net j ≡ some m
    → receive s.flows m (s.hosts (target s.flows m)) ≡ some (h, sent)
    → IsKept (record s {
      hosts = set_host (target s.flows m) h s.hosts;
      net = erase_idx s.net j ++ sent;
    })
unfolding receive
receive-IsKept s v j m h sent at runs = elim (Bool-cases (s.flows (flow_of m)).finished) [
  | inr live ↦ receive_live-IsKept s v j m h sent at (rw live at runs)
  | inl over ↦
      let e : ◌≡◌ {A = Option (PimHost × List Message)} (some (s.hosts (target s.flows m), []))
          (some (h, sent)) =
        rw over at runs in
      dropped s v (target s.flows m) j m at h sent (ap (λ r. r.0) (some_inj e))
        (sym (ap (λ r. r.1) (some_inj e)))
]

module _ (params : Params) (pim : PimParams) where
  start-Kept :
      (s : System) (v : IsKept s) (i k finished time : ℕ) (h h' : PimHost)
      → h.epochs ≡ (s.hosts i).epochs
      → h.cur_epoch ≡ (s.hosts i).cur_epoch
      → ((e : NewEpochEvent) → h.new_epoch_evt ≡ some e → (s.hosts i).new_epoch_evt ≡ some e)
      → Follows (s.hosts i).cur_epoch k
      → start_new_epoch params pim finished time k h ≡ some h'
      → IsKept (record s { hosts = set_host i h' s.hosts })
  start-Kept s v i k finished time h h' epochs cur evt follows runs =
      elim (start_new_epoch_lem params pim finished time k h h' runs) [
        | inl same ↦
            subst (λ x. IsKept (record s { hosts = set_host i x s.hosts })) same
              (idle-IsKept s _ v (record {
                ends = λ f. (refl, refl);
                epochs =
                    on_host i h s.hosts (λ x h. h.epochs ≡ (s.hosts x).epochs) epochs (λ x. refl);
                cur =
                    on_host i h s.hosts (λ x h. h.cur_epoch ≡ (s.hosts x).cur_epoch) cur
                      (λ x. refl);
                evt = λ x e.
                    on_host i h s.hosts
                      (λ x h. h.new_epoch_evt ≡ some e → (s.hosts x).new_epoch_evt ≡ some e) (evt e)
                      (λ x n. n) x;
                fewer = λ k a b. omega arith;
              }))
        | inr fresh ↦
            subst (λ x. IsKept (record s { hosts = set_host i x s.hosts })) fresh
              (start-IsKept s v i k _ follows (
                begun-Started pim time k h (subst (λ c. Follows c k) (sym cur) follows)
                  (λ l d found. cur ∙ (v.named i l d (ap (λ f. f l) (sym epochs) ∙ found)).1)))
      ]

  Step-IsKept : {s t : System} → Step params pim s t → IsKept s → IsKept t
  unfolding process_sender_iter process_receiver_iter process_new_epoch
  Step-IsKept {s} (deliver {h} {sent} j m at runs) v = receive-IsKept s v j m h sent at runs
  Step-IsKept {s} (lose j) v = idle-IsKept s _ v (record {
    ends = λ f. (refl, refl);
    epochs = λ i. refl;
    cur = λ i. refl;
    evt = λ i e n. n;
    fewer = λ k a b. count-erase_idx_le (carries s.flows k a b) s.net j;
  })
  Step-IsKept {s} (sender_iter {e} {e'} {h} {sent} i k now rand found due runs) v =
      let known = v.named i k e found in
      let acted =
        schedule_sender-Acted s.flows k i pim now rand (record e { proc_sender_iter_evt = none })
          (s.hosts i) e' h sent known.0 known.3 runs in
      event-IsKept s v i k e e' h sent found (record {
        epoch = acted.epoch;
        same = acted.same;
        own = acted.own;
        balanced = acted.balanced;
      })
  Step-IsKept {s} (receiver_iter {e} {e'} {h} {sent} i k now rand found due runs) v =
      let known = v.named i k e found in
      let acted =
        schedule_receiver-Acted s.flows k i pim now rand
          (record e { proc_receiver_iter_evt = none }) (s.hosts i) e' h sent known.3 runs in
      event-IsKept s v i k e e' h sent found (record {
        epoch = acted.epoch;
        same = acted.same;
        own = acted.own;
        balanced = acted.balanced;
      })
  Step-IsKept {s} (begin {h} i now finished none_yet runs) v =
      start-Kept s v i 0 finished now (s.hosts i) h refl refl (λ e n. n)
        (subst (λ c. Follows c 0) (sym none_yet) refl) runs
  Step-IsKept {s} (new_epoch {h} i finished evt due runs) v =
      let (c, cur, follows) = v.upcoming i evt due in
      start-Kept s v i evt.epoch finished evt.time (record (s.hosts i) { new_epoch_evt = none }) h
        refl refl (λ e n. absurd (none_ne_some n))
        (subst (λ c. Follows c evt.epoch) (sym cur) follows) runs
  Step-IsKept {s} (other flows hosts ends same) v = idle-IsKept s _ v (record {
    ends = ends;
    epochs = λ i. (same i).epochs;
    cur = λ i. (same i).cur;
    evt = λ i e n. sym (same i).evt ∙ n;
    fewer = λ k a b. omega arith;
  })

  pub Reach-IsKept : {s t : System} → Reach params pim s t → IsKept s → IsKept t
  Reach-IsKept here v = v
  Reach-IsKept (next r st) v = Step-IsKept st (Reach-IsKept r v)

-- No host has begun an epoch, and no packet is on its way.
pub record IsInitial (s : System) : Type 0 where
  pub none_begun : (i : ℕ) → (s.hosts i).cur_epoch ≡ none
  pub no_epoch : (i k : ℕ) → (s.hosts i).epochs k ≡ none
  pub no_event : (i : ℕ) → (s.hosts i).new_epoch_evt ≡ none
  pub quiet_net : s.net ≡ []

pub IsInitial-IsKept : (s : System) → IsInitial s → IsKept s
IsInitial-IsKept s c = record {
  partner = λ k a. none;
  named = λ i k e found. absurd (none_ne_some (sym (c.no_epoch i k) ∙ found));
  present = λ i k cur. absurd (none_ne_some (sym (c.none_begun i) ∙ cur));
  later = λ i k ahead. refl;
  upcoming = λ i evt next. absurd (none_ne_some (sym (c.no_event i) ∙ next));
  bounded = λ k a b. rw (c.quiet_net, c.no_epoch b k) (omega arith);
}

-- The receivers that are matched in the epoch `k`, with their senders.
abbrev pub Matched : System → (k a b : ℕ) → Type 0
Matched s k a b = (e : PimEpoch) × ((s.hosts b).epochs k ≡ some e) × (e.match_sender ≡ some a)

pub record IsMatching (s : System) : Type 0 where
  -- No sender is matched with two receivers.
  pub once : (k a b c : ℕ) → Matched s k a b → Matched s k a c → b ≡ c
  -- A sender that still has the epoch has the receiver that is matched with it.
  pub agrees :
      (k a b : ℕ) (e : PimEpoch)
      → Matched s k a b
      → (s.hosts a).epochs k ≡ some e
      → e.match_receiver ≡ some b

pub is_host-eq-some : (o : Option ℕ) (b : ℕ) → 1 ≤ one_if (is_host o b) → o ≡ some b
is_host-eq-some none b h = absurd (omega arith)
is_host-eq-some (some x) b h = ground arith

partner-Matched : (s : System) (v : IsKept s) (k a b : ℕ) → Matched s k a b → v.partner k a ≡ some b
partner-Matched s v k a b (e, found, match) =
    let full : one_if (match_of ((s.hosts b).epochs k) a) ≡ 1 =
      rw (found, match) (ap one_if (==_refl a)) in
    is_host-eq-some (v.partner k a) b (omega (arith, v.bounded k a b))

IsKept-IsMatching : (s : System) → IsKept s → IsMatching s
IsKept-IsMatching s v = record {
  once = λ k a b c m n. some_inj (sym (partner-Matched s v k a b m) ∙ partner-Matched s v k a c n);
  agrees = λ k a b e m found. (v.named a k e found).2 ∙ partner-Matched s v k a b m;
}

-- From a state in which no host has begun an epoch and no packet is on its way, whatever steps are
-- taken, with control packets reordered, late or lost: in every epoch no sender is matched with two
-- receivers, and a sender that still has the epoch has the receiver that is matched with it.
pub Reach-IsMatching :
    (params : Params) (pim : PimParams) (s t : System)
    → IsInitial s
    → Reach params pim s t
    → IsMatching t
Reach-IsMatching params pim s t c r =
    IsKept-IsMatching t (Reach-IsKept params pim r (IsInitial-IsKept s c))
