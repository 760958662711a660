-- ===== src/Pim/Network/Rounds.antt =====
-- The events of an epoch: what a sender and a receiver do once in each iteration is balanced.
use mathlib.Core.List.{append-nil}
use ruf.Prelude.{
  ℕ, zero, suc, ◌+◌, ◌≡◌, refl, sym, ◌∙◌, subst, List, [], ◌∷◌, ◌++◌, Option, none, some, count,
  All, All-erase_idx, ◌==◌, ltb, Bool-cases, inl, inr, arith, erase_idx, get_elem?, length, ◌%◌,
}
use ruf.Prelude.Faults.{>>=-eq-some, assert, some_inj, none_ne_some}
use ruf.PriorityQueue
use ruf.PriorityQueue.{PriorityQueue}
use ruf.Pim.{PimParams, PimFlow}
use ruf.Pim.Host.{PimEpoch, PimHost, PimGrants, Message}
use ruf.Pim.Epoch.{
  is_none, draw_loop, handle_all_grants, handle_all_rts, grant_loop, add_request, ask_loop, ask_all,
  send_all_rts, advance_iter, next_iter, schedule_sender_iter_evt, schedule_receiver_iter_evt,
}
use ruf.Pim.Network.{SameEpochs}
use ruf.Pim.Network.Balance.{
  carries, Own, Acted, Unmatched, Unmatched-Acted, SameEpochs-refl, grant_loop_quiet,
}
use ruf.Pim.Network.Accepts.{is_none-eq, idle-Acted, Acted-trans, accept_loop-Acted}

module _ (flows : ℕ → PimFlow) (k i : ℕ) where
  draw_loop-Own :
      (rand : ℕ → ℕ) (iter fuel n : ℕ) (q : List PimGrants) (index : ℕ) (q' : List PimGrants)
      → All (λ g. (flows g.f).src ≡ i) q
      → draw_loop (λ g. g.iter) rand iter fuel n q ≡ some (index, q')
      → All (λ g. (flows g.f).src ≡ i) q'
  unfolding draw_loop
  draw_loop-Own rand iter zero n q index q' all runs = absurd (none_ne_some runs)
  draw_loop-Own rand iter (suc fuel) n [] index q' all runs =
      let e : [] ≡ q' = cc in subst (All _) e tt
  draw_loop-Own rand iter (suc fuel) n (x ∷ xs) index q' all runs =
      let (entry, reads, rest) =
        >>=-eq-some (get_elem? (x ∷ xs) (rand n % length (x ∷ xs))) _ runs in
      elim (Bool-cases (entry.iter == iter)) [
        | inl hit ↦
            let e : ◌≡◌ {A = Option (ℕ × List PimGrants)} (some (rand n % length (x ∷ xs), x ∷ xs))
                (some (index, q')) =
              rw hit at rest in
            subst (λ (r : ℕ × List PimGrants). All (λ g. (flows g.f).src ≡ i) r.1) (some_inj e) all
        | inr miss ↦
            let (u, _, again) = >>=-eq-some (assert (ltb entry.iter iter)) _ (rw miss at rest) in
            draw_loop-Own rand iter fuel (n + 1) (erase_idx (x ∷ xs) (rand n % length (x ∷ xs)))
              index q' (All-erase_idx _ (x ∷ xs) (rand n % length (x ∷ xs)) all) again
      ]

  -- Fields that no match depends on.
  reset-Acted :
      (e e' : PimEpoch) (h h' : PimHost)
      → Unmatched e e'
      → Own flows i e
      → Own flows i e'
      → SameEpochs h h'
      → Acted flows k i [] e h e' h' []
  reset-Acted e e' h h' u own own' same =
      Unmatched-Acted flows k i e h own [] e' h' [] u same own' (λ l a b. refl)

  handle_all_grants-Acted :
      (now : ℕ) (rand : ℕ → ℕ) (e : PimEpoch) (h : PimHost) (e' : PimEpoch) (h' : PimHost)
      (sent : List Message)
      → e.epoch ≡ k
      → Own flows i e
      → handle_all_grants flows now rand e h ≡ some (e', h', sent)
      → Acted flows k i [] e h e' h' sent
  unfolding handle_all_grants
  handle_all_grants-Acted now rand e h e' h' sent is_k own runs =
      elim (Bool-cases (is_none e.match_receiver)) [
        | inr taken ↦
            let same : ◌≡◌ {A = Option (PimEpoch × PimHost × List Message)} (some (e, h, []))
                (some (e', h', sent)) =
              rw taken at runs in
            subst (λ (r : PimEpoch × PimHost × List Message). Acted flows k i [] e h r.0 r.1 r.2)
              (some_inj same) (idle-Acted flows k i e h own)
        | inl free ↦
            let (u, _, drawn) =
              >>=-eq-some (assert (is_none e.proc_sender_iter_evt)) _ (rw free at runs) in
            let ((index, q), draws, accepts) =
              >>=-eq-some
                (draw_loop (λ g. g.iter) rand e.iter (suc (length e.grants_q)) 0 e.grants_q) _
                drawn in
            let kept =
              draw_loop-Own rand e.iter (suc (length e.grants_q)) 0 e.grants_q index q own draws in
            Acted-trans flows k i [] e (record e { grants_q = q }) e' h h h' [] sent
              (reset-Acted e (record e { grants_q = q }) h h
                (record { epoch = refl; match_receiver = refl; match_sender = refl }) own kept
                (SameEpochs-refl h))
              (accept_loop-Acted flows k i now index 0 q (record e { grants_q = q }) h e' h' sent
                (is_none-eq e.match_receiver free) is_k kept kept accepts)
      ]

  add_request_quiet :
      (iter epoch : ℕ) (best : Option ℕ) (dst : ℕ) (q : PriorityQueue ℕ)
      (kept : List (ℕ × PriorityQueue ℕ)) (sent : List Message) (l a b : ℕ)
      → count (carries flows l a b) sent ≡ 0
      → count (carries flows l a b) (add_request iter epoch best dst q kept sent).1 ≡ 0
  add_request_quiet iter epoch none dst q kept sent l a b h = h
  add_request_quiet iter epoch (some f) dst q kept sent l a b h = omega arith

  ask_all_quiet :
      (iter epoch : ℕ) (qs : List (ℕ × PriorityQueue ℕ)) (kept : List (ℕ × PriorityQueue ℕ))
      (sent : List Message)
      → ask_all flows iter epoch qs ≡ some (kept, sent)
      → (l a b : ℕ) → count (carries flows l a b) sent ≡ 0
  unfolding ask_all
  ask_all_quiet iter epoch [] kept sent runs l a b = let e : [] ≡ sent = cc in rw (← e)
  ask_all_quiet iter epoch ((dst, q) ∷ qs) kept sent runs l a b =
      let ((best, q'), _, asks) =
        >>=-eq-some (ask_loop flows (suc (PriorityQueue.size q)) q) _ runs in
      let ((later, rest), asked, ends) = >>=-eq-some (ask_all flows iter epoch qs) _ asks in
      subst (λ (r : List (ℕ × PriorityQueue ℕ) × List Message). count (carries flows l a b) r.1 ≡ 0)
        (some_inj ends)
        (add_request_quiet iter epoch best dst q' later rest l a b
          (ask_all_quiet iter epoch qs later rest asked l a b))

  send_all_rts-Acted :
      (e : PimEpoch) (h h' : PimHost) (sent : List Message)
      → Own flows i e
      → send_all_rts flows e h ≡ some (h', sent)
      → Acted flows k i [] e h e h' sent
  unfolding send_all_rts
  send_all_rts-Acted e h h' sent own runs = elim (Bool-cases (is_none e.match_receiver)) [
    | inr taken ↦
        let same : ◌≡◌ {A = Option (PimHost × List Message)} (some (h, [])) (some (h', sent)) =
          rw taken at runs in
        subst (λ (r : PimHost × List Message). Acted flows k i [] e h e r.0 r.1) (some_inj same)
          (idle-Acted flows k i e h own)
    | inl free ↦
        let ((kept, asks), asked, ends) =
          >>=-eq-some (ask_all flows e.iter e.epoch h.dst_to_flows) _ (rw free at runs) in
        subst (λ (r : PimHost × List Message). Acted flows k i [] e h e r.0 r.1) (some_inj ends)
          (Unmatched-Acted flows k i e h own [] e (record h { dst_to_flows = kept }) asks
            (record { epoch = refl; match_receiver = refl; match_sender = refl })
            (record { epochs = refl; cur = refl; evt = refl }) own
            (ask_all_quiet e.iter e.epoch h.dst_to_flows kept asks asked))
  ]

  module _ (pim : PimParams) (now : ℕ) (rand : ℕ → ℕ) where
    advance-Acted :
        (e : PimEpoch) (h : PimHost) → Own flows i e → Acted flows k i [] e h (advance_iter e) h []
    unfolding advance_iter
    advance-Acted e h own =
        reset-Acted e (advance_iter e) h h
          (record { epoch = refl; match_receiver = refl; match_sender = refl }) own tt
          (SameEpochs-refl h)

    requests-Acted :
        (e : PimEpoch) (h h' : PimHost) (asks : List Message)
        → Own flows i e
        → send_all_rts flows (advance_iter e) h ≡ some (h', asks)
        → Acted flows k i [] e h
            (record (advance_iter e) { proc_sender_iter_evt = some (now + h'.iter_epoch) })
            h'
            asks
    unfolding advance_iter
    requests-Acted e h h' asks own asked =
        let scheduled =
          reset-Acted (advance_iter e)
            (record (advance_iter e) { proc_sender_iter_evt = some (now + h'.iter_epoch) }) h' h'
            (record { epoch = refl; match_receiver = refl; match_sender = refl }) tt tt
            (SameEpochs-refl h') in
        let sends =
          Acted-trans flows k i [] (advance_iter e) (advance_iter e) _ h h' h' asks []
            (send_all_rts-Acted (advance_iter e) h h' asks tt asked) scheduled in
        Acted-trans flows k i [] e (advance_iter e) _ h h h' [] asks (advance-Acted e h own)
          (subst (Acted flows k i [] (advance_iter e) h _ h') (append-nil asks) sends)

    next_iter-Acted :
        (e : PimEpoch) (h : PimHost) (accepts : List Message) (e' : PimEpoch) (h' : PimHost)
        (sent : List Message)
        → Own flows i e
        → next_iter pim flows now rand e h accepts ≡ some (e', h', sent)
        → (asks : List Message) × (sent ≡ accepts ++ asks) × Acted flows k i [] e h e' h' asks
    unfolding next_iter
    next_iter-Acted e h accepts e' h' sent own runs =
        elim (Bool-cases (ltb pim.pim_iter_limit (advance_iter e).iter)) [
          | inl last ↦
              let same : ◌≡◌ {A = Option (PimEpoch × PimHost × List Message)}
                  (some (advance_iter e, h, accepts)) (some (e', h', sent)) =
                rw last at runs in
              (
                [],
                let s : accepts ≡ sent = cc in sym s ∙ sym (append-nil accepts),
                subst (λ (r : PimEpoch × PimHost × List Message). Acted flows k i [] e h r.0 r.1 [])
                    (some_inj same) (advance-Acted e h own),
              )
          | inr more ↦
              let ((h₂, asks), asked, ends) =
                >>=-eq-some (send_all_rts flows (advance_iter e) h) _ (rw more at runs) in
              subst
                (λ (r : PimEpoch × PimHost × List Message).
                  (more_asks : List Message) × (r.2 ≡ accepts ++ more_asks)
                  × Acted flows k i [] e h r.0 r.1 more_asks)
                (some_inj ends) (asks, refl, requests-Acted e h h₂ asks own asked)
        ]

    pub schedule_sender-Acted :
        (e : PimEpoch) (h : PimHost) (e' : PimEpoch) (h' : PimHost) (sent : List Message)
        → e.epoch ≡ k
        → Own flows i e
        → schedule_sender_iter_evt pim flows now rand e h ≡ some (e', h', sent)
        → Acted flows k i [] e h e' h' sent
    unfolding schedule_sender_iter_evt
    schedule_sender-Acted e h e' h' sent is_k own runs =
        let (u, _, handles) = >>=-eq-some (assert (is_none e.proc_sender_iter_evt)) _ runs in
        let ((e₁, h₁, accepts), handled, ends) =
          >>=-eq-some (handle_all_grants flows now rand e h) _ handles in
        let first = handle_all_grants-Acted now rand e h e₁ h₁ accepts is_k own handled in
        let (asks, all, second) = next_iter-Acted e₁ h₁ accepts e' h' sent first.own ends in
        subst (Acted flows k i [] e h e' h') (sym all)
          (Acted-trans flows k i [] e e₁ e' h h₁ h' accepts asks first second)

    handle_all_rts-Acted :
        (e : PimEpoch) (h : PimHost) (e' : PimEpoch) (evt : Option ℕ) (sent : List Message)
        → Own flows i e
        → handle_all_rts rand e ≡ some (e', sent)
        → Acted flows k i [] e h (record e' { proc_receiver_iter_evt = evt }) h sent
    unfolding handle_all_rts
    handle_all_rts-Acted e h e' evt sent own runs = elim (Bool-cases (is_none e.match_sender)) [
      | inr taken ↦
          let same : ◌≡◌ {A = Option (PimEpoch × List Message)} (some (e, [])) (some (e', sent)) =
            rw taken at runs in
          subst
            (λ (r : PimEpoch × List Message).
              Acted flows k i [] e h (record r.0 { proc_receiver_iter_evt = evt }) h r.1)
            (some_inj same)
            (reset-Acted e (record e { proc_receiver_iter_evt = evt }) h h
              (record { epoch = refl; match_receiver = refl; match_sender = refl }) own own
              (SameEpochs-refl h))
      | inl free ↦
          let ((index, q), draws, ends) =
            >>=-eq-some (draw_loop (λ r. r.iter) rand e.iter (suc (length e.rts_q)) 0 e.rts_q) _
              (rw free at runs) in
          subst
            (λ (r : PimEpoch × List Message).
              Acted flows k i [] e h (record r.0 { proc_receiver_iter_evt = evt }) h r.1)
            (some_inj ends)
            (Unmatched-Acted flows k i e h own []
              (record e { rts_q = q; proc_receiver_iter_evt = evt }) h (grant_loop index e 0 q)
              (record { epoch = refl; match_receiver = refl; match_sender = refl })
              (SameEpochs-refl h) own (λ l a b. grant_loop_quiet flows l a b index e 0 q))
    ]

    pub schedule_receiver-Acted :
        (e : PimEpoch) (h : PimHost) (e' : PimEpoch) (h' : PimHost) (sent : List Message)
        → Own flows i e
        → schedule_receiver_iter_evt pim flows now rand e h ≡ some (e', h', sent)
        → Acted flows k i [] e h e' h' sent
    unfolding schedule_receiver_iter_evt
    schedule_receiver-Acted e h e' h' sent own runs =
        let (u, _, handles) = >>=-eq-some (assert (is_none e.proc_receiver_iter_evt)) _ runs in
        elim (Bool-cases (ltb pim.pim_iter_limit e.iter)) [
          | inl last ↦
              let same : ◌≡◌ {A = Option (PimEpoch × PimHost × List Message)} (some (e, h, []))
                  (some (e', h', sent)) =
                rw last at handles in
              subst (λ (r : PimEpoch × PimHost × List Message). Acted flows k i [] e h r.0 r.1 r.2)
                (some_inj same) (idle-Acted flows k i e h own)
          | inr more ↦
              let ((e₁, granted), handled, ends) =
                >>=-eq-some (handle_all_rts rand e) _ (rw more at handles) in
              subst (λ (r : PimEpoch × PimHost × List Message). Acted flows k i [] e h r.0 r.1 r.2)
                (some_inj ends)
                (handle_all_rts-Acted e h e₁ (some (now + h.iter_epoch)) granted own handled)
        ]
