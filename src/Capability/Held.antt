-- ===== src/Capability/Held.antt =====
-- The capabilities at the sender: what `has_capability` drops, and the one that `send_pending_data`
-- then uses.
use ruf.Prelude.{
  ℕ, zero, suc, ◌+◌, ◌≤◌, ◌<◌, ◌≡◌, refl, sym, ap, ◌∙◌, Bool, true, false, ◌&&◌, List, [], ◌∷◌,
  none, some, length, count, ltb, leb, le→leb, if◌then◌else◌, Bool-cases, Option-cases, inl, inr,
  arith,
}
use ruf.Prelude.Int.{negsuc}
use ruf.Prelude.Words.{add32}
use ruf.Params.{Params}
use ruf.StdQueue.{IsOrder, take-least}
use ruf.Ranking.Flow.{DataPacket}
use ruf.Capability.{
  Capability, Capabilities, CapabilityParams, CapabilityFlow, capability_comp, has_loop,
  has_capability, use_capability, send_pending_data, priority_of,
}

count_all {ℓ} : {A : Type ℓ} (xs : List A) → count (λ x. true) xs ≡ length xs
count_all [] = refl
count_all (x ∷ xs) = omega (arith, count_all xs)

capability_comp-IsOrder : IsOrder (λ c. true) capability_comp
unfolding capability_comp
capability_comp-IsOrder = record {
  irreflexive = λ a t. ground arith;
  asymmetric = λ a b t u h. ground arith;
  cotransitive = λ a b c t u v h k. ground arith;
}

-- A capability that has not expired.
abbrev pub is_good : ℕ → Capability → Bool
is_good now c = leb now c.timeout

module _ (params : Params) (capa : CapabilityParams) (store : Capabilities) (now : ℕ) where
  -- The queue afterwards holds the capabilities that have not expired, and the answer says whether
  -- there are any; if so, the first one is good, and none comes before it.
  pub record Held (q : store.Carrier) (has : Bool) (q' : store.Carrier) : Type 0 where
    pub kept :
        (test : Capability → Bool)
        → count (λ c. is_good now c && test c) (store.contents q')
          ≡ count (λ c. is_good now c && test c) (store.contents q)
    pub says : has ≡ ltb 0 (count (is_good now) (store.contents q))
    pub emptied : has ≡ false → length (store.contents q') ≡ 0
    pub front :
        has ≡ true
        → (c : Capability) × (rest : store.Carrier) × (store.take q' ≡ some (c, rest))
          × (now ≤ c.timeout)
          × (count (capability_comp c) (store.contents rest) ≡ 0)

  stop_none :
      (n : ℕ) (q : store.Carrier)
      → store.take q ≡ none
      → has_loop params capa store now (suc n) q ≡ some (false, q)
  unfolding has_loop
  stop_none n q e = rw (e, has_loop)

  stop_good :
      (n : ℕ) (q : store.Carrier) (c : Capability) (rest : store.Carrier)
      → store.take q ≡ some (c, rest)
      → ltb c.timeout now ≡ false
      → has_loop params capa store now (suc n) q ≡ some (true, q)
  unfolding has_loop
  stop_good n q c rest e good = rw (e, good, has_loop)

  drop_old :
      (n : ℕ) (q : store.Carrier) (c : Capability) (rest : store.Carrier)
      → store.take q ≡ some (c, rest)
      → ltb c.timeout now ≡ true
      → has_loop params capa store now (suc n) q ≡ has_loop params capa store now n rest
  unfolding has_loop
  drop_old n q c rest e old = rw (e, old, has_loop)

  fewer :
      (q : store.Carrier) (c : Capability) (rest : store.Carrier)
      → store.take q ≡ some (c, rest)
      → length (store.contents rest) + 1 ≡ length (store.contents q)
  fewer q c rest e = omega (
    arith,
    count_all (store.contents q),
    count_all (store.contents rest),
    store.count-take (λ x. true) q c rest e,
  )

  Held-old :
      (q : store.Carrier) (c : Capability) (rest q' : store.Carrier) (has : Bool)
      → store.take q ≡ some (c, rest)
      → ltb c.timeout now ≡ true
      → Held rest has q'
      → Held q has q'
  Held-old q c rest q' has e old h = record {
    kept = λ test.
        let all = store.count-take (λ d. is_good now d && test d) q c rest e in
        let here = h.kept test in ground (arith, all, here, old);
    says =
        let all = store.count-take (is_good now) q c rest e in
        let none_here : is_good now c ≡ false = ground arith in
        h.says ∙ ap (λ n. ltb 0 n) (ground (arith, all, none_here));
    emptied = h.emptied;
    front = h.front;
  }

  has_loop-Held :
      (n : ℕ) (q : store.Carrier)
      → length (store.contents q) < n
      → (has : Bool) × (q' : store.Carrier) × (has_loop params capa store now n q ≡ some (has, q'))
        × Held q has q'
  has_loop-Held zero q h = absurd (omega arith)
  has_loop-Held (suc n) q h = elim (Option-cases (store.take q)) [
    | inl e ↦ (
      false,
      q,
      stop_none n q e,
      record {
        kept = λ test. refl;
        says = let nothing = store.take-none (is_good now) q e in ground (arith, nothing);
        emptied = λ no_more. sym (count_all (store.contents q)) ∙ store.take-none (λ x. true) q e;
        front = λ has. absurd (cc);
      },
    )
    | inr ((c, rest), e) ↦ elim (Bool-cases (ltb c.timeout now)) [
      | inl old ↦
          let (has, q', runs, held) = has_loop-Held n rest (omega (arith, fewer q c rest e)) in
          (has, q', drop_old n q c rest e old ∙ runs, Held-old q c rest q' has e old held)
      | inr good ↦ (
        true,
        q,
        stop_good n q c rest e good,
        record {
          kept = λ test. refl;
          says = let all = store.count-take (is_good now) q c rest e in ground (arith, all, good);
          emptied = λ no_more. absurd (cc);
          front = λ has.
              (c, rest, e, ground arith, take-least store capability_comp-IsOrder q c rest e);
        },
      )
    ]
  ]

  module _ (f : CapabilityFlow store) where
    -- The packet has the numbers of a capability that has not expired, and none that the flow holds
    -- expires before it.
    abbrev pub Uses : CapabilityFlow store → Type 0
    Uses g =
        (p : DataPacket) × (h : CapabilityFlow store) × (c : Capability) × (send_pending_data params
            capa store now none g
          ≡ some (p, h))
        × (p.capa_data_seq ≡ c.data_seq_num)
        × (p.capability_seq_num_in_data ≡ c.seq_num)
        × (now ≤ c.timeout)
        × (count (capability_comp c) (store.contents h.capabilities) ≡ 0)

    has_runs :
        (has : Bool) (q : store.Carrier)
        → has_loop params capa store now
            (suc (length (store.contents f.capabilities)))
            f.capabilities
          ≡ some (has, q)
        → has_capability params capa store now f ≡ some (has, record f { capabilities = q })
    unfolding has_capability
    has_runs has q runs = rw runs

    abbrev packet : Capability → DataPacket
    packet c = record {
      seq_no = f.next_seq_no;
      size = 1500;
      pf_priority = priority_of params capa store f;
      capability_seq_num_in_data = c.seq_num;
      capa_data_seq = c.data_seq_num;
      ranking_round = negsuc 0;
    }

    abbrev after : store.Carrier → CapabilityFlow store
    after rest =
        let next = add32 f.next_seq_no params.mss in
        record f {
          capabilities = rest;
          next_seq_no = if leb next f.size then next else f.size;
          latest_data_pkt_send_time = now;
          total_pkt_sent = f.total_pkt_sent + 1;
        }

    send_runs :
        (q rest : store.Carrier) (c : Capability)
        → store.take q ≡ some (c, rest)
        → now ≤ c.timeout
        → send_pending_data params capa store now none (record f { capabilities = q })
          ≡ some (packet c, after rest)
    unfolding send_pending_data use_capability
    send_runs q rest c e good = rw (e, le→leb now c.timeout good)

    -- `has_capability` ends, keeps the capabilities that have not expired and says whether there
    -- are any. When it says yes, the call of `send_pending_data` after it, at a host with no event,
    -- hits no assert: it sends a packet with the numbers of a capability that has not expired, and of those that the flow
    -- holds none expires before it. When it says no, no capability is left.
    pub has_capability-Uses :
        (has : Bool) × (g : CapabilityFlow store) × (has_capability params capa store now f
          ≡ some (has, g))
        × Held f.capabilities has g.capabilities
        × (has ≡ true → Uses g)
    has_capability-Uses =
        let (has, q, runs, held) =
          has_loop-Held (suc (length (store.contents f.capabilities))) f.capabilities
            (omega arith) in
        (
          has,
          record f { capabilities = q },
          has_runs has q runs,
          held,
          λ says_has.
              let (c, rest, e, good, first) = held.front says_has in
              (packet c, after rest, c, send_runs q rest c e good, refl, refl, good, first),
        )
