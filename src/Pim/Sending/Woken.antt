-- ===== src/Pim/Sending/Woken.antt =====
-- `PimHost::send` when its queue is free: it fails no assert, and unless it sends, an event wakes the
-- host up in time for every flow that waits.
use ruf.Prelude.{
  ℕ, zero, suc, ◌+◌, ◌<◌, ◌≡◌, ◌∙◌, refl, sym, ap, subst, inl, inr, true, false, List, [], ◌∷◌,
  ◌++◌, Option, none, some, length, Bool-cases, Option-cases, arith, All, All-map,
}
use ruf.Prelude.Int.{ℤ, pos, pos_part, ltb_ℤ, leb_ℤ}
use ruf.Prelude.Faults.{◌>>=◌}
use ruf.Params.{Params, infinitesimal_time}
use ruf.PriorityQueue
use ruf.PriorityQueue.{PriorityQueue}
use ruf.PriorityQueue.Best.{pop-top}
use ruf.PriorityQueue.Drain.{Popped-length}
use ruf.Links.{get_transmission_delay}
use ruf.Ranking.Host.{find, put, push_all}
use ruf.Pim.{PimParams, PimFlow, PimPacket}
use ruf.Pim.Host.{PimHost, pim_comp, in_timeout, unfinish_loop, get_top_unfinish_flow}
use ruf.Pim.Sending.{Scan, scan, no_timeout, large_flow, next_event, send_one, send}
use ruf.Pim.Sending.Rounds.{pim_comp-IsStrictWeak, one_if_some}
use ruf.Pim.Sending.Served.{AllCanTry, Waits, Waits-mono, Served, scan-Serves}

module _ (params : Params) (pim : PimParams) (now : ℕ) (flows : ℕ → PimFlow) where
  abbrev Found : (fuel : ℕ) (best : Option ℕ) → PriorityQueue ℕ → List ℕ → Type 0
  Found n best q tried =
      (r : Option ℕ × PriorityQueue ℕ × List ℕ) × (unfinish_loop params pim flows now n best q tried
        ≡ some r)

  unfinish_loop-Found :
      (n : ℕ) (best : Option ℕ) (q : PriorityQueue ℕ) (tried : List ℕ)
      → length q.v < n
      → Found n best q tried
  unfolding unfinish_loop
  unfinish_loop-Found zero best q tried h = absurd (omega (arith, h))
  unfinish_loop-Found (suc n) best q tried h = elim (Bool-cases (PriorityQueue.empty q)) [
    | inl e ↦ ((best, q, tried), rw (e, unfinish_loop))
    | inr filled ↦
        let (b, k, r, top_runs, pop_runs, popped) =
          pop-top (pim_comp flows) (pim_comp-IsStrictWeak flows) q filled in
        let less : length r.v < n = omega (arith, h, Popped-length popped) in
        elim (Bool-cases (flows b).finished) [
          | inl over ↦
              let (res, e) = unfinish_loop-Found n none r tried less in
              (res, rw (filled, top_runs, unfinish_loop, ◌>>=◌, over, pop_runs) e)
          | inr more ↦ elim (Bool-cases (in_timeout now (flows b))) [
            | inl early ↦
                let (res, e) = unfinish_loop-Found n (some b) r (tried ++ b ∷ []) less in
                (res, rw (filled, top_runs, unfinish_loop, ◌>>=◌, more, early, pop_runs) e)
            | inr late ↦ (
              (some b, record q { best_index = pos k }, tried),
              rw (filled, top_runs, unfinish_loop, ◌>>=◌, more, late),
            )
          ]
        ]
  ]

  -- What `large_flow` leaves of the host.
  record Topped (h : PimHost) (large : Option ℕ) (h' : PimHost) : Type 0 where
    runs : large_flow params pim now flows h ≡ some (large, h')
    short : h'.active_short_flows ≡ h.active_short_flows
    event : h'.host_proc_event ≡ h.host_proc_event
    link : h'.link ≡ h.link

  top-Found :
      (dst : ℕ) (h : PimHost)
      → (large : Option ℕ) × (kept : List (ℕ × PriorityQueue ℕ)) × (get_top_unfinish_flow params pim
            flows now dst h
          ≡ some (large, record h { dst_to_flows = kept }))
  unfolding get_top_unfinish_flow PriorityQueue.size
  top-Found dst h = elim (Option-cases (find dst h.dst_to_flows)) [
    | inl empty ↦ (none, h.dst_to_flows, simp (empty, get_top_unfinish_flow))
    | inr (q, found) ↦
        let ((best, q', tried), e) =
          unfinish_loop-Found (suc (length q.v)) none q [] (omega arith) in
        (best, put dst (push_all q' tried) h.dst_to_flows, simp (found, e, get_top_unfinish_flow))
  ]

  large_flow-Topped : (h : PimHost) → (large : Option ℕ) × (h' : PimHost) × Topped h large h'
  unfolding large_flow
  large_flow-Topped h = elim (Option-cases h.receiver) [
    | inl idle ↦ (
      none,
      h,
      record { runs = simp (idle, large_flow); short = refl; event = refl; link = refl },
    )
    | inr (dst, busy) ↦
        let (large, kept, e) = top-Found dst h in
        (
          large,
          record h { dst_to_flows = kept },
          record { runs = simp (busy, large_flow, e); short = refl; event = refl; link = refl },
        )
  ]

  -- The event of the host afterwards. If a packet is sent, it comes when that has left; if not, at a
  -- time ahead that no waiting flow needs an earlier one for, or there is none, and no flow
  -- waits for less than `no_timeout`.
  pub data Woken (h : PimHost) (large : Option ℕ) (h' : PimHost)
      : Option (ℕ × PimPacket) → Type 0 where
    after_packet :
        (f : ℕ) (p : PimPacket)
        → h'.host_proc_event
          ≡ some (record {
            time = now + get_transmission_delay h.link p.size + infinitesimal_time;
            is_timeout = false;
          })
        → Woken h large h' (some (f, p))
    in_time :
        (closet : ℤ)
        → ltb_ℤ (pos now) closet ≡ true
        → h'.host_proc_event ≡ some (record { time = pos_part closet; is_timeout = true })
        → All (Waits params pim now closet flows) h.active_short_flows.v
        → ((l : ℕ) → large ≡ some l → Waits params pim now closet flows l)
        → Woken h large h' none
    never :
        h'.host_proc_event ≡ none
        → All (Waits params pim now no_timeout flows) h.active_short_flows.v
        → ((l : ℕ) → large ≡ some l → Waits params pim now no_timeout flows l)
        → Woken h large h' none

  -- A call that returns: the flow that it takes for the receiver, and what it leaves.
  pub record Sends (h : PimHost) : Type 0 where
    pub large : Option ℕ
    pub host_then : PimHost
    pub large_runs : large_flow params pim now flows h ≡ some (large, host_then)
    pub flows' : ℕ → PimFlow
    pub host' : PimHost
    pub packet : Option (ℕ × PimPacket)
    pub runs : send params pim now flows h ≡ some (flows', host', packet)
    pub can_try : AllCanTry params pim now flows'
    pub woken : Woken h large host' packet

  send-send_one :
      (h : PimHost)
      → h.host_proc_event ≡ none
      → h.link.queue.busy ≡ false
      → send params pim now flows h ≡ send_one params pim now flows h
  unfolding send
  send-send_one h quiet free = simp (quiet, free, send)

  -- The host before its event is set.
  abbrev restored : PimHost → Scan → PimHost
  restored h r = record h { active_short_flows = push_all r.queue r.tried }

  abbrev rounds : PimHost → ℕ
  rounds h = suc (suc (length h.active_short_flows.v))

  send_one-runs :
      (h h' h'' : PimHost) (large : Option ℕ) (r : Scan)
      → large_flow params pim now flows h ≡ some (large, h')
      → scan params pim now h'.host_proc_event
          (rounds h')
          flows
          large
          h'.active_short_flows
          []
          no_timeout
        ≡ some r
      → next_event params pim now r (restored h' r) ≡ some h''
      → send_one params pim now flows h ≡ some (r.flows, h'', r.packet)
  unfolding send_one PriorityQueue.size
  send_one-runs h h' h'' large r e s w = rw (e, send_one, ◌>>=◌, s, w)

  module _ (h h' : PimHost) (large : Option ℕ) (t : Topped h large h')
      (quiet : h.host_proc_event ≡ none) (r : Scan)
      (s : Served params pim now flows large h'.active_short_flows.v no_timeout r) where
    abbrev Wakes : Type 0
    Wakes =
        (h'' : PimHost) × (next_event params pim now r (restored h' r) ≡ some h'')
        × Woken h large h'' r.packet

    waiting_here :
        (time : ℤ)
        → leb_ℤ time r.closet_timeout ≡ true
        → r.packet ≡ none
        → All (Waits params pim now time flows) h.active_short_flows.v
    waiting_here time le e =
        subst (λ q. All (Waits params pim now time flows) q.v) t.short
          (All-map h'.active_short_flows.v
            (λ i. Waits-mono params pim now time r.closet_timeout flows i le) (s.waiting e))

    large_here :
        (time : ℤ)
        → leb_ℤ time r.closet_timeout ≡ true
        → r.packet ≡ none
        → (l : ℕ) → large ≡ some l
        → Waits params pim now time flows l
    large_here time le e l is_l =
        Waits-mono params pim now time r.closet_timeout flows l le (s.large_waits e l is_l)

    event_never : r.packet ≡ none → ltb_ℤ r.closet_timeout no_timeout ≡ false → Wakes
    unfolding next_event
    event_never e late =
        let le : leb_ℤ no_timeout r.closet_timeout ≡ true = ground (arith, late) in
        (
          restored h' r,
          rw (e, next_event, late),
          subst (Woken h large (restored h' r)) (sym e)
              (never (t.event ∙ quiet) (waiting_here no_timeout le e) (large_here no_timeout le e)),
        )

    event_timed : r.packet ≡ none → ltb_ℤ r.closet_timeout no_timeout ≡ true → Wakes
    unfolding next_event
    event_timed e soon =
        let ahead : ltb_ℤ (pos now) r.closet_timeout ≡ true = elim s.later [
          | inl is_none ↦ absurd (ground (arith, soon, is_none))
          | inr ahead ↦ ahead
        ] in
        let le : leb_ℤ r.closet_timeout r.closet_timeout ≡ true = ground arith in
        let h'' : PimHost = record (restored h' r) {
          host_proc_event = some (record { time = pos_part r.closet_timeout; is_timeout = true });
        } in
        (
          h'',
          rw (e, next_event, soon, ahead),
          subst (Woken h large h'') (sym e) (
              in_time r.closet_timeout ahead refl (waiting_here r.closet_timeout le e)
                (large_here r.closet_timeout le e)),
        )

    event_sent : (f : ℕ) (p : PimPacket) → r.packet ≡ some (f, p) → Wakes
    unfolding next_event
    event_sent f p e =
        let h'' : PimHost = record (restored h' r) {
          host_proc_event = some (record {
            time = now + get_transmission_delay h'.link p.size + infinitesimal_time;
            is_timeout = false;
          });
        } in
        (
          h'',
          rw (e, next_event),
          subst (Woken h large h'') (sym e) (
              after_packet f p (
                ap
                  (λ l. some (record {
                    time = now + get_transmission_delay l p.size + infinitesimal_time;
                    is_timeout = false;
                  }))
                  t.link)),
        )

    event-Wakes : Wakes
    event-Wakes = elim (Option-cases r.packet) [
      | inr ((f, p), e) ↦ event_sent f p e
      | inl e ↦ elim (Bool-cases (ltb_ℤ r.closet_timeout no_timeout)) [
        | inl soon ↦ event_timed e soon
        | inr late ↦ event_never e late
      ]
    ]

  one_if_some_le : (o : Option ℕ) (n : ℕ) → n + one_if_some o < suc (suc n)
  one_if_some_le none n = omega arith
  one_if_some_le (some x) n = omega arith

  -- For a host whose queue is free, with no event of its own, and with every flow that is not
  -- finished one whose counts are right, which has a packet that is not acknowledged, no number
  -- acknowledged that it has not sent, and a priority: the call returns with no assert failed, and
  -- the flows are such flows again. If it sends, the next event comes when the packet has left. If
  -- not, each short flow, and the flow taken for the receiver, is finished, in its timeout, or has
  -- a full window, and the event lies ahead and not after the end of any of these waits; there is
  -- none only when they all last for 999999 seconds or more.
  pub send-Sends :
      (h : PimHost)
      → AllCanTry params pim now flows
      → h.host_proc_event ≡ none
      → h.link.queue.busy ≡ false
      → Sends h
  send-Sends h all quiet free =
      let (large, h', t) = large_flow-Topped h in
      let (r, scans, s) =
        scan-Serves params pim now (rounds h') flows large h'.active_short_flows [] no_timeout all
          (one_if_some_le large (length h'.active_short_flows.v)) in
      let (h'', event, woken) = event-Wakes h h' large t quiet r s in
      let at_event =
        subst
          (λ e.
            scan params pim now e (rounds h') flows large h'.active_short_flows [] no_timeout
            ≡ some r)
          (sym (t.event ∙ quiet)) scans in
      record {
        large = large;
        host_then = h';
        large_runs = t.runs;
        flows' = r.flows;
        host' = h'';
        packet = r.packet;
        runs = send-send_one h quiet free ∙ send_one-runs h h' h'' large r t.runs at_event event;
        can_try = s.can_try;
        woken = woken;
      }
