-- ===== src/Flow/Window.antt =====
-- `send_pending_data` of simulator/coresim/flow.cpp: its loop ends, and stays in the window.
use ruf.Prelude.{
  ℕ, zero, suc, ◌+◌, ◌-◌, ◌≤◌, ◌<◌, ◌≡◌, refl, ap, ◌∙◌, ◌⊎◌, inl, inr, true, false, List, [], ◌∷◌,
  ◌++◌, Option, some, All, ltb, Bool-cases, Option-cases, lt→ltb, arith,
}
use ruf.Prelude.Faults.{◌>>=◌}
use ruf.Prelude.Slots.{contains}
use ruf.Prelude.Words.{word, add32, sub32}
use ruf.Flow.{
  Flow, Segment, Priority, send, send_one, send_loop, send_pending_data, may_send, next_seq, window,
  set_timeout, run_timer,
}

-- The end of the window.
abbrev pub limit : Flow → ℕ
limit f = add32 f.last_unacked_seq (window f)

-- The segment is the flow's, ends in the window, and has not arrived.
abbrev pub InWindow : Flow → Segment → Type 0
InWindow f p =
    (p.seq_no < f.size) × (p.seq_no + f.mss ≤ limit f) × (contains f.received p.seq_no ≡ false)

-- The numbers go up, from `s` on.
abbrev pub Rising : ℕ → List Segment → Type 0
Rising s [] = Unit
Rising s (p ∷ ps) = (s ≤ p.seq_no) × Rising (p.seq_no + 1) ps

abbrev pub sent_state : Flow → ℕ → Option ℕ → ℕ → Flow
sent_state f next timer count = record f {
  next_seq_no = next;
  retx_event = timer;
  total_pkt_sent = count;
}

Rising-le : (s t : ℕ) (ps : List Segment) → s ≤ t → Rising t ps → Rising s ps
Rising-le s t [] h r = tt
Rising-le s t (p ∷ ps) h r = (omega (arith, r.0), r.1)

module _ (prio : Priority) (now : ℕ) where
  -- Starting the timer, unless it runs, changes nothing else.
  timed : (x : Flow) → (timer : Option ℕ) × (run_timer prio now x ≡ record x { retx_event = timer })
  unfolding run_timer set_timeout
  timed x = elim (Option-cases x.retx_event) [
    | inr (e, runs) ↦ (x.retx_event, rw runs)
    | inl idle ↦ elim (Bool-cases (ltb x.last_unacked_seq x.size)) [
      | inl more ↦ (some (now + x.retx_timeout), rw (idle, more))
      | inr all ↦ (x.retx_event, rw (idle, all))
    ]
  ]

  abbrev Moves : ℕ → Flow → List Segment → Type 0
  Moves seq f out =
      (timer : Option ℕ) × (count : ℕ) × (send_one prio now seq f
        ≡ (out, sent_state f (next_seq seq f) timer count))

  send_one_old : (seq : ℕ) (f : Flow) → contains f.received seq ≡ true → Moves seq f []
  unfolding send_one
  send_one_old seq f h =
      let (timer, e) = timed (record f { next_seq_no = next_seq seq f }) in
      (timer, f.total_pkt_sent, rw (h, send_one) (ap (λ y. ([], y)) e))

  send_one_new :
      (seq : ℕ) (f : Flow)
      → contains f.received seq ≡ false
      → Moves seq f ((send prio seq f).0 ∷ [])
  unfolding send_one send
  send_one_new seq f h =
      let (timer, e) =
        timed
          (record f { next_seq_no = next_seq seq f; total_pkt_sent = add32 f.total_pkt_sent 1 }) in
      (
        timer,
        add32 f.total_pkt_sent 1,
        rw (h, send_one) (ap (λ y. ((send prio seq f).0 ∷ [], y)) e),
      )

  -- What the loop sends from `seq` on, and where it stops: at the flow's end or the window's.
  pub record Sends (seq : ℕ) (f : Flow) (out : List Segment) (g : Flow) : Type 0 where
    pub in_window : All (InWindow f) out
    pub rising : Rising seq out
    pub reached : seq ≤ g.next_seq_no
    pub within : g.next_seq_no ≤ f.size
    pub stops : (g.next_seq_no ≡ f.size) ⊎ (limit f < g.next_seq_no + f.mss)
    pub timer : Option ℕ
    pub count : ℕ
    pub same : g ≡ sent_state f g.next_seq_no timer count

  loop_stops :
      (n seq : ℕ) (f : Flow)
      → may_send seq f ≡ false
      → send_loop prio now (suc n) seq f ≡ some ([], f)
  unfolding send_loop
  loop_stops n seq f h = rw (h, send_loop)

  loop_goes :
      (n seq : ℕ) (f k : Flow) (more : List Segment)
      → may_send seq f ≡ true
      → send_loop prio now n (next_seq seq f) (send_one prio now seq f).1 ≡ some (more, k)
      → send_loop prio now (suc n) seq f ≡ some ((send_one prio now seq f).0 ++ more, k)
  unfolding send_loop
  loop_goes n seq f k more h rest = rw (h, send_loop, ◌>>=◌, rest)

  loop_sends :
      (n seq : ℕ) (f g k : Flow) (out more : List Segment)
      → may_send seq f ≡ true
      → send_one prio now seq f ≡ (out, g)
      → send_loop prio now n (next_seq seq f) g ≡ some (more, k)
      → send_loop prio now (suc n) seq f ≡ some (out ++ more, k)
  loop_sends n seq f g k out more h one rest =
      loop_goes n seq f k more h (ap (λ r. send_loop prio now n (next_seq seq f) r.1) one ∙ rest)
      ∙ ap (λ r. some (r.0 ++ more, k)) one

  module _ (seq : ℕ) (f k : Flow) (more : List Segment) (timer : Option ℕ) (count : ℕ)
      (up : seq < next_seq seq f)
      (s : Sends (next_seq seq f) (sent_state f (next_seq seq f) timer count) more k) where
    Sends-old : Sends seq f more k
    Sends-old = record {
      in_window = s.in_window;
      rising = Rising-le seq (next_seq seq f) more (omega arith) s.rising;
      reached = omega (arith, s.reached);
      within = s.within;
      stops = s.stops;
      timer = s.timer;
      count = s.count;
      same = s.same;
    }

    Sends-new : (p : Segment) → p.seq_no ≡ seq → InWindow f p → Sends seq f (p ∷ more) k
    Sends-new p e ok = record {
      in_window = (ok, s.in_window);
      rising = (
        omega (arith, e),
        Rising-le (p.seq_no + 1) (next_seq seq f) more (omega (arith, e)) s.rising,
      );
      reached = omega (arith, s.reached);
      within = s.within;
      stops = s.stops;
      timer = s.timer;
      count = s.count;
      same = s.same;
    }

module _ (seq : ℕ) (f : Flow) (small : 0 < f.mss) (sized : f.size + f.mss < word)
    (le : seq ≤ f.size) where
  add_mss : add32 seq f.mss ≡ seq + f.mss
  add_mss = omega arith

  left : sub32 f.size seq ≡ f.size - seq
  left = omega arith

  may_send_yes : may_send seq f ≡ true → (seq < f.size) × (seq + f.mss ≤ limit f)
  unfolding may_send
  may_send_yes h = ground (arith, add_mss)

  may_send_no : may_send seq f ≡ false → (seq ≡ f.size) ⊎ (limit f < seq + f.mss)
  unfolding may_send
  may_send_no h = ground (arith, add_mss, left)

  next_seq-lt : seq < f.size → (seq < next_seq seq f) × (next_seq seq f ≤ f.size)
  next_seq-lt lt = ground (arith, add_mss)

module _ (prio : Priority) (now : ℕ) where
  abbrev Returns : ℕ → ℕ → Flow → Type 0
  Returns n seq f =
      (out : List Segment) × (g : Flow) × (send_loop prio now n seq f ≡ some (out, g))
      × Sends prio now seq f out g

  Sends-end :
      (seq : ℕ) (f : Flow)
      → f.next_seq_no ≡ seq
      → seq ≤ f.size
      → (seq ≡ f.size) ⊎ (limit f < seq + f.mss)
      → Sends prio now seq f [] f
  Sends-end seq f at_next le ends = record {
    in_window = tt;
    rising = tt;
    reached = omega arith;
    within = omega arith;
    stops = ground arith;
    timer = f.retx_event;
    count = f.total_pkt_sent;
    same = refl;
  }

  send_loop-Sends :
      (n seq : ℕ) (f : Flow)
      → 0 < f.mss
      → f.size + f.mss < word
      → seq ≤ f.size
      → f.next_seq_no ≡ seq
      → f.size < n + seq
      → Returns n seq f
  unfolding send
  send_loop-Sends zero seq f small sized le at_next fuel = absurd (omega arith)
  send_loop-Sends (suc n) seq f small sized le at_next fuel = elim (Bool-cases (may_send seq f)) [
    | inr ended ↦ (
      [],
      f,
      loop_stops prio now n seq f ended,
      Sends-end seq f at_next le (may_send_no seq f small sized le ended),
    )
    | inl go_on ↦
        let (lt, before) = may_send_yes seq f small sized le go_on in
        let (up, le') = next_seq-lt seq f small sized le lt in
        elim (Bool-cases (contains f.received seq)) [
          | inl old ↦
              let (timer, count, one) = send_one_old prio now seq f old in
              let (more, k, runs, s) =
                send_loop-Sends n (next_seq seq f) (sent_state f (next_seq seq f) timer count) small
                  sized le' refl (omega arith) in
              (
                more,
                k,
                loop_sends prio now n seq f _ k [] more go_on one runs,
                Sends-old prio now seq f k more timer count up s,
              )
          | inr new ↦
              let (timer, count, one) = send_one_new prio now seq f new in
              let (more, k, runs, s) =
                send_loop-Sends n (next_seq seq f) (sent_state f (next_seq seq f) timer count) small
                  sized le' refl (omega arith) in
              let p = (send prio seq f).0 in
              (
                p ∷ more,
                k,
                loop_sends prio now n seq f _ k (p ∷ []) more go_on one runs,
                Sends-new prio now seq f k more timer count up s p refl (lt, before, new),
              )
        ]
  ]

  -- While data is missing at the receiver, with packets of some size, the next number at most the
  -- flow's size, and no sum of the flow's size and the packet size that wraps, `send_pending_data`
  -- returns. Each packet that it sends starts in the flow, ends in the window and has not arrived,
  -- and their numbers go up from the next one; it stops at the flow's end or when another packet
  -- would leave the window, and changes only the next number, the timer and the count of packets.
  pub send_pending_data-Sends :
      (f : Flow)
      → f.received_bytes < f.size
      → 0 < f.mss
      → f.size + f.mss < word
      → f.next_seq_no ≤ f.size
      → (out : List Segment) × (g : Flow) × (send_pending_data prio now f ≡ some (out, g))
        × Sends prio now f.next_seq_no f out g
  unfolding send_pending_data
  send_pending_data-Sends f missing small sized le =
      let (out, g, runs, s) =
        send_loop-Sends (suc f.size) f.next_seq_no f small sized le refl (omega arith) in
      (out, g, rw (lt→ltb f.received_bytes f.size missing) runs, s)
