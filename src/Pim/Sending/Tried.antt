-- ===== src/Pim/Sending/Tried.antt =====
-- What the body of the loop of `PimHost::send` does with a flow: no assert fails, and the flow waits or
-- sends the packet that comes next.
use ruf.Prelude.{
  ℕ, suc, ◌+◌, ◌≡◌, ◌∙◌, refl, sym, ap, inl, inr, true, false, none, some, leb, Bool-cases, arith,
}
use ruf.Prelude.Int.{ℤ, pos, ltb_ℤ, leb_ℤ, -ℤ_parts}
use ruf.Prelude.Faults.{◌>>=◌}
use ruf.Params.{Params, packet_priority}
use ruf.Pim.{PimParams, PimFlow, PimPacket, get_next_data_seq_num, gap, relax_gap, is_acked}
use ruf.Pim
use ruf.Pim.Host.{in_timeout}
use ruf.Pim.Acks.{IsConsistent}
use ruf.Pim.Next.{IsNext, search_start, get_next_data_seq_num-IsNext}
use ruf.Pim.Sending.{
  Attempt, earlier, end_timeout, window_timeout, open_window, set_timeout, send_in_window, attempt,
}
use ruf.Pim.Sending.Window.{
  retimed, in_flight, InOrder, gap-InOrder, end_timeout-retimed, free, full, open_window-Opened,
}

module _ (params : Params) (pim : PimParams) (now : ℕ) where
  -- The flow after its packet.
  abbrev after_packet : PimFlow → (level d : ℕ) → PimFlow
  unfolding Pim.send
  after_packet f level d = (Pim.send now level d f).1

  sent-InOrder : (f : PimFlow) (level d : ℕ) → InOrder f → InOrder (after_packet f level d)
  unfolding Pim.send
  sent-InOrder f level d h = ground (
    arith,
    -ℤ_parts (pos f.next_seq_no) f.largest_seq_ack,
    -ℤ_parts (pos (f.next_seq_no + 1)) f.largest_seq_ack,
  )

  -- What an attempt that sends has done: one packet, the next one that is not acknowledged, under the
  -- next number and with the priority of the flow.
  pub record Sends (f : PimFlow) (closet : ℤ) (level : ℕ) (a : Attempt) : Type 0 where
    pub p : PimPacket
    pub is_sent : a.packet ≡ some p
    pub next : IsNext f (search_start f) p.capa_data_seq
    pub numbered : p.seq_no ≡ f.next_seq_no
    pub priority : p.pf_priority ≡ level
    pub counted : a.flow.next_seq_no ≡ f.next_seq_no + 1
    pub remembered : a.flow.last_data_seq_num_sent ≡ pos p.capa_data_seq
    pub kept : IsConsistent a.flow
    pub more : is_acked a.flow ≡ false
    pub same_size : a.flow.size_in_pkt ≡ f.size_in_pkt
    pub in_order : InOrder a.flow
    pub in_window : leb_ℤ (in_flight a.flow) (pos (pim.pim_window_size + 1)) ≡ true
    pub same_closet : a.closet_timeout ≡ closet

  -- A flow in its timeout waits for it, one whose window is full for the end of that, and any other
  -- sends.
  pub data Attempted (f : PimFlow) (closet : ℤ) (level : ℕ) : Type 0 where
    waits :
        in_timeout now f ≡ true
        → attempt params pim now none f closet
          ≡ some (record {
            flow = f;
            packet = none;
            closet_timeout = earlier f.redundancy_ctrl_timeout closet;
          })
        → Attempted f closet level
    window_full :
        leb_ℤ (in_flight f) (pos pim.pim_window_size) ≡ false
        → ltb_ℤ (pos now) (window_timeout params pim now f) ≡ true
        → attempt params pim now none f closet
          ≡ some (record {
            flow = end_timeout f;
            packet = none;
            closet_timeout = earlier (window_timeout params pim now f) closet;
          })
        → Attempted f closet level
    sends :
        (a : Attempt)
        → in_timeout now f ≡ false
        → attempt params pim now none f closet ≡ some a
        → Sends f closet level a
        → Attempted f closet level

  attempt_late :
      (f g : PimFlow) (closet closet' : ℤ)
      → in_timeout now f ≡ false
      → open_window params pim now (end_timeout f) closet ≡ some (g, closet')
      → attempt params pim now none f closet ≡ send_in_window params pim now none g closet'
  unfolding attempt
  attempt_late f g closet closet' late opens = rw (late, opens)

  send_in_window-full :
      (f : PimFlow) (closet : ℤ)
      → InOrder f
      → leb_ℤ (in_flight f) (pos pim.pim_window_size) ≡ false
      → send_in_window params pim now none f closet
        ≡ some (record { flow = f; packet = none; closet_timeout = closet })
  unfolding send_in_window
  send_in_window-full f closet h shut = rw (gap-InOrder f h, ◌>>=◌, shut)

  send_in_window-sent :
      (f : PimFlow) (closet : ℤ) (level d d' : ℕ)
      → InOrder f
      → leb_ℤ (in_flight f) (pos pim.pim_window_size) ≡ true
      → get_next_data_seq_num f ≡ some d
      → get_next_data_seq_num (after_packet f level d) ≡ some d'
      → packet_priority (suc f.size_in_pkt) f.size_in_pkt pim.pim_small_flow ≡ some level
      → send_in_window params pim now none f closet
        ≡ some (record {
          flow = set_timeout params pim now d d' (after_packet f level d);
          packet = some (Pim.send now level d f).0;
          closet_timeout = closet;
        })
  unfolding send_in_window Pim.send
  send_in_window-sent f closet level d d' h room e e' p =
      rw (gap-InOrder f h, ◌>>=◌, room, e, p, e')

  sent-in_window :
      (f : PimFlow) (level d : ℕ)
      → leb_ℤ (in_flight f) (pos pim.pim_window_size) ≡ true
      → leb_ℤ (in_flight (after_packet f level d)) (pos (pim.pim_window_size + 1)) ≡ true
  unfolding Pim.send
  sent-in_window f level d h = ground (
    arith,
    -ℤ_parts (pos f.next_seq_no) f.largest_seq_ack,
    -ℤ_parts (pos (f.next_seq_no + 1)) f.largest_seq_ack,
  )

  retimed-IsConsistent :
      (f : PimFlow) (timeout largest : ℤ)
      → IsConsistent f
      → IsConsistent (retimed f timeout largest)
  retimed-IsConsistent f timeout largest c = record { counted = c.counted; until = c.until }

  -- A test of `next` that writes the timeout alone.
  set_timeout-fields :
      (f : PimFlow) (sent next : ℕ)
      → (t : ℤ) × (set_timeout params pim now sent next f ≡ retimed f t f.largest_seq_ack)
  set_timeout-fields f sent next = elim (Bool-cases (leb next sent)) [
    | inl around ↦ (pos (now + pim.pim_resend_timeout), rw around)
    | inr on ↦ (f.redundancy_ctrl_timeout, rw on)
  ]

  try-Sends :
      (f : PimFlow) (closet : ℤ) (level : ℕ) (t largest : ℤ)
      → IsConsistent f
      → is_acked f ≡ false
      → packet_priority (suc f.size_in_pkt) f.size_in_pkt pim.pim_small_flow ≡ some level
      → InOrder (retimed f t largest)
      → leb_ℤ (in_flight (retimed f t largest)) (pos pim.pim_window_size) ≡ true
      → (a : Attempt) × (send_in_window params pim now none (retimed f t largest) closet ≡ some a)
        × Sends f closet level a
  unfolding Pim.send is_acked
  try-Sends f closet level t largest c more prio order room =
      let g = retimed f t largest in
      let c' = retimed-IsConsistent f t largest c in
      let (d, e, next) = get_next_data_seq_num-IsNext g c' more in
      let c'' : IsConsistent (after_packet g level d) = record {
        counted = c.counted;
        until = c.until;
      } in
      let (d', e', next') = get_next_data_seq_num-IsNext (after_packet g level d) c'' more in
      let (t', timed) = set_timeout-fields (after_packet g level d) d d' in
      (
        record {
          flow = retimed (after_packet g level d) t' largest;
          packet = some (Pim.send now level d g).0;
          closet_timeout = closet;
        },
        send_in_window-sent g closet level d d' order room e e' prio
            ∙ ap
                (λ h. some (record {
                  flow = h;
                  packet = some (Pim.send now level d g).0;
                  closet_timeout = closet;
                }))
                timed,
        record {
          p = (Pim.send now level d g).0;
          is_sent = refl;
          next = record { inside = next.inside; wanted = next.wanted; chosen = next.chosen };
          numbered = refl;
          priority = refl;
          counted = refl;
          remembered = refl;
          kept = record { counted = c.counted; until = c.until };
          more = more;
          same_size = refl;
          in_order = sent-InOrder g level d order;
          in_window = sent-in_window g level d room;
          same_closet = refl;
        },
      )

  attempt_waits :
      (f : PimFlow) (closet : ℤ) (level : ℕ) → in_timeout now f ≡ true → Attempted f closet level
  unfolding attempt
  attempt_waits f closet level early = waits early (rw early)

  attempt_full :
      (f : PimFlow) (closet : ℤ) (level : ℕ) (t : ℤ)
      → in_timeout now f ≡ false
      → end_timeout f ≡ retimed f t f.largest_seq_ack
      → InOrder f
      → open_window params pim now (retimed f t f.largest_seq_ack) closet
        ≡ some (retimed f t f.largest_seq_ack, earlier (window_timeout params pim now f) closet)
      → leb_ℤ (in_flight f) (pos pim.pim_window_size) ≡ false
      → leb_ℤ (window_timeout params pim now f) (pos now) ≡ false
      → Attempted f closet level
  attempt_full f closet level t late ended h opens shut early =
      let g = retimed f t f.largest_seq_ack in
      let closet' = earlier (window_timeout params pim now f) closet in
      window_full shut (ground (arith, early)) (
        attempt_late f g closet closet' late
          (ap (λ r. open_window params pim now r closet) ended ∙ opens)
        ∙ send_in_window-full g closet' h shut
        ∙ ap (λ r. some (record { flow = r; packet = none; closet_timeout = closet' })) (sym ended))

  -- For a flow whose counts are right, with a packet that is not acknowledged, no number acknowledged
  -- that it has not sent, and a priority, the attempt returns with no assert failed. A flow in its
  -- timeout is left alone. One whose window is full and which sent lately only has its timeout
  -- reset when that is over; the time at which it may go on lies ahead. Any other flow sends
  -- exactly one packet: the next one that is not acknowledged, with the next number and the
  -- priority of the flow. Its counts are right after that, and the window holds at most one packet
  -- more than its size.
  pub attempt-Attempted :
      (f : PimFlow) (closet : ℤ) (level : ℕ)
      → IsConsistent f
      → is_acked f ≡ false
      → InOrder f
      → packet_priority (suc f.size_in_pkt) f.size_in_pkt pim.pim_small_flow ≡ some level
      → Attempted f closet level
  attempt-Attempted f closet level c more order prio =
      let (t, ended) = end_timeout-retimed f in
      let g = retimed f t f.largest_seq_ack in
      elim (Bool-cases (in_timeout now f)) [
        | inl early ↦ attempt_waits f closet level early
        | inr late ↦ elim (open_window-Opened params pim now g closet order) [
          | full opens shut early ↦ attempt_full f closet level t late ended order opens shut early
          | free largest opens order' room ↦
              let (a, runs, sent) = try-Sends f closet level t largest c more prio order' room in
              sends a late
                (attempt_late f (retimed f t largest) closet closet late
                    (ap (λ r. open_window params pim now r closet) ended ∙ opens)
                  ∙ runs)
                sent
        ]
      ]
