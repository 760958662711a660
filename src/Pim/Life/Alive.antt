-- ===== src/Pim/Life/Alive.antt =====
-- Each step in the life of a flow of PIM leaves a flow that can be tried, and what is on its way has
-- been sent.
use ruf.Prelude.{
  none, ℕ, ◌≤◌, ◌<◌, ◌≡◌, refl, sym, subst, ◌∙◌, inl, inr, true, false, [], ◌∷◌, ◌++◌, some,
  get_elem?, erase_idx, Bool-cases, arith,
}
use ruf.Prelude.{All, All-map, All-erase_idx, All-get_elem?, All-append}
use ruf.Prelude.Int.{ℤ, pos, -ℤ_parts}
use ruf.Prelude.Faults.{some_inj}
use ruf.Params.{Params}
use ruf.Pim.{PimParams, PimFlow, PimPacket, PimAck, receive_data, mark_acked, acknowledge, is_acked}
use ruf.Pim.Host.{PimHost}
use ruf.Pim.Acks.{IsConsistent, acknowledge-IsConsistent}
use ruf.Pim.Sending.{Attempt, attempt, receive_ack, end_timeout, wakes}
use ruf.Pim.Sending.Window.{InOrder, end_timeout-retimed}
use ruf.Pim.Sending.Tried.{Attempted, waits, window_full, sends, Sends}
use ruf.Pim.Life.{Life, add_packet}

-- A packet or an acknowledgement of one that the flow has sent.
abbrev pub Sent : PimFlow → (seq_no data_seq : ℕ) → Type 0
Sent f seq_no data_seq = (seq_no < f.next_seq_no) × (data_seq < f.size_in_pkt)

-- What `attempt` asks of a flow.
pub record IsReady (f : PimFlow) : Type 0 where
  pub consistent : IsConsistent f
  pub more : is_acked f ≡ false
  pub in_order : InOrder f

-- The flow has its size and is ready, and what is on its way has been sent.
pub record IsAlive (size : ℕ) (s : Life) : Type 0 where
  pub sized : s.flow.size_in_pkt ≡ size
  pub ready : IsReady s.flow
  pub data_sent : All (λ p. Sent s.flow p.seq_no p.capa_data_seq) s.data_packets
  pub acks_sent : All (λ a. Sent s.flow a.seq_no a.data_seq_no_acked) s.acks

acknowledge-InOrder :
    (f : PimFlow) (a : PimAck) → a.seq_no < f.next_seq_no → InOrder f → InOrder (acknowledge a f)
unfolding acknowledge mark_acked
acknowledge-InOrder f a h o = ground (
  arith,
  -ℤ_parts (pos f.next_seq_no) f.largest_seq_ack,
  -ℤ_parts (pos f.next_seq_no) (pos a.seq_no),
)

acknowledge-fields :
    (f : PimFlow) (a : PimAck)
    → ((acknowledge a f).next_seq_no ≡ f.next_seq_no)
      × ((acknowledge a f).size_in_pkt ≡ f.size_in_pkt)
unfolding acknowledge mark_acked
acknowledge-fields f a = ground arith

receive_ack-acknowledge :
    (pim : PimParams) (now : ℕ) (a : PimAck) (f : PimFlow) (h : PimHost)
    → (receive_ack pim now a f h).2 ≡ false
    → ((receive_ack pim now a f h).0 ≡ acknowledge a f) × (is_acked (acknowledge a f) ≡ false)
unfolding receive_ack
receive_ack-acknowledge pim now a f h e = elim (Bool-cases (is_acked (acknowledge a f))) [
  | inl done ↦ let no : true ≡ false = rw done at e in cc
  | inr more ↦ elim (Bool-cases (wakes pim now (acknowledge a f) h)) [
    | inl woken ↦ (rw (more, woken), more)
    | inr asleep ↦ (rw (more, asleep), more)
  ]
]

Sent-mono :
    (f g : PimFlow)
    → f.next_seq_no ≤ g.next_seq_no
    → g.size_in_pkt ≡ f.size_in_pkt
    → (n d : ℕ) → Sent f n d
    → Sent g n d
Sent-mono f g le e n d s = (omega (arith, le, s.0), omega (arith, e, s.1))

-- A later flow of the same size, with what is on its way left as it was.
moved-IsAlive :
    {size : ℕ} (s : Life) (g : PimFlow)
    → IsAlive size s
    → IsReady g
    → s.flow.next_seq_no ≤ g.next_seq_no
    → g.size_in_pkt ≡ s.flow.size_in_pkt
    → IsAlive size (record s { flow = g })
moved-IsAlive s g v r le e = record {
  sized = e ∙ v.sized;
  ready = r;
  data_sent =
      All-map s.data_packets (λ p h. Sent-mono s.flow g le e p.seq_no p.capa_data_seq h)
        v.data_sent;
  acks_sent =
      All-map s.acks (λ a h. Sent-mono s.flow g le e a.seq_no a.data_seq_no_acked h) v.acks_sent;
}

pub retimed-IsReady :
    (f : PimFlow) (t : ℤ) → IsReady f → IsReady (record f { redundancy_ctrl_timeout = t })
unfolding is_acked
retimed-IsReady f t r = record {
  consistent = record { counted = r.consistent.counted; until = r.consistent.until };
  more = r.more;
  in_order = r.in_order;
}

end_timeout-IsAlive :
    (size : ℕ) (s : Life) → IsAlive size s → IsAlive size (record s { flow = end_timeout s.flow })
end_timeout-IsAlive size s v =
    let (t, e) = end_timeout-retimed s.flow in
    subst (λ g. IsAlive size (record s { flow = g })) (sym e)
      (moved-IsAlive s (record s.flow { redundancy_ctrl_timeout = t }) v
        (retimed-IsReady s.flow t v.ready) (omega arith) refl)

module _ (params : Params) (pim : PimParams) (now size : ℕ) where
  Sends-IsAlive :
      (s : Life) (closet : ℤ) (level : ℕ) (a : Attempt)
      → IsAlive size s
      → Sends params pim now s.flow closet level a
      → IsAlive size (record s { flow = a.flow; data_packets = add_packet s.data_packets a.packet })
  Sends-IsAlive s closet level a v k =
      let r : IsReady a.flow = record {
        consistent = k.kept;
        more = k.more;
        in_order = k.in_order;
      } in
      let m = moved-IsAlive s a.flow v r (omega (arith, k.counted)) k.same_size in
      let new : Sent a.flow k.p.seq_no k.p.capa_data_seq =
        (omega (arith, k.numbered, k.counted), omega (arith, k.next.inside, k.same_size)) in
      record {
        sized = m.sized;
        ready = r;
        data_sent =
            subst
              (λ o. All (λ p. Sent a.flow p.seq_no p.capa_data_seq) (add_packet s.data_packets o))
              (sym k.is_sent) (All-append _ s.data_packets (k.p ∷ []) m.data_sent (new, tt));
        acks_sent = m.acks_sent;
      }

  pub Attempted-IsAlive :
      (s : Life) (closet : ℤ) (level : ℕ) (a : Attempt)
      → IsAlive size s
      → Attempted params pim now s.flow closet level
      → attempt params pim now none s.flow closet ≡ some a
      → IsAlive size (record s { flow = a.flow; data_packets = add_packet s.data_packets a.packet })
  Attempted-IsAlive s closet level a v o e = elim o [
    | waits early runs ↦
        subst
          (λ b.
            IsAlive size
              (record s { flow = b.flow; data_packets = add_packet s.data_packets b.packet }))
          (some_inj (sym runs ∙ e)) v
    | window_full shut soon runs ↦
        subst
          (λ b.
            IsAlive size
              (record s { flow = b.flow; data_packets = add_packet s.data_packets b.packet }))
          (some_inj (sym runs ∙ e)) (end_timeout-IsAlive size s v)
    | sends b late runs k ↦
        subst
          (λ b.
            IsAlive size
              (record s { flow = b.flow; data_packets = add_packet s.data_packets b.packet }))
          (some_inj (sym runs ∙ e)) (Sends-IsAlive s closet level b v k)
  ]

pub arrival-IsAlive :
    (params : Params) (size now outstanding j : ℕ) (p : PimPacket) (s : Life)
    → get_elem? s.data_packets j ≡ some p
    → IsAlive size s
    → IsAlive size (record {
      flow = (receive_data params now p (s.flow, outstanding)).0;
      data_packets = erase_idx s.data_packets j;
      acks = s.acks ++ (receive_data params now p (s.flow, outstanding)).2 ∷ [];
    })
unfolding receive_data is_acked
arrival-IsAlive params size now outstanding j p s e v =
    let g = (receive_data params now p (s.flow, outstanding)).0 in
    let r : IsReady g = record {
      consistent = record {
        counted = v.ready.consistent.counted;
        until = v.ready.consistent.until;
      };
      more = v.ready.more;
      in_order = v.ready.in_order;
    } in
    let m = moved-IsAlive s g v r (omega arith) refl in
    record {
      sized = m.sized;
      ready = r;
      data_sent = All-erase_idx _ s.data_packets j m.data_sent;
      acks_sent =
          All-append _ s.acks _ m.acks_sent (All-get_elem? _ s.data_packets j p e m.data_sent, tt);
    }

pub acknowledged-IsAlive :
    (pim : PimParams) (size now j : ℕ) (a : PimAck) (h : PimHost) (s : Life)
    → get_elem? s.acks j ≡ some a
    → (receive_ack pim now a s.flow h).2 ≡ false
    → IsAlive size s
    → IsAlive size
        (record s { flow = (receive_ack pim now a s.flow h).0; acks = erase_idx s.acks j })
acknowledged-IsAlive pim size now j a h s e going v =
    let (is_ack, more) = receive_ack-acknowledge pim now a s.flow h going in
    let f = s.flow in
    let sent = All-get_elem? (λ b. Sent f b.seq_no b.data_seq_no_acked) s.acks j a e v.acks_sent in
    let (number, same) = acknowledge-fields f a in
    let r : IsReady (acknowledge a f) = record {
      consistent = acknowledge-IsConsistent f a sent.1 v.ready.consistent;
      more = more;
      in_order = acknowledge-InOrder f a sent.0 v.ready.in_order;
    } in
    let m = moved-IsAlive s (acknowledge a f) v r (omega (arith, number)) same in
    subst (λ g. IsAlive size (record s { flow = g; acks = erase_idx s.acks j })) (sym is_ack)
      (record {
        sized = m.sized;
        ready = r;
        data_sent = m.data_sent;
        acks_sent = All-erase_idx _ s.acks j m.acks_sent;
      })
