-- ===== src/Capability/View.antt =====
-- The receiver of a CapabilityFlow keeps its counts and searches its next packet as a RankingFlow does.
use ruf.Prelude.{
  ℕ, zero, suc, ◌+◌, ◌-◌, ◌*◌, ◌<◌, ◌≡◌, refl, sym, ap, ◌∙◌, subst, List, [], none, some, ltb, leb,
  if◌then◌else◌, Bool-cases, inl, inr,
}
use ruf.Prelude.Int.{pos}
use ruf.Prelude.Slots.{contains}
use ruf.Params.{Params, get_full_pkt_tran_delay}
use ruf.Ranking.Flow.{
  RankingFlow, DataPacket, next_seq_loop, get_next_token_seq_num, receive_data, mark_received,
}
use ruf.Ranking.Flow.Received.{IsConsistent, IsUntil, missing, receive_data-IsConsistent}
use ruf.Ranking.Flow.Next.{IsNext, search_start, get_next_token_seq_num-IsNext}
use ruf.Capability.{
  Capabilities, CapabilityParams, CapabilityFlow, next_capa_loop, get_next_capa_seq_num,
  mark_capa_new, receive_capa_data, CapabilityPkt, send_capability_pkt, remaining_pkts,
}

module _ (params : Params) (capa : CapabilityParams) (store : Capabilities) where
  -- The flow as the receiver of RUF would have it: what both keep of the packets received, and of
  -- the last one that was asked for.
  abbrev pub view : CapabilityFlow store → RankingFlow
  view f = record {
    id = f.id;
    start_time = f.start_time;
    size = f.size;
    size_in_pkt = f.size_in_pkt;
    goal = f.goal;
    src = f.src;
    dst = f.dst;
    finished = f.finished;
    deadline = f.deadline;
    next_seq_no = f.next_seq_no;
    total_pkt_sent = f.total_pkt_sent;
    latest_data_pkt_sent_time = pos f.latest_data_pkt_send_time;
    tokens = [];
    remaining_pkts_at_sender = f.remaining_pkts_at_sender;
    first_byte_receive_time = f.first_byte_receive_time;
    rts_received = f.rts_received;
    packets_received = f.packets_received;
    received_count = f.received_count;
    received_until = f.received_until;
    received_bytes = f.received_bytes;
    finished_at_receiver = f.finished_at_receiver;
    token_count = f.capability_count;
    token_packet_sent_count = f.capability_packet_sent_count;
    token_goal = f.capability_goal;
    last_token_data_seq_num_sent = f.last_capa_data_seq_num_sent;
    largest_token_seq_received = f.largest_cap_seq_received;
    largest_token_data_seq_received = pos 0;
    redundancy_ctrl_timeout = f.redundancy_ctrl_timeout;
    latest_token_sent_time = pos f.latest_cap_sent_time;
  }

  loop-view :
      (f : CapabilityFlow store) (n d : ℕ)
      → next_capa_loop params capa store f n d ≡ next_seq_loop (view f) n d
  unfolding next_capa_loop next_seq_loop
  loop-view f zero d = refl
  loop-view f (suc n) d =
      ap
        (λ rest.
          if contains f.packets_received d
          then rest
          else (if ltb d f.size_in_pkt then some d else none))
        (loop-view f n (if leb f.size_in_pkt (d + 1) then f.received_until else d + 1))

  -- The search for the next capability is the search for the next token of RUF.
  pub get_next_capa_seq_num-view :
      (f : CapabilityFlow store)
      → get_next_capa_seq_num params capa store f ≡ get_next_token_seq_num (view f)
  unfolding get_next_capa_seq_num get_next_token_seq_num
  get_next_capa_seq_num-view f = loop-view f f.size_in_pkt _

  abbrev counts_of : RankingFlow → ℕ × ℕ × ℕ × ℕ × ℕ × List ℕ
  counts_of f = (
    f.size_in_pkt, f.goal, f.received_count, f.received_until, f.received_bytes, f.packets_received,
  )

  receive-counts :
      (f : CapabilityFlow store) (p : DataPacket)
      → counts_of (view (receive_capa_data params capa store f p))
        ≡ counts_of (receive_data params (view f) p)
  unfolding receive_capa_data receive_data mark_received mark_capa_new
  receive-counts f p = elim (Bool-cases (contains f.packets_received p.capa_data_seq)) [
    | inl old ↦ rw old
    | inr fresh ↦ rw fresh
  ]

  -- The receiver's counts of a CapabilityFlow stay right with a data packet whose number is one of
  -- the flow's, whether it is new or a duplicate: `received_count` is the number of the packets
  -- received, and `received_until` the first of them that was not.
  pub receive_capa_data-IsConsistent :
      (f : CapabilityFlow store) (p : DataPacket)
      → p.capa_data_seq < f.size_in_pkt
      → IsConsistent (view f)
      → IsConsistent (view (receive_capa_data params capa store f p))
  receive_capa_data-IsConsistent f p h c =
      let kept = receive_data-IsConsistent params (view f) p h c in
      let same = sym (receive-counts f p) in
      record {
        whole = subst (λ k. k.1 ≡ k.0) same kept.whole;
        counted = subst (λ k. k.2 + missing k.5 k.0 ≡ k.0) same kept.counted;
        until = subst (λ k. IsUntil k.5 k.0 k.3) same kept.until;
      }

  send_runs :
      (f : CapabilityFlow store) (now d : ℕ)
      → get_next_capa_seq_num params capa store f ≡ some d
      → send_capability_pkt params capa store now f
        ≡ some (
          record {
            ttl = capa.capability_timeout * get_full_pkt_tran_delay params 1500;
            remaining_sz = f.size_in_pkt - f.received_count;
            cap_seq_num = f.capability_count;
            data_seq_num = d;
          },
          record f {
            last_capa_data_seq_num_sent = pos d;
            capability_count = f.capability_count + 1;
            capability_packet_sent_count = f.capability_packet_sent_count + 1;
            latest_cap_sent_time = now;
          },
        )
  unfolding send_capability_pkt remaining_pkts
  send_runs f now d runs = rw runs

  -- For a flow whose counts are right and that has a packet to come, `send_capability_pkt` hits no
  -- assert. The capability has the next number and asks for a packet of the flow that was not
  -- received: the first such after the last one asked for, or, if none is left there, the first of
  -- all. It is the packet that the receiver of RUF would ask for.
  pub send_capability_pkt-IsNext :
      (f : CapabilityFlow store) (now : ℕ)
      → IsConsistent (view f)
      → f.received_count < f.goal
      → (p : CapabilityPkt) × (g : CapabilityFlow store) × (send_capability_pkt params capa store
            now f
          ≡ some (p, g))
        × (p.cap_seq_num ≡ f.capability_count)
        × (g.capability_count ≡ f.capability_count + 1)
        × (get_next_token_seq_num (view f) ≡ some p.data_seq_num)
        × IsNext (view f) (search_start (view f)) p.data_seq_num
  send_capability_pkt-IsNext f now c h =
      let (d, runs, next) = get_next_token_seq_num-IsNext (view f) c h in
      (_, _, send_runs f now d (get_next_capa_seq_num-view f ∙ runs), refl, refl, runs, next)
