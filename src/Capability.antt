-- ===== src/Capability.antt =====
-- CapabilityFlow of simulator/ext/capabilityflow.cpp and capabilityflow.h, the flow of the pHost protocol
-- that RUF is compared with. The `std::priority_queue` of capabilities is an interface, and so is
-- what it holds. CAPABILITY_MEASURE_WASTE and CAPABILITY_NOTIFY_BLOCKING are false, as in
-- simulator/run/params.h. A failed `assert` and the top of an empty queue are `none`.
pub mod Held
pub mod View
pub mod Choice
use ruf.Prelude.{
  ℕ, zero, suc, ◌+◌, ◌-◌, ◌*◌, ◌%◌, Bool, true, false, ◌&&◌, List, [], ◌∷◌, Option, none, some,
  length, ltb, leb, ◌==◌, if◌then◌else◌,
}
use ruf.Prelude.Int.{ℤ, pos, negsuc, pos_part, ◌+ℤ◌, ◌-ℤ◌, ltb_ℤ, leb_ℤ}
use ruf.Prelude.Slots.{contains}
use ruf.Prelude.Words.{add32, sub32}
use ruf.Prelude.Faults.{◌>>=◌, ◌>>◌, assert}
use ruf.Params.{Params, get_full_pkt_tran_delay}
use ruf.StdQueue.{StdQueue}
use ruf.Ranking.Flow.{DataPacket, packets_of, advance, has_no_event}

pub record Capability : Type 0 where
  pub timeout : ℕ
  pub seq_num : ℕ
  pub data_seq_num : ℕ

-- CapabilityComparator
unfoldable pub capability_comp : Capability → Capability → Bool
capability_comp a b = ltb b.timeout a.timeout

abbrev pub Capabilities : Type 1
Capabilities = StdQueue capability_comp

-- The parameters of the protocol; the times are in packet times.
pub record CapabilityParams : Type 0 where
  pub capability_initial : ℕ
  pub capability_window : ℕ
  pub capability_timeout : ℕ
  pub capability_third_level : Bool
  pub capability_prio_thresh : ℕ

pub record CapabilityFlow (store : Capabilities) : Type 0 where
  pub id : ℕ
  pub start_time : ℕ
  pub size : ℕ
  pub size_in_pkt : ℕ
  pub goal : ℕ
  pub src : ℕ
  pub dst : ℕ
  pub finished : Bool
  pub deadline : ℕ
  pub next_seq_no : ℕ
  pub total_pkt_sent : ℕ
  pub latest_data_pkt_send_time : ℕ
  pub capabilities : store.Carrier
  pub remaining_pkts_at_sender : ℕ
  pub first_byte_receive_time : ℤ
  pub rts_received : Bool
  pub packets_received : List ℕ
  pub received_count : ℕ
  pub received_until : ℕ
  pub received_bytes : ℕ
  pub finished_at_receiver : Bool
  pub capability_count : ℕ
  pub capability_packet_sent_count : ℕ
  pub capability_goal : ℕ
  pub last_capa_data_seq_num_sent : ℤ
  pub largest_cap_seq_received : ℤ
  pub redundancy_ctrl_timeout : ℤ
  pub latest_cap_sent_time : ℕ
  pub notified_num_flow_at_sender : ℕ

-- A CapabilityPkt to the flow's source.
pub record CapabilityPkt : Type 0 where
  pub ttl : ℕ
  pub remaining_sz : ℕ
  pub cap_seq_num : ℕ
  pub data_seq_num : ℕ

module _ (params : Params) (capa : CapabilityParams) (store : Capabilities) where
  abbrev Self : Type 0
  Self = CapabilityFlow store

  -- Sender side.

  unfoldable pub init_capa_size : Self → ℕ
  init_capa_size f = if leb f.size_in_pkt capa.capability_initial then f.size_in_pkt else 0

  -- The loop of `assign_init_capability` from `i` on, with `n` rounds left.
  unfoldable pub init_loop : (timeout i n : ℕ) → store.Carrier → store.Carrier
  init_loop timeout i zero q = q
  init_loop timeout i (suc n) q =
      init_loop timeout (i + 1) n
        (store.push (record { timeout = timeout; seq_num = i; data_seq_num = i }) q)

  unfoldable pub assign_init_capability : ℕ → Self → Self
  unfolding init_loop init_capa_size
  assign_init_capability now f =
      let n = init_capa_size f in
      let delay = get_full_pkt_tran_delay params 1500 in
      record f {
        capabilities =
            init_loop (now + n * delay + capa.capability_timeout * delay) 0 n f.capabilities;
      }

  -- The loop of `has_capability`, on fuel.
  unfoldable pub has_loop : (now fuel : ℕ) → store.Carrier → Option (Bool × store.Carrier)
  has_loop now zero q = none
  has_loop now (suc n) q = elim (store.take q) [
    | none ↦ some (false, q)
    | some (c, rest) ↦ elim (ltb c.timeout now) [
      | true ↦ has_loop now n rest
      | false ↦ some (true, q)
    ]
  ]

  unfoldable pub has_capability : ℕ → Self → Option (Bool × Self)
  unfolding has_loop
  has_capability now f = do
    (has, q) ← has_loop now (suc (length (store.contents f.capabilities))) f.capabilities
    some (has, record f { capabilities = q })

  -- `capabilities.top()->data_seq_num` and then `use_capability`.
  unfoldable pub use_capability : ℕ → Self → Option (Capability × Self)
  use_capability now f = do
    (c, rest) ← store.take f.capabilities
    assert (leb now c.timeout)
    some (c, record f { capabilities = rest })

  -- `capability_third_level && size_in_pkt > capability_prio_thresh ? 2 : 1`
  abbrev pub priority_of : Self → ℕ
  priority_of f =
      if capa.capability_third_level && ltb capa.capability_prio_thresh f.size_in_pkt then 2 else 1

  -- `send_pending_data` with `send`, at the host's event, up to the new event.
  unfoldable pub send_pending_data :
      ℕ → (host_proc_event : Option ℕ) → Self → Option (DataPacket × Self)
  unfolding use_capability has_no_event
  send_pending_data now host_proc_event f = do
    (c, g) ← use_capability now f
    assert (has_no_event host_proc_event)
    let next = add32 g.next_seq_no params.mss
    some (
      record {
        seq_no = g.next_seq_no;
        size = 1500;
        pf_priority = priority_of g;
        capability_seq_num_in_data = c.seq_num;
        capa_data_seq = c.data_seq_num;
        ranking_round = negsuc 0;
      },
      record g {
        next_seq_no = if leb next g.size then next else g.size;
        latest_data_pkt_send_time = now;
        total_pkt_sent = g.total_pkt_sent + 1;
      },
    )

  -- The branch of `receive` for a CapabilityPkt, without the host's event.
  unfoldable pub receive_capability : ℕ → CapabilityPkt → Self → Self
  receive_capability now p f = record f {
    capabilities =
        store.push
          (record { timeout = now + p.ttl; seq_num = p.cap_seq_num; data_seq_num = p.data_seq_num })
          f.capabilities;
    remaining_pkts_at_sender = p.remaining_sz;
  }

  -- Receiver side.

  unfoldable pub set_capability_count : ℕ → Self → Self
  unfolding init_capa_size ◌-ℤ◌
  set_capability_count now f =
      let n = init_capa_size f in
      record f {
        capability_count = n;
        last_capa_data_seq_num_sent = pos n -ℤ pos 1;
        redundancy_ctrl_timeout =
            if n == f.capability_goal
            then pos (now + n * get_full_pkt_tran_delay params 1500 * 2)
            else f.redundancy_ctrl_timeout;
      }

  -- The `while` of `get_next_capa_seq_num` with `count` rounds left.
  unfoldable pub next_capa_loop : Self → (rounds data_seq : ℕ) → Option ℕ
  next_capa_loop f zero data_seq = none
  next_capa_loop f (suc rounds) data_seq =
      let next = if leb f.size_in_pkt (data_seq + 1) then f.received_until else data_seq + 1 in
      let rest = next_capa_loop f rounds next in
      if contains f.packets_received data_seq
      then rest
      else (if ltb data_seq f.size_in_pkt then some data_seq else none)

  unfoldable pub get_next_capa_seq_num : Self → Option ℕ
  unfolding next_capa_loop ◌+ℤ◌
  get_next_capa_seq_num f =
      next_capa_loop f f.size_in_pkt
        (pos_part (f.last_capa_data_seq_num_sent +ℤ pos 1) % f.size_in_pkt)

  unfoldable pub remaining_pkts : Self → ℕ
  remaining_pkts f = f.size_in_pkt - f.received_count

  unfoldable pub capability_gap : Self → Option ℤ
  unfolding ◌-ℤ◌
  capability_gap f = do
    let gap = pos f.capability_count -ℤ f.largest_cap_seq_received
    assert (leb_ℤ (pos 0) gap)
    some gap

  unfoldable pub relax_capability_gap : Self → Option Self
  unfolding capability_gap ◌-ℤ◌
  relax_capability_gap f = do
    gap ← capability_gap f
    some (record f {
      largest_cap_seq_received = pos f.capability_count -ℤ pos capa.capability_window;
    })

  unfoldable pub send_capability_pkt : ℕ → Self → Option (CapabilityPkt × Self)
  unfolding get_next_capa_seq_num remaining_pkts
  send_capability_pkt now f = do
    data_seq_num ← get_next_capa_seq_num f
    some (
      record {
        ttl = capa.capability_timeout * get_full_pkt_tran_delay params 1500;
        remaining_sz = remaining_pkts f;
        cap_seq_num = f.capability_count;
        data_seq_num = data_seq_num;
      },
      record f {
        last_capa_data_seq_num_sent = pos data_seq_num;
        capability_count = f.capability_count + 1;
        capability_packet_sent_count = f.capability_packet_sent_count + 1;
        latest_cap_sent_time = now;
      },
    )

  -- What `receive` does for a data packet that is new.
  unfoldable pub mark_capa_new : ℕ → Self → Self
  mark_capa_new data_seq f =
      let received = data_seq ∷ f.packets_received in
      record f {
        packets_received = received;
        received_count = f.received_count + 1;
        received_until = advance received f.size_in_pkt f.size_in_pkt f.received_until;
      }

  -- What `receive` does to the flow for a data packet, before it tests for the end of the flow.
  unfoldable pub receive_capa_data : Self → DataPacket → Self
  unfolding mark_capa_new
  receive_capa_data f p =
      let g =
        if contains f.packets_received p.capa_data_seq
        then f
        else mark_capa_new p.capa_data_seq f in
      record g {
        received_bytes = add32 g.received_bytes (sub32 p.size params.hdr_size);
        largest_cap_seq_received =
            if ltb_ℤ g.largest_cap_seq_received (pos p.capability_seq_num_in_data)
            then pos p.capability_seq_num_in_data
            else g.largest_cap_seq_received;
      }
