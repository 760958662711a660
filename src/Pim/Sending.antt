-- ===== src/Pim/Sending.antt =====
-- What PimHost and PimFlow do with data (simulator/ext/pimhost.cpp, pimflow.cpp): `PimHost::send`, which
-- sends one packet of the best flow that may send, or waits for the first timeout, and
-- `PimFlow::receive_ack`. `closet_timeout` is the source's name and spelling.
pub mod Window
pub mod Tried
pub mod Waiting
pub mod Rounds
pub mod Served
pub mod Woken
use ruf.Prelude.{
  ℕ, zero, suc, ◌+◌, ◌*◌, ◌^◌, Bool, true, false, not, ◌&&◌, ◌||◌, List, [], ◌∷◌, ◌++◌, Option,
  none, some, leb, ◌==◌, if◌then◌else◌,
}
use ruf.Prelude.Int.{ℤ, pos, negsuc, pos_part, ◌+ℤ◌, ltb_ℤ, leb_ℤ}
use ruf.Prelude.Faults.{◌>>=◌, ◌>>◌, assert}
use ruf.Params.{Params, infinitesimal_time, packet_priority}
use ruf.PriorityQueue
use ruf.PriorityQueue.{PriorityQueue}
use ruf.Links.{get_transmission_delay}
use ruf.Ranking.Host.{push_all}
use ruf.Pim.{
  PimParams, PimFlow, PimPacket, PimAck, is_small_flow, get_next_data_seq_num, gap, relax_gap,
  acknowledge, is_acked, clear,
}
use ruf.Pim
use ruf.Pim.Host.{
  PimHost, HostEvent, schedule_host_proc_evt, pim_comp, flow_compare, in_timeout,
  get_top_unfinish_flow,
}
use ruf.Pim.Epoch.{is_host}

-- 999999 seconds, which stands for no timeout.
abbrev pub no_timeout : ℤ
no_timeout = pos (999999 * 10 ^ 12)

abbrev pub earlier : (time closet_timeout : ℤ) → ℤ
earlier time closet_timeout = if ltb_ℤ time closet_timeout then time else closet_timeout

abbrev pub is_none_event : Option HostEvent → Bool
is_none_event none = true
is_none_event (some e) = false

-- `host_proc_event != NULL && host_proc_event->is_timeout`
abbrev pub is_waiting : Option HostEvent → Bool
is_waiting none = false
is_waiting (some e) = e.is_timeout

-- `flows[i]` replaced.
abbrev pub write : ℕ → PimFlow → (ℕ → PimFlow) → ℕ → PimFlow
write i f flows = λ j. if i == j then f else flows j

-- What the body of the loop of `send` does with a flow that is not finished.
pub record Attempt : Type 0 where
  pub flow : PimFlow
  pub packet : Option PimPacket
  pub closet_timeout : ℤ

-- What the loop comes to: the packet sent, with its flow, the flows, what is left of the queue,
-- `flows_tried` and `closet_timeout`.
pub record Scan : Type 0 where
  pub packet : Option (ℕ × PimPacket)
  pub flows : ℕ → PimFlow
  pub queue : PriorityQueue ℕ
  pub tried : List ℕ
  pub closet_timeout : ℤ

-- A timeout that has passed is reset.
abbrev pub end_timeout : PimFlow → PimFlow
end_timeout f =
    if ltb_ℤ (pos 0) f.redundancy_ctrl_timeout
    then record f { redundancy_ctrl_timeout = negsuc 0 }
    else f

module _ (params : Params) (pim : PimParams) (now : ℕ) where
  -- When a flow whose window is full may go on.
  abbrev pub window_timeout : PimFlow → ℤ
  window_timeout f = f.latest_data_pkt_send_time +ℤ pos pim.pim_window_timeout

  -- The test of the window before the packet.
  unfoldable pub open_window : PimFlow → ℤ → Option (PimFlow × ℤ)
  open_window f closet_timeout = do
    g ← gap f
    if leb_ℤ g (pos pim.pim_window_size)
        then some (f, closet_timeout)
        else (if leb_ℤ (window_timeout f) (pos now)
            then (do f' ← relax_gap pim f; some (f', closet_timeout))
            else some (f, earlier (window_timeout f) closet_timeout))

  -- A flow that has come round to an earlier packet waits before it sends again.
  abbrev pub set_timeout : (sent next : ℕ) → PimFlow → PimFlow
  set_timeout sent next f =
      if leb next sent
      then record f { redundancy_ctrl_timeout = pos (now + pim.pim_resend_timeout) }
      else f

  module _ (host_proc_event : Option HostEvent) where
    -- `send_pending_data` at the host's event, up to the new event.
    unfoldable pub send_pending_data : PimFlow → Option (PimPacket × PimFlow)
    send_pending_data f = do
      data_seq ← get_next_data_seq_num f
      priority ← packet_priority (suc f.size_in_pkt) f.size_in_pkt pim.pim_small_flow
      assert (is_none_event host_proc_event)
      some (Pim.send now priority data_seq f)

    unfoldable pub send_in_window : PimFlow → ℤ → Option Attempt
    unfolding send_pending_data
    send_in_window f closet_timeout = do
      g ← gap f
      if leb_ℤ g (pos pim.pim_window_size)
          then (do
            sent ← get_next_data_seq_num f
            (p, f') ← send_pending_data f
            next ← get_next_data_seq_num f'
            some (record {
              flow = set_timeout sent next f';
              packet = some p;
              closet_timeout = closet_timeout;
            }))
          else some (record { flow = f; packet = none; closet_timeout = closet_timeout })

    unfoldable pub attempt : PimFlow → ℤ → Option Attempt
    unfolding open_window send_in_window
    attempt f closet_timeout =
        if in_timeout now f
        then some (record {
          flow = f;
          packet = none;
          closet_timeout = earlier f.redundancy_ctrl_timeout closet_timeout;
        })
        else (do
          (f', closet) ← open_window (end_timeout f) closet_timeout
          send_in_window f' closet)

  -- The flow of the loop's next round, the flow of the receiver that is left, and the queue.
  unfoldable pub choose :
      (ℕ → PimFlow)
      → (best_large_flow : Option ℕ) → PriorityQueue ℕ
      → Option (Option ℕ × Option ℕ × PriorityQueue ℕ)
  choose flows large q = elim (PriorityQueue.empty q) [
    | true ↦ some (large, none, q)
    | false ↦ do
      (short, q') ← PriorityQueue.top (pim_comp flows) q
      elim (flow_compare params pim flows large (some short)) [
        | false ↦ some (large, none, q')
        | true ↦ do q'' ← PriorityQueue.pop (pim_comp flows) q'; some (some short, large, q'')
      ]
  ]

  module _ (host_proc_event : Option HostEvent) where
    -- The loop, on fuel. A flow that is finished is left out; a small one goes to `flows_tried`.
    unfoldable pub scan :
        (fuel : ℕ)
        → (ℕ → PimFlow)
        → (best_large_flow : Option ℕ) → PriorityQueue ℕ
        → List ℕ
        → ℤ
        → Option Scan
    unfolding choose attempt
    scan zero flows large q tried closet = none
    scan (suc n) flows large q tried closet = do
      (best, large', q') ← choose flows large q
      elim best [
        | none ↦ some (record {
          packet = none;
          flows = flows;
          queue = q';
          tried = tried;
          closet_timeout = closet;
        })
        | some f ↦ elim (flows f).finished [
          | true ↦ scan n flows large' q' tried closet
          | false ↦ do
            a ← attempt host_proc_event (flows f) closet
            let tried' = if is_small_flow pim (flows f) then tried ++ f ∷ [] else tried
            elim a.packet [
              | some p ↦ some (record {
                packet = some (f, p);
                flows = write f a.flow flows;
                queue = q';
                tried = tried';
                closet_timeout = a.closet_timeout;
              })
              | none ↦ scan n (write f a.flow flows) large' q' tried' a.closet_timeout
            ]
        ]
      ]

  -- The event that comes after the loop: that of `send_pending_data`, or one for the first timeout.
  unfoldable pub next_event : Scan → PimHost → Option PimHost
  next_event r h = elim r.packet [
    | some (f, p) ↦ some (record h {
      host_proc_event = some (record {
        time = now + get_transmission_delay h.link p.size + infinitesimal_time;
        is_timeout = false;
      });
    })
    | none ↦ elim (ltb_ℤ r.closet_timeout no_timeout) [
      | false ↦ some h
      | true ↦ do
        assert (ltb_ℤ (pos now) r.closet_timeout)
        some (record h {
          host_proc_event = some (record { time = pos_part r.closet_timeout; is_timeout = true });
        })
    ]
  ]

  -- `best_large_flow` before the loop.
  unfoldable pub large_flow : (ℕ → PimFlow) → PimHost → Option (Option ℕ × PimHost)
  large_flow flows h = elim h.receiver [
    | none ↦ some (none, h)
    | some dst ↦ get_top_unfinish_flow params pim flows now dst h
  ]

  -- The branch of `send` in which the queue is free: the flows, the host, and the packet sent.
  unfoldable pub send_one :
      (ℕ → PimFlow) → PimHost → Option ((ℕ → PimFlow) × PimHost × Option (ℕ × PimPacket))
  unfolding large_flow scan next_event
  send_one flows h = do
    (large, h') ← large_flow flows h
    r ←
        scan h'.host_proc_event (suc (suc (PriorityQueue.size h'.active_short_flows))) flows large
          h'.active_short_flows [] no_timeout
    h'' ← next_event r (record h' { active_short_flows = push_all r.queue r.tried })
    some (r.flows, h'', r.packet)

  unfoldable pub send :
      (ℕ → PimFlow) → PimHost → Option ((ℕ → PimFlow) × PimHost × Option (ℕ × PimPacket))
  unfolding send_one
  send flows h = do
    assert (is_none_event h.host_proc_event)
    elim h.link.queue.busy [
      | true ↦ do h' ← schedule_host_proc_evt now h; some (flows, h', none)
      | false ↦ send_one flows h
    ]

  -- `HostProcessingEvent::process_event`
  unfoldable pub process_host :
      (ℕ → PimFlow) → PimHost → Option ((ℕ → PimFlow) × PimHost × Option (ℕ × PimPacket))
  unfolding send
  process_host flows h = send flows (record h { host_proc_event = none })

-- Whether a timeout event of the host is cancelled for the flow.
abbrev pub wakes : PimParams → (now : ℕ) → PimFlow → PimHost → Bool
wakes pim now f h =
    is_waiting h.host_proc_event
    && not (in_timeout now f)
    && (is_small_flow pim f || (is_host h.receiver f.dst && not f.finished))

-- `receive_ack` at the source: the flow, the host, and whether a FlowFinishedEvent is added.
unfoldable pub receive_ack :
    PimParams → (now : ℕ) → PimAck → PimFlow → PimHost → PimFlow × PimHost × Bool
receive_ack pim now a f h =
    let g = acknowledge a f in
    if is_acked g
    then (clear g, h, true)
    else (if wakes pim now g h
        then (
          g,
          record h { host_proc_event = some (record { time = now; is_timeout = false }) },
          false,
        )
        else (g, h, false))
