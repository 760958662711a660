-- ===== src/Ranking/Sender.antt =====
-- RankingHost of simulator/ext/rankinghost.cpp as a sender, with HostProcessingEvent of
-- simulator/ext/schedulinghost.cpp: its queue of active flows and its one event. A flow is its id in the
-- store `flows`, an event its time; `time_of` has the times of the queue's events.
pub mod Agrees
pub mod Loop
pub mod Sent
use ruf.Prelude.{
  ℕ, zero, suc, ◌+◌, Bool, true, false, List, [], ◌∷◌, ◌++◌, Option, none, some, ◌==◌,
  if◌then◌else◌,
}
use ruf.Prelude.Faults.{◌>>=◌, ◌>>◌}
use ruf.Params.{Params, infinitesimal_time}
use ruf.PriorityQueue
use ruf.PriorityQueue.{PriorityQueue}
use ruf.Links.{Link, get_transmission_delay}
use ruf.Ranking.Flow.{
  RankingFlow, Token, DataPacket, assign_init_token, has_token, send_pending_data, is_empty,
}
use ruf.Ranking.Comparators.{sending_comp}
use ruf.Ranking.Host.{RankingToken, push_all}

-- What a sender puts into its queue.
pub data Sending : Type 0 where
  rts : (flow : ℕ) → Sending
  data_packet : (flow : ℕ) → DataPacket → Sending

pub record Sender : Type 0 where
  pub flows : ℕ → RankingFlow
  pub active_sending_flows : PriorityQueue ℕ
  pub host_proc_event : Option ℕ
  pub link : Link
  pub time_of : ℕ → ℕ
  pub sent : List Sending

-- The store with the flow `i` replaced.
abbrev pub write : ℕ → RankingFlow → (ℕ → RankingFlow) → ℕ → RankingFlow
write i f flows = λ j. if i == j then f else flows j

-- When the queue is free of the packet that it transmits.
free_time : ℕ → Sender → Option ℕ
free_time now s = elim s.link.queue.busy [
  | false ↦ some now
  | true ↦ do e ← s.link.queue.queue_proc_event; some (s.time_of e)
]

unfoldable pub schedule_host_proc_evt : ℕ → Sender → Option Sender
unfolding free_time
schedule_host_proc_evt now s = elim s.host_proc_event [
  | some _ ↦ none
  | none ↦ do
    time ← free_time now s
    let delay = get_transmission_delay s.link s.link.queue.bytes_in_queue
    some (record s { host_proc_event = some (time + delay + infinitesimal_time) })
]

-- `if (host_proc_event == NULL) schedule_host_proc_evt()`
abbrev wake : ℕ → Sender → Option Sender
wake now s = elim s.host_proc_event [ some _ ↦ some s | none ↦ schedule_host_proc_evt now s ]

unfoldable pub start_ranking_flow : Params → ℕ → ℕ → Sender → Option Sender
start_ranking_flow params now i s = do
  let f = assign_init_token params now (s.flows i)
  let queued : Sender = record s {
    flows = write i f s.flows;
    active_sending_flows = PriorityQueue.push s.active_sending_flows i;
  }
  woken ← (if is_empty f.tokens then some queued else wake now queued)
  some (record woken { sent = woken.sent ++ rts i ∷ [] })

unfoldable pub receive_token : ℕ → RankingToken → Sender → Option Sender
receive_token now pkt s =
    let f = s.flows pkt.flow in
    wake now (record s {
      flows =
          write pkt.flow
            (record f {
              tokens =
                  f.tokens
                  ++ record {
                    timeout = now + pkt.ttl;
                    seq_num = pkt.token_seq_num;
                    data_seq_num = pkt.data_seq_num;
                    ranking_round = pkt.ranking_round;
                  }
                    ∷ [];
              remaining_pkts_at_sender = pkt.remaining_sz;
            })
            s.flows;
    })

-- What the first loop of `send` comes to: the packet sent, the flows, what is left of the queue, and
-- `flows_tried`.
pub record Scan : Type 0 where
  pub packet : Option (ℕ × DataPacket)
  pub flows : ℕ → RankingFlow
  pub queue : PriorityQueue ℕ
  pub tried : List ℕ

module _ (params : Params) (now : ℕ) where
  module _ (host_proc_event : Option ℕ) where
    -- The loop, on fuel, at the host's event.
    unfoldable pub scan : ℕ → (ℕ → RankingFlow) → PriorityQueue ℕ → List ℕ → Option Scan
    scan zero flows q tried = none
    scan (suc n) flows q tried = elim (PriorityQueue.empty q) [
      | true ↦ some (record { packet = none; flows = flows; queue = q; tried = tried })
      | false ↦ do
        (best, q') ← PriorityQueue.top (sending_comp flows) q
        q'' ← PriorityQueue.pop (sending_comp flows) q'
        elim (flows best).finished [
          | true ↦ scan n flows q'' tried
          | false ↦ elim (has_token now (flows best)).0 [
            | false ↦
                scan n (write best (has_token now (flows best)).1 flows) q'' (tried ++ best ∷ [])
            | true ↦ do
              (p, f) ← send_pending_data params now host_proc_event (has_token now (flows best)).1
              some (record {
                packet = some (best, p);
                flows = write best f flows;
                queue = q'';
                tried = tried ++ best ∷ [];
              })
          ]
        ]
    ]

  -- The end of `send_pending_data`: the packet is in the queue, and the next event comes after it.
  unfoldable pub transmit : Option (ℕ × DataPacket) → Sender → Sender
  transmit none s = s
  transmit (some (i, p)) s = record s {
    sent = s.sent ++ data_packet i p ∷ [];
    host_proc_event = some (now + get_transmission_delay s.link p.size + infinitesimal_time);
  }

  -- The branch of `send` in which the queue is free.
  unfoldable pub send_one : Sender → Option Sender
  send_one s = do
    r ←
        scan s.host_proc_event (suc (PriorityQueue.size s.active_sending_flows)) s.flows
          s.active_sending_flows []
    some (
        transmit r.packet
          (record s { flows = r.flows; active_sending_flows = push_all r.queue r.tried }))

  -- `send` at its event and `queue->busy`.
  unfoldable pub send_when : Option ℕ → Bool → Sender → Option Sender
  send_when (some _) busy s = none
  send_when none true s = schedule_host_proc_evt now s
  send_when none false s = send_one s

  unfoldable pub send : Sender → Option Sender
  send s = send_when s.host_proc_event s.link.queue.busy s

  -- `HostProcessingEvent::process_event`
  unfoldable pub process_host : Sender → Option Sender
  unfolding send
  process_host s = send (record s { host_proc_event = none })
