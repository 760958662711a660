-- ===== src/Ranking/Sender/Sent.antt =====
-- `RankingHost::send`: what a free sender sends, and what becomes of its active flows.
use mathlib.Core.List.{Perm, perm_append_comm, append-nil}
use mathlib.Core.List.Perm
use ruf.Prelude.{
  ℕ, suc, ◌+◌, ◌≡◌, refl, sym, ap, ap₂, ◌∙◌, subst, false, List, [], ◌∷◌, ◌++◌, Option, none, some,
  length, All, inl, arith,
}
use ruf.Params.{Params, infinitesimal_time}
use ruf.PriorityQueue
use ruf.PriorityQueue.{PriorityQueue}
use ruf.Links.{get_transmission_delay}
use ruf.Ranking.Flow.{RankingFlow, DataPacket}
use ruf.Ranking.Host.{push_all}
use ruf.Ranking.Host.Unfinished.{v-push_all}
use ruf.Ranking.Sender.{
  Sender, Scan, Sending, data_packet, scan, transmit, send_one, send_when, send,
}
use ruf.Ranking.Sender.Agrees.{Finished}
use ruf.Ranking.Sender.Loop.{Chosen, Stored, Scanned, Leveled, scan-Scans}

-- The packets that leave.
abbrev pub packets_out : Option (ℕ × DataPacket) → List Sending
packets_out none = []
packets_out (some (b, p)) = data_packet b p ∷ []

module _ (params : Params) (now : ℕ) (s : Sender) where
  -- The next event comes when the packet has left the queue.
  abbrev pub next_event : Option (ℕ × DataPacket) → Option ℕ
  next_event none = s.host_proc_event
  next_event (some (b, p)) = some (now + get_transmission_delay s.link p.size + infinitesimal_time)

  pub record Sent (packet : Option (ℕ × DataPacket)) (r : Sender) : Type 0 where
    pub removed : List ℕ
    pub perm : Perm s.active_sending_flows.v (removed ++ r.active_sending_flows.v)
    pub over : All (Finished params now s.flows) removed
    pub chosen : Chosen params now s.flows packet s.active_sending_flows.v
    pub stored : Stored params now s.flows packet r.flows
    pub out : r.sent ≡ s.sent ++ packets_out packet
    pub event : r.host_proc_event ≡ next_event packet

  abbrev after : Scan → Sender
  after r =
      transmit params now r.packet
        (record s { flows = r.flows; active_sending_flows = push_all r.queue r.tried })

  send_one_runs :
      (r : Scan)
      → scan params now s.host_proc_event
          (suc (length s.active_sending_flows.v))
          s.flows
          s.active_sending_flows
          []
        ≡ some r
      → send_one params now s ≡ some (after r)
  unfolding send_one PriorityQueue.size
  send_one_runs r runs = rw runs

  send-send_one :
      s.host_proc_event ≡ none
      → s.link.queue.busy ≡ false
      → send params now s ≡ send_one params now s
  unfolding send send_when
  send-send_one free idle = ap₂ (λ e b. send_when params now e b s) free idle

  kept :
      (flows_left : PriorityQueue ℕ) (tried removed aside : List ℕ)
      → Perm s.active_sending_flows.v (removed ++ (aside ++ flows_left.v))
      → tried ≡ aside
      → Perm s.active_sending_flows.v (removed ++ (push_all flows_left tried).v)
  kept flows_left tried removed aside perm e = Perm.trans perm (
      Perm.append_left removed (
        subst (Perm (aside ++ flows_left.v))
          (sym (v-push_all flows_left tried ∙ ap (λ t. flows_left.v ++ t) e))
          (perm_append_comm aside flows_left.v)))

  after-Sent :
      (packet : Option (ℕ × DataPacket)) (store : ℕ → RankingFlow) (queue : PriorityQueue ℕ)
      (tried : List ℕ)
      → Scanned params now s.flows s.active_sending_flows.v []
          (record { packet = packet; flows = store; queue = queue; tried = tried })
      → Sent packet
          (after (record { packet = packet; flows = store; queue = queue; tried = tried }))
  unfolding transmit
  after-Sent none store queue tried sc = record {
    removed = sc.removed;
    perm = kept queue tried sc.removed sc.aside sc.perm sc.tries;
    over = sc.over;
    chosen = sc.chosen;
    stored = sc.stored;
    out = sym (append-nil s.sent);
    event = refl;
  }
  after-Sent (some (b, p)) store queue tried sc = record {
    removed = sc.removed;
    perm = kept queue tried sc.removed sc.aside sc.perm sc.tries;
    over = sc.over;
    chosen = sc.chosen;
    stored = sc.stored;
    out = refl;
    event = refl;
  }

  -- A sender with no event whose queue is free, where the size of every flow that is not
  -- finished has a priority: `send` ends and hits no assert. It sends at most one packet, of a
  -- flow that is not finished and has a token that has not expired, and no such flow comes
  -- before it in the order of the active flows; it sends none only if there is no such flow.
  -- Only finished flows leave the active ones; a flow that does not send keeps all but expired
  -- tokens, and the next event comes when the packet has left the queue.
  pub send-Sent :
      s.host_proc_event ≡ none
      → s.link.queue.busy ≡ false
      → Leveled params now s.flows s.flows
      → (packet : Option (ℕ × DataPacket)) × (r : Sender) × (send params now s ≡ some r)
        × Sent packet r
  send-Sent free idle leveled =
      let (r, runs, sc) =
        scan-Scans params now s.flows (suc (length s.active_sending_flows.v)) s.flows
          s.active_sending_flows [] (λ g. inl refl) leveled (omega arith) in
      let at_event =
        subst
          (λ e.
            scan params now e (suc (length s.active_sending_flows.v)) s.flows s.active_sending_flows
              []
            ≡ some r)
          (sym free) runs in
      (
        r.packet,
        after r,
        send-send_one free idle ∙ send_one_runs r at_event,
        after-Sent r.packet r.flows r.queue r.tried sc,
      )
