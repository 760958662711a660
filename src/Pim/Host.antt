-- ===== src/Pim/Host.antt =====
-- PimHost of simulator/ext/pimhost.cpp and pimhost.h as a sender of data, over a store of flows. A host is
-- its id. The unordered map `dst_to_flows` is an association list in the order of its iteration, and
-- `epochs` a function of the epoch; a `cur_epoch` of -1 is `none`. An event is its time; a cancelled
-- one is forgotten. A failed `assert` and a NULL that is read are `none`.
use ruf.Prelude.{
  ℕ, zero, suc, ◌+◌, Bool, true, false, List, [], ◌∷◌, ◌++◌, Option, none, some, ltb, if◌then◌else◌,
}
use ruf.Prelude.Int.{pos, ltb_ℤ}
use ruf.Prelude.Faults.{◌>>=◌}
use ruf.Params.{Params, infinitesimal_time}
use ruf.PriorityQueue
use ruf.PriorityQueue.{PriorityQueue}
use ruf.Links.{Link, get_transmission_delay}
use ruf.Ranking.Comparators.{worse}
use ruf.Ranking.Host.{find, put, push_flow, push_all}
use ruf.Pim.{PimParams, PimFlow, is_small_flow}

-- PIM_RTS and PIM_Grants, the entries of an epoch's queues.
pub record PimRts : Type 0 where
  pub iter : ℕ
  pub f : ℕ

pub record PimGrants : Type 0 where
  pub prompt : Bool
  pub iter : ℕ
  pub f : ℕ

pub record PimEpoch : Type 0 where
  pub epoch : ℕ
  pub iter : ℕ
  pub match_receiver : Option ℕ
  pub match_sender : Option ℕ
  pub proc_sender_iter_evt : Option ℕ
  pub proc_receiver_iter_evt : Option ℕ
  pub grants_q : List PimGrants
  pub rts_q : List PimRts

pub record NewEpochEvent : Type 0 where
  pub time : ℕ
  pub epoch : ℕ

pub record HostEvent : Type 0 where
  pub time : ℕ
  pub is_timeout : Bool

pub record PimHost : Type 0 where
  pub id : ℕ
  pub dst_to_flows : List (ℕ × PriorityQueue ℕ)
  pub active_short_flows : PriorityQueue ℕ
  pub epochs : ℕ → Option PimEpoch
  pub sender : Option ℕ
  pub receiver : Option ℕ
  pub new_epoch_evt : Option NewEpochEvent
  pub iter_epoch : ℕ
  pub cur_epoch : Option ℕ
  pub host_proc_event : Option HostEvent
  pub link : Link
  pub time_of : ℕ → ℕ

-- The control packets PIMRTS, PIMGrants, AcceptPkt and GrantsR, each of a flow.
pub data Message : Type 0 where
  rts : (flow iter epoch : ℕ) → Message
  grants : (flow iter epoch : ℕ) → (prompt : Bool) → Message
  accept : (flow : ℕ) → (accepted : Bool) → (iter epoch : ℕ) → Message
  grantsr : (flow iter epoch : ℕ) → Message

-- The constructor.
unfoldable pub init : (id iter_epoch : ℕ) → Link → (ℕ → ℕ) → PimHost
unfolding PriorityQueue.new
init id iter_epoch link time_of = record {
  id = id;
  dst_to_flows = [];
  active_short_flows = PriorityQueue.new;
  epochs = λ k. none;
  sender = none;
  receiver = none;
  new_epoch_evt = none;
  iter_epoch = iter_epoch;
  cur_epoch = none;
  host_proc_event = none;
  link = link;
  time_of = time_of;
}

-- When the queue is free of the packet that it transmits.
free_time : ℕ → PimHost → Option ℕ
free_time now h = elim h.link.queue.busy [
  | false ↦ some now
  | true ↦ do e ← h.link.queue.queue_proc_event; some (h.time_of e)
]

unfoldable pub schedule_host_proc_evt : ℕ → PimHost → Option PimHost
unfolding free_time
schedule_host_proc_evt now h = elim h.host_proc_event [
  | some _ ↦ none
  | none ↦ do
    time ← free_time now h
    let delay = get_transmission_delay h.link h.link.queue.bytes_in_queue
    some (record h {
      host_proc_event =
          some (record { time = time + delay + infinitesimal_time; is_timeout = false });
    })
]

-- Cancel a timeout event, then schedule one if none is left: two `if`s that two handlers share.
unfoldable pub restart : ℕ → PimHost → Option PimHost
unfolding schedule_host_proc_evt
restart now h = elim h.host_proc_event [
  | none ↦ schedule_host_proc_evt now h
  | some e ↦
      if e.is_timeout
      then schedule_host_proc_evt now (record h { host_proc_event = none })
      else some h
]

-- PimFlowComparator
unfoldable pub pim_comp : (ℕ → PimFlow) → ℕ → ℕ → Bool
pim_comp flows a b =
    worse (flows a).remaining_pkts_at_sender (flows b).remaining_pkts_at_sender (flows a).start_time
      (flows b).start_time

-- `redundancy_ctrl_timeout > get_current_time()`
abbrev pub in_timeout : ℕ → PimFlow → Bool
in_timeout now f = ltb_ℤ (pos now) f.redundancy_ctrl_timeout

module _ (params : Params) (pim : PimParams) (flows : ℕ → PimFlow) where
  -- With `none` for NULL.
  unfoldable pub flow_compare : (long short : Option ℕ) → Bool
  flow_compare none short = true
  flow_compare (some a) none = false
  flow_compare (some a) (some b) =
      if params.by_deadline
      then ltb (flows b).deadline (flows a).deadline
      else worse (flows a).remaining_pkts_at_sender (flows b).remaining_pkts_at_sender
          (flows a).start_time (flows b).start_time

  unfoldable pub start_flow : (now f : ℕ) → PimHost → Option PimHost
  start_flow now f h = restart now (
      if is_small_flow pim (flows f)
      then record h { active_short_flows = PriorityQueue.push h.active_short_flows f }
      else record h { dst_to_flows = push_flow (flows f).dst f h.dst_to_flows })

  -- The first loop of `get_top_unfinish_flow`, on fuel, with the flow last looked at: the flow
  -- found, what is left of the queue and the flows in their timeout that were taken out of it. When
  -- all are, the last of them is the flow found.
  unfoldable pub unfinish_loop :
      (now fuel : ℕ)
      → (best : Option ℕ) → PriorityQueue ℕ
      → List ℕ
      → Option (Option ℕ × PriorityQueue ℕ × List ℕ)
  unfinish_loop now zero best q tried = none
  unfinish_loop now (suc n) best q tried = elim (PriorityQueue.empty q) [
    | true ↦ some (best, q, tried)
    | false ↦ do
      (f, q') ← PriorityQueue.top (pim_comp flows) q
      elim (flows f).finished [
        | true ↦ do q'' ← PriorityQueue.pop (pim_comp flows) q'; unfinish_loop now n none q'' tried
        | false ↦ elim (in_timeout now (flows f)) [
          | true ↦ do
            q'' ← PriorityQueue.pop (pim_comp flows) q'
            unfinish_loop now n (some f) q'' (tried ++ f ∷ [])
          | false ↦ some (some f, q', tried)
        ]
      ]
  ]

  unfoldable pub get_top_unfinish_flow : (now dst : ℕ) → PimHost → Option (Option ℕ × PimHost)
  get_top_unfinish_flow now dst h = elim (find dst h.dst_to_flows) [
    | none ↦ some (none, h)
    | some q ↦ do
      (best, q', tried) ← unfinish_loop now (suc (PriorityQueue.size q)) none q []
      some (best, record h { dst_to_flows = put dst (push_all q' tried) h.dst_to_flows })
  ]
