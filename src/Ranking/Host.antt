-- ===== src/Ranking/Host.antt =====
-- RankingHost of simulator/ext/rankinghost.cpp and rankinghost.h, as a receiver: its queues of flows,
-- the source that it was granted, and its events. A flow is its id in the store `flows`. The
-- unordered map `src_to_flows` is an association list in the order of its iteration. An event is its
-- time; a cancelled one is forgotten.
pub mod Unfinished
pub mod Listing
pub mod Listed
pub mod Sending
pub mod Window
pub mod Offers
pub mod Receiving
use ruf.Prelude.{
  ℕ, zero, suc, ◌+◌, Bool, true, false, List, [], ◌∷◌, ◌++◌, Option, none, some, ltb, ◌==◌,
  if◌then◌else◌,
}
use ruf.Prelude.Int.{ℤ, pos, negsuc, ltb_ℤ}
use ruf.Prelude.Faults.{◌>>=◌, ◌>>◌, assert}
use ruf.Params.{Params, infinitesimal_time}
use ruf.PriorityQueue
use ruf.PriorityQueue.{PriorityQueue}
use ruf.Ranking.Flow.{RankingFlow}
use ruf.PriorityQueue.Checked.{checked_top, checked_pop}
use ruf.Ranking.Comparators.{receiver_comp}
use ruf.Ranking.Arbiter.{RankingListSrcs}

-- A RankingToken packet to the flow's source.
pub record RankingToken : Type 0 where
  pub flow : ℕ
  pub ttl : ℕ
  pub remaining_sz : ℕ
  pub token_seq_num : ℕ
  pub data_seq_num : ℕ
  pub ranking_round : ℤ

-- What a receiver puts into its queue.
pub data Control : Type 0 where
  list_srcs : RankingListSrcs → Control
  token : RankingToken → Control
  ack : (flow : ℕ) → (ranking_round : ℤ) → Control

-- GoSRC: the grant in force.
pub record GoSrcInfo : Type 0 where
  pub max_tokens : ℤ
  pub remain_tokens : ℤ
  pub round : ℤ
  pub src : Option ℕ
  pub send_nrts : Bool

-- GoSRC::reset
unfoldable pub reset : GoSrcInfo → GoSrcInfo
reset g = record g { max_tokens = negsuc 0; remain_tokens = negsuc 0; src = none }

pub record TokenProcessingEvent : Type 0 where
  pub time : ℕ
  pub is_timeout_evt : Bool

pub record RankingHost : Type 0 where
  pub id : ℕ
  pub flows : ℕ → RankingFlow
  pub active_short_flows : PriorityQueue ℕ
  pub src_to_flows : List (ℕ × PriorityQueue ℕ)
  pub gosrc_info : GoSrcInfo
  pub idle_count : ℕ
  pub wakeup_evt : Option ℕ
  pub token_send_evt : Option TokenProcessingEvent
  pub hold_on : ℕ
  pub sent : List Control

-- The constructor, over a store of flows.
unfoldable pub init : ℕ → (ℕ → RankingFlow) → RankingHost
unfolding PriorityQueue.new
init id flows = record {
  id = id;
  flows = flows;
  active_short_flows = PriorityQueue.new;
  src_to_flows = [];
  gosrc_info = record {
    max_tokens = negsuc 0;
    remain_tokens = negsuc 0;
    round = pos 0;
    src = none;
    send_nrts = false;
  };
  idle_count = 0;
  wakeup_evt = none;
  token_send_evt = none;
  hold_on = 0;
  sent = [];
}

unfoldable pub update : ℕ → RankingFlow → RankingHost → RankingHost
update i f h = record h { flows = λ j. if i == j then f else h.flows j }

unfoldable pub emit : Control → RankingHost → RankingHost
emit c h = record h { sent = h.sent ++ c ∷ [] }

-- `src_to_flows.find(src)`
unfoldable pub find : ℕ → List (ℕ × PriorityQueue ℕ) → Option (PriorityQueue ℕ)
find src [] = none
find src ((i, q) ∷ rest) = if i == src then some q else find src rest

-- The map with the queue of `src` replaced, and without it if that is empty.
unfoldable pub put : ℕ → PriorityQueue ℕ → List (ℕ × PriorityQueue ℕ) → List (ℕ × PriorityQueue ℕ)
put src q [] = []
put src q ((i, r) ∷ rest) =
    if i == src
    then (if PriorityQueue.empty q then rest else (i, q) ∷ rest)
    else (i, r) ∷ put src q rest

-- `src_to_flows[src].push(flow)`
unfoldable pub push_flow : ℕ → ℕ → List (ℕ × PriorityQueue ℕ) → List (ℕ × PriorityQueue ℕ)
push_flow src flow [] = (src, PriorityQueue.push PriorityQueue.new flow) ∷ []
push_flow src flow ((i, q) ∷ rest) =
    if i == src then (i, PriorityQueue.push q flow) ∷ rest else (i, q) ∷ push_flow src flow rest

-- `while(!flows_tried.empty())` with its push and pop.
unfoldable pub push_all : PriorityQueue ℕ → List ℕ → PriorityQueue ℕ
push_all q [] = q
push_all q (f ∷ fs) = push_all (PriorityQueue.push q f) fs

-- `redundancy_ctrl_timeout > get_current_time()`
abbrev pub in_timeout : ℕ → RankingFlow → Bool
in_timeout now f = ltb_ℤ (pos now) f.redundancy_ctrl_timeout

-- The first loop of `get_top_unfinish_flow`, on fuel: the flow found, what is left of the queue and
-- the flows in their timeout that were taken out of it.
module _ (params : Params) (flows : ℕ → RankingFlow) (now : ℕ) where
  unfoldable pub unfinish_loop :
      ℕ → PriorityQueue ℕ → List ℕ → Option (Option ℕ × PriorityQueue ℕ × List ℕ)
  unfinish_loop zero q tried = none
  unfinish_loop (suc n) q tried = elim (PriorityQueue.empty q) [
    | true ↦ some (none, q, tried)
    | false ↦ do
      (best, q') ← checked_top (receiver_comp flows params) q
      q'' ← checked_pop (receiver_comp flows params) q'
      elim (flows best).finished_at_receiver [
        | true ↦ unfinish_loop n q'' tried
        | false ↦ elim (in_timeout now (flows best)) [
          | true ↦ unfinish_loop n q'' (tried ++ best ∷ [])
          | false ↦ some (some best, q', tried)
        ]
      ]
  ]

unfoldable pub get_top_unfinish_flow :
    Params → ℕ → ℕ → RankingHost → Option (Option ℕ × RankingHost)
get_top_unfinish_flow params now src h = elim (find src h.src_to_flows) [
  | none ↦ some (none, h)
  | some q ↦ do
    (best, q', tried) ← unfinish_loop params h.flows now (suc (PriorityQueue.size q)) q []
    some (best, record h { src_to_flows = put src (push_all q' tried) h.src_to_flows })
]

unfoldable pub schedule_token_proc_evt : (now time : ℕ) → Bool → RankingHost → Option RankingHost
schedule_token_proc_evt now time is_timeout h = elim h.token_send_evt [
  | some _ ↦ none
  | none ↦ some (record h {
    token_send_evt =
        some (record { time = now + time + infinitesimal_time; is_timeout_evt = is_timeout });
  })
]

-- Cancel a timeout event, then schedule the token process if no event is left: the two `if`s that
-- four handlers share.
unfoldable pub restart_tokens : ℕ → RankingHost → Option RankingHost
unfolding schedule_token_proc_evt
restart_tokens now h = elim h.token_send_evt [
  | none ↦ schedule_token_proc_evt now 0 false h
  | some e ↦
      if e.is_timeout_evt
      then schedule_token_proc_evt now 0 false (record h { token_send_evt = none })
      else some h
]

unfoldable pub schedule_wakeup_event : Params → ℕ → RankingHost → Option RankingHost
schedule_wakeup_event params now h = elim h.wakeup_evt [
  | some _ ↦ none
  | none ↦ some (record h { wakeup_evt = some (now + params.rankinghost_idle_timeout) })
]
