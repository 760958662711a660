-- ===== src/Ranking/Arbiter.antt =====
-- The arbiter of simulator/ext/rankinghost.cpp: which sources and destinations are free, the pending
-- requests by the rank of their destination, and the epoch that matches them.
-- A GoSrc packet goes to the head of the result list in sending order. A vector read outside its
-- length is undefined in the source; here it reads as busy, and such a write changes nothing.
pub mod Order
pub mod Serve
pub mod Epoch
pub mod Matching
pub mod Stable
pub mod Balance
use ruf.Prelude.{
  ℕ, zero, suc, ◌+◌, ◌<◌, Bool, true, false, List, [], ◌∷◌, ◌++◌, Option, none, some, length,
  get_or, set, replicate, ltb, leb, if◌then◌else◌,
}
use ruf.Prelude.Faults.{◌>>=◌, ◌>>◌, assert}
use ruf.Params.{Params}
use ruf.PriorityQueue
use ruf.PriorityQueue.{PriorityQueue}

-- A request: the destination host and the sources that it has flows from, best first.
pub record ListSrcs : Type 0 where
  pub dst : ℕ
  pub list_srcs : List ℕ

-- What `receive_listsrcs` reads of a RankingListSrcs packet.
pub record RankingListSrcs : Type 0 where
  pub rts_dst : ℕ
  pub list_srcs : List ℕ
  pub has_nrts : Bool
  pub nrts_src_id : ℕ
  pub nrts_dst_id : ℕ

pub record RankingNrts : Type 0 where
  pub src_id : ℕ
  pub dst_id : ℕ

-- A GoSrc packet on its way from the arbiter to the host `dst`.
pub record GoSrc : Type 0 where
  pub dst : ℕ
  pub src_id : ℕ
  pub max_tokens : ℕ

-- `ranking` is the vector in the comparator of `pending_q`, one `rand()` for each host.
pub record Arbiter : Type 0 where
  pub src_state : List Bool
  pub dst_state : List Bool
  pub arbiter_proc_evt : Option ℕ
  pub last_reset_ranking_time : ℕ
  pub pending_q : PriorityQueue ListSrcs
  pub ranking : List ℕ

-- ListSrcsComparator
unfoldable pub list_srcs_comp : List ℕ → ListSrcs → ListSrcs → Bool
list_srcs_comp ranking a b = ltb (get_or ranking b.dst 0) (get_or ranking a.dst 0)

unfoldable pub is_src_free : Arbiter → ℕ → Bool
is_src_free a i = get_or a.src_state i false

unfoldable pub is_dst_free : Arbiter → ℕ → Bool
is_dst_free a i = get_or a.dst_state i false

-- The constructor; `draws` are the values of `rand()`.
unfoldable pub init : Params → List ℕ → Arbiter
unfolding PriorityQueue.new
init params draws = record {
  src_state = replicate params.num_hosts true;
  dst_state = replicate params.num_hosts true;
  arbiter_proc_evt = none;
  last_reset_ranking_time = 0;
  pending_q = PriorityQueue.new;
  ranking = draws;
}

unfoldable pub schedule_proc_evt : ℕ → Arbiter → Option Arbiter
schedule_proc_evt time a = elim a.arbiter_proc_evt [
  | some _ ↦ none
  | none ↦ some (record a { arbiter_proc_evt = some time })
]

-- One second in ticks.
unfoldable pub start_arbiter : Arbiter → Option Arbiter
unfolding schedule_proc_evt
start_arbiter a = schedule_proc_evt 1_000_000_000_000 a

-- The inner loop over `request->listSrcs`, up to its `break`.
unfoldable pub first_free : List Bool → List ℕ → Option ℕ
first_free src_state [] = none
first_free src_state (i ∷ is) = if get_or src_state i false then some i else first_free src_state is

module _ (params : Params) where
  -- `sending_gosrc`, as the packet that it queues.
  unfoldable pub sending_gosrc : ℕ → ℕ → GoSrc
  sending_gosrc dst src_id = record {
    dst = dst;
    src_id = src_id;
    max_tokens = params.ranking_max_tokens;
  }

  unfoldable pub grant : Arbiter → ℕ → Option ℕ → Arbiter × List GoSrc
  unfolding sending_gosrc
  grant a dst none = (a, [])
  grant a dst (some i) = (
    record a { src_state = set a.src_state i false; dst_state = set a.dst_state dst false },
    sending_gosrc dst i ∷ [],
  )

  -- The body of the outer loop for one request.
  unfoldable pub serve : Arbiter → ListSrcs → Arbiter × List GoSrc
  unfolding is_dst_free
  serve a request =
      if is_dst_free a request.dst
      then grant a request.dst (first_free a.src_state request.list_srcs)
      else (a, [])

  -- `while (!pending_q.empty())`, on fuel.
  unfoldable pub serve_pending : ℕ → Arbiter → Option (Arbiter × List GoSrc)
  serve_pending zero a = none
  serve_pending (suc n) a = elim (PriorityQueue.empty a.pending_q) [
    | true ↦ some (a, [])
    | false ↦ do
      (request, q) ← PriorityQueue.top (list_srcs_comp a.ranking) a.pending_q
      q' ← PriorityQueue.pop (list_srcs_comp a.ranking) q
      (b, sent) ← some (serve (record a { pending_q = q' }) request)
      (c, more) ← serve_pending n b
      some (c, sent ++ more)
  ]

  unfoldable pub reset_ranking : ℕ → List ℕ → Arbiter → Arbiter
  reset_ranking now draws a =
      if ltb (a.last_reset_ranking_time + params.ranking_reset_epoch) now
      then record a { ranking = draws; last_reset_ranking_time = now }
      else a

  -- `schedule_epoch`: the GoSrc packets sent and the arbiter after it.
  unfoldable pub schedule_epoch :
      (total_finished_flows now : ℕ) (draws : List ℕ) → Arbiter → Option (Arbiter × List GoSrc)
  unfolding reset_ranking
  schedule_epoch total_finished_flows now draws a =
      if leb params.num_flows_to_run total_finished_flows then some (a, []) else do
        (b, sent) ← serve_pending (suc (PriorityQueue.size a.pending_q)) a
        c ← schedule_proc_evt (now + params.ranking_controller_epoch) (reset_ranking now draws b)
        some (c, sent)

  -- RankingArbiterProcessingEvent::process_event
  unfoldable pub process_event :
      (total_finished_flows now : ℕ) (draws : List ℕ) → Arbiter → Option (Arbiter × List GoSrc)
  process_event total_finished_flows now draws a =
      schedule_epoch total_finished_flows now draws (record a { arbiter_proc_evt = none })

-- Mark a pair free again.
unfoldable pub release : ℕ → ℕ → Arbiter → Arbiter
release src dst a = record a {
  src_state = set a.src_state src true;
  dst_state = set a.dst_state dst true;
}

unfoldable pub receive_listsrcs : RankingListSrcs → Arbiter → Arbiter
unfolding release
receive_listsrcs pkt a = if pkt.has_nrts then release pkt.nrts_src_id pkt.nrts_dst_id b else b
  where
    b : Arbiter
    b = record a {
      pending_q =
          PriorityQueue.push a.pending_q (record { dst = pkt.rts_dst; list_srcs = pkt.list_srcs });
    }

unfoldable pub receive_nrts : RankingNrts → Arbiter → Option Arbiter
unfolding release is_src_free is_dst_free
receive_nrts pkt a = do
  assert (if is_src_free a pkt.src_id then false else true)
  assert (if is_dst_free a pkt.dst_id then false else true)
  some (release pkt.src_id pkt.dst_id a)
