-- ===== src/Topology.antt =====
-- simulator/coresim/topology.cpp and simulator/ext/rankingTopology.cpp, with the switches of
-- simulator/coresim/node.cpp: how the queues of hosts and switches are wired, and `get_next_hop` of the
-- three topologies. A queue is named by the node that owns it and its index there; a queue that the
-- constructor left without a destination, an index out of range and a failed `assert` are `none`.
pub mod Routes
pub mod Delivery
pub mod Ranking
use ruf.Prelude.{
  ℕ, zero, suc, ◌+◌, ◌-◌, ◌*◌, ◌/◌, ◌%◌, Bool, true, false, ◌&&◌, ◌||◌, Option, none, some, ltb,
  leb, ◌==◌, if◌then◌else◌,
}
use ruf.Prelude.Faults.{◌>>=◌, ◌>>◌, assert}
use ruf.Prelude.Words.{add64, add32}

-- `agg` and `core` take the index in `agg_switches` and `core_switches`.
pub data Node : Type 0 where
  host : (id : ℕ) → Node
  agg : (index : ℕ) → Node
  core : (index : ℕ) → Node
  arbiter : (id : ℕ) → Node

-- A queue: that of a host, those in `queues` of a switch, and the two of the arbiter.
pub data Port : Type 0 where
  host_queue : (host : ℕ) → Port
  agg_queue : (switch index : ℕ) → Port
  core_queue : (switch index : ℕ) → Port
  arbiter_queue : Port
  queue_to_arbiter : Port

pub record Topology : Type 0 where
  pub num_hosts : ℕ
  pub num_agg_switches : ℕ
  pub num_core_switches : ℕ

-- What `get_next_hop` reads of a packet.
pub record Packet : Type 0 where
  pub src : Node
  pub dst : Node
  pub flow : ℕ

-- A core switch has its id after those of the aggregation switches.
abbrev pub id_of : Topology → Node → ℕ
id_of t (host i) = i
id_of t (agg i) = i
id_of t (core i) = i + t.num_agg_switches
id_of t (arbiter i) = i

-- `type == HOST`; the arbiter is a host too.
abbrev pub is_host : Node → Bool
is_host (host i) = true
is_host (arbiter i) = true
is_host (agg i) = false
is_host (core i) = false

-- `host_type == RANKING_ARBITER`
abbrev pub is_arbiter : Node → Bool
is_arbiter (arbiter i) = true
is_arbiter (host i) = false
is_arbiter (agg i) = false
is_arbiter (core i) = false

abbrev pub hosts_per_agg_switch : Topology → ℕ
hosts_per_agg_switch t = t.num_hosts / t.num_agg_switches

-- `q->src`
unfoldable pub src_of : Topology → Port → Node
src_of t (host_queue i) = host i
src_of t (agg_queue i j) = agg i
src_of t (core_queue i j) = core i
src_of t arbiter_queue = arbiter t.num_hosts
src_of t queue_to_arbiter = agg 0

-- `q->dst`, as the loops of the constructors set it: the queues to the core are written last.
unfoldable pub dst_of : Topology → Port → Option Node
dst_of t (host_queue i) = if ltb (i / 16) t.num_agg_switches then some (agg (i / 16)) else none
dst_of t (agg_queue i j) =
    if leb 16 j && ltb j (16 + t.num_core_switches)
    then some (core (j - 16))
    else (if ltb j (hosts_per_agg_switch t) then some (host (i * 16 + j)) else none)
dst_of t (core_queue i j) = if ltb j t.num_agg_switches then some (agg j) else none
dst_of t arbiter_queue = some (agg 0)
dst_of t queue_to_arbiter = some (arbiter t.num_hosts)

-- `((Switch *) node)->queues[k]`
unfoldable pub queues : Topology → Node → ℕ → Option Port
queues t (agg i) k =
    if ltb k (hosts_per_agg_switch t + t.num_core_switches) then some (agg_queue i k) else none
queues t (core i) k = if ltb k t.num_agg_switches then some (core_queue i k) else none
queues t (host i) k = none
queues t (arbiter i) k = none

-- `hash_port` with the queue's `spray_counter` after it, by `params.load_balancing`.
unfoldable pub hash_port : Topology → ℕ → Packet → ℕ → ℕ × ℕ
hash_port t zero p spray = (spray % 4, add64 spray 1)
hash_port t (suc zero) p spray = (add32 (add32 (id_of t p.src) (id_of t p.dst)) p.flow % 4, spray)
hash_port t (suc (suc n)) p spray = (0, spray)

-- The next queue, where `none` is `NULL`, and the `spray_counter` of the queue that the packet leaves.
abbrev pub Hop : Type 0
Hop = Option (Option Port × ℕ)

abbrev hop : ℕ → Option Port → Hop
hop spray q = do q' ← q; some (some q', spray)

module _ (t : Topology) (load_balancing : ℕ) (p : Packet) where
  abbrev same_rack : Bool
  same_rack = id_of t p.src / 16 == id_of t p.dst / 16

  -- `queues[p->dst->id % 16]` in the same rack, and else a queue to the core.
  leave_host : Bool → Node → ℕ → Hop
  leave_host true next spray = hop spray (queues t next (id_of t p.dst % 16))
  leave_host false next spray =
      let (port, spray') = hash_port t load_balancing p spray in
      hop spray' (queues t next (16 + port))

  -- The code after the first `if`, at `q->src` and `q->dst`.
  pfabric_from : Node → Node → ℕ → Hop
  unfolding leave_host
  pfabric_from (host i) next spray = assert (id_of t p.src == i) >> leave_host same_rack next spray
  pfabric_from (arbiter i) next spray =
      assert (id_of t p.src == i) >> leave_host same_rack next spray
  pfabric_from (agg i) next spray = hop spray (queues t next (id_of t p.dst / 16))
  pfabric_from (core i) next spray = hop spray (queues t next (id_of t p.dst % 16))

  -- `PFabricTopology::get_next_hop`
  unfoldable pub pfabric_get_next_hop : Port → ℕ → Hop
  unfolding pfabric_from
  pfabric_get_next_hop q spray = do
    next ← dst_of t q
    (if is_host next then some (none, spray) else pfabric_from (src_of t q) next spray)

  -- The test of RankingTopology at a host.
  unfoldable pub ranking_same_rack : Bool
  ranking_same_rack =
      same_rack
      || ((is_arbiter p.src && id_of t p.dst / 16 == 0)
          || (is_arbiter p.dst && id_of t p.src / 16 == 0))

  core_to : Node → Option Port
  core_to next =
      if is_arbiter p.dst
      then assert (id_of t next == 0) >> some queue_to_arbiter
      else queues t next (id_of t p.dst % 16)

  ranking_from : Node → Node → ℕ → Hop
  unfolding leave_host core_to
  ranking_from (host i) next spray =
      assert (id_of t p.src == i) >> leave_host ranking_same_rack next spray
  ranking_from (arbiter i) next spray =
      assert (id_of t p.src == i) >> leave_host ranking_same_rack next spray
  ranking_from (agg i) next spray =
      hop spray (queues t next (if is_arbiter p.dst then 0 else id_of t p.dst / 16))
  ranking_from (core i) next spray = hop spray (core_to next)

  -- `RankingTopology::get_next_hop`
  unfoldable pub ranking_get_next_hop : Port → ℕ → Hop
  unfolding ranking_from
  ranking_get_next_hop q spray = do
    next ← dst_of t q
    (if is_host next then some (none, spray) else ranking_from (src_of t q) next spray)

-- BigSwitchTopology: `the_switch` is the core switch 0, with a queue to each host.
unfoldable pub big_switch_dst_of : Topology → Port → Option Node
big_switch_dst_of t (host_queue i) = if ltb i t.num_hosts then some (core 0) else none
big_switch_dst_of t (core_queue i j) = if ltb j t.num_hosts then some (host j) else none
big_switch_dst_of t (agg_queue i j) = none
big_switch_dst_of t arbiter_queue = none
big_switch_dst_of t queue_to_arbiter = none

big_switch_from : Topology → Packet → Node → Option Port
big_switch_from t p (host i) =
    assert (id_of t p.src == i)
    >> (if ltb (id_of t p.dst) t.num_hosts then some (core_queue 0 (id_of t p.dst)) else none)
big_switch_from t p (agg i) = none
big_switch_from t p (core i) = none
big_switch_from t p (arbiter i) = none

-- `BigSwitchTopology::get_next_hop`
unfoldable pub big_switch_get_next_hop : Topology → Packet → Port → ℕ → Hop
unfolding big_switch_from
big_switch_get_next_hop t p q spray = do
  next ← big_switch_dst_of t q
  (if is_host next
      then assert (id_of t p.dst == id_of t next) >> some (none, spray)
      else hop spray (big_switch_from t p (src_of t q)))
