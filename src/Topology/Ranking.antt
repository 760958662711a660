-- ===== src/Topology/Ranking.antt =====
-- simulator/ext/rankingTopology.cpp: the routes of RankingTopology between the hosts and the arbiter.
use ruf.Prelude.{
  ℕ, ◌+◌, ◌*◌, ◌/◌, ◌%◌, ◌≤◌, ◌<◌, ◌≡◌, refl, ap, true, false, List, [], ◌∷◌, none, some, ltb, ◌==◌,
  length, arith, Bool-cases, inl, inr, ◌∙◌, ==_refl,
}
use ruf.Topology.{
  Port, Topology, Packet, Hop, host, agg, core, arbiter, host_queue, agg_queue, core_queue,
  arbiter_queue, queue_to_arbiter, src_of, dst_of, hash_port, pfabric_get_next_hop,
  ranking_same_rack, ranking_get_next_hop,
}
use ruf.Topology.Routes.{route, route-stop, route-step, Links}
use ruf.Topology.Delivery.{
  Fits, between, dst-host_queue, dst-down, dst-up, dst-core_queue, queues-agg, queues-core,
  hash_port-lt, core-Links,
}

module _ (t : Topology) (load_balancing flow s d spray : ℕ) where
  same_test :
      ranking_same_rack t load_balancing (between (host s) (host d) flow) ≡ (s / 16 == d / 16)
  unfolding ranking_same_rack
  same_test = ground arith

  -- Between two hosts RankingTopology takes the queues that PFabricTopology takes.
  pub ranking_get_next_hop-pfabric_get_next_hop :
      (q : Port)
      → ranking_get_next_hop t load_balancing (between (host s) (host d) flow) q spray
        ≡ pfabric_get_next_hop t load_balancing (between (host s) (host d) flow) q spray
  unfolding ranking_get_next_hop pfabric_get_next_hop src_of
  ranking_get_next_hop-pfabric_get_next_hop (host_queue i) =
      rw (same_test, ranking_get_next_hop, pfabric_get_next_hop)
  ranking_get_next_hop-pfabric_get_next_hop (agg_queue i j) = refl
  ranking_get_next_hop-pfabric_get_next_hop (core_queue i j) = refl
  ranking_get_next_hop-pfabric_get_next_hop arbiter_queue =
      rw (same_test, ranking_get_next_hop, pfabric_get_next_hop)
  ranking_get_next_hop-pfabric_get_next_hop queue_to_arbiter = refl

module _ (t : Topology) (fits : Fits t) (load_balancing flow d spray : ℕ) where
  abbrev grant : Packet
  grant = between (arbiter t.num_hosts) (host d) flow

  abbrev grant_next : Port → ℕ → Hop
  grant_next = ranking_get_next_hop t load_balancing grant

  abbrev port : ℕ
  port = (hash_port t load_balancing grant spray).0

  abbrev spray' : ℕ
  spray' = (hash_port t load_balancing grant spray).1

  port-lt : port < 4
  port-lt = hash_port-lt t load_balancing grant spray

  near_test : d < t.num_hosts → d < 16 → ranking_same_rack t load_balancing grant ≡ true
  unfolding ranking_same_rack
  near_test h k = ground (arith, fits.racks)

  far_test : d < t.num_hosts → 16 ≤ d → ranking_same_rack t load_balancing grant ≡ false
  unfolding ranking_same_rack
  far_test h k = ground (arith, fits.racks)

  leave-near :
      d < t.num_hosts
      → d < 16
      → grant_next arbiter_queue spray ≡ some (some (agg_queue 0 (d % 16)), spray)
  unfolding ranking_get_next_hop src_of dst_of
  leave-near h k =
      rw (near_test h k, queues-agg t fits 0 (d % 16) (omega arith), ==_refl t.num_hosts)

  leave-far :
      d < t.num_hosts
      → 16 ≤ d
      → grant_next arbiter_queue spray ≡ some (some (agg_queue 0 (16 + port)), spray')
  unfolding ranking_get_next_hop src_of dst_of
  leave-far h k =
      rw (
        far_test h k,
        queues-agg t fits 0 (16 + port) (omega (arith, port-lt)),
        ==_refl t.num_hosts,
      )

  cross-core :
      (n : ℕ)
      → d < t.num_hosts
      → grant_next (agg_queue 0 (16 + port)) n ≡ some (some (core_queue port (d / 16)), n)
  unfolding ranking_get_next_hop src_of
  cross-core n k =
      rw
        (dst-up t fits 0 port port-lt, queues-core t fits port (d / 16) (omega (arith, fits.racks)))

  descend :
      (n : ℕ)
      → d < t.num_hosts
      → grant_next (core_queue port (d / 16)) n ≡ some (some (agg_queue (d / 16) (d % 16)), n)
  unfolding ranking_get_next_hop src_of
  descend n k = rw (
    dst-core_queue t fits port (d / 16) (omega (arith, fits.racks)),
    queues-agg t fits (d / 16) (d % 16) (omega arith),
  )

  arrive : (i n : ℕ) → grant_next (agg_queue i (d % 16)) n ≡ some (none, n)
  unfolding ranking_get_next_hop src_of
  arrive i n = rw (dst-down t fits i (d % 16) (omega arith))

  abbrev Granted : List Port → Type 0
  Granted ports = Links t (dst_of t) (arbiter t.num_hosts) (host d) ports

  Granted-near : d < 16 → Granted (arbiter_queue ∷ agg_queue 0 (d % 16) ∷ [])
  unfolding src_of dst_of
  Granted-near k = (
    refl,
    agg 0,
    refl,
    (
      refl,
      host (0 * 16 + d % 16),
      dst-down t fits 0 (d % 16) (omega arith),
      ap host {x = 0 * 16 + d % 16} {y = d} (omega arith),
    ),
  )

  Granted-far :
      d < t.num_hosts
      → Granted (
          arbiter_queue
          ∷ agg_queue 0 (16 + port)
          ∷ core_queue port (d / 16)
          ∷ agg_queue (d / 16) (d % 16)
          ∷ [])
  unfolding src_of dst_of
  Granted-far h = (
    refl,
    agg 0,
    refl,
    (refl, core port, dst-up t fits 0 port port-lt, core-Links t fits port d h),
  )

  -- A packet of the arbiter reaches any host: no assert of `get_next_hop` fails, no index is out of
  -- range, and each queue on its way stands where the one before it leads to.
  pub grant_route-Granted :
      d < t.num_hosts
      → (ports : List Port) × (route grant_next 4 arbiter_queue spray ≡ some ports) × Granted ports
  grant_route-Granted h = elim (Bool-cases (ltb d 16)) [
    | inl near ↦ (
      arbiter_queue ∷ agg_queue 0 (d % 16) ∷ [],
      route-step grant_next 3 _ _ _ _ _ (leave-near h (ground arith))
          (route-stop grant_next 2 _ _ _ (arrive 0 spray)),
      Granted-near (ground arith),
    )
    | inr far ↦ (
      _,
      route-step grant_next 3 _ _ _ _ _ (leave-far h (ground arith)) (
          route-step grant_next 2 _ _ _ _ _ (cross-core spray' h) (
            route-step grant_next 1 _ _ _ _ _ (descend spray' h)
              (route-stop grant_next 0 _ _ _ (arrive (d / 16) spray')))),
      Granted-far h,
    )
  ]

module _ (t : Topology) (fits : Fits t) (load_balancing flow s spray : ℕ) where
  abbrev request : Packet
  request = between (host s) (arbiter t.num_hosts) flow

  abbrev request_next : Port → ℕ → Hop
  request_next = ranking_get_next_hop t load_balancing request

  abbrev up : ℕ
  up = (hash_port t load_balancing request spray).0

  up-lt : up < 4
  up-lt = hash_port-lt t load_balancing request spray

  rack_zero : s < 16 → ranking_same_rack t load_balancing request ≡ true
  unfolding ranking_same_rack
  rack_zero h = ground arith

  other_rack : s < t.num_hosts → 16 ≤ s → ranking_same_rack t load_balancing request ≡ false
  unfolding ranking_same_rack
  other_rack h k = ground (arith, fits.racks)

  request-leave :
      s < t.num_hosts
      → 16 ≤ s
      → request_next (host_queue s) spray
        ≡ some (some (agg_queue (s / 16) (16 + up)), (hash_port t load_balancing request spray).1)
  unfolding ranking_get_next_hop src_of
  request-leave h k = rw (
    dst-host_queue t fits s h,
    other_rack h k,
    queues-agg t fits (s / 16) (16 + up) (omega (arith, up-lt)),
    ==_refl s,
  )

  request-core :
      (n : ℕ)
      → s < t.num_hosts
      → request_next (agg_queue (s / 16) (16 + up)) n ≡ some (some (core_queue up 0), n)
  unfolding ranking_get_next_hop src_of
  request-core n h =
      rw (dst-up t fits (s / 16) up up-lt, queues-core t fits up 0 (omega (arith, fits.racks)))

  request-descend :
      (n : ℕ) → s < t.num_hosts → request_next (core_queue up 0) n ≡ some (some queue_to_arbiter, n)
  unfolding ranking_get_next_hop src_of
  request-descend n h = rw (dst-core_queue t fits up 0 (omega (arith, fits.racks)))

  request-arrive : (n : ℕ) → request_next queue_to_arbiter n ≡ some (none, n)
  unfolding ranking_get_next_hop dst_of
  request-arrive n = refl

  -- A packet of a host outside the first rack reaches the arbiter by four queues: no assert of
  -- `get_next_hop` fails, no index is out of range, and each queue stands where the one before it
  -- leads to.
  pub request_route-Reaches :
      s < t.num_hosts
      → 16 ≤ s
      → (ports : List Port) × (route request_next 4 (host_queue s) spray ≡ some ports)
        × Links t (dst_of t) (host s) (arbiter t.num_hosts) ports
        × (length ports ≡ 4)
  unfolding src_of dst_of
  request_route-Reaches h k = (
    host_queue s ∷ agg_queue (s / 16) (16 + up) ∷ core_queue up 0 ∷ queue_to_arbiter ∷ [],
    route-step request_next 3 _ _ _ _ _ (request-leave h k) (
        route-step request_next 2 _ _ _ _ _ (request-core _ h) (
          route-step request_next 1 _ _ _ _ _ (request-descend _ h)
            (route-stop request_next 0 _ _ _ (request-arrive _)))),
    (
      refl,
      agg (s / 16),
      dst-host_queue t fits s h,
      (
        refl,
        core up,
        dst-up t fits (s / 16) up up-lt,
        (
          refl,
          agg 0,
          dst-core_queue t fits up 0 (omega (arith, fits.racks)),
          (refl, arbiter t.num_hosts, refl, refl),
        ),
      ),
    ),
    refl,
  )

  rack_of : s < 16 → s / 16 ≡ 0
  rack_of h = omega arith

  down_index : t.num_hosts % 16 ≡ 0
  down_index = omega (arith, fits.racks)

  request-strays :
      s < t.num_hosts
      → s < 16
      → request_next (host_queue s) spray ≡ some (some (agg_queue 0 0), spray)
  unfolding ranking_get_next_hop src_of
  request-strays h k = rw (
    dst-host_queue t fits s h,
    rack_zero k,
    rack_of k,
    down_index,
    queues-agg t fits 0 0 (omega arith),
    ==_refl s,
  )

  stray-arrive : request_next (agg_queue 0 0) spray ≡ some (none, spray)
  unfolding ranking_get_next_hop
  stray-arrive = rw (dst-down t fits 0 0 (omega arith))

  -- A packet for the arbiter from a host of the first rack takes the aggregation switch's queue to
  -- host 0, not `queue_to_arbiter`: the index is the arbiter's id modulo 16.
  pub request_route-Strays :
      s < t.num_hosts
      → s < 16
      → (route request_next 4 (host_queue s) spray ≡ some (host_queue s ∷ agg_queue 0 0 ∷ []))
        × Links t (dst_of t) (host s) (host 0) (host_queue s ∷ agg_queue 0 0 ∷ [])
  unfolding src_of
  request_route-Strays h k = (
    route-step request_next 3 _ _ _ _ _ (request-strays h k)
        (route-stop request_next 2 _ _ _ stray-arrive),
    (
      refl,
      agg 0,
      dst-host_queue t fits s h ∙ ap some (ap agg (rack_of k)),
      (refl, host 0, dst-down t fits 0 0 (omega arith), refl),
    ),
  )
