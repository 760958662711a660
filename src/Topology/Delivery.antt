-- ===== src/Topology/Delivery.antt =====
-- simulator/coresim/topology.cpp: the routes of PFabricTopology and BigSwitchTopology.
use ruf.Prelude.{
  ℕ, zero, suc, ◌+◌, ◌*◌, ◌/◌, ◌%◌, ◌≤◌, ◌<◌, ◌≡◌, refl, true, false, List, [], ◌∷◌, none, some,
  ◌==◌, if◌then◌else◌, length, arith, ==_refl, lt→ltb, Bool-cases, inl, inr, ap,
}
use ruf.Topology.{
  Node, Port, host, agg, core, host_queue, agg_queue, core_queue, Topology, Packet, Hop, src_of,
  dst_of, queues, hash_port, hosts_per_agg_switch, pfabric_get_next_hop, big_switch_dst_of,
  big_switch_get_next_hop,
}
use ruf.Topology.Routes.{route, route-stop, route-step, Links}

-- The sizes that the code's literal 16 and 4 stand for: racks of sixteen hosts and at least four core
-- switches.
pub record Fits (t : Topology) : Type 0 where
  pub racks : t.num_hosts ≡ t.num_agg_switches * 16
  pub rack_size : hosts_per_agg_switch t ≡ 16
  pub cores : 4 ≤ t.num_core_switches

module _ (t : Topology) (fits : Fits t) where
  pub dst-host_queue : (i : ℕ) → i < t.num_hosts → dst_of t (host_queue i) ≡ some (agg (i / 16))
  unfolding dst_of
  dst-host_queue i h = ground (arith, fits.racks)

  pub dst-down : (i k : ℕ) → k < 16 → dst_of t (agg_queue i k) ≡ some (host (i * 16 + k))
  unfolding dst_of
  dst-down i k h = ground (arith, fits.rack_size)

  pub dst-up : (i k : ℕ) → k < 4 → dst_of t (agg_queue i (16 + k)) ≡ some (core k)
  unfolding dst_of
  dst-up i k h = ground (arith, fits.cores)

  pub dst-core_queue : (i j : ℕ) → j < t.num_agg_switches → dst_of t (core_queue i j) ≡ some (agg j)
  unfolding dst_of
  dst-core_queue i j h = ground arith

  pub queues-agg : (i k : ℕ) → k < 20 → queues t (agg i) k ≡ some (agg_queue i k)
  unfolding queues
  queues-agg i k h = ground (arith, fits.rack_size, fits.cores)

  pub queues-core : (i k : ℕ) → k < t.num_agg_switches → queues t (core i) k ≡ some (core_queue i k)
  unfolding queues
  queues-core i k h = ground arith

  pub core-Links :
      (c d : ℕ)
      → d < t.num_hosts
      → Links t
          (dst_of t)
          (core c)
          (host d)
          (core_queue c (d / 16) ∷ agg_queue (d / 16) (d % 16) ∷ [])
  unfolding src_of
  core-Links c d k = (
    refl,
    agg (d / 16),
    dst-core_queue c (d / 16) (omega (arith, fits.racks)),
    (
      refl,
      host (d / 16 * 16 + d % 16),
      dst-down (d / 16) (d % 16) (omega arith),
      ap host {x = d / 16 * 16 + d % 16} {y = d} (omega arith),
    ),
  )

pub hash_port-lt :
    (t : Topology) (load_balancing : ℕ) (p : Packet) (spray : ℕ)
    → (hash_port t load_balancing p spray).0 < 4
unfolding hash_port
hash_port-lt t zero p spray = omega arith
hash_port-lt t (suc zero) p spray = omega arith
hash_port-lt t (suc (suc n)) p spray = omega arith

-- A packet from one node to another.
abbrev pub between : Node → Node → ℕ → Packet
between s d flow = record { src = s; dst = d; flow = flow }

module _ (t : Topology) (fits : Fits t) (load_balancing flow s d spray : ℕ) where
  abbrev next : Port → ℕ → Hop
  next = pfabric_get_next_hop t load_balancing (between (host s) (host d) flow)

  -- Up from the host: to the rack's other host, or to a core switch.
  leave-near :
      s < t.num_hosts
      → (s / 16 == d / 16) ≡ true
      → next (host_queue s) spray ≡ some (some (agg_queue (s / 16) (d % 16)), spray)
  unfolding pfabric_get_next_hop src_of
  leave-near h same = rw (
    dst-host_queue t fits s h,
    same,
    queues-agg t fits (s / 16) (d % 16) (omega arith),
    ==_refl s,
  )

  abbrev port : ℕ
  port = (hash_port t load_balancing (between (host s) (host d) flow) spray).0

  abbrev spray' : ℕ
  spray' = (hash_port t load_balancing (between (host s) (host d) flow) spray).1

  port-lt : port < 4
  port-lt = hash_port-lt t load_balancing (between (host s) (host d) flow) spray

  leave-far :
      s < t.num_hosts
      → (s / 16 == d / 16) ≡ false
      → next (host_queue s) spray ≡ some (some (agg_queue (s / 16) (16 + port)), spray')
  unfolding pfabric_get_next_hop src_of
  leave-far h far = rw (
    dst-host_queue t fits s h,
    far,
    queues-agg t fits (s / 16) (16 + port) (omega (arith, port-lt)),
    ==_refl s,
  )

  cross-core :
      (i c n : ℕ)
      → c < 4
      → d < t.num_hosts
      → next (agg_queue i (16 + c)) n ≡ some (some (core_queue c (d / 16)), n)
  unfolding pfabric_get_next_hop src_of
  cross-core i c n h k =
      rw (dst-up t fits i c h, queues-core t fits c (d / 16) (omega (arith, fits.racks)))

  descend :
      (c n : ℕ)
      → d < t.num_hosts
      → next (core_queue c (d / 16)) n ≡ some (some (agg_queue (d / 16) (d % 16)), n)
  unfolding pfabric_get_next_hop src_of
  descend c n k = rw (
    dst-core_queue t fits c (d / 16) (omega (arith, fits.racks)),
    queues-agg t fits (d / 16) (d % 16) (omega arith),
  )

  arrive : (i n : ℕ) → next (agg_queue i (d % 16)) n ≡ some (none, n)
  unfolding pfabric_get_next_hop src_of
  arrive i n = rw (dst-down t fits i (d % 16) (omega arith))

  abbrev Delivered : List Port → Type 0
  Delivered ports =
      Links t (dst_of t) (host s) (host d) ports
      × (length ports ≡ (if s / 16 == d / 16 then 2 else 4))

  arrives_at : s / 16 ≡ d / 16 → host (s / 16 * 16 + d % 16) ≡ host d
  arrives_at e = ap host (omega arith)

  near :
      s < t.num_hosts
      → (s / 16 == d / 16) ≡ true
      → Delivered (host_queue s ∷ agg_queue (s / 16) (d % 16) ∷ [])
  unfolding src_of
  near h same = (
    (
      refl,
      agg (s / 16),
      dst-host_queue t fits s h,
      (
        refl,
        host (s / 16 * 16 + d % 16),
        dst-down t fits (s / 16) (d % 16) (omega arith),
        arrives_at (ground arith),
      ),
    ),
    rw same,
  )

  far :
      s < t.num_hosts
      → d < t.num_hosts
      → (s / 16 == d / 16) ≡ false
      → Delivered (
          host_queue s
          ∷ agg_queue (s / 16) (16 + port)
          ∷ core_queue port (d / 16)
          ∷ agg_queue (d / 16) (d % 16)
          ∷ [])
  unfolding src_of
  far h k other = (
    (
      refl,
      agg (s / 16),
      dst-host_queue t fits s h,
      (refl, core port, dst-up t fits (s / 16) port port-lt, core-Links t fits port d k),
    ),
    rw other,
  )

  -- Between two hosts of a fitting topology, `get_next_hop` leads a packet from the source's queue
  -- to the destination with no failed assert and no index out of range, whatever the load
  -- balancing: each queue on the way stands at the switch that the one before it leads to, the
  -- last leads to the destination, and there are two of them in a rack and four between racks.
  pub pfabric_route-Delivered :
      s < t.num_hosts
      → d < t.num_hosts
      → (ports : List Port) × (route next 4 (host_queue s) spray ≡ some ports) × Delivered ports
  pfabric_route-Delivered h k = elim (Bool-cases (s / 16 == d / 16)) [
    | inl same ↦ (
      host_queue s ∷ agg_queue (s / 16) (d % 16) ∷ [],
      route-step next 3 _ _ _ _ _ (leave-near h same)
          (route-stop next 2 _ _ _ (arrive (s / 16) spray)),
      near h same,
    )
    | inr other ↦ (
      _,
      route-step next 3 _ _ _ _ _ (leave-far h other) (
          route-step next 2 _ _ _ _ _ (cross-core (s / 16) port spray' port-lt k) (
            route-step next 1 _ _ _ _ _ (descend port spray' k)
              (route-stop next 0 _ _ _ (arrive (d / 16) spray')))),
      far h k other,
    )
  ]

module _ (t : Topology) (flow s d spray : ℕ) where
  big_switch_leave :
      s < t.num_hosts
      → d < t.num_hosts
      → big_switch_get_next_hop t (between (host s) (host d) flow) (host_queue s) spray
        ≡ some (some (core_queue 0 d), spray)
  unfolding big_switch_get_next_hop big_switch_dst_of src_of
  big_switch_leave h k = rw (lt→ltb s _ h, ==_refl s, lt→ltb d _ k)

  big_switch_arrive :
      d < t.num_hosts
      → big_switch_get_next_hop t (between (host s) (host d) flow) (core_queue 0 d) spray
        ≡ some (none, spray)
  unfolding big_switch_get_next_hop big_switch_dst_of src_of
  big_switch_arrive k = rw (lt→ltb d _ k, ==_refl d)

  -- Between two hosts of the one-switch topology a packet goes through the source's queue and the
  -- switch's queue to the destination, and both asserts of `get_next_hop` hold.
  pub big_switch_route-Delivered :
      s < t.num_hosts
      → d < t.num_hosts
      → (route (big_switch_get_next_hop t (between (host s) (host d) flow)) 2 (host_queue s) spray
          ≡ some (host_queue s ∷ core_queue 0 d ∷ []))
        × Links t (big_switch_dst_of t) (host s) (host d) (host_queue s ∷ core_queue 0 d ∷ [])
  unfolding big_switch_dst_of src_of
  big_switch_route-Delivered h k = (
    route-step _ 1 _ _ _ _ _ (big_switch_leave h k) (route-stop _ 0 _ _ _ (big_switch_arrive k)),
    (refl, core 0, rw (lt→ltb s _ h), (refl, host d, rw (lt→ltb d _ k), refl)),
  )
