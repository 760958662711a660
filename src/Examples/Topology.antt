-- ===== src/Examples/Topology.antt =====
-- The routes of the simulator's topology of 144 hosts.
use ruf.Prelude.{◌/◌, ◌≡◌, refl, List, [], ◌∷◌, some, length, ◌==◌, if◌then◌else◌, arith}
use ruf.Topology.{
  Port, Topology, host, arbiter, host_queue, agg_queue, core_queue, arbiter_queue, src_of, dst_of,
  queues, hash_port, big_switch_dst_of, pfabric_get_next_hop, big_switch_get_next_hop,
  ranking_get_next_hop,
}
use ruf.Topology.Routes.{route, Links}
use ruf.Topology.Delivery.{Fits, between, pfabric_route-Delivered, big_switch_route-Delivered}
use ruf.Topology.Ranking.{
  ranking_get_next_hop-pfabric_get_next_hop, grant_route-Granted, request_route-Reaches,
  request_route-Strays,
}

abbrev pub default : Topology
default = record { num_hosts = 144; num_agg_switches = 9; num_core_switches = 4 }

fits : Fits default
fits = record { racks = refl; rack_size = refl; cores = omega arith }

-- The first queue to the core is taken, since the counter is a multiple of four.
route_far :
    route (pfabric_get_next_hop default 0 (between (host 3) (host 77) 5)) 4 (host_queue 3) 8
    ≡ some (host_queue 3 ∷ agg_queue 0 16 ∷ core_queue 0 4 ∷ agg_queue 4 13 ∷ [])
unfolding route pfabric_get_next_hop dst_of src_of queues hash_port
route_far = refl

pfabric_route-Delivered_example :
    (ports : List Port) × (route
        (pfabric_get_next_hop default 0 (between (host 3) (host 77) 5))
        4
        (host_queue 3)
        8
      ≡ some ports)
    × (Links default (dst_of default) (host 3) (host 77) ports
        × (length ports ≡ (if 3 / 16 == 77 / 16 then 2 else 4)))
pfabric_route-Delivered_example =
    pfabric_route-Delivered default fits 0 5 3 77 8 (omega arith) (omega arith)

big_switch_route-Delivered_example :
    (route (big_switch_get_next_hop default (between (host 3) (host 77) 5)) 2 (host_queue 3) 0
      ≡ some (host_queue 3 ∷ core_queue 0 77 ∷ []))
    × Links default
        (big_switch_dst_of default)
        (host 3)
        (host 77)
        (host_queue 3 ∷ core_queue 0 77 ∷ [])
big_switch_route-Delivered_example =
    big_switch_route-Delivered default 5 3 77 0 (omega arith) (omega arith)

ranking_get_next_hop-pfabric_get_next_hop_example :
    ranking_get_next_hop default 1 (between (host 3) (host 77) 5) (host_queue 3) 0
    ≡ pfabric_get_next_hop default 1 (between (host 3) (host 77) 5) (host_queue 3) 0
ranking_get_next_hop-pfabric_get_next_hop_example =
    ranking_get_next_hop-pfabric_get_next_hop default 1 5 3 77 0 (host_queue 3)

grant_route-Granted_example :
    (ports : List Port) × (route
        (ranking_get_next_hop default 0 (between (arbiter 144) (host 77) 0))
        4
        arbiter_queue
        2
      ≡ some ports)
    × Links default (dst_of default) (arbiter 144) (host 77) ports
grant_route-Granted_example = grant_route-Granted default fits 0 0 77 2 (omega arith)

request_route-Reaches_example :
    (ports : List Port) × (route
        (ranking_get_next_hop default 1 (between (host 77) (arbiter 144) 0))
        4
        (host_queue 77)
        2
      ≡ some ports)
    × Links default (dst_of default) (host 77) (arbiter 144) ports
    × (length ports ≡ 4)
request_route-Reaches_example =
    request_route-Reaches default fits 1 0 77 2 (omega arith) (omega arith)

request_route-Strays_example :
    (route (ranking_get_next_hop default 1 (between (host 3) (arbiter 144) 0)) 4 (host_queue 3) 2
      ≡ some (host_queue 3 ∷ agg_queue 0 0 ∷ []))
    × Links default (dst_of default) (host 3) (host 0) (host_queue 3 ∷ agg_queue 0 0 ∷ [])
request_route-Strays_example = request_route-Strays default fits 1 0 3 2 (omega arith) (omega arith)
