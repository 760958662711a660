-- ===== src/Examples/Lookups.antt =====
-- A table of three flow sizes, and priorities to the base of ten.
use ruf.Prelude.{
  ℕ, suc, ◌≡◌, refl, List, [], ◌∷◌, none, some, ltb, if◌then◌else◌, arith, get_or, zero,
}
use ruf.RandomVariable.{CdfEntry, lookup, cdf_value, search}
use ruf.RandomVariable.Search.{IsSorted, Found, nothing, lookup-Found, lookup-cdf_value}
use ruf.Params.{packet_priority, priority_loop}
use ruf.Params.Priority.{Level, packet_priority-Level, packet_priority_diverges}

abbrev sizes : List CdfEntry
sizes =
    record { cdf = 500; val = 1 }
    ∷ record { cdf = 800; val = 10 }
    ∷ record { cdf = 1000; val = 1000 }
    ∷ []

sizes-IsSorted : IsSorted sizes
sizes-IsSorted zero zero h k = omega arith
sizes-IsSorted zero (suc zero) h k = omega arith
sizes-IsSorted zero (suc (suc zero)) h k = omega arith
sizes-IsSorted (suc zero) zero h k = absurd (omega arith)
sizes-IsSorted (suc zero) (suc zero) h k = omega arith
sizes-IsSorted (suc zero) (suc (suc zero)) h k = omega arith
sizes-IsSorted (suc (suc zero)) zero h k = absurd (omega arith)
sizes-IsSorted (suc (suc zero)) (suc zero) h k = absurd (omega arith)
sizes-IsSorted (suc (suc zero)) (suc (suc zero)) h k = omega arith
sizes-IsSorted (suc (suc (suc i))) j h k = absurd (omega arith)
sizes-IsSorted zero (suc (suc (suc j))) h k = absurd (omega arith)
sizes-IsSorted (suc zero) (suc (suc (suc j))) h k = absurd (omega arith)
sizes-IsSorted (suc (suc zero)) (suc (suc (suc j))) h k = absurd (omega arith)

lookup_middle : lookup sizes 700 ≡ some 1
unfolding lookup search
lookup_middle = refl

lookup-Found_example : (i : ℕ) × (lookup sizes 700 ≡ some i) × Found sizes 700 i
lookup-Found_example = lookup-Found sizes 700 sizes-IsSorted (omega arith)

lookup-cdf_value_example :
    (i : ℕ) × (lookup sizes 700 ≡ some i)
    × (cdf_value sizes 700 ≡ some (get_or sizes i nothing).val)
lookup-cdf_value_example = lookup-cdf_value sizes 700 sizes-IsSorted (omega arith)

priority_of : packet_priority 301 300 10 ≡ some 3
unfolding packet_priority priority_loop
priority_of = refl

packet_priority-Level_example :
    (p : ℕ) × (packet_priority 301 300 10 ≡ some (if ltb 6 p then 6 else p)) × Level 10 300 p
packet_priority-Level_example = packet_priority-Level 10 300 (omega arith) (omega arith)

packet_priority_diverges_example : packet_priority 99 2 1 ≡ none
packet_priority_diverges_example = packet_priority_diverges 99 2 (omega arith)
