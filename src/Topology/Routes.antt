-- ===== src/Topology/Routes.antt =====
-- The way that a packet takes from queue to queue, as QueueProcessingEvent asks for it at each.
use ruf.Prelude.{ℕ, zero, suc, List, [], ◌∷◌, Option, none, some, ◌≡◌}
use ruf.Prelude.Faults.{◌>>=◌}
use ruf.Topology.{Node, Port, Topology, Hop, src_of}

-- The queues that a packet goes through from one on, until it arrives. Only the counter of the first
-- queue is followed: a switch does not read its own.
module _ (next_hop : Port → ℕ → Hop) where
  unfoldable pub route : ℕ → Port → ℕ → Option (List Port)
  route zero q spray = none
  route (suc n) q spray = do
    (next, spray') ← next_hop q spray
    elim next [ none ↦ some (q ∷ []) | some q' ↦ do rest ← route n q' spray'; some (q ∷ rest) ]

  pub route-stop :
      (n : ℕ) (q : Port) (spray spray' : ℕ)
      → next_hop q spray ≡ some (none, spray')
      → route (suc n) q spray ≡ some (q ∷ [])
  unfolding route
  route-stop n q spray spray' h = rw h

  pub route-step :
      (n : ℕ) (q q' : Port) (spray spray' : ℕ) (rest : List Port)
      → next_hop q spray ≡ some (some q', spray')
      → route n q' spray' ≡ some rest
      → route (suc n) q spray ≡ some (q ∷ rest)
  unfolding route
  route-step n q q' spray spray' rest h k = rw (h, k)

-- Each queue stands at the node that the queue before it leads to, and the last leads to the end.
abbrev pub Links : Topology → (Port → Option Node) → Node → Node → List Port → Type 0
Links t dst_of from to [] = from ≡ to
Links t dst_of from to (q ∷ rest) =
    (src_of t q ≡ from) × (next : Node) × (dst_of q ≡ some next) × Links t dst_of next to rest
