-- ===== src/Pim/Receive.antt =====
-- What PimFlow::receive of simulator/ext/pimflow.cpp does with the control packets of an epoch.
use ruf.Prelude.{ℕ, true, false, List, [], Option, some, if◌then◌else◌}
use ruf.Prelude.Faults.{◌>>=◌}
use ruf.Pim.{PimFlow}
use ruf.Pim.Host.{PimEpoch, PimHost, Message, rts, grants, accept, grantsr}
use ruf.Pim.Epoch.{
  put_epoch, is_host, receive_rts, receive_grants, receive_accept_pkt, receive_grantsr,
}

-- The tests of `receive` for a packet of the epoch `k`: an operation on that epoch of the host, if it
-- is the current one.
unfoldable pub at_epoch :
    ℕ
    → (PimEpoch → PimHost → Option (PimEpoch × PimHost × List Message))
    → PimHost
    → Option (PimHost × List Message)
at_epoch k act h = elim (is_host h.cur_epoch k) [
  | false ↦ some (h, [])
  | true ↦ do e ← h.epochs k; (e', h', sent) ← act e h; some (put_epoch k (some e') h', sent)
]

-- The host that gets a packet.
unfoldable pub target : (ℕ → PimFlow) → Message → ℕ
target flows (rts f iter epoch) = (flows f).dst
target flows (grants f iter epoch prompt) = (flows f).src
target flows (accept f accepted iter epoch) = (flows f).dst
target flows (grantsr f iter epoch) = (flows f).src

abbrev pub flow_of : Message → ℕ
flow_of (rts f iter epoch) = f
flow_of (grants f iter epoch prompt) = f
flow_of (accept f accepted iter epoch) = f
flow_of (grantsr f iter epoch) = f

-- An operation that changes the epoch alone.
abbrev pub quiet :
    (PimEpoch → Option PimEpoch) → PimEpoch → PimHost → Option (PimEpoch × PimHost × List Message)
quiet act e h = do e' ← act e; some (e', h, [])

unfoldable pub receive_live : (ℕ → PimFlow) → Message → PimHost → Option (PimHost × List Message)
unfolding at_epoch receive_rts receive_grants receive_accept_pkt receive_grantsr
receive_live flows (rts f iter epoch) h = at_epoch epoch (quiet (receive_rts f iter epoch)) h
receive_live flows (grants f iter epoch prompt) h =
    at_epoch epoch (quiet (receive_grants f iter epoch prompt)) h
receive_live flows (accept f accepted iter epoch) h =
    at_epoch epoch (receive_accept_pkt f (flows f).src accepted epoch) h
receive_live flows (grantsr f iter epoch) h = at_epoch epoch (receive_grantsr (flows f).dst epoch) h

-- `PimFlow::receive` of a control packet, at the host that gets it.
unfoldable pub receive : (ℕ → PimFlow) → Message → PimHost → Option (PimHost × List Message)
unfolding receive_live
receive flows m h = if (flows (flow_of m)).finished then some (h, []) else receive_live flows m h
