-- ===== src/Pim/Life/Ready.antt =====
-- In its whole life a flow of PIM is one that can be tried: its counts are right, and no assert of
-- `attempt` fails.
use ruf.Prelude.{ℕ, zero, suc, ◌≤◌, ◌≡◌, refl, sym, ap, subst, [], some, arith}
use ruf.Prelude.{All-erase_idx}
use ruf.Prelude.Int.{ℤ, pos, ◌-ℤ◌}
use ruf.Params.{Params, packet_priority}
use ruf.Pim.{PimParams, PimFlow, PimPacket, PimAck, receive_data, mark_acked, acknowledge, is_acked}
use ruf.Pim
use ruf.Ranking.Flow.{packets_of}
use ruf.Ranking.Flow.Received.{missing}
use ruf.Pim.Sending.Tried.{Attempted, attempt-Attempted}
use ruf.Pim.Life.{Life, Step, tries, arrives, acknowledged, lose_data, lose_ack, Reach, here, next}
use ruf.Pim.Life.Alive.{IsAlive, Attempted-IsAlive, arrival-IsAlive, acknowledged-IsAlive}

missing-none : (n : ℕ) → missing [] n ≡ n
unfolding missing
missing-none zero = refl
missing-none (suc n) = omega (arith, missing-none n)

-- The priority of the flows of a size.
abbrev pub HasLevel : PimParams → (level size : ℕ) → Type 0
HasLevel pim level size = packet_priority (suc size) size pim.pim_small_flow ≡ some level

module _ (params : Params) (pim : PimParams) (level size : ℕ)
    (leveled : HasLevel pim level size) where
  IsAlive-Attempted :
      (s : Life) (now : ℕ) (closet : ℤ)
      → IsAlive size s
      → Attempted params pim now s.flow closet level
  IsAlive-Attempted s now closet v =
      attempt-Attempted params pim now s.flow closet level v.ready.consistent v.ready.more
        v.ready.in_order (subst (HasLevel pim level) (sym v.sized) leveled)

  Step-IsAlive : (s t : Life) → Step params pim s t → IsAlive size s → IsAlive size t
  Step-IsAlive s t (tries now closet e) v =
      Attempted-IsAlive params pim now size s closet level _ v (IsAlive-Attempted s now closet v) e
  Step-IsAlive s t (arrives now outstanding j p e) v =
      arrival-IsAlive params size now outstanding j p s e v
  Step-IsAlive s t (acknowledged now j a h e going) v =
      acknowledged-IsAlive pim size now j a h s e going v
  Step-IsAlive s t (lose_data j) v = record {
    sized = v.sized;
    ready = v.ready;
    data_sent = All-erase_idx _ s.data_packets j v.data_sent;
    acks_sent = v.acks_sent;
  }
  Step-IsAlive s t (lose_ack j) v = record {
    sized = v.sized;
    ready = v.ready;
    data_sent = v.data_sent;
    acks_sent = All-erase_idx _ s.acks j v.acks_sent;
  }

  Reach-IsAlive : (s t : Life) → Reach params pim s t → IsAlive size s → IsAlive size t
  Reach-IsAlive s t here v = v
  Reach-IsAlive s t (next r k) v = Step-IsAlive _ t k (Reach-IsAlive s _ r v)

abbrev pub begin : PimFlow → Life
begin f = record { flow = f; data_packets = []; acks = [] }

pub new-IsAlive :
    (params : Params) (id start_time size src dst deadline : ℕ)
    → 1 ≤ packets_of size params.mss
    → IsAlive
        (packets_of size params.mss)
        (begin (Pim.new params id start_time size src dst deadline))
unfolding Pim.new is_acked ◌-ℤ◌
new-IsAlive params id start_time size src dst deadline h = record {
  sized = refl;
  ready = record {
    consistent = record {
      counted = ap pos (sym (missing-none (packets_of size params.mss)));
      until = record {
        within = omega arith;
        prefix = λ i lt. absurd (omega (arith, lt));
        stops = λ lt. refl;
      };
    };
    more = ground arith;
    in_order = refl;
  };
  data_sent = tt;
  acks_sent = tt;
}

-- From the start of a flow with at least one packet and a priority, whatever attempts,
-- arrivals, acknowledgements and losses come before its last packet is acknowledged, with
-- packets and acknowledgements reordered or late: an attempt at a host with no event returns
-- with no assert failed, and the flow waits in its timeout, waits for its window, or sends its
-- next packet that is not acknowledged.
pub Reach-Attempted :
    (params : Params) (pim : PimParams) (level id start_time size src dst deadline : ℕ)
    → 1 ≤ packets_of size params.mss
    → HasLevel pim level (packets_of size params.mss)
    → (t : Life) → Reach params pim (begin (Pim.new params id start_time size src dst deadline)) t
    → (now : ℕ) (closet : ℤ) → Attempted params pim now t.flow closet level
Reach-Attempted params pim level id start_time size src dst deadline h l t r now closet =
    let n = packets_of size params.mss in
    IsAlive-Attempted params pim level n l t now closet (
      Reach-IsAlive params pim level n l _ t r
        (new-IsAlive params id start_time size src dst deadline h))
