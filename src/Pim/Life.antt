-- ===== src/Pim/Life.antt =====
-- The life of a flow of PIM until its last packet is acknowledged (simulator/ext/pimflow.cpp and `send` of
-- pimhost.cpp), as a step relation: data packets and acknowledgements may arrive in any order, late,
-- or never.
pub mod Alive
pub mod Ready
use ruf.Prelude.{
  ℕ, ◌≡◌, Bool, true, false, List, [], ◌∷◌, ◌++◌, Option, none, some, get_elem?, erase_idx,
}
use ruf.Prelude.Int.{ℤ}
use ruf.Params.{Params}
use ruf.Pim.{PimParams, PimFlow, PimPacket, PimAck, receive_data}
use ruf.Pim.Host.{PimHost}
use ruf.Pim.Sending.{Attempt, attempt, receive_ack}

-- The flow, with its packets and acknowledgements on their way.
pub record Life : Type 0 where
  pub flow : PimFlow
  pub data_packets : List PimPacket
  pub acks : List PimAck

-- With `none` for no packet.
abbrev pub add_packet : List PimPacket → Option PimPacket → List PimPacket
add_packet ps none = ps
add_packet ps (some p) = ps ++ p ∷ []

module _ (params : Params) (pim : PimParams) where
  pub data Step (s : Life) : Life → Type 0 where
    -- The host tries the flow.
    tries :
        {a : Attempt} (now : ℕ) (closet : ℤ)
        → attempt params pim now none s.flow closet ≡ some a
        → Step s (record s { flow = a.flow; data_packets = add_packet s.data_packets a.packet })
    arrives :
        (now outstanding j : ℕ) (p : PimPacket)
        → get_elem? s.data_packets j ≡ some p
        → Step s (record {
          flow = (receive_data params now p (s.flow, outstanding)).0;
          data_packets = erase_idx s.data_packets j;
          acks = s.acks ++ (receive_data params now p (s.flow, outstanding)).2 ∷ [];
        })
    -- An acknowledgement that does not finish the flow.
    acknowledged :
        (now j : ℕ) (a : PimAck) (h : PimHost)
        → get_elem? s.acks j ≡ some a
        → (receive_ack pim now a s.flow h).2 ≡ false
        → Step s (record s { flow = (receive_ack pim now a s.flow h).0; acks = erase_idx s.acks j })
    lose_data : (j : ℕ) → Step s (record s { data_packets = erase_idx s.data_packets j })
    lose_ack : (j : ℕ) → Step s (record s { acks = erase_idx s.acks j })

  pub data Reach (s : Life) : Life → Type 0 where
    here : Reach s s
    next : {t u : Life} → Reach s t → Step t u → Reach s u
