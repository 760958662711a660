-- ===== src/Pim/Acks.antt =====
-- The acknowledgements of a PimFlow: what `remaining_pkts_at_sender` and `ack_until` say of the set of
-- packets acknowledged.
use ruf.Prelude.{ℕ, ◌+◌, ◌<◌, ◌≡◌, ◌∙◌, ap, inl, inr, true, false, ◌∷◌, ◌↔◌, Bool-cases, arith}
use ruf.Prelude.Int.{pos, ◌-ℤ◌}
use ruf.Prelude.Slots.{contains}
use ruf.Ranking.Flow.Received.{
  IsUntil, missing, missing-cons, missing-eq-zero, missing-all, advance-IsUntil,
}
use ruf.Pim.{PimFlow, PimAck, mark_acked, acknowledge, is_acked}

-- The sender's counts agree with its set of acknowledged packets.
pub record IsConsistent (f : PimFlow) : Type 0 where
  pub counted : f.remaining_pkts_at_sender ≡ pos (missing f.ack_received f.size_in_pkt)
  pub until : IsUntil f.ack_received f.size_in_pkt f.ack_until

less_one : (m n : ℕ) → m + 1 ≡ n → pos n -ℤ pos 1 ≡ pos m
unfolding ◌-ℤ◌
less_one m n e = ground arith

contains-cons :
    (f : PimFlow) (d i : ℕ)
    → contains f.ack_received i ≡ true
    → contains (d ∷ f.ack_received) i ≡ true
contains-cons f d i h = ground arith

mark_acked-IsConsistent :
    (f : PimFlow) (d : ℕ)
    → d < f.size_in_pkt
    → contains f.ack_received d ≡ false
    → IsConsistent f
    → IsConsistent (mark_acked d f)
unfolding mark_acked
mark_acked-IsConsistent f d h new c = record {
  counted =
      ap (λ r. r -ℤ pos 1) c.counted
      ∙ less_one _ _ (missing-cons f.ack_received d f.size_in_pkt h new);
  until =
      advance-IsUntil (d ∷ f.ack_received) f.size_in_pkt f.size_in_pkt f.ack_until (omega arith)
        c.until.within (λ i lt. contains-cons f d i (c.until.prefix i lt));
}

pub acknowledge-IsConsistent :
    (f : PimFlow) (a : PimAck)
    → a.data_seq_no_acked < f.size_in_pkt
    → IsConsistent f
    → IsConsistent (acknowledge a f)
unfolding acknowledge
acknowledge-IsConsistent f a h c = elim (Bool-cases (contains f.ack_received a.data_seq_no_acked)) [
  | inl old ↦ rw old (record { counted = c.counted; until = c.until })
  | inr new ↦
      let m = mark_acked-IsConsistent f a.data_seq_no_acked h new c in
      rw new (record { counted = m.counted; until = m.until })
]

is_acked_iff :
    (f : PimFlow)
    → IsConsistent f
    → (is_acked f ≡ true) ↔ ((i : ℕ) → i < f.size_in_pkt → contains f.ack_received i ≡ true)
unfolding is_acked
is_acked_iff f c = (
  λ h i lt. missing-eq-zero f.ack_received f.size_in_pkt i (ground (arith, c.counted)) lt,
  λ all. ground (arith, c.counted, missing-all f.ack_received f.size_in_pkt all),
)
