-- ===== src/Ranking/Flow/Received.antt =====
-- The receiver's bookkeeping of a flow: what `received_count` and `received_until` say of the set of
-- received packets, and that every data packet keeps it so.
use ruf.Prelude.{
  ℕ, zero, suc, ◌+◌, ◌≤◌, ◌<◌, ◌≡◌, refl, inl, inr, true, false, List, ◌∷◌, ◌&&◌, ltb, ◌↔◌, ◌==◌,
  if◌then◌else◌, Bool-cases, arith,
}
use ruf.Prelude.Slots.{contains}
use ruf.Params.{Params}
use ruf.Ranking.Flow.{RankingFlow, DataPacket, advance, mark_new, mark_received, receive_data}

-- How many of the numbers below `n` are not in the list.
unfoldable pub missing : List ℕ → ℕ → ℕ
missing xs zero = 0
missing xs (suc n) = missing xs n + (if contains xs n then 0 else 1)

missing-cons_above : (xs : List ℕ) (d n : ℕ) → n ≤ d → missing (d ∷ xs) n ≡ missing xs n
unfolding missing
missing-cons_above xs d zero h = refl
missing-cons_above xs d (suc n) h = ground (arith, missing-cons_above xs d n)

pub missing-cons :
    (xs : List ℕ) (d n : ℕ) → d < n → contains xs d ≡ false → missing (d ∷ xs) n + 1 ≡ missing xs n
unfolding missing
missing-cons xs d zero h new = absurd (omega arith)
missing-cons xs d (suc n) h new = ground (arith, missing-cons xs d n, missing-cons_above xs d n)

pub missing-eq-zero : (xs : List ℕ) (n i : ℕ) → missing xs n ≡ 0 → i < n → contains xs i ≡ true
unfolding missing
missing-eq-zero xs zero i h lt = absurd (omega arith)
missing-eq-zero xs (suc n) i h lt = ground (arith, missing-eq-zero xs n i)

pub missing-all :
    (xs : List ℕ) (n : ℕ) → ((i : ℕ) → i < n → contains xs i ≡ true) → missing xs n ≡ 0
unfolding missing
missing-all xs zero all = refl
missing-all xs (suc n) all = ground (arith, all n, missing-all xs n (λ i h. all i (omega arith)))

pub missing-le : (xs : List ℕ) (n : ℕ) → missing xs n ≤ n
unfolding missing
missing-le xs zero = omega arith
missing-le xs (suc n) = ground (arith, missing-le xs n)

-- `u` is the first number below `size` that is not in the list, or `size`.
pub record IsUntil (xs : List ℕ) (size u : ℕ) : Type 0 where
  pub within : u ≤ size
  pub prefix : (i : ℕ) → i < u → contains xs i ≡ true
  pub stops : u < size → contains xs u ≡ false

-- The loop on `received_until` finds it, from any start below it and with fuel for the rest.
pub advance-IsUntil :
    (xs : List ℕ) (size fuel u : ℕ)
    → size ≤ fuel + u
    → u ≤ size
    → ((i : ℕ) → i < u → contains xs i ≡ true)
    → IsUntil xs size (advance xs size fuel u)
unfolding advance
advance-IsUntil xs size zero u enough within prefix = record {
  within = within;
  prefix = prefix;
  stops = λ h. absurd (omega arith);
}
advance-IsUntil xs size (suc n) u enough within prefix =
    elim (Bool-cases (ltb u size && contains xs u)) [
      | inl go_on ↦ rw go_on (
          advance-IsUntil xs size n (u + 1) (omega arith) (ground arith) (λ i h.
            elim (Bool-cases (i == u)) [
              | inl last ↦ ground arith
              | inr earlier ↦ prefix i (ground arith)
            ]))
      | inr stop ↦ rw stop (record { within = within; prefix = prefix; stops = λ h. ground arith })
    ]

-- The receiver's counts agree with its set of packets.
pub record IsConsistent (f : RankingFlow) : Type 0 where
  pub whole : f.goal ≡ f.size_in_pkt
  pub counted : f.received_count + missing f.packets_received f.size_in_pkt ≡ f.size_in_pkt
  pub until : IsUntil f.packets_received f.size_in_pkt f.received_until

contains-cons : (xs : List ℕ) (d i : ℕ) → contains xs i ≡ true → contains (d ∷ xs) i ≡ true
contains-cons xs d i h = ground arith

mark_new-IsConsistent :
    (f : RankingFlow) (d : ℕ)
    → d < f.size_in_pkt
    → contains f.packets_received d ≡ false
    → IsConsistent f
    → IsConsistent (mark_new d f)
unfolding mark_new
mark_new-IsConsistent f d h new c = record {
  whole = c.whole;
  counted = omega (arith, c.counted, missing-cons f.packets_received d f.size_in_pkt h new);
  until =
      advance-IsUntil (d ∷ f.packets_received) f.size_in_pkt f.size_in_pkt f.received_until
        (omega arith) c.until.within
        (λ i lt. contains-cons f.packets_received d i (c.until.prefix i lt));
}

-- A data packet whose number is one of the flow's keeps the receiver's counts right, whether it is
-- new or a duplicate: `received_count` is the number of the flow's packets received, and
-- `received_until` the first of them that was not.
pub receive_data-IsConsistent :
    (params : Params) (f : RankingFlow) (p : DataPacket)
    → p.capa_data_seq < f.size_in_pkt
    → IsConsistent f
    → IsConsistent (receive_data params f p)
unfolding receive_data mark_received
receive_data-IsConsistent params f p h c =
    elim (Bool-cases (contains f.packets_received p.capa_data_seq)) [
      | inl old ↦ rw old (record { whole = c.whole; counted = c.counted; until = c.until })
      | inr new ↦
          let m = mark_new-IsConsistent f p.capa_data_seq h new c in
          rw new (record { whole = m.whole; counted = m.counted; until = m.until })
    ]

-- For a flow whose counts are right the test `received_count >= goal` holds exactly when every
-- packet of the flow was received.
pub goal-reached :
    (f : RankingFlow)
    → IsConsistent f
    → (f.goal ≤ f.received_count)
      ↔ ((i : ℕ) → i < f.size_in_pkt → contains f.packets_received i ≡ true)
goal-reached f c = (
  λ h i lt.
      missing-eq-zero f.packets_received f.size_in_pkt i (omega (arith, c.counted, c.whole)) lt,
  λ all. omega (arith, c.counted, c.whole, missing-all f.packets_received f.size_in_pkt all),
)

-- A flow with packets to come has not received the packet `received_until`.
pub received_until-lt :
    (f : RankingFlow)
    → IsConsistent f
    → f.received_count < f.goal
    → f.received_until < f.size_in_pkt
received_until-lt f c h = elim (Bool-cases (ltb f.received_until f.size_in_pkt)) [
  | inl inside ↦ ground arith
  | inr done ↦ absurd (
      omega (
        arith,
        c.counted,
        c.whole,
        missing-all f.packets_received f.size_in_pkt (λ i lt. c.until.prefix i (ground arith)),
      ))
]
