-- ===== src/Ranking/Flow/Next.antt =====
-- `get_next_token_seq_num`: which packet the next token asks for.
use ruf.Prelude.{
  ℕ, zero, suc, ◌+◌, ◌%◌, ◌≤◌, ◌<◌, ◌≡◌, refl, ◌∙◌, ◌⊎◌, inl, inr, true, false, some, ◌==◌, leb,
  Bool-cases, arith,
}
use ruf.Prelude.Int.{pos, pos_part, ◌+ℤ◌}
use ruf.Prelude.Slots.{contains}
use ruf.Ranking.Flow.{RankingFlow, next_seq_loop, get_next_token_seq_num}
use ruf.Ranking.Flow.Received.{IsConsistent, received_until-lt}

-- Where the search begins.
abbrev pub search_start : RankingFlow → ℕ
search_start f = pos_part (f.last_token_data_seq_num_sent +ℤ pos 1) % f.size_in_pkt

-- `d` is the first packet from `u` on that is not received; if there is none, it is the first of all.
abbrev pub Chosen : RankingFlow → ℕ → ℕ → Type 0
Chosen f u d =
    ((u ≤ d) × ((i : ℕ) → u ≤ i → i < d → contains f.packets_received i ≡ true))
    ⊎ ((d ≡ f.received_until)
        × ((i : ℕ) → u ≤ i → i < f.size_in_pkt → contains f.packets_received i ≡ true))

pub record IsNext (f : RankingFlow) (u d : ℕ) : Type 0 where
  pub inside : d < f.size_in_pkt
  pub wanted : contains f.packets_received d ≡ false
  pub chosen : Chosen f u d

Chosen-before :
    (f : RankingFlow) (u d : ℕ)
    → contains f.packets_received u ≡ true
    → Chosen f (u + 1) d
    → Chosen f u d
Chosen-before f u d old (inl (le, between)) = inl (
  omega arith,
  λ i from to. elim (Bool-cases (i == u)) [
    | inl e ↦ ground arith
    | inr e ↦ between i (ground arith) to
  ],
)
Chosen-before f u d old (inr (e, rest)) = inr (
  e,
  λ i from to. elim (Bool-cases (i == u)) [
    | inl e ↦ ground arith
    | inr e ↦ rest i (ground arith) to
  ],
)

module _ (f : RankingFlow) (c : IsConsistent f) (more : f.received_until < f.size_in_pkt) where
  next_seq_hit :
      (n u : ℕ)
      → u < f.size_in_pkt
      → contains f.packets_received u ≡ false
      → next_seq_loop f (suc n) u ≡ some u
  unfolding next_seq_loop
  next_seq_hit n u h wanted = ground arith

  next_seq_inner :
      (n u : ℕ)
      → contains f.packets_received u ≡ true
      → leb f.size_in_pkt (u + 1) ≡ false
      → next_seq_loop f (suc n) u ≡ next_seq_loop f n (u + 1)
  unfolding next_seq_loop
  next_seq_inner n u old inner = rw (old, inner)

  next_seq_last :
      (n u : ℕ)
      → contains f.packets_received u ≡ true
      → leb f.size_in_pkt (u + 1) ≡ true
      → next_seq_loop f (suc n) u ≡ next_seq_loop f n f.received_until
  unfolding next_seq_loop
  next_seq_last n u old last = rw (old, last)

  -- The rounds that are enough: for the rest of the packets and one more, or for the rest alone if
  -- the first missing packet is among them.
  abbrev Enough : ℕ → ℕ → Type 0
  Enough rounds u =
      (f.size_in_pkt < rounds + u) ⊎ ((f.size_in_pkt ≤ rounds + u) × (u ≤ f.received_until))

  Enough-next :
      (n u : ℕ) → contains f.packets_received u ≡ true → Enough (suc n) u → Enough n (u + 1)
  Enough-next n u old (inl h) = inl (omega arith)
  Enough-next n u old (inr h) = inr (omega arith, ground (arith, c.until.stops more))

  IsNext-seq_wrap :
      (n u : ℕ)
      → u + 1 ≡ f.size_in_pkt
      → contains f.packets_received u ≡ true
      → Enough (suc n) u
      → (d : ℕ) × (next_seq_loop f (suc n) u ≡ some d) × IsNext f u d
  IsNext-seq_wrap zero u last old (inl h) = absurd (omega arith)
  IsNext-seq_wrap zero u last old (inr h) = absurd (ground (arith, c.until.stops more))
  IsNext-seq_wrap (suc n) u last old e = (
    f.received_until,
    next_seq_last (suc n) u old (ground arith)
        ∙ next_seq_hit n f.received_until more (c.until.stops more),
    record {
      inside = more;
      wanted = c.until.stops more;
      chosen = inr (refl, λ i from to. let e : i ≡ u = omega arith in rw e old);
    },
  )

  next_seq_loop-IsNext :
      (rounds u : ℕ)
      → u < f.size_in_pkt
      → Enough rounds u
      → (d : ℕ) × (next_seq_loop f rounds u ≡ some d) × IsNext f u d
  next_seq_loop-IsNext zero u h e = absurd (omega arith)
  next_seq_loop-IsNext (suc n) u h e = elim (Bool-cases (contains f.packets_received u)) [
    | inr wanted ↦ (
      u,
      next_seq_hit n u h wanted,
      record {
        inside = h;
        wanted = wanted;
        chosen = inl (omega arith, λ i from to. absurd (omega arith));
      },
    )
    | inl old ↦ elim (Bool-cases (leb f.size_in_pkt (u + 1))) [
      | inl last ↦ IsNext-seq_wrap n u (ground arith) old e
      | inr inner ↦
          let (d, runs, next) =
            next_seq_loop-IsNext n (u + 1) (ground arith) (Enough-next n u old e) in
          (
            d,
            next_seq_inner n u old inner ∙ runs,
            record {
              inside = next.inside;
              wanted = next.wanted;
              chosen = Chosen-before f u d old next.chosen;
            },
          )
    ]
  ]

  Enough-rounds : (u : ℕ) → u < f.size_in_pkt → Enough f.size_in_pkt u
  Enough-rounds zero h = inr (omega arith, omega arith)
  Enough-rounds (suc u) h = inl (omega arith)

-- For a flow whose counts are right and that has a packet to come, the search ends within its
-- rounds and no assert fails. The packet is one of the flow that was not received, and it is the
-- first such from the search's start on, or, if none is left there, the first of all.
pub get_next_token_seq_num-IsNext :
    (f : RankingFlow)
    → IsConsistent f
    → f.received_count < f.goal
    → (d : ℕ) × (get_next_token_seq_num f ≡ some d) × IsNext f (search_start f) d
unfolding get_next_token_seq_num
get_next_token_seq_num-IsNext f c h =
    let more = received_until-lt f c h in
    let inside : search_start f < f.size_in_pkt = omega arith in
    next_seq_loop-IsNext f c more f.size_in_pkt (search_start f) inside
      (Enough-rounds f c more (search_start f) inside)
