-- ===== src/Flow/Acks.antt =====
-- The acknowledgement of `receive_data_pkt`: where the data in order ends, and what came after a gap.
use mathlib.Core.List.{append-nil, append_assoc}
use ruf.Prelude.{
  sym, ℕ, zero, suc, ◌+◌, ◌≤◌, ◌<◌, ◌≡◌, refl, ap, ◌∙◌, ◌⊎◌, inl, inr, Bool, true, false, List, [],
  ◌∷◌, ◌++◌, some, All, min, leb, ltb, Bool-cases, if◌then◌else◌, arith,
}
use ruf.Prelude.Slots.{contains}
use ruf.Prelude.Words.{word, add32}
use ruf.Flow.{Flow, Segment, Ack, ack_loop, count_data, receive_data_pkt}

-- The first `n` numbers from `s` on in steps of `mss`, and the one after them.
abbrev pub starts : (n mss s : ℕ) → List ℕ
starts zero mss s = []
starts (suc n) mss s = s ∷ starts n mss (s + mss)

abbrev pub after : (n mss s : ℕ) → ℕ
after zero mss s = s
after (suc n) mss s = after n mss (s + mss)

-- The entries that the list has.
abbrev pub among : (received xs : List ℕ) → List ℕ
among received [] = []
among received (x ∷ xs) = if contains received x then x ∷ among received xs else among received xs

add32-small : (a b : ℕ) → a + b < word → add32 a b ≡ a + b
add32-small a b h = omega arith

-- The loop after a gap lists the rest of what was received.
abbrev Lists : ℕ → ℕ → List ℕ → Flow → Type 0
Lists n s sack f =
    (m : ℕ) × (ack_loop n s false sack f ≡ some (sack ++ among f.received (starts m f.mss s), f))
    × (f.max_seq_no_recv < after m f.mss s)

module _ (n s : ℕ) (in_sequence : Bool) (sack : List ℕ) (f : Flow) where
  loop_ends :
      leb s f.max_seq_no_recv ≡ false → ack_loop (suc n) s in_sequence sack f ≡ some (sack, f)
  unfolding ack_loop
  loop_ends h = rw (h, ack_loop)

  loop_misses :
      leb s f.max_seq_no_recv ≡ true
      → contains f.received s ≡ false
      → ack_loop (suc n) s in_sequence sack f ≡ ack_loop n (add32 s f.mss) false sack f
  unfolding ack_loop
  loop_misses h k = rw (h, k, ack_loop)

loop_adds :
    (n s : ℕ) (sack : List ℕ) (f : Flow)
    → leb s f.max_seq_no_recv ≡ true
    → contains f.received s ≡ true
    → ack_loop (suc n) s false sack f ≡ ack_loop n (add32 s f.mss) false (sack ++ s ∷ []) f
unfolding ack_loop
loop_adds n s sack f h k = rw (h, k, ack_loop)

among-has :
    (received xs : List ℕ) (x : ℕ)
    → contains received x ≡ true
    → among received (x ∷ xs) ≡ x ∷ among received xs
among-has received xs x h = rw h

among-misses :
    (received xs : List ℕ) (x : ℕ)
    → contains received x ≡ false
    → among received (x ∷ xs) ≡ among received xs
among-misses received xs x h = rw h

after_gap-Lists :
    (n s : ℕ) (sack : List ℕ) (f : Flow)
    → 0 < f.mss
    → f.max_seq_no_recv + f.mss < word
    → 0 < n
    → f.max_seq_no_recv + 1 < n + s
    → Lists n s sack f
after_gap-Lists zero s sack f small fits some_fuel fuel = absurd (omega arith)
after_gap-Lists (suc n) s sack f small fits some_fuel fuel =
    elim (Bool-cases (leb s f.max_seq_no_recv)) [
      | inr past ↦ (
        0,
        loop_ends n s false sack f past ∙ ap (λ l. some (l, f)) (sym (append-nil sack)),
        ground arith,
      )
      | inl more ↦
          let le : s ≤ f.max_seq_no_recv = ground arith in
          let step : add32 s f.mss ≡ s + f.mss = add32-small s f.mss (omega arith) in
          elim (Bool-cases (contains f.received s)) [
            | inr miss ↦
                let (m, runs, end) =
                  after_gap-Lists n (s + f.mss) sack f small fits (omega arith) (omega arith) in
                (
                  suc m,
                  loop_misses n s false sack f more miss
                      ∙ ap (λ k. ack_loop n k false sack f) step
                      ∙ runs
                      ∙ ap (λ l. some (sack ++ l, f))
                          (sym (among-misses f.received (starts m f.mss (s + f.mss)) s miss)),
                  end,
                )
            | inl has ↦
                let (m, runs, end) =
                  after_gap-Lists n (s + f.mss) (sack ++ s ∷ []) f small fits (omega arith)
                    (omega arith) in
                (
                  suc m,
                  loop_adds n s sack f more has
                      ∙ ap (λ k. ack_loop n k false (sack ++ s ∷ []) f) step
                      ∙ runs
                      ∙ ap (λ l. some (l, f))
                          (append_assoc sack (s ∷ [])
                            (among f.received (starts m f.mss (s + f.mss))))
                      ∙ ap (λ l. some (sack ++ l, f))
                          (sym (among-has f.received (starts m f.mss (s + f.mss)) s has)),
                  end,
                )
          ]
    ]

abbrev moved : Flow → ℕ → Flow
moved f t = record f { recv_till = t }

-- `recv_till` goes up by a packet, to the flow's size at most.
abbrev advanced : Flow → ℕ
advanced f = if ltb f.size (add32 f.recv_till f.mss) then f.size else add32 f.recv_till f.mss

loop_advances :
    (n s : ℕ) (sack : List ℕ) (f : Flow)
    → leb s f.max_seq_no_recv ≡ true
    → contains f.received s ≡ true
    → ack_loop (suc n) s true sack f ≡ ack_loop n (add32 s f.mss) true sack (moved f (advanced f))
unfolding ack_loop
loop_advances n s sack f h k = rw (h, k, ack_loop)

-- The first `k` packets from `s` on have arrived, and the next one has not or is beyond all that
-- have; the loop returns with `t` for `recv_till` and lists what has arrived after the gap.
pub record Acked (n s : ℕ) (f : Flow) : Type 0 where
  pub k : ℕ
  pub m : ℕ
  pub arrived : All (λ i. contains f.received i ≡ true) (starts k f.mss s)
  pub gap : (f.max_seq_no_recv < after k f.mss s) ⊎ (contains f.received (after k f.mss s) ≡ false)
  pub runs :
      ack_loop n s true [] f
      ≡ some (
        among f.received (starts m f.mss (after k f.mss s)),
        moved f (min f.size (after k f.mss s)),
      )
  pub whole : f.max_seq_no_recv < after m f.mss (after k f.mss s)

ack_loop-Acked :
    (n s : ℕ) (f : Flow)
    → 0 < f.mss
    → f.max_seq_no_recv + f.mss < word
    → f.size + f.mss < word
    → 0 < n
    → f.max_seq_no_recv + 1 < n + s
    → f.recv_till ≡ min f.size s
    → Acked n s f
ack_loop-Acked zero s f small fits sized some_fuel fuel till = absurd (omega arith)
ack_loop-Acked (suc n) s f small fits sized some_fuel fuel till =
    elim (Bool-cases (leb s f.max_seq_no_recv)) [
      | inr past ↦ record {
        k = 0;
        m = 0;
        arrived = tt;
        gap = inl (ground arith);
        runs = loop_ends n s true [] f past ∙ ap (λ t. some ([], moved f t)) till;
        whole = ground arith;
      }
      | inl more ↦
          let le : s ≤ f.max_seq_no_recv = ground arith in
          let step : add32 s f.mss ≡ s + f.mss = add32-small s f.mss (omega arith) in
          elim (Bool-cases (contains f.received s)) [
            | inr miss ↦
                let (m, runs, end) =
                  after_gap-Lists n (s + f.mss) [] f small fits (omega arith) (omega arith) in
                record {
                  k = 0;
                  m = suc m;
                  arrived = tt;
                  gap = inr miss;
                  runs =
                      loop_misses n s true [] f more miss
                      ∙ ap (λ k. ack_loop n k false [] f) step
                      ∙ runs
                      ∙ ap (λ l. some (l, f))
                          (sym (among-misses f.received (starts m f.mss (s + f.mss)) s miss))
                      ∙ ap
                          (λ t. some (among f.received (s ∷ starts m f.mss (s + f.mss)), moved f t))
                          till;
                  whole = end;
                }
            | inl has ↦
                let ih =
                  ack_loop-Acked n (s + f.mss) (moved f (advanced f)) small fits sized (omega arith)
                    (omega arith) (ground (arith, step)) in
                record {
                  k = suc ih.k;
                  m = ih.m;
                  arrived = (has, ih.arrived);
                  gap = ih.gap;
                  runs =
                      loop_advances n s [] f more has
                      ∙ ap (λ k. ack_loop n k true [] (moved f (advanced f))) step
                      ∙ ih.runs;
                  whole = ih.whole;
                }
          ]
    ]

-- What an acknowledgement says of the flow's data after the packet was counted: `k` packets in order
-- from the old `recv_till` on have arrived, and the next has not, or nothing beyond them has; the
-- cumulative number is the end of those, at most the flow's size, and the list names what has
-- arrived after them.
pub record Acks (g : Flow) (a : Ack) (g' : Flow) : Type 0 where
  pub k : ℕ
  pub m : ℕ
  pub arrived : All (λ i. contains g.received i ≡ true) (starts k g.mss g.recv_till)
  pub gap :
      (g.max_seq_no_recv < after k g.mss g.recv_till)
      ⊎ (contains g.received (after k g.mss g.recv_till) ≡ false)
  pub cumulative : a.seq_no ≡ min g.size (after k g.mss g.recv_till)
  pub selective : a.sack_list ≡ among g.received (starts m g.mss (after k g.mss g.recv_till))
  pub whole : g.max_seq_no_recv < after m g.mss (after k g.mss g.recv_till)
  pub kept : g' ≡ record g { recv_till = a.seq_no }

-- With packets of some size, `recv_till` at most the flow's size, and no sum of the flow's sizes
-- or the largest number received and the packet size that wraps, a data packet is always
-- acknowledged: the loop ends, and the acknowledgement is cumulative up to the first gap and
-- selective beyond it.
pub receive_data_pkt-Acks :
    (p : Segment) (f : Flow)
    → 0 < f.mss
    → f.recv_till ≤ f.size
    → f.size + f.mss < word
    → (count_data p f).max_seq_no_recv + f.mss < word
    → (a : Ack) × (g : Flow) × (receive_data_pkt p f ≡ some (a, g)) × Acks (count_data p f) a g
unfolding receive_data_pkt count_data
receive_data_pkt-Acks p f small till sized fits =
    let c = count_data p f in
    let acked =
      ack_loop-Acked (c.max_seq_no_recv + 2) f.recv_till c small fits sized (omega arith)
        (omega arith) (omega arith) in
    let ends = min f.size (after acked.k f.mss f.recv_till) in
    (
      record {
        seq_no = ends;
        sack_list = among c.received (starts acked.m f.mss (after acked.k f.mss f.recv_till));
      },
      moved c ends,
      rw acked.runs,
      record {
        k = acked.k;
        m = acked.m;
        arrived = acked.arrived;
        gap = acked.gap;
        cumulative = refl;
        selective = refl;
        whole = acked.whole;
        kept = refl;
      },
    )
