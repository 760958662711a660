-- ===== src/Params/Priority.antt =====
-- `packet_priority` of simulator/run/params.cpp: the priority of a flow by the logarithm of its size.
use ruf.Prelude.{
  ℕ, zero, suc, ◌+◌, ◌*◌, ◌^◌, ◌≤◌, ◌<◌, ◌≡◌, refl, sym, subst, ap, ◌∙◌, true, false, none, some,
  ltb, ◌==◌, if◌then◌else◌, Bool-cases, inl, inr, arith,
}
use native.Mathlib.Nat.{mul-le-mul_left, mul-le-mul_right, pow-suc, one-le-pow, pow-zero}
use ruf.Params.{int_limit, priority_loop, packet_priority}

-- The least exponent, from 1 on, at which the power of the base reaches the size.
pub record Level (base size_in_pkt p : ℕ) : Type 0 where
  pub from_one : 1 ≤ p
  pub enough : size_in_pkt ≤ base ^ p
  pub least : (k : ℕ) → 1 ≤ k → k < p → base ^ k < size_in_pkt

module _ (base size_in_pkt : ℕ) (grows : 2 ≤ base) (small : size_in_pkt * base < int_limit) where
  doubles : (size : ℕ) → size * 2 ≤ size * base
  doubles size = mul-le-mul_left size grows

  fits : (size : ℕ) → size < size_in_pkt → size * base < int_limit
  fits size h =
      let le : size * base ≤ size_in_pkt * base = mul-le-mul_right base (omega arith) in
      omega (arith, le, small)

  power_next : (p : ℕ) → base ^ p * base ≡ base ^ (p + 1)
  power_next p = let e : suc p ≡ p + 1 = omega arith in sym (pow-suc base p) ∙ ap (λ k. base ^ k) e

  loop_stop :
      (n size p : ℕ) → size_in_pkt ≤ size → priority_loop base size_in_pkt (suc n) size p ≡ some p
  unfolding priority_loop
  loop_stop n size p h =
      let stops : ltb size size_in_pkt ≡ false = ground arith in rw (stops, priority_loop)

  loop_on :
      (n size p : ℕ)
      → size < size_in_pkt
      → priority_loop base size_in_pkt (suc n) size p
        ≡ priority_loop base size_in_pkt n (size * base) (p + 1)
  unfolding priority_loop
  loop_on n size p h =
      let goes : ltb size size_in_pkt ≡ true = ground arith in
      let room : ltb (size * base) int_limit ≡ true = ground (arith, fits size h) in
      rw (goes, room, priority_loop)

  positive : (p : ℕ) → 1 ≤ base ^ p
  positive p = one-le-pow p base (omega arith)

  least_next :
      (p k : ℕ)
      → ((j : ℕ) → 1 ≤ j → j < p → base ^ j < size_in_pkt)
      → base ^ p < size_in_pkt
      → 1 ≤ k
      → k < p + 1
      → base ^ k < size_in_pkt
  least_next p k least more h below = elim (Bool-cases (k == p)) [
    | inl same ↦ subst (λ j. base ^ j < size_in_pkt) (ground arith) more
    | inr other ↦ least k h (ground arith)
  ]

  loop-Level :
      (n p : ℕ)
      → 1 ≤ p
      → size_in_pkt ≤ base ^ p + n
      → ((k : ℕ) → 1 ≤ k → k < p → base ^ k < size_in_pkt)
      → (q : ℕ) × (priority_loop base size_in_pkt (suc n) (base ^ p) p ≡ some q)
        × Level base size_in_pkt q
  loop-Level zero p one fuel least = (
    p,
    loop_stop 0 (base ^ p) p (omega arith),
    record { from_one = one; enough = omega arith; least = least },
  )
  loop-Level (suc n) p one fuel least = elim (Bool-cases (ltb (base ^ p) size_in_pkt)) [
    | inr stop ↦ (
      p,
      loop_stop (suc n) (base ^ p) p (ground arith),
      record { from_one = one; enough = ground arith; least = least },
    )
    | inl go ↦
        let more : base ^ p < size_in_pkt = ground arith in
        let (q, runs, level) =
          loop-Level n (p + 1) (omega arith)
            (omega (arith, power_next p, doubles (base ^ p), fuel, positive p))
            (λ k h below. least_next p k least more h below) in
        (
          q,
          loop_on (suc n) (base ^ p) p more
              ∙ ap (λ size. priority_loop base size_in_pkt (suc n) size (p + 1)) (power_next p)
              ∙ runs,
          level,
        )
  ]

  power_one : base ^ 1 ≡ base
  power_one =
      let one_times : 1 * base ≡ base = omega arith in
      pow-suc base 0 ∙ ap (λ k. k * base) (pow-zero base) ∙ one_times

  whole :
      (q : ℕ)
      → priority_loop base size_in_pkt (suc size_in_pkt) base 1 ≡ some q
      → packet_priority (suc size_in_pkt) size_in_pkt base ≡ some (if ltb 6 q then 6 else q)
  unfolding packet_priority
  whole q runs = let positive_base : (base == 0) ≡ false = ground arith in rw (positive_base, runs)

  -- For a base of at least two and a size whose product with the base is an `int`, the loop ends
  -- within as many rounds as the size and no `int` overflows. The result is the least exponent,
  -- from 1 on, at which the power of the base reaches the size, and at most 6.
  pub packet_priority-Level :
      (p : ℕ) × (packet_priority (suc size_in_pkt) size_in_pkt base
        ≡ some (if ltb 6 p then 6 else p))
      × Level base size_in_pkt p
  packet_priority-Level =
      let (q, runs, level) =
        loop-Level size_in_pkt 1 (omega arith) (omega arith) (λ k h below. absurd (omega arith)) in
      (
        q,
        whole q (
            ap (λ size. priority_loop base size_in_pkt (suc size_in_pkt) size 1) (sym power_one)
            ∙ runs),
        level,
      )

loop_again :
    (fuel size_in_pkt p : ℕ) → 2 ≤ size_in_pkt → priority_loop 1 size_in_pkt fuel 1 p ≡ none
unfolding priority_loop
loop_again zero size_in_pkt p h = refl
loop_again (suc n) size_in_pkt p h =
    let goes : ltb 1 size_in_pkt ≡ true = ground arith in
    rw (goes, priority_loop) (loop_again n size_in_pkt (p + 1) h)

-- With base one and a size of two packets or more, the loop of `packet_priority` never ends: no
-- number of rounds is enough for it.
pub packet_priority_diverges :
    (fuel size_in_pkt : ℕ) → 2 ≤ size_in_pkt → packet_priority fuel size_in_pkt 1 ≡ none
unfolding packet_priority
packet_priority_diverges fuel size_in_pkt h = rw (loop_again fuel size_in_pkt 1 h)
