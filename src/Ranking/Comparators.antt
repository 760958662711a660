-- ===== src/Ranking/Comparators.antt =====
-- The flow comparators of simulator/ext/rankinghost.cpp, over a store of flows. Each is a strict weak
-- order, so the priority queues serve a best flow.
use ruf.Prelude.{
  ℕ, ◌≡◌, Bool, true, false, Option, some, arith, ltb, if◌then◌else◌, Bool-cases, inl, inr,
}
use ruf.Prelude.Faults.{◌>>=◌}
use ruf.Prelude.Int.{ℤ, pos, ◌-ℤ◌, ltb_ℤ, leb_ℤ, eqb_ℤ}
use ruf.Params.{Params}
use ruf.PriorityQueue.Best.{IsStrictWeak}
use ruf.Ranking.Flow.{RankingFlow, remaining_pkts, gap, token_gap, outstanding}

-- A larger key is worse, and among equal keys a later start.
abbrev pub worse : (ka kb : ℤ) (sa sb : ℕ) → Bool
worse ka kb sa sb = if ltb_ℤ kb ka then true else (if eqb_ℤ ka kb then ltb sb sa else false)

-- `remaining_pkts() - token_gap()`, the packets still to be asked for: its value, and the term with the
-- assert of `token_gap`.
unfoldable pub left_to_ask : RankingFlow → ℤ
left_to_ask f = pos (remaining_pkts f) -ℤ gap f

unfoldable pub unasked : RankingFlow → Option ℤ
unasked f = do g ← token_gap f; some (pos (remaining_pkts f) -ℤ g)

module _ (flows : ℕ → RankingFlow) where
  -- RankingFlowComparator, at the sender.
  unfoldable pub sending_comp : ℕ → ℕ → Bool
  sending_comp a b =
      worse (pos (flows a).remaining_pkts_at_sender) (pos (flows b).remaining_pkts_at_sender)
        (flows a).start_time (flows b).start_time

  module _ (params : Params) where
    -- RankingFlowComparatorAtReceiver, with the asserts of `token_gap`.
    unfoldable pub receiver_comp : ℕ → ℕ → Option Bool
    receiver_comp a b =
        if params.by_deadline then some (ltb (flows b).deadline (flows a).deadline) else (do
          left ← unasked (flows a)
          right ← unasked (flows b)
          some (worse left right (flows a).start_time (flows b).start_time))

    -- What it says where no assert fails.
    unfoldable pub receiver_order : ℕ → ℕ → Bool
    receiver_order a b =
        if params.by_deadline
        then ltb (flows b).deadline (flows a).deadline
        else worse (left_to_ask (flows a)) (left_to_ask (flows b)) (flows a).start_time
            (flows b).start_time

    -- RankingShortFlowComparatorAtReceiver, and `flow_compare` of two flows.
    unfoldable pub short_comp : ℕ → ℕ → Bool
    short_comp a b =
        if params.by_deadline
        then ltb (flows b).deadline (flows a).deadline
        else worse (pos (remaining_pkts (flows a))) (pos (remaining_pkts (flows b)))
            (flows a).start_time (flows b).start_time

pub sending_comp-IsStrictWeak : (flows : ℕ → RankingFlow) → IsStrictWeak (sending_comp flows)
unfolding sending_comp
sending_comp-IsStrictWeak flows = record {
  asym = λ a b h. ground arith;
  irrefl = λ a. ground arith;
  trans = λ a b c h k. ground arith;
}

pub receiver_order-IsStrictWeak :
    (flows : ℕ → RankingFlow) (params : Params) → IsStrictWeak (receiver_order flows params)
unfolding receiver_order
receiver_order-IsStrictWeak flows params = record {
  asym = λ a b h. ground arith;
  irrefl = λ a. ground arith;
  trans = λ a b c h k. ground arith;
}

pub short_comp-IsStrictWeak :
    (flows : ℕ → RankingFlow) (params : Params) → IsStrictWeak (short_comp flows params)
unfolding short_comp
short_comp-IsStrictWeak flows params = record {
  asym = λ a b h. ground arith;
  irrefl = λ a. ground arith;
  trans = λ a b c h k. ground arith;
}

-- No token number is received that was not sent: what `token_gap` asserts.
abbrev pub InOrder : RankingFlow → Type 0
InOrder f = leb_ℤ (pos 0) (outstanding f) ≡ true

pub token_gap-InOrder : (f : RankingFlow) → InOrder f → token_gap f ≡ some (gap f)
unfolding token_gap
token_gap-InOrder f h = rw h

pub unasked-InOrder : (f : RankingFlow) → InOrder f → unasked f ≡ some (left_to_ask f)
unfolding unasked left_to_ask
unasked-InOrder f h = rw (token_gap-InOrder f h)

-- The comparator does not fail on two flows in order.
pub receiver_comp-receiver_order :
    (flows : ℕ → RankingFlow) (params : Params) (a b : ℕ)
    → InOrder (flows a)
    → InOrder (flows b)
    → receiver_comp flows params a b ≡ some (receiver_order flows params a b)
unfolding receiver_comp receiver_order
receiver_comp-receiver_order flows params a b h k = elim (Bool-cases params.by_deadline) [
  | inl deadline ↦ simp deadline
  | inr shortest ↦ simp (shortest, unasked-InOrder (flows a) h, unasked-InOrder (flows b) k)
]
