-- ===== src/PriorityQueue/Checked.antt =====
-- custompriorityqueue.h over a comparator that may hit an assert, as RankingFlowComparatorAtReceiver does.
use ruf.Prelude.{
  ℕ, ◌+◌, ◌≡◌, refl, inl, inr, Bool, List, [], ◌∷◌, Option, none, some, All, Bool-cases,
  if◌then◌else◌, erase_idx,
}
use ruf.Prelude.Int.{ℤ, pos, negsuc}
use ruf.Prelude.Faults.{◌>>=◌}
use ruf.PriorityQueue
use ruf.PriorityQueue.{PriorityQueue, top_of, top_loop, pop_of, refresh, erase_best}

module _ {ℓ} {A : Type ℓ} (comp : A → A → Option Bool) where
  -- The loop of `top`, which compares every entry with the best one so far.
  unfoldable pub checked_loop : List A → ℕ → A → ℤ → Option (A × ℤ)
  checked_loop [] i best best_index = some (best, best_index)
  checked_loop (x ∷ xs) i best best_index = do
    worse ← comp x best
    checked_loop xs (i + 1) (if worse then best else x) (if worse then best_index else pos i)

  checked_top_of : List A → PriorityQueue A → Option (A × PriorityQueue A)
  checked_top_of [] q = none
  checked_top_of (x ∷ xs) q = do
    (best, i) ← checked_loop (x ∷ xs) 0 x q.best_index
    some (best, record q { best_index = i })

  unfoldable pub checked_top : PriorityQueue A → Option (A × PriorityQueue A)
  unfolding checked_top_of checked_loop
  checked_top q = checked_top_of q.v q

  -- The two `if`s of `pop`.
  checked_refresh : ℤ → PriorityQueue A → Option (PriorityQueue A)
  checked_refresh (pos i) q = some q
  checked_refresh (negsuc n) q = do (best, q') ← checked_top q; some q'

  checked_erase : ℤ → PriorityQueue A → PriorityQueue A
  checked_erase (pos i) q = record { v = erase_idx q.v i; best_index = negsuc 0 }
  checked_erase (negsuc n) q = q

  checked_pop_of : List A → PriorityQueue A → Option (PriorityQueue A)
  checked_pop_of [] q = none
  checked_pop_of (x ∷ xs) q = do
    q' ← checked_refresh q.best_index q
    some (checked_erase q'.best_index q')

  unfoldable pub checked_pop : PriorityQueue A → Option (PriorityQueue A)
  unfolding checked_pop_of checked_refresh checked_erase
  checked_pop q = checked_pop_of q.v q

-- Where the comparator does not fail, and agrees with a Boolean one, so do the calls.
module _ {A : Type 0} (comp : A → A → Option Bool) (order : A → A → Bool) (P : A → Type 0)
    (agrees : (a b : A) → P a → P b → comp a b ≡ some (order a b)) where
  checked_loop-top_loop :
      (xs : List A) (i : ℕ) (best : A) (best_index : ℤ)
      → P best
      → All P xs
      → checked_loop comp xs i best best_index ≡ some (top_loop order xs i best best_index)
  unfolding checked_loop top_loop
  checked_loop-top_loop [] i best bi h all = refl
  checked_loop-top_loop (x ∷ xs) i best bi h all = elim (Bool-cases (order x best)) [
    | inl worse ↦
        rw (agrees x best all.0 h, ◌>>=◌, worse, checked_loop, top_loop)
          (checked_loop-top_loop xs (i + 1) best bi h all.1)
    | inr fine ↦
        rw (agrees x best all.0 h, ◌>>=◌, fine, checked_loop, top_loop)
          (checked_loop-top_loop xs (i + 1) x (pos i) all.0 all.1)
  ]

  top_of-agrees :
      (v : List A) (q : PriorityQueue A) → All P v → checked_top_of comp v q ≡ top_of order v q
  unfolding checked_top_of top_of
  top_of-agrees [] q all = refl
  top_of-agrees (x ∷ xs) q all = rw (checked_loop-top_loop (x ∷ xs) 0 x q.best_index all.0 all)

  pub checked_top-top :
      (q : PriorityQueue A) → All P q.v → checked_top comp q ≡ PriorityQueue.top order q
  unfolding checked_top PriorityQueue.top
  checked_top-top q all = top_of-agrees q.v q all

  -- With an index remembered, `pop` compares nothing.
  pub checked_pop-pop :
      (v : List A) (k : ℕ)
      → checked_pop comp (record { v = v; best_index = pos k })
        ≡ PriorityQueue.pop order (record { v = v; best_index = pos k })
  unfolding checked_pop PriorityQueue.pop checked_pop_of checked_refresh checked_erase pop_of
      refresh erase_best
  checked_pop-pop [] k = refl
  checked_pop-pop (x ∷ xs) k = refl
