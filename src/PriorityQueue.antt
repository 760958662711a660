-- ===== src/PriorityQueue.antt =====
-- simulator/ext/custompriorityqueue.h: the vector with a remembered best index, over any comparator.
-- `comp a b` says that `a` is served after `b`. A failed `assert` is `none`.
pub mod Best
pub mod Drain
pub mod Checked
use ruf.Prelude.{
  ℕ, zero, suc, ◌+◌, ◌≡◌, Bool, true, false, List, [], ◌∷◌, ◌++◌, Option, none, some, length,
  erase_idx, if◌then◌else◌,
}
use ruf.Prelude.Int.{ℤ, pos, negsuc}

pub record PriorityQueue {ℓ} (A : Type ℓ) : Type ℓ where
  pub v : List A
  pub best_index : ℤ

module _ {ℓ} {A : Type ℓ} where
  unfoldable pub new : PriorityQueue A
  new = record { v = []; best_index = negsuc 0 }

  unfoldable pub empty : PriorityQueue A → Bool
  empty q = elim q.v [ [] ↦ true | x ∷ xs ↦ false ]

  unfoldable pub size : PriorityQueue A → ℕ
  size q = length q.v

  unfoldable pub push : PriorityQueue A → A → PriorityQueue A
  push q x = record { v = q.v ++ x ∷ []; best_index = negsuc 0 }

  module _ (comp : A → A → Bool) where
    -- The loop of `top` from index `i` on: the best entry so far and its index.
    unfoldable pub top_loop : List A → ℕ → A → ℤ → A × ℤ
    top_loop [] i best best_index = (best, best_index)
    top_loop (x ∷ xs) i best best_index =
        top_loop xs (i + 1) (if comp x best then best else x)
          (if comp x best then best_index else pos i)

    -- `top` writes the index that it finds to `best_index`.
    top_of : List A → PriorityQueue A → Option (A × PriorityQueue A)
    top_of [] q = none
    top_of (x ∷ xs) q =
        let (best, i) = top_loop (x ∷ xs) 0 x q.best_index in
        some (best, record q { best_index = i })

    unfoldable pub top : PriorityQueue A → Option (A × PriorityQueue A)
    unfolding top_of
    top q = top_of q.v q

    -- The two `if`s of `pop`: find the index when none is remembered, then erase it.
    refresh : ℤ → PriorityQueue A → Option (PriorityQueue A)
    refresh (pos i) q = some q
    refresh (negsuc n) q = elim (top q) [ none ↦ none | some (_, q') ↦ some q' ]

    erase_best : ℤ → PriorityQueue A → PriorityQueue A
    erase_best (pos i) q = record { v = erase_idx q.v i; best_index = negsuc 0 }
    erase_best (negsuc n) q = q

    pop_of : List A → PriorityQueue A → Option (PriorityQueue A)
    pop_of [] q = none
    pop_of (x ∷ xs) q = elim (refresh q.best_index q) [
      | none ↦ none
      | some q' ↦ some (erase_best q'.best_index q')
    ]

    unfoldable pub pop : PriorityQueue A → Option (PriorityQueue A)
    unfolding pop_of refresh erase_best
    pop q = pop_of q.v q
