-- ===== src/PriorityQueue/Drain.antt =====
-- The loop `while (!q.empty()) { x = q.top(); q.pop(); … }` that the clients of
-- custompriorityqueue.h run: the order in which it meets the entries.
use mathlib.Core.List.{Perm}
use mathlib.Core.List.Perm
use ruf.Prelude.{
  ℕ, ◌+◌, ◌≡◌, ap, ◌∙◌, Bool, true, false, List, [], ◌∷◌, length, erase_idx, erase_idx-perm,
  length-erase_idx, get_elem?-lt, All, All-erase_idx, All-get_elem?, All-insert, arith,
}
use ruf.PriorityQueue.{PriorityQueue, empty}
use ruf.PriorityQueue.Best.{IsBest, Popped}

module _ {ℓ} {A : Type ℓ} (comp : A → A → Bool) where
  -- Each entry is a best one among those still there.
  pub data Drains : List A → List A → Type ℓ where
    done : Drains [] []
    take :
        {v order : List A} (b : A) (k : ℕ)
        → IsBest comp v k b
        → Drains (erase_idx v k) order
        → Drains v (b ∷ order)

  -- No entry is worse than a later one.
  abbrev pub Sorted : List A → Type ℓ
  Sorted [] = Unit
  Sorted (x ∷ xs) = All (λ y. comp x y ≡ false) xs × Sorted xs

  -- Every entry is met once.
  pub Drains-perm : {v order : List A} → Drains v order → Perm v order
  Drains-perm done = Perm.nil
  Drains-perm {v} (take b k best rest) =
      Perm.trans (erase_idx-perm v k b best.0) (Perm.cons b (Drains-perm rest))

  pub Drains-All {κ} : (P : A → Type κ) {v order : List A} → Drains v order → All P v → All P order
  Drains-All P done h = tt
  Drains-All P {v} (take b k best rest) h =
      (All-get_elem? P v k b best.0 h, Drains-All P rest (All-erase_idx P v k h))

  pub All-Drains {κ} : (P : A → Type κ) {v order : List A} → Drains v order → All P order → All P v
  All-Drains P done h = tt
  All-Drains P {v} (take b k best rest) h = All-insert P v k b best.0 h.0 (All-Drains P rest h.1)

  -- Better entries are met first.
  pub Drains-Sorted : {v order : List A} → Drains v order → Sorted order
  Drains-Sorted done = tt
  Drains-Sorted {v} (take b k best rest) =
      (Drains-All (λ y. comp b y ≡ false) rest (All-erase_idx _ v k best.1), Drains-Sorted rest)

pub empty-eq-nil {ℓ} : {A : Type ℓ} (q : PriorityQueue A) → empty q ≡ true → q.v ≡ []
unfolding empty
empty-eq-nil q h = ground arith

-- A `pop` leaves one entry less.
pub Popped-length {ℓ} :
    {A : Type ℓ} {comp : A → A → Bool} {v : List A} {b : A} {k : ℕ} {r : PriorityQueue A}
    → Popped comp v b k r
    → length r.v + 1 ≡ length v
Popped-length {v = v} {k = k} p =
    ap (λ l. length l + 1) p.rest ∙ length-erase_idx v k (get_elem?-lt v k p.best.0)
