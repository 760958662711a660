-- ===== src/Prelude/Slots.antt =====
-- Flags read as "free", and the taking of some of them: what matching code does to its vectors of
-- states.
use ruf.Prelude.{
  ℕ, zero, suc, ◌+◌, ◌<◌, ◌≡◌, refl, Bool, true, false, ◌||◌, length, List, [], ◌∷◌, get_or, set,
  All, All-map, ◌==◌, if◌then◌else◌, arith,
}

abbrev pub contains : List ℕ → ℕ → Bool
contains [] i = false
contains (x ∷ xs) i = (x == i) || contains xs i

-- No number occurs twice.
abbrev pub Distinct : List ℕ → Type 0
Distinct [] = Unit
Distinct (x ∷ xs) = (contains xs x ≡ false) × Distinct xs

pub get_or-set :
    (l : List Bool) (i j : ℕ)
    → get_or (set l i false) j false ≡ (if i == j then false else get_or l j false)
get_or-set [] i j = ground arith
get_or-set (x ∷ l) zero zero = refl
get_or-set (x ∷ l) zero (suc j) = ground arith
get_or-set (x ∷ l) (suc i) zero = ground arith
get_or-set (x ∷ l) (suc i) (suc j) = ground (arith, get_or-set l i j)

-- The flags `ids` were free in `l`, no two alike, and are the ones that `l'` has no longer.
pub record Taken (l : List Bool) (ids : List ℕ) (l' : List Bool) : Type 0 where
  pub free : All (λ i. get_or l i false ≡ true) ids
  pub once : Distinct ids
  pub after : (i : ℕ) → get_or l' i false ≡ (if contains ids i then false else get_or l i false)

pub Taken-nil : (l : List Bool) → Taken l [] l
Taken-nil l = record { free = tt; once = tt; after = λ i. refl }

contains_free :
    (l : List Bool) (i : ℕ) (ids : List ℕ)
    → All (λ j. get_or l j false ≡ true) ids
    → get_or l i false ≡ false
    → contains ids i ≡ false
contains_free l i [] h busy = refl
contains_free l i (x ∷ ids) h busy = ground (arith, contains_free l i ids h.1)

pub Taken-cons :
    (l : List Bool) (i : ℕ) (ids : List ℕ) (l' : List Bool)
    → get_or l i false ≡ true
    → Taken (set l i false) ids l'
    → Taken l (i ∷ ids) l'
Taken-cons l i ids l' free t = record {
  free = (free, All-map ids (λ j h. ground (arith, get_or-set l i j)) t.free);
  once = (contains_free _ i ids t.free (ground (arith, get_or-set l i i)), t.once);
  after = λ j. ground (arith, get_or-set l i j, t.after j);
}

-- How many flags are false.
unfoldable pub count_busy : List Bool → ℕ
count_busy [] = 0
count_busy (true ∷ l) = count_busy l
count_busy (false ∷ l) = suc (count_busy l)

pub count_busy-take :
    (l : List Bool) (i : ℕ)
    → get_or l i false ≡ true
    → count_busy (set l i false) ≡ count_busy l + 1
unfolding count_busy
count_busy-take [] i h = cc
count_busy-take (true ∷ l) zero h = omega arith
count_busy-take (false ∷ l) zero h = cc
count_busy-take (true ∷ l) (suc i) h = count_busy-take l i h
count_busy-take (false ∷ l) (suc i) h = omega (arith, count_busy-take l i h)

pub count_busy-free :
    (l : List Bool) (i : ℕ)
    → i < length l
    → get_or l i false ≡ false
    → count_busy (set l i true) + 1 ≡ count_busy l
unfolding count_busy
count_busy-free [] i h k = absurd (omega arith)
count_busy-free (true ∷ l) zero h k = cc
count_busy-free (false ∷ l) zero h k = omega arith
count_busy-free (true ∷ l) (suc i) h k = count_busy-free l i (omega arith) k
count_busy-free (false ∷ l) (suc i) h k = omega (arith, count_busy-free l i (omega arith) k)
