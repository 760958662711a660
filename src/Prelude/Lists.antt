-- ===== src/Prelude/Lists.antt =====
-- Lists measured and indexed by native numbers, under the library's names.
use Prim.Native.Nat.{ℕ, zero, suc, ◌+◌, ◌-◌, ◌≤◌, ◌<◌, min}
use mathlib.Core.Path.{◌≡◌, refl, ap, subst}
use mathlib.Core.Logic.{◌≢◌}
use mathlib.Core.Bool.{Bool, true, false, not}
use mathlib.Core.List.{List, [], ◌∷◌, ◌++◌, map, Perm}
use mathlib.Core.List.Perm
use mathlib.Core.Option.{Option, none, some}
use native.Mathlib.Omega.{arith}

module _ {ℓ} {A : Type ℓ} where
  abbrev pub length : List A → ℕ
  length [] = 0
  length (x ∷ xs) = suc (length xs)

  abbrev pub get_elem? : List A → ℕ → Option A
  get_elem? [] i = none
  get_elem? (x ∷ xs) zero = some x
  get_elem? (x ∷ xs) (suc i) = get_elem? xs i

  -- A write out of bounds changes nothing.
  abbrev pub set : List A → ℕ → A → List A
  set [] i v = []
  set (x ∷ xs) zero v = v ∷ xs
  set (x ∷ xs) (suc i) v = x ∷ set xs i v

  pub length-append : (xs ys : List A) → length (xs ++ ys) ≡ length xs + length ys
  length-append [] ys = omega arith
  length-append (x ∷ xs) ys = omega (arith, length-append xs ys)

module _ {ℓ} {A : Type ℓ} where
  pub length-set : (xs : List A) (i : ℕ) (v : A) → length (set xs i v) ≡ length xs
  length-set [] i v = refl
  length-set (x ∷ xs) zero v = refl
  length-set (x ∷ xs) (suc i) v = ap suc (length-set xs i v)

  pub get_elem?-set_self :
      (xs : List A) (i : ℕ) (v : A) → i < length xs → get_elem? (set xs i v) i ≡ some v
  get_elem?-set_self [] i v h = elim h [ ]
  get_elem?-set_self (x ∷ xs) zero v h = refl
  get_elem?-set_self (x ∷ xs) (suc i) v h = get_elem?-set_self xs i v (omega arith)

  pub get_elem?-set_ne :
      (xs : List A) {i j : ℕ} (v : A) → i ≢ j → get_elem? (set xs i v) j ≡ get_elem? xs j
  get_elem?-set_ne [] v h = refl
  get_elem?-set_ne (x ∷ xs) {i = zero} {j = zero} v h = absurd (h refl)
  get_elem?-set_ne (x ∷ xs) {i = zero} {j = suc j} v h = refl
  get_elem?-set_ne (x ∷ xs) {i = suc i} {j = zero} v h = refl
  get_elem?-set_ne (x ∷ xs) {i = suc i} {j = suc j} v h = get_elem?-set_ne xs v (λ e. h (ap suc e))

module _ {ℓ} {A : Type ℓ} where
  abbrev pub get_or : List A → ℕ → A → A
  get_or [] i d = d
  get_or (x ∷ xs) zero d = x
  get_or (x ∷ xs) (suc i) d = get_or xs i d

  abbrev pub take : ℕ → List A → List A
  take zero xs = []
  take (suc n) [] = []
  take (suc n) (x ∷ xs) = x ∷ take n xs

  abbrev pub drop : ℕ → List A → List A
  drop zero xs = xs
  drop (suc n) [] = []
  drop (suc n) (x ∷ xs) = drop n xs

  abbrev pub replicate : ℕ → A → List A
  replicate zero a = []
  replicate (suc n) a = a ∷ replicate n a

  pub take-append-drop : (n : ℕ) (xs : List A) → take n xs ++ drop n xs ≡ xs
  take-append-drop zero xs = refl
  take-append-drop (suc n) [] = refl
  take-append-drop (suc n) (x ∷ xs) = rw (take-append-drop n xs)

  pub length-take : (n : ℕ) (xs : List A) → length (take n xs) ≡ min n (length xs)
  length-take zero xs = omega arith
  length-take (suc n) [] = omega arith
  length-take (suc n) (x ∷ xs) = omega (arith, length-take n xs)

  pub length-drop : (n : ℕ) (xs : List A) → length (drop n xs) ≡ length xs - n
  length-drop zero xs = omega arith
  length-drop (suc n) [] = omega arith
  length-drop (suc n) (x ∷ xs) = omega (arith, length-drop n xs)

  pub length-replicate : (n : ℕ) (a : A) → length (replicate n a) ≡ n
  length-replicate zero a = refl
  length-replicate (suc n) a = ap suc (length-replicate n a)

  pub length-map {κ} : {B : Type κ} (xs : List A) (f : A → B) → length (map f xs) ≡ length xs
  length-map [] f = refl
  length-map (x ∷ xs) f = ap suc (length-map xs f)

-- A predicate on every element, by recursion: it computes to tuples.
abbrev pub All {ℓ κ} : {A : Type ℓ} → (A → Type κ) → List A → Type κ
All P [] = Unit
All P (x ∷ xs) = P x × All P xs

module _ {ℓ κ} {A : Type ℓ} where
  pub All-map : {P Q : A → Type κ} (xs : List A) → ((a : A) → P a → Q a) → All P xs → All Q xs
  All-map [] f h = tt
  All-map (x ∷ xs) f h = (f x h.0, All-map xs f h.1)

module _ {ℓ} {A : Type ℓ} where
  -- The list without its entry at an index; out of range it is unchanged.
  abbrev pub erase_idx : List A → ℕ → List A
  erase_idx [] i = []
  erase_idx (x ∷ xs) zero = xs
  erase_idx (x ∷ xs) (suc i) = x ∷ erase_idx xs i

  pub erase_idx-perm :
      (xs : List A) (i : ℕ) (a : A) → get_elem? xs i ≡ some a → Perm xs (a ∷ erase_idx xs i)
  erase_idx-perm [] i a e = cc
  erase_idx-perm (x ∷ xs) zero a e = Perm.cons' (cc) Perm.rfl
  erase_idx-perm (x ∷ xs) (suc i) a e =
      Perm.trans (Perm.cons x (erase_idx-perm xs i a e)) (Perm.swap a x (erase_idx xs i))

  pub length-erase_idx :
      (xs : List A) (i : ℕ) → i < length xs → length (erase_idx xs i) + 1 ≡ length xs
  length-erase_idx [] i h = absurd (omega arith)
  length-erase_idx (x ∷ xs) zero h = omega arith
  length-erase_idx (x ∷ xs) (suc i) h = omega (arith, length-erase_idx xs i (omega arith))

  pub get_elem?-lt : (xs : List A) (i : ℕ) {a : A} → get_elem? xs i ≡ some a → i < length xs
  get_elem?-lt [] i e = cc
  get_elem?-lt (x ∷ xs) zero e = omega arith
  get_elem?-lt (x ∷ xs) (suc i) e = omega (arith, get_elem?-lt xs i e)

  pub All-erase_idx {κ} : (P : A → Type κ) (xs : List A) (i : ℕ) → All P xs → All P (erase_idx xs i)
  All-erase_idx P [] i h = tt
  All-erase_idx P (x ∷ xs) zero h = h.1
  All-erase_idx P (x ∷ xs) (suc i) h = (h.0, All-erase_idx P xs i h.1)

  pub All-get_elem? {κ} :
      (P : A → Type κ) (xs : List A) (i : ℕ) (a : A) → get_elem? xs i ≡ some a → All P xs → P a
  All-get_elem? P [] i a e h = cc
  All-get_elem? P (x ∷ xs) zero a e h = subst P (cc) h.0
  All-get_elem? P (x ∷ xs) (suc i) a e h = All-get_elem? P xs i a e h.1

  pub All-append {κ} : (P : A → Type κ) (xs ys : List A) → All P xs → All P ys → All P (xs ++ ys)
  All-append P [] ys h k = k
  All-append P (x ∷ xs) ys h k = (h.0, All-append P xs ys h.1 k)

  pub All-zip {κ μ} :
      (P : A → Type κ) (Q : A → Type μ) (xs : List A)
      → All P xs
      → All Q xs
      → All (λ a. P a × Q a) xs
  All-zip P Q [] h k = tt
  All-zip P Q (x ∷ xs) h k = ((h.0, k.0), All-zip P Q xs h.1 k.1)

  pub All-insert {κ} :
      (P : A → Type κ) (xs : List A) (i : ℕ) (a : A)
      → get_elem? xs i ≡ some a
      → P a
      → All P (erase_idx xs i)
      → All P xs
  All-insert P [] i a e p h = tt
  All-insert P (x ∷ xs) zero a e p h = (subst P (cc) p, h)
  All-insert P (x ∷ xs) (suc i) a e p h = (h.0, All-insert P xs i a e p h.1)

abbrev pub one_if : Bool → ℕ
one_if true = 1
one_if false = 0

-- How many elements pass a test.
abbrev pub count {ℓ} : {A : Type ℓ} → (A → Bool) → List A → ℕ
count f [] = 0
count f (x ∷ xs) = one_if (f x) + count f xs

pub count-implies {ℓ} :
    {A : Type ℓ} (f g : A → Bool) (xs : List A)
    → ((x : A) → f x ≡ true → g x ≡ true)
    → count g xs ≡ 0
    → count f xs ≡ 0
count-implies f g [] h k = refl
count-implies f g (x ∷ xs) h k = let rest = count-implies f g xs h in ground (arith, h x, rest)

-- Where every element passes a test.
pub count-implies_where {ℓ} :
    {A : Type ℓ} (test f g : A → Bool) (xs : List A)
    → ((x : A) → test x ≡ true → f x ≡ true → g x ≡ true)
    → count (λ x. not (test x)) xs ≡ 0
    → count g xs ≡ 0
    → count f xs ≡ 0
count-implies_where test f g [] h all k = refl
count-implies_where test f g (x ∷ xs) h all k =
    let passes : test x ≡ true = ground (arith, all) in
    let rest = count-implies_where test f g xs h (ground (arith, all)) (ground (arith, k)) in
    ground (arith, h x passes, rest, k)

pub count-append {ℓ} :
    {A : Type ℓ} (f : A → Bool) (xs ys : List A) → count f (xs ++ ys) ≡ count f xs + count f ys
count-append f [] ys = omega arith
count-append f (x ∷ xs) ys = omega (arith, count-append f xs ys)

pub count-erase_idx {ℓ} :
    {A : Type ℓ} (f : A → Bool) (xs : List A) (i : ℕ) (a : A)
    → get_elem? xs i ≡ some a
    → count f (erase_idx xs i) + one_if (f a) ≡ count f xs
count-erase_idx f [] i a e = cc
count-erase_idx f (x ∷ xs) zero a e = let same : x ≡ a = cc in rw same (omega arith)
count-erase_idx f (x ∷ xs) (suc i) a e = omega (arith, count-erase_idx f xs i a e)

pub count-erase_idx_le {ℓ} :
    {A : Type ℓ} (f : A → Bool) (xs : List A) (i : ℕ) → count f (erase_idx xs i) ≤ count f xs
count-erase_idx_le f [] i = omega arith
count-erase_idx_le f (x ∷ xs) zero = omega arith
count-erase_idx_le f (x ∷ xs) (suc i) = omega (arith, count-erase_idx_le f xs i)
