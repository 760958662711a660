-- ===== src/StdQueue.antt =====
-- `std::priority_queue` of the C++ library, which is not code of the repository: an interface with what
-- its documentation promises. `comp a b` says that `a` is served after `b`, and `take` is `top` and
-- then `pop`. The laws count the elements that pass a test. What is taken is first only where `comp`
-- orders the elements of the queue, as the documentation asks of it.
use ruf.Prelude.{◌≡◌, refl, Bool, true, false, not, List, [], ◌∷◌, Option, none, some, count, arith}

-- A strict weak order on the elements that pass a test.
pub record IsOrder {A : Type 0} (test : A → Bool) (comp : A → A → Bool) : Type 0 where
  pub irreflexive : (a : A) → test a ≡ true → comp a a ≡ false
  pub asymmetric : (a b : A) → test a ≡ true → test b ≡ true → comp a b ≡ true → comp b a ≡ false
  pub cotransitive :
      (a b c : A)
      → test a ≡ true
      → test b ≡ true
      → test c ≡ true
      → comp a b ≡ false
      → comp b c ≡ false
      → comp a c ≡ false

pub record StdQueue {A : Type 0} (comp : A → A → Bool) : Type 1 where
  pub Carrier : Type 0
  pub contents : Carrier → List A
  pub push : A → Carrier → Carrier
  pub take : Carrier → Option (A × Carrier)
  pub count-push :
      (test : A → Bool) (e : A) (q : Carrier)
      → count test (contents (push e q)) ≡ count test (e ∷ contents q)
  pub take-none : (test : A → Bool) (q : Carrier) → take q ≡ none → count test (contents q) ≡ 0
  pub count-take :
      (test : A → Bool) (q : Carrier) (e : A) (q' : Carrier)
      → take q ≡ some (e, q')
      → count test (contents q) ≡ count test (e ∷ contents q')
  pub take-first :
      (test : A → Bool)
      → IsOrder test comp
      → (q : Carrier) (e : A) (q' : Carrier) → count (λ a. not (test a)) (contents q) ≡ 0
      → take q ≡ some (e, q')
      → count (comp e) (contents q') ≡ 0

count_never : {A : Type 0} (xs : List A) → count (λ x. not true) xs ≡ 0
count_never [] = refl
count_never (x ∷ xs) = omega (arith, count_never xs)

-- With a comparator that orders everything.
pub take-least :
    {A : Type 0} {comp : A → A → Bool} (store : StdQueue comp)
    → IsOrder (λ a. true) comp
    → (q : store.Carrier) (e : A) (q' : store.Carrier) → store.take q ≡ some (e, q')
    → count (comp e) (store.contents q') ≡ 0
take-least store order q e q' takes =
    store.take-first (λ a. true) order q e q' (count_never (store.contents q)) takes
