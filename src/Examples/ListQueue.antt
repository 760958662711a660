-- ===== src/Examples/ListQueue.antt =====
-- A list as `std::priority_queue`: its laws can hold for any comparator.
use ruf.Prelude.{
  ◌≡◌, refl, subst, Bool, true, false, List, [], ◌∷◌, Option, none, some, Bool-cases, inl, inr,
  arith, count, count-implies_where, not, if◌then◌else◌,
}
use ruf.StdQueue.{StdQueue, IsOrder}

module _ {A : Type 0} (comp : A → A → Bool) where
  -- The first event of a list that is not empty, and the others.
  abbrev extract : A → List (A) → A × List (A)
  extract e [] = (e, [])
  extract e (x ∷ xs) =
      let (best, others) = extract x xs in
      if comp e best then (best, e ∷ others) else (e, best ∷ others)

  abbrev take : List (A) → Option (A × List (A))
  take [] = none
  take (x ∷ xs) = some (extract x xs)

  count-extract :
      (test : A → Bool) (e : A) (xs : List (A))
      → count test (e ∷ xs) ≡ count test ((extract e xs).0 ∷ (extract e xs).1)
  count-extract test e [] = refl
  count-extract test e (x ∷ xs) = elim (Bool-cases (comp e (extract x xs).0)) [
    | inl after ↦ rw (after) (omega (arith, count-extract test x xs))
    | inr before ↦ rw before (omega (arith, count-extract test x xs))
  ]

  module _ (test : A → Bool) (order : IsOrder test comp) where
    abbrev AllPass : List A → Type 0
    AllPass xs = count (λ a. not (test a)) xs ≡ 0

    later :
        (e best b : A)
        → test e ≡ true
        → test best ≡ true
        → test b ≡ true
        → comp e best ≡ false
        → comp e b ≡ true
        → comp best b ≡ true
    later e best b passes best_passes b_passes before h = elim (Bool-cases (comp best b)) [
      | inl t ↦ t
      | inr n ↦
          let same = order.cotransitive e best b passes best_passes b_passes before n in absurd (cc)
    ]

    extract-first :
        (e : A) (xs : List A)
        → AllPass (e ∷ xs)
        → count (comp (extract e xs).0) (extract e xs).1 ≡ 0
    extract-first e [] all = refl
    extract-first e (x ∷ xs) all =
        let passes : test e ≡ true = ground (arith, all) in
        let others : AllPass (x ∷ xs) = ground (arith, all) in
        let taken = count-extract (λ a. not (test a)) x xs in
        let best_passes : test (extract x xs).0 ≡ true = ground (arith, others, taken) in
        let rest_pass : AllPass (extract x xs).1 = ground (arith, others, taken) in
        let least = extract-first x xs others in
        elim (Bool-cases (comp e (extract x xs).0)) [
          | inl after ↦
              let back = order.asymmetric e (extract x xs).0 passes best_passes after in
              rw after (ground (arith, back, least))
          | inr before ↦
              let rest =
                count-implies_where test (comp e) (comp (extract x xs).0) (extract x xs).1
                  (λ b t h. later e (extract x xs).0 b passes best_passes t before h) rest_pass
                  least in
              rw before (ground (arith, before, rest))
        ]

  -- What `take` promises of what it gives.
  abbrev Counts : (A → Bool) → List (A) → Option (A × List (A)) → Type 0
  Counts test q none = count test q ≡ 0
  Counts test q (some (e, q')) = count test q ≡ count test (e ∷ q')

  abbrev First : Option (A × List (A)) → Type 0
  First none = Unit
  First (some (e, q')) = count (comp e) q' ≡ 0

  pub take-Counts : (test : A → Bool) (q : List (A)) → Counts test q (take q)
  take-Counts test [] = refl
  take-Counts test (x ∷ xs) = count-extract test x xs

  pub take-First :
      (test : A → Bool)
      → IsOrder test comp
      → (q : List A) → count (λ a. not (test a)) q ≡ 0
      → First (take q)
  take-First test order [] all = tt
  take-First test order (x ∷ xs) all = extract-first test order x xs all

  abbrev pub list_queue : StdQueue comp
  list_queue = record {
    Carrier = List A;
    contents = λ q. q;
    push = λ e q. e ∷ q;
    take = take;
    count-push = λ test e q. refl;
    take-none = λ test q h. subst (Counts test q) h (take-Counts test q);
    count-take = λ test q e q' h. subst (Counts test q) h (take-Counts test q);
    take-first = λ test order q e q' all h. subst First h (take-First test order q all);
  }
