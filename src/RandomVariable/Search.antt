-- ===== src/RandomVariable/Search.antt =====
-- The binary search of `lookup` finds what the linear search of CDFRandomVariable finds.
use ruf.Prelude.{
  ℕ, zero, suc, ◌+◌, ◌-◌, ◌/◌, ◌≤◌, ◌<◌, ◌≡◌, ◌⊎◌, refl, subst, ◌∙◌, true, false, List, [], ◌∷◌,
  none, some, length, get_or, get_elem?, ltb, leb, Bool-cases, inl, inr, arith,
}
use ruf.Prelude.Faults.{◌>>=◌}
use ruf.RandomVariable.{CdfEntry, search, lookup, first_entry, cdf_value}

abbrev pub nothing : CdfEntry
nothing = record { cdf = 0; val = 0 }

abbrev pub cdf_at : List CdfEntry → ℕ → ℕ
cdf_at table i = (get_or table i nothing).cdf

pub get_elem?-get_or :
    (table : List CdfEntry) (i : ℕ)
    → i < length table
    → get_elem? table i ≡ some (get_or table i nothing)
get_elem?-get_or [] i h = absurd (omega arith)
get_elem?-get_or (e ∷ es) zero h = refl
get_elem?-get_or (e ∷ es) (suc i) h = get_elem?-get_or es i (omega arith)

-- The table goes up, as `loadCDF` asserts of the file.
abbrev pub IsSorted : List CdfEntry → Type 0
IsSorted table = (i j : ℕ) → i ≤ j → j < length table → cdf_at table i ≤ cdf_at table j

-- The first index that is not below `u`, or the last one if all are.
pub record Found (table : List CdfEntry) (u i : ℕ) : Type 0 where
  pub bound : i < length table
  pub below : (j : ℕ) → j < i → cdf_at table j < u
  pub reached : (u ≤ cdf_at table i) ⊎ (i + 1 ≡ length table)

module _ (table : List CdfEntry) (u : ℕ) (sorted : IsSorted table) where
  abbrev middle : ℕ → ℕ → ℕ
  middle lo hi = (lo + hi) / 2

  search-stop : (n lo hi : ℕ) → ltb lo hi ≡ false → search table u (suc n) lo hi ≡ some lo
  unfolding search
  search-stop n lo hi stop = rw (stop, search)

  search-right :
      (n lo hi : ℕ)
      → ltb lo hi ≡ true
      → hi < length table
      → ltb (cdf_at table (middle lo hi)) u ≡ true
      → search table u (suc n) lo hi ≡ search table u n (middle lo hi + 1) hi
  unfolding search
  search-right n lo hi go bound under =
      rw (go, get_elem?-get_or table (middle lo hi) (ground arith), search, ◌>>=◌, under)

  search-left :
      (n lo hi : ℕ)
      → ltb lo hi ≡ true
      → hi < length table
      → ltb (cdf_at table (middle lo hi)) u ≡ false
      → search table u (suc n) lo hi ≡ search table u n lo (middle lo hi)
  unfolding search
  search-left n lo hi go bound above =
      rw (go, get_elem?-get_or table (middle lo hi) (ground arith), search, ◌>>=◌, above)

  -- All up to an entry below `u` are below it.
  all_below :
      (m j : ℕ) → j < m + 1 → m < length table → ltb (cdf_at table m) u ≡ true → cdf_at table j < u
  all_below m j h bound under = ground (arith, sorted j m)

  search-Found :
      (n lo hi : ℕ)
      → lo ≤ hi
      → hi < lo + n
      → hi < length table
      → ((j : ℕ) → j < lo → cdf_at table j < u)
      → (u ≤ cdf_at table hi) ⊎ (hi + 1 ≡ length table)
      → (i : ℕ) × (search table u n lo hi ≡ some i) × Found table u i
  search-Found zero lo hi le fuel bound below reached = absurd (omega arith)
  search-Found (suc n) lo hi le fuel bound below reached = elim (Bool-cases (ltb lo hi)) [
    | inr stop ↦ (
      lo,
      search-stop n lo hi stop,
      record {
        bound = omega arith;
        below = below;
        reached = subst (λ k. (u ≤ cdf_at table k) ⊎ (k + 1 ≡ length table)) (ground arith) reached;
      },
    )
    | inl go ↦ elim (Bool-cases (ltb (cdf_at table (middle lo hi)) u)) [
      | inl under ↦
          let (i, runs, found) =
            search-Found n (middle lo hi + 1) hi (ground arith) (ground arith) bound
              (λ j h. all_below (middle lo hi) j h (ground arith) under) reached in
          (i, search-right n lo hi go bound under ∙ runs, found)
      | inr above ↦
          let (i, runs, found) =
            search-Found n lo (middle lo hi) (ground arith) (ground arith) (ground arith) below
              (inl (ground arith)) in
          (i, search-left n lo hi go bound above ∙ runs, found)
    ]
  ]

  lookup_high :
      get_elem? table 0 ≡ some (get_or table 0 nothing)
      → leb u (cdf_at table 0) ≡ false
      → lookup table u ≡ search table u (length table) 1 (length table - 1)
  unfolding lookup
  lookup_high reads high = rw (reads, high)

  -- In a table that goes up and has at least two entries, `lookup` ends within as many rounds as
  -- the table has entries, reads nothing outside it, and returns the first index that is not below
  -- `u`, or the last index when all entries are below `u`.
  pub lookup-Found : 2 ≤ length table → (i : ℕ) × (lookup table u ≡ some i) × Found table u i
  unfolding lookup
  lookup-Found h =
      let reads = get_elem?-get_or table 0 (omega arith) in
      elim (Bool-cases (leb u (cdf_at table 0))) [
        | inl low ↦ (
          0,
          rw (reads, low),
          record {
            bound = omega arith;
            below = λ j k. absurd (omega arith);
            reached = inl (ground arith);
          },
        )
        | inr high ↦
            let (i, runs, found) =
              search-Found (length table) 1 (length table - 1) (omega arith) (omega arith)
                (omega arith) (λ j k. all_below 0 j (omega arith) (omega arith) (ground arith))
                (inr (omega arith)) in
            (i, lookup_high reads high ∙ runs, found)
      ]

first_entry-at :
    (table : List CdfEntry) (u i : ℕ)
    → i < length table
    → ((j : ℕ) → j < i → cdf_at table j < u)
    → u ≤ cdf_at table i
    → first_entry table u ≡ some (get_or table i nothing)
unfolding first_entry
first_entry-at [] u i h below found = absurd (omega arith)
first_entry-at (e ∷ es) u zero h below found = ground arith
first_entry-at (e ∷ es) u (suc i) h below found =
    let low : leb u e.cdf ≡ false = ground (arith, below 0) in
    rw low (first_entry-at es u i (omega arith) (λ j k. below (suc j) (omega arith)) found)

first_entry-none :
    (table : List CdfEntry) (u : ℕ)
    → ((j : ℕ) → j < length table → cdf_at table j < u)
    → first_entry table u ≡ none
unfolding first_entry
first_entry-none [] u below = refl
first_entry-none (e ∷ es) u below =
    let low : leb u e.cdf ≡ false = ground (arith, below 0) in
    rw low (first_entry-none es u (λ j k. below (suc j) (omega arith)))

module _ (table : List CdfEntry) (u i : ℕ) (found : Found table u i) where
  value_reached : u ≤ cdf_at table i → cdf_value table u ≡ some (get_or table i nothing).val
  unfolding cdf_value
  value_reached h = rw (first_entry-at table u i found.bound found.below h, cdf_value)

  value_last :
      cdf_at table i < u
      → i + 1 ≡ length table
      → cdf_value table u ≡ some (get_or table i nothing).val
  unfolding cdf_value
  value_last h last =
      let none_left = first_entry-none table u (λ j k. elim (Bool-cases (ltb j i)) [
        | inl before ↦ found.below j (ground arith)
        | inr other ↦ subst (λ m. cdf_at table m < u) (ground arith) h
      ]) in
      let index : length table - 1 ≡ i = omega arith in
      rw (none_left, index, get_elem?-get_or table i found.bound, cdf_value)

  Found-cdf_value : cdf_value table u ≡ some (get_or table i nothing).val
  Found-cdf_value = elim (Bool-cases (leb u (cdf_at table i))) [
    | inl h ↦ value_reached (ground arith)
    | inr h ↦ elim found.reached [
      | inl k ↦ absurd (ground arith)
      | inr k ↦ value_last (ground arith) k
    ]
  ]

-- In a table that goes up and has at least two entries, the value at the index that the binary
-- search of `lookup` finds is the one that the linear search of CDFRandomVariable returns.
pub lookup-cdf_value :
    (table : List CdfEntry) (u : ℕ)
    → IsSorted table
    → 2 ≤ length table
    → (i : ℕ) × (lookup table u ≡ some i) × (cdf_value table u ≡ some (get_or table i nothing).val)
lookup-cdf_value table u sorted h =
    let (i, runs, found) = lookup-Found table u sorted h in
    (i, runs, Found-cdf_value table u i found)
