-- ===== src/RandomVariable.antt =====
-- EmpiricalRandomVariable and CDFRandomVariable of simulator/coresim/random_variable.cpp: how a number that
-- was drawn is looked up in the table of a distribution. A probability is a number of some unit; the
-- draw `rand()` and the interpolation are not modelled. Reading outside the table is `none`.
pub mod Search
use ruf.Prelude.{
  ℕ, zero, suc, ◌+◌, ◌-◌, ◌/◌, Bool, true, false, List, [], ◌∷◌, Option, none, some, length,
  get_elem?, ltb, leb, if◌then◌else◌,
}
use ruf.Prelude.Faults.{◌>>=◌}

-- CDFentry
pub record CdfEntry : Type 0 where
  pub cdf : ℕ
  pub val : ℕ

-- The loop of `lookup` over `lo` and `hi`, on fuel.
unfoldable pub search : List CdfEntry → ℕ → ℕ → ℕ → ℕ → Option ℕ
search table u zero lo hi = none
search table u (suc n) lo hi = elim (ltb lo hi) [
  | false ↦ some lo
  | true ↦ do
    e ← get_elem? table ((lo + hi) / 2)
    elim (ltb e.cdf u) [
      | true ↦ search table u n ((lo + hi) / 2 + 1) hi
      | false ↦ search table u n lo ((lo + hi) / 2)
    ]
]

-- `EmpiricalRandomVariable::lookup`
unfoldable pub lookup : List CdfEntry → ℕ → Option ℕ
lookup table u = do
  first ← get_elem? table 0
  (if leb u first.cdf then some 0 else search table u (length table) 1 (length table - 1))

-- The loop of `CDFRandomVariable::value`: the first entry that is not below `u`.
unfoldable pub first_entry : List CdfEntry → ℕ → Option CdfEntry
first_entry [] u = none
first_entry (e ∷ es) u = if leb u e.cdf then some e else first_entry es u

-- `CDFRandomVariable::value`, at the number drawn.
unfoldable pub cdf_value : List CdfEntry → ℕ → Option ℕ
cdf_value table u = elim (first_entry table u) [
  | some e ↦ some e.val
  | none ↦ do last ← get_elem? table (length table - 1); some last.val
]
