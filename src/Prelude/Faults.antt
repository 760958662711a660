-- ===== src/Prelude/Faults.antt =====
-- Code that may hit a failed `assert` or run out of fuel: `none` is the fault.
use mathlib.Core.Path.{◌≡◌, refl}
use mathlib.Core.Bool.{Bool, true, false}
use mathlib.Core.Option.{Option, none, some}

infixl 5 ◌>>=◌ ◌>>◌
abbrev pub ◌>>=◌ {ℓ κ} : {A : Type ℓ} {B : Type κ} → Option A → (A → Option B) → Option B
none >>= f = none
some a >>= f = f a

abbrev pub ◌>>◌ {ℓ κ} : {A : Type ℓ} {B : Type κ} → Option A → Option B → Option B
m >> k = m >>= λ _. k

-- `assert(test)`.
abbrev pub assert : Bool → Option (Unit {0})
assert true = some tt
assert false = none

-- A chain that returns has a first step that returns, and goes on from its result.
pub >>=-eq-some {ℓ κ} :
    {A : Type ℓ} {B : Type κ} (m : Option A) (f : A → Option B) {b : B}
    → (m >>= f) ≡ some b
    → (a : A) × (m ≡ some a) × (f a ≡ some b)
>>=-eq-some none f h = cc
>>=-eq-some (some a) f h = (a, refl, h)

pub assert-eq-some : (test : Bool) {u : Unit {0}} → assert test ≡ some u → test ≡ true
assert-eq-some true h = refl
assert-eq-some false h = cc

pub some_inj {ℓ} : {A : Type ℓ} {x y : A} → some x ≡ some y → x ≡ y
some_inj e = cc

pub none_ne_some {ℓ} : {A : Type ℓ} {x : A} → none ≡ some x → ⊥
none_ne_some e = cc
