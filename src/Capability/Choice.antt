-- ===== src/Capability/Choice.antt =====
-- How CapabilityHost of simulator/ext/capabilityhost.cpp picks its next flow without replacement, as a
-- RANDOM_HOST: `choose_send_flow` and `choose_recv_flow` do the same with their arrays. A flow is
-- its id, and `rand()` an argument.
use mathlib.Core.List.{Perm}
use mathlib.Core.List.Perm
use native.Mathlib.Nat.{mod-lt}
use ruf.Prelude.{
  ℕ, zero, suc, ◌%◌, ◌<◌, ◌≡◌, refl, sym, subst, true, List, [], ◌∷◌, Option, none, some, length,
  length-set, set, get_elem?, ◌==◌, if◌then◌else◌, Bool-cases, inl, inr, arith,
}
use ruf.Prelude.Faults.{◌>>=◌}
use ruf.Prelude.Slots.{contains}

-- `pop_back` and `back` of a vector.
unfoldable pub pop_back : List ℕ → List ℕ
pop_back [] = []
pop_back (x ∷ []) = []
pop_back (x ∷ y ∷ ys) = x ∷ pop_back (y ∷ ys)

unfoldable pub back : List ℕ → Option ℕ
back [] = none
back (x ∷ []) = some x
back (x ∷ y ∷ ys) = back (y ∷ ys)

-- The loop that erases the first entry equal to `f`.
unfoldable pub erase_flow : ℕ → List ℕ → List ℕ
erase_flow f [] = []
erase_flow f (x ∷ xs) = if f == x then xs else x ∷ erase_flow f xs

-- The last entry moves to the place of the chosen one.
unfoldable pub pick : ℕ → List ℕ → Option (ℕ × List ℕ)
unfolding pop_back back
pick index flows = do
  f ← get_elem? flows index
  last ← back flows
  some (f, if length flows == 1 then pop_back flows else pop_back (set flows index last))

-- The flow that is to go on, with `none` for `NULL`, and the flows that wait.
pub record SendFlows : Type 0 where
  pub send_flow : Option ℕ
  pub active_send_flows_array : List ℕ

-- Without a flow that is to go on, and with the number that `rand()` gives.
unfoldable pub choose_drawn : ℕ → SendFlows → Option (Option ℕ × SendFlows)
unfolding pick
choose_drawn draw s = elim s.active_send_flows_array [
  | [] ↦ some (none, s)
  | x ∷ xs ↦ do
    (f, rest) ← pick (draw % length (x ∷ xs)) (x ∷ xs)
    some (some f, record s { active_send_flows_array = rest })
]

-- The whole call.
unfoldable pub choose : ℕ → SendFlows → Option (Option ℕ × SendFlows)
unfolding erase_flow choose_drawn
choose draw s = elim s.send_flow [
  | some f ↦ some (
    some f,
    record { send_flow = none; active_send_flows_array = erase_flow f s.active_send_flows_array },
  )
  | none ↦ choose_drawn draw s
]

pop_back-cons : (x : ℕ) (ys : List ℕ) → 0 < length ys → pop_back (x ∷ ys) ≡ x ∷ pop_back ys
unfolding pop_back
pop_back-cons x [] h = absurd (omega arith)
pop_back-cons x (y ∷ ys) h = refl

-- The last entry in front of the others.
back-Perm :
    (x : ℕ) (xs : List ℕ)
    → (last : ℕ) × (back (x ∷ xs) ≡ some last) × Perm (x ∷ xs) (last ∷ pop_back (x ∷ xs))
unfolding back pop_back
back-Perm x [] = (x, refl, Perm.rfl)
back-Perm x (y ∷ ys) =
    let (last, e, p) = back-Perm y ys in
    (last, e, Perm.trans (Perm.cons x p) (Perm.swap last x (pop_back (y ∷ ys))))

set-Perm :
    (x : ℕ) (xs : List ℕ) (i last a : ℕ)
    → back (x ∷ xs) ≡ some last
    → get_elem? (x ∷ xs) i ≡ some a
    → Perm (x ∷ xs) (a ∷ pop_back (set (x ∷ xs) i last))
unfolding back pop_back
set-Perm x [] zero last a e h = Perm.cons' (cc) Perm.rfl
set-Perm x [] (suc i) last a e h = absurd (cc)
set-Perm x (y ∷ ys) zero last a e h =
    let (z, ez, p) = back-Perm y ys in
    Perm.cons' (cc) (subst (λ l. Perm (y ∷ ys) (l ∷ pop_back (y ∷ ys))) (cc) p)
set-Perm x (y ∷ ys) (suc i) last a e h =
    let others = set-Perm y ys i last a e h in
    let moved : pop_back (x ∷ set (y ∷ ys) i last) ≡ x ∷ pop_back (set (y ∷ ys) i last) =
      pop_back-cons x (set (y ∷ ys) i last) (omega (arith, length-set (y ∷ ys) i last)) in
    subst (λ l. Perm (x ∷ y ∷ ys) (a ∷ l)) (sym moved)
      (Perm.trans (Perm.cons x others) (Perm.swap a x (pop_back (set (y ∷ ys) i last))))

get_elem?-some : (xs : List ℕ) (i : ℕ) → i < length xs → (a : ℕ) × (get_elem? xs i ≡ some a)
get_elem?-some [] i h = absurd (omega arith)
get_elem?-some (x ∷ xs) zero h = (x, refl)
get_elem?-some (x ∷ xs) (suc i) h = get_elem?-some xs i (omega arith)

alone :
    (x : ℕ) (xs : List ℕ) (i f : ℕ)
    → length (x ∷ xs) == 1 ≡ true
    → get_elem? (x ∷ xs) i ≡ some f
    → Perm (x ∷ xs) (f ∷ pop_back (x ∷ xs))
unfolding pop_back
alone x [] zero f one h = Perm.cons' (cc) Perm.rfl
alone x [] (suc i) f one h = absurd (cc)
alone x (y ∷ ys) i f one h = absurd (ground arith)

pick-Perm :
    (x : ℕ) (xs : List ℕ) (index : ℕ)
    → index < length (x ∷ xs)
    → (f : ℕ) × (rest : List ℕ) × (pick index (x ∷ xs) ≡ some (f, rest)) × Perm (x ∷ xs) (f ∷ rest)
unfolding pick
pick-Perm x xs index h =
    let (f, reads) = get_elem?-some (x ∷ xs) index h in
    let (last, ends, p) = back-Perm x xs in
    elim (Bool-cases (length (x ∷ xs) == 1)) [
      | inl one ↦ (f, pop_back (x ∷ xs), rw (reads, ends, one, pick), alone x xs index f one reads)
      | inr more ↦ (
        f,
        pop_back (set (x ∷ xs) index last),
        rw (reads, ends, more, pick),
        set-Perm x xs index last f ends reads,
      )
    ]

erase_flow-Perm : (f : ℕ) (xs : List ℕ) → contains xs f ≡ true → Perm xs (f ∷ erase_flow f xs)
unfolding erase_flow
erase_flow-Perm f [] h = absurd (cc)
erase_flow-Perm f (x ∷ xs) h = elim (Bool-cases (f == x)) [
  | inl same ↦ let e : x ≡ f = ground arith in rw same (Perm.cons' e Perm.rfl)
  | inr other ↦
      let rest : contains xs f ≡ true = ground arith in
      rw other
        (Perm.trans (Perm.cons x (erase_flow-Perm f xs rest)) (Perm.swap f x (erase_flow f xs)))
]

-- The flow that is to go on is one of those that wait.
abbrev pub Remembered : SendFlows → Type 0
Remembered s = (f : ℕ) → s.send_flow ≡ some f → contains s.active_send_flows_array f ≡ true

-- What `choose` takes out of the array.
abbrev pub Taken : List ℕ → Option ℕ → List ℕ → Type 0
Taken flows none rest = (flows ≡ []) × (rest ≡ [])
Taken flows (some f) rest = Perm flows (f ∷ rest)

-- What `choose` gives for the state `s`.
abbrev pub Chosen : SendFlows → Option ℕ → SendFlows → Type 0
Chosen s f t =
    Taken s.active_send_flows_array f t.active_send_flows_array
    × (t.send_flow ≡ none)
    × ((g : ℕ) → s.send_flow ≡ some g → f ≡ some g)

choose_drawn-Chosen :
    (draw : ℕ) (flows : List ℕ)
    → (f : Option ℕ) × (t : SendFlows) × (choose_drawn draw
          (record { send_flow = none; active_send_flows_array = flows })
        ≡ some (f, t))
      × Chosen (record { send_flow = none; active_send_flows_array = flows }) f t
unfolding choose_drawn
choose_drawn-Chosen draw [] = (none, _, refl, ((refl, refl), refl, λ g h. absurd (cc)))
choose_drawn-Chosen draw (x ∷ xs) =
    let (f, rest, runs, perm) =
      pick-Perm x xs (draw % length (x ∷ xs)) (mod-lt draw (omega arith)) in
    (
      some f,
      record { send_flow = none; active_send_flows_array = rest },
      rw runs,
      (perm, refl, λ g h. absurd (cc)),
    )

choose_at :
    (remembered : Option ℕ) (draw : ℕ) (flows : List ℕ)
    → Remembered (record { send_flow = remembered; active_send_flows_array = flows })
    → (f : Option ℕ) × (t : SendFlows) × (choose draw
          (record { send_flow = remembered; active_send_flows_array = flows })
        ≡ some (f, t))
      × Chosen (record { send_flow = remembered; active_send_flows_array = flows }) f t
unfolding choose
choose_at (some f) draw flows h =
    (some f, _, refl, (erase_flow-Perm f flows (h f refl), refl, λ g e. e))
choose_at none draw flows h = choose_drawn-Chosen draw flows

-- When the flow that is to go on, if there is one, is among those that wait, the choice returns
-- whatever number is drawn, so that no index is out of range. It gives no flow only if none waits;
-- else exactly the flow that it gives is taken out of the array. A flow that is to go on is the one
-- chosen, and afterwards there is none.
pub choose-Chosen :
    (draw : ℕ) (s : SendFlows)
    → Remembered s
    → (f : Option ℕ) × (t : SendFlows) × (choose draw s ≡ some (f, t)) × Chosen s f t
choose-Chosen draw s h = choose_at s.send_flow draw s.active_send_flows_array h
