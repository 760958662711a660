-- ===== src/Ranking/Arbiter/Matching.antt =====
-- The GoSrc packets of an epoch are a matching: no source and no destination stands in two of them,
-- and all were free before.
use ruf.Prelude.{
  ℕ, ◌<◌, ◌≡◌, ◌⊎◌, inl, inr, Bool, true, false, List, [], ◌∷◌, none, some, get_or, set, All,
  Bool-cases, Option-cases, arith,
}
use ruf.Prelude.Slots.{Taken, Taken-nil, Taken-cons}
use ruf.Params.{Params}
use ruf.Ranking.Arbiter.{Arbiter, ListSrcs, GoSrc, first_free, sending_gosrc, schedule_epoch}
use ruf.Ranking.Arbiter.Serve.{Hosts, hosts, give, pick, greedy}
use ruf.Ranking.Arbiter.Epoch.{schedule_epoch-greedy}

abbrev pub srcs : List GoSrc → List ℕ
srcs [] = []
srcs (g ∷ gs) = g.src_id ∷ srcs gs

abbrev pub dsts : List GoSrc → List ℕ
dsts [] = []
dsts (g ∷ gs) = g.dst ∷ dsts gs

-- `n` is an entry of the list.
abbrev pub In : {A : Type 0} → A → List A → Type 0
In n [] = ⊥
In n (x ∷ xs) = (n ≡ x) ⊎ In n xs

first_free-some :
    (l : List Bool) (is : List ℕ) (i : ℕ)
    → first_free l is ≡ some i
    → (get_or l i false ≡ true) × In i is
unfolding first_free
first_free-some l [] i h = cc
first_free-some l (x ∷ is) i h = elim (Bool-cases (get_or l x false)) [
  | inl free ↦ let e : i ≡ x = ground arith in (rw e free, inl e)
  | inr busy ↦ let (free, at_i) = first_free-some l is i (ground arith) in (free, inr at_i)
]

first_free-none :
    (l : List Bool) (is : List ℕ) → first_free l is ≡ none → All (λ i. get_or l i false ≡ false) is
unfolding first_free
first_free-none l [] h = tt
first_free-none l (x ∷ is) h = elim (Bool-cases (get_or l x false)) [
  | inl free ↦ absurd (ground arith)
  | inr busy ↦ (busy, first_free-none l is (ground arith))
]

module _ (params : Params) where
  -- A request is passed over, or gives its destination a free source of its list.
  pub data Picks (h : Hosts) (r : ListSrcs) : Type 0 where
    passed :
        pick params h r ≡ (h, [])
        → (get_or h.dst r.dst false ≡ false) ⊎ All (λ i. get_or h.src i false ≡ false) r.list_srcs
        → Picks h r
    picked :
        (i : ℕ)
        → pick params h r ≡ give params h r.dst (some i)
        → get_or h.src i false ≡ true
        → get_or h.dst r.dst false ≡ true
        → In i r.list_srcs
        → Picks h r

  pub pick-Picks : (h : Hosts) (r : ListSrcs) → Picks h r
  pick-Picks h r = elim (Bool-cases (get_or h.dst r.dst false)) [
    | inr busy ↦ passed (rw busy) (inl busy)
    | inl free ↦ elim (Option-cases (first_free h.src r.list_srcs)) [
      | inl e ↦ passed (rw (free, e)) (inr (first_free-none h.src r.list_srcs e))
      | inr (i, e) ↦
          let (at_i, i_in) = first_free-some h.src r.list_srcs i e in
          picked i (rw (free, e)) at_i free i_in
    ]
  ]

  abbrev pub taking : Hosts → ListSrcs → ℕ → Hosts
  taking h r i = record { src = set h.src i false; dst = set h.dst r.dst false }

  pub greedy_passed :
      (h : Hosts) (r : ListSrcs) (rs : List ListSrcs)
      → pick params h r ≡ (h, [])
      → greedy params h (r ∷ rs) ≡ greedy params h rs
  unfolding greedy
  greedy_passed h r rs e = rw (e, greedy)

  pub greedy_picked :
      (h : Hosts) (r : ListSrcs) (rs : List ListSrcs) (i : ℕ)
      → pick params h r ≡ give params h r.dst (some i)
      → let g = greedy params (taking h r i) rs in
        greedy params h (r ∷ rs) ≡ (g.0, sending_gosrc params r.dst i ∷ g.1)
  unfolding greedy
  greedy_picked h r rs i e = rw (e, greedy)

  -- The packets take free sources and free destinations, each once, and those alone change.
  pub record IsMatching (h : Hosts) (g : Hosts × List GoSrc) : Type 0 where
    pub sources : Taken h.src (srcs g.1) g.0.src
    pub destinations : Taken h.dst (dsts g.1) g.0.dst

  IsMatching-cons :
      (h : Hosts) (r : ListSrcs) (i : ℕ) (g : Hosts × List GoSrc)
      → get_or h.src i false ≡ true
      → get_or h.dst r.dst false ≡ true
      → IsMatching (taking h r i) g
      → IsMatching h (g.0, sending_gosrc params r.dst i ∷ g.1)
  unfolding sending_gosrc
  IsMatching-cons h r i g src dst m = record {
    sources = Taken-cons h.src i (srcs g.1) g.0.src src m.sources;
    destinations = Taken-cons h.dst r.dst (dsts g.1) g.0.dst dst m.destinations;
  }

  pub greedy-IsMatching : (h : Hosts) (rs : List ListSrcs) → IsMatching h (greedy params h rs)
  unfolding greedy
  greedy-IsMatching h [] = record { sources = Taken-nil h.src; destinations = Taken-nil h.dst }
  greedy-IsMatching h (r ∷ rs) = elim (pick-Picks h r) [
    | passed e _ ↦ rw (greedy_passed h r rs e) (greedy-IsMatching h rs)
    | picked i e src dst _ ↦
        rw (greedy_picked h r rs i e)
          (IsMatching-cons h r i _ src dst (greedy-IsMatching (taking h r i) rs))
  ]

  -- When flows are left to finish and no next epoch is scheduled yet, the GoSrc packets that an
  -- epoch sends are a matching of sources that were free with destinations that were free: no
  -- source and no destination stands in two packets. After the epoch exactly the hosts in the
  -- packets have become busy.
  pub schedule_epoch-IsMatching :
      (finished now : ℕ) (draws : List ℕ) (a c : Arbiter) (sent : List GoSrc)
      → finished < params.num_flows_to_run
      → a.arbiter_proc_evt ≡ none
      → schedule_epoch params finished now draws a ≡ some (c, sent)
      → IsMatching (hosts a) (hosts c, sent)
  schedule_epoch-IsMatching finished now draws a c sent h idle e =
      let (order, drains, same) =
        schedule_epoch-greedy params now draws finished a c sent h idle e in
      rw same (greedy-IsMatching (hosts a) order)
