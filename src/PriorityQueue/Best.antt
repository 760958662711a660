-- ===== src/PriorityQueue/Best.antt =====
-- custompriorityqueue.h under a comparator that is a strict weak order: `top` is a best entry, and
-- `pop` takes out that entry and no other.
use mathlib.Core.List.{Perm}
use ruf.Prelude.{
  ℕ, suc, ◌+◌, ◌≡◌, refl, sym, ap, ◌∙◌, subst, ◌⊎◌, inl, inr, Bool, true, false, List, [], ◌∷◌,
  some, get_elem?, erase_idx, erase_idx-perm, All, Bool-cases, arith,
}
use ruf.Prelude.Int.{ℤ, pos, negsuc}
use ruf.PriorityQueue.{PriorityQueue, top, top_of, top_loop, pop, pop_of, refresh, empty}

-- What the source needs of a comparator: `comp a b ≡ false` says that `a` is no worse than `b`.
pub record IsStrictWeak {ℓ} {A : Type ℓ} (comp : A → A → Bool) : Type ℓ where
  pub asym : (a b : A) → comp a b ≡ true → comp b a ≡ false
  pub irrefl : (a : A) → comp a a ≡ false
  pub trans : (a b c : A) → comp a b ≡ false → comp b c ≡ false → comp a c ≡ false

module _ {ℓ} {A : Type ℓ} (comp : A → A → Bool) where
  -- `b` is the entry at index `k`, and no worse than any.
  abbrev pub IsBest : List A → ℕ → A → Type ℓ
  IsBest v k b = (get_elem? v k ≡ some b) × All (λ y. comp b y ≡ false) v

  -- No index is remembered, or that of a best entry.
  abbrev pub IsValid : PriorityQueue A → Type ℓ
  IsValid q =
      (q.best_index ≡ negsuc 0) ⊎ ((k : ℕ) × (b : A) × (q.best_index ≡ pos k) × IsBest q.v k b)

  -- What `pop` leaves when the entry `b` at index `k` is the best.
  pub record Popped (v : List A) (b : A) (k : ℕ) (r : PriorityQueue A) : Type ℓ where
    pub best : IsBest v k b
    pub rest : r.v ≡ erase_idx v k
    pub perm : Perm v (b ∷ r.v)
    pub fresh : r.best_index ≡ negsuc 0

module _ {ℓ} {A : Type ℓ} (comp : A → A → Bool) (order : IsStrictWeak comp) where
  top_loop_worse :
      (x : A) (xs : List A) (i : ℕ) (best : A) (bi : ℤ)
      → comp x best ≡ true
      → top_loop comp (x ∷ xs) i best bi ≡ top_loop comp xs (i + 1) best bi
  unfolding top_loop
  top_loop_worse x xs i best bi h = rw (h, top_loop)

  top_loop_fine :
      (x : A) (xs : List A) (i : ℕ) (best : A) (bi : ℤ)
      → comp x best ≡ false
      → top_loop comp (x ∷ xs) i best bi ≡ top_loop comp xs (i + 1) x (pos i)
  unfolding top_loop
  top_loop_fine x xs i best bi h = rw (h, top_loop)

  -- What the loop returns is as good as what it started from and as all that it went through.
  abbrev Beats : List A → A → A → Type 0
  Beats xs best b = (comp b best ≡ false) × All (λ y. comp b y ≡ false) xs

  top_loop-Beats :
      (xs : List A) (i : ℕ) (best : A) (bi : ℤ) → Beats xs best (top_loop comp xs i best bi).0
  unfolding top_loop
  top_loop-Beats [] i best bi = (order.irrefl best, tt)
  top_loop-Beats (x ∷ xs) i best bi = elim (Bool-cases (comp x best)) [
    | inl worse ↦
        let ih = top_loop-Beats xs (i + 1) best bi in
        subst (λ r. Beats (x ∷ xs) best r.0) (sym (top_loop_worse x xs i best bi worse))
          (ih.0, (order.trans _ best x ih.0 (order.asym x best worse), ih.1))
    | inr fine ↦
        let ih = top_loop-Beats xs (i + 1) x (pos i) in
        subst (λ r. Beats (x ∷ xs) best r.0) (sym (top_loop_fine x xs i best bi fine))
          (order.trans _ x best ih.0 fine, (ih.0, ih.1))
  ]

  -- The remembered index is that of the result, unless nothing beat the start.
  abbrev Indexed : List A → ℕ → A × ℤ → A × ℤ → Type ℓ
  Indexed xs i start r = (r ≡ start) ⊎ ((k : ℕ) × (r.1 ≡ pos (i + k)) × (get_elem? xs k ≡ some r.0))

  Indexed-cons :
      (x : A) (xs : List A) (i : ℕ) (start r : A × ℤ)
      → Indexed xs (i + 1) start r
      → Indexed (x ∷ xs) i start r
  Indexed-cons x xs i start r (inl same) = inl same
  Indexed-cons x xs i start r (inr (k, e, g)) = inr (suc k, e ∙ ap pos (omega arith), g)

  Indexed-head :
      (x : A) (xs : List A) (i : ℕ) (r : A × ℤ)
      → Indexed xs (i + 1) (x, pos i) r
      → (k : ℕ) × (r.1 ≡ pos (i + k)) × (get_elem? (x ∷ xs) k ≡ some r.0)
  Indexed-head x xs i r (inl same) =
      (0, ap (λ r. r.1) same ∙ ap pos (omega arith), ap (λ r. some (r.0)) (sym same))
  Indexed-head x xs i r (inr (k, e, g)) = (suc k, e ∙ ap pos (omega arith), g)

  top_loop-Indexed :
      (xs : List A) (i : ℕ) (best : A) (bi : ℤ)
      → Indexed xs i (best, bi) (top_loop comp xs i best bi)
  unfolding top_loop
  top_loop-Indexed [] i best bi = inl refl
  top_loop-Indexed (x ∷ xs) i best bi = elim (Bool-cases (comp x best)) [
    | inl worse ↦
        subst (Indexed (x ∷ xs) i (best, bi)) (sym (top_loop_worse x xs i best bi worse))
          (Indexed-cons x xs i _ _ (top_loop-Indexed xs (i + 1) best bi))
    | inr fine ↦
        subst (Indexed (x ∷ xs) i (best, bi)) (sym (top_loop_fine x xs i best bi fine))
          (inr (Indexed-head x xs i _ (top_loop-Indexed xs (i + 1) x (pos i))))
  ]

  top_loop-IsBest :
      (x : A) (xs : List A) (bi : ℤ)
      → let r = top_loop comp (x ∷ xs) 0 x bi in
        (k : ℕ) × (r.1 ≡ pos k) × IsBest comp (x ∷ xs) k r.0
  top_loop-IsBest x xs bi =
      let (k, e, g) = at_index in
      (k, e ∙ ap pos (omega arith), (g, (top_loop-Beats (x ∷ xs) 0 x bi).1))
    where
      at_index :
          let r = top_loop comp (x ∷ xs) 0 x bi in
          (k : ℕ) × (r.1 ≡ pos (0 + k)) × (get_elem? (x ∷ xs) k ≡ some r.0)
      at_index =
          subst (λ r. (k : ℕ) × (r.1 ≡ pos (0 + k)) × (get_elem? (x ∷ xs) k ≡ some r.0))
            (sym (top_loop_fine x xs 0 x bi (order.irrefl x)))
            (Indexed-head x xs 0 _ (top_loop-Indexed xs (0 + 1) x (pos 0)))

  top_of-IsBest :
      (v : List A) (q : PriorityQueue A)
      → q.v ≡ v
      → empty q ≡ false
      → (b : A) × (k : ℕ) × (top comp q ≡ some (b, record q { best_index = pos k }))
        × IsBest comp v k b
  unfolding top empty
  top_of-IsBest [] q e h = cc (rw e at h)
  top_of-IsBest (x ∷ xs) q e h =
      let (k, at_k, best) = top_loop-IsBest x xs q.best_index in
      ((top_loop comp (x ∷ xs) 0 x q.best_index).0, k, rw (e, top_of, at_k), best)

  -- `top` gives a best entry and remembers its index; the entries stay.
  pub top-IsBest :
      (q : PriorityQueue A)
      → empty q ≡ false
      → (b : A) × (k : ℕ) × (top comp q ≡ some (b, record q { best_index = pos k }))
        × IsBest comp q.v k b
  top-IsBest q h = top_of-IsBest q.v q refl h

  pop_remembered :
      (v : List A) (q : PriorityQueue A) (k : ℕ)
      → q.v ≡ v
      → empty q ≡ false
      → q.best_index ≡ pos k
      → pop comp q ≡ some (record { v = erase_idx v k; best_index = negsuc 0 })
  unfolding pop empty
  pop_remembered [] q k e h at_k = cc (rw e at h)
  pop_remembered (x ∷ xs) q k e h at_k = rw (e, pop, at_k)

  pop_fresh :
      (v : List A) (k : ℕ) (b : A)
      → empty (record { v = v; best_index = negsuc 0 }) ≡ false
      → top comp (record { v = v; best_index = negsuc 0 })
        ≡ some (b, record { v = v; best_index = pos k })
      → pop comp (record { v = v; best_index = negsuc 0 })
        ≡ some (record { v = erase_idx v k; best_index = negsuc 0 })
  unfolding pop empty
  pop_fresh [] k b h t = cc
  pop_fresh (x ∷ xs) k b h t = rw (t, pop, pop_of, refresh)

  Popped-at :
      (v : List A) (b : A) (k : ℕ)
      → IsBest comp v k b
      → Popped comp v b k (record { v = erase_idx v k; best_index = negsuc 0 })
  Popped-at v b k best = record {
    best = best;
    rest = refl;
    perm = erase_idx-perm v k b best.0;
    fresh = refl;
  }

  abbrev PopsBest : PriorityQueue A → Type ℓ
  PopsBest q =
      empty q ≡ false
      → (b : A) × (k : ℕ) × (r : PriorityQueue A) × (pop comp q ≡ some r) × Popped comp q.v b k r

  pop_fresh-Popped : (v : List A) → PopsBest (record { v = v; best_index = negsuc 0 })
  pop_fresh-Popped v h =
      let (b, k, t, best) = top-IsBest (record { v = v; best_index = negsuc 0 }) h in
      (b, k, _, pop_fresh v k b h t, Popped-at v b k best)

  -- Under a strict weak order, on a queue that is not empty and whose remembered index, if any, is
  -- that of a best entry, `pop` succeeds, takes out one best entry and nothing else, and forgets
  -- the index.
  pub pop-Popped :
      (q : PriorityQueue A)
      → IsValid comp q
      → empty q ≡ false
      → (b : A) × (k : ℕ) × (r : PriorityQueue A) × (pop comp q ≡ some r) × Popped comp q.v b k r
  pop-Popped q (inl fresh) =
      subst (λ i. PopsBest (record { v = q.v; best_index = i })) (sym fresh) (pop_fresh-Popped q.v)
  pop-Popped q (inr (k, b, at_k, best)) =
      λ h. (b, k, _, pop_remembered q.v q k refl h at_k, Popped-at q.v b k best)

  -- Under a strict weak order, on a queue that is not empty, whatever index it remembers, `top`
  -- shows a best entry and `pop` after it takes out that very entry and nothing else.
  pub pop-top :
      (q : PriorityQueue A)
      → empty q ≡ false
      → (b : A) × (k : ℕ) × (r : PriorityQueue A) × (top comp q
          ≡ some (b, record q { best_index = pos k }))
        × (pop comp (record q { best_index = pos k }) ≡ some r)
        × Popped comp q.v b k r
  unfolding empty
  pop-top q h =
      let (b, k, t, best) = top-IsBest q h in
      (b, k, _, t, pop_remembered q.v _ k refl h refl, Popped-at q.v b k best)
