-- ===== src/Ranking/Sender/Agrees.antt =====
-- The flows during the loop of `RankingHost::send`: a flow without a good token may have lost the
-- expired ones.
use ruf.Prelude.{
  ℕ, ◌≡◌, refl, sym, ap, ◌∙◌, subst, ◌⊎◌, inl, inr, true, false, [], Bool-cases, arith, ◌==◌,
}
use ruf.Params.{Params}
use ruf.Ranking.Flow.{RankingFlow, drop_expired, has_token}
use ruf.Ranking.Flow.Tokens.{has_token-emptied}
use ruf.Ranking.Comparators.{sending_comp}
use ruf.Ranking.Sender.{write}

abbrev no_tokens : RankingFlow → RankingFlow
no_tokens f = record f { tokens = [] }

module _ (params : Params) (now : ℕ) (flows : ℕ → RankingFlow) where
  abbrev pub Finished : ℕ → Type 0
  Finished g = (flows g).finished ≡ true

  -- All tokens of the flow have expired.
  abbrev pub Idle : ℕ → Type 0
  Idle g = (has_token now (flows g)).0 ≡ false

  -- A store in which flows without a good token may have lost the expired ones.
  abbrev pub Agrees : (ℕ → RankingFlow) → Type 0
  Agrees store =
      (g : ℕ) → (store g ≡ flows g) ⊎ (Idle g × (store g ≡ record (flows g) { tokens = [] }))

  Agrees-refl : Agrees flows
  Agrees-refl g = inl refl

  idle_again : (f : RankingFlow) → (has_token now (record f { tokens = [] })).0 ≡ false
  unfolding has_token drop_expired
  idle_again f = refl

  module _ (store : ℕ → RankingFlow) (agrees : Agrees store) where
    pub same_finished : (g : ℕ) → (store g).finished ≡ (flows g).finished
    same_finished g = elim (agrees g) [
      | inl e ↦ ap (λ f. f.finished) e
      | inr (i, e) ↦ ap (λ f. f.finished) e
    ]

    same_remaining :
        (g : ℕ) → (store g).remaining_pkts_at_sender ≡ (flows g).remaining_pkts_at_sender
    same_remaining g = elim (agrees g) [
      | inl e ↦ ap (λ f. f.remaining_pkts_at_sender) e
      | inr (i, e) ↦ ap (λ f. f.remaining_pkts_at_sender) e
    ]

    pub same_size : (g : ℕ) → (store g).size_in_pkt ≡ (flows g).size_in_pkt
    same_size g = elim (agrees g) [
      | inl e ↦ ap (λ f. f.size_in_pkt) e
      | inr (i, e) ↦ ap (λ f. f.size_in_pkt) e
    ]

    same_start : (g : ℕ) → (store g).start_time ≡ (flows g).start_time
    same_start g = elim (agrees g) [
      | inl e ↦ ap (λ f. f.start_time) e
      | inr (i, e) ↦ ap (λ f. f.start_time) e
    ]

    pub same_idle : (g : ℕ) → (has_token now (store g)).0 ≡ (has_token now (flows g)).0
    same_idle g = elim (agrees g) [
      | inl e ↦ ap (λ f. (has_token now f).0) e
      | inr (i, e) ↦ ap (λ f. (has_token now f).0) e ∙ idle_again (flows g) ∙ sym i
    ]

    pub same_ready : (g : ℕ) → (has_token now (store g)).0 ≡ true → store g ≡ flows g
    same_ready g ready = elim (agrees g) [
      | inl e ↦ e
      | inr (i, e) ↦ let back = same_idle g in absurd (cc)
    ]

    pub same_comp : (a b : ℕ) → sending_comp store a b ≡ sending_comp flows a b
    unfolding sending_comp
    same_comp a b = rw (same_remaining a, same_remaining b, same_start a, same_start b)

    dropped :
        (b : ℕ)
        → (has_token now (store b)).0 ≡ false
        → (has_token now (store b)).1 ≡ record (flows b) { tokens = [] }
    dropped b i =
        has_token-emptied now (store b) i
        ∙ elim (agrees b) [ inl same ↦ ap no_tokens same | inr (idles, same) ↦ ap no_tokens same ]

    pub Agrees-drop :
        (b : ℕ)
        → (has_token now (store b)).0 ≡ false
        → Agrees (write b (has_token now (store b)).1 store)
    Agrees-drop b i g = elim (Bool-cases (b == g)) [
      | inl s ↦
          let e : b ≡ g = ground arith in
          rw s (
            inr
              (subst Idle e (sym (same_idle b) ∙ i), dropped b i ∙ ap (λ j. no_tokens (flows j)) e))
      | inr s ↦ rw s (agrees g)
    ]
