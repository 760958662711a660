-- ===== src/Ranking/Host/Window.antt =====
-- The parts of `send_token` that come before and after a token of a flow: its timeout, its window and
-- the grant, with the asserts that they make.
use ruf.Prelude.{ℕ, ◌+◌, ◌≡◌, ◌⊎◌, inl, inr, true, false, some, Bool-cases, arith, if◌then◌else◌}
use ruf.Prelude.Int.{ℤ, pos, negsuc, ◌+ℤ◌, ◌-ℤ◌, ltb_ℤ, leb_ℤ, eqb_ℤ, -ℤ_parts}
use ruf.Prelude.Faults.{◌>>=◌}
use ruf.Params.{Params}
use ruf.Ranking.Flow.{RankingFlow, remaining_pkts, gap, relax_token_gap}
use ruf.Ranking.Host.{GoSrcInfo, reset}
use ruf.Ranking.Comparators.{InOrder, token_gap-InOrder}
use ruf.Ranking.Host.Sending.{is_within, is_large, token_round, end_timeout, open_window, use_grant}

-- The flow with other values in the fields that `send_token` writes before it sends.
abbrev pub retimed : RankingFlow → ℤ → ℕ → ℤ → RankingFlow
retimed f timeout goal largest = record f {
  redundancy_ctrl_timeout = timeout;
  token_goal = goal;
  largest_token_seq_received = largest;
}

module _ (params : Params) (now : ℕ) where
  relaxed-InOrder :
      (f : RankingFlow)
      → InOrder
          (record f { largest_token_seq_received = pos f.token_count -ℤ pos params.token_window })
  relaxed-InOrder f = ground (
    arith,
    -ℤ_parts (pos f.token_count) (pos f.token_count -ℤ pos params.token_window),
    -ℤ_parts (pos f.token_count) (pos params.token_window),
  )

  pub end_timeout-retimed :
      (f : RankingFlow)
      → (t : ℤ) × (n : ℕ) × (end_timeout params now f ≡ retimed f t n f.largest_token_seq_received)
  unfolding end_timeout
  end_timeout-retimed f = elim (Bool-cases (ltb_ℤ (pos 0) f.redundancy_ctrl_timeout)) [
    | inl past ↦ (negsuc 0, f.token_goal + remaining_pkts f, rw past)
    | inr never_set ↦ (f.redundancy_ctrl_timeout, f.token_goal, rw never_set)
  ]

  -- The window is opened, or is found open or shut.
  pub record Opened (f : RankingFlow) (closet : ℤ) : Type 0 where
    pub largest : ℤ
    pub closet' : ℤ
    pub runs :
        open_window params now f closet
        ≡ some (record f { largest_token_seq_received = largest }, closet')
    pub in_order : InOrder (record f { largest_token_seq_received = largest })

  pub open_window-Opened : (f : RankingFlow) (closet : ℤ) → InOrder f → Opened f closet
  unfolding open_window relax_token_gap
  open_window-Opened f closet h = elim (Bool-cases (is_within params (gap f))) [
    | inl free ↦ record {
      largest = f.largest_token_seq_received;
      closet' = closet;
      runs = rw (token_gap-InOrder f h, ◌>>=◌, free);
      in_order = h;
    }
    | inr full ↦
        elim (Bool-cases
          (leb_ℤ (f.latest_token_sent_time +ℤ pos params.token_window_timeout) (pos now))) [
            | inl late ↦ record {
              largest = pos f.token_count -ℤ pos params.token_window;
              closet' = closet;
              runs = rw (token_gap-InOrder f h, ◌>>=◌, full, late, h);
              in_order = relaxed-InOrder f;
            }
            | inr early ↦ record {
              largest = f.largest_token_seq_received;
              closet' =
                  let end = f.latest_token_sent_time +ℤ pos params.token_window_timeout in
                  if ltb_ℤ end closet then end else closet;
              runs = rw (token_gap-InOrder f h, ◌>>=◌, full, early);
              in_order = h;
            }
          ]
  ]

  -- What `send_token_pkt` asserts of the grant: it is for the flow's source and has tokens.
  abbrev pub IsGranted : GoSrcInfo → RankingFlow → Type 0
  IsGranted g f =
      (is_large params f ≡ false) ⊎ ((g.src ≡ some f.src) × (ltb_ℤ (pos 0) g.remain_tokens ≡ true))

  abbrev pub round_of : GoSrcInfo → RankingFlow → ℤ
  round_of g f = if is_large params f then g.round else negsuc 0

  -- The grant with one token less, and none after the last one.
  abbrev pub less_grant : GoSrcInfo → GoSrcInfo
  less_grant g =
      let left = g.remain_tokens -ℤ pos 1 in
      if eqb_ℤ left (pos 0)
      then reset (record g { remain_tokens = left })
      else record g { remain_tokens = left }

  abbrev pub grant_after : GoSrcInfo → RankingFlow → GoSrcInfo
  grant_after g f = if is_large params f then less_grant g else g

  pub token_round-granted :
      (g : GoSrcInfo) (f : RankingFlow)
      → IsGranted g f
      → token_round params g f ≡ some (round_of g f)
  unfolding token_round
  token_round-granted g f (inl small) = rw small
  token_round-granted g f (inr (src, left)) = elim (Bool-cases (is_large params f)) [
    | inl large ↦ rw (large, src, left) (ground arith)
    | inr small ↦ rw small
  ]

  pub use_grant-granted :
      (g : GoSrcInfo) (f : RankingFlow)
      → IsGranted g f
      → use_grant params now f g ≡ some (grant_after g f)
  unfolding use_grant
  use_grant-granted g f (inl small) = rw small
  use_grant-granted g f (inr (src, left)) = elim (Bool-cases (is_large params f)) [
    | inl large ↦ rw (large, left)
    | inr small ↦ rw small
  ]
