-- ===== src/Ranking/Host/Offers.antt =====
-- What `send_token` does for the flow that it tries: no assert fails, and at most one token is sent,
-- under the grant.
use ruf.Prelude.{
  ℕ, ◌+◌, ◌<◌, ◌≡◌, refl, ap, ◌∙◌, inl, inr, true, false, [], ◌∷◌, ◌++◌, some, Bool-cases, arith,
  if◌then◌else◌,
}
use ruf.Prelude.Int.{ℤ, pos, ltb_ℤ}
use ruf.Prelude.Faults.{◌>>=◌}
use ruf.Params.{Params}
use ruf.Ranking.Flow.{RankingFlow, remaining_pkts, gap, get_next_token_seq_num}
use ruf.Ranking.Flow.Received.{IsConsistent}
use ruf.Ranking.Flow.Next.{IsNext, search_start, get_next_token_seq_num-IsNext}
use ruf.Ranking.Host.{RankingHost, RankingToken, token, in_timeout, emit, update}
use ruf.Ranking.Comparators.{InOrder, token_gap-InOrder}
use ruf.Ranking.Host.Sending.{
  is_within, send_token_pkt, end_timeout, open_window, try_token, offer, wait_for_data,
}
use ruf.Ranking.Host.Window.{
  retimed, end_timeout-retimed, open_window-Opened, IsGranted, round_of, grant_after,
  token_round-granted, use_grant-granted,
}

module _ (params : Params) (now : ℕ) where
  module _ (i : ℕ) (h : RankingHost) where
    abbrev packet : RankingFlow → ℕ → RankingToken
    packet g d = record {
      flow = i;
      ttl = params.token_timeout;
      remaining_sz = remaining_pkts g;
      token_seq_num = g.token_count;
      data_seq_num = d;
      ranking_round = round_of params now h.gosrc_info g;
    }

    abbrev after_token : RankingFlow → ℕ → RankingFlow
    after_token g d = record g {
      last_token_data_seq_num_sent = pos d;
      token_count = g.token_count + 1;
      token_packet_sent_count = g.token_packet_sent_count + 1;
      latest_token_sent_time = pos now;
    }

    send_token_pkt-granted :
        (g : RankingFlow) (d : ℕ)
        → get_next_token_seq_num g ≡ some d
        → IsGranted params now h.gosrc_info g
        → send_token_pkt params now i g h ≡ some (after_token g d, emit (token (packet g d)) h)
    unfolding send_token_pkt
    send_token_pkt-granted g d e granted =
        rw (e, ◌>>=◌, token_round-granted params now h.gosrc_info g granted)

    -- The host after a token of the flow, with `g` for the flow.
    abbrev after_send : RankingFlow → ℕ → ℕ → RankingHost
    after_send g d next' =
        record (update i (wait_for_data params now d next' (after_token g d))
          (emit (token (packet g d)) h)) { gosrc_info = grant_after params now h.gosrc_info g }

    -- What a call of `offer` that sends has done: one token, for the packet that the flow asks for
    -- next, with the grant's round; the flow's count and the grant follow.
    pub record Sent (h' : RankingHost) : Type 0 where
      pub t : RankingToken
      pub emitted : h'.sent ≡ h.sent ++ token t ∷ []
      pub of_flow : t.flow ≡ i
      pub numbered : t.token_seq_num ≡ (h.flows i).token_count
      pub next : IsNext (h.flows i) (search_start (h.flows i)) t.data_seq_num
      pub round : t.ranking_round ≡ round_of params now h.gosrc_info (h.flows i)
      pub counted : (h'.flows i).token_count ≡ (h.flows i).token_count + 1
      pub grant : h'.gosrc_info ≡ grant_after params now h.gosrc_info (h.flows i)

    -- A flow in its timeout is left alone; of the others one whose window is full, after it was
    -- opened where that is due, gets no token, and one whose window is not full gets one.
    pub data Offers (closet : ℤ) : Type 0 where
      waits :
          (closet' : ℤ)
          → in_timeout now (h.flows i) ≡ true
          → offer params now i h closet ≡ some (false, closet', h)
          → Offers closet
      full :
          (closet' : ℤ) (g : RankingFlow)
          → in_timeout now (h.flows i) ≡ false
          → open_window params now (end_timeout params now (h.flows i)) closet ≡ some (g, closet')
          → is_within params (gap g) ≡ false
          → g.token_count ≡ (h.flows i).token_count
          → offer params now i h closet ≡ some (false, closet', update i g h)
          → Offers closet
      sends :
          (closet' : ℤ) (g : RankingFlow) (h' : RankingHost)
          → in_timeout now (h.flows i) ≡ false
          → open_window params now (end_timeout params now (h.flows i)) closet ≡ some (g, closet')
          → is_within params (gap g) ≡ true
          → offer params now i h closet ≡ some (true, closet', h')
          → Sent h'
          → Offers closet

    offer_waits :
        (closet : ℤ)
        → in_timeout now (h.flows i) ≡ true
        → offer params now i h closet
          ≡ some (
            false,
            if ltb_ℤ (h.flows i).redundancy_ctrl_timeout closet
                then (h.flows i).redundancy_ctrl_timeout
                else closet,
            h,
          )
    unfolding offer
    offer_waits closet early = rw early

    offer_tries :
        (closet : ℤ)
        → in_timeout now (h.flows i) ≡ false
        → offer params now i h closet ≡ try_token params now i h closet
    unfolding offer
    offer_tries closet late = rw late

    module _ (closet closet' : ℤ) (g : RankingFlow)
        (opens : open_window params now (end_timeout params now (h.flows i)) closet
          ≡ some (g, closet'))
        (in_order : InOrder g) where
      try_full :
          is_within params (gap g) ≡ false
          → try_token params now i h closet ≡ some (false, closet', update i g h)
      unfolding try_token
      try_full shut = rw (opens, ◌>>=◌, token_gap-InOrder g in_order, shut)

      try_sends :
          (d next' : ℕ)
          → is_within params (gap g) ≡ true
          → get_next_token_seq_num g ≡ some d
          → get_next_token_seq_num (after_token g d) ≡ some next'
          → IsGranted params now h.gosrc_info g
          → try_token params now i h closet ≡ some (true, closet', after_send g d next')
      unfolding try_token emit
      try_sends d next' free e e' granted = rw (
        opens,
        ◌>>=◌,
        token_gap-InOrder g in_order,
        free,
        e,
        send_token_pkt-granted g d e granted,
        e',
        use_grant-granted params now h.gosrc_info (after_token g d) granted,
      )

    retimed-IsConsistent :
        (timeout largest : ℤ) (n : ℕ)
        → IsConsistent (h.flows i)
        → IsConsistent (retimed (h.flows i) timeout n largest)
    retimed-IsConsistent timeout largest n c = record {
      whole = c.whole;
      counted = c.counted;
      until = c.until;
    }

    waited-counts :
        (g : RankingFlow) (d next' : ℕ)
        → ((after_send g d next').flows i).token_count ≡ g.token_count + 1
    unfolding update
    waited-counts g d next' = ground arith

    -- For a flow whose counts are right and that has packets to come, whose largest token number
    -- received is at most its token count, and which the grant covers if it is large, the attempt
    -- returns with no assert failed. Nothing changes while the flow is in its timeout. Otherwise its
    -- timeout ends and its window is opened again where the wait for tokens is over: if the token
    -- gap that it then has is above the token window, as unsigned 32-bit numbers, no token is sent;
    -- if it is not, exactly one is, for the packet that the flow asks for next, with the grant's
    -- round, and the grant of a large flow has one token less.
    pub offer-Offers :
        (closet : ℤ)
        → IsConsistent (h.flows i)
        → (h.flows i).received_count < (h.flows i).goal
        → InOrder (h.flows i)
        → IsGranted params now h.gosrc_info (h.flows i)
        → Offers closet
    unfolding emit update
    offer-Offers closet c more in_order granted =
        let f = h.flows i in
        let (t, n, ended) = end_timeout-retimed params now f in
        let o =
          open_window-Opened params now (retimed f t n f.largest_token_seq_received) closet
            in_order in
        let g = retimed f t n o.largest in
        let opens = ap (λ r. open_window params now r closet) ended ∙ o.runs in
        let c' = retimed-IsConsistent t o.largest n c in
        let (d, e, next) = get_next_token_seq_num-IsNext g c' more in
        let sent_c : IsConsistent (after_token g d) = record {
          whole = c'.whole;
          counted = c'.counted;
          until = c'.until;
        } in
        let (d', e', next') = get_next_token_seq_num-IsNext (after_token g d) sent_c more in
        elim (Bool-cases (in_timeout now f)) [
          | inl early ↦ waits _ early (offer_waits closet early)
          | inr late ↦ elim (Bool-cases (is_within params (gap g))) [
            | inr shut ↦
                full o.closet' g late opens shut refl
                  (offer_tries closet late ∙ try_full closet o.closet' g opens o.in_order shut)
            | inl free ↦
                sends o.closet' g (after_send g d d') late opens free
                  (offer_tries closet late
                    ∙ try_sends closet o.closet' g opens o.in_order d d' free e e' granted)
                  (record {
                    t = packet g d;
                    emitted = refl;
                    of_flow = refl;
                    numbered = refl;
                    next = record {
                      inside = next.inside;
                      wanted = next.wanted;
                      chosen = next.chosen;
                    };
                    round = refl;
                    counted = waited-counts g d d';
                    grant = refl;
                  })
          ]
        ]
