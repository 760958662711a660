-- ===== src/Ranking/Host/Receiving.antt =====
-- The handlers of a receiver: `receive_rts`, `flow_finish_at_receiver` and `receive_gosrc` of
-- simulator/ext/rankinghost.cpp, `receive_short_flow` and the data packets of `receive` of
-- simulator/ext/rankingflow.cpp.
use ruf.Prelude.{
  ℕ, ◌+◌, ◌*◌, Bool, true, false, not, ◌&&◌, List, Option, none, some, ltb, leb, ◌==◌,
  if◌then◌else◌,
}
use ruf.Prelude.Int.{ℤ, pos, negsuc, ◌+ℤ◌, ◌-ℤ◌, ltb_ℤ, leb_ℤ, eqb_ℤ}
use ruf.Prelude.Faults.{◌>>=◌, ◌>>◌, assert}
use ruf.Params.{Params, get_full_pkt_tran_delay}
use ruf.PriorityQueue
use ruf.PriorityQueue.{PriorityQueue}
use ruf.Ranking.Flow.{RankingFlow, DataPacket, init_token_size, token_gap, receive_data}
use ruf.PriorityQueue.Checked.{checked_top}
use ruf.Ranking.Comparators.{receiver_comp}
use ruf.Ranking.Arbiter.{GoSrc}
use ruf.Ranking.Host.{
  RankingHost, update, push_flow, find, put, emit, ack, reset, restart_tokens,
  get_top_unfinish_flow, schedule_wakeup_event,
}
use ruf.Ranking.Host.Listing.{send_list_srcs}

abbrev is_flow : ℕ → Option ℕ → Bool
is_flow i none = false
is_flow i (some j) = j == i

module _ (params : Params) (now : ℕ) where
  -- `BDP` is in packets.
  unfoldable pub start_short : RankingFlow → RankingFlow
  start_short f =
      let n = init_token_size params f in
      record f {
        rts_received = true;
        token_count = n;
        last_token_data_seq_num_sent = pos n -ℤ pos 1;
        redundancy_ctrl_timeout =
            if n == f.token_goal
            then pos (
                now
                + n * get_full_pkt_tran_delay params 1500
                + params.bdp * get_full_pkt_tran_delay params 1500)
            else f.redundancy_ctrl_timeout;
      }

  -- `receive_short_flow` of the flow `i`.
  unfoldable pub receive_short_flow : ℕ → RankingHost → Option RankingHost
  unfolding start_short
  receive_short_flow i h = do
    let n = init_token_size params (h.flows i)
    assert (not (n == 0))
    let started = update i (start_short (h.flows i)) h
    restart_tokens now (record started {
      hold_on = n;
      active_short_flows = PriorityQueue.push h.active_short_flows i;
    })

  module _ (shuffle : List (ℤ × ℕ) → List (ℤ × ℕ)) where
    -- A new flow of the granted source that is its best one: the token process runs again. With no
    -- grant the host asks for one.
    unfoldable pub join_grant : ℕ → ℕ → RankingHost → Option RankingHost
    join_grant i src h = do
      q ← find src h.src_to_flows
      (best, q') ← checked_top (receiver_comp h.flows params) q
      let h' = record h { src_to_flows = put src q' h.src_to_flows }
      if (h.flows best).id == (h.flows i).id then restart_tokens now h' else some h'

    unfoldable pub ask_for_grant : RankingHost → Option RankingHost
    ask_for_grant h = do
      h' ← send_list_srcs params shuffle now none h
      schedule_wakeup_event params now (record h' { wakeup_evt = none })

    -- `receive_rts`, with the packet's `size_in_pkt`.
    unfoldable pub receive_rts : (i size_in_pkt : ℕ) → RankingHost → Option RankingHost
    unfolding join_grant ask_for_grant
    receive_rts i size_in_pkt h =
        let f = h.flows i in
        let marked = update i (record f { rts_received = true }) h in
        if ltb params.token_initial size_in_pkt
        then (let pushed = record marked { src_to_flows = push_flow f.src i h.src_to_flows } in
            elim h.gosrc_info.src [
              | none ↦ ask_for_grant pushed
              | some s ↦ if s == f.src then join_grant i f.src pushed else some pushed
            ])
        else receive_short_flow i marked

    -- The granted source has no flow left: it is given back, unless that was done.
    unfoldable pub end_grant : ℕ → RankingHost → Option RankingHost
    end_grant src h = do
      (best, h1) ← get_top_unfinish_flow params now src h
      elim best [
        | some b ↦ some h1
        | none ↦ do
          h2 ← elim h1.gosrc_info.send_nrts [
            | true ↦ some h1
            | false ↦ do
              assert (elim h1.wakeup_evt [ none ↦ true | some e ↦ false ])
              h' ← send_list_srcs params shuffle now (some src) h1
              schedule_wakeup_event params now h'
          ]
          some (record h2 { gosrc_info = reset h2.gosrc_info })
      ]

    unfoldable pub flow_finish_at_receiver : ℕ → DataPacket → RankingHost → Option RankingHost
    unfolding end_grant
    flow_finish_at_receiver i p h =
        let f = h.flows i in
        let ended = update i (record f { finished_at_receiver = true }) h in
        if f.finished_at_receiver
        then some h
        else (if leb f.size_in_pkt params.token_initial
            then some ended
            else (if eqb_ℤ h.gosrc_info.round p.ranking_round
                then some (record ended { gosrc_info = reset h.gosrc_info })
                else (if is_flow f.src h.gosrc_info.src
                    then end_grant f.src ended
                    else some ended)))

    -- `receive_gosrc`
    unfoldable pub receive_gosrc : GoSrc → RankingHost → Option RankingHost
    receive_gosrc pkt h = do
      (best, h1) ← get_top_unfinish_flow params now pkt.src_id h
      elim best [
        | none ↦ do
          h2 ← send_list_srcs params shuffle now (some pkt.src_id) h1
          h3 ← schedule_wakeup_event params now (record h2 { wakeup_evt = none })
          some (record h3 { gosrc_info = reset h3.gosrc_info })
        | some b ↦ do
          q ← find pkt.src_id h1.src_to_flows
          (t, q') ← checked_top (receiver_comp h.flows params) q
          restart_tokens now (record h1 {
            idle_count = 0;
            gosrc_info = record {
              max_tokens = pos pkt.max_tokens;
              remain_tokens = pos pkt.max_tokens;
              round = h1.gosrc_info.round +ℤ pos 1;
              src = some (h1.flows t).src;
              send_nrts = false;
            };
            wakeup_evt = none;
            src_to_flows = put pkt.src_id q' h1.src_to_flows;
          })
      ]

    -- `receive` of a data packet for the flow `i`: the first packet of a short flow whose RTS is late
    -- starts it, then the flow's counts, then its end or the next token.
    abbrev first_byte : RankingFlow → RankingFlow
    first_byte f = record f {
      first_byte_receive_time =
          if eqb_ℤ f.first_byte_receive_time (negsuc 0) then pos now else f.first_byte_receive_time;
    }

    unfoldable pub resume : ℕ → RankingHost → Option RankingHost
    resume i h = do
      gap ← token_gap (h.flows i)
      elim (leb_ℤ gap (pos params.token_window)) [
        | false ↦ some h
        | true ↦ do
          (best, h1) ← get_top_unfinish_flow params now (h.flows i).src h
          if is_flow (h.flows i).src h1.gosrc_info.src
                && ltb_ℤ (pos 0) h1.gosrc_info.remain_tokens
                && is_flow i best
              then restart_tokens now h1
              else some h1
      ]

    unfoldable pub receive_data_packet : ℕ → DataPacket → RankingHost → Option RankingHost
    unfolding resume flow_finish_at_receiver
    receive_data_packet i p h = if (h.flows i).finished then some h else (do
      h1 ← start (update i (first_byte (h.flows i)) h)
      let h2 = update i (receive_data params (h1.flows i) p) h1
      elim (leb (h2.flows i).goal (h2.flows i).received_count) [
        | true ↦ flow_finish_at_receiver i p (emit (ack i p.ranking_round) h2)
        | false ↦ resume i h2
      ])
      where
        start : RankingHost → Option RankingHost
        start g = if (g.flows i).rts_received then some g else receive_short_flow i g
