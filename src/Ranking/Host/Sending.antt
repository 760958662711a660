-- ===== src/Ranking/Host/Sending.antt =====
-- `send_token` of simulator/ext/rankinghost.cpp, `send_token_pkt` of simulator/ext/rankingflow.cpp, and
-- what they take from simulator/ext/rankingTopology.cpp.
use ruf.Prelude.{
  ℕ, zero, suc, ◌+◌, ◌-◌, ◌*◌, ◌/◌, ◌%◌, ◌^◌, Bool, true, false, not, ◌&&◌, ◌||◌, List, [], ◌∷◌,
  ◌++◌, Option, none, some, ltb, leb, ◌==◌, if◌then◌else◌,
}
use ruf.Prelude.Int.{ℤ, pos, negsuc, pos_part, ◌+ℤ◌, ◌-ℤ◌, ltb_ℤ, leb_ℤ, eqb_ℤ}
use ruf.Prelude.Faults.{◌>>=◌, ◌>>◌, assert}
use ruf.Params.{Params, get_full_pkt_tran_delay}
use ruf.PriorityQueue
use ruf.PriorityQueue.{PriorityQueue}
use ruf.Ranking.Flow.{
  RankingFlow, remaining_pkts, token_gap, relax_token_gap, get_next_token_seq_num,
}
use ruf.Ranking.Comparators.{short_comp, unasked}
use ruf.Ranking.Host.{
  RankingHost, GoSrcInfo, token, in_timeout, push_all, emit, update, reset, get_top_unfinish_flow,
  schedule_token_proc_evt, schedule_wakeup_event,
}
use ruf.Ranking.Host.Listing.{send_list_srcs}

-- RankingTopology::get_control_pkt_rtt, in ticks.
unfoldable pub get_control_pkt_rtt : Params → ℕ → ℕ
get_control_pkt_rtt params host_id =
    if host_id % 16 == 0
    then 4 * params.propagation_delay + 2 * 40 * 8 * 10 ^ 12 / params.bandwidth
    else 8 * params.propagation_delay + 5 * 40 * 8 * 10 ^ 12 / params.bandwidth

abbrev pub is_large : Params → RankingFlow → Bool
is_large params f = ltb params.token_initial f.size_in_pkt

-- `flow_compare(long_flow, short_flow)`: the short flow goes first.
unfoldable pub flow_compare : Params → (ℕ → RankingFlow) → Option ℕ → Option ℕ → Bool
flow_compare params flows none short = true
flow_compare params flows (some long) none = false
flow_compare params flows (some long) (some short) = short_comp flows params long short

-- The ranking round of a token, with the asserts on the grant.
unfoldable pub token_round : Params → GoSrcInfo → RankingFlow → Option ℤ
token_round params g f =
    if is_large params f
    then (do
      src ← g.src
      assert (f.src == src)
      assert (ltb_ℤ (pos 0) g.remain_tokens)
      some g.round)
    else some (negsuc 0)

-- An `int` compared with a `uint32_t` is converted to one.
abbrev pub to_uint32 : ℤ → ℕ
to_uint32 (pos n) = n % 2 ^ 32
to_uint32 (negsuc n) = 2 ^ 32 - 1 - n % 2 ^ 32

-- `token_gap() <= params.token_window`
unfoldable pub is_within : Params → (token_gap : ℤ) → Bool
is_within params token_gap = leb (to_uint32 token_gap) params.token_window

module _ (params : Params) (now : ℕ) where
  -- `send_token_pkt`, of the flow `i` in the state `f`.
  unfoldable pub send_token_pkt : ℕ → RankingFlow → RankingHost → Option (RankingFlow × RankingHost)
  unfolding token_round
  send_token_pkt i f h = do
    data_seq_num ← get_next_token_seq_num f
    round ← token_round params h.gosrc_info f
    some (
      record f {
        last_token_data_seq_num_sent = pos data_seq_num;
        token_count = f.token_count + 1;
        token_packet_sent_count = f.token_packet_sent_count + 1;
        latest_token_sent_time = pos now;
      },
      emit
          (token (record {
            flow = i;
            ttl = params.token_timeout;
            remaining_sz = remaining_pkts f;
            token_seq_num = f.token_count;
            data_seq_num = data_seq_num;
            ranking_round = round;
          }))
          h,
    )

  -- A timeout that has passed is reset, and the flow's goal raised by what is missing.
  unfoldable pub end_timeout : RankingFlow → RankingFlow
  end_timeout f =
      if ltb_ℤ (pos 0) f.redundancy_ctrl_timeout
      then record f {
        redundancy_ctrl_timeout = negsuc 0;
        token_goal = f.token_goal + remaining_pkts f;
      }
      else f

  -- `latest_token_sent_time + token_window_timeout`
  abbrev window_end : RankingFlow → ℤ
  window_end f = f.latest_token_sent_time +ℤ pos params.token_window_timeout

  -- With the window full: relax the gap when its timeout has passed, else wait for that.
  unfoldable pub open_window : RankingFlow → (closet_timeout : ℤ) → Option (RankingFlow × ℤ)
  open_window f closet = do
    gap ← token_gap f
    elim (is_within params gap) [
      | true ↦ some (f, closet)
      | false ↦ elim (leb_ℤ (window_end f) (pos now)) [
        | true ↦ do g ← relax_token_gap params f; some (g, closet)
        | false ↦ some (f, if ltb_ℤ (window_end f) closet then window_end f else closet)
      ]
    ]

  -- After the last packet of a round the flow waits for its data.
  abbrev pub wait_for_data : (next_data_seq next' : ℕ) → RankingFlow → RankingFlow
  wait_for_data next_data_seq next' f =
      if leb next' next_data_seq
      then record f { redundancy_ctrl_timeout = pos (now + params.token_resend_timeout) }
      else f

  -- One token of the grant is used; the last one ends it.
  unfoldable pub use_grant : RankingFlow → GoSrcInfo → Option GoSrcInfo
  use_grant f g =
      if is_large params f
      then (do
        assert (ltb_ℤ (pos 0) g.remain_tokens)
        let left = g.remain_tokens -ℤ pos 1
        some (
            if eqb_ℤ left (pos 0)
            then reset (record g { remain_tokens = left })
            else record g { remain_tokens = left }))
      else some g

  -- The `else` branch of the test on the timeout: whether a token was sent, and `closet_timeout`.
  unfoldable pub try_token : ℕ → RankingHost → ℤ → Option (Bool × ℤ × RankingHost)
  unfolding open_window
  try_token i h closet = do
    (f, closet') ← open_window (end_timeout (h.flows i)) closet
    gap ← token_gap f
    elim (is_within params gap) [
      | false ↦ some (false, closet', update i f h)
      | true ↦ do
        next_data_seq ← get_next_token_seq_num f
        (f', h') ← send_token_pkt i f h
        next' ← get_next_token_seq_num f'
        grant ← use_grant f' h'.gosrc_info
        some (
          true,
          closet',
          record (update i (wait_for_data next_data_seq next' f') h') { gosrc_info = grant },
        )
    ]

  -- Both branches of the test on the timeout.
  unfoldable pub offer : ℕ → RankingHost → ℤ → Option (Bool × ℤ × RankingHost)
  unfolding try_token
  offer i h closet =
      if in_timeout now (h.flows i)
      then some (
        false,
        if ltb_ℤ (h.flows i).redundancy_ctrl_timeout closet
            then (h.flows i).redundancy_ctrl_timeout
            else closet,
        h,
      )
      else try_token i h closet

  -- The tokens that the grant or the flow still has, whichever is less.
  unfoldable pub tokens_left : RankingFlow → GoSrcInfo → Option ℤ
  tokens_left f g = do
    left ← unasked f
    some (if ltb_ℤ left g.remain_tokens then left else g.remain_tokens)

  unfoldable pub is_ending : ℤ → RankingHost → RankingFlow → Bool
  is_ending gap h f =
      (in_timeout now f
        || leb (pos_part gap * get_full_pkt_tran_delay params 1500)
            (get_control_pkt_rtt params h.id + params.ranking_controller_epoch))
      && not h.gosrc_info.send_nrts

  module _ (shuffle : List (ℤ × ℕ) → List (ℤ × ℕ)) where
    -- A large flow whose grant is about to end gives its source back early.
    unfoldable pub give_back : ℕ → RankingHost → Option RankingHost
    unfolding is_ending tokens_left
    give_back i h = if not (is_large params (h.flows i)) then some h else (do
      gap ← tokens_left (h.flows i) h.gosrc_info
      elim (is_ending gap h (h.flows i)) [
        | true ↦ do
          assert (elim h.wakeup_evt [ none ↦ true | some e ↦ false ])
          h' ← send_list_srcs params shuffle now (some (h.flows i).src) h
          schedule_wakeup_event params now h'
        | false ↦ some h
      ])

    -- `active_short_flows.top()`, or NULL.
    unfoldable pub short_top : RankingHost → Option (Option ℕ × RankingHost)
    short_top h = elim (PriorityQueue.empty h.active_short_flows) [
      | true ↦ some (none, h)
      | false ↦ do
        (best, q) ← PriorityQueue.top (short_comp h.flows params) h.active_short_flows
        some (some best, record h { active_short_flows = q })
    ]

    abbrev none_left : Option ℕ → Option ℕ → Bool
    none_left none none = true
    none_left none (some s) = false
    none_left (some l) short = false

    -- The flow to try, and the large flow that is left.
    unfoldable pub choose : Option ℕ → Option ℕ → RankingHost → Option (ℕ × Option ℕ × RankingHost)
    choose large short h = elim (flow_compare params h.flows large short) [
      | true ↦ do
        (f, q) ← PriorityQueue.top (short_comp h.flows params) h.active_short_flows
        q' ← PriorityQueue.pop (short_comp h.flows params) q
        some (f, large, record h { active_short_flows = q' })
      | false ↦ do f ← large; some (f, none, h)
    ]

    -- `flows_tried` takes the short flows.
    abbrev tried_with : RankingFlow → ℕ → List ℕ → List ℕ
    tried_with f i tried = if is_large params f then tried else tried ++ i ∷ []

    -- `while(!token_sent)`, on fuel: whether a token was sent, `closet_timeout`, the short flows that
    -- were tried, and the host.
    unfoldable pub token_loop :
        ℕ
        → (large : Option ℕ) → (tried : List ℕ) → ℤ
        → RankingHost
        → Option (Bool × ℤ × List ℕ × RankingHost)
    unfolding choose give_back offer short_top
    token_loop zero large tried closet h = none
    token_loop (suc n) large tried closet h = do
      (short, h1) ← short_top h
      elim (none_left large short) [
        | true ↦ some (false, closet, tried, h1)
        | false ↦ do
          (i, large', h2) ← choose large short h1
          elim (h2.flows i).finished_at_receiver [
            | true ↦ token_loop n large' tried closet h2
            | false ↦ do
              (sent, closet', h3) ← offer i h2 closet
              h4 ← give_back i h3
              elim sent [
                | true ↦ some (true, closet', tried_with (h2.flows i) i tried, h4)
                | false ↦ token_loop n large' (tried_with (h2.flows i) i tried) closet' h4
              ]
          ]
      ]

    -- 999999 seconds in ticks.
    abbrev never : ℤ
    never = pos (999_999 * 10 ^ 12)

    -- The events after the loop.
    unfoldable pub next_token_evt : Bool → ℤ → RankingHost → Option RankingHost
    next_token_evt true closet h =
        schedule_token_proc_evt now (get_full_pkt_tran_delay params 1500) false h
    next_token_evt false closet h =
        if ltb_ℤ closet never
        then (do
          assert (ltb_ℤ (pos now) closet)
          schedule_token_proc_evt now (pos_part closet - now) true h)
        else some h

    -- The large flow of the granted source.
    unfoldable pub granted_flow : RankingHost → Option (Option ℕ × RankingHost)
    granted_flow h = elim h.gosrc_info.src [
      | none ↦ some (none, h)
      | some src ↦ get_top_unfinish_flow params now src h
    ]

    -- The body of `send_token` from the test on `hold_on` on. Each round takes a short flow or the
    -- large one away, and the last round finds none.
    unfoldable pub run_tokens : RankingHost → Option (Bool × ℤ × List ℕ × RankingHost)
    unfolding token_loop granted_flow
    run_tokens h = elim (ltb 0 h.hold_on) [
      | true ↦ do
        (large, h1) ← granted_flow (record h { hold_on = h.hold_on - 1 })
        some (true, never, [], h1)
      | false ↦ do
        (large, h1) ← granted_flow h
        token_loop (2 + PriorityQueue.size h1.active_short_flows) large [] never h1
    ]

    -- TokenProcessingEvent::process_event, with `send_token`.
    unfoldable pub send_token : RankingHost → Option RankingHost
    unfolding run_tokens next_token_evt
    send_token h = do
      (sent, closet, tried, h1) ← run_tokens (record h { token_send_evt = none })
      next_token_evt sent closet
          (record h1 { active_short_flows = push_all h1.active_short_flows tried })
