-- ===== src/Ranking/Host/Listing.antt =====
-- `send_listSrcs` and `wakeup` of simulator/ext/rankinghost.cpp. `std::random_shuffle` is a parameter;
-- `std::sort` is insertion sort, which gives each sorted order for some shuffle.
use ruf.Prelude.{
  ℕ, zero, suc, ◌+◌, Bool, true, false, List, [], ◌∷◌, ◌++◌, Option, none, some, ◌==◌, map,
  if◌then◌else◌,
}
use ruf.Prelude.Int.{ℤ, pos, ◌-ℤ◌, ltb_ℤ}
use ruf.Prelude.Faults.{◌>>=◌}
use ruf.Params.{Params}
use ruf.PriorityQueue
use ruf.PriorityQueue.{PriorityQueue}
use ruf.Ranking.Flow.{RankingFlow}
use ruf.PriorityQueue.Checked.{checked_top, checked_pop}
use ruf.Ranking.Comparators.{receiver_comp, unasked}
use ruf.Ranking.Host.{
  RankingHost, GoSrcInfo, list_srcs, in_timeout, push_all, emit, schedule_wakeup_event,
}

module _ (params : Params) (flows : ℕ → RankingFlow) (now : ℕ) where
  -- The tokens that remain after the best flow.
  abbrev covered : ℤ → RankingFlow → Option ℤ
  covered remain f =
      if ltb_ℤ (pos 0) remain then (do left ← unasked f; some (remain -ℤ left)) else some remain

  -- The `while` over one source's queue, on fuel. `is_nrts` says that the source is the one given
  -- back; its flows that the remaining tokens cover are passed over.
  unfoldable pub listing_loop :
      ℕ
      → (is_nrts : Bool) → PriorityQueue ℕ
      → List ℕ
      → (remain_tokens : ℤ) → Option (Option ℕ × PriorityQueue ℕ × List ℕ)
  listing_loop zero is_nrts q tried remain = none
  listing_loop (suc n) is_nrts q tried remain = elim (PriorityQueue.empty q) [
    | true ↦ some (none, q, tried)
    | false ↦ do
      (best, q') ← checked_top (receiver_comp flows params) q
      q'' ← checked_pop (receiver_comp flows params) q'
      elim (flows best).finished_at_receiver [
        | true ↦ listing_loop n is_nrts q'' tried remain
        | false ↦ elim (in_timeout now (flows best)) [
          | true ↦ listing_loop n is_nrts q'' (tried ++ best ∷ []) remain
          | false ↦ elim is_nrts [
            | false ↦ some (some best, q', tried)
            | true ↦ do
              remain' ← covered remain (flows best)
              elim (ltb_ℤ remain' (pos 0)) [
                | true ↦ some (some best, q', tried)
                | false ↦ listing_loop n true q'' (tried ++ best ∷ []) remain'
              ]
          ]
        ]
      ]
  ]

  abbrev pub is_source : Option ℕ → ℕ → Bool
  is_source none i = false
  is_source (some src) i = i == src

  -- A queue that is left empty goes; a source with a best flow is listed.
  abbrev pub keep : ℕ → PriorityQueue ℕ → List (ℕ × PriorityQueue ℕ) → List (ℕ × PriorityQueue ℕ)
  keep i q rest = if PriorityQueue.empty q then rest else (i, q) ∷ rest

  -- The entry for a source with a best flow.
  abbrev pub entry : ℕ → Option ℕ → Option (List (ℤ × ℕ))
  entry i none = some []
  entry i (some best) = do left ← unasked (flows best); some ((left, i) ∷ [])

  -- The `for` over `src_to_flows`: `vect1`, and the map after it.
  unfoldable pub collect :
      (nrts_src_id : Option ℕ) (remain_tokens : ℤ)
      → List (ℕ × PriorityQueue ℕ)
      → Option (List (ℤ × ℕ) × List (ℕ × PriorityQueue ℕ))
  unfolding listing_loop
  collect nrts remain [] = some ([], [])
  collect nrts remain ((i, q) ∷ rest) = do
    (best, q', tried) ← listing_loop (suc (PriorityQueue.size q)) (is_source nrts i) q [] remain
    mine ← entry i best
    (vect, queues) ← collect nrts remain rest
    some (mine ++ vect, keep i (push_all q' tried) queues)

-- ListSrcComparator
unfoldable pub list_src_comp : ℤ × ℕ → ℤ × ℕ → Bool
list_src_comp left right = ltb_ℤ left.0 right.0

unfoldable pub insert : ℤ × ℕ → List (ℤ × ℕ) → List (ℤ × ℕ)
insert x [] = x ∷ []
insert x (y ∷ ys) = if list_src_comp y x then y ∷ insert x ys else x ∷ y ∷ ys

unfoldable pub sort : List (ℤ × ℕ) → List (ℤ × ℕ)
sort [] = []
sort (x ∷ xs) = insert x (sort xs)

-- The test `srcs.empty() && nrts_src_id == -1`, then the packet.
unfoldable pub emit_list : Option ℕ → List ℕ → RankingHost → RankingHost
emit_list none [] h = h
emit_list none (s ∷ ss) h =
    emit
      (list_srcs (record {
        rts_dst = h.id;
        list_srcs = s ∷ ss;
        has_nrts = false;
        nrts_src_id = 0;
        nrts_dst_id = 0;
      }))
      h
emit_list (some src) srcs h =
    emit
      (list_srcs (record {
        rts_dst = h.id;
        list_srcs = srcs;
        has_nrts = true;
        nrts_src_id = src;
        nrts_dst_id = h.id;
      }))
      (record h { gosrc_info = record h.gosrc_info { send_nrts = true } })

abbrev pub held : Option ℕ → GoSrcInfo → ℤ
held (some src) g = elim g.src [
  | none ↦ pos 0
  | some s ↦ if s == src then g.remain_tokens else pos 0
]
held none g = pos 0

module _ (params : Params) (shuffle : List (ℤ × ℕ) → List (ℤ × ℕ)) (now : ℕ) where
  -- `none` is the default argument -1.
  unfoldable pub send_list_srcs : Option ℕ → RankingHost → Option RankingHost
  unfolding collect sort emit_list
  send_list_srcs nrts h = do
    (vect, queues) ← collect params h.flows now nrts (held nrts h.gosrc_info) h.src_to_flows
    some
        (emit_list nrts (map (λ x. x.1) (sort (shuffle vect))) (record h { src_to_flows = queues }))

  abbrev wake_again : List (ℕ × PriorityQueue ℕ) → RankingHost → Option RankingHost
  wake_again [] h = some h
  wake_again (x ∷ xs) h = schedule_wakeup_event params now h

  -- RankingHostWakeupProcessingEvent::process_event, with `wakeup`.
  unfoldable pub wakeup : RankingHost → Option RankingHost
  unfolding send_list_srcs
  wakeup h = do
    h' ← send_list_srcs none (record h { wakeup_evt = none; idle_count = h.idle_count + 1 })
    wake_again h'.src_to_flows h'
