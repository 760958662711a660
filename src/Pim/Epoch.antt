-- ===== src/Pim/Epoch.antt =====
-- PimEpoch of simulator/ext/pimhost.cpp: the rounds of requests, grants and accepts by which the hosts are
-- matched in an epoch, and the events that drive them.
-- An operation takes its epoch and its host, and gives them back with the packets that the host
-- puts into its queue. The `k`-th call of `rand()` is `rand k`.
use ruf.Prelude.{
  ℕ, zero, suc, ◌+◌, ◌/◌, ◌%◌, Bool, true, false, not, ◌&&◌, List, [], ◌∷◌, ◌++◌, Option, none,
  some, length, erase_idx, get_elem?, ltb, leb, ◌==◌, if◌then◌else◌,
}
use ruf.Prelude.Faults.{◌>>=◌, ◌>>◌, assert}
use ruf.PriorityQueue
use ruf.PriorityQueue.{PriorityQueue}
use ruf.Params.{Params}
use ruf.Pim.{PimParams, PimFlow}
use ruf.Pim.Host.{
  PimRts, PimGrants, PimEpoch, PimHost, NewEpochEvent, Message, rts, grants, accept, grantsr,
  restart, pim_comp,
}

abbrev pub is_none : Option ℕ → Bool
is_none none = true
is_none (some x) = false

-- `match_receiver == x`
abbrev pub is_host : Option ℕ → ℕ → Bool
is_host none x = false
is_host (some y) x = y == x

-- Sender side.

unfoldable pub receive_grants : (flow iter epoch : ℕ) → (prompt : Bool) → PimEpoch → Option PimEpoch
receive_grants flow iter epoch prompt e = do
  assert (epoch == e.epoch)
  if ltb iter e.iter then some e else (do
    assert (e.iter == iter)
    some (record e {
      grants_q = e.grants_q ++ record { prompt = prompt; iter = iter; f = flow } ∷ [];
    }))

unfoldable pub advance_iter : PimEpoch → PimEpoch
advance_iter e = record e { iter = e.iter + 1; rts_q = []; grants_q = [] }

-- The flow of the packet goes to the host `dst`.
unfoldable pub receive_grantsr :
    (dst epoch : ℕ) → PimEpoch → PimHost → Option (PimEpoch × PimHost × List Message)
receive_grantsr dst epoch e h = do
  assert (epoch == e.epoch)
  assert (is_host e.match_receiver dst)
  some (record e { match_receiver = none }, record h { receiver = none }, [])

-- The flow of the packet comes from the host `src`.
unfoldable pub receive_accept_pkt :
    (flow src : ℕ)
    → (accepted : Bool) → (epoch : ℕ) → PimEpoch
    → PimHost
    → Option (PimEpoch × PimHost × List Message)
receive_accept_pkt flow src false epoch e h = do assert (epoch == e.epoch); some (e, h, [])
receive_accept_pkt flow src true epoch e h = do
  assert (epoch == e.epoch)
  some (
      if is_none e.match_sender
      then (record e { match_sender = some src }, record h { sender = some src }, [])
      else (e, h, grantsr flow e.iter e.epoch ∷ []))

unfoldable pub receive_rts : (flow iter epoch : ℕ) → PimEpoch → Option PimEpoch
receive_rts flow iter epoch e = if ltb iter e.iter then some e else (do
  assert (epoch == e.epoch)
  assert (iter == e.iter)
  some (record e { rts_q = e.rts_q ++ record { iter = iter; f = flow } ∷ [] }))

-- What a queue adds to the map that is kept and to the packets.
abbrev pub add_request :
    (iter epoch : ℕ)
    → Option ℕ
    → ℕ
    → PriorityQueue ℕ
    → List (ℕ × PriorityQueue ℕ)
    → List Message
    → List (ℕ × PriorityQueue ℕ) × List Message
add_request iter epoch none dst q kept sent = (kept, sent)
add_request iter epoch (some f) dst q kept sent = ((dst, q) ∷ kept, rts f iter epoch ∷ sent)

module _ (flows : ℕ → PimFlow) where
  -- The loop over one queue of `dst_to_flows`, on fuel: what is left of it, and the flow that asks.
  unfoldable pub ask_loop : (fuel : ℕ) → PriorityQueue ℕ → Option (Option ℕ × PriorityQueue ℕ)
  ask_loop zero q = none
  ask_loop (suc n) q = elim (PriorityQueue.empty q) [
    | true ↦ some (none, q)
    | false ↦ do
      (best, q') ← PriorityQueue.top (pim_comp flows) q
      elim (flows best).finished [
        | true ↦ do q'' ← PriorityQueue.pop (pim_comp flows) q'; ask_loop n q''
        | false ↦ some (some best, q')
      ]
  ]

  -- The loop over the map. A queue that has become empty is erased.
  unfoldable pub ask_all :
      (iter epoch : ℕ)
      → List (ℕ × PriorityQueue ℕ)
      → Option (List (ℕ × PriorityQueue ℕ) × List Message)
  unfolding ask_loop
  ask_all iter epoch [] = some ([], [])
  ask_all iter epoch ((dst, q) ∷ rest) = do
    (best, q') ← ask_loop (suc (PriorityQueue.size q)) q
    (kept, sent) ← ask_all iter epoch rest
    some (add_request iter epoch best dst q' kept sent)

  unfoldable pub send_all_rts : PimEpoch → PimHost → Option (PimHost × List Message)
  unfolding ask_all
  send_all_rts e h = if not (is_none e.match_receiver) then some (h, []) else (do
    (kept, sent) ← ask_all e.iter e.epoch h.dst_to_flows
    some (record h { dst_to_flows = kept }, sent))

-- The loop that both sides have on their queue: entries are drawn, and those of another iteration
-- erased, until one of this iteration is drawn. The result is its index and the queue.
module _ {A : Type 0} (iter_of : A → ℕ) (rand : ℕ → ℕ) (iter : ℕ) where
  unfoldable pub draw_loop : (fuel k : ℕ) → List A → Option (ℕ × List A)
  draw_loop zero k q = none
  draw_loop (suc n) k [] = some (0, [])
  draw_loop (suc n) k (x ∷ xs) = do
    let index = rand k % length (x ∷ xs)
    entry ← get_elem? (x ∷ xs) index
    elim (iter_of entry == iter) [
      | true ↦ some (index, x ∷ xs)
      | false ↦ do assert (ltb (iter_of entry) iter); draw_loop n (k + 1) (erase_idx (x ∷ xs) index)
    ]

-- The loop over `rts_q` from `i` on.
unfoldable pub grant_loop : (index : ℕ) → PimEpoch → (i : ℕ) → List PimRts → List Message
grant_loop index e i [] = []
grant_loop index e i (r ∷ rs) =
    if (i == index) && is_none e.match_sender
    then grants r.f e.iter e.epoch false ∷ grant_loop index e (i + 1) rs
    else grant_loop index e (i + 1) rs

unfoldable pub handle_all_rts : (ℕ → ℕ) → PimEpoch → Option (PimEpoch × List Message)
unfolding grant_loop
handle_all_rts rand e = if not (is_none e.match_sender) then some (e, []) else (do
  (index, q) ← draw_loop (λ r. r.iter) rand e.iter (suc (length e.rts_q)) 0 e.rts_q
  some (record e { rts_q = q }, grant_loop index e 0 q))

module _ (flows : ℕ → PimFlow) (now : ℕ) where
  -- The loop over `grants_q` from `i` on.
  unfoldable pub accept_loop :
      (index i : ℕ)
      → List PimGrants
      → PimEpoch
      → PimHost
      → Option (PimEpoch × PimHost × List Message)
  accept_loop index i [] e h = some (e, h, [])
  accept_loop index i (g ∷ gs) e h = elim ((i == index) && is_none e.match_receiver) [
    | false ↦ accept_loop index (i + 1) gs e h
    | true ↦ do
      let dst = (flows g.f).dst
      woken ← restart now (record h { receiver = some dst })
      (e', h', sent) ← accept_loop index (i + 1) gs (record e { match_receiver = some dst }) woken
      some (e', h', accept g.f true e.iter e.epoch ∷ sent)
  ]

  -- An empty `grants_q` and the end of a loop that empties it come to the same.
  unfoldable pub handle_all_grants :
      (ℕ → ℕ) → PimEpoch → PimHost → Option (PimEpoch × PimHost × List Message)
  unfolding accept_loop
  handle_all_grants rand e h = if not (is_none e.match_receiver) then some (e, h, []) else (do
    assert (is_none e.proc_sender_iter_evt)
    (index, q) ← draw_loop (λ g. g.iter) rand e.iter (suc (length e.grants_q)) 0 e.grants_q
    accept_loop index 0 q (record e { grants_q = q }) h)

module _ (pim : PimParams) (flows : ℕ → PimFlow) (now : ℕ) (rand : ℕ → ℕ) where
  -- `schedule_sender_iter_evt` from `advance_iter` on, after the accepts.
  unfoldable pub next_iter :
      PimEpoch → PimHost → List Message → Option (PimEpoch × PimHost × List Message)
  unfolding advance_iter
  next_iter e h accepts =
      if ltb pim.pim_iter_limit (advance_iter e).iter
      then some (advance_iter e, h, accepts)
      else (do
        (h', requests) ← send_all_rts flows (advance_iter e) h
        some (
          record (advance_iter e) { proc_sender_iter_evt = some (now + h'.iter_epoch) },
          h',
          accepts ++ requests,
        ))

  unfoldable pub schedule_sender_iter_evt :
      PimEpoch → PimHost → Option (PimEpoch × PimHost × List Message)
  unfolding next_iter
  schedule_sender_iter_evt e h = do
    assert (is_none e.proc_sender_iter_evt)
    (e', h', accepts) ← handle_all_grants flows now rand e h
    next_iter e' h' accepts

  unfoldable pub schedule_receiver_iter_evt :
      PimEpoch → PimHost → Option (PimEpoch × PimHost × List Message)
  schedule_receiver_iter_evt e h = do
    assert (is_none e.proc_receiver_iter_evt)
    if ltb pim.pim_iter_limit e.iter then some (e, h, []) else (do
      (e', sent) ← handle_all_rts rand e
      some (record e' { proc_receiver_iter_evt = some (now + h.iter_epoch) }, h, sent))

  -- ProcessSenderIterEvent::process_event and ProcessReceiverIterEvent::process_event
  unfoldable pub process_sender_iter :
      PimEpoch → PimHost → Option (PimEpoch × PimHost × List Message)
  process_sender_iter e h = schedule_sender_iter_evt (record e { proc_sender_iter_evt = none }) h

  unfoldable pub process_receiver_iter :
      PimEpoch → PimHost → Option (PimEpoch × PimHost × List Message)
  process_receiver_iter e h =
      schedule_receiver_iter_evt (record e { proc_receiver_iter_evt = none }) h

-- `epochs[k]` replaced.
abbrev pub put_epoch : ℕ → Option PimEpoch → PimHost → PimHost
put_epoch k e h = record h { epochs = λ j. if k == j then e else h.epochs j }

-- `epochs.erase(k - 1)` for the epoch `k`; there is no epoch before 0.
abbrev pub erase_before : ℕ → PimHost → PimHost
erase_before zero h = h
erase_before (suc k) h = put_epoch k none h

abbrev pub fresh_epoch : (k time iter_epoch : ℕ) → PimEpoch
fresh_epoch k time iter_epoch = record {
  epoch = k;
  iter = 0;
  match_receiver = none;
  match_sender = none;
  proc_sender_iter_evt = some time;
  proc_receiver_iter_evt = some (time + iter_epoch / 2);
  grants_q = [];
  rts_q = [];
}

unfoldable pub start_new_epoch :
    Params → PimParams → (total_finished_flows time epoch : ℕ) → PimHost → Option PimHost
start_new_epoch params pim total_finished_flows time epoch h = elim (h.epochs epoch) [
  | some _ ↦ none
  | none ↦ some (
      if leb params.num_flows_to_run total_finished_flows
      then h
      else erase_before epoch (
          put_epoch epoch (some (fresh_epoch epoch time h.iter_epoch)) (record h {
            receiver = none;
            sender = none;
            cur_epoch = some epoch;
            new_epoch_evt = some (record { time = time + pim.pim_epoch; epoch = epoch + 1 });
          })))
]

-- NewEpochEvent::process_event
unfoldable pub process_new_epoch :
    Params → PimParams → (total_finished_flows : ℕ) → NewEpochEvent → PimHost → Option PimHost
unfolding start_new_epoch
process_new_epoch params pim total_finished_flows evt h =
    start_new_epoch params pim total_finished_flows evt.time evt.epoch
      (record h { new_epoch_evt = none })
