-- ===== src/Pim/Network.antt =====
-- The hosts of PIM and the control packets between them (simulator/ext/pimhost.cpp and pimflow.cpp), as
-- a step relation: packets may be delivered in any order, late, or never, and the events of the
-- hosts run in any order. A step is a whole event of the simulator.
pub mod Balance
pub mod Accepts
pub mod Rounds
pub mod Kept
pub mod Begin
pub mod Matching
pub mod Asserts
use ruf.Prelude.{
  ℕ, ◌+◌, ◌≡◌, ◌==◌, List, ◌++◌, Option, none, some, get_elem?, erase_idx, if◌then◌else◌,
}
use ruf.Params.{Params}
use ruf.Pim.{PimParams, PimFlow}
use ruf.Pim.Host.{PimEpoch, PimHost, NewEpochEvent, Message}
use ruf.Pim.Epoch.{
  process_sender_iter, process_receiver_iter, start_new_epoch, process_new_epoch, put_epoch,
}
use ruf.Pim.Receive.{target, receive}

-- The flows, the hosts by their ids, and the control packets on their way.
pub record System : Type 0 where
  pub flows : ℕ → PimFlow
  pub hosts : ℕ → PimHost
  pub net : List Message

abbrev pub set_host : ℕ → PimHost → (ℕ → PimHost) → ℕ → PimHost
set_host i h hosts = λ j. if i == j then h else hosts j

-- What the epochs of a host are, and which comes next.
pub record SameEpochs (h h' : PimHost) : Type 0 where
  pub epochs : h'.epochs ≡ h.epochs
  pub cur : h'.cur_epoch ≡ h.cur_epoch
  pub evt : h'.new_epoch_evt ≡ h.new_epoch_evt

-- The flows have their ends, whatever else happens to them.
abbrev pub SameEnds : (ℕ → PimFlow) → (ℕ → PimFlow) → Type 0
SameEnds flows flows' =
    (f : ℕ) → ((flows' f).src ≡ (flows f).src) × ((flows' f).dst ≡ (flows f).dst)

module _ (params : Params) (pim : PimParams) where
  pub data Step (s : System) : System → Type 0 where
    deliver :
        {h : PimHost} {sent : List Message} (j : ℕ) (m : Message)
        → get_elem? s.net j ≡ some m
        → receive s.flows m (s.hosts (target s.flows m)) ≡ some (h, sent)
        → Step s (record s {
          hosts = set_host (target s.flows m) h s.hosts;
          net = erase_idx s.net j ++ sent;
        })
    -- A packet that a queue drops.
    lose : (j : ℕ) → Step s (record s { net = erase_idx s.net j })
    sender_iter :
        {e e' : PimEpoch} {h : PimHost} {sent : List Message} (i k now : ℕ) (rand : ℕ → ℕ)
        → (s.hosts i).epochs k ≡ some e
        → e.proc_sender_iter_evt ≡ some now
        → process_sender_iter pim s.flows now rand e (s.hosts i) ≡ some (e', h, sent)
        → Step s
            (record s { hosts = set_host i (put_epoch k (some e') h) s.hosts; net = s.net ++ sent })
    receiver_iter :
        {e e' : PimEpoch} {h : PimHost} {sent : List Message} (i k now : ℕ) (rand : ℕ → ℕ)
        → (s.hosts i).epochs k ≡ some e
        → e.proc_receiver_iter_evt ≡ some now
        → process_receiver_iter pim s.flows now rand e (s.hosts i) ≡ some (e', h, sent)
        → Step s
            (record s { hosts = set_host i (put_epoch k (some e') h) s.hosts; net = s.net ++ sent })
    -- The call in simulator/run/experiment.cpp, once for each host.
    begin :
        {h : PimHost} (i now finished : ℕ)
        → (s.hosts i).cur_epoch ≡ none
        → start_new_epoch params pim finished now 0 (s.hosts i) ≡ some h
        → Step s (record s { hosts = set_host i h s.hosts })
    new_epoch :
        {h : PimHost} (i finished : ℕ) (evt : NewEpochEvent)
        → (s.hosts i).new_epoch_evt ≡ some evt
        → process_new_epoch params pim finished evt (s.hosts i) ≡ some h
        → Step s (record s { hosts = set_host i h s.hosts })
    -- Whatever data packets, acknowledgements, and new or finished flows do.
    other :
        (flows : ℕ → PimFlow) (hosts : ℕ → PimHost)
        → SameEnds s.flows flows
        → ((i : ℕ) → SameEpochs (s.hosts i) (hosts i))
        → Step s (record s { flows = flows; hosts = hosts })

  pub data Reach (s : System) : System → Type 0 where
    here : Reach s s
    next : {t u : System} → Reach s t → Step t u → Reach s u
