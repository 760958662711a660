-- ===== src/Pim/Network/Asserts.antt =====
-- The asserts of PimFlow::receive and PimEpoch on accepts and GrantsR packets.
use ruf.Prelude.{
  ℕ, ◌≡◌, refl, ap, ◌∙◌, Bool, true, false, List, [], ◌∷◌, Option, none, some, count-erase_idx,
  one_if, get_elem?, ◌==◌, ==_refl, Bool-cases, inl, inr, arith, if◌then◌else◌,
}
use ruf.Params.{Params}
use ruf.Pim.{PimParams}
use ruf.Pim.Host.{PimEpoch, PimHost, Message, rts, grants, accept, grantsr}
use ruf.Pim.Epoch.{is_host, is_none, put_epoch, receive_accept_pkt, receive_grantsr}
use ruf.Pim.Receive.{at_epoch, flow_of, receive, receive_live, target}
use ruf.Pim.Network.{System, Reach}
use ruf.Pim.Network.Balance.{carries}
use ruf.Pim.Network.Kept.{IsKept}
use ruf.Pim.Network.Matching.{IsInitial, IsInitial-IsKept, Reach-IsKept, is_host-eq-some}

-- An AcceptPkt or a GrantsR packet.
abbrev pub is_answer : Message → Bool
is_answer (rts f iter epoch) = false
is_answer (grants f iter epoch prompt) = false
is_answer (accept f accepted iter epoch) = true
is_answer (grantsr f iter epoch) = true

abbrev pub Returns : Option (PimHost × List Message) → Type 0
Returns r = (h : PimHost) × (sent : List Message) × (r ≡ some (h, sent))

at_epoch-Returns :
    (s : System) (v : IsKept s) (i k : ℕ)
    (act : PimEpoch → PimHost → Option (PimEpoch × PimHost × List Message))
    → ((e : PimEpoch)
        → (s.hosts i).epochs k ≡ some e
        → (e' : PimEpoch) × (w : PimHost) × (sent : List Message) × (act e (s.hosts i)
            ≡ some (e', w, sent)))
    → Returns (at_epoch k act (s.hosts i))
unfolding at_epoch
at_epoch-Returns s v i k act acts = elim (Bool-cases (is_host (s.hosts i).cur_epoch k)) [
  | inr old ↦ (s.hosts i, [], rw (old, at_epoch))
  | inl now ↦
      let (e, found) =
        v.present i k (is_host-eq-some (s.hosts i).cur_epoch k (rw now (omega arith))) in
      let (e', w, sent, runs) = acts e found in
      (put_epoch k (some e') w, sent, rw (now, found, runs, at_epoch))
]

accept-Returns :
    (flow src : ℕ) (accepted : Bool) (k : ℕ) (e : PimEpoch) (h : PimHost)
    → e.epoch ≡ k
    → (e' : PimEpoch) × (w : PimHost) × (sent : List Message) × (receive_accept_pkt flow src
          accepted k e h
        ≡ some (e', w, sent))
unfolding receive_accept_pkt
accept-Returns flow src false k e h same =
    let this : (k == e.epoch) ≡ true = ground arith in (e, h, [], rw this)
accept-Returns flow src true k e h same =
    let this : (k == e.epoch) ≡ true = ground arith in
    let out : PimEpoch × PimHost × List Message =
      if is_none e.match_sender
      then (record e { match_sender = some src }, record h { sender = some src }, [])
      else (e, h, grantsr flow e.iter e.epoch ∷ []) in
    (out.0, out.1, out.2, rw this)

grantsr-Returns :
    (dst k : ℕ) (e : PimEpoch) (h : PimHost)
    → e.epoch ≡ k
    → e.match_receiver ≡ some dst
    → (e' : PimEpoch) × (w : PimHost) × (sent : List Message) × (receive_grantsr dst k e h
        ≡ some (e', w, sent))
unfolding receive_grantsr
grantsr-Returns dst k e h same match =
    let this : (k == e.epoch) ≡ true = ground arith in
    let mine : is_host e.match_receiver dst ≡ true = ap (λ m. is_host m dst) match ∙ ==_refl dst in
    (record e { match_receiver = none }, record h { receiver = none }, [], rw (this, mine))

-- A GrantsR packet on its way is for the receiver that its sender has.
on_its_way :
    (s : System) (v : IsKept s) (j f iter k : ℕ)
    → get_elem? s.net j ≡ some (grantsr f iter k)
    → v.partner k (s.flows f).src ≡ some (s.flows f).dst
on_its_way s v j f iter k at =
    let one : one_if (carries s.flows k (s.flows f).src (s.flows f).dst (grantsr f iter k)) ≡ 1 =
      rw (==_refl k, ==_refl (s.flows f).src, ==_refl (s.flows f).dst) refl in
    is_host-eq-some (v.partner k (s.flows f).src) (s.flows f).dst (
      omega (
        arith,
        one,
        count-erase_idx (carries s.flows k (s.flows f).src (s.flows f).dst) s.net j
            (grantsr f iter k) at,
        v.bounded k (s.flows f).src (s.flows f).dst,
      ))

answer-Returns :
    (s : System) (v : IsKept s) (j : ℕ) (m : Message)
    → is_answer m ≡ true
    → get_elem? s.net j ≡ some m
    → Returns (receive_live s.flows m (s.hosts (target s.flows m)))
unfolding receive_live target
answer-Returns s v j (rts f iter epoch) answer at = cc
answer-Returns s v j (grants f iter epoch prompt) answer at = cc
answer-Returns s v j (accept f accepted iter k) answer at =
    at_epoch-Returns s v (s.flows f).dst k (receive_accept_pkt f (s.flows f).src accepted k)
      (λ e found.
        accept-Returns f (s.flows f).src accepted k e (s.hosts (s.flows f).dst)
          (v.named (s.flows f).dst k e found).0)
answer-Returns s v j (grantsr f iter k) answer at =
    at_epoch-Returns s v (s.flows f).src k (receive_grantsr (s.flows f).dst k) (λ e found.
      let known = v.named (s.flows f).src k e found in
      grantsr-Returns (s.flows f).dst k e (s.hosts (s.flows f).src) known.0
        (known.2 ∙ on_its_way s v j f iter k at))

-- In every state that is reached from one in which no host has begun an epoch and no packet is on its
-- way, an AcceptPkt or a GrantsR packet that is on its way is received with no failed assert: the
-- host has the epoch if it is the current one, and a GrantsR packet comes from the receiver that
-- the sender has.
pub receive-answers :
    (params : Params) (pim : PimParams) (s t : System)
    → IsInitial s
    → Reach params pim s t
    → (j : ℕ) (m : Message) → is_answer m ≡ true
    → get_elem? t.net j ≡ some m
    → Returns (receive t.flows m (t.hosts (target t.flows m)))
unfolding receive
receive-answers params pim s t c r j m answer at =
    elim (Bool-cases (t.flows (flow_of m)).finished) [
      | inl over ↦ (t.hosts (target t.flows m), [], rw over)
      | inr live ↦
          let (h, sent, runs) =
            answer-Returns t (Reach-IsKept params pim r (IsInitial-IsKept s c)) j m answer at in
          (h, sent, rw live runs)
    ]
